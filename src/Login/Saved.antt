-- ===== src/Login/Saved.antt =====
-- gateway/src/main.rs and gateway/src/storage/sqlite_store.rs: what a login leaves in the store.
use ilink_gateway.Prelude.{◌⊎◌, inl, inr, ◌≡◌, refl, Option, none, some}
use mathlib.Core.Path.{subst}
use ilink_gateway.Text.{Text}
use ilink_gateway.Error.{Result, ok, err, panic}
use ilink_gateway.Store.{
  SqliteStore, StoredCredentials, no_faults, save_credentials, load_credentials,
}
use ilink_gateway.Store.Credentials.{load-save_credentials}
use ilink_gateway.Client.{Client}
use ilink_gateway.Client.Calls.{notify_start}
use ilink_gateway.Login.{
  LoginEnv, LoginState, Confirmed, Left, login_loop, begin_login, login_fuel, Login, save_login,
  notified, after_loop, finish, run_loop, qr_login_and_save,
}

-- Can this token and this URL be loaded?
abbrev pub CanLoad : SqliteStore → Text → Text → Type 0
CanLoad store token base_url =
    (c : StoredCredentials) × (load_credentials no_faults store ≡ ok (some c))
    × (c.token ≡ token)
    × (c.base_url ≡ base_url)

-- A login that succeeded can be loaded; one that failed has left the store alone; one that panicked
-- has done either.
abbrev pub Kept : SqliteStore → Login → Type 0
Kept store (ok (token, base_url), store') = CanLoad store' token base_url
Kept store (err e, store') = store' ≡ store
Kept store (panic, store') =
    (store' ≡ store) ⊎ (token : Text) × (base_url : Text) × CanLoad store' token base_url

abbrev KeptOption : SqliteStore → Option Login → Type 0
KeptOption store none = Unit
KeptOption store (some l) = Kept store l

notified-Kept :
    (r : Result (Unit {0})) (token base_url : Text) (store store' : SqliteStore)
    → CanLoad store' token base_url
    → Kept store (notified r (token, base_url), store')
notified-Kept (ok u) token base_url store store' h = h
notified-Kept (err e) token base_url store store' h = h
notified-Kept panic token base_url store store' h = inr (token, base_url, h)

save_login-Kept :
    (env : LoginEnv) (at : Text) (client : Client) (c : Confirmed) (store : SqliteStore)
    → Kept store (save_login env no_faults at client c store)
unfolding save_login save_credentials
save_login-Kept env at client c store =
    notified-Kept (notify_start env.notify client c.token) c.token c.base_url store _
      (_, (load-save_credentials at c.account_id c.token c.base_url c.user_id store).0, refl, refl)

after_loop-Kept :
    (env : LoginEnv) (at : Text) (client : Client) (res : Result Confirmed) (store : SqliteStore)
    → Kept store (after_loop env no_faults at client res store)
after_loop-Kept env at client (ok c) store = save_login-Kept env at client c store
after_loop-Kept env at client (err e) store = refl
after_loop-Kept env at client panic store = inl refl

finish-Kept :
    (env : LoginEnv) (at : Text) (store : SqliteStore) (o : Option Left)
    → KeptOption store (finish env no_faults at store o)
finish-Kept env at store none = tt
finish-Kept env at store (some left) = after_loop-Kept env at left.state.client left.result store

run_loop-Kept :
    (env : LoginEnv) (at : Text) (begun : Result LoginState) (store : SqliteStore)
    → KeptOption store (run_loop env no_faults at begun store)
run_loop-Kept env at (ok st) store = finish-Kept env at store (login_loop login_fuel env 0 st)
run_loop-Kept env at (err e) store = refl
run_loop-Kept env at panic store = inl refl

-- Where no statement of the store fails, a login that returns a token and a URL has stored them, so
-- that the next start loads them, a login that fails has not changed the store, and a login that
-- panics has done the one or the other.
pub qr_login-Kept :
    (env : LoginEnv) (at base : Text) (store : SqliteStore) (l : Login)
    → qr_login_and_save env no_faults at base store ≡ some l
    → Kept store l
unfolding qr_login_and_save
qr_login-Kept env at base store l e =
    subst (KeptOption store) e (run_loop-Kept env at (begin_login env base) store)
