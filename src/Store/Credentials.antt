-- ===== src/Store/Credentials.antt =====
-- gateway/src/storage/sqlite_store.rs: credentials and gateway state.
use ilink_gateway.Prelude.{◌≡◌, refl, none, some, ◌++◌, arith, if◌then◌else◌}
use ilink_gateway.Text.{Text, ◌==◌, codes}
use ilink_gateway.Map.Laws.{lookup-insert, lookup-remove}
use ilink_gateway.Error.{ok, err, storage}
use ilink_gateway.Store.{
  Faults, no_faults, SqliteStore, save_credentials, load_credentials, delete_credentials, get_state,
  set_state, delete_state,
}

-- Where no statement fails, what is loaded after a save is what was saved, whatever was stored
-- before, and nothing is loaded after a delete.
pub load-save_credentials :
    (now account_id token base_url user_id : Text) (s : SqliteStore)
    → (load_credentials no_faults
          (save_credentials no_faults now account_id token base_url user_id s).1
        ≡ ok (
            some (record {
              account_id = account_id;
              token = token;
              base_url = base_url;
              user_id = user_id;
              saved_at = now;
            })))
      × (load_credentials no_faults (delete_credentials no_faults s).1 ≡ ok none)
unfolding save_credentials load_credentials delete_credentials
load-save_credentials now account_id token base_url user_id s = (refl, refl)

-- A save whose insert fails reports an error, and the credentials stored before are gone.
pub save_credentials_loses :
    (fault : Faults) (e now account_id token base_url user_id : Text) (s : SqliteStore)
    → fault 0 ≡ none
    → fault 1 ≡ some e
    → ((save_credentials fault now account_id token base_url user_id s).0
        ≡ err (storage (codes "Failed to save credentials: " ++ e)))
      × (load_credentials no_faults
            (save_credentials fault now account_id token base_url user_id s).1
          ≡ ok none)
unfolding save_credentials load_credentials
save_credentials_loses fault e now account_id token base_url user_id s h k = rw (h, k) (refl, refl)

-- Where no statement fails, a state key reads as it was set last, and as none after a delete, and
-- neither touches another key.
pub get-set_state :
    (key j value : Text) (s : SqliteStore)
    → (get_state no_faults j (set_state no_faults key value s).1
        ≡ (if key == j then ok (some value) else get_state no_faults j s))
      × (get_state no_faults j (delete_state no_faults key s).1
          ≡ (if key == j then ok none else get_state no_faults j s))
unfolding get_state set_state delete_state
get-set_state key j value s = (
  ground (arith, lookup-insert key j value s.gateway_state),
  ground (arith, lookup-remove key j s.gateway_state),
)
