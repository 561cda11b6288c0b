-- ===== src/Login.antt =====
-- `qr_login_and_save` of gateway/src/main.rs. Each round of its loop has its own time and its own
-- world for the calls of the client.
pub mod Ends
pub mod Codes
pub mod Saved
use ilink_gateway.Prelude.{
  ℕ, zero, suc, ◌+◌, Option, none, some, List, [], ◌∷◌, ltb, leb, if◌then◌else◌,
}
use ilink_gateway.Text.{Text, codes, ◌==◌}
use ilink_gateway.Error.{GatewayError, Result, ok, err, panic, ◌>>=◌, ilink}
use ilink_gateway.Config.{ilink_base_url_default}
use ilink_gateway.Types.Message.{unwrap_or}
use ilink_gateway.Types.Requests.{GetQrcodeResponse, QrcodeStatusResponse}
use ilink_gateway.Store.{SqliteStore, Faults, save_credentials}
use ilink_gateway.Client.{Client, ClientEnv}
use ilink_gateway.Client.Calls
use ilink_gateway.Client.Calls.{get_qr_code, poll_qr_status, notify_start}

-- Seconds on one clock, the calls of a round and those around the loop, and whether a new HTTP
-- client can be built.
pub record LoginEnv : Type 0 where
  pub started : ℕ
  pub clock : ℕ → ℕ
  pub first : ClientEnv
  pub poll : ℕ → ClientEnv
  pub refresh : ℕ → ClientEnv
  pub notify : ClientEnv
  pub build : Option GatewayError
  pub build_again : ℕ → Option GatewayError

-- The loop's variables, and the QR codes that were rendered, the last one first.
pub record LoginState : Type 0 where
  pub client : Client
  pub qrcode : Text
  pub expired_retries : ℕ
  pub rendered : List Text

pub record Confirmed : Type 0 where
  pub token : Text
  pub base_url : Text
  pub account_id : Text
  pub user_id : Text

-- The URL that the code shows; the key, where there is none.
abbrev pub scan_data : Text → Option Text → Text
scan_data qrcode none = qrcode
scan_data qrcode (some []) = qrcode
scan_data qrcode (some (c ∷ s)) = c ∷ s

-- A fresh code is fetched and rendered.
unfoldable pub show_qr : GatewayError → GetQrcodeResponse → LoginState → Result LoginState
show_qr missing resp st = elim resp.qrcode [
  | none ↦ err missing
  | some qrcode ↦ ok (record st {
    qrcode = qrcode;
    rendered = scan_data qrcode resp.qrcode_img_content ∷ st.rendered;
  })
]

unfoldable pub confirm : QrcodeStatusResponse → Result Confirmed
confirm resp = elim resp.bot_token [
  | none ↦ err (ilink (codes "confirmed but no token"))
  | some token ↦ ok (record {
    token = token;
    base_url = unwrap_or ilink_base_url_default resp.baseurl;
    account_id = unwrap_or (codes "unknown") resp.ilink_bot_id;
    user_id = unwrap_or (codes "unknown") resp.ilink_user_id;
  })
]

abbrev pub expired_error : GatewayError
expired_error = ilink (codes "QR code expired 3 times; please restart")

abbrev pub timeout_error : GatewayError
timeout_error = ilink (codes "QR login timed out after 480 seconds")

-- What a round ends with: the loop goes on, or it is left.
pub data Round : Type 0 where
  again : LoginState → Round
  leave : Result Confirmed → Round

abbrev pub again_if : Result LoginState → Round
again_if (ok st) = again st
again_if (err e) = leave (err e)
again_if panic = leave panic

unfoldable pub expire : ClientEnv → LoginState → Round
unfolding show_qr
expire env st =
    let st' : LoginState = record st { expired_retries = st.expired_retries + 1 } in
    if ltb 3 (st.expired_retries + 1)
    then leave (err expired_error)
    else again_if (
        get_qr_code env st.client >>= λ resp.
        show_qr (ilink (codes "refreshed QR code key is empty")) resp st')

unfoldable pub redirect : Option GatewayError → Option Text → LoginState → Round
redirect build none st = again st
redirect build (some base) st =
    again_if (Calls.new build (some base) >>= λ client. ok (record st { client = client }))

abbrev pub status_of : QrcodeStatusResponse → Text
status_of resp = unwrap_or [] resp.status

-- The `match` on the status; any other status, or none, goes on.
unfoldable pub on_status : LoginEnv → ℕ → QrcodeStatusResponse → LoginState → Round
unfolding confirm expire redirect
on_status env n resp st =
    if status_of resp == codes "confirmed"
    then leave (confirm resp)
    else if status_of resp == codes "scaned_but_redirect"
    then redirect (env.build_again n) resp.baseurl st
    else if status_of resp == codes "expired"
    then expire (env.refresh n) st
    else again st

abbrev pub on_answer : LoginEnv → ℕ → Result QrcodeStatusResponse → LoginState → Round
on_answer env n (ok resp) st = on_status env n resp st
on_answer env n (err e) st = leave (err e)
on_answer env n panic st = leave panic

-- The body of the loop behind its deadline check.
unfoldable pub round : LoginEnv → ℕ → LoginState → Round
unfolding on_status
round env n st = on_answer env n (poll_qr_status (env.poll n) st.client st.qrcode) st

-- How the loop was left, and how many rounds it has made, each behind a look at the deadline.
pub record Left : Type 0 where
  pub result : Result Confirmed
  pub state : LoginState
  pub rounds : ℕ

abbrev pub deadline_of : LoginEnv → ℕ
deadline_of env = env.started + 480

-- The loop, from the n-th round on; none, where the fuel runs out.
unfoldable pub login_loop : ℕ → LoginEnv → ℕ → LoginState → Option Left
login_loop zero env n st = none
login_loop (suc fuel) env n st =
    let on = λ (st' : LoginState). login_loop fuel env (n + 1) st' in
    if leb (deadline_of env) (env.clock n)
    then some (record { result = err timeout_error; state = st; rounds = n })
    else elim (round env n st) [
      | leave res ↦ some (record { result = res; state = st; rounds = n + 1 })
      | again st' ↦ on st'
    ]

-- The steps in front of the loop.
unfoldable pub begin_login : LoginEnv → Text → Result LoginState
unfolding show_qr
begin_login env initial_base_url = Calls.new env.build (some initial_base_url) >>= λ client.
    get_qr_code env.first client >>= λ resp.
    show_qr (ilink (codes "QR code key is empty")) resp
      (record { client = client; qrcode = []; expired_retries = 0; rendered = [] })

-- More rounds than the loop can make before its deadline.
abbrev pub login_fuel : ℕ
login_fuel = 481

abbrev pub Login : Type 0
Login = Result (Text × Text) × SqliteStore

-- What the notification returns is ignored, but a token that cannot stand in a header makes it panic.
abbrev pub notified : Result (Unit {0}) → Text × Text → Result (Text × Text)
notified (ok u) pair = ok pair
notified (err e) pair = ok pair
notified panic pair = panic

-- The credentials are saved at the time `at`, and the server is notified.
unfoldable pub save_login : LoginEnv → Faults → Text → Client → Confirmed → SqliteStore → Login
save_login env fault at client c store =
    let (saved, store') =
      save_credentials fault at c.account_id c.token c.base_url c.user_id store in
    (saved >>= λ u. notified (notify_start env.notify client c.token) (c.token, c.base_url), store')

abbrev pub after_loop : LoginEnv → Faults → Text → Client → Result Confirmed → SqliteStore → Login
after_loop env fault at client (ok c) store = save_login env fault at client c store
after_loop env fault at client (err e) store = (err e, store)
after_loop env fault at client panic store = (panic, store)

abbrev pub finish : LoginEnv → Faults → Text → SqliteStore → Option Left → Option Login
finish env fault at store none = none
finish env fault at store (some left) =
    some (after_loop env fault at left.state.client left.result store)

abbrev pub run_loop : LoginEnv → Faults → Text → Result LoginState → SqliteStore → Option Login
run_loop env fault at (err e) store = some (err e, store)
run_loop env fault at panic store = some (panic, store)
run_loop env fault at (ok st) store = finish env fault at store (login_loop login_fuel env 0 st)

unfoldable pub qr_login_and_save : LoginEnv → Faults → Text → Text → SqliteStore → Option Login
unfolding login_loop begin_login save_login
qr_login_and_save env fault at initial_base_url store =
    run_loop env fault at (begin_login env initial_base_url) store
