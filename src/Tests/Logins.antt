-- ===== src/Tests/Logins.antt =====
-- A login at concrete inputs: the first code expires, and the second one is confirmed.
use ilink_gateway.Prelude.{
  ℕ, zero, suc, ◌+◌, ◌<◌, ◌≤◌, ◌≡◌, refl, Bool, true, none, some, [], ◌∷◌, ◌++◌, arith, length, ltb,
  nat_eq, if◌then◌else◌, pos,
}
use ilink_gateway.Text.{Text, ◌==◌, codes}
use ilink_gateway.Error.{Result, ok}
use ilink_gateway.Config
use ilink_gateway.Config.{GatewayConfig}
use ilink_gateway.Types.Requests.{GetQrcodeResponse, QrcodeStatusResponse}
use ilink_gateway.Store
use ilink_gateway.Store.{SqliteStore, no_faults, load_credentials}
use ilink_gateway.Client.{ClientEnv, build_headers}
use ilink_gateway.Client.Calls
use ilink_gateway.Client.Calls.{exchange, read_answer, get_qr_code, poll_qr_status}
use ilink_gateway.Login.{
  LoginEnv, LoginState, Left, show_qr, confirm, expire, on_status, round, login_loop, begin_login,
  login_fuel, Login, save_login, qr_login_and_save,
}
use ilink_gateway.Login.Ends.{EndsInTime, qr_login-ends}
use ilink_gateway.Login.Codes.{qr_codes_bound}
use ilink_gateway.Startup.{first_credentials}
use ilink_gateway.Startup.Restart.{restart-qr_login}

abbrev qr_of : Text → GetQrcodeResponse
qr_of q = record { ret = pos 0; qrcode = some q; qrcode_img_content = some []; errmsg = none }

abbrev status_expired : QrcodeStatusResponse
status_expired = record {
  ret = pos 0;
  status = some (codes "expired");
  bot_token = none;
  baseurl = none;
  ilink_bot_id = none;
  ilink_user_id = none;
  errmsg = none;
}

abbrev status_confirmed : QrcodeStatusResponse
status_confirmed = record {
  ret = pos 0;
  status = some (codes "confirmed");
  bot_token = some (codes "tok");
  baseurl = none;
  ilink_bot_id = some (codes "bot");
  ilink_user_id = none;
  errmsg = none;
}

-- A server that answers every request with a success of this QR code and this status.
abbrev world : Text → QrcodeStatusResponse → ClientEnv
world q status = record {
  random = 7;
  base64 = λ t. t;
  is_header_value = λ t. true;
  send = λ req. ok (record { status = 200; reason = []; text = ok [] });
  from_str = λ t. none;
  read_qrcode = λ t. ok (qr_of q);
  read_status = λ t. ok status;
  read_updates = λ t.
      ok
        (record { ret = none; errcode = none; errmsg = none; get_updates_buf = none; msgs = none });
  read_message = λ t. ilink_gateway.Error.panic;
  read_config = λ t. ilink_gateway.Error.panic;
  read_upload = λ t. ilink_gateway.Error.panic;
}

abbrev env : LoginEnv
env = record {
  started = 1000;
  clock = λ n. 1000 + n + n;
  first = world (codes "q1") status_expired;
  poll = λ n. world [] (if nat_eq n 0 then status_expired else status_confirmed);
  refresh = λ n. world (codes "q2") status_expired;
  notify = world [] status_expired;
  build = none;
  build_again = λ n. none;
}

abbrev base : Text
base = codes "https://h"

abbrev shown : Text → ℕ → ilink_gateway.Prelude.List Text → LoginState
shown q n rendered = record {
  client = record { base_url = base };
  qrcode = q;
  expired_retries = n;
  rendered = rendered;
}

abbrev left : Left
left = record {
  result = ok (record {
    token = codes "tok";
    base_url = codes "https://ilinkai.weixin.qq.com";
    account_id = codes "bot";
    user_id = codes "unknown";
  });
  state = shown (codes "q2") 1 (codes "q2" ∷ codes "q1" ∷ []);
  rounds = 2;
}

begun : begin_login env base ≡ ok (shown (codes "q1") 0 (codes "q1" ∷ []))
unfolding begin_login Calls.new get_qr_code exchange read_answer build_headers show_qr
begun = refl

finished_login : login_loop login_fuel env 0 (shown (codes "q1") 0 (codes "q1" ∷ [])) ≡ some left
unfolding login_loop round on_status confirm expire show_qr get_qr_code poll_qr_status exchange
    read_answer build_headers ◌==◌
finished_login = refl

qr_codes_bound_example :
    (l : Left) × (login_loop login_fuel env 0 (shown (codes "q1") 0 (codes "q1" ∷ [])) ≡ some l)
    × (0 < length l.state.rendered)
    × (length l.state.rendered ≤ 4)
qr_codes_bound_example =
    qr_codes_bound env base (shown (codes "q1") 0 (codes "q1" ∷ [])) (λ n. omega arith)
      (omega arith) begun

qr_login-ends_example :
    (l : Login) × (qr_login_and_save env no_faults (codes "1") base Store.new ≡ some l)
    × EndsInTime env (begin_login env base)
qr_login-ends_example =
    qr_login-ends env no_faults (codes "1") base Store.new (λ n. omega arith) (omega arith)

abbrev config : GatewayConfig
config = record Config.default { ilink_base_url = base }

-- The store after the login.
abbrev kept : SqliteStore
kept = record Store.new {
  credentials =
      record {
        account_id = codes "bot";
        token = codes "tok";
        base_url = codes "https://ilinkai.weixin.qq.com";
        user_id = codes "unknown";
        saved_at = codes "1";
      }
      ∷ [];
}

logged_in :
    qr_login_and_save env no_faults (codes "1") base Store.new
    ≡ some (ok (codes "tok", codes "https://ilinkai.weixin.qq.com"), kept)
unfolding qr_login_and_save login_loop begin_login Calls.new round on_status confirm expire show_qr
    get_qr_code poll_qr_status exchange read_answer build_headers ◌==◌ save_login
    ilink_gateway.Store.save_credentials Calls.notify_start ilink_gateway.Client.check_ret
logged_in = refl

restart-qr_login_example :
    first_credentials env no_faults no_faults (codes "2") config kept
    ≡ some (ok (codes "tok", codes "https://ilinkai.weixin.qq.com"), kept)
restart-qr_login_example =
    restart-qr_login env env no_faults (codes "1") (codes "2") config Store.new kept (codes "tok")
      (codes "https://ilinkai.weixin.qq.com") logged_in
