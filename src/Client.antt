-- ===== src/Client.antt =====
-- gateway/src/ilink/client.rs: the requests of the iLink client, and what it makes of the answers.
-- The HTTP library, the JSON library, base64 and the random number are arguments.
pub mod Encoding
pub mod Calls
use ilink_gateway.Prelude.{
  ℕ, ◌+◌, ◌-◌, ◌/◌, ◌%◌, Bool, ◌&&◌, ◌||◌, Option, none, some, List, [], ◌∷◌, ◌++◌, ltb, leb,
  nat_eq, if◌then◌else◌, pos, int_eq,
}
use ilink_gateway.Text.{Text, codes}
use ilink_gateway.Text.Number.{show_nat}
use ilink_gateway.Text.Utf8.{utf8}
use ilink_gateway.Error.{Result, ok, err, panic, ilink}
use ilink_gateway.Json.{Json, get, as_i64, get_str}
use ilink_gateway.Types.{SendMessageRequest, SendMessageResponse, GetUpdatesResponse}
use ilink_gateway.Types.Message.{unwrap_or}
use ilink_gateway.Types.Requests.{
  GetQrcodeResponse, QrcodeStatusResponse, GetUploadUrlRequest, GetUploadUrlResponse,
  GetUpdatesRequest, SendTypingRequest, GetConfigRequest, GetConfigResponse,
}

pub record Client : Type 0 where
  pub base_url : Text

-- The body of a request, before it is written as JSON.
pub data Body : Type 0 where
  no_body : Body
  updates_body : GetUpdatesRequest → Body
  message_body : SendMessageRequest → Body
  typing_body : SendTypingRequest → Body
  config_body : GetConfigRequest → Body
  upload_body : GetUploadUrlRequest → Body
  json_body : Json → Body

pub data Method : Type 0 where
  http_get http_post : Method

abbrev pub Headers : Type 0
Headers = List (Text × Text)

pub record HttpRequest : Type 0 where
  pub method : Method
  pub url : Text
  pub headers : Headers
  pub body : Body

-- `reason` is the display of the status, and reading the text of the body may fail.
pub record HttpResponse : Type 0 where
  pub status : ℕ
  pub reason : Text
  pub text : Result Text

-- The world of one call: the random number of its header, what may stand in a header, the exchange
-- with the server, and the readers of the JSON library.
pub record ClientEnv : Type 0 where
  pub random : ℕ
  pub base64 : Text → Text
  pub is_header_value : Text → Bool
  pub send : HttpRequest → Result HttpResponse
  pub from_str : Text → Option Json
  pub read_qrcode : Text → Result GetQrcodeResponse
  pub read_status : Text → Result QrcodeStatusResponse
  pub read_updates : Text → Result GetUpdatesResponse
  pub read_message : Text → Result SendMessageResponse
  pub read_config : Text → Result GetConfigResponse
  pub read_upload : Text → Result GetUploadUrlResponse

unfoldable pub generate_uin : ClientEnv → Text
generate_uin env = env.base64 (show_nat env.random)

-- A token that cannot stand in a header makes the call panic.
unfoldable pub build_headers : ClientEnv → Option Text → Result Headers
unfolding generate_uin
build_headers env token =
    let fixed : Headers =
      (codes "AuthorizationType", codes "ilink_bot_token")
      ∷ (codes "X-WECHAT-UIN", generate_uin env)
      ∷ (codes "iLink-App-Id", codes "bot")
      ∷ (codes "iLink-App-ClientVersion", codes "131584")
      ∷ [] in
    elim token [
      | none ↦ ok fixed
      | some t ↦
          let bearer : Text = codes "Bearer " ++ t in
          if env.is_header_value bearer
          then ok (fixed ++ ((codes "Authorization", bearer) ∷ []))
          else panic
    ]

-- What the JSON of an answer says of its `ret`.
abbrev pub check_value : Json → Result (Unit {0})
check_value v = elim (get (codes "ret") v) [
  | none ↦ ok tt
  | some r ↦ elim (as_i64 r) [
    | none ↦ ok tt
    | some ret ↦
        if int_eq ret (pos 0)
        then ok tt
        else err (ilink (unwrap_or (codes "unknown error") (get_str (codes "errmsg") v)))
  ]
]

unfoldable pub check_ret : ClientEnv → Text → Result (Unit {0})
check_ret env [] = ok tt
check_ret env (c ∷ body) = elim (env.from_str (c ∷ body)) [ none ↦ ok tt | some v ↦ check_value v ]

-- One digit of `{:02X}`.
unfoldable pub hex_digit : ℕ → ℕ
hex_digit n = if ltb n 10 then b'0' + n else b'A' + (n - 10)

abbrev pub between : ℕ → ℕ → ℕ → Bool
between lo hi c = leb lo c && leb c hi

unfoldable pub is_unreserved : ℕ → Bool
is_unreserved c =
    between b'A' b'Z' c
    || between b'a' b'z' c
    || between b'0' b'9' c
    || nat_eq c b'-'
    || nat_eq c b'_'
    || nat_eq c b'.'
    || nat_eq c b'~'

unfoldable pub encode_byte : ℕ → Text
unfolding is_unreserved hex_digit
encode_byte b =
    if is_unreserved b
    then b ∷ []
    else if nat_eq b b' '
    then codes "%20"
    else b'%' ∷ hex_digit (b / 16) ∷ hex_digit (b % 16) ∷ []

abbrev pub encode_bytes : List ℕ → Text
encode_bytes [] = []
encode_bytes (b ∷ bs) = encode_byte b ++ encode_bytes bs

unfoldable pub urlencoding : Text → Text
unfolding encode_byte utf8
urlencoding s = encode_bytes (utf8 s)
