-- ===== src/Client/Calls.antt =====
-- gateway/src/ilink/client.rs: the calls of the iLink client.
use ilink_gateway.Prelude.{ℕ, Bool, ◌&&◌, Option, none, some, ◌++◌, ltb, leb, if◌then◌else◌}
use ilink_gateway.Text.{Text, codes}
use ilink_gateway.Error.{GatewayError, Result, ok, err, ◌>>=◌, ilink}
use ilink_gateway.Json.{object, end}
use ilink_gateway.Config.{ilink_base_url_default}
use ilink_gateway.Types.{
  BaseInfo, channel_default, SendMessageRequest, SendMessageResponse, GetUpdatesResponse,
}
use ilink_gateway.Types.Message.{unwrap_or}
use ilink_gateway.Types.Requests.{
  GetQrcodeResponse, QrcodeStatusResponse, GetUploadUrlRequest, GetUploadUrlResponse,
  SendTypingRequest, GetConfigRequest, GetConfigResponse,
}
use ilink_gateway.Send.{fill_base_info}
use ilink_gateway.Client.{
  Client, ClientEnv, Method, http_get, http_post, Body, no_body, updates_body, message_body,
  typing_body, config_body, upload_body, json_body, HttpResponse, build_headers, check_ret,
  urlencoding,
}

-- `StatusCode::is_success`
abbrev pub is_success : ℕ → Bool
is_success status = leb 200 status && ltb status 300

-- What every call does with its answer: a status that is no success is an error, and so is a body
-- that cannot be read.
unfoldable pub read_answer {ℓ} : {A : Type ℓ} → (Text → Result A) → HttpResponse → Result A
read_answer read resp =
    if is_success resp.status
    then resp.text >>= read
    else err (ilink (codes "HTTP " ++ resp.reason))

-- The request of every call: headers, the exchange, and the reading of the answer.
unfoldable pub exchange {ℓ} :
    {A : Type ℓ} → ClientEnv → Method → Text → Option Text → Body → (Text → Result A) → Result A
unfolding read_answer
exchange env method url token body read = build_headers env token >>= λ headers.
    env.send (record { method = method; url = url; headers = headers; body = body })
    >>= read_answer read

-- `Client::new`; building the HTTP client may fail.
unfoldable pub new : Option GatewayError → Option Text → Result Client
new fault base_url = elim fault [
  | some e ↦ err e
  | none ↦ ok (record { base_url = unwrap_or ilink_base_url_default base_url })
]

abbrev pub or_channel : Option BaseInfo → Option BaseInfo
or_channel none = some channel_default
or_channel (some b) = some b

module _ (env : ClientEnv) (client : Client) where
  abbrev pub endpoint : Text → Text
  endpoint path = client.base_url ++ path

  unfoldable pub get_qr_code : Result GetQrcodeResponse
  unfolding exchange
  get_qr_code =
      exchange env http_get (endpoint (codes "/ilink/bot/get_bot_qrcode?bot_type=3")) none no_body
        env.read_qrcode

  unfoldable pub poll_qr_status : Text → Result QrcodeStatusResponse
  unfolding exchange
  poll_qr_status qrcode =
      exchange env http_get
        (endpoint (codes "/ilink/bot/get_qrcode_status?qrcode=" ++ urlencoding qrcode)) none no_body
        env.read_status

  unfoldable pub get_updates : Text → Text → Option ℕ → Result GetUpdatesResponse
  unfolding exchange
  get_updates token sync_buf timeout =
      exchange env http_post (endpoint (codes "/ilink/bot/getupdates")) (some token)
        (updates_body (record {
          get_updates_buf = sync_buf;
          base_info = some channel_default;
          timeout = timeout;
        }))
        env.read_updates

  unfoldable pub send_message : Text → SendMessageRequest → Result SendMessageResponse
  unfolding exchange
  send_message token req =
      exchange env http_post (endpoint (codes "/ilink/bot/sendmessage")) (some token)
        (message_body (fill_base_info req)) env.read_message

  unfoldable pub send_typing : Text → SendTypingRequest → Result (Unit {0})
  unfolding exchange
  send_typing token req =
      exchange env http_post (endpoint (codes "/ilink/bot/sendtyping")) (some token)
        (typing_body (record req { base_info = or_channel req.base_info })) (check_ret env)

  unfoldable pub get_config : Text → GetConfigRequest → Result GetConfigResponse
  unfolding exchange
  get_config token req =
      exchange env http_post (endpoint (codes "/ilink/bot/getconfig")) (some token)
        (config_body (record req { base_info = or_channel req.base_info })) env.read_config

  unfoldable pub get_upload_url : Text → GetUploadUrlRequest → Result GetUploadUrlResponse
  unfolding exchange
  get_upload_url token req =
      exchange env http_post (endpoint (codes "/ilink/bot/getuploadurl")) (some token)
        (upload_body (record req { base_info = or_channel req.base_info })) env.read_upload

  unfoldable pub notify_start : Text → Result (Unit {0})
  unfolding exchange
  notify_start token =
      exchange env http_post (endpoint (codes "/ilink/bot/msg/notifystart")) (some token)
        (json_body (object end)) (check_ret env)
