-- ===== src/Send.antt =====
-- `resilient_send` of gateway/src/main.rs, over `Client::send_message` of
-- gateway/src/ilink/client.rs. The shared breaker is read once, at the start, and is told of the
-- outcome at the end: the outcome is a report, since other tasks may use the breaker in between.
pub mod Retry
pub mod Success
use ilink_gateway.Prelude.{
  ℕ, zero, suc, ◌+◌, ◌^◌, Bool, true, false, ◌&&◌, Option, none, some, List, [], ◌∷◌, ◌++◌,
  if◌then◌else◌, ℤ, pos, negsuc, int_eq,
}
use ilink_gateway.Text.{Text, codes}
use ilink_gateway.Text.Number.{show_int}
use ilink_gateway.Error.{GatewayError, Result, ok, err, panic, ilink}
use ilink_gateway.Types.{SendMessageRequest, SendMessageResponse, channel_default}
use ilink_gateway.Types.Message.{unwrap_or}
use ilink_gateway.Breaker.{CircuitBreaker, is_open, Event, success, failure}

-- The HTTP exchange of the n-th attempt: a transport, status or JSON error, or the response.
abbrev pub Transport : Type 0
Transport = ℕ → SendMessageRequest → Result SendMessageResponse

-- A request without `base_info` gets the default one.
unfoldable pub fill_base_info : SendMessageRequest → SendMessageRequest
fill_base_info req = elim req.base_info [
  | none ↦ record req { base_info = some channel_default }
  | some b ↦ req
]

unfoldable pub send_message : Transport → ℕ → SendMessageRequest → Result SendMessageResponse
unfolding fill_base_info
send_message transport n req = transport n (fill_base_info req)

-- `req.msg.context_token = None`
abbrev pub strip_token : SendMessageRequest → SendMessageRequest
strip_token req = record req { msg = record req.msg { context_token = none } }

abbrev pub has_token : SendMessageRequest → Bool
has_token req = elim req.msg.context_token [ none ↦ false | some t ↦ true ]

pub record Outcome : Type 0 where
  pub result : Result (Option Text)
  pub report : Option Event
  -- The requests that were sent, and the seconds slept, in order.
  pub sent : List SendMessageRequest
  pub slept : List ℕ

abbrev pub paused : Outcome
paused = record {
  result = err (ilink (codes "circuit breaker open — iLink send paused"));
  report = none;
  sent = [];
  slept = [];
}

abbrev pub finished : Result (Option Text) → Event → Outcome
finished result event = record { result = result; report = some event; sent = []; slept = [] }

abbrev pub exhausted : GatewayError
exhausted = ilink (codes "sendmessage exhausted errcode=-2 retries")

-- `resp.message_id.map(|id| id.to_string())`
abbrev pub message_id_text : SendMessageResponse → Option Text
message_id_text resp = elim resp.message_id [ none ↦ none | some id ↦ some (show_int id) ]

abbrev pub error_code : SendMessageResponse → ℤ
error_code resp = unwrap_or (pos 0) resp.errcode

abbrev pub refused : SendMessageResponse → GatewayError
refused resp = ilink (
    codes "sendmessage errcode="
    ++ (show_int (error_code resp) ++ (codes ": " ++ unwrap_or [] resp.errmsg)))

-- `again` is the rest of the loop with the same request, `stripped` that without its token.
abbrev pub after_response :
    ℕ → ℕ → SendMessageRequest → Result SendMessageResponse → Outcome → Outcome → Outcome
after_response at n req (err e) again stripped = finished (err e) (failure at)
after_response at n req panic again stripped = record {
  result = panic;
  report = none;
  sent = [];
  slept = [];
}
after_response at n req (ok resp) again stripped =
    if int_eq (error_code resp) (pos 0)
    then finished (ok (message_id_text resp)) success
    else if int_eq (error_code resp) (negsuc 1)
    then record again { slept = 2 ^ n ∷ again.slept }
    else if int_eq (error_code resp) (negsuc 13) && has_token req
    then stripped
    else finished (err (refused resp)) (failure at)

-- `clock n` is the time after the n-th attempt.
module _ (transport : Transport) (clock : ℕ → ℕ) where
  -- The loop with some attempts left, at the n-th.
  unfoldable pub attempts : ℕ → ℕ → SendMessageRequest → Outcome
  attempts zero n req = finished (err exhausted) (failure (clock n))
  attempts (suc left) n req =
      let again = attempts left (n + 1) req in
      let stripped = attempts left (n + 1) (strip_token req) in
      let rest = after_response (clock n) n req (send_message transport n req) again stripped in
      record rest { sent = req ∷ rest.sent }

  unfoldable pub resilient_send : ℕ → SendMessageRequest → CircuitBreaker → Outcome
  unfolding attempts
  resilient_send now req breaker = if is_open now breaker then paused else attempts 4 0 req
