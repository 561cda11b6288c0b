-- ===== src/Replies.antt =====
-- `handle_agent_replies` of gateway/src/main.rs, for one reply from an agent. The upload of a media
-- file to the CDN is a parameter, and the i-th message that is sent has its own time and transport.
pub mod Addressed
pub mod Quoted
pub mod Accepted
use ilink_gateway.Prelude.{ℕ, ◌+◌, Option, none, some, List, [], ◌∷◌, ◌++◌, ℤ}
use ilink_gateway.Text.{Text, codes}
use ilink_gateway.Error.{Result, ok, err, panic, ◌>>=◌, show_error}
use ilink_gateway.Map.{Map, lookup}
use ilink_gateway.Types.{AgentReply, WeixinMessage, SendMessageRequest}
use ilink_gateway.Types.Message.{unwrap_or, build_text_reply, build_media_reply}
use ilink_gateway.Store.{SqliteStore, Faults, save_msg_agent_context}
use ilink_gateway.Breaker.{CircuitBreaker}
use ilink_gateway.Send.{Transport, resilient_send}
use ilink_gateway.Poll.{MessageContextInfo, settle, ended}

-- What an upload gives back for the message.
pub record MediaUpload : Type 0 where
  pub item_type : ℤ
  pub encrypt_query_param : Text
  pub aes_key : Text
  pub mid_size : ℤ

pub record ReplyEnv : Type 0 where
  pub now : ℕ → ℕ
  pub saved_at : ℕ → ℕ
  pub clock : ℕ → ℕ → ℕ
  pub transport : ℕ → Transport
  pub uuid : ℕ → Text
  pub fault : ℕ → Faults
  pub upload : Text → Text → Result MediaUpload

-- The context token and the user that a reply is for; none, if its message is not known.
unfoldable pub reply_target : AgentReply → Map MessageContextInfo → Option (Text × Text)
reply_target reply contexts = elim reply.to_user [
  | some to ↦ some (unwrap_or [] reply.context_token, to)
  | none ↦ elim (lookup reply.reply_to_id contexts) [
    | none ↦ none
    | some info ↦ some (info.context_token, info.to_user)
  ]
]

-- The message that carries the first file, or the text that tells of a failed upload. An upload
-- that panics ends the task.
unfoldable pub media_message :
    ReplyEnv → AgentReply → Text → Text → Result MediaUpload → Result WeixinMessage
media_message env reply token user (ok u) = ok (
    build_media_reply (env.uuid 0) token user reply.text u.item_type u.encrypt_query_param u.aes_key
      u.mid_size)
media_message env reply token user (err e) =
    ok
      (build_text_reply (env.uuid 0) token user (codes "Media processing failed: " ++ show_error e))
media_message env reply token user panic = panic

-- The notes for the other files, from the i-th message on.
unfoldable pub extra_notes : ReplyEnv → ℕ → Text → Text → List Text → List WeixinMessage
extra_notes env i token user [] = []
extra_notes env i token user (path ∷ paths) =
    build_text_reply (env.uuid i) token user (codes "Additional file received: " ++ path)
    ∷ extra_notes env (i + 1) token user paths

abbrev pub messages_for :
    ReplyEnv → AgentReply → Text → Text → List Text → Result (List WeixinMessage)
messages_for env reply token user [] = ok (build_text_reply (env.uuid 0) token user reply.text ∷ [])
messages_for env reply token user (path ∷ paths) =
    media_message env reply token user (env.upload user path) >>= λ first.
    ok (first ∷ extra_notes env 1 token user paths)

-- The messages of a reply, in the order in which they are sent.
unfoldable pub outgoing : ReplyEnv → AgentReply → Text → Text → Result (List WeixinMessage)
unfolding media_message extra_notes
outgoing env reply token user = messages_for env reply token user reply.media_paths

-- `sent` are the requests that went out to the iLink server, in order.
pub record ReplyState : Type 0 where
  pub breaker : CircuitBreaker
  pub store : SqliteStore
  pub sent : List SendMessageRequest

-- A panic ends the task.
abbrev pub Replied : Type 0
Replied = Result (Unit {0}) × ReplyState

-- A message that was sent and has an id keeps the reply's routing context; a failed write is
-- ignored.
abbrev pub save_context :
    ReplyEnv → ℕ → Option Text → Result (Option Text) → SqliteStore → SqliteStore
save_context env i (some ctx) (ok (some id)) store =
    (save_msg_agent_context (env.fault i) (env.saved_at i) id ctx store).1
save_context env i _ _ store = store

abbrev pub request_of : WeixinMessage → SendMessageRequest
request_of msg = record { msg = msg; base_info = none }

-- Sends the i-th message.
unfoldable pub send_one : ReplyEnv → ℕ → Option Text → WeixinMessage → ReplyState → Replied
send_one env i agent_context msg s =
    let out =
      resilient_send (env.transport i) (env.clock i) (env.now i) (request_of msg) s.breaker in
    (
      ended out.result,
      record {
        breaker = settle out.report s.breaker;
        store = save_context env i agent_context out.result s.store;
        sent = s.sent ++ out.sent;
      },
    )

abbrev pub then_send : Replied → (ReplyState → Replied) → Replied
then_send (ok u, s) next = next s
then_send (err e, s) next = (err e, s)
then_send (panic, s) next = (panic, s)

unfoldable pub send_all : ReplyEnv → ℕ → Option Text → List WeixinMessage → ReplyState → Replied
unfolding send_one
send_all env i agent_context [] s = (ok tt, s)
send_all env i agent_context (msg ∷ msgs) s =
    then_send (send_one env i agent_context msg s) (send_all env (i + 1) agent_context msgs)

abbrev pub send_messages :
    ReplyEnv → Option Text → Result (List WeixinMessage) → ReplyState → Replied
send_messages env agent_context (ok msgs) s = send_all env 0 agent_context msgs s
send_messages env agent_context (err e) s = (err e, s)
send_messages env agent_context panic s = (panic, s)

unfoldable pub handle_agent_reply :
    ReplyEnv → AgentReply → Map MessageContextInfo → ReplyState → Replied
unfolding outgoing send_all
handle_agent_reply env reply contexts s = elim (reply_target reply contexts) [
  | none ↦ (ok tt, s)
  | some (token, user) ↦ send_messages env reply.agent_context (outgoing env reply token user) s
]
