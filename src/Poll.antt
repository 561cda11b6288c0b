-- ===== src/Poll.antt =====
-- The body of the long-poll loop in gateway/src/main.rs, for one message, and the periodic task that
-- drops old message contexts. The typing indicator has no part in it.
pub mod Contexts
pub mod Dropped
pub mod Growth
pub mod Textless
pub mod Twice
use ilink_gateway.Prelude.{
  ℕ, ◌+◌, Bool, true, false, Option, none, some, List, [], ◌∷◌, ◌++◌, ltb, if◌then◌else◌, take, pos,
}
use ilink_gateway.Text.{Text, codes}
use ilink_gateway.Text.Number.{show_int}
use ilink_gateway.Text.Search.{LowerTable}
use ilink_gateway.Error.{Result, ok, err, panic, show_error}
use ilink_gateway.Map.{Map, insert, retain}
use ilink_gateway.Json.{Json, str, int, object, member, end, get_str}
use ilink_gateway.Types.{WeixinMessage, MessageItem, MediaItem, SendMessageRequest}
use ilink_gateway.Types.Message.{message_text, unwrap_or, is_user_message, build_text_reply}
use ilink_gateway.Convert.{first_item}
use ilink_gateway.Queue.{update_last_media}
use ilink_gateway.Registry.{is_registered}
use ilink_gateway.Commands.{Shell}
use ilink_gateway.Store.{SqliteStore, Faults, get_msg_agent_context}
use ilink_gateway.Breaker.{CircuitBreaker, Event, step}
use ilink_gateway.Dedup.{DedupCache, check_and_record, dedup_key}
use ilink_gateway.WsRegistry
use ilink_gateway.WsRegistry.{WsRegistry}
use ilink_gateway.Router.{Router, handle_incoming, route_to_agent}
use ilink_gateway.Send.{Transport, resilient_send}

pub record MessageContextInfo : Type 0 where
  pub context_token : Text
  pub to_user : Text
  pub received_at : ℕ
  pub message_preview : Text
  pub agent_name : Text

-- The state that the loop shares with the other tasks.
pub record Gateway : Type 0 where
  pub router : Router
  pub message_contexts : Map MessageContextInfo
  pub dedup : DedupCache
  pub store : SqliteStore
  pub ws_registry : WsRegistry
  pub breaker : CircuitBreaker
  -- The requests that went out to the iLink server, in order.
  pub sent : List SendMessageRequest

-- What one step asks of the world: the time, the libraries, the shell and the network. A download
-- that fails gives no media.
pub record Env : Type 0 where
  pub now : ℕ
  pub shell : Shell
  pub table : LowerTable
  pub md5 : Text → Text
  pub from_str : Text → Option Json
  pub to_string : Json → Text
  pub uuid : Text
  pub fault : Faults
  pub download : MessageItem → Text → Option MediaItem
  pub transport : Transport
  pub clock : ℕ → ℕ

-- The id that a reply quotes, in its first item.
unfoldable pub ref_msg_id : WeixinMessage → Option Text
ref_msg_id msg = elim (first_item msg) [
  | none ↦ none
  | some item ↦ elim item.ref_msg [ none ↦ none | some r ↦ some r.message_item.msg_id ]
]

-- The first 80 characters of the text.
abbrev pub preview : WeixinMessage → Text
preview msg = take 80 (unwrap_or [] (message_text msg))

abbrev pub context_of : ℕ → Text → Text → Text → WeixinMessage → MessageContextInfo
context_of now token user agent msg = record {
  context_token = token;
  to_user = user;
  received_at = now;
  message_preview = preview msg;
  agent_name = agent;
}

-- The context of a message that has an id, a token and a sender.
unfoldable pub record_context :
    ℕ → WeixinMessage → Text → Map MessageContextInfo → Map MessageContextInfo
record_context now msg agent contexts = elim msg.message_id [
  | none ↦ contexts
  | some id ↦ elim msg.context_token [
    | none ↦ contexts
    | some token ↦ elim msg.from_user_id [
      | none ↦ contexts
      | some user ↦ insert (show_int id) (context_of now token user agent msg) contexts
    ]
  ]
]

-- `get_msg_agent_context(..).unwrap_or(None)`
abbrev pub unwrap_none {ℓ} : {A : Type ℓ} → Result (Option A) → Option A
unwrap_none (ok o) = o
unwrap_none (err e) = none
unwrap_none panic = none

-- The agent that a stored context names.
abbrev pub agent_of : Env → Text → Option Text
agent_of env context_json = elim (env.from_str context_json) [
  | none ↦ none
  | some parsed ↦ get_str (codes "agent") parsed
]

-- A reply to an agent's message was routed, if there was no error.
abbrev pub routed :
    Env → WeixinMessage → Text → Result (Unit {0}) × Router → Gateway → Bool × Gateway
routed env msg agent (ok u, router) g = (
  true,
  record g {
    router = router;
    message_contexts = record_context env.now msg agent g.message_contexts;
  },
)
routed env msg agent (err e, router) g = (false, record g { router = router })
routed env msg agent (panic, router) g = (false, record g { router = router })

unfoldable pub route_to_context :
    Env → WeixinMessage → Text → Option Text → Gateway → Bool × Gateway
route_to_context env msg context_json none g = (false, g)
route_to_context env msg context_json (some agent) g =
    if is_registered agent g.router.registry
    then routed env msg agent (route_to_agent msg agent (some context_json) g.router) g
    else (false, g)

-- A reply that quotes an agent's message goes to that agent.
unfoldable pub route_reference : Env → WeixinMessage → Gateway → Bool × Gateway
unfolding route_to_context
route_reference env msg g = elim (ref_msg_id msg) [
  | none ↦ (false, g)
  | some ref_id ↦ elim (unwrap_none (get_msg_agent_context env.fault ref_id g.store)) [
    | none ↦ (false, g)
    | some context_json ↦ route_to_context env msg context_json (agent_of env context_json) g
  ]
]

abbrev pub settle : Option Event → CircuitBreaker → CircuitBreaker
settle none b = b
settle (some e) b = step e b

-- A panic ends the task.
abbrev pub Stepped : Type 0
Stepped = Result (Unit {0}) × Gateway

-- What comes of a send is ignored, but for a panic.
abbrev pub ended : Result (Option Text) → Result (Unit {0})
ended (ok id) = ok tt
ended (err e) = ok tt
ended panic = panic

abbrev pub inline_reply : Env → WeixinMessage → Text → SendMessageRequest
inline_reply env msg text = record {
  msg =
      build_text_reply env.uuid (unwrap_or [] msg.context_token) (unwrap_or [] msg.from_user_id)
        text;
  base_info = none;
}

-- Sends an inline reply.
unfoldable pub send_inline : Env → WeixinMessage → Text → Gateway → Stepped
send_inline env msg text g =
    let out =
      resilient_send env.transport env.clock env.now (inline_reply env msg text) g.breaker in
    (
      ended out.result,
      record g { breaker = settle out.report g.breaker; sent = g.sent ++ out.sent },
    )

-- `iter().map(..).collect()` and `filter_map`
unfoldable pub download_all : Env → Text → List MessageItem → List MediaItem
download_all env msg_id [] = []
download_all env msg_id (item ∷ items) =
    let rest = download_all env msg_id items in
    elim (env.download item msg_id) [ none ↦ rest | some m ↦ m ∷ rest ]

abbrev pub set_media : Text → List MediaItem → Router → Router
set_media agent [] r = r
set_media agent (m ∷ ms) r = record r { queue = update_last_media agent (m ∷ ms) r.queue }

-- The media of a message that has an id and items.
unfoldable pub downloaded : Env → WeixinMessage → List MediaItem
unfolding download_all
downloaded env msg = elim msg.message_id [
  | none ↦ []
  | some id ↦ elim msg.item_list [ none ↦ [] | some items ↦ download_all env (show_int id) items ]
]

-- The JSON that is pushed to a connected agent.
unfoldable pub ws_json : WeixinMessage → Json
ws_json msg = object (
    member (codes "type") (str (codes "message")) (
      member (codes "id") (str (elim msg.message_id [ none ↦ [] | some id ↦ show_int id ])) (
        member (codes "from_user") (str (unwrap_or [] msg.from_user_id)) (
          member (codes "text") (str (unwrap_or [] (message_text msg))) (
            member (codes "timestamp") (int (unwrap_or (pos 0) msg.create_time_ms)) (
              member (codes "context_token") (str (unwrap_or [] msg.context_token))
                (member (codes "message_type") (str (codes "text")) end)))))))

-- What follows where `handle_incoming` has no reply, the agent being the active one before it.
unfoldable pub after_routing : Env → WeixinMessage → Option Text → Gateway → Gateway
unfolding record_context downloaded
after_routing env msg none g = record g {
  message_contexts = record_context env.now msg [] g.message_contexts;
}
after_routing env msg (some agent) g = record g {
  message_contexts = record_context env.now msg agent g.message_contexts;
  router = set_media agent (downloaded env msg) g.router;
  ws_registry = (WsRegistry.push agent (env.to_string (ws_json msg)) g.ws_registry).1;
}

abbrev pub after_handled :
    Env → WeixinMessage → Option Text → Result (Option Text) → Gateway → Stepped
after_handled env msg active (ok none) g = (ok tt, after_routing env msg active g)
after_handled env msg active (ok (some text)) g = send_inline env msg text g
after_handled env msg active (err e) g =
    send_inline env msg (codes "Error processing message: " ++ show_error e) g
after_handled env msg active panic g = (panic, g)

-- The handling of a message, and what the other tasks do to the router between the end of
-- `handle_incoming`, which gives its lock free, and what follows.
unfoldable pub handle_message_with : (Router → Router) → Env → WeixinMessage → Gateway → Stepped
unfolding after_routing send_inline
handle_message_with others env msg g =
    let (reply, router) = handle_incoming env.shell env.table msg g.router in
    after_handled env msg g.router.active_agent reply (record g { router = others router })

unfoldable pub process_message_with : (Router → Router) → Env → WeixinMessage → Gateway → Stepped
unfolding route_reference handle_message_with
process_message_with others env msg g =
    let (new_key, dedup) = check_and_record env.now (dedup_key env.md5 msg) g.dedup in
    let g' : Gateway = record g { dedup = dedup } in
    let (ref_routed, g'') = route_reference env msg g' in
    if is_user_message msg
    then (if new_key
        then (if ref_routed then (ok tt, g'') else handle_message_with others env msg g'')
        else (ok tt, g'))
    else (ok tt, g)

-- The same where no other task comes in between.
abbrev pub handle_message : Env → WeixinMessage → Gateway → Stepped
handle_message env msg g = handle_message_with (λ r. r) env msg g

abbrev pub process_message : Env → WeixinMessage → Gateway → Stepped
process_message env msg g = process_message_with (λ r. r) env msg g

-- The periodic task: contexts that are ten minutes old or older go.
unfoldable pub clean_contexts : ℕ → Map MessageContextInfo → Map MessageContextInfo
clean_contexts now contexts =
    retain (λ (v : MessageContextInfo). ltb now (v.received_at + 600)) contexts
