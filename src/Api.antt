-- ===== src/Api.antt =====
-- gateway/src/api/server.rs: the HTTP handlers, each under the router's lock. The time and the
-- database's faults are arguments; bodies are those that axum has read.
pub mod Polling
use ilink_gateway.Prelude.{
  ℕ, true, false, not, Option, none, some, List, [], ◌∷◌, ◌++◌, if◌then◌else◌, pos,
}
use ilink_gateway.Text.{Text, codes}
use ilink_gateway.Error.{Result, ok, err, panic, show_error}
use ilink_gateway.Json.{
  Json, null, bool, int, str, array, object, Items, nil, cons, Members, end, member,
}
use ilink_gateway.Types.{AgentReply, AgentInfo, QueuedMessage, MediaItem, online, offline}
use ilink_gateway.Queue.{dequeue_all}
use ilink_gateway.Registry.{register, is_registered, mark_online, list}
use ilink_gateway.Store.{SqliteStore, Faults}
use ilink_gateway.Router.{Router, set_active_agent, persist_state}

pub record RegisterRequest : Type 0 where
  pub name : Text
  pub capabilities : List Text

pub record ReplyRequest : Type 0 where
  pub reply_to_id : Text
  pub text : Text
  pub media_paths : List Text
  pub to_user : Option Text
  pub context_token : Option Text
  pub agent_context : Option Text

pub record Response : Type 0 where
  pub status : ℕ
  pub body : Json

-- `json!` of an optional text and of a list.
abbrev pub json_option : Option Text → Json
json_option none = null
json_option (some t) = str t

abbrev pub items_of {ℓ} : {A : Type ℓ} → (A → Json) → List A → Items
items_of f [] = nil
items_of f (x ∷ xs) = cons (f x) (items_of f xs)

abbrev pub or_activate : Option Text → Text → Router → Router
or_activate none name r = (set_active_agent name r).1
or_activate (some active) name r = r

abbrev pub default_active : Text → Router → Router
default_active name r = or_activate r.active_agent name r

abbrev pub bad_request : Text → Response
bad_request e = record {
  status = 400;
  body = object (member (codes "ok") (bool false) (member (codes "error") (str e) end));
}

abbrev pub registered : Router → Response
registered r = record {
  status = 200;
  body = object (
      member (codes "ok") (bool true)
        (member (codes "active_agent") (json_option r.active_agent) end));
}

-- After the registry's answer: the first agent becomes the active one, and the state is stored. The
-- registry never panics.
abbrev pub after_register :
    Faults → Text → Result (Unit {0}) → Router → SqliteStore → Response × (Router × SqliteStore)
after_register fault name (ok u) r store =
    let r' = default_active name r in (registered r', (r', persist_state fault r' store))
after_register fault name (err e) r store = (bad_request (show_error e), (r, store))
after_register fault name panic r store = (bad_request [], (r, store))

unfoldable pub handle_register :
    Faults → ℕ → RegisterRequest → Router → SqliteStore → Response × (Router × SqliteStore)
handle_register fault now body r store =
    let (res, registry) = register now body.name none body.capabilities r.registry in
    after_register fault body.name res (record r { registry = registry }) store

unfoldable pub media_json : MediaItem → Json
media_json item = object (
    member (codes "media_type") (str item.media_type) (
      member (codes "local_path") (str item.local_path)
        (member (codes "original_name") (json_option item.original_name) end)))

unfoldable pub message_json : QueuedMessage → Json
unfolding media_json
message_json m = object (
    member (codes "id") (str m.id) (
      member (codes "from_user") (str m.from_user) (
        member (codes "text") (str m.text) (
          member (codes "timestamp") (int m.timestamp) (
            member (codes "context_token") (str m.context_token) (
              member (codes "message_type") (str m.message_type) (
                member (codes "media") (array (items_of media_json m.media))
                  (member (codes "agent_context") (json_option m.agent_context) end))))))))

abbrev pub messages_response : List QueuedMessage → Response
messages_response ms = record {
  status = 200;
  body = object (member (codes "messages") (array (items_of message_json ms)) end);
}

abbrev pub unknown_agent : Text → Response
unknown_agent name = record {
  status = 404;
  body =
      object (member (codes "error") (str (codes "Agent '" ++ (name ++ codes "' not found"))) end);
}

unfoldable pub handle_poll : ℕ → Text → Router → Response × Router
handle_poll now name r =
    let (messages, queue) = dequeue_all name r.queue in
    if is_registered name r.registry
    then (
      messages_response messages,
      record r { registry = (mark_online now name r.registry).1; queue = queue },
    )
    else (unknown_agent name, r)

-- What goes into the reply channel, and the answer.
unfoldable pub handle_reply : ReplyRequest → AgentReply × Response
handle_reply body = (
  record {
    reply_to_id = body.reply_to_id;
    text = body.text;
    media_paths = body.media_paths;
    to_user = body.to_user;
    context_token = body.context_token;
    agent_context = body.agent_context;
  },
  record { status = 200; body = object (member (codes "ok") (bool true) end) },
)

unfoldable pub agent_json : AgentInfo → Json
agent_json a = object (
    member (codes "status")
      (str (elim a.status [ online ↦ codes "online" | offline ↦ codes "offline" ]))
      (member (codes "capabilities") (array (items_of str a.capabilities))
        (member (codes "last_seen") (int (pos a.last_seen)) end)))

abbrev pub agents_json : List AgentInfo → Members
agents_json [] = end
agents_json (a ∷ agents) = member a.name (agent_json a) (agents_json agents)

unfoldable pub handle_status : Router → Json
unfolding agent_json
handle_status r = object (
    member (codes "wechat") (object (member (codes "connected") (bool false) end)) (
      member (codes "active_agent") (json_option r.active_agent)
        (member (codes "agents") (object (agents_json (list r.registry))) end)))
