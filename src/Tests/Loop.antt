-- ===== src/Tests/Loop.antt =====
-- The poll loop, polls during a download and the WebSocket connections at concrete inputs.
use ilink_gateway.Prelude.{
  ℕ, ◌+◌, ◌≡◌, refl, ap, ◌∙◌, true, false, none, some, List, [], ◌∷◌, ◌++◌, arith, pos,
}
use ilink_gateway.Text.{◌==◌, codes}
use ilink_gateway.Error.{Result, ok}
use ilink_gateway.Config.{disabled}
use ilink_gateway.Types.{WeixinMessage, AgentMessage, MediaItem}
use ilink_gateway.Types.Message.{is_user_message, message_text}
use ilink_gateway.Text.Search.{starts_with}
use ilink_gateway.Convert.{to_agent_message, to_queued}
use ilink_gateway.Registry.{is_registered}
use ilink_gateway.Router.Delivery.{inbox}
use ilink_gateway.Api.{messages_response, handle_poll}
use ilink_gateway.Loop.Routed.{IsRouted}
use ilink_gateway.Loop.Downloads.{poll_before_media}
use ilink_gateway.Store
use ilink_gateway.Store.{no_faults}
use ilink_gateway.Dedup.{check_and_record}
use ilink_gateway.WsRegistry
use ilink_gateway.WsRegistry.{WsRegistry, is_connected, push}
use ilink_gateway.Router.{is_admitted, is_dm_allowed, handle_incoming}
use ilink_gateway.Socket.{connect, disconnect}
use ilink_gateway.Socket.Reconnect.{push-connect, push-disconnect_old}
use ilink_gateway.Poll.{
  Env, Gateway, ref_msg_id, record_context, downloaded, set_media, process_message,
  process_message_with,
}
use ilink_gateway.Poll.Dropped.{checked, process_message_dropped}
use ilink_gateway.Poll.Growth.{Grows, router_after, process_message-Grows}
use ilink_gateway.Poll.Twice.{process_each, process_message_twice}
use ilink_gateway.Tests.{hermes, router, shell, table, message, response}

abbrev env : ℕ → Env
env now = record {
  now = now;
  shell = shell;
  table = table;
  md5 = λ t. t;
  from_str = λ t. none;
  to_string = λ v. codes "{}";
  uuid = codes "u";
  fault = no_faults;
  download = λ item id.
      some
        (record { media_type = codes "image"; local_path = codes "/tmp/a"; original_name = none });
  transport = λ n req. ok (response (pos 0));
  clock = λ n. 1000 + n;
}

abbrev gateway : Gateway
gateway = record {
  router = router;
  message_contexts = [];
  dedup = record { seen = []; ttl = 300 };
  store = Store.new;
  ws_registry = connect hermes 1 WsRegistry.new;
  breaker = record { failures = []; opened_at = none; window = 30; threshold = 3; cooldown = 30 };
  sent = [];
}

-- The same gateway, with direct messages turned off.
abbrev closed_gateway : Gateway
closed_gateway = record gateway { router = record router { dm_policy = disabled } }

abbrev hi : WeixinMessage
hi = message (codes "hi")

a_user : is_user_message hi ≡ true
unfolding is_user_message
a_user = refl

is_new : (checked (env 1000) hi gateway).0 ≡ true
unfolding check_and_record ilink_gateway.Map.contains ilink_gateway.Map.retain
is_new = refl

not_admitted : is_admitted hi closed_gateway.router ≡ false
unfolding is_admitted is_dm_allowed ◌==◌
not_admitted = refl

no_quote : ref_msg_id hi ≡ none
unfolding ref_msg_id
no_quote = refl

process_message_dropped_example : process_message (env 1000) hi closed_gateway ≡ (
  ok tt,
  record closed_gateway {
    dedup = (checked (env 1000) hi closed_gateway).1;
    message_contexts = record_context 1000 hi hermes [];
    router = set_media hermes (downloaded (env 1000) hi) closed_gateway.router;
    ws_registry = (push hermes (codes "{}") closed_gateway.ws_registry).1;
  },
)
process_message_dropped_example =
    process_message_dropped (env 1000) hi closed_gateway hermes a_user is_new no_quote not_admitted
      refl

-- The dropped message was sent to the agent's connection.
dropped_sent :
    ((process_message (env 1000) hi closed_gateway).1.ws_registry.channels 1).sent ≡ codes "{}" ∷ []
dropped_sent =
    ap (λ (p : Result (Unit {0}) × Gateway). (p.1.ws_registry.channels 1).sent)
      (process_message_dropped (env 1000) hi closed_gateway hermes a_user is_new no_quote
        not_admitted refl)
    ∙ (push-connect hermes (codes "{}") 1 WsRegistry.new).1

process_message-Grows_example : Grows hi hermes gateway.router (router_after (env 1000) hi gateway)
process_message-Grows_example = process_message-Grows (env 1000) hi gateway hermes

-- A message of another user, and one that is no user's.
abbrev meanwhile : List (Env × WeixinMessage)
meanwhile =
    (env 1050, record (message (codes "ho")) { message_id = some (pos 43) })
    ∷ (env 1100, record (message (codes "ha")) { message_type = some (pos 2) })
    ∷ []

process_message_twice_example :
    process_message (env 1200) hi (process_each meanwhile (process_message (env 1000) hi gateway).1)
    ≡ (
      ok tt,
      record (process_each meanwhile (process_message (env 1000) hi gateway).1) {
        dedup =
            (checked
              (env 1200)
              hi
              (process_each meanwhile (process_message (env 1000) hi gateway).1)).1;
      },
    )
process_message_twice_example =
    process_message_twice (env 1000) (env 1200) hi meanwhile gateway tt a_user is_new refl
      (omega arith) (omega arith) (omega arith)

routed : IsRouted (env 1000) hi gateway (codes "hi") hermes
unfolding is_user_message check_and_record ilink_gateway.Map.contains ilink_gateway.Map.retain
    ref_msg_id is_admitted is_dm_allowed ◌==◌ message_text starts_with
routed = record {
  user = refl;
  new = refl;
  plain = refl;
  admitted = refl;
  has_text = refl;
  no_command = refl;
  active = refl;
}

abbrev image : MediaItem
image = record { media_type = codes "image"; local_path = codes "/tmp/a"; original_name = none }

one_image : downloaded (env 1000) hi ≡ image ∷ []
unfolding downloaded
one_image = refl

hermes_known : is_registered hermes router.registry ≡ true
unfolding is_registered ilink_gateway.Map.contains ◌==◌
hermes_known = refl

poll_before_media_example :
    (m : AgentMessage) × (to_agent_message hi ≡ some m)
    × ((handle_poll 8 hermes (process_message (env 1000) hi gateway).1.router).0
        ≡ messages_response
            (inbox hermes router ++ (record (to_queued none m) { media = image ∷ [] } ∷ [])))
    × ((handle_poll 7 hermes (handle_incoming shell table hi router).1).0
        ≡ messages_response (inbox hermes router ++ (to_queued none m ∷ [])))
    × ((handle_poll 8 hermes
          (process_message_with (λ r. (handle_poll 7 hermes r).1) (env 1000) hi gateway).1.router).0
        ≡ messages_response [])
poll_before_media_example =
    poll_before_media 7 8 (env 1000) hi gateway (codes "hi") hermes image [] routed hermes_known
      one_image

push-disconnect_old_example :
    (((disconnect hermes 1 (connect hermes 2 (connect hermes 1 WsRegistry.new))).channels 2).live
      ≡ true)
    × (is_connected hermes
          (disconnect hermes 1 (connect hermes 2 (connect hermes 1 WsRegistry.new)))
        ≡ false)
    × ((push hermes
          (codes "{}")
          (disconnect hermes 1 (connect hermes 2 (connect hermes 1 WsRegistry.new)))).0
        ≡ false)
push-disconnect_old_example =
    push-disconnect_old hermes (codes "{}") 1 2 WsRegistry.new (λ h. omega arith)
