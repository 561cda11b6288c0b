-- ===== src/Tests/Answers.antt =====
-- Polls of agents, and replies of agents, at concrete inputs.
use ilink_gateway.Prelude.{◌+◌, ◌≡◌, refl, true, false, ◌&&◌, none, some, [], ◌∷◌, ◌++◌, pos}
use ilink_gateway.Text.{Text, ◌==◌, codes}
use ilink_gateway.Text.Search.{starts_with}
use ilink_gateway.Error.{ok, err, ilink}
use ilink_gateway.Json.{str, object, member, end}
use ilink_gateway.Types.{WeixinMessage, AgentMessage, AgentReply, MessageItem, item_default}
use ilink_gateway.Types.Message.{message_text, is_user_message}
use ilink_gateway.Dedup.{check_and_record}
use ilink_gateway.Poll.Dropped.{checked}
use ilink_gateway.Convert.{to_agent_message, to_queued, agent_message_of}
use ilink_gateway.Registry.{is_registered}
use ilink_gateway.Commands.{parse_command}
use ilink_gateway.Store
use ilink_gateway.Store.{no_faults}
use ilink_gateway.WsRegistry
use ilink_gateway.Router.{is_admitted, is_dm_allowed, handle_incoming}
use ilink_gateway.Router.Delivery.{inbox, with_message}
use ilink_gateway.Router.Errors.{is_command}
use ilink_gateway.Api.{messages_response, handle_poll}
use ilink_gateway.Api.Polling.{poll-handle_incoming}
use ilink_gateway.Poll.{Env, Gateway, ref_msg_id, agent_of, record_context, process_message}
use ilink_gateway.Replies.{ReplyEnv, ReplyState, send_one}
use ilink_gateway.Replies.Quoted.{sent_outcome, process_message-send_one}
use ilink_gateway.Tests.{hermes, zeus, router, shell, table, message, response}

hi_admitted : is_admitted (message (codes "hi")) router ≡ true
unfolding is_admitted is_dm_allowed ◌==◌
hi_admitted = refl

hi_text : message_text (message (codes "hi")) ≡ some (codes "hi")
unfolding message_text
hi_text = refl

hi_plain : (starts_with (codes "/") (codes "hi") && is_command (parse_command (codes "hi"))) ≡ false
unfolding starts_with
hi_plain = refl

hermes_known : is_registered hermes router.registry ≡ true
unfolding is_registered ilink_gateway.Map.contains ◌==◌
hermes_known = refl

poll-handle_incoming_example :
    (m : AgentMessage) × (to_agent_message (message (codes "hi")) ≡ some m)
    × (m.text ≡ codes "hi")
    × ((handle_poll 7 hermes (handle_incoming shell table (message (codes "hi")) router).1).0
        ≡ messages_response (inbox hermes router ++ (to_queued none m ∷ [])))
poll-handle_incoming_example =
    poll-handle_incoming shell table 7 (message (codes "hi")) router (codes "hi") hermes hi_admitted
      hi_text hi_plain refl hermes_known

-- Every send gets the id 9; an upload fails.
abbrev sender : ReplyEnv
sender = record {
  now = λ i. 2000 + i;
  saved_at = λ i. 3000;
  clock = λ i n. 2000 + n;
  transport = λ i n req. ok (response (pos 0));
  uuid = λ i. codes "u";
  fault = λ i. no_faults;
  upload = λ user path. err (ilink (codes "no such file"));
}

abbrev reply : AgentReply
reply = record {
  reply_to_id = codes "42";
  text = codes "done";
  media_paths = codes "/a.png" ∷ codes "/b.pdf" ∷ [];
  to_user = none;
  context_token = none;
  agent_context = some (codes "zeus");
}

abbrev before_send : ReplyState
before_send = record {
  breaker = record { failures = []; opened_at = none; window = 30; threshold = 3; cooldown = 30 };
  store = Store.new;
  sent = [];
}

abbrev quoting : MessageItem
quoting = record item_default {
  item_type = some (pos 1);
  text_item = some (record { text = some (codes "hi") });
  ref_msg = some (record { message_item = record { msg_id = codes "9" } });
}

-- A message that quotes the message with the id 9.
abbrev quote : WeixinMessage
quote = record (message (codes "hi")) { item_list = some (quoting ∷ []) }

-- The context is a JSON text, which here is the agent's name alone.
abbrev env : Env
env = record {
  now = 4000;
  shell = shell;
  table = table;
  md5 = λ t. t;
  from_str = λ t. some (object (member (codes "agent") (str t) end));
  to_string = λ v. [];
  uuid = [];
  fault = no_faults;
  download = λ item id. none;
  transport = λ n req. ok (response (pos 0));
  clock = λ n. 4000;
}

abbrev after_send : Gateway
after_send = record {
  router = router;
  message_contexts = [];
  dedup = record { seen = []; ttl = 300 };
  store = (send_one sender 0 (some zeus) (message (codes "done")) before_send).1.store;
  ws_registry = WsRegistry.new;
  breaker = before_send.breaker;
  sent = [];
}

sent_ok :
    (sent_outcome sender 0 (message (codes "done")) before_send).result ≡ ok (some (codes "9"))
unfolding ilink_gateway.Send.resilient_send ilink_gateway.Send.send_message
    ilink_gateway.Breaker.is_open ilink_gateway.Text.Number.show_int
sent_ok = refl

quotes_nine : ref_msg_id quote ≡ some (codes "9")
unfolding ref_msg_id
quotes_nine = refl

names_zeus : agent_of env zeus ≡ some zeus
unfolding ilink_gateway.Json.get_str ilink_gateway.Json.find_member ◌==◌
names_zeus = refl

zeus_known : is_registered zeus router.registry ≡ true
unfolding is_registered ilink_gateway.Map.contains ◌==◌
zeus_known = refl

quote_admitted : is_admitted quote router ≡ true
unfolding is_admitted is_dm_allowed ◌==◌
quote_admitted = refl

quote_converts : to_agent_message quote ≡ some (agent_message_of quote quoting)
unfolding to_agent_message
quote_converts = refl

quote_user : is_user_message quote ≡ true
unfolding is_user_message
quote_user = refl

quote_new : (checked env quote after_send).0 ≡ true
unfolding check_and_record ilink_gateway.Map.contains ilink_gateway.Map.retain
quote_new = refl

process_message-send_one_example : process_message env quote after_send ≡ (
  ok tt,
  record after_send {
    dedup = (checked env quote after_send).1;
    router = with_message zeus (some zeus) (agent_message_of quote quoting) router;
    message_contexts = record_context 4000 quote zeus [];
  },
)
unfolding Store.new
process_message-send_one_example =
    process_message-send_one sender 0 zeus (codes "9") (message (codes "done")) before_send env
      quote after_send zeus _ refl tt sent_ok refl refl quote_user quote_new quotes_nine names_zeus
      zeus_known quote_admitted quote_converts
