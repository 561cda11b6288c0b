-- ===== src/Tests/Dialog.antt =====
-- A user's question and an agent's answer at concrete inputs.
use ilink_gateway.Prelude.{
  ℕ, map, false, ◌+◌, ◌≡◌, refl, true, none, some, List, [], ◌∷◌, arith, ◌++◌, if◌then◌else◌, pos,
}
use ilink_gateway.Text.{codes, ◌==◌}
use ilink_gateway.Text.Number.{show_int}
use ilink_gateway.Text.Search.{starts_with}
use ilink_gateway.Error.{ok, err, ilink}
use ilink_gateway.Types.{
  WeixinMessage, SendMessageRequest, AgentMessage, AgentReply, item_default, image_default,
}
use ilink_gateway.Types.Message.{message_text, is_user_message}
use ilink_gateway.Convert.{to_agent_message}
use ilink_gateway.Store
use ilink_gateway.Store.{SqliteStore, no_faults}
use ilink_gateway.Config
use ilink_gateway.System
use ilink_gateway.System.{Reach, start, later, Trace, stop, go}
use ilink_gateway.System.Delivery.{all_handed, all_accepted, Trace-exact}
use ilink_gateway.Poll.Growth.{ids}
use ilink_gateway.Registry.{is_registered}
use ilink_gateway.System.Invariant.{Sound, Reach-Sound}
use ilink_gateway.Dedup.{check_and_record}
use ilink_gateway.Router.{is_admitted, is_dm_allowed}
use ilink_gateway.Poll.{Gateway, ref_msg_id, process_message}
use ilink_gateway.Poll.Dropped.{checked}
use ilink_gateway.Poll.Textless.{Tells, complaint, process_message_textless}
use ilink_gateway.Breaker.{is_open}
use ilink_gateway.Send.{send_message}
use ilink_gateway.Send.Retry.{SentBy}
use ilink_gateway.Replies.Accepted.{Accepted}
use ilink_gateway.Replies.{ReplyEnv, ReplyState, request_of, handle_agent_reply}
use ilink_gateway.Replies.Addressed.{IsFor, Addressed}
use ilink_gateway.Loop.{Loop, LoopEvent, turn, clean, run_events}
use ilink_gateway.Loop.Routed.{IsRouted}
use ilink_gateway.Loop.Answered.{Later, answered}
use ilink_gateway.Tests.{hermes, router, message, response}
use ilink_gateway.Tests.Updates.{env, gateway, updates}

abbrev question : WeixinMessage
question = message (codes "hi")

routed : IsRouted (env 0) question gateway (codes "hi") hermes
unfolding is_user_message check_and_record ilink_gateway.Map.contains ilink_gateway.Map.retain
    ref_msg_id is_admitted is_dm_allowed ◌==◌ message_text starts_with
routed = record {
  user = refl;
  new = refl;
  plain = refl;
  admitted = refl;
  has_text = refl;
  no_command = refl;
  active = refl;
}

-- A failed round, a cleanup, and a message of another user.
abbrev events : List LoopEvent
events =
    turn (env, err (ilink (codes "down")))
    ∷ clean 1300
    ∷ turn (
      env,
      ok (
          updates (
            some (
              record (message (codes "ho")) {
                message_id = some (pos 43);
                from_user_id = some (codes "other@wx");
              }
              ∷ []))),
    )
    ∷ []

abbrev after : Loop
after = record { slept = 0; sync_buf = []; gateway = (process_message (env 0) question gateway).1 }

abbrev sender : ReplyEnv
sender = record {
  now = λ i. 1100 + i;
  saved_at = λ i. 1100 + i;
  clock = λ i n. 1100 + n;
  transport = λ i n req. ok (response (pos 0));
  uuid = λ i. codes "u";
  fault = λ i. no_faults;
  upload = λ user path. err (ilink (codes "no file"));
}

abbrev answer : AgentReply
answer = record {
  reply_to_id = codes "42";
  text = codes "hello";
  media_paths = codes "/tmp/a.png" ∷ codes "/tmp/b.png" ∷ [];
  to_user = none;
  context_token = none;
  agent_context = none;
}

abbrev sent_before : ReplyState
sent_before = record { breaker = gateway.breaker; store = Store.new; sent = [] }

names : answer.reply_to_id ≡ show_int (pos 42)
unfolding show_int
names = refl

others : Later (show_int (pos 42)) 1000 events
unfolding ◌==◌ show_int
others = (refl, (omega arith, (refl, tt)))

closed : is_open 1100 gateway.breaker ≡ false
unfolding is_open
closed = refl

accepts :
    (i : ℕ) (m : WeixinMessage) → IsFor (codes "ctx") (codes "user@wx") m → Accepted sender i m
unfolding send_message
accepts i m for = (response (pos 0), refl, refl)

answered_example :
    let done =
      handle_agent_reply sender answer
        (run_events events after).gateway.message_contexts
        sent_before in
    ((m : AgentMessage) × (to_agent_message question ≡ some m) × (m.id ≡ answer.reply_to_id))
    × (msgs : List WeixinMessage) × (done.0 ≡ ok tt)
    × (done.1.sent ≡ [] ++ map request_of msgs)
    × Addressed answer (codes "ctx") (codes "user@wx") msgs
answered_example =
    answered (env 0) question gateway (codes "hi") hermes (pos 42) (codes "ctx") (codes "user@wx")
      events after sender answer sent_before routed refl refl refl refl others refl names closed
      (λ path h. cc) accepts

abbrev picture : WeixinMessage
picture = record (message []) {
  item_list =
      some (record item_default { item_type = some (pos 2); image_item = some image_default } ∷ []);
}

picture_user : is_user_message picture ≡ true
unfolding is_user_message
picture_user = refl

picture_new : (checked (env 0) picture gateway).0 ≡ true
unfolding check_and_record ilink_gateway.Map.contains ilink_gateway.Map.retain
picture_new = refl

picture_plain : ref_msg_id picture ≡ none
unfolding ref_msg_id
picture_plain = refl

picture_admitted : is_admitted picture router ≡ true
unfolding is_admitted is_dm_allowed ◌==◌
picture_admitted = refl

picture_bare : message_text picture ≡ none
unfolding message_text
picture_bare = refl

env_closed : is_open (env 0).now gateway.breaker ≡ false
unfolding is_open
env_closed = refl

process_message_textless_example :
    let g' : Gateway = (process_message (env 0) picture gateway).1 in
    ((req : SendMessageRequest) × (rest : List SendMessageRequest) × (g'.sent ≡ [] ++ (req ∷ rest))
      × SentBy 4 req (req ∷ rest)
      × Tells complaint (codes "user@wx") (codes "ctx") req)
    × (g'.router ≡ router)
    × (g'.message_contexts ≡ [])
    × (g'.ws_registry ≡ gateway.ws_registry)
    × (g'.store ≡ gateway.store)
process_message_textless_example =
    process_message_textless (env 0) picture gateway picture_user picture_new picture_plain
      picture_admitted picture_bare env_closed

-- A registration, a question, the agent's poll, its reply and a heartbeat, in this order.
abbrev empty : SqliteStore
empty = Store.new

one_day : (g : Gateway) × Reach Config.default empty g
one_day = (
  _,
  later
      (later
        (later
          (later
            (later (start no_faults)
              (System.register no_faults 9 (record { name = hermes; capabilities = [] })))
            (System.message (env 0) question))
          (System.poll 1500 hermes))
        (System.reply sender answer))
      (System.heartbeat 90000 60),
)

Reach-Sound_example : Sound Config.default empty one_day.0.router
Reach-Sound_example = Reach-Sound one_day.1

-- A question, and two polls of the agent.
two_polls : (g : Gateway) × Trace gateway g
two_polls = (
  _,
  go (go (go stop (System.message (env 0) question)) (System.poll 1500 hermes))
      (System.poll 1600 hermes),
)

Trace-exact_example :
    (all_handed hermes two_polls.1 ++ ids hermes two_polls.0.router
      ≡ ids hermes router ++ all_accepted hermes two_polls.1)
    × (all_handed hermes (go two_polls.1 (System.poll 1700 hermes)) ≡ (
        if is_registered hermes two_polls.0.router.registry
        then ids hermes router ++ all_accepted hermes two_polls.1
        else all_handed hermes two_polls.1))
Trace-exact_example = Trace-exact hermes 1700 two_polls.1
