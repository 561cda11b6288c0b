-- ===== src/Loop/Answered.antt =====
-- gateway/src/main.rs: from a user's message to the messages that answer it.
use ilink_gateway.Prelude.{
  ℕ, ◌+◌, ◌<◌, ◌≡◌, ◌≢◌, map, ◌++◌, inl, inr, refl, sym, ap, ◌∙◌, true, false, none, some, List, [],
  ◌∷◌, arith, Bool-cases, Option-cases, all, ℤ,
}
use ilink_gateway.Text.{Text, eq_refl}
use ilink_gateway.Text.Number.{show_int}
use ilink_gateway.Error.{Result, ok, err, panic}
use ilink_gateway.Map.{Map, lookup}
use ilink_gateway.Map.Laws.{lookup-insert}
use ilink_gateway.Types.{WeixinMessage, AgentMessage, AgentReply, GetUpdatesResponse}
use ilink_gateway.Types.Message.{message_text, unwrap_or}
use ilink_gateway.Convert.{first_item, to_agent_message}
use ilink_gateway.Poll.{
  MessageContextInfo, Gateway, Env, context_of, record_context, after_routing, Stepped,
  process_message,
}
use ilink_gateway.Poll.Contexts.{is_other, context_at, process_message-other, clean_contexts-young}
use ilink_gateway.Replies.{ReplyEnv, ReplyState, reply_target, request_of, handle_agent_reply}
use ilink_gateway.Replies.Accepted.{Accepted, reply_sent}
use ilink_gateway.Replies.Addressed.{IsFor, Addressed}
use ilink_gateway.Breaker.{is_open}
use ilink_gateway.Loop.{
  and_then, process_all, Loop, is_session_timeout, poll_round, LoopEvent, turn, clean, run_event,
  run_events,
}
use ilink_gateway.Loop.Routed.{IsRouted, process_message_with-routed}
use ilink_gateway.Loop.Waiting.{messages_of}

module _ (k : Text) where
  and_then-other :
      (s : Stepped) (next : Gateway → Stepped)
      → ((g : Gateway) → context_at k (next g).1 ≡ context_at k g)
      → context_at k (and_then s next).1 ≡ context_at k s.1
  and_then-other (ok u, g) next h = h g
  and_then-other (err e, g) next h = refl
  and_then-other (panic, g) next h = refl

  process_all-other :
      (envs : ℕ → Env) (i : ℕ) (msgs : List WeixinMessage) (g : Gateway)
      → all (is_other k) msgs ≡ true
      → context_at k (process_all envs i msgs g).1 ≡ context_at k g
  unfolding process_all
  process_all-other envs i [] g h = refl
  process_all-other envs i (msg ∷ msgs) g h =
      and_then-other (process_message (envs i) msg g) (process_all envs (i + 1) msgs)
        (λ g'. process_all-other envs (i + 1) msgs g' (ground arith))
      ∙ process_message-other k (envs i) msg g (ground arith)

  poll_round-other :
      (envs : ℕ → Env) (resp : Result GetUpdatesResponse) (l : Loop)
      → all (is_other k) (messages_of resp) ≡ true
      → context_at k (poll_round envs resp l).1.gateway ≡ context_at k l.gateway
  unfolding poll_round
  poll_round-other envs (err e) l h = refl
  poll_round-other envs panic l h = refl
  poll_round-other envs (ok resp) l h = elim (Bool-cases (is_session_timeout resp.errcode)) [
    | inl timeout ↦ rw timeout refl
    | inr alive ↦ rw alive (process_all-other envs 0 (unwrap_or [] resp.msgs) l.gateway h)
  ]

  -- No later message has this id, and every cleanup is at most ten minutes after this time.
  abbrev pub Later : ℕ → List LoopEvent → Type 0
  Later at [] = Unit
  Later at (turn (envs, resp) ∷ es) = (all (is_other k) (messages_of resp) ≡ true) × Later at es
  Later at (clean now ∷ es) = (now < at + 600) × Later at es

  run_events-kept :
      (info : MessageContextInfo) (es : List LoopEvent) (l : Loop)
      → context_at k l.gateway ≡ some info
      → Later info.received_at es
      → context_at k (run_events es l).gateway ≡ some info
  unfolding run_events
  run_events-kept info [] l h later = h
  run_events-kept info (turn (envs, resp) ∷ es) l h later =
      run_events-kept info es (run_event (turn (envs, resp)) l)
        (poll_round-other envs resp l later.0 ∙ h) later.1
  run_events-kept info (clean now ∷ es) l h later =
      run_events-kept info es (run_event (clean now) l)
        (clean_contexts-young now k info l.gateway.message_contexts h later.0) later.1

record_context-found :
    (now : ℕ) (msg : WeixinMessage) (agent : Text) (contexts : Map MessageContextInfo) (id : ℤ)
    (token user : Text)
    → msg.message_id ≡ some id
    → msg.context_token ≡ some token
    → msg.from_user_id ≡ some user
    → lookup (show_int id) (record_context now msg agent contexts)
      ≡ some (context_of now token user agent msg)
unfolding record_context message_text
record_context-found now msg agent contexts id token user h i j =
    rw (h, i, j, lookup-insert, eq_refl) refl

reply_target-found :
    (reply : AgentReply) (contexts : Map MessageContextInfo) (info : MessageContextInfo)
    → reply.to_user ≡ none
    → lookup reply.reply_to_id contexts ≡ some info
    → reply_target reply contexts ≡ some (info.context_token, info.to_user)
unfolding reply_target
reply_target-found reply contexts info h found = rw (h, found, reply_target) refl

process_message-context :
    (env : Env) (msg : WeixinMessage) (g : Gateway) (text agent : Text) (id : ℤ) (token user : Text)
    → IsRouted env msg g text agent
    → msg.message_id ≡ some id
    → msg.context_token ≡ some token
    → msg.from_user_id ≡ some user
    → (context_at (show_int id) (process_message env msg g).1
        ≡ some (context_of env.now token user agent msg))
      × (m : AgentMessage) × (to_agent_message msg ≡ some m)
unfolding after_routing
process_message-context env msg g text agent id token user r has_id has_token has_user =
    let (m, converts, handled, all_others) = process_message_with-routed env msg g text agent r in
    (
      ap (λ (s : Stepped). context_at (show_int id) s.1) (all_others (λ r. r))
          ∙ record_context-found env.now msg agent g.message_contexts id token user has_id has_token
              has_user,
      m,
      converts,
    )

to_agent_message-id :
    (msg : WeixinMessage) (m : AgentMessage) (id : ℤ)
    → to_agent_message msg ≡ some m
    → msg.message_id ≡ some id
    → m.id ≡ show_int id
unfolding to_agent_message
to_agent_message-id msg m id h has_id = elim (Option-cases (first_item msg)) [
  | inl no_item ↦ absurd (ground arith)
  | inr (item, e) ↦ ground arith
]

-- From the question to the answer: a new text of an admitted user, with an id and a context token,
-- which quotes nothing and is no command, was handled with an agent active. After any further rounds
-- of the loop whose messages have other ids, with cleanups less than ten minutes later, comes a
-- reply that names the id that the agent was given, and no user. Where the breaker is closed, no
-- upload panics and the server accepts each message for that user at the first attempt, exactly
-- these requests go out: one message with the reply's text, or one for each of the reply's files,
-- where those behind the first name their file; and each of them goes to the user who asked and
-- carries the user's context token.
pub answered :
    (env : Env) (msg : WeixinMessage) (g : Gateway) (text agent : Text) (id : ℤ) (token user : Text)
    (es : List LoopEvent) (l : Loop) (sender : ReplyEnv) (reply : AgentReply) (s : ReplyState)
    → IsRouted env msg g text agent
    → msg.message_id ≡ some id
    → msg.context_token ≡ some token
    → msg.from_user_id ≡ some user
    → l.gateway ≡ (process_message env msg g).1
    → Later (show_int id) env.now es
    → reply.to_user ≡ none
    → reply.reply_to_id ≡ show_int id
    → is_open (sender.now 0) s.breaker ≡ false
    → ((path : Text) → sender.upload user path ≢ panic)
    → ((i : ℕ) (m : WeixinMessage) → IsFor token user m → Accepted sender i m)
    → let after = handle_agent_reply sender reply (run_events es l).gateway.message_contexts s in
      ((m : AgentMessage) × (to_agent_message msg ≡ some m) × (m.id ≡ reply.reply_to_id))
      × (msgs : List WeixinMessage) × (after.0 ≡ ok tt)
      × (after.1.sent ≡ s.sent ++ map request_of msgs)
      × Addressed reply token user msgs
answered env msg g text agent id token user es l sender reply s r has_id has_token has_user same
      later no_user names closed calm accepts =
    let (found, m, converts) =
      process_message-context env msg g text agent id token user r has_id has_token has_user in
    let info = context_of env.now token user agent msg in
    let kept : context_at (show_int id) (run_events es l).gateway ≡ some info =
      run_events-kept (show_int id) info es l (ap (context_at (show_int id)) same ∙ found) later in
    let target : reply_target reply (run_events es l).gateway.message_contexts
        ≡ some (token, user) =
      reply_target-found reply (run_events es l).gateway.message_contexts info no_user
        (ap (λ (k : Text). context_at k (run_events es l).gateway) names ∙ kept) in
    let (msgs, result, sent, addressed) =
      reply_sent sender reply (run_events es l).gateway.message_contexts s token user target closed
        calm accepts in
    (
      (m, converts, to_agent_message-id msg m id converts has_id ∙ sym names),
      msgs,
      result,
      sent,
      addressed,
    )
