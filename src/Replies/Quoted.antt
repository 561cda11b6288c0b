-- ===== src/Replies/Quoted.antt =====
-- gateway/src/main.rs and gateway/src/storage/sqlite_store.rs: a user quotes what an agent sent.
use ilink_gateway.Prelude.{ℕ, ◌≡◌, refl, ap, ap₂, ◌∙◌, true, Option, some}
use ilink_gateway.Text.{Text, eq_refl}
use ilink_gateway.Error.{Result, ok}
use ilink_gateway.Types.{WeixinMessage, AgentMessage}
use ilink_gateway.Convert.{to_agent_message}
use ilink_gateway.Registry.{is_registered}
use ilink_gateway.Store.{SqliteStore, no_faults, save_msg_agent_context, get_msg_agent_context}
use ilink_gateway.Store.Contexts.{AllBefore, get-save_msg_agent_context}
use ilink_gateway.Send.{resilient_send, Outcome}
use ilink_gateway.Router.{Router, is_admitted, route_to_agent}
use ilink_gateway.Router.Delivery.{with_message}
use ilink_gateway.Poll.{
  Env, Gateway, ref_msg_id, agent_of, routed, record_context, route_to_context, route_reference,
  process_message,
}
use ilink_gateway.Replies.{ReplyEnv, ReplyState, request_of, save_context, send_one}
use ilink_gateway.Types.Message.{is_user_message}
use ilink_gateway.Poll.Dropped.{checked, process_message_new}
use ilink_gateway.Poll.Growth.{continue_with}

-- The state where a quoting message was routed.
abbrev quoted_to : Env → Text → Text → WeixinMessage → AgentMessage → Gateway → Gateway
quoted_to env ctx agent q m g = record g {
  router = with_message agent (some ctx) m g.router;
  message_contexts = record_context env.now q agent g.message_contexts;
}

-- The outcome of the send of the i-th message.
abbrev pub sent_outcome : ReplyEnv → ℕ → WeixinMessage → ReplyState → Outcome
sent_outcome env i msg s =
    resilient_send (env.transport i) (env.clock i) (env.now i) (request_of msg) s.breaker

send_one-store :
    (env : ReplyEnv) (i : ℕ) (ctx id : Text) (msg : WeixinMessage) (s : ReplyState)
    → env.fault i ≡ no_faults
    → (sent_outcome env i msg s).result ≡ ok (some id)
    → (send_one env i (some ctx) msg s).1.store
      ≡ (save_msg_agent_context no_faults (env.saved_at i) id ctx s.store).1
unfolding send_one
send_one-store env i ctx id msg s h e =
    ap (λ (r : Result (Option Text)). save_context env i (some ctx) r s.store) e
    ∙ ap (λ f. (save_msg_agent_context f (env.saved_at i) id ctx s.store).1) h

saved_context :
    (env : ReplyEnv) (i : ℕ) (ctx id : Text) (msg : WeixinMessage) (s : ReplyState)
    → env.fault i ≡ no_faults
    → AllBefore (env.saved_at i) s.store.contexts
    → (sent_outcome env i msg s).result ≡ ok (some id)
    → get_msg_agent_context no_faults id (send_one env i (some ctx) msg s).1.store ≡ ok (some ctx)
saved_context env i ctx id msg s h before e =
    ap (get_msg_agent_context no_faults id) (send_one-store env i ctx id msg s h e)
    ∙ get-save_msg_agent_context (env.saved_at i) id ctx id s.store before
    ∙ rw eq_refl refl

route_to_agent-ok :
    (msg : WeixinMessage) (a : Text) (context : Option Text) (r : Router) (m : AgentMessage)
    → is_admitted msg r ≡ true
    → is_registered a r.registry ≡ true
    → to_agent_message msg ≡ some m
    → route_to_agent msg a context r ≡ (ok tt, with_message a context m r)
unfolding route_to_agent ilink_gateway.Router.enqueue_for
route_to_agent-ok msg a context r m h k e = rw (h, k, e)

route_reference-found :
    (env : Env) (q : WeixinMessage) (g : Gateway) (id ctx : Text)
    → ref_msg_id q ≡ some id
    → get_msg_agent_context env.fault id g.store ≡ ok (some ctx)
    → route_reference env q g ≡ route_to_context env q ctx (agent_of env ctx) g
unfolding route_reference
route_reference-found env q g id ctx h k = rw (h, k, route_reference)

route_to_context-known :
    (env : Env) (q : WeixinMessage) (ctx a : Text) (g : Gateway)
    → is_registered a g.router.registry ≡ true
    → route_to_context env q ctx (some a) g
      ≡ routed env q a (route_to_agent q a (some ctx) g.router) g
unfolding route_to_context
route_to_context-known env q ctx a g h = rw h

route_reference-send_one :
    (sender : ReplyEnv) (i : ℕ) (ctx id : Text) (msg : WeixinMessage) (s : ReplyState) (env : Env)
    (q : WeixinMessage) (g : Gateway) (agent : Text) (m : AgentMessage)
    → sender.fault i ≡ no_faults
    → AllBefore (sender.saved_at i) s.store.contexts
    → (sent_outcome sender i msg s).result ≡ ok (some id)
    → env.fault ≡ no_faults
    → g.store ≡ (send_one sender i (some ctx) msg s).1.store
    → ref_msg_id q ≡ some id
    → agent_of env ctx ≡ some agent
    → is_registered agent g.router.registry ≡ true
    → is_admitted q g.router ≡ true
    → to_agent_message q ≡ some m
    → route_reference env q g ≡ (true, quoted_to env ctx agent q m g)
route_reference-send_one sender i ctx id msg s env q g agent m quiet before sent faultless same
      quotes names known admitted e =
    let found : get_msg_agent_context env.fault id g.store ≡ ok (some ctx) =
      ap₂ (λ f (t : SqliteStore). get_msg_agent_context f id t) faultless same
      ∙ saved_context sender i ctx id msg s quiet before sent in
    route_reference-found env q g id ctx quotes found
    ∙ ap (λ (o : Option Text). route_to_context env q ctx o g) names
    ∙ route_to_context-known env q ctx agent g known
    ∙ ap (λ (p : Result (Unit {0}) × Router). routed env q agent p g)
        (route_to_agent-ok q agent (some ctx) g.router m admitted known e)

-- A message of an agent was sent with a routing context and got an id, no row of the store being
-- newer than the save. While the store that this left is in use and no statement fails, a new
-- message of an admitted user that quotes the id, and that has an item, goes to the end of the queue
-- of the agent that the context names, if that is registered, whichever agent is active, with the
-- context attached, and its reply context is recorded; but for the dedup cache nothing else changes.
pub process_message-send_one :
    (sender : ReplyEnv) (i : ℕ) (ctx id : Text) (msg : WeixinMessage) (s : ReplyState) (env : Env)
    (q : WeixinMessage) (g : Gateway) (agent : Text) (m : AgentMessage)
    → sender.fault i ≡ no_faults
    → AllBefore (sender.saved_at i) s.store.contexts
    → (sent_outcome sender i msg s).result ≡ ok (some id)
    → env.fault ≡ no_faults
    → g.store ≡ (send_one sender i (some ctx) msg s).1.store
    → is_user_message q ≡ true
    → (checked env q g).0 ≡ true
    → ref_msg_id q ≡ some id
    → agent_of env ctx ≡ some agent
    → is_registered agent g.router.registry ≡ true
    → is_admitted q g.router ≡ true
    → to_agent_message q ≡ some m
    → process_message env q g ≡ (
      ok tt,
      record g {
        dedup = (checked env q g).1;
        router = with_message agent (some ctx) m g.router;
        message_contexts = record_context env.now q agent g.message_contexts;
      },
    )
process_message-send_one sender i ctx id msg s env q g agent m quiet before sent faultless same user
      new quotes names known admitted e =
    process_message_new env q g user new
    ∙ ap (continue_with env q) (
        route_reference-send_one sender i ctx id msg s env q
          (record g { dedup = (checked env q g).1 }) agent m quiet before sent faultless same quotes
          names known admitted e)
