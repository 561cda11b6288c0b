-- ===== src/Replies/Accepted.antt =====
-- gateway/src/main.rs: what a reply sends where the iLink server accepts it.
use ilink_gateway.Prelude.{
  ℕ, ◌+◌, ◌≡◌, refl, sym, ap, ◌∙◌, false, Option, none, some, ◌≢◌, List, [], ◌∷◌, ◌++◌, map,
  append-nil, append_assoc, arith, pos,
}
use ilink_gateway.Text.{Text}
use ilink_gateway.Error.{ok, err, panic}
use ilink_gateway.Map.{Map}
use ilink_gateway.Types.{WeixinMessage, AgentReply, SendMessageRequest, SendMessageResponse}
use ilink_gateway.Breaker.{CircuitBreaker, Event, is_open, success, step, record_success}
use ilink_gateway.Send.{send_message, error_code}
use ilink_gateway.Send.Success.{resilient_send_retries}
use ilink_gateway.Poll.{MessageContextInfo, settle, ended}
use ilink_gateway.Replies.{
  ReplyEnv, ReplyState, Replied, request_of, send_one, then_send, send_all, reply_target, outgoing,
  send_messages, handle_agent_reply,
}
use ilink_gateway.Replies.Addressed.{IsFor, AllFor, Addressed, outgoing-Addressed}

-- The server accepts the i-th message at the first attempt.
abbrev pub Accepted : ReplyEnv → ℕ → WeixinMessage → Type 0
Accepted env i msg =
    (resp : SendMessageResponse) × (send_message (env.transport i) 0 (request_of msg) ≡ ok resp)
    × (error_code resp ≡ pos 0)

abbrev pub AllAccepted : ReplyEnv → ℕ → List WeixinMessage → Type 0
AllAccepted env i [] = Unit
AllAccepted env i (msg ∷ msgs) = Accepted env i msg × AllAccepted env (i + 1) msgs

-- What has come of one message: it went out, and the breaker is closed at any time.
abbrev Sent : List SendMessageRequest → WeixinMessage → Replied → Type 0
Sent before msg (r, s) =
    (r ≡ ok tt) × (s.sent ≡ before ++ (request_of msg ∷ [])) × (s.breaker.opened_at ≡ none)

settle_success : (b : CircuitBreaker) → (settle (some success) b).opened_at ≡ none
unfolding step record_success
settle_success b = refl

closed_lem : (now : ℕ) (b : CircuitBreaker) → b.opened_at ≡ none → is_open now b ≡ false
unfolding is_open
closed_lem now b h = rw h refl

module _ (env : ReplyEnv) where
  send_one-Sent :
      (i : ℕ) (ctx : Option Text) (msg : WeixinMessage) (s : ReplyState)
      → is_open (env.now i) s.breaker ≡ false
      → Accepted env i msg
      → Sent s.sent msg (send_one env i ctx msg s)
  unfolding send_one
  send_one-Sent i ctx msg s closed (resp, answer, fine) =
      let (result, report, sent) =
        resilient_send_retries (env.transport i) (env.clock i) (env.now i) 0 (request_of msg)
          s.breaker resp closed (omega arith) (λ j h. absurd (omega arith)) answer fine in
      (
        ap ended result,
        ap (λ (l : List SendMessageRequest). s.sent ++ l) sent,
        ap (λ (o : Option Event). (settle o s.breaker).opened_at) report ∙ settle_success s.breaker,
      )

then_send-ok :
    (p : Replied) (next : ReplyState → Replied) → p.0 ≡ ok tt → then_send p next ≡ next p.1
then_send-ok (ok u, s) next h = refl
then_send-ok (err e, s) next h = absurd cc
then_send-ok (panic, s) next h = absurd cc

module _ (env : ReplyEnv) (ctx : Option Text) where
  -- While the breaker is closed and the server accepts each message at the first attempt, each of
  -- them is sent once, in their order, and no other.
  pub send_all-accepted :
      (i : ℕ) (msgs : List WeixinMessage) (s : ReplyState)
      → is_open (env.now i) s.breaker ≡ false
      → AllAccepted env i msgs
      → ((send_all env i ctx msgs s).0 ≡ ok tt)
        × ((send_all env i ctx msgs s).1.sent ≡ s.sent ++ map request_of msgs)
  unfolding send_all
  send_all-accepted i [] s closed h = (refl, sym (append-nil s.sent))
  send_all-accepted i (msg ∷ msgs) s closed h =
      let first = send_one env i ctx msg s in
      let (fine, sent, later) = send_one-Sent env i ctx msg s closed h.0 in
      let (result, rest) =
        send_all-accepted (i + 1) msgs first.1 (closed_lem (env.now (i + 1)) first.1.breaker later)
          h.1 in
      let e = then_send-ok first (send_all env (i + 1) ctx msgs) fine in
      (
        ap (λ (p : Replied). p.0) e ∙ result,
        ap (λ (p : Replied). p.1.sent) e
            ∙ rest
            ∙ ap (λ (l : List SendMessageRequest). l ++ map request_of msgs) sent
            ∙ append_assoc s.sent (request_of msg ∷ []) (map request_of msgs),
      )

handle_agent_reply-found :
    (env : ReplyEnv) (reply : AgentReply) (contexts : Map MessageContextInfo) (s : ReplyState)
    (token user : Text) (msgs : List WeixinMessage)
    → reply_target reply contexts ≡ some (token, user)
    → outgoing env reply token user ≡ ok msgs
    → handle_agent_reply env reply contexts s ≡ send_all env 0 reply.agent_context msgs s
unfolding handle_agent_reply
handle_agent_reply-found env reply contexts s token user msgs h e =
    rw (h, handle_agent_reply) (ap (λ r. send_messages env reply.agent_context r s) e)

AllFor-AllAccepted :
    (env : ReplyEnv) (token user : Text) (i : ℕ) (msgs : List WeixinMessage)
    → ((j : ℕ) (m : WeixinMessage) → IsFor token user m → Accepted env j m)
    → AllFor token user msgs
    → AllAccepted env i msgs
AllFor-AllAccepted env token user i [] h for = tt
AllFor-AllAccepted env token user i (m ∷ msgs) h for =
    (h i m for.0, AllFor-AllAccepted env token user (i + 1) msgs h for.1)

-- A reply whose target is known goes out as messages for that user.
pub reply_sent :
    (env : ReplyEnv) (reply : AgentReply) (contexts : Map MessageContextInfo) (s : ReplyState)
    (token user : Text)
    → reply_target reply contexts ≡ some (token, user)
    → is_open (env.now 0) s.breaker ≡ false
    → ((path : Text) → env.upload user path ≢ panic)
    → ((i : ℕ) (m : WeixinMessage) → IsFor token user m → Accepted env i m)
    → (msgs : List WeixinMessage) × ((handle_agent_reply env reply contexts s).0 ≡ ok tt)
      × ((handle_agent_reply env reply contexts s).1.sent ≡ s.sent ++ map request_of msgs)
      × Addressed reply token user msgs
reply_sent env reply contexts s token user target closed calm accepts =
    let (msgs, e, addressed) = outgoing-Addressed env reply token user calm in
    let found = handle_agent_reply-found env reply contexts s token user msgs target e in
    let (result, sent) =
      send_all-accepted env reply.agent_context 0 msgs s closed
        (AllFor-AllAccepted env token user 0 msgs accepts addressed.0) in
    (
      msgs,
      ap (λ (p : Replied). p.0) found ∙ result,
      ap (λ (p : Replied). p.1.sent) found ∙ sent,
      addressed,
    )
