-- ===== src/Poll/Growth.antt =====
-- gateway/src/main.rs: what one message does to the queues.
use ilink_gateway.Prelude.{
  ◌≡◌, ◌≢◌, ◌⊎◌, inl, inr, refl, sym, ap, ◌∙◌, Bool, true, false, Option, none, some, List, [], ◌∷◌,
  ◌++◌, map, arith, if◌then◌else◌, Bool-cases, Option-cases,
}
use mathlib.Core.List.{map-append}
use mathlib.Core.Path.{subst}
use ilink_gateway.Text.{Text, ◌==◌}
use ilink_gateway.Text.Number.{show_int}
use ilink_gateway.Error.{Result, ok, err, panic}
use ilink_gateway.Types.{WeixinMessage, MediaItem, QueuedMessage, AgentMessage}
use ilink_gateway.Types.Message.{is_user_message}
use ilink_gateway.Convert.{first_item, to_agent_message, to_queued}
use ilink_gateway.Queue.{set_last_media, queue_of, enqueue}
use ilink_gateway.Queue.Order.{queue_of-update_last_media, queue_of-enqueue}
use ilink_gateway.Registry.{is_registered}
use ilink_gateway.Store.{get_msg_agent_context}
use ilink_gateway.Router.{Router, is_admitted, handle_incoming, route_to_agent}
use ilink_gateway.Router.Delivery.{inbox, Effect, handle_incoming-Effect}
use ilink_gateway.Router.Rules.{route_to_agent_exact}
use ilink_gateway.Poll.{
  Env, Gateway, Stepped, ref_msg_id, unwrap_none, agent_of, routed, route_to_context,
  route_reference, set_media, after_handled, after_routing, send_inline, handle_message,
  process_message, handle_message_with,
}
use ilink_gateway.Poll.Dropped.{checked, process_message_skips, process_message_new}

-- The ids of some messages, in order.
abbrev pub ids_of : List QueuedMessage → List Text
ids_of ms = map (λ (m : QueuedMessage). m.id) ms

ids_of-set_last_media :
    (media : List MediaItem) (ms : List QueuedMessage)
    → ids_of (set_last_media media ms) ≡ ids_of ms
unfolding set_last_media
ids_of-set_last_media media [] = refl
ids_of-set_last_media media (m ∷ []) = refl
ids_of-set_last_media media (m ∷ n ∷ ms) =
    ap (λ (k : List Text). m.id ∷ k) (ids_of-set_last_media media (n ∷ ms))

-- The ids of the messages that wait for an agent, in order.
abbrev pub ids : Text → Router → List Text
ids j r = ids_of (inbox j r)

ids-set_media :
    (agent j : Text) (media : List MediaItem) (r : Router)
    → ids j (set_media agent media r) ≡ ids j r
ids-set_media agent j [] r = refl
ids-set_media agent j (m ∷ ms) r = elim (Bool-cases (agent == j)) [
  | inl here ↦
      ap ids_of (queue_of-update_last_media agent j (m ∷ ms) r.queue)
      ∙ rw here (ids_of-set_last_media (m ∷ ms) (queue_of j r.queue))
  | inr there ↦ ap ids_of (queue_of-update_last_media agent j (m ∷ ms) r.queue) ∙ rw there refl
]

-- The id under which a message is queued.
abbrev pub msg_id : WeixinMessage → Text
msg_id msg = elim msg.message_id [ none ↦ [] | some id ↦ show_int id ]

to_agent_message-msg_id :
    (msg : WeixinMessage) (m : AgentMessage) → to_agent_message msg ≡ some m → m.id ≡ msg_id msg
unfolding to_agent_message
to_agent_message-msg_id msg m h = elim (Option-cases (first_item msg)) [
  | inl no_item ↦ absurd (ground arith)
  | inr (item, e) ↦ ground arith
]

-- A queue is as before, but for media, or an admitted message stands at its end.
abbrev pub Grows : WeixinMessage → Text → Router → Router → Type 0
Grows msg j r r' =
    (ids j r' ≡ ids j r) ⊎ ((is_admitted msg r ≡ true) × (ids j r' ≡ ids j r ++ (msg_id msg ∷ [])))

ids_of-append :
    (msg : WeixinMessage) (m : AgentMessage) (context : Option Text) (q : List QueuedMessage)
    → to_agent_message msg ≡ some m
    → ids_of (q ++ (to_queued context m ∷ [])) ≡ ids_of q ++ (msg_id msg ∷ [])
ids_of-append msg m context q e =
    map-append (λ (n : QueuedMessage). n.id) q (to_queued context m ∷ [])
    ∙ ap (λ (k : Text). ids_of q ++ (k ∷ [])) (to_agent_message-msg_id msg m e)

Effect-Grows :
    (msg : WeixinMessage) (j : Text) (r r' : Router) → Effect msg j r r' → Grows msg j r r'
Effect-Grows msg j r r' (inl same) = inl (ap ids_of same)
Effect-Grows msg j r r' (inr (h, active, m, e, q)) =
    inr (h, ap ids_of q ∙ ids_of-append msg m none (inbox j r) e)

after_handled-ids :
    (env : Env) (msg : WeixinMessage) (active : Option Text) (res : Result (Option Text))
    (g : Gateway) (j : Text)
    → ids j (after_handled env msg active res g).1.router ≡ ids j g.router
unfolding after_routing send_inline
after_handled-ids env msg none (ok none) g j = refl
after_handled-ids env msg (some a) (ok none) g j = ids-set_media a j _ g.router
after_handled-ids env msg active (ok (some t)) g j = refl
after_handled-ids env msg active (err e) g j = refl
after_handled-ids env msg active panic g j = refl

Grows-trans :
    (msg : WeixinMessage) (j : Text) (r r' r'' : Router)
    → Grows msg j r r'
    → ids j r'' ≡ ids j r'
    → Grows msg j r r''
Grows-trans msg j r r' r'' (inl same) e = inl (e ∙ same)
Grows-trans msg j r r' r'' (inr (h, more)) e = inr (h, e ∙ more)

handle_message-Grows :
    (env : Env) (msg : WeixinMessage) (g : Gateway) (j : Text)
    → Grows msg j g.router (handle_message env msg g).1.router
unfolding handle_message_with
handle_message-Grows env msg g j =
    let (res, r') = handle_incoming env.shell env.table msg g.router in
    Grows-trans msg j g.router r'
      (after_handled env msg g.router.active_agent res (record g { router = r' })).1.router
      (Effect-Grows msg j g.router r' (handle_incoming-Effect env.shell env.table msg j g.router))
      (after_handled-ids env msg g.router.active_agent res (record g { router = r' }) j)

with_message-Grows :
    (msg : WeixinMessage) (j a : Text) (context : Option Text) (r : Router)
    → Grows msg j r (route_to_agent msg a context r).1
with_message-Grows msg j a context r = elim (route_to_agent_exact msg a context r) [
  | inr (same, why) ↦ inl (ap (ids j) same)
  | inl (m, admitted, known, e, eq) ↦
      let put : ids j (route_to_agent msg a context r).1
          ≡ ids_of (queue_of j (enqueue a (to_queued context m) r.queue)) =
        ap (λ (p : Result (Unit {0}) × Router). ids j p.1) eq in
      elim (Bool-cases (a == j)) [
        | inl here ↦ inr (
          admitted,
          put ∙ rw (queue_of-enqueue, here) (ids_of-append msg m context (inbox j r) e),
        )
        | inr there ↦ inl (put ∙ rw (queue_of-enqueue, there) refl)
      ]
]

-- What the routing of a quoting reply has done: nothing to the router, or what one message may do.
abbrev pub Referred : WeixinMessage → Text → Gateway → Bool × Gateway → Type 0
Referred msg j g p =
    ((p.0 ≡ false) × (p.1.router ≡ g.router)) ⊎ ((p.0 ≡ true) × Grows msg j g.router p.1.router)

routed-Referred :
    (env : Env) (msg : WeixinMessage) (j a : Text) (g : Gateway) (res : Result (Unit {0}))
    (r' : Router)
    → Grows msg j g.router r'
    → (res ≢ ok tt → r' ≡ g.router)
    → Referred msg j g (routed env msg a (res, r') g)
routed-Referred env msg j a g (ok u) r' h quiet = inr (refl, h)
routed-Referred env msg j a g (err e) r' h quiet = inl (refl, quiet (λ k. cc))
routed-Referred env msg j a g panic r' h quiet = inl (refl, quiet (λ k. cc))

route_to_agent-quiet :
    (msg : WeixinMessage) (a : Text) (context : Option Text) (r : Router)
    → (route_to_agent msg a context r).0 ≢ ok tt
    → (route_to_agent msg a context r).1 ≡ r
route_to_agent-quiet msg a context r h = elim (route_to_agent_exact msg a context r) [
  | inr (same, why) ↦ same
  | inl (m, admitted, known, e, eq) ↦ absurd (h (ap (λ (p : Result (Unit {0}) × Router). p.0) eq))
]

route_to_context-Referred :
    (env : Env) (msg : WeixinMessage) (j context_json : Text) (agent : Option Text) (g : Gateway)
    → Referred msg j g (route_to_context env msg context_json agent g)
unfolding route_to_context
route_to_context-Referred env msg j c none g = inl (refl, refl)
route_to_context-Referred env msg j c (some a) g =
    elim (Bool-cases (is_registered a g.router.registry)) [
      | inr unknown ↦ rw unknown (inl (refl, refl))
      | inl known ↦ rw known (
          routed-Referred env msg j a g (route_to_agent msg a (some c) g.router).0
            (route_to_agent msg a (some c) g.router).1
            (with_message-Grows msg j a (some c) g.router)
            (route_to_agent-quiet msg a (some c) g.router))
    ]

route_reference-Referred :
    (env : Env) (msg : WeixinMessage) (j : Text) (g : Gateway)
    → Referred msg j g (route_reference env msg g)
unfolding route_reference
route_reference-Referred env msg j g = elim (Option-cases (ref_msg_id msg)) [
  | inl plain ↦ rw (plain, route_reference) (inl (refl, refl))
  | inr (id, e) ↦ elim (Option-cases (unwrap_none (get_msg_agent_context env.fault id g.store))) [
    | inl missing ↦ rw (e, missing, route_reference) (inl (refl, refl))
    | inr (c, found) ↦
        rw (e, found, route_reference) (route_to_context-Referred env msg j c (agent_of env c) g)
  ]
]

-- The router after one message.
abbrev pub router_after : Env → WeixinMessage → Gateway → Router
router_after env msg g = (process_message env msg g).1.router

-- The rest of the body, behind the routing of a quoting reply.
abbrev pub continue_with : Env → WeixinMessage → Bool × Gateway → Stepped
continue_with env msg (ref_routed, g) = if ref_routed then (ok tt, g) else handle_message env msg g

new_message-Grows :
    (env : Env) (msg : WeixinMessage) (g : Gateway) (j : Text) (p : Bool × Gateway)
    → Referred msg j g p
    → Grows msg j g.router (continue_with env msg p).1.router
new_message-Grows env msg g j (b, g') (inr (e, grows)) = rw e grows
new_message-Grows env msg g j (b, g') (inl (e, same)) = rw e (
    subst (λ (r : Router). Grows msg j r (handle_message env msg g').1.router) same
      (handle_message-Grows env msg g' j))

step-Grows :
    (msg : WeixinMessage) (j : Text) (r : Router) (s t : Stepped)
    → s ≡ t
    → Grows msg j r t.1.router
    → Grows msg j r s.1.router
step-Grows msg j r s t e h = subst (λ (u : Stepped). Grows msg j r u.1.router) (sym e) h

-- Whatever a message is, and whatever the store, the network and the shell answer, the ids in each
-- agent's queue stay what they are, or the message's id is put behind them; the latter only for a
-- message of an admitted sender.
pub process_message-Grows :
    (env : Env) (msg : WeixinMessage) (g : Gateway) (j : Text)
    → Grows msg j g.router (router_after env msg g)
process_message-Grows env msg g j = elim (Bool-cases (is_user_message msg)) [
  | inr other ↦
      step-Grows msg j g.router (process_message env msg g) (ok tt, g)
        ((process_message_skips env msg g).0 other) (inl refl)
  | inl user ↦ elim (Bool-cases (checked env msg g).0) [
    | inr seen ↦
        step-Grows msg j g.router (process_message env msg g)
          (ok tt, record g { dedup = (checked env msg g).1 })
          ((process_message_skips env msg g).1 user seen) (inl refl)
    | inl new ↦
        let g' : Gateway = record g { dedup = (checked env msg g).1 } in
        step-Grows msg j g.router (process_message env msg g)
          (continue_with env msg (route_reference env msg g'))
          (process_message_new env msg g user new)
          (new_message-Grows env msg g' j (route_reference env msg g')
            (route_reference-Referred env msg j g'))
  ]
]
