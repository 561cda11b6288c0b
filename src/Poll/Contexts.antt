-- ===== src/Poll/Contexts.antt =====
-- gateway/src/main.rs: what the handling of one message does to the contexts of others.
use ilink_gateway.Prelude.{
  ℕ, ◌+◌, ◌<◌, ◌≡◌, inl, inr, refl, ◌∙◌, Bool, true, false, not, Option, none, some, [], ◌∷◌, arith,
  ltb, Bool-cases, Option-cases,
}
use ilink_gateway.Text.{Text, ◌==◌}
use ilink_gateway.Text.Number.{show_int}
use ilink_gateway.Error.{Result, ok, err, panic}
use ilink_gateway.Map.{Map, lookup, retain}
use ilink_gateway.Map.Laws.{lookup-insert}
use ilink_gateway.Types.{WeixinMessage}
use ilink_gateway.Types.Message.{is_user_message}
use ilink_gateway.Store.{get_msg_agent_context}
use ilink_gateway.Registry.{is_registered}
use ilink_gateway.Router.{Router, handle_incoming}
use ilink_gateway.Poll.{
  MessageContextInfo, Gateway, Env, ref_msg_id, record_context, unwrap_none, agent_of, routed,
  route_to_context, route_reference, send_inline, after_routing, after_handled, handle_message,
  process_message, clean_contexts, handle_message_with, process_message_with,
}
use ilink_gateway.Poll.Dropped.{checked}

-- Has the message another id than this one, or none?
abbrev pub is_other : Text → WeixinMessage → Bool
is_other k msg = elim msg.message_id [ none ↦ true | some id ↦ not (show_int id == k) ]

abbrev pub context_at : Text → Gateway → Option MessageContextInfo
context_at k g = lookup k g.message_contexts

module _ (k : Text) where
  record_context-other :
      (now : ℕ) (msg : WeixinMessage) (agent : Text) (contexts : Map MessageContextInfo)
      → is_other k msg ≡ true
      → lookup k (record_context now msg agent contexts) ≡ lookup k contexts
  unfolding record_context
  record_context-other now msg agent contexts h = elim (Option-cases msg.message_id) [
    | inl no_id ↦ rw no_id refl
    | inr (id, e) ↦ elim (Option-cases msg.context_token) [
      | inl no_token ↦ rw (e, no_token) refl
      | inr (token, e') ↦ elim (Option-cases msg.from_user_id) [
        | inl no_user ↦ rw (e, e', no_user) refl
        | inr (user, e'') ↦
            let other : (show_int id == k) ≡ false = ground arith in
            rw (e, e', e'', lookup-insert, other) refl
      ]
    ]
  ]

  routed-other :
      (env : Env) (msg : WeixinMessage) (agent : Text) (r : Result (Unit {0}) × Router)
      (g : Gateway)
      → is_other k msg ≡ true
      → context_at k (routed env msg agent r g).1 ≡ context_at k g
  routed-other env msg agent (ok u, router) g h =
      record_context-other env.now msg agent g.message_contexts h
  routed-other env msg agent (err e, router) g h = refl
  routed-other env msg agent (panic, router) g h = refl

  route_to_context-other :
      (env : Env) (msg : WeixinMessage) (context_json : Text) (agent : Option Text) (g : Gateway)
      → is_other k msg ≡ true
      → context_at k (route_to_context env msg context_json agent g).1 ≡ context_at k g
  unfolding route_to_context
  route_to_context-other env msg context_json none g h = refl
  route_to_context-other env msg context_json (some agent) g h =
      elim (Bool-cases (is_registered agent g.router.registry)) [
        | inl known ↦ rw known (routed-other env msg agent _ g h)
        | inr unknown ↦ rw unknown refl
      ]

  route_reference-other :
      (env : Env) (msg : WeixinMessage) (g : Gateway)
      → is_other k msg ≡ true
      → context_at k (route_reference env msg g).1 ≡ context_at k g
  unfolding route_reference
  route_reference-other env msg g h = elim (Option-cases (ref_msg_id msg)) [
    | inl no_ref ↦ rw (no_ref, route_reference) refl
    | inr (id, e) ↦ elim (Option-cases (unwrap_none (get_msg_agent_context env.fault id g.store))) [
      | inl unknown ↦ rw (e, unknown, route_reference) refl
      | inr (json, e') ↦
          rw (e, e', route_reference) (route_to_context-other env msg json (agent_of env json) g h)
    ]
  ]

  after_routing-other :
      (env : Env) (msg : WeixinMessage) (agent : Option Text) (g : Gateway)
      → is_other k msg ≡ true
      → context_at k (after_routing env msg agent g) ≡ context_at k g
  unfolding after_routing
  after_routing-other env msg none g h = record_context-other env.now msg [] g.message_contexts h
  after_routing-other env msg (some agent) g h =
      record_context-other env.now msg agent g.message_contexts h

  after_handled-other :
      (env : Env) (msg : WeixinMessage) (active : Option Text) (r : Result (Option Text))
      (g : Gateway)
      → is_other k msg ≡ true
      → context_at k (after_handled env msg active r g).1 ≡ context_at k g
  unfolding send_inline
  after_handled-other env msg active (ok none) g h = after_routing-other env msg active g h
  after_handled-other env msg active (ok (some text)) g h = refl
  after_handled-other env msg active (err e) g h = refl
  after_handled-other env msg active panic g h = refl

  handle_message-other :
      (env : Env) (msg : WeixinMessage) (g : Gateway)
      → is_other k msg ≡ true
      → context_at k (handle_message env msg g).1 ≡ context_at k g
  unfolding handle_message_with
  handle_message-other env msg g h =
      let (reply, router) = handle_incoming env.shell env.table msg g.router in
      after_handled-other env msg g.router.active_agent reply (record g { router = router }) h

  -- A message leaves the contexts of messages with another id as they are.
  pub process_message-other :
      (env : Env) (msg : WeixinMessage) (g : Gateway)
      → is_other k msg ≡ true
      → context_at k (process_message env msg g).1 ≡ context_at k g
  unfolding process_message_with
  process_message-other env msg g h =
      let g' : Gateway = record g { dedup = (checked env msg g).1 } in
      let step = route_reference-other env msg g' h in
      elim (Bool-cases (is_user_message msg)) [
        | inr not_user ↦ rw not_user refl
        | inl user ↦ elim (Bool-cases (checked env msg g).0) [
          | inr seen ↦ rw (user, seen) refl
          | inl new ↦ elim (Bool-cases (route_reference env msg g').0) [
            | inl quoted ↦ rw (user, new, quoted) step
            | inr plain ↦
                rw (user, new, plain)
                  (handle_message-other env msg (route_reference env msg g').1 h ∙ step)
          ]
        ]
      ]

-- A value that a cleanup keeps is found after it.
lookup-retain_kept :
    {V : Type 0} (p : V → Bool) (k : Text) (v : V) (m : Map V)
    → lookup k m ≡ some v
    → p v ≡ true
    → lookup k (retain p m) ≡ some v
unfolding lookup retain
lookup-retain_kept p k v [] h keeps = h
lookup-retain_kept p k v ((j, w) ∷ m) h keeps = ground (arith, lookup-retain_kept p k v m)

-- A context that is younger than ten minutes survives the cleanup.
pub clean_contexts-young :
    (now : ℕ) (k : Text) (info : MessageContextInfo) (contexts : Map MessageContextInfo)
    → lookup k contexts ≡ some info
    → now < info.received_at + 600
    → lookup k (clean_contexts now contexts) ≡ some info
unfolding clean_contexts
clean_contexts-young now k info contexts h young =
    lookup-retain_kept (λ (v : MessageContextInfo). ltb now (v.received_at + 600)) k info contexts h
      (ground arith)
