-- ===== src/System/Follows.antt =====
-- gateway/src/main.rs and gateway/src/router/router.rs: what a message can change of the router.
use ilink_gateway.Prelude.{
  ◌≡◌, ◌⊎◌, inl, inr, refl, sym, ap, ◌∙◌, true, Option, none, some, List, [], ◌∷◌, Bool-cases,
  Option-cases,
}
use mathlib.Core.Path.{subst}
use ilink_gateway.Text.{Text, codes}
use ilink_gateway.Text.Search.{starts_with, LowerTable}
use ilink_gateway.Error.{Result, ok, err, panic}
use ilink_gateway.Config.{DmPolicy, GroupPolicy, TextSet}
use ilink_gateway.Types.{
  WeixinMessage, AgentMessage, MediaItem, RouterCommand, use_agent, list_agents, status, help, cmd,
}
use ilink_gateway.Types.Message.{message_text, is_user_message}
use ilink_gateway.Convert.{to_agent_message}
use ilink_gateway.Commands.{Shell, parse_command}
use ilink_gateway.Registry.{is_registered}
use ilink_gateway.Store.{get_msg_agent_context}
use ilink_gateway.Router.{
  Router, is_admitted, enqueue_for, route_to_agent, Handled, switch_to, dispatch, handle_command,
  without_reply, deliver, or_deliver, handle_text, handle_incoming, no_active_agent,
}
use ilink_gateway.Poll.{
  Env, Gateway, ref_msg_id, unwrap_none, agent_of, routed, route_to_context, route_reference,
  set_media, after_handled, after_routing, send_inline, handle_message, process_message,
  handle_message_with, process_message_with,
}
use ilink_gateway.Poll.Dropped.{checked}

-- What admits messages.
abbrev pub settings : Router → DmPolicy × GroupPolicy × TextSet × TextSet
settings r = (r.dm_policy, r.group_policy, r.allowed_users, r.allowed_groups)

-- A step has kept the registry and the policies, and the active agent too, or it has made a
-- registered agent active.
pub record Follows (r r' : Router) : Type 0 where
  pub registry : r'.registry ≡ r.registry
  pub policies : settings r' ≡ settings r
  pub active :
      (r'.active_agent ≡ r.active_agent)
      ⊎ (a : Text) × (r'.active_agent ≡ some a) × (is_registered a r.registry ≡ true)

same : (r : Router) → Follows r r
same r = record { registry = refl; policies = refl; active = inl refl }

trans : (r r' r'' : Router) → Follows r r' → Follows r' r'' → Follows r r''
trans r r' r'' h k = record {
  registry = k.registry ∙ h.registry;
  policies = k.policies ∙ h.policies;
  active = elim k.active [
    | inr (a, e, known) ↦ inr (a, e, sym (ap (is_registered a) h.registry) ∙ known)
    | inl kept ↦ elim h.active [
      | inl before ↦ inl (kept ∙ before)
      | inr (a, e, known) ↦ inr (a, kept ∙ e, known)
    ]
  ];
}

enqueue_for-Follows :
    (agent : Text) (context : Option Text) (m : Option AgentMessage) (r : Router)
    → Follows r (enqueue_for agent context m r).1
unfolding enqueue_for
enqueue_for-Follows agent context none r = same r
enqueue_for-Follows agent context (some m) r = record {
  registry = refl;
  policies = refl;
  active = inl refl;
}

without_reply-Follows :
    (r : Router) (p : Result (Unit {0}) × Router) → Follows r p.1 → Follows r (without_reply p).1
without_reply-Follows r (ok u, r') h = h
without_reply-Follows r (err e, r') h = h
without_reply-Follows r (panic, r') h = h

-- The two outcomes of a delivery, by the active agent.
abbrev delivered : WeixinMessage → Router → Option Text → Handled
delivered msg r none = (err no_active_agent, r)
delivered msg r (some a) = without_reply (enqueue_for a none (to_agent_message msg) r)

delivered-Follows :
    (msg : WeixinMessage) (r : Router) (o : Option Text) → Follows r (delivered msg r o).1
delivered-Follows msg r none = same r
delivered-Follows msg r (some a) =
    without_reply-Follows r _ (enqueue_for-Follows a none (to_agent_message msg) r)

deliver_is : (msg : WeixinMessage) (r : Router) → deliver msg r ≡ delivered msg r r.active_agent
unfolding deliver
deliver_is msg r = elim r.active_agent [ none ↦ refl | some a ↦ refl ]

deliver-Follows : (msg : WeixinMessage) (r : Router) → Follows r (deliver msg r).1
deliver-Follows msg r =
    subst (λ (h : Handled). Follows r h.1) (sym (deliver_is msg r))
      (delivered-Follows msg r r.active_agent)

switch_to-Follows : (name : Text) (r : Router) → Follows r (switch_to name r).1
switch_to-Follows name r = elim (Bool-cases (is_registered name r.registry)) [
  | inl known ↦
      rw known (record { registry = refl; policies = refl; active = inr (name, refl, known) })
  | inr unknown ↦ rw unknown (same r)
]

module _ (shell : Shell) (table : LowerTable) where
  dispatch-Follows :
      (c : Option RouterCommand) (r : Router) → Follows r (dispatch shell table c r).1
  unfolding dispatch
  dispatch-Follows none r = same r
  dispatch-Follows (some (use_agent name)) r = switch_to-Follows name r
  dispatch-Follows (some list_agents) r = same r
  dispatch-Follows (some status) r = same r
  dispatch-Follows (some help) r = same r
  dispatch-Follows (some (cmd c t)) r = same r

  or_deliver-Follows :
      (msg : WeixinMessage) (r : Router) (p : Handled)
      → Follows r p.1
      → Follows r (or_deliver msg p).1
  or_deliver-Follows msg r (ok none, r') h =
      trans r r' (deliver msg r').1 h (deliver-Follows msg r')
  or_deliver-Follows msg r (ok (some reply), r') h = h
  or_deliver-Follows msg r (err e, r') h = h
  or_deliver-Follows msg r (panic, r') h = h

  handle_text-Follows :
      (msg : WeixinMessage) (text : Option Text) (r : Router)
      → Follows r (handle_text shell table msg text r).1
  unfolding handle_text handle_command
  handle_text-Follows msg none r = same r
  handle_text-Follows msg (some text) r = elim (Bool-cases (starts_with (codes "/") text)) [
    | inl slash ↦ rw slash (or_deliver-Follows msg r _ (dispatch-Follows (parse_command text) r))
    | inr plain ↦ rw plain (deliver-Follows msg r)
  ]

  pub handle_incoming-Follows :
      (msg : WeixinMessage) (r : Router) → Follows r (handle_incoming shell table msg r).1
  unfolding handle_incoming
  handle_incoming-Follows msg r = elim (Bool-cases (is_admitted msg r)) [
    | inl admitted ↦ rw admitted (handle_text-Follows msg (message_text msg) r)
    | inr dropped ↦ rw dropped (same r)
  ]

route_to_agent-Follows :
    (msg : WeixinMessage) (a : Text) (context : Option Text) (r : Router)
    → Follows r (route_to_agent msg a context r).1
unfolding route_to_agent
route_to_agent-Follows msg a context r = elim (Bool-cases (is_admitted msg r)) [
  | inr dropped ↦ rw dropped (same r)
  | inl admitted ↦ elim (Bool-cases (is_registered a r.registry)) [
    | inr unknown ↦ rw (admitted, unknown) (same r)
    | inl known ↦ rw (admitted, known) (enqueue_for-Follows a context (to_agent_message msg) r)
  ]
]

routed-Follows :
    (env : Env) (msg : WeixinMessage) (a : Text) (p : Result (Unit {0}) × Router) (g : Gateway)
    → Follows g.router p.1
    → Follows g.router (routed env msg a p g).1.router
routed-Follows env msg a (ok u, r) g h = h
routed-Follows env msg a (err e, r) g h = h
routed-Follows env msg a (panic, r) g h = h

route_to_context-Follows :
    (env : Env) (msg : WeixinMessage) (context_json : Text) (agent : Option Text) (g : Gateway)
    → Follows g.router (route_to_context env msg context_json agent g).1.router
unfolding route_to_context
route_to_context-Follows env msg c none g = same g.router
route_to_context-Follows env msg c (some a) g =
    elim (Bool-cases (is_registered a g.router.registry)) [
      | inr unknown ↦ rw unknown (same g.router)
      | inl known ↦
          rw known (routed-Follows env msg a _ g (route_to_agent-Follows msg a (some c) g.router))
    ]

route_reference-Follows :
    (env : Env) (msg : WeixinMessage) (g : Gateway)
    → Follows g.router (route_reference env msg g).1.router
unfolding route_reference
route_reference-Follows env msg g = elim (Option-cases (ref_msg_id msg)) [
  | inl plain ↦ rw (plain, route_reference) (same g.router)
  | inr (id, e) ↦ elim (Option-cases (unwrap_none (get_msg_agent_context env.fault id g.store))) [
    | inl missing ↦ rw (e, missing, route_reference) (same g.router)
    | inr (c, found) ↦
        rw (e, found, route_reference) (route_to_context-Follows env msg c (agent_of env c) g)
  ]
]

set_media-Follows :
    (agent : Text) (media : List MediaItem) (r : Router) → Follows r (set_media agent media r)
set_media-Follows agent [] r = same r
set_media-Follows agent (m ∷ ms) r = record { registry = refl; policies = refl; active = inl refl }

after_handled-Follows :
    (env : Env) (msg : WeixinMessage) (active : Option Text) (res : Result (Option Text))
    (g : Gateway)
    → Follows g.router (after_handled env msg active res g).1.router
unfolding after_routing send_inline
after_handled-Follows env msg none (ok none) g = same g.router
after_handled-Follows env msg (some a) (ok none) g = set_media-Follows a _ g.router
after_handled-Follows env msg active (ok (some text)) g = same g.router
after_handled-Follows env msg active (err e) g = same g.router
after_handled-Follows env msg active panic g = same g.router

handle_message-Follows :
    (env : Env) (msg : WeixinMessage) (g : Gateway)
    → Follows g.router (handle_message env msg g).1.router
unfolding handle_message_with
handle_message-Follows env msg g =
    let (res, r') = handle_incoming env.shell env.table msg g.router in
    trans g.router r' _ (handle_incoming-Follows env.shell env.table msg g.router)
      (after_handled-Follows env msg g.router.active_agent res (record g { router = r' }))

-- Whatever a message is, it leaves the registry and the policies alone, and makes no agent active
-- but a registered one.
pub process_message-Follows :
    (env : Env) (msg : WeixinMessage) (g : Gateway)
    → Follows g.router (process_message env msg g).1.router
unfolding process_message_with
process_message-Follows env msg g =
    let g' : Gateway = record g { dedup = (checked env msg g).1 } in
    let referred = route_reference-Follows env msg g' in
    elim (Bool-cases (is_user_message msg)) [
      | inr other ↦ rw other (same g.router)
      | inl user ↦ elim (Bool-cases (checked env msg g).0) [
        | inr seen ↦ rw (user, seen) (same g.router)
        | inl new ↦ elim (Bool-cases (route_reference env msg g').0) [
          | inl quoted ↦ rw (user, new, quoted) referred
          | inr plain ↦
              rw (user, new, plain)
                (trans g.router (route_reference env msg g').1.router _ referred
                  (handle_message-Follows env msg (route_reference env msg g').1))
        ]
      ]
    ]
