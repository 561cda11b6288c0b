-- ===== src/System/Invariant.antt =====
-- gateway/src: what holds in every state of the gateway.
use ilink_gateway.Prelude.{
  ℕ, ◌≡◌, ◌⊎◌, inl, inr, refl, sym, ap, ◌∙◌, true, Option, none, some, List, [], arith, Bool-cases,
}
use mathlib.Core.Path.{subst}
use ilink_gateway.Text.{Text, ◌==◌}
use ilink_gateway.Error.{Result, ok, err, panic}
use ilink_gateway.Map
use ilink_gateway.Map.{lookup}
use ilink_gateway.Map.Laws.{contains-insert, contains-modify}
use ilink_gateway.Config.{GatewayConfig, DmPolicy, GroupPolicy, TextSet}
use ilink_gateway.Types.{online}
use ilink_gateway.Registry
use ilink_gateway.Registry.{
  AgentRegistry, is_registered, register, mark_online, set_status, check_heartbeat,
}
use ilink_gateway.Registry.Valid.{
  IsValid, register-IsValid, set_status-IsValid, check_heartbeat-IsValid, contains-sweep,
}
use ilink_gateway.Store.{SqliteStore, Faults, query, get_state}
use ilink_gateway.Router.{
  Router, restore, load_state, set_policies, set_cmd_max_output_chars, set_active_agent,
  key_active_agent,
}
use ilink_gateway.Poll.{Gateway}
use ilink_gateway.Api.{RegisterRequest, or_activate, after_register, handle_register, handle_poll}
use ilink_gateway.Startup.{first_gateway, heartbeat_tick}
use ilink_gateway.System
use ilink_gateway.System.{Step, Reach, start, later}
use ilink_gateway.System.Follows.{settings, Follows, process_message-Follows}

abbrev pub configured : GatewayConfig → DmPolicy × GroupPolicy × TextSet × TextSet
configured c = (c.dm_policy, c.group_policy, c.allowed_users, c.allowed_groups)

-- The agent that the store names at the start.
abbrev pub stored_agent : SqliteStore → Option Text
stored_agent store = lookup key_active_agent store.gateway_state

-- An active agent that is registered, or that was stored.
abbrev pub IsKnown : SqliteStore → AgentRegistry → Option Text → Type 0
IsKnown store registry none = Unit
IsKnown store registry (some a) = (stored_agent store ≡ some a) ⊎ (is_registered a registry ≡ true)

-- The registry is well formed, the policies are the configured ones, and the active agent, if there
-- is one, is registered or was stored.
pub record Sound (config : GatewayConfig) (store : SqliteStore) (r : Router) : Type 0 where
  pub valid : IsValid r.registry
  pub policies : settings r ≡ configured config
  pub active : IsKnown store r.registry r.active_agent

all-IsKnown :
    (store : SqliteStore) (registry : AgentRegistry) (o : Option Text)
    → ((a : Text) → o ≡ some a → IsKnown store registry (some a))
    → IsKnown store registry o
all-IsKnown store registry none h = tt
all-IsKnown store registry (some a) h = h a refl

grown-IsKnown :
    (store : SqliteStore) (registry registry' : AgentRegistry) (o : Option Text)
    → ((a : Text) → is_registered a registry ≡ true → is_registered a registry' ≡ true)
    → IsKnown store registry o
    → IsKnown store registry' o
grown-IsKnown store registry registry' none knows h = tt
grown-IsKnown store registry registry' (some a) knows (inl before) = inl before
grown-IsKnown store registry registry' (some a) knows (inr known) = inr (knows a known)

query-some :
    (f g : Option Text) (p l a : Text) (row : Option Text)
    → query f g p l row ≡ ok (some a)
    → row ≡ some a
query-some none none p l a row h = ground arith
query-some none (some e) p l a row h = absurd cc
query-some (some e) g p l a row h = absurd cc

restore-active :
    (res : Result (Option Text)) (r : Router) (a : Text)
    → r.active_agent ≡ none
    → (restore res r).active_agent ≡ some a
    → res ≡ ok (some a)
restore-active (ok (some b)) r a unset h = ap ok h
restore-active (ok none) r a unset h = absurd cc
restore-active (err e) r a unset h = absurd cc
restore-active panic r a unset h = absurd cc

restore-kept :
    (res : Result (Option Text)) (r : Router)
    → ((restore res r).registry ≡ r.registry) × (settings (restore res r) ≡ settings r)
restore-kept (ok (some b)) r = (refl, refl)
restore-kept (ok none) r = (refl, refl)
restore-kept (err e) r = (refl, refl)
restore-kept panic r = (refl, refl)

module _ (config : GatewayConfig) (store : SqliteStore) where
  start-Sound : (fault : Faults) → Sound config store (first_gateway fault config store).router
  unfolding first_gateway load_state set_policies set_cmd_max_output_chars get_state
      ilink_gateway.Router.new Registry.new
  start-Sound fault =
      let kept = restore-kept (get_state fault key_active_agent store) _ in
      record {
        valid = subst IsValid (sym kept.0) (record { distinct = tt; named = tt });
        policies = kept.1;
        active = all-IsKnown store _ _ (λ a h. inl (
            query-some (fault 0) (fault 1) _ _ a _
              (restore-active (get_state fault key_active_agent store) _ a refl h)));
      }

  -- A router with another registry that knows the same agents and more.
  grown-Sound :
      (r : Router) (registry : AgentRegistry)
      → Sound config store r
      → IsValid registry
      → ((a : Text) → is_registered a r.registry ≡ true → is_registered a registry ≡ true)
      → Sound config store (record r { registry = registry })
  grown-Sound r registry s valid knows = record {
    valid = valid;
    policies = s.policies;
    active = grown-IsKnown store r.registry registry r.active_agent knows s.active;
  }

  Follows-Sound : (r r' : Router) → Sound config store r → Follows r r' → Sound config store r'
  Follows-Sound r r' s f = record {
    valid = subst IsValid (sym f.registry) s.valid;
    policies = f.policies ∙ s.policies;
    active =
        subst (λ (registry : AgentRegistry). IsKnown store registry r'.active_agent)
          (sym f.registry)
          (elim f.active [
            | inl kept ↦ subst (IsKnown store r.registry) (sym kept) s.active
            | inr (b, e, known) ↦ subst (IsKnown store r.registry) (sym e) (inr known)
          ]);
  }

  -- A registration keeps every agent.
  register-known :
      (now : ℕ) (name : Text) (e : Option Text) (caps : List Text) (r : AgentRegistry) (a : Text)
      → is_registered a r ≡ true
      → is_registered a (register now name e caps r).1 ≡ true
  unfolding register is_registered
  register-known now name e caps r a known = elim (Bool-cases (name == [])) [
    | inl blank ↦ rw blank known
    | inr proper ↦ rw (proper, contains-insert) (ground arith)
  ]

  set_status-known :
      (now : ℕ) (name : Text) (r : AgentRegistry) (a : Text)
      → is_registered a r ≡ true
      → is_registered a (mark_online now name r).1 ≡ true
  unfolding mark_online set_status is_registered
  set_status-known now name r a known = elim (Bool-cases (Map.contains name r.agents)) [
    | inl here ↦ rw (here, contains-modify) known
    | inr absent ↦ rw absent known
  ]

  check_heartbeat-known :
      (now t : ℕ) (r : AgentRegistry) (a : Text)
      → is_registered a r ≡ true
      → is_registered a (check_heartbeat now t r).1 ≡ true
  unfolding check_heartbeat is_registered
  check_heartbeat-known now t r a known = contains-sweep now t a r.agents ∙ known

  or_activate-Sound :
      (o : Option Text) (name : Text) (r : Router)
      → Sound config store r
      → Sound config store (or_activate o name r)
  unfolding set_active_agent
  or_activate-Sound (some active) name r s = s
  or_activate-Sound none name r s = elim (Bool-cases (is_registered name r.registry)) [
    | inr unknown ↦ rw (unknown, or_activate) s
    | inl known ↦
        rw (known, or_activate)
          (record { valid = s.valid; policies = s.policies; active = inr known })
  ]

  after_register-Sound :
      (fault : Faults) (name : Text) (res : Result (Unit {0})) (r : Router)
      (now_store : SqliteStore)
      → Sound config store r
      → Sound config store (after_register fault name res r now_store).1.0
  after_register-Sound fault name (ok u) r now_store s = or_activate-Sound r.active_agent name r s
  after_register-Sound fault name (err e) r now_store s = s
  after_register-Sound fault name panic r now_store s = s

  handle_register-Sound :
      (fault : Faults) (now : ℕ) (body : RegisterRequest) (r : Router) (now_store : SqliteStore)
      → Sound config store r
      → Sound config store (handle_register fault now body r now_store).1.0
  unfolding handle_register
  handle_register-Sound fault now body r now_store s =
      let (res, registry) = register now body.name none body.capabilities r.registry in
      after_register-Sound fault body.name res (record r { registry = registry }) now_store
        (grown-Sound r registry s
          (register-IsValid now body.name none body.capabilities r.registry s.valid)
          (register-known now body.name none body.capabilities r.registry))

  handle_poll-Sound :
      (now : ℕ) (name : Text) (r : Router)
      → Sound config store r
      → Sound config store (handle_poll now name r).1
  unfolding handle_poll mark_online
  handle_poll-Sound now name r s = elim (Bool-cases (is_registered name r.registry)) [
    | inr unknown ↦ rw unknown s
    | inl known ↦
        let g =
          grown-Sound r (mark_online now name r.registry).1 s
            (set_status-IsValid online now name r.registry s.valid)
            (set_status-known now name r.registry) in
        rw known (record { valid = g.valid; policies = g.policies; active = g.active })
  ]

  heartbeat_tick-Sound :
      (now t : ℕ) (r : Router) → Sound config store r → Sound config store (heartbeat_tick now t r)
  unfolding heartbeat_tick
  heartbeat_tick-Sound now t r s =
      grown-Sound r (check_heartbeat now t r.registry).1 s
        (check_heartbeat-IsValid now t r.registry s.valid) (check_heartbeat-known now t r.registry)

  Step-Sound :
      {g g' : Gateway} → Step g g' → Sound config store g.router → Sound config store g'.router
  Step-Sound (System.message env msg) s = Follows-Sound _ _ s (process_message-Follows env msg _)
  Step-Sound (System.register fault now body) s = handle_register-Sound fault now body _ _ s
  Step-Sound (System.poll now name) s = handle_poll-Sound now name _ s
  Step-Sound (System.heartbeat now t) s = heartbeat_tick-Sound now t _ s
  Step-Sound (System.cleanup now) s = s
  Step-Sound (System.reply env r) s = s
  Step-Sound (System.join agent channel) s = s
  Step-Sound (System.leave agent channel) s = s

-- In every state that the gateway can come to, by messages, registrations, polls, heartbeats,
-- replies, connections and cleanups in any order, no name is registered twice and every agent
-- stands under its own name; the admission policies are the configured ones; and the active agent
-- is registered, or it is the one that the store named at the start.
pub Reach-Sound :
    {config : GatewayConfig} {store : SqliteStore} {g : Gateway}
    → Reach config store g
    → Sound config store g.router
Reach-Sound {config} {store} (start fault) = start-Sound config store fault
Reach-Sound {config} {store} (later r step) = Step-Sound config store step (Reach-Sound r)
