-- ===== src/Registry/Valid.antt =====
-- gateway/src/agents/registry.rs: what each operation does to the map, and that it keeps it well formed.
use ilink_gateway.Prelude.{
  ℕ, ◌≡◌, ◌≢◌, inl, inr, refl, sym, ◌∙◌, Option, some, List, [], ◌∷◌, arith, if◌then◌else◌,
  Bool-cases,
}
use ilink_gateway.Text.{Text, ◌==◌, eq_iff, eq_ne}
use ilink_gateway.Map.{Map, contains, insert, remove, modify, Distinct}
use ilink_gateway.Map.Laws.{lookup-insert, insert-Distinct, remove-Distinct, modify-Distinct}
use ilink_gateway.Types.{AgentInfo, AgentStatus, online, offline}
use ilink_gateway.Error.{ok}
use ilink_gateway.Registry.{
  AgentRegistry, new, get, register, unregister, mark, set_status, mark_online, mark_offline,
  is_stale, sweep, check_heartbeat,
}

-- Every entry stands under its agent's name, which is not empty.
abbrev Named : Map AgentInfo → Type 0
Named [] = Unit
Named ((k, a) ∷ m) = (a.name ≡ k) × (k ≢ []) × Named m

pub record IsValid (r : AgentRegistry) : Type 0 where
  pub distinct : Distinct r.agents
  pub named : Named r.agents

insert-Named :
    (k : Text) (a : AgentInfo) (m : Map AgentInfo)
    → a.name ≡ k
    → k ≢ []
    → Named m
    → Named (insert k a m)
unfolding insert
insert-Named k a [] e n h = (e, n, tt)
insert-Named k a ((j, b) ∷ m) e n h = elim (Bool-cases (j == k)) [
  | inl same ↦ rw same (e ∙ sym ((eq_iff j k).0 same), h.1, h.2)
  | inr other ↦ rw other (h.0, h.1, insert-Named k a m e n h.2)
]

remove-Named : (k : Text) (m : Map AgentInfo) → Named m → Named (remove k m)
unfolding remove
remove-Named k [] h = tt
remove-Named k ((j, b) ∷ m) h = elim (Bool-cases (j == k)) [
  | inl same ↦ rw same (remove-Named k m h.2)
  | inr other ↦ rw other (h.0, h.1, remove-Named k m h.2)
]

modify-Named :
    (k : Text) (s : AgentStatus) (now : ℕ) (m : Map AgentInfo)
    → Named m
    → Named (modify k (mark s now) m)
unfolding modify
modify-Named k s now [] h = tt
modify-Named k s now ((j, b) ∷ m) h = elim (Bool-cases (j == k)) [
  | inl same ↦ rw same (h.0, h.1, h.2)
  | inr other ↦ rw other (h.0, h.1, modify-Named k s now m h.2)
]

sweep-Named : (now t : ℕ) (m : Map AgentInfo) → Named m → Named (sweep now t m).1
unfolding sweep
sweep-Named now t [] h = tt
sweep-Named now t ((j, b) ∷ m) h = elim (Bool-cases (is_stale now t b)) [
  | inl same ↦ rw same (h.0, h.1, sweep-Named now t m h.2)
  | inr other ↦ rw other (h.0, h.1, sweep-Named now t m h.2)
]

pub contains-sweep :
    (now t : ℕ) (k : Text) (m : Map AgentInfo) → contains k (sweep now t m).1 ≡ contains k m
unfolding sweep contains
contains-sweep now t k [] = refl
contains-sweep now t k ((j, b) ∷ m) = ground (arith, contains-sweep now t k m)

sweep-Distinct : (now t : ℕ) (m : Map AgentInfo) → Distinct m → Distinct (sweep now t m).1
unfolding sweep
sweep-Distinct now t [] d = tt
sweep-Distinct now t ((j, b) ∷ m) d =
    ground (arith, contains-sweep now t j m, sweep-Distinct now t m)

-- The operations that change a registry.
pub data Call : Type 0 where
  register_call : ℕ → Text → Option Text → List Text → Call
  unregister_call : Text → Call
  online_call : ℕ → Text → Call
  offline_call : ℕ → Text → Call
  heartbeat_call : ℕ → ℕ → Call

unfoldable pub apply : Call → AgentRegistry → AgentRegistry
apply (register_call now name endpoint caps) r = (register now name endpoint caps r).1
apply (unregister_call name) r = (unregister name r).1
apply (online_call now name) r = (mark_online now name r).1
apply (offline_call now name) r = (mark_offline now name r).1
apply (heartbeat_call now t) r = (check_heartbeat now t r).1

pub register-IsValid :
    (now : ℕ) (name : Text) (e : Option Text) (caps : List Text) (r : AgentRegistry)
    → IsValid r
    → IsValid (register now name e caps r).1
unfolding register
register-IsValid now name e caps r v = elim (Bool-cases (name == [])) [
  | inl blank ↦ rw blank v
  | inr proper ↦ rw proper (record {
    distinct = insert-Distinct name _ r.agents v.distinct;
    named = insert-Named name _ r.agents refl (λ h. cc (proper, (eq_iff name []).1 h)) v.named;
  })
]

unregister-IsValid : (name : Text) (r : AgentRegistry) → IsValid r → IsValid (unregister name r).1
unfolding unregister
unregister-IsValid name r v = elim (Bool-cases (contains name r.agents)) [
  | inl known ↦ rw known (record {
    distinct = remove-Distinct name r.agents v.distinct;
    named = remove-Named name r.agents v.named;
  })
  | inr unknown ↦ rw unknown v
]

pub set_status-IsValid :
    (s : AgentStatus) (now : ℕ) (name : Text) (r : AgentRegistry)
    → IsValid r
    → IsValid (set_status s now name r).1
unfolding set_status
set_status-IsValid s now name r v = elim (Bool-cases (contains name r.agents)) [
  | inl known ↦ rw known (record {
    distinct = modify-Distinct name (mark s now) r.agents v.distinct;
    named = modify-Named name s now r.agents v.named;
  })
  | inr unknown ↦ rw unknown v
]

pub check_heartbeat-IsValid :
    (now t : ℕ) (r : AgentRegistry) → IsValid r → IsValid (check_heartbeat now t r).1
unfolding check_heartbeat
check_heartbeat-IsValid now t r v = record {
  distinct = sweep-Distinct now t r.agents v.distinct;
  named = sweep-Named now t r.agents v.named;
}

apply-IsValid : (c : Call) (r : AgentRegistry) → IsValid r → IsValid (apply c r)
unfolding apply mark_online mark_offline
apply-IsValid (register_call now name e caps) r v = register-IsValid now name e caps r v
apply-IsValid (unregister_call name) r v = unregister-IsValid name r v
apply-IsValid (online_call now name) r v = set_status-IsValid online now name r v
apply-IsValid (offline_call now name) r v = set_status-IsValid offline now name r v
apply-IsValid (heartbeat_call now t) r v = check_heartbeat-IsValid now t r v

unfoldable pub run : List Call → AgentRegistry → AgentRegistry
run [] r = r
run (c ∷ cs) r = run cs (apply c r)

run_keeps : (cs : List Call) (r : AgentRegistry) → IsValid r → IsValid (run cs r)
unfolding run
run_keeps [] r v = v
run_keeps (c ∷ cs) r v = run_keeps cs (apply c r) (apply-IsValid c r v)

-- After any sequence of operations on a new registry no name stands twice, and every agent stands
-- under its own name, which is not empty.
pub run-new-IsValid : (cs : List Call) → IsValid (run cs new)
unfolding new
run-new-IsValid cs = run_keeps cs new (record { distinct = tt; named = tt })

-- A registration under a proper name makes the agent online, with both of its times set to the
-- present, also where the name was registered before; no other agent changes.
pub get-register :
    (now : ℕ) (name : Text) (endpoint : Option Text) (caps : List Text) (r : AgentRegistry)
    (j : Text)
    → name ≢ []
    → ((register now name endpoint caps r).0 ≡ ok tt)
      × (get j (register now name endpoint caps r).1 ≡ (
          if name == j
          then some (record {
            name = name;
            endpoint = endpoint;
            capabilities = caps;
            status = online;
            last_seen = now;
            registered_at = now;
          })
          else get j r))
unfolding register get
get-register now name e caps r j h = rw (eq_ne name [] h) (refl, lookup-insert name j _ r.agents)
