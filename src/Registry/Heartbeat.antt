-- ===== src/Registry/Heartbeat.antt =====
-- gateway/src/agents/registry.rs: what a heartbeat check does to each agent.
use ilink_gateway.Prelude.{
  ℕ, ◌+◌, ◌*◌, ◌≡◌, inl, inr, refl, ap, ◌∙◌, some, [], ◌∷◌, map, arith, ltb, if◌then◌else◌, length,
  keep, Bool-cases,
}
use mathlib.Core.Option
use ilink_gateway.Text.{Text, eq_refl}
use ilink_gateway.Map.{Map, lookup, values}
use ilink_gateway.Map.Laws.{contains-eq-is_some, lookup-modify}
use ilink_gateway.Types.{AgentInfo, online, offline}
use ilink_gateway.Registry.{
  AgentRegistry, get, list, mark, mark_online, is_online, is_stale, sweep, check_heartbeat,
  online_count,
}

-- An agent after a check: a stale one goes offline and keeps all its other fields.
unfoldable pub after_check : ℕ → ℕ → AgentInfo → AgentInfo
after_check now threshold_secs a =
    if is_stale now threshold_secs a then record a { status = offline } else a

lookup-sweep :
    (now threshold_secs : ℕ) (j : Text) (m : Map AgentInfo)
    → lookup j (sweep now threshold_secs m).1
      ≡ Option.map (after_check now threshold_secs) (lookup j m)
unfolding sweep lookup after_check
lookup-sweep now t j [] = refl
lookup-sweep now t j ((k, a) ∷ m) = ground (arith, lookup-sweep now t j m)

names-sweep :
    (now threshold_secs : ℕ) (m : Map AgentInfo)
    → (sweep now threshold_secs m).0
      ≡ map (λ a. a.name) (keep (is_stale now threshold_secs) (values m))
unfolding sweep values
names-sweep now t [] = refl
names-sweep now t ((k, a) ∷ m) = ground (arith, names-sweep now t m)

-- A check sends exactly the stale agents offline, changes nothing else of any agent, and returns
-- the names of the stale agents, in the order of the map.
pub check_heartbeat_exact :
    (now threshold_secs : ℕ) (r : AgentRegistry)
    → ((j : Text)
        → get j (check_heartbeat now threshold_secs r).1
          ≡ Option.map (after_check now threshold_secs) (get j r))
      × ((check_heartbeat now threshold_secs r).0
          ≡ map (λ a. a.name) (keep (is_stale now threshold_secs) (list r)))
unfolding check_heartbeat get list
check_heartbeat_exact now t r = (λ j. lookup-sweep now t j r.agents, names-sweep now t r.agents)

count-sweep :
    (now threshold_secs : ℕ) (m : Map AgentInfo)
    → length (keep is_online (values (sweep now threshold_secs m).1))
        + length (sweep now threshold_secs m).0
      ≡ length (keep is_online (values m))
unfolding sweep values is_stale
count-sweep now t [] = refl
count-sweep now t ((k, a) ∷ m) = elim (Bool-cases (is_online a)) [
  | inl up ↦ ground (arith, count-sweep now t m)
  | inr down ↦ ground (arith, count-sweep now t m)
]

-- The number of online agents falls by the number of names returned.
pub online_count-check_heartbeat :
    (now threshold_secs : ℕ) (r : AgentRegistry)
    → online_count (check_heartbeat now threshold_secs r).1
        + length (check_heartbeat now threshold_secs r).0
      ≡ online_count r
unfolding check_heartbeat online_count
online_count-check_heartbeat now t r = count-sweep now t r.agents

get-mark_online :
    (now : ℕ) (k : Text) (r : AgentRegistry) (a : AgentInfo)
    → get k r ≡ some a
    → get k (mark_online now k r).1 ≡ some (mark online now a)
unfolding get mark_online
get-mark_online now k r a h =
    ground (
      arith,
      contains-eq-is_some k r.agents,
      lookup-modify k k (mark online now) r.agents,
      eq_refl k,
    )

-- An agent seen at one time is online after a check at another exactly when no more than the
-- threshold lies between; else it is offline.
pub check-mark_online :
    (seen now threshold_secs : ℕ) (k : Text) (r : AgentRegistry) (a : AgentInfo)
    → get k r ≡ some a
    → get k (check_heartbeat now threshold_secs (mark_online seen k r).1).1
      ≡ some (mark (if ltb (seen + threshold_secs * 1000) now then offline else online) seen a)
unfolding after_check is_stale
check-mark_online seen now t k r a h =
    (check_heartbeat_exact now t (mark_online seen k r).1).0 k
    ∙ ap (Option.map (after_check now t)) (get-mark_online seen k r a h)
    ∙ ground arith
