-- ===== src/Registry.antt =====
-- gateway/src/agents/registry.rs: the agents, their status and their heartbeats.
-- Every call that reads the clock takes the reading, in milliseconds, as its first argument.
pub mod Heartbeat
pub mod Valid
use ilink_gateway.Prelude.{
  ℕ, ◌+◌, ◌*◌, Bool, true, false, ◌&&◌, Option, List, [], ◌∷◌, ltb, if◌then◌else◌, length, keep,
}
use ilink_gateway.Text.{Text, ◌==◌, codes}
use ilink_gateway.Map.{Map, lookup, contains, insert, remove, modify, values}
use ilink_gateway.Error.{Result, ok, err, config, agent_not_found}
use ilink_gateway.Types.{AgentInfo, AgentStatus, online, offline}

pub record AgentRegistry : Type 0 where
  pub agents : Map AgentInfo

unfoldable pub new : AgentRegistry
new = record { agents = [] }

unfoldable pub register :
    ℕ → Text → Option Text → List Text → AgentRegistry → Result (Unit {0}) × AgentRegistry
register now name endpoint capabilities r =
    if name == [] then (err (config (codes "Agent name cannot be empty")), r) else (
      ok tt,
      record {
        agents =
            insert name
              (record {
                name = name;
                endpoint = endpoint;
                capabilities = capabilities;
                status = online;
                last_seen = now;
                registered_at = now;
              })
              r.agents;
      },
    )

unfoldable pub unregister : Text → AgentRegistry → Result (Unit {0}) × AgentRegistry
unregister name r =
    if contains name r.agents
    then (ok tt, record { agents = remove name r.agents })
    else (err (agent_not_found name), r)

unfoldable pub get : Text → AgentRegistry → Option AgentInfo
get name r = lookup name r.agents

unfoldable pub list : AgentRegistry → List AgentInfo
list r = values r.agents

unfoldable pub len : AgentRegistry → ℕ
len r = length r.agents

unfoldable pub is_registered : Text → AgentRegistry → Bool
is_registered name r = contains name r.agents

-- What `mark_online` and `mark_offline` write through `get_mut`.
abbrev pub mark : AgentStatus → ℕ → AgentInfo → AgentInfo
mark s now a = record a { status = s; last_seen = now }

unfoldable pub set_status :
    AgentStatus → ℕ → Text → AgentRegistry → Result (Unit {0}) × AgentRegistry
set_status s now name r =
    if contains name r.agents
    then (ok tt, record { agents = modify name (mark s now) r.agents })
    else (err (agent_not_found name), r)

unfoldable pub mark_online : ℕ → Text → AgentRegistry → Result (Unit {0}) × AgentRegistry
unfolding set_status
mark_online = set_status online

unfoldable pub mark_offline : ℕ → Text → AgentRegistry → Result (Unit {0}) × AgentRegistry
unfolding set_status
mark_offline = set_status offline

abbrev pub is_online : AgentInfo → Bool
is_online a = elim a.status [ online ↦ true | offline ↦ false ]

-- `status == Online && last_seen < now - threshold_secs * 1000`, over the integers.
unfoldable pub is_stale : ℕ → ℕ → AgentInfo → Bool
is_stale now threshold_secs a = is_online a && ltb (a.last_seen + threshold_secs * 1000) now

-- The loop over `values_mut`: the names that went offline, and the map.
unfoldable pub sweep : ℕ → ℕ → Map AgentInfo → List Text × Map AgentInfo
unfolding is_stale
sweep now threshold_secs [] = ([], [])
sweep now threshold_secs ((k, a) ∷ m) =
    let (names, m') = sweep now threshold_secs m in
    if is_stale now threshold_secs a
    then (a.name ∷ names, (k, record a { status = offline }) ∷ m')
    else (names, (k, a) ∷ m')

unfoldable pub check_heartbeat : ℕ → ℕ → AgentRegistry → List Text × AgentRegistry
unfolding sweep
check_heartbeat now threshold_secs r =
    let (names, m) = sweep now threshold_secs r.agents in (names, record { agents = m })

unfoldable pub online_count : AgentRegistry → ℕ
online_count r = length (keep is_online (values r.agents))
