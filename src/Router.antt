-- ===== src/Router.antt =====
-- gateway/src/router/router.rs: admission, commands and the queues of the agents. The shell and
-- the lower case of characters outside ASCII are parameters.
pub mod Delivery
pub mod Errors
pub mod Rules
use ilink_gateway.Prelude.{
  ℕ, Bool, true, false, Option, none, some, List, [], ◌∷◌, ◌++◌, map, if◌then◌else◌,
}
use ilink_gateway.Text.{Text, ◌==◌, codes}
use ilink_gateway.Text.Space.{join}
use ilink_gateway.Text.Search.{starts_with, LowerTable}
use ilink_gateway.Text.Number.{show_nat}
use ilink_gateway.Error.{GatewayError, Result, ok, err, panic, command, agent_not_found, show_error}
use ilink_gateway.Config.{
  DmPolicy, disabled, pairing, allowlist, open_to_all, GroupPolicy, no_groups, all_groups,
  allowed_only, TextSet, member,
}
use ilink_gateway.Types.{
  WeixinMessage, AgentMessage, AgentInfo, online, offline, RouterCommand, use_agent, list_agents,
  status, cmd, help,
}
use ilink_gateway.Types.Message.{message_text, unwrap_or}
use ilink_gateway.Convert.{to_agent_message, to_queued}
use ilink_gateway.Queue
use ilink_gateway.Queue.{MessageQueue}
use ilink_gateway.Registry
use ilink_gateway.Registry.{AgentRegistry, is_registered}
use ilink_gateway.Commands.{Shell, parse_command, execute_command, is_dangerous_command}
use ilink_gateway.Store
use ilink_gateway.Store.{SqliteStore, Faults}

pub record Router : Type 0 where
  pub registry : AgentRegistry
  pub queue : MessageQueue
  pub active_agent : Option Text
  pub cmd_max_output_chars : ℕ
  pub dm_policy : DmPolicy
  pub group_policy : GroupPolicy
  pub allowed_users : TextSet
  pub allowed_groups : TextSet

unfoldable pub new : AgentRegistry → MessageQueue → Router
new registry queue = record {
  registry = registry;
  queue = queue;
  active_agent = none;
  cmd_max_output_chars = 2000;
  dm_policy = open_to_all;
  group_policy = no_groups;
  allowed_users = [];
  allowed_groups = [];
}

unfoldable pub set_policies : DmPolicy → GroupPolicy → TextSet → TextSet → Router → Router
set_policies dm_policy group_policy allowed_users allowed_groups r = record r {
  dm_policy = dm_policy;
  group_policy = group_policy;
  allowed_users = allowed_users;
  allowed_groups = allowed_groups;
}

unfoldable pub is_dm_allowed : Text → Router → Bool
is_dm_allowed from_user r = elim r.dm_policy [
  | disabled ↦ false
  | pairing ↦ member from_user r.allowed_users
  | allowlist ↦ member from_user r.allowed_users
  | open_to_all ↦ true
]

unfoldable pub is_group_allowed : Text → Router → Bool
is_group_allowed group_id r = elim r.group_policy [
  | no_groups ↦ false
  | all_groups ↦ true
  | allowed_only ↦ member group_id r.allowed_groups
]

-- The admission check at the head of `handle_incoming` and of `route_to_agent`.
unfoldable pub is_admitted : WeixinMessage → Router → Bool
unfolding is_dm_allowed is_group_allowed
is_admitted msg r =
    if unwrap_or [] msg.group_id == []
    then is_dm_allowed (unwrap_or [] msg.from_user_id) r
    else is_group_allowed (unwrap_or [] msg.group_id) r

abbrev pub key_active_agent : Text
key_active_agent = codes "active_agent"

abbrev pub restore : Result (Option Text) → Router → Router
restore (ok (some agent)) r = record r { active_agent = some agent }
restore _ r = r

unfoldable pub load_state : Faults → SqliteStore → Router → Router
load_state fault store r = restore (Store.get_state fault key_active_agent store) r

-- A failed write is ignored.
unfoldable pub persist_state : Faults → Router → SqliteStore → SqliteStore
persist_state fault r store = elim r.active_agent [
  | none ↦ store
  | some agent ↦ (Store.set_state fault key_active_agent agent store).1
]

unfoldable pub set_active_agent : Text → Router → Result (Unit {0}) × Router
set_active_agent name r =
    if is_registered name r.registry
    then (ok tt, record r { active_agent = some name })
    else (err (agent_not_found name), r)

unfoldable pub set_cmd_max_output_chars : ℕ → Router → Router
set_cmd_max_output_chars max r = record r { cmd_max_output_chars = max }

abbrev pub help_text : Text
help_text =
    codes
      "Gateway commands:\n/use <name> — switch to an agent\n/list       — list registered agents\n/status     — show gateway status\n/cmd <shell> — execute a shell command\n/gateway-help — show this help"

unfoldable pub build_help_text : Router → Text
build_help_text r = help_text

unfoldable pub build_status_text : Router → Text
build_status_text r =
    codes "Gateway status:\n  Active agent: "
    ++ (unwrap_or (codes "(none)") r.active_agent
        ++ (codes "\n  Registered agents: " ++ show_nat (Registry.len r.registry)))

unfoldable pub list_line : AgentInfo → Text
list_line a =
    codes "  "
    ++ (a.name
        ++ (codes " ["
            ++ ((elim a.status [ online ↦ codes "online" | offline ↦ codes "offline" ])
                ++ codes "]")))

abbrev pub list_lines : List AgentInfo → Text
list_lines [] = codes "No agents registered."
list_lines (a ∷ agents) = join (10 ∷ []) (map list_line (a ∷ agents))

unfoldable pub build_list_text : Router → Text
build_list_text r = list_lines (Registry.list r.registry)

abbrev pub no_conversion : GatewayError
no_conversion = command (codes "Failed to convert message for agent delivery")

-- Puts the converted message into an agent's queue.
unfoldable pub enqueue_for :
    Text → Option Text → Option AgentMessage → Router → Result (Unit {0}) × Router
enqueue_for agent agent_context none r = (err no_conversion, r)
enqueue_for agent agent_context (some m) r =
    (ok tt, record r { queue = Queue.enqueue agent (to_queued agent_context m) r.queue })

unfoldable pub route_to_agent :
    WeixinMessage → Text → Option Text → Router → Result (Unit {0}) × Router
unfolding enqueue_for
route_to_agent msg agent_name agent_context r =
    if is_admitted msg r
    then (if is_registered agent_name r.registry
        then enqueue_for agent_name agent_context (to_agent_message msg) r
        else (err (agent_not_found agent_name), r))
    else (ok tt, r)

-- A reply for the user, or none where the message went to an agent or nowhere.
abbrev pub Handled : Type 0
Handled = Result (Option Text) × Router

abbrev pub switch_to : Text → Router → Handled
switch_to name r =
    if is_registered name r.registry
    then (
      ok (some (codes "Switched to agent '" ++ (name ++ codes "'"))),
      record r { active_agent = some name },
    )
    else (ok (some (codes "Agent '" ++ (name ++ codes "' not found"))), r)

abbrev pub report : Result Text → Result (Option Text)
report (ok output) = ok (some output)
report (err e) = ok (some (codes "Command error: " ++ show_error e))
report panic = panic

module _ (shell : Shell) (table : LowerTable) where
  unfoldable pub run_cmd : Text → ℕ → Router → Result (Option Text)
  run_cmd c timeout_secs r =
      if is_dangerous_command table c
      then ok (some (codes "Dangerous command blocked: " ++ c))
      else report (execute_command shell c timeout_secs r.cmd_max_output_chars)

  unfoldable pub dispatch : Option RouterCommand → Router → Handled
  unfolding run_cmd
  dispatch none r = (ok none, r)
  dispatch (some (use_agent name)) r = switch_to name r
  dispatch (some list_agents) r = (ok (some (build_list_text r)), r)
  dispatch (some status) r = (ok (some (build_status_text r)), r)
  dispatch (some help) r = (ok (some (build_help_text r)), r)
  dispatch (some (cmd c timeout_secs)) r = (run_cmd c timeout_secs r, r)

  unfoldable pub handle_command : Text → Router → Handled
  unfolding dispatch
  handle_command text r = dispatch (parse_command text) r

abbrev pub no_active_agent : GatewayError
no_active_agent = command (codes "No active agent is set. Use /use <agent_name> to select one.")

abbrev pub no_text : GatewayError
no_text = command (codes "Message has no text content")

abbrev pub without_reply : Result (Unit {0}) × Router → Handled
without_reply (ok u, r) = (ok none, r)
without_reply (err e, r) = (err e, r)
without_reply (panic, r) = (panic, r)

unfoldable pub deliver : WeixinMessage → Router → Handled
unfolding enqueue_for
deliver msg r = elim r.active_agent [
  | none ↦ (err no_active_agent, r)
  | some active ↦ without_reply (enqueue_for active none (to_agent_message msg) r)
]

-- A command that is not the gateway's own goes to the active agent.
abbrev pub or_deliver : WeixinMessage → Handled → Handled
or_deliver msg (ok none, r) = deliver msg r
or_deliver msg (ok (some reply), r) = (ok (some reply), r)
or_deliver msg (err e, r) = (err e, r)
or_deliver msg (panic, r) = (panic, r)

module _ (shell : Shell) (table : LowerTable) where
  unfoldable pub handle_text : WeixinMessage → Option Text → Router → Handled
  handle_text msg none r = (err no_text, r)
  handle_text msg (some text) r =
      if starts_with (codes "/") text
      then or_deliver msg (handle_command shell table text r)
      else deliver msg r

  unfoldable pub handle_incoming : WeixinMessage → Router → Handled
  unfolding handle_text
  handle_incoming msg r =
      if is_admitted msg r then handle_text msg (message_text msg) r else (ok none, r)
