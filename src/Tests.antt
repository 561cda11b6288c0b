-- ===== src/Tests.antt =====
-- Sample data, and below it the theorems at concrete inputs.
mod Agents
mod Sends
mod Stores
mod Texts
mod Routes
mod Loop
mod Files
mod Answers
mod Logins
mod Updates
mod Dialog
mod Transfers
use ilink_gateway.Prelude.{ℕ, false, none, some, [], ◌∷◌, ℤ, pos}
use ilink_gateway.Text.{Text, codes}
use ilink_gateway.Text.Search.{LowerTable}
use ilink_gateway.Config.{open_to_all, no_groups}
use ilink_gateway.Json.{null}
use ilink_gateway.Types.{
  WeixinMessage, QueuedMessage, SendMessageRequest, SendMessageResponse, AgentInfo, online,
  item_default, message_default,
}
use ilink_gateway.Queue.{MessageQueue}
use ilink_gateway.Registry.{AgentRegistry}
use ilink_gateway.Router.{Router}
use ilink_gateway.Commands.{Shell, finished}

abbrev pub hermes : Text
hermes = codes "hermes"

abbrev pub zeus : Text
zeus = codes "zeus"

abbrev pub queued : Text → QueuedMessage
queued t = record {
  id = codes "7";
  from_user = codes "user@wx";
  text = t;
  timestamp = pos 1000;
  context_token = codes "ctx";
  message_type = codes "text";
  delivered = false;
  media = [];
  agent_context = none;
}

abbrev pub two_queues : MessageQueue
two_queues = record {
  queues = (hermes, queued (codes "a") ∷ []) ∷ (zeus, queued (codes "b") ∷ []) ∷ [];
}

abbrev pub agent : Text → ℕ → AgentInfo
agent name seen = record {
  name = name;
  endpoint = none;
  capabilities = codes "text" ∷ [];
  status = online;
  last_seen = seen;
  registered_at = 100;
}

abbrev pub two_agents : AgentRegistry
two_agents = record { agents = (hermes, agent hermes 5000) ∷ (zeus, agent zeus 90000) ∷ [] }

abbrev pub message : Text → WeixinMessage
message t = record message_default {
  message_id = some (pos 42);
  from_user_id = some (codes "user@wx");
  context_token = some (codes "ctx");
  message_type = some (pos 1);
  item_list = some (
      record item_default { item_type = some (pos 1); text_item = some (record { text = some t }) }
      ∷ []);
}

abbrev pub router : Router
router = record {
  registry = two_agents;
  queue = two_queues;
  active_agent = some hermes;
  cmd_max_output_chars = 4;
  dm_policy = open_to_all;
  group_policy = no_groups;
  allowed_users = [];
  allowed_groups = [];
}

-- Every command prints three ASCII characters and one of three bytes.
abbrev pub shell : Shell
shell c timeout_secs = finished (codes "abc世") []

-- A lower case that leaves other characters alone.
abbrev pub table : LowerTable
table c = c ∷ []

abbrev pub request : SendMessageRequest
request = record { msg = message (codes "reply"); base_info = none }

abbrev pub response : ℤ → SendMessageResponse
response code = record {
  ret = some (pos 0);
  errcode = some code;
  errmsg = none;
  context_token = none;
  message_id = some (pos 9);
  extra = null;
}
