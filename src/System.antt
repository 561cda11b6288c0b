-- ===== src/System.antt =====
-- The gateway as a whole: its tasks of gateway/src/main.rs and the handlers of
-- gateway/src/api/server.rs and gateway/src/api/ws.rs, each as one step on the state they share. The
-- handling of one message, and that of one reply, is one step. A task that has panicked makes no
-- further step in the program; here it may.
pub mod Delivery
pub mod Follows
pub mod Invariant
use ilink_gateway.Prelude.{ℕ}
use ilink_gateway.Text.{Text}
use ilink_gateway.Config.{GatewayConfig}
use ilink_gateway.Types.{WeixinMessage, AgentReply}
use ilink_gateway.Store.{SqliteStore, Faults}
use ilink_gateway.Socket.{connect, disconnect}
use ilink_gateway.Poll.{Gateway, Env, process_message, clean_contexts}
use ilink_gateway.Replies.{ReplyEnv, ReplyState, handle_agent_reply}
use ilink_gateway.Api.{RegisterRequest, handle_register, handle_poll}
use ilink_gateway.Startup.{first_gateway, heartbeat_tick}

abbrev pub register_agent : Faults → ℕ → RegisterRequest → Gateway → Gateway
register_agent fault now body g =
    let (resp, (router, store)) = handle_register fault now body g.router g.store in
    record g { router = router; store = store }

abbrev pub answer_reply : ReplyEnv → AgentReply → Gateway → Gateway
answer_reply env reply g =
    let s : ReplyState = record { breaker = g.breaker; store = g.store; sent = g.sent } in
    let (result, s') = handle_agent_reply env reply g.message_contexts s in
    record g { breaker = s'.breaker; store = s'.store; sent = s'.sent }

-- One step of one of the tasks, at any time and with any answers of the world.
pub data Step (g : Gateway) : Gateway → Type 0 where
  message : (env : Env) (msg : WeixinMessage) → Step g (process_message env msg g).1
  register :
      (fault : Faults) (now : ℕ) (body : RegisterRequest) → Step g (register_agent fault now body g)
  poll : (now : ℕ) (name : Text) → Step g (record g { router = (handle_poll now name g.router).1 })
  heartbeat :
      (now timeout_secs : ℕ)
      → Step g (record g { router = heartbeat_tick now timeout_secs g.router })
  cleanup :
      (now : ℕ) → Step g (record g { message_contexts = clean_contexts now g.message_contexts })
  reply : (env : ReplyEnv) (r : AgentReply) → Step g (answer_reply env r g)
  join :
      (agent : Text) (channel : ℕ)
      → Step g (record g { ws_registry = connect agent channel g.ws_registry })
  leave :
      (agent : Text) (channel : ℕ)
      → Step g (record g { ws_registry = disconnect agent channel g.ws_registry })

-- The states that a start with this configuration and this store can come to.
pub data Reach (config : GatewayConfig) (store : SqliteStore) : Gateway → Type 0 where
  start : (fault : Faults) → Reach config store (first_gateway fault config store)
  later : {g g' : Gateway} → Reach config store g → Step g g' → Reach config store g'

-- The steps that lead from one state to another, the last one outside.
pub data Trace (g : Gateway) : Gateway → Type 0 where
  stop : Trace g g
  go : {h h' : Gateway} → Trace g h → Step h h' → Trace g h'
