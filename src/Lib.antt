-- ===== src/Lib.antt =====
-- ilink-gateway: a bridge between WeChat (the iLink bot protocol) and agents that run elsewhere.
-- This library models its Rust part, gateway/src.
--
-- A long-poll loop (gateway/src/main.rs) fetches messages, skips those that are not a user's or
-- were seen before, routes a reply that quotes an agent's message to that agent, and hands the rest
-- to the router (gateway/src/router/router.rs). The router checks the admission policy, runs the
-- gateway's own commands (gateway/src/router/commands.rs), and puts any other message into the
-- queue of the active agent (gateway/src/agents/queue.rs). An agent registers and polls over HTTP,
-- or has messages pushed over a WebSocket (gateway/src/api/ws.rs, gateway/src/agents/ws_registry.rs).
-- What is sent back to WeChat goes through a retrying send behind a circuit breaker. Before the
-- loop, the start restores the stored state and logs in by QR code where no credentials are stored;
-- media goes to and comes from a CDN, encrypted.
--
-- Files and what they model:
--   Queue            agents/queue.rs, MessageQueue
--   Registry         agents/registry.rs, AgentRegistry; the time is an argument
--   WsRegistry       agents/ws_registry.rs, with the channels that the senders lead into
--   Socket           api/ws.rs, handle_socket: its head, its read loop and its end
--   Commands         router/commands.rs: parse_command, execute_command, is_dangerous_command
--   Router, Convert  router/router.rs: Router, handle_incoming, route_to_agent, to_agent_message
--   Store            storage/sqlite_store.rs: each operation as its SQL statements over tables
--   Types            ilink/types.rs: the messages, and the methods of WeixinMessage
--   Config, Error    config.rs and error.rs
--   Media            ilink/media.rs: AES-128-ECB with PKCS7 padding, types by file name
--   Breaker, Dedup   main.rs: CircuitBreaker, DedupCache, dedup_key
--   Send             main.rs: resilient_send, over IlinkClient::send_message of ilink/client.rs
--   Poll             main.rs: the body of the poll loop for one message, and the context cleanup
--   Replies          main.rs: handle_agent_replies, for one reply
--   Loop             main.rs: the poll loop around it, with its pauses and the sync buffer
--   Client           ilink/client.rs: every call of the iLink client, headers, check_ret, urlencoding
--   Login            main.rs: qr_login_and_save
--   Typing           main.rs: TypingTicketCache; get_or_fetch as a step relation over many tasks
--   Upload           ilink/media.rs: process_media_upload, build_cdn_download_url
--   Download         ilink/download.rs: download_media; main.rs: try_download_media
--   Logs             main.rs: cleanup_old_logs
--   Startup          main.rs: the first state, the credentials, expand_tilde, the heartbeat task
--   System           the tasks and the handlers as steps on the shared state, in any order
--   Api              api/server.rs: the handlers for register, poll, reply and status
--   Text, Map, Json, Prelude  strings as lists of characters with their UTF-8 length, hash maps as
--     association lists, serde_json values, and shared notation and lemmas
--   Tests            sample data and the theorems at concrete inputs
--
-- State is passed explicitly: an operation takes the state last and returns its result with the new
-- state. Result has the outcomes ok, err and panic. Times are whole numbers of seconds or of
-- milliseconds on one clock; a difference of times stops at 0, as Instant::duration_since does. The
-- shell, the HTTP exchange, MD5, the block cipher, the JSON library, and the lower case of characters
-- outside ASCII are parameters, and so are the file system, random bytes, base64 and hexadecimal
-- texts, and an engine fault at any SQL statement.
--
-- Loops are structural. The retry loop of resilient_send has its four attempts as fuel, which is
-- the bound in the source. The block loop of Media has as many rounds as there are bytes, and each
-- round takes sixteen of them. The login loop has 481 rounds as fuel: its deadline is 480 seconds
-- away, it is looked at in front of every round, and every round sleeps for a second. The poll loop
-- does not end, and is modelled over any list of answers.
--
-- The requests that go out to WeChat are kept in the state, in order. A panic ends the task that it
-- happens in; what it does to a lock that is held is not modelled.
--
-- Not modelled: the tasks' interleaving inside one message, but for what others do to the router while
-- the loop downloads media; the typing indicator around a reply, the drawing of the QR code, the
-- spawning of tasks, tracing and the transport under the HTTP calls, which are of tokio, axum and
-- reqwest, with the redirects that reqwest follows; the lower case of a final sigma, which depends on
-- its neighbours; the Go gateway and the agent adapters.
pub mod Api
pub mod Breaker
pub mod Client
pub mod Commands
pub mod Config
pub mod Convert
pub mod Dedup
pub mod Download
pub mod Error
pub mod Json
pub mod Login
pub mod Logs
pub mod Loop
pub mod Map
pub mod Media
pub mod Poll
pub mod Prelude
pub mod Queue
pub mod Registry
pub mod Replies
pub mod Router
pub mod Send
pub mod Socket
pub mod Startup
pub mod Store
pub mod System
pub mod Tests
pub mod Text
pub mod Types
pub mod Typing
pub mod Upload
pub mod WsRegistry
