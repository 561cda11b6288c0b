-- ===== src/Tests/Updates.antt =====
-- The poll loop, typing tickets, the start and the log files at concrete inputs.
use ilink_gateway.Prelude.{
  ℕ, zero, suc, ◌+◌, ◌-◌, ◌≤◌, ◌≡◌, refl, Bool, true, false, not, ◌||◌, Option, none, some, List,
  [], ◌∷◌, ◌++◌, map, keep, arith, length, ltb, nat_eq, if◌then◌else◌, pos, negsuc,
}
use ilink_gateway.Text.{Text, ◌==◌, codes}
use ilink_gateway.Text.Space.{is_whitespace, split_whitespace}
use ilink_gateway.Text.Utf8.{utf8}
use ilink_gateway.Error.{ok, err, ilink}
use ilink_gateway.Config
use ilink_gateway.Map.{lookup}
use ilink_gateway.Types.{WeixinMessage, GetUpdatesResponse, use_agent}
use ilink_gateway.Types.Message.{message_text, is_user_message}
use ilink_gateway.Store
use ilink_gateway.Store.{SqliteStore, no_faults}
use ilink_gateway.Dedup.{check_and_record}
use ilink_gateway.WsRegistry
use ilink_gateway.Router.{Router, is_admitted, is_dm_allowed}
use ilink_gateway.Commands.Grammar.{Typed}
use ilink_gateway.Poll.{Env, Gateway, ref_msg_id, process_message}
use ilink_gateway.Poll.Dropped.{checked}
use ilink_gateway.Api.{handle_register}
use ilink_gateway.Loop.{Loop, Answer, poll_loop}
use ilink_gateway.Loop.Waiting.{Within, total_messages, poll_loop-Within}
use ilink_gateway.Client.{urlencoding}
use ilink_gateway.Client.Encoding.{percent_decode, is_query_char, decode-urlencoding}
use ilink_gateway.Typing
use ilink_gateway.Typing.{
  TypingTicketCache, Pc, missed, fetching, polling, Move, miss, claim, claim_it, wait_for_it,
  System, update, Step, pick, Reach, init, later, typing_request, stop_typing,
}
use ilink_gateway.Typing.Flight.{single_flight}
use ilink_gateway.Logs.{sweep_logs}
use ilink_gateway.Logs.Days.{Day, day_text, LogFile, entry_of, is_outdated, sweep_logs-keep}
use ilink_gateway.Startup.Restart.{restored, restart-handle_register, restart-use}
use ilink_gateway.Tests.{hermes, zeus, router, shell, table, message, response}

abbrev pub env : ℕ → Env
env n = record {
  now = 1000 + n;
  shell = shell;
  table = table;
  md5 = λ t. t;
  from_str = λ t. none;
  to_string = λ v. codes "{}";
  uuid = codes "u";
  fault = no_faults;
  download = λ item id. none;
  transport = λ k req. ok (response (pos 0));
  clock = λ k. 1000 + k;
}

abbrev pub gateway : Gateway
gateway = record {
  router = router;
  message_contexts = [];
  dedup = record { seen = []; ttl = 300 };
  store = Store.new;
  ws_registry = WsRegistry.new;
  breaker = record { failures = []; opened_at = none; window = 30; threshold = 3; cooldown = 30 };
  sent = [];
}

abbrev pub updates : Option (List WeixinMessage) → GetUpdatesResponse
updates msgs = record {
  ret = none;
  errcode = none;
  errmsg = none;
  msgs = msgs;
  get_updates_buf = some (codes "b");
}

-- An error, a session timeout, and two messages.
abbrev answers : List Answer
answers =
    (env, err (ilink (codes "down")))
    ∷ (env, ok (record (updates none) { errcode = some (negsuc 13) }))
    ∷ (env, ok (updates (some (message (codes "hi") ∷ message (codes "ho") ∷ []))))
    ∷ []

abbrev start : Loop
start = record { slept = 0; sync_buf = []; gateway = gateway }

poll_loop-Within_example :
    Within hermes (total_messages answers) gateway (poll_loop answers start).1.gateway
poll_loop-Within_example = poll_loop-Within answers hermes start

-- A registration at a router without an active agent.
abbrev idle : Router
idle = record router { active_agent = none }

restart-handle_register_example :
    let (resp, (r', store')) =
      handle_register no_faults 9 (record { name = zeus; capabilities = [] }) idle Store.new in
    restored Config.default store' ≡ r'.active_agent
unfolding ◌==◌
restart-handle_register_example =
    restart-handle_register Config.default 9 (record { name = zeus; capabilities = [] }) idle
      Store.new refl

abbrev switch : WeixinMessage
switch = message (codes "/use zeus")

a_user : is_user_message switch ≡ true
unfolding is_user_message
a_user = refl

is_new : (checked (env 0) switch gateway).0 ≡ true
unfolding check_and_record ilink_gateway.Map.contains ilink_gateway.Map.retain
is_new = refl

no_quote : ref_msg_id switch ≡ none
unfolding ref_msg_id
no_quote = refl

admitted : is_admitted switch router ≡ true
unfolding is_admitted is_dm_allowed ◌==◌
admitted = refl

reads : message_text switch ≡ some (codes "/use zeus")
unfolding message_text
reads = refl

known : ilink_gateway.Registry.is_registered zeus router.registry ≡ true
unfolding ilink_gateway.Registry.is_registered ilink_gateway.Map.contains ◌==◌
known = refl

switch-Typed : Typed (codes "/use zeus") (use_agent zeus)
unfolding split_whitespace is_whitespace
switch-Typed = (codes "use zeus", refl, ([], refl, (λ h. cc)))

restart-use_example :
    let g' : Gateway = (process_message (env 0) switch gateway).1 in
    (g'.router.active_agent ≡ some zeus)
    × (g'.store ≡ gateway.store)
    × (restored Config.default g'.store ≡ restored Config.default gateway.store)
restart-use_example =
    restart-use (env 0) Config.default switch gateway (codes "/use zeus") zeus a_user is_new
      no_quote admitted reads switch-Typed known

abbrev tickets : TypingTicketCache
tickets = record { tickets = (codes "u", (codes "t", 100)) ∷ []; in_flight = [] }

-- Two tasks of one user: the first one fetches, and the second one waits.
abbrev users : ℕ → Text
users i = codes "u"

two_tasks :
    (s : System) × Reach users s
    × (s.pc 0 ≡ fetching (codes "u"))
    × (s.pc 1 ≡ polling (codes "u") 107)
unfolding Typing.get lookup ◌==◌ Typing.new claim ilink_gateway.Map.contains
    ilink_gateway.Map.insert
two_tasks = (
  _,
  later
      (later
        (later (later init (pick 0 (miss {u = codes "u"} 5 refl)))
          (pick 1 (miss {u = codes "u"} 6 refl)))
        (pick 0 (claim_it refl)))
      (pick 1 (wait_for_it 7 refl)),
  refl,
  refl,
)

abbrev first_task : ℕ
first_task = 0

single_flight_example : first_task ≡ first_task
single_flight_example =
    single_flight two_tasks.1 first_task first_task (codes "u") two_tasks.2 two_tasks.2

abbrev today : Day
today = record { year = 2026; month = 10; day = 1 }

abbrev log_file : Text → Text → Option Day → LogFile
log_file path extension day = record {
  path = path;
  extension = some extension;
  is_file = true;
  day = day;
}

abbrev log_files : List LogFile
log_files =
    log_file (codes "a.log") (codes "log") (some (record { year = 2026; month = 9; day = 30 }))
    ∷ log_file (codes "b.log") (codes "log") (some today)
    ∷ log_file (codes "c.txt") (codes "txt") none
    ∷ []

sweep_logs-keep_example :
    sweep_logs (λ p. false) (day_text today) (map entry_of log_files)
    ≡ map entry_of (keep (λ (f : LogFile). not (is_outdated today f) || false) log_files)
sweep_logs-keep_example =
    sweep_logs-keep (λ p. false) today log_files (omega arith, omega arith, omega arith)
      ((omega arith, omega arith, omega arith), ((omega arith, omega arith, omega arith), (tt, tt)))

decode-urlencoding_example :
    (percent_decode (urlencoding (codes "a b/世")) ≡ utf8 (codes "a b/世"))
    × (ilink_gateway.Prelude.all is_query_char (urlencoding (codes "a b/世")) ≡ true)
decode-urlencoding_example = decode-urlencoding (codes "a b/世")
