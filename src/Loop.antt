-- ===== src/Loop.antt =====
-- The long-poll loop of gateway/src/main.rs around the handling of one message. Each round has the
-- answer to its request, and each of its messages its own world.
pub mod Answered
pub mod Downloads
pub mod Routed
pub mod Waiting
use ilink_gateway.Prelude.{
  ℕ, ◌+◌, Bool, false, Option, none, some, List, [], ◌∷◌, if◌then◌else◌, ℤ, negsuc, int_eq,
}
use ilink_gateway.Text.{Text}
use ilink_gateway.Error.{Result, ok, err, panic}
use ilink_gateway.Types.{WeixinMessage, GetUpdatesResponse}
use ilink_gateway.Types.Message.{unwrap_or}
use ilink_gateway.Poll.{Env, Gateway, Stepped, process_message, clean_contexts}

-- The messages of an answer, in order. A panic ends the task.
abbrev pub and_then : Stepped → (Gateway → Stepped) → Stepped
and_then (ok u, g) next = next g
and_then (err e, g) next = (err e, g)
and_then (panic, g) next = (panic, g)

unfoldable pub process_all : (ℕ → Env) → ℕ → List WeixinMessage → Gateway → Stepped
process_all envs i [] g = (ok tt, g)
process_all envs i (msg ∷ msgs) g =
    and_then (process_message (envs i) msg g) (process_all envs (i + 1) msgs)

-- What the loop keeps: the seconds it slept, its place in the server's updates, and the shared
-- state.
pub record Loop : Type 0 where
  pub slept : ℕ
  pub sync_buf : Text
  pub gateway : Gateway

abbrev pub is_session_timeout : Option ℤ → Bool
is_session_timeout none = false
is_session_timeout (some code) = int_eq code (negsuc 13)

abbrev pub with_gateway : Loop → Stepped → Result (Unit {0}) × Loop
with_gateway l (r, g) = (r, record l { gateway = g })

-- The body of the loop, behind its request for updates.
unfoldable pub poll_round : (ℕ → Env) → Result GetUpdatesResponse → Loop → Result (Unit {0}) × Loop
unfolding process_all
poll_round envs (err e) l = (ok tt, record l { slept = l.slept + 5 })
poll_round envs panic l = (panic, l)
poll_round envs (ok resp) l =
    let handled =
      with_gateway (record l { sync_buf = unwrap_or l.sync_buf resp.get_updates_buf })
        (process_all envs 0 (unwrap_or [] resp.msgs) l.gateway) in
    if is_session_timeout resp.errcode
    then (ok tt, record l { sync_buf = []; slept = l.slept + 600 })
    else handled

-- The rounds of the loop, until one panics.
abbrev pub Answer : Type 0
Answer = (ℕ → Env) × Result GetUpdatesResponse

abbrev pub go_on :
    Result (Unit {0}) × Loop → (Loop → Result (Unit {0}) × Loop) → Result (Unit {0}) × Loop
go_on (ok u, l) next = next l
go_on (err e, l) next = (err e, l)
go_on (panic, l) next = (panic, l)

unfoldable pub poll_loop : List Answer → Loop → Result (Unit {0}) × Loop
unfolding poll_round
poll_loop [] l = (ok tt, l)
poll_loop ((envs, resp) ∷ answers) l = go_on (poll_round envs resp l) (poll_loop answers)

-- What happens to the contexts of messages over time: a round of the loop, or the periodic cleanup.
pub data LoopEvent : Type 0 where
  turn : Answer → LoopEvent
  clean : ℕ → LoopEvent

abbrev pub run_event : LoopEvent → Loop → Loop
run_event (turn (envs, resp)) l = (poll_round envs resp l).1
run_event (clean now) l = record l {
  gateway = record l.gateway { message_contexts = clean_contexts now l.gateway.message_contexts };
}

unfoldable pub run_events : List LoopEvent → Loop → Loop
unfolding poll_round
run_events [] l = l
run_events (e ∷ es) l = run_events es (run_event e l)
