-- ===== src/Tests/Sends.antt =====
-- The breaker, the dedup cache and the send loop at concrete inputs.
use ilink_gateway.Prelude.{
  ℕ, ◌+◌, ◌≤◌, ◌<◌, ◌≡◌, refl, true, false, none, List, [], ◌∷◌, arith, ltb, if◌then◌else◌,
  replicate, sum, pos, negsuc,
}
use ilink_gateway.Text.{Text, ◌==◌}
use ilink_gateway.Map.{lookup, contains, Distinct}
use ilink_gateway.Error.{ok, err}
use ilink_gateway.Breaker
use ilink_gateway.Breaker.{CircuitBreaker, is_open, record_failure, within, Event, success, failure}
use ilink_gateway.Breaker.Window
use ilink_gateway.Breaker.Window.{streak, record_failure_exact, is_open_exact, recent, last}
use ilink_gateway.Dedup.{DedupCache, check_and_record}
use ilink_gateway.Dedup.Window as DedupWindow
use ilink_gateway.Dedup.Window.{check_and_record_exact, last_seen, Blocked, no_repeat}
use ilink_gateway.Send.{Transport, send_message, exhausted, resilient_send}
use ilink_gateway.Send.Retry.{SentBy, resilient_send_bounds}
use ilink_gateway.Send.Success.{
  Answers, Delivered, resilient_send_retries, resilient_send_late_strip,
}
use ilink_gateway.Tests.{hermes, zeus, request, response}

abbrev history : List Event
history = failure 10 ∷ success ∷ failure 20 ∷ failure 25 ∷ []

is_open_exact_example :
    is_open 50 (Window.run history (Breaker.new 1 30 30)) ≡ recent 50 30 (last (streak [] history))
is_open_exact_example = is_open_exact 30 30 50 history

-- The last failure, at 25, is 25 before the time 50 and 30 before the time 55.
paused_then_not :
    (is_open 50 (Window.run history (Breaker.new 1 30 30)) ≡ true)
    × (is_open 55 (Window.run history (Breaker.new 1 30 30)) ≡ false)
unfolding is_open Window.run Breaker.record_success record_failure Breaker.new
paused_then_not = (refl, refl)

abbrev cache : DedupCache
cache = record { seen = (hermes, 100) ∷ []; ttl = 300 }

abbrev later : List (ℕ × Text)
later = (250, hermes) ∷ (300, zeus) ∷ (499, zeus) ∷ (600, zeus) ∷ []

zeus_first : (check_and_record 200 zeus cache).0 ≡ true
unfolding check_and_record contains ◌==◌ ilink_gateway.Map.retain
zeus_first = refl

no_repeat_example :
    Blocked zeus
      (200 + cache.ttl)
      later
      (DedupWindow.run later (check_and_record 200 zeus cache).1).0
unfolding contains
no_repeat_example = no_repeat zeus 200 cache later (refl, tt) zeus_first (omega arith)

-- Two rate limits and then success.
abbrev limited_twice : Transport
limited_twice n req = ok (response (if ltb n 2 then negsuc 1 else pos 0))

-- Three rate limits and then a stale token.
abbrev limited_stale : Transport
limited_stale n req = ok (response (if ltb n 3 then negsuc 1 else negsuc 13))

abbrev clock : ℕ → ℕ
clock n = 100 + n

abbrev closed : CircuitBreaker
closed = record { failures = []; opened_at = none; window = 30; threshold = 1; cooldown = 30 }

closed_now : is_open 90 closed ≡ false
unfolding is_open
closed_now = refl

resilient_send_bounds_example :
    SentBy 4 request (resilient_send limited_stale clock 90 request closed).sent
    × (sum (resilient_send limited_stale clock 90 request closed).slept ≤ 15)
resilient_send_bounds_example = resilient_send_bounds limited_stale clock 90 request closed

limits : (i : ℕ) → i < 2 → Answers limited_twice clock i request (negsuc 1)
unfolding send_message
limits i h = (response (negsuc 1), ground arith, refl)

resilient_send_retries_example :
    Delivered limited_twice clock
      (response (pos 0))
      2
      request
      (resilient_send limited_twice clock 90 request closed)
unfolding send_message
resilient_send_retries_example =
    resilient_send_retries limited_twice clock 90 2 request closed (response (pos 0)) closed_now
      (omega arith) limits refl refl

resilient_send_late_strip_example :
    ((resilient_send limited_stale clock 90 request closed).result ≡ err exhausted)
    × ((resilient_send limited_stale clock 90 request closed).sent ≡ replicate 4 request)
unfolding send_message
resilient_send_late_strip_example =
    resilient_send_late_strip limited_stale clock 90 request closed closed_now refl
      (response (negsuc 1), refl, refl) (response (negsuc 1), refl, refl)
      (response (negsuc 1), refl, refl) (response (negsuc 13), refl, refl)
