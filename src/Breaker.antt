-- ===== src/Breaker.antt =====
-- The circuit breaker of gateway/src/main.rs. Times are readings of a monotonic clock; every call
-- that reads the clock takes the reading as its first argument.
pub mod Window
use ilink_gateway.Prelude.{
  ℕ, ◌-◌, Bool, false, Option, none, some, List, [], ◌∷◌, ◌++◌, ltb, leb, if◌then◌else◌, length,
  keep,
}

pub record CircuitBreaker : Type 0 where
  pub failures : List ℕ
  pub opened_at : Option ℕ
  pub window : ℕ
  pub threshold : ℕ
  pub cooldown : ℕ

unfoldable pub new : ℕ → ℕ → ℕ → CircuitBreaker
new threshold window cooldown = record {
  failures = [];
  opened_at = none;
  window = window;
  threshold = threshold;
  cooldown = cooldown;
}

-- `opened.elapsed() < cooldown`; the elapsed time stops at 0.
unfoldable pub is_open : ℕ → CircuitBreaker → Bool
is_open now b = elim b.opened_at [ none ↦ false | some opened ↦ ltb (now - opened) b.cooldown ]

unfoldable pub record_success : CircuitBreaker → CircuitBreaker
record_success b = record b { failures = []; opened_at = none }

-- `now.duration_since(*t) < window`
abbrev pub within : ℕ → ℕ → ℕ → Bool
within now window t = ltb (now - t) window

unfoldable pub record_failure : ℕ → CircuitBreaker → CircuitBreaker
record_failure now b =
    let failures : List ℕ = keep (within now b.window) b.failures ++ (now ∷ []) in
    if leb b.threshold (length failures)
    then record b { failures = failures; opened_at = some now }
    else record b { failures = failures }

-- What a send reports to the shared breaker, and when it failed.
pub data Event : Type 0 where
  success : Event
  failure : ℕ → Event

unfoldable pub step : Event → CircuitBreaker → CircuitBreaker
step success b = record_success b
step (failure now) b = record_failure now b
