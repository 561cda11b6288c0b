-- ===== src/Breaker/Window.antt =====
-- The circuit breaker of gateway/src/main.rs, against the history of the sends.
use ilink_gateway.Prelude.{
  ℕ, suc, ◌-◌, ◌≤◌, ◌≡◌, refl, ◌∙◌, Bool, false, Option, none, some, List, [], ◌∷◌, ◌++◌, arith,
  ltb, leb, if◌then◌else◌, length, keep, length-append,
}
use native.Mathlib.Numerals.{add-one}
use ilink_gateway.Breaker.{
  Event, success, failure, step, CircuitBreaker, new, is_open, record_success, within,
  record_failure,
}

unfoldable pub run : List Event → CircuitBreaker → CircuitBreaker
unfolding step
run [] b = b
run (e ∷ es) b = run es (step e b)

-- The failures since the last success, in order, behind those of an earlier history.
unfoldable pub streak : List ℕ → List Event → List ℕ
streak past [] = past
streak past (success ∷ es) = streak [] es
streak past (failure now ∷ es) = streak (past ++ (now ∷ [])) es

-- The times of the failures do not fall, from `t` on.
abbrev pub Ordered : ℕ → List Event → Type 0
Ordered t [] = Unit
Ordered t (success ∷ es) = Ordered t es
Ordered t (failure now ∷ es) = (t ≤ now) × Ordered now es

abbrev pub AllBelow : ℕ → List ℕ → Type 0
AllBelow t [] = Unit
AllBelow t (x ∷ xs) = (x ≤ t) × AllBelow t xs

keep-keep :
    (early late window : ℕ) (xs : List ℕ)
    → early ≤ late
    → keep (within late window) (keep (within early window) xs) ≡ keep (within late window) xs
keep-keep early late window [] h = refl
keep-keep early late window (x ∷ xs) h = ground (arith, keep-keep early late window xs)

keep-append : (p : ℕ → Bool) (xs ys : List ℕ) → keep p (xs ++ ys) ≡ keep p xs ++ keep p ys
keep-append p [] ys = refl
keep-append p (x ∷ xs) ys = ground (arith, keep-append p xs ys)

-- The time of the last failure of a history, or `t` if there is none.
abbrev pub last_time : ℕ → List Event → ℕ
last_time t [] = t
last_time t (success ∷ es) = last_time t es
last_time t (failure now ∷ es) = last_time now es

-- From time `t` on, the breaker and the history agree on the failures within the window.
record Tracks (window threshold t : ℕ) (past : List ℕ) (b : CircuitBreaker) : Type 0 where
  same_window : b.window ≡ window
  same_threshold : b.threshold ≡ threshold
  agree : (now : ℕ) → t ≤ now → keep (within now window) b.failures ≡ keep (within now window) past

module _ (window threshold : ℕ) where
  failures-record_failure :
      (now : ℕ) (b : CircuitBreaker)
      → (record_failure now b).failures ≡ keep (within now b.window) b.failures ++ (now ∷ [])
  unfolding record_failure
  failures-record_failure now b = ground arith

  Tracks-failure :
      (t now : ℕ) (past : List ℕ) (b : CircuitBreaker)
      → t ≤ now
      → Tracks window threshold t past b
      → Tracks window threshold now (past ++ (now ∷ [])) (record_failure now b)
  Tracks-failure t now past b h k = record {
    same_window = unfold record_failure in ground arith;
    same_threshold = unfold record_failure in ground arith;
    agree = λ later i. rw (
      failures-record_failure now b,
      keep-append (within later window) (keep (within now b.window) b.failures) (now ∷ []),
      keep-append (within later window) past (now ∷ []),
      k.same_window,
      keep-keep now later window b.failures i,
      k.agree later (omega arith),
    );
  }

  Tracks-run :
      (t : ℕ) (past : List ℕ) (es : List Event) (b : CircuitBreaker)
      → Ordered t es
      → Tracks window threshold t past b
      → Tracks window threshold (last_time t es) (streak past es) (run es b)
  unfolding run streak
  Tracks-run t past [] b o k = k
  Tracks-run t past (success ∷ es) b o k = Tracks-run t [] es (record_success b) o (
      unfold record_success in
      record {
        same_window = k.same_window;
        same_threshold = k.same_threshold;
        agree = λ now i. refl;
      })
  Tracks-run t past (failure now ∷ es) b o k =
      Tracks-run now (past ++ (now ∷ [])) es (record_failure now b) o.1
        (Tracks-failure t now past b o.0 k)

  opened_at-record_failure :
      (now t : ℕ) (past : List ℕ) (b : CircuitBreaker)
      → t ≤ now
      → Tracks window threshold t past b
      → (record_failure now b).opened_at ≡ (
          if leb threshold (suc (length (keep (within now window) past)))
          then some now
          else b.opened_at)
  unfolding record_failure
  opened_at-record_failure now t past b h k =
      rw
        (
          ← k.agree now h,
          ← k.same_window,
          ← k.same_threshold,
          length-append {0} (keep (within now b.window) b.failures) (now ∷ []),
          add-one,
        )
        (ground arith)

-- After any history of a new breaker in which time does not run backwards, a failure opens the
-- breaker, from its own time on, exactly when it and the failures since the last success that are
-- within the window number at least the threshold; else it leaves the breaker as open as it was.
pub record_failure_exact :
    (threshold window cooldown now : ℕ) (es : List Event)
    → Ordered 0 es
    → last_time 0 es ≤ now
    → (record_failure now (run es (new threshold window cooldown))).opened_at ≡ (
        if leb threshold (suc (length (keep (within now window) (streak [] es))))
        then some now
        else (run es (new threshold window cooldown)).opened_at)
record_failure_exact threshold window cooldown now es o h =
    opened_at-record_failure window threshold now (last_time 0 es) (streak [] es)
      (run es (new threshold window cooldown)) h
      (Tracks-run window threshold 0 [] es (new threshold window cooldown) o
        (unfold new in record { same_window = refl; same_threshold = refl; agree = λ n i. refl }))

-- The last of the times.
abbrev pub last : List ℕ → Option ℕ
last [] = none
last (t ∷ []) = some t
last (t ∷ u ∷ ts) = last (u ∷ ts)

last-append : (ts : List ℕ) (t : ℕ) → last (ts ++ (t ∷ [])) ≡ some t
last-append [] t = refl
last-append (u ∷ []) t = refl
last-append (u ∷ v ∷ ts) t = last-append (v ∷ ts) t

fields-record_success :
    (b : CircuitBreaker)
    → ((record_success b).threshold ≡ b.threshold)
      × ((record_success b).opened_at ≡ none)
      × ((record_success b).cooldown ≡ b.cooldown)
unfolding record_success
fields-record_success b = (refl, refl, refl)

fields-record_failure :
    (past : List ℕ) (now : ℕ) (b : CircuitBreaker)
    → b.threshold ≡ 1
    → ((record_failure now b).threshold ≡ b.threshold)
      × ((record_failure now b).opened_at ≡ last (past ++ (now ∷ [])))
      × ((record_failure now b).cooldown ≡ b.cooldown)
unfolding record_failure
fields-record_failure past now b h = (
  ground arith,
  rw
      (
        last-append past now,
        h,
        length-append {0} (keep (within now b.window) b.failures) (now ∷ []),
        add-one,
      )
      (ground arith),
  ground arith,
)

opened_at-run :
    (past : List ℕ) (es : List Event) (b : CircuitBreaker)
    → b.threshold ≡ 1
    → b.opened_at ≡ last past
    → ((run es b).opened_at ≡ last (streak past es)) × ((run es b).cooldown ≡ b.cooldown)
unfolding run streak
opened_at-run past [] b h e = (e, refl)
opened_at-run past (success ∷ es) b h e =
    let (threshold, opened, cool) = fields-record_success b in
    let (opened', cool') = opened_at-run [] es (record_success b) (threshold ∙ h) opened in
    (opened', cool' ∙ cool)
opened_at-run past (failure now ∷ es) b h e =
    let (threshold, opened, cool) = fields-record_failure past now b h in
    let (opened', cool') =
      opened_at-run (past ++ (now ∷ [])) es (record_failure now b) (threshold ∙ h) opened in
    (opened', cool' ∙ cool)

-- Is the time less than a cooldown ago?
abbrev pub recent : ℕ → ℕ → Option ℕ → Bool
recent now cooldown none = false
recent now cooldown (some t) = ltb (now - t) cooldown

-- With the gateway's threshold of one failure, sends are paused exactly while the last failure
-- since the last success is less than the cooldown ago.
pub is_open_exact :
    (window cooldown now : ℕ) (es : List Event)
    → is_open now (run es (new 1 window cooldown)) ≡ recent now cooldown (last (streak [] es))
unfolding is_open
is_open_exact window cooldown now es =
    let (opened, cool) =
      opened_at-run [] es (new 1 window cooldown) (unfold new in refl) (unfold new in refl) in
    rw (opened, cool) (unfold new in ground arith)
