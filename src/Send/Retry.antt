-- ===== src/Send/Retry.antt =====
-- `resilient_send` of gateway/src/main.rs: what is sent, how long it waits, and what it reports.
use ilink_gateway.Prelude.{
  ℕ, zero, suc, ◌+◌, ◌^◌, ◌≤◌, ◌<◌, ◌≡◌, ◌⊎◌, inl, inr, refl, true, false, ◌&&◌, Option, none, some,
  List, [], ◌∷◌, ◌++◌, arith, length, replicate, sum, Bool-cases, pos, negsuc, int_eq,
}
use ilink_gateway.Text.{Text}
use ilink_gateway.Error.{GatewayError, Result, ok, err, panic}
use ilink_gateway.Types.{SendMessageRequest, SendMessageResponse}
use ilink_gateway.Breaker.{CircuitBreaker, is_open, success, failure}
use ilink_gateway.Send.{
  Transport, send_message, strip_token, has_token, Outcome, paused, exhausted, message_id_text,
  error_code, refused, after_response, attempts, resilient_send,
}

-- What is reported to the breaker fits the result.
abbrev pub Reported : Outcome → Type 0
Reported o =
    ((id : Option Text) × (o.result ≡ ok id) × (o.report ≡ some success))
    ⊎ ((e : GatewayError) × (at : ℕ) × (o.result ≡ err e) × (o.report ≡ some (failure at)))
    ⊎ ((o.result ≡ panic) × (o.report ≡ none))

-- The loop ends after a response, or goes on with the same request, or with one that lost its token.
abbrev After : ℕ → SendMessageRequest → Outcome → Outcome → Outcome → Type 0
After n req again stripped o =
    ((o.sent ≡ []) × (o.slept ≡ []) × Reported o)
    ⊎ (o ≡ record again { slept = 2 ^ n ∷ again.slept })
    ⊎ ((has_token req ≡ true) × (o ≡ stripped))

After-cases :
    (at n : ℕ) (req : SendMessageRequest) (r : Result SendMessageResponse)
    (again stripped : Outcome)
    → After n req again stripped (after_response at n req r again stripped)
After-cases at n req (err e) again stripped = inl (refl, refl, inr (inl (e, at, refl, refl)))
After-cases at n req panic again stripped = inl (refl, refl, inr (inr (refl, refl)))
After-cases at n req (ok resp) again stripped =
    elim (Bool-cases (int_eq (error_code resp) (pos 0))) [
      | inl fine ↦ rw fine (inl (refl, refl, inl (message_id_text resp, refl, refl)))
      | inr bad ↦ elim (Bool-cases (int_eq (error_code resp) (negsuc 1))) [
        | inl limited ↦ rw (bad, limited) (inr (inl refl))
        | inr other ↦ elim (Bool-cases (int_eq (error_code resp) (negsuc 13) && has_token req)) [
          | inl stale ↦ rw (bad, other, stale) (inr (inr (ground arith, refl)))
          | inr last ↦
              rw (bad, other, last) (inl (refl, refl, inr (inl (refused resp, at, refl, refl))))
        ]
      ]
    ]

-- Some requests as given, and behind them some without the token.
abbrev pub SentBy : ℕ → SendMessageRequest → List SendMessageRequest → Type 0
SentBy most req sent =
    (i : ℕ) × (j : ℕ) × (sent ≡ replicate i req ++ replicate j (strip_token req)) × (i + j ≤ most)

-- The longest wait of the attempts from the n-th on.
abbrev budget : ℕ → ℕ → ℕ
budget zero n = 0
budget (suc left) n = 2 ^ n + budget left (n + 1)

module _ (transport : Transport) (clock : ℕ → ℕ) where
  -- The outcome behind the first request that is sent.
  abbrev rest : ℕ → ℕ → SendMessageRequest → Outcome
  rest left n req =
      after_response (clock n) n req (send_message transport n req)
        (attempts transport clock left (n + 1) req)
        (attempts transport clock left (n + 1) (strip_token req))

  rest-cases :
      (left n : ℕ) (req : SendMessageRequest)
      → After n req
          (attempts transport clock left (n + 1) req)
          (attempts transport clock left (n + 1) (strip_token req))
          (rest left n req)
  rest-cases left n req = After-cases (clock n) n req (send_message transport n req) _ _

  attempts-rest :
      (left n : ℕ) (req : SendMessageRequest)
      → attempts transport clock (suc left) n req
        ≡ record (rest left n req) { sent = req ∷ (rest left n req).sent }
  unfolding attempts
  attempts-rest left n req = refl

  sent_some :
      (left n : ℕ) (req : SendMessageRequest)
      → 0 < length (attempts transport clock (suc left) n req).sent
  sent_some left n req = rw (attempts-rest left n req) (omega arith)

  sent_stripped :
      (left n : ℕ) (req : SendMessageRequest)
      → has_token req ≡ false
      → (i : ℕ) × ((attempts transport clock left n req).sent ≡ replicate i req) × (i ≤ left)
  sent_stripped zero n req h = (0, unfold attempts in refl, omega arith)
  sent_stripped (suc left) n req h =
      let ih = sent_stripped left (n + 1) req h in
      elim (rest-cases left n req) [
        | inl (none_sent, _, _) ↦ (1, rw (attempts-rest left n req, none_sent), omega arith)
        | inr (inl more) ↦ (suc ih.0, rw (attempts-rest left n req, more, ih.1), omega arith)
        | inr (inr (token, _)) ↦ cc
      ]

  sent_by :
      (left n : ℕ) (req : SendMessageRequest)
      → SentBy left req (attempts transport clock left n req).sent
  sent_by zero n req = (0, 0, unfold attempts in refl, omega arith)
  sent_by (suc left) n req =
      let ih = sent_by left (n + 1) req in
      let bare = sent_stripped left (n + 1) (strip_token req) refl in
      elim (rest-cases left n req) [
        | inl (none_sent, _, _) ↦ (1, 0, rw (attempts-rest left n req, none_sent), omega arith)
        | inr (inl more) ↦ (suc ih.0, ih.1, rw (attempts-rest left n req, more, ih.2), omega arith)
        | inr (inr (_, e)) ↦ (1, bare.0, rw (attempts-rest left n req, e, bare.1), omega arith)
      ]

  slept_by :
      (left n : ℕ) (req : SendMessageRequest)
      → sum (attempts transport clock left n req).slept ≤ budget left n
  slept_by zero n req = unfold attempts in omega arith
  slept_by (suc left) n req =
      let ih = slept_by left (n + 1) req in
      let bare = slept_by left (n + 1) (strip_token req) in
      elim (rest-cases left n req) [
        | inl (_, none_slept, _) ↦ rw (attempts-rest left n req, none_slept) (omega arith)
        | inr (inl more) ↦ rw (attempts-rest left n req, more) (omega arith)
        | inr (inr (_, e)) ↦ rw (attempts-rest left n req, e) (omega arith)
      ]

  reported :
      (left n : ℕ) (req : SendMessageRequest) → Reported (attempts transport clock left n req)
  reported zero n req = unfold attempts in inr (inl (exhausted, clock n, refl, refl))
  reported (suc left) n req =
      let ih = reported left (n + 1) req in
      let bare = reported left (n + 1) (strip_token req) in
      elim (rest-cases left n req) [
        | inl (_, _, r) ↦ rw (attempts-rest left n req) r
        | inr (inl more) ↦ rw (attempts-rest left n req, more) ih
        | inr (inr (_, e)) ↦ rw (attempts-rest left n req, e) bare
      ]

  -- At most four requests are sent: some as given and behind them some without the context token,
  -- nothing else changed in any of them; and the waits take at most 15 seconds in all.
  pub resilient_send_bounds :
      (now : ℕ) (req : SendMessageRequest) (b : CircuitBreaker)
      → SentBy 4 req (resilient_send transport clock now req b).sent
        × (sum (resilient_send transport clock now req b).slept ≤ 15)
  unfolding resilient_send
  resilient_send_bounds now req b = elim (Bool-cases (is_open now b)) [
    | inl opened ↦ rw opened ((0, 0, refl, omega arith), omega arith)
    | inr closed ↦ rw closed (sent_by 4 0 req, slept_by 4 0 req)
  ]

  -- While the breaker is open nothing is sent or reported, and the result is an error. While it is
  -- closed at least one request is sent, and the breaker is told of a success exactly where the
  -- result is one, and of a failure exactly where it is an error.
  pub resilient_send_reports :
      (now : ℕ) (req : SendMessageRequest) (b : CircuitBreaker)
      → ((is_open now b ≡ true) × (resilient_send transport clock now req b ≡ paused))
        ⊎ ((is_open now b ≡ false)
            × (0 < length (resilient_send transport clock now req b).sent)
            × Reported (resilient_send transport clock now req b))
  unfolding resilient_send
  resilient_send_reports now req b = elim (Bool-cases (is_open now b)) [
    | inl opened ↦ rw opened (inl (refl, refl))
    | inr closed ↦ rw closed (inr (refl, sent_some 3 0 req, reported 4 0 req))
  ]
