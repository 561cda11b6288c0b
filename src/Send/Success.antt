-- ===== src/Send/Success.antt =====
-- `resilient_send` of gateway/src/main.rs: when a send gets through, and when the fallback is lost.
use ilink_gateway.Prelude.{
  ℕ, zero, suc, ◌+◌, ◌^◌, ◌<◌, ◌≡◌, refl, ap, true, false, some, [], ◌∷◌, arith, replicate, ℤ, pos,
  negsuc,
}
use native.Mathlib.Nat.{zero-add}
use ilink_gateway.Error.{ok, err}
use ilink_gateway.Types.{SendMessageRequest, SendMessageResponse}
use ilink_gateway.Breaker.{CircuitBreaker, is_open, success}
use ilink_gateway.Send.{
  Transport, send_message, strip_token, has_token, Outcome, finished, exhausted, message_id_text,
  error_code, attempts, resilient_send,
}

shift : (n i : ℕ) → n + 1 + i ≡ n + suc i
shift n i = omega arith

module _ (transport : Transport) (clock : ℕ → ℕ) where
  -- The n-th attempt with the request is answered with the error code.
  abbrev pub Answers : ℕ → SendMessageRequest → ℤ → Type 0
  Answers n req code =
      (resp : SendMessageResponse) × (send_message transport n req ≡ ok resp)
      × (error_code resp ≡ code)

  step_limited :
      (left n : ℕ) (req : SendMessageRequest)
      → Answers n req (negsuc 1)
      → attempts transport clock (suc left) n req
        ≡ record (attempts transport clock left (n + 1) req) {
          sent = req ∷ (attempts transport clock left (n + 1) req).sent;
          slept = 2 ^ n ∷ (attempts transport clock left (n + 1) req).slept;
        }
  unfolding attempts
  step_limited left n req (resp, e, code) = rw (e, code)

  step_fine :
      (left n : ℕ) (req : SendMessageRequest) (resp : SendMessageResponse)
      → send_message transport n req ≡ ok resp
      → error_code resp ≡ pos 0
      → attempts transport clock (suc left) n req
        ≡ record (finished (ok (message_id_text resp)) success) { sent = req ∷ [] }
  unfolding attempts
  step_fine left n req resp e code = rw (e, code)

  step_stale :
      (left n : ℕ) (req : SendMessageRequest)
      → Answers n req (negsuc 13)
      → has_token req ≡ true
      → attempts transport clock (suc left) n req
        ≡ record (attempts transport clock left (n + 1) (strip_token req)) {
          sent = req ∷ (attempts transport clock left (n + 1) (strip_token req)).sent;
        }
  unfolding attempts
  step_stale left n req (resp, e, code) token = rw (e, code, token)

  -- What a send yields whose n-th attempt gets through.
  abbrev pub Delivered : SendMessageResponse → ℕ → SendMessageRequest → Outcome → Type 0
  Delivered resp k req o =
      (o.result ≡ ok (message_id_text resp))
      × (o.report ≡ some success)
      × (o.sent ≡ replicate (suc k) req)

  retries :
      (k left n : ℕ) (req : SendMessageRequest) (resp : SendMessageResponse)
      → k < left
      → ((i : ℕ) → i < k → Answers (n + i) req (negsuc 1))
      → send_message transport (n + k) req ≡ ok resp
      → error_code resp ≡ pos 0
      → Delivered resp k req (attempts transport clock left n req)
  retries zero zero n req resp h limited e code = absurd (omega arith)
  retries (suc k) zero n req resp h limited e code = absurd (omega arith)
  retries zero (suc left) n req resp h limited e code =
      let same : n + 0 ≡ n = omega arith in
      rw (step_fine left n req resp (rw same at e) code) (refl, refl, refl)
  retries (suc k) (suc left) n req resp h limited e code =
      let same : n + 0 ≡ n = omega arith in
      let first : Answers n req (negsuc 1) = rw same at (limited 0 (omega arith)) in
      let (result, report, sent) =
        retries k left (n + 1) req resp (omega arith)
          (λ i b. rw (shift n i) (limited (suc i) (omega arith))) (rw (shift n k) e) code in
      rw (step_limited left n req first) (result, report, ap (◌∷◌ req) sent)

  -- While the breaker is closed, a send that is rate-limited up to three times and then accepted
  -- succeeds with the id of the message that was accepted: one request for each answer, all alike.
  pub resilient_send_retries :
      (now k : ℕ) (req : SendMessageRequest) (b : CircuitBreaker) (resp : SendMessageResponse)
      → is_open now b ≡ false
      → k < 4
      → ((i : ℕ) → i < k → Answers i req (negsuc 1))
      → send_message transport k req ≡ ok resp
      → error_code resp ≡ pos 0
      → Delivered resp k req (resilient_send transport clock now req b)
  unfolding resilient_send
  resilient_send_retries now k req b resp closed h limited e code =
      rw closed (retries k 4 0 req resp h (λ i m. rw zero-add (limited i m)) (rw zero-add e) code)

  late_strip :
      (req : SendMessageRequest)
      → has_token req ≡ true
      → Answers 0 req (negsuc 1)
      → Answers 1 req (negsuc 1)
      → Answers 2 req (negsuc 1)
      → Answers 3 req (negsuc 13)
      → ((attempts transport clock 4 0 req).result ≡ err exhausted)
        × ((attempts transport clock 4 0 req).sent ≡ replicate 4 req)
  late_strip req token a₀ a₁ a₂ a₃ =
      rw
        (
          step_limited 3 0 req a₀,
          step_limited 2 1 req a₁,
          step_limited 1 2 req a₂,
          step_stale 0 3 req a₃ token,
        )
        (unfold attempts in (refl, refl))

  -- A stale context token that is reported in the fourth attempt, after three rate limits, is
  -- dropped too late: no request without the token is sent, and the error speaks of the rate limit.
  pub resilient_send_late_strip :
      (now : ℕ) (req : SendMessageRequest) (b : CircuitBreaker)
      → is_open now b ≡ false
      → has_token req ≡ true
      → Answers 0 req (negsuc 1)
      → Answers 1 req (negsuc 1)
      → Answers 2 req (negsuc 1)
      → Answers 3 req (negsuc 13)
      → ((resilient_send transport clock now req b).result ≡ err exhausted)
        × ((resilient_send transport clock now req b).sent ≡ replicate 4 req)
  unfolding resilient_send
  resilient_send_late_strip now req b closed token a₀ a₁ a₂ a₃ =
      rw closed (late_strip req token a₀ a₁ a₂ a₃)
