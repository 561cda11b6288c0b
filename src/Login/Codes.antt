-- ===== src/Login/Codes.antt =====
-- gateway/src/main.rs: how many QR codes a login shows.
use ilink_gateway.Prelude.{
  ℕ, zero, suc, ◌+◌, ◌≤◌, ◌<◌, ◌≡◌, inl, inr, refl, sym, ◌∙◌, Option, none, some, [], arith, ltb,
  leb, length, Bool-cases, Option-cases,
}
use mathlib.Core.Path.{subst}
use ilink_gateway.Text.{Text, codes, ◌==◌}
use ilink_gateway.Error.{GatewayError, Result, ok, err, panic, ◌>>=◌, bind-ok, ilink}
use ilink_gateway.Types.Requests.{GetQrcodeResponse, QrcodeStatusResponse}
use ilink_gateway.Client.{Client, ClientEnv}
use ilink_gateway.Client.Calls
use ilink_gateway.Client.Calls.{get_qr_code, poll_qr_status}
use ilink_gateway.Login.{
  LoginEnv, LoginState, Round, again, leave, again_if, show_qr, expire, redirect, on_status,
  on_answer, status_of, round, Left, deadline_of, login_loop, begin_login, login_fuel,
}
use ilink_gateway.Login.Ends.{Round-cases, Ticks, loop_ends, loop_timeout, loop_leave, loop_again}

-- A state has shown one code more than it has counted expiries, of which there are at most three.
abbrev pub Shown : LoginState → Type 0
Shown st = (length st.rendered ≡ st.expired_retries + 1) × (st.expired_retries ≤ 3)

abbrev ShownRound : Round → Type 0
ShownRound (again st) = Shown st
ShownRound (leave res) = Unit

again_if-Shown :
    (r : Result LoginState) → ((st : LoginState) → r ≡ ok st → Shown st) → ShownRound (again_if r)
again_if-Shown (ok st) h = h st refl
again_if-Shown (err e) h = tt
again_if-Shown panic h = tt

show_qr-rendered :
    (e : GatewayError) (resp : GetQrcodeResponse) (st st' : LoginState)
    → show_qr e resp st ≡ ok st'
    → (length st'.rendered ≡ length st.rendered + 1) × (st'.expired_retries ≡ st.expired_retries)
unfolding show_qr
show_qr-rendered e resp st st' h = elim (Option-cases resp.qrcode) [
  | inl missing ↦ ground arith
  | inr (q, has) ↦ ground arith
]

expire-Shown : (env : ClientEnv) (st : LoginState) → Shown st → ShownRound (expire env st)
unfolding expire
expire-Shown env st h = elim (Bool-cases (ltb 3 (st.expired_retries + 1))) [
  | inl last ↦ rw last tt
  | inr more ↦ rw more (
      again_if-Shown _ (λ st' e.
        let (resp, got, shown) = bind-ok (get_qr_code env st.client) _ st' e in
        let (longer, same) =
          show_qr-rendered _ resp (record st { expired_retries = st.expired_retries + 1 }) st'
            shown in
        (omega (arith, h.0), ground (arith, h.1))))
]

redirect-Shown :
    (build : Option GatewayError) (base : Option Text) (st : LoginState)
    → Shown st
    → ShownRound (redirect build base st)
unfolding redirect
redirect-Shown build none st h = h
redirect-Shown build (some base) st h = again_if-Shown _ (λ st' e.
    let (client, built, same) =
      bind-ok (Calls.new build (some base)) (λ (c : Client). ok (record st { client = c })) st' e in
    (ground (arith, h.0), ground (arith, h.1)))

on_status-Shown :
    (env : LoginEnv) (n : ℕ) (resp : QrcodeStatusResponse) (st : LoginState)
    → Shown st
    → ShownRound (on_status env n resp st)
unfolding on_status
on_status-Shown env n resp st h = elim (Bool-cases (status_of resp == codes "confirmed")) [
  | inl c ↦ rw c tt
  | inr not_c ↦ elim (Bool-cases (status_of resp == codes "scaned_but_redirect")) [
    | inl r ↦ rw (not_c, r) (redirect-Shown (env.build_again n) resp.baseurl st h)
    | inr not_r ↦ elim (Bool-cases (status_of resp == codes "expired")) [
      | inl x ↦ rw (not_c, not_r, x) (expire-Shown (env.refresh n) st h)
      | inr not_x ↦ rw (not_c, not_r, not_x) h
    ]
  ]
]

on_answer-Shown :
    (env : LoginEnv) (n : ℕ) (a : Result QrcodeStatusResponse) (st : LoginState)
    → Shown st
    → ShownRound (on_answer env n a st)
on_answer-Shown env n (ok resp) st h = on_status-Shown env n resp st h
on_answer-Shown env n (err e) st h = tt
on_answer-Shown env n panic st h = tt

round-Shown : (env : LoginEnv) (n : ℕ) (st : LoginState) → Shown st → ShownRound (round env n st)
unfolding round
round-Shown env n st h =
    on_answer-Shown env n (poll_qr_status (env.poll n) st.client st.qrcode) st h

abbrev ShownLeft : Option Left → Type 0
ShownLeft none = Unit
ShownLeft (some left) = Shown left.state

loop-Shown :
    (f : ℕ) (env : LoginEnv) (n : ℕ) (st : LoginState) (left : Left)
    → Shown st
    → login_loop f env n st ≡ some left
    → Shown left.state
unfolding login_loop
loop-Shown zero env n st left h e = absurd cc
loop-Shown (suc f) env n st left h e = elim (Bool-cases (leb (deadline_of env) (env.clock n))) [
  | inl late ↦ subst ShownLeft (sym (loop_timeout f env n st (ground arith)) ∙ e) h
  | inr early ↦ elim (Round-cases (round env n st)) [
    | inr (res, r) ↦ subst ShownLeft (sym (loop_leave f env n st res early r) ∙ e) h
    | inl (st', r) ↦
        loop-Shown f env (n + 1) st' left (subst ShownRound r (round-Shown env n st h))
          (sym (loop_again f env n st st' early r) ∙ e)
  ]
]

begin_login-Shown :
    (env : LoginEnv) (base : Text) (st : LoginState) → begin_login env base ≡ ok st → Shown st
unfolding begin_login
begin_login-Shown env base st e =
    let (client, built, e') =
      bind-ok (Calls.new env.build (some base))
        (λ (c : Client). get_qr_code env.first c >>= λ resp.
          show_qr (ilink (codes "QR code key is empty")) resp
            (record { client = c; qrcode = []; expired_retries = 0; rendered = [] }))
        st e in
    let (resp, got, shown) =
      bind-ok (get_qr_code env.first client)
        (λ resp.
          show_qr (ilink (codes "QR code key is empty")) resp
            (record { client = client; qrcode = []; expired_retries = 0; rendered = [] }))
        st e' in
    let (longer, same) =
      show_qr-rendered (ilink (codes "QR code key is empty")) resp
        (record { client = client; qrcode = []; expired_retries = 0; rendered = [] }) st shown in
    (omega arith, omega arith)

-- A login that has fetched and shown its first QR code, in which each round takes a second at least,
-- ends, and until then it has shown at least that code and at most four: the first one and three
-- fresh ones, whatever the server answers and however the login ends.
pub qr_codes_bound :
    (env : LoginEnv) (base : Text) (st : LoginState)
    → Ticks env
    → env.started ≤ env.clock 0
    → begin_login env base ≡ ok st
    → (left : Left) × (login_loop login_fuel env 0 st ≡ some left)
      × (0 < length left.state.rendered)
      × (length left.state.rendered ≤ 4)
qr_codes_bound env base st ticks h begun =
    let (left, done, began, few) = loop_ends 480 env 0 st ticks (omega arith) in
    let shown = loop-Shown login_fuel env 0 st left (begin_login-Shown env base st begun) done in
    (left, done, omega (arith, shown.0), omega (arith, shown.0, shown.1))
