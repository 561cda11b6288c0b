-- ===== src/Login/Ends.antt =====
-- gateway/src/main.rs: the login loop ends, and how many rounds it makes.
use ilink_gateway.Prelude.{
  ℕ, zero, suc, ◌+◌, ◌≤◌, ◌<◌, ltb, ◌≡◌, ◌⊎◌, inl, inr, refl, ap, ◌∙◌, true, false, some, arith,
  leb, Bool-cases,
}
use ilink_gateway.Text.{Text}
use ilink_gateway.Error.{Result, ok, err, panic}
use ilink_gateway.Store.{SqliteStore, Faults}
use ilink_gateway.Login.{
  LoginEnv, LoginState, Confirmed, Round, again, leave, round, Left, deadline_of, login_loop,
  begin_login, login_fuel, Login, after_loop, finish, run_loop, timeout_error, qr_login_and_save,
}

pub Round-cases :
    (r : Round)
    → ((st : LoginState) × (r ≡ again st)) ⊎ ((res : Result Confirmed) × (r ≡ leave res))
Round-cases (again st) = inl (st, refl)
Round-cases (leave res) = inr (res, refl)

pub loop_timeout :
    (f : ℕ) (env : LoginEnv) (n : ℕ) (st : LoginState)
    → deadline_of env ≤ env.clock n
    → login_loop (suc f) env n st
      ≡ some (record { result = err timeout_error; state = st; rounds = n })
unfolding login_loop
loop_timeout f env n st h =
    let t : leb (deadline_of env) (env.clock n) ≡ true = ground arith in rw t

pub loop_leave :
    (f : ℕ) (env : LoginEnv) (n : ℕ) (st : LoginState) (res : Result Confirmed)
    → leb (deadline_of env) (env.clock n) ≡ false
    → round env n st ≡ leave res
    → login_loop (suc f) env n st ≡ some (record { result = res; state = st; rounds = n + 1 })
unfolding login_loop
loop_leave f env n st res h e = rw (h, e)

pub loop_again :
    (f : ℕ) (env : LoginEnv) (n : ℕ) (st st' : LoginState)
    → leb (deadline_of env) (env.clock n) ≡ false
    → round env n st ≡ again st'
    → login_loop (suc f) env n st ≡ login_loop f env (n + 1) st'
unfolding login_loop
loop_again f env n st st' h e = rw (h, e)

-- Each round sleeps for a second.
abbrev pub Ticks : LoginEnv → Type 0
Ticks env = (n : ℕ) → env.clock n + 1 ≤ env.clock (n + 1)

-- The rounds from the n-th on, before this one, have begun before the deadline.
abbrev Began : LoginEnv → ℕ → ℕ → Type 0
Began env n rounds = (k : ℕ) → n ≤ k → k < rounds → env.clock k < deadline_of env

Began-none : (env : LoginEnv) (n : ℕ) → Began env n n
Began-none env n k h below = absurd (omega arith)

Began-more :
    (env : LoginEnv) (n rounds : ℕ)
    → leb (deadline_of env) (env.clock n) ≡ false
    → Began env (n + 1) rounds
    → Began env n rounds
Began-more env n rounds early later k h below = elim (Bool-cases (ltb n k)) [
  | inl after ↦ later k (ground arith) below
  | inr here ↦
      let same : k ≡ n = ground arith in
      let first : env.clock n < deadline_of env = ground arith in rw same first
]

-- The loop ends if its deadline is at most as many seconds away as it has fuel left, and it makes at
-- most one round for each of these seconds.
pub loop_ends :
    (f : ℕ) (env : LoginEnv) (n : ℕ) (st : LoginState)
    → Ticks env
    → deadline_of env ≤ env.clock n + f
    → (left : Left) × (login_loop (suc f) env n st ≡ some left)
      × Began env n left.rounds
      × (left.rounds ≤ n + f)
loop_ends zero env n st ticks h =
    (_, loop_timeout 0 env n st (omega arith), Began-none env n, omega arith)
loop_ends (suc f) env n st ticks h = elim (Bool-cases (leb (deadline_of env) (env.clock n))) [
  | inl late ↦ (_, loop_timeout (suc f) env n st (ground arith), Began-none env n, omega arith)
  | inr early ↦ elim (Round-cases (round env n st)) [
    | inr (res, e) ↦ (
      _,
      loop_leave (suc f) env n st res early e,
      Began-more env n (n + 1) early (Began-none env (n + 1)),
      omega arith,
    )
    | inl (st', e) ↦
        let (left, done, began, few) = loop_ends f env (n + 1) st' ticks (omega (arith, ticks n)) in
        (
          left,
          loop_again (suc f) env n st st' early e ∙ done,
          Began-more env n left.rounds early began,
          omega (arith, few),
        )
  ]
]

-- Each of the first so many rounds has begun before the deadline.
abbrev pub AllBegan : LoginEnv → ℕ → Type 0
AllBegan env zero = Unit
AllBegan env (suc k) = (env.clock k < deadline_of env) × AllBegan env k

Began-AllBegan : (env : LoginEnv) (rounds : ℕ) → Began env 0 rounds → AllBegan env rounds
Began-AllBegan env zero h = tt
Began-AllBegan env (suc k) h =
    (h k (omega arith) (omega arith), Began-AllBegan env k (λ i from below. h i from (omega arith)))

-- If the loop is come to, it is left after at most 480 rounds, each of which began before the
-- deadline.
abbrev pub EndsInTime : LoginEnv → Result LoginState → Type 0
EndsInTime env (ok st) =
    (left : Left) × (login_loop login_fuel env 0 st ≡ some left)
    × AllBegan env left.rounds
    × (left.rounds ≤ 480)
EndsInTime env (err e) = Unit
EndsInTime env panic = Unit

run_loop-ends :
    (env : LoginEnv) (fault : Faults) (at : Text) (begun : Result LoginState) (store : SqliteStore)
    → Ticks env
    → env.started ≤ env.clock 0
    → (l : Login) × (run_loop env fault at begun store ≡ some l) × EndsInTime env begun
run_loop-ends env fault at (err e) store ticks h = (_, refl, tt)
run_loop-ends env fault at panic store ticks h = (_, refl, tt)
run_loop-ends env fault at (ok st) store ticks h =
    let (left, done, began, few) = loop_ends 480 env 0 st ticks (omega arith) in
    (
      after_loop env fault at left.state.client left.result store,
      ap (finish env fault at store) done,
      (left, done, Began-AllBegan env left.rounds began, omega (arith, few)),
    )

-- Whatever the server answers, a login ends, by a success, an error or a panic, given that each
-- round of its loop takes a second at least; and if it comes to the loop, that makes at most 480
-- rounds, each of which began within the 480 seconds that its deadline allows.
pub qr_login-ends :
    (env : LoginEnv) (fault : Faults) (at base : Text) (store : SqliteStore)
    → Ticks env
    → env.started ≤ env.clock 0
    → (l : Login) × (qr_login_and_save env fault at base store ≡ some l)
      × EndsInTime env (begin_login env base)
unfolding qr_login_and_save
qr_login-ends env fault at base store ticks h =
    run_loop-ends env fault at (begin_login env base) store ticks h
