-- ===== src/Typing/Flight.antt =====
-- gateway/src/main.rs: however the tasks interleave, a user's ticket is fetched by one of them.
use ilink_gateway.Prelude.{
  ℕ, ◌≡◌, inl, inr, refl, ap, Bool, true, false, not, ◌||◌, Option, none, some, arith,
  if◌then◌else◌, Option-cases,
}
use ilink_gateway.Text.{Text, ◌==◌, eq_iff}
use ilink_gateway.Map.{contains, insert, remove}
use ilink_gateway.Map.Laws.{lookup-insert, lookup-remove, contains-eq-is_some}
use ilink_gateway.Types.Requests.{GetConfigResponse}
use ilink_gateway.Typing.{
  TypingTicketCache, insert_ticket, claim, release, cache_answer, Pc, fetching, fetched, Move,
  claim_it, wait_for_it, answer, let_go, System, update, pick, Reach, init, later,
}

-- The user whose ticket a task fetches, until it lets go of the user's place in the set.
abbrev pub slot : Pc → Option Text
slot (fetching u) = some u
slot (fetched u t) = some u
slot _ = none

abbrev pub flying : Text → TypingTicketCache → Bool
flying u c = contains u c.in_flight

-- Every user in flight is in the set, and no two tasks fetch for one user.
pub record Inv (c : TypingTicketCache) (pc : ℕ → Pc) : Type 0 where
  pub held : (i : ℕ) (u : Text) → slot (pc i) ≡ some u → flying u c ≡ true
  pub single : (i j : ℕ) (u : Text) → slot (pc i) ≡ some u → slot (pc j) ≡ some u → i ≡ j

claim-flying :
    (u v : Text) (c : TypingTicketCache) → flying v (claim u c).1 ≡ (u == v || flying v c)
unfolding claim
claim-flying u v c = ground (
  arith,
  contains-eq-is_some v (insert u tt c.in_flight),
  contains-eq-is_some v c.in_flight,
  lookup-insert u v tt c.in_flight,
)

claim-new : (u : Text) (c : TypingTicketCache) → (claim u c).0 ≡ not (flying u c)
unfolding claim
claim-new u c = refl

release-flying :
    (u v : Text) (c : TypingTicketCache)
    → flying v (release u c) ≡ (if u == v then false else flying v c)
unfolding release
release-flying u v c = ground (
  arith,
  contains-eq-is_some v (remove u c.in_flight),
  contains-eq-is_some v c.in_flight,
  lookup-remove u v c.in_flight,
)

answer-flying :
    (now : ℕ) (u v : Text) (resp : Option GetConfigResponse) (c : TypingTicketCache)
    → flying v (cache_answer now u resp c).1 ≡ flying v c
unfolding cache_answer insert_ticket
answer-flying now u v none c = refl
answer-flying now u v (some resp) c = elim (Option-cases resp.typing_ticket) [
  | inl missing ↦ rw missing refl
  | inr (t, e) ↦ rw e refl
]

module _ {c : TypingTicketCache} {pc : ℕ → Pc} (inv : Inv c pc) (i : ℕ) where
  open inv use {held, single}

  Move-held :
      {p p' : Pc} {c' : TypingTicketCache}
      → Move c p c' p'
      → pc i ≡ p
      → (j : ℕ) (v : Text) → slot (update pc i p' j) ≡ some v
      → flying v c' ≡ true
  Move-held (claim_it {u} g) e j v q = ground (arith, held j v, claim-flying u v c, eq_iff u v)
  Move-held (wait_for_it {u} now g) e j v q = ground (arith, held j v, claim-flying u v c)
  Move-held (answer {u} now resp) e j v q =
      ground (arith, held j v, held i v, answer-flying now u v resp c)
  Move-held (let_go {u}) e j v q =
      ground (arith, held j v, single i j u, release-flying u v c, eq_iff u v)
  Move-held mv e j v q = ground (arith, held j v)

  Move-single :
      {p p' : Pc} {c' : TypingTicketCache}
      → Move c p c' p'
      → pc i ≡ p
      → (a b : ℕ) (v : Text) → slot (update pc i p' a) ≡ some v
      → slot (update pc i p' b) ≡ some v
      → a ≡ b
  Move-single (claim_it {u} g) e a b v qa qb =
      ground (arith, claim-new u c, held a v, held b v, single a b v)
  Move-single mv e a b v qa qb = ground (arith, single a b v, single i a v, single i b v)

  pub Move-Inv : {p' : Pc} {c' : TypingTicketCache} → Move c (pc i) c' p' → Inv c' (update pc i p')
  Move-Inv mv = record { held = Move-held mv refl; single = Move-single mv refl }

Reach-Inv : {users : ℕ → Text} {s : System} → Reach users s → Inv s.cache s.pc
Reach-Inv init = record { held = λ i u q. cc; single = λ i j u q r. cc }
Reach-Inv (later r (pick i mv)) = Move-Inv (Reach-Inv r) i mv

-- However any number of tasks interleave, with any answers of the server, two tasks never fetch the
-- ticket of one user at a time.
pub single_flight :
    {users : ℕ → Text} {s : System}
    → Reach users s
    → (i j : ℕ) (u : Text) → s.pc i ≡ fetching u
    → s.pc j ≡ fetching u
    → i ≡ j
single_flight r i j u h k = (Reach-Inv r).single i j u (ap slot h) (ap slot k)
