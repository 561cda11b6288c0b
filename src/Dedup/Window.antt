-- ===== src/Dedup/Window.antt =====
-- The dedup cache of gateway/src/main.rs: which deliveries of a message are let through.
use ilink_gateway.Prelude.{
  ℕ, ◌+◌, ◌≤◌, ◌<◌, ◌≡◌, inl, inr, refl, ap, ◌∙◌, Bool, true, false, not, ◌&&◌, Option, some, List,
  [], ◌∷◌, arith, ltb, if◌then◌else◌, Bool-cases,
}
use mathlib.Core.Path.{subst}
use ilink_gateway.Text.{Text, ◌==◌, eq_iff, eq_refl}
use ilink_gateway.Map.{lookup, contains, retain, Distinct}
use ilink_gateway.Map.Laws.{
  is_some, filter_option, contains-eq-is_some, lookup-insert, lookup-retain, insert-Distinct,
  retain-Distinct,
}
use ilink_gateway.Dedup.{DedupCache, fresh, check_and_record}

-- The time at which a key was let through, while that is less than the lifetime ago.
unfoldable pub last_seen : ℕ → Text → DedupCache → Option ℕ
last_seen now key c = filter_option (fresh now c.ttl) (lookup key c.seen)

-- A key is let through exactly when it was not let through within the lifetime, and then it is
-- recorded with the present time; what is recorded of other keys lasts until it expires.
pub check_and_record_exact :
    (now : ℕ) (key : Text) (c : DedupCache)
    → Distinct c.seen
    → ((check_and_record now key c).0 ≡ not (is_some (last_seen now key c)))
      × ((j : Text)
          → lookup j (check_and_record now key c).1.seen
            ≡ (if (check_and_record now key c).0 && key == j then some now else last_seen now j c))
      × Distinct (check_and_record now key c).1.seen
      × ((check_and_record now key c).1.ttl ≡ c.ttl)
unfolding check_and_record last_seen
check_and_record_exact now key c d =
    elim (Bool-cases (contains key (retain (fresh now c.ttl) c.seen))) [
      | inl old ↦ rw old (
        ground (
          arith,
          contains-eq-is_some key (retain (fresh now c.ttl) c.seen),
          lookup-retain (fresh now c.ttl) key c.seen,
        ),
        (λ j. lookup-retain (fresh now c.ttl) j c.seen d),
        retain-Distinct (fresh now c.ttl) c.seen d,
        refl,
      )
      | inr fresh_key ↦ rw fresh_key (
        ground (
          arith,
          contains-eq-is_some key (retain (fresh now c.ttl) c.seen),
          lookup-retain (fresh now c.ttl) key c.seen,
        ),
        (λ j. ground (
          arith,
          lookup-insert key j now (retain (fresh now c.ttl) c.seen),
          lookup-retain (fresh now c.ttl) j c.seen,
        )),
        insert-Distinct key now (retain (fresh now c.ttl) c.seen)
            (retain-Distinct (fresh now c.ttl) c.seen d),
        refl,
      )
    ]

-- A run of deliveries, each with its time and its key, and the verdict on each.
unfoldable pub run : List (ℕ × Text) → DedupCache → List Bool × DedupCache
run [] c = ([], c)
run ((now, key) ∷ events) c =
    let (fresh_key, c') = check_and_record now key c in
    let (verdicts, c'') = run events c' in (fresh_key ∷ verdicts, c'')

-- The times do not fall, from `t` on.
abbrev pub Ordered : ℕ → List (ℕ × Text) → Type 0
Ordered t [] = Unit
Ordered t ((now, key) ∷ events) = (t ≤ now) × Ordered now events

-- None of the deliveries of `key` before the time `until` is let through.
abbrev pub Blocked : Text → ℕ → List (ℕ × Text) → List Bool → Type 0
Blocked key until [] verdicts = Unit
Blocked key until (e ∷ events) [] = ⊥
Blocked key until ((now, k) ∷ events) (v ∷ verdicts) =
    (k ≡ key → now < until → v ≡ false) × Blocked key until events verdicts

Blocked-late :
    (key : Text) (until t : ℕ) (events : List (ℕ × Text)) (c : DedupCache)
    → Ordered t events
    → until ≤ t
    → Blocked key until events (run events c).0
unfolding run
Blocked-late key until t [] c o h = tt
Blocked-late key until t ((now, k) ∷ events) c o h = (
  (λ same early. absurd (omega arith)),
  Blocked-late key until now events (check_and_record now k c).1 o.1 (omega arith),
)

fresh_early : (now at ttl : ℕ) → at ≤ now → now < at + ttl → fresh now ttl at ≡ true
fresh_early now at ttl h k = ground arith

late_le : (now until : ℕ) → ltb now until ≡ false → until ≤ now
late_le now until h = ground arith

module _ (key : Text) (at : ℕ) where
  last_seen_early :
      (now : ℕ) (c : DedupCache)
      → at ≤ now
      → now < at + c.ttl
      → lookup key c.seen ≡ some at
      → last_seen now key c ≡ some at
  unfolding last_seen
  last_seen_early now c h k e = rw (e, filter_option, fresh_early now at c.ttl h k)

  kept_early :
      (now : ℕ) (k : Text) (c : DedupCache)
      → ((check_and_record now k c).0 ≡ not (is_some (last_seen now k c)))
      → (lookup key (check_and_record now k c).1.seen
          ≡ (if (check_and_record now k c).0 && k == key then some now else last_seen now key c))
      → last_seen now key c ≡ some at
      → lookup key (check_and_record now k c).1.seen ≡ some at
  kept_early now k c verdict kept seen = elim (Bool-cases (k == key)) [
    | inr other ↦ kept ∙ ground arith
    | inl same ↦ kept ∙ ground (arith, eq_iff k key)
  ]

  Blocked-while :
      (t : ℕ) (events : List (ℕ × Text)) (c : DedupCache)
      → Distinct c.seen
      → Ordered t events
      → at ≤ t
      → lookup key c.seen ≡ some at
      → Blocked key (at + c.ttl) events (run events c).0
  unfolding run
  Blocked-while t [] c d o h e = tt
  Blocked-while t ((now, k) ∷ events) c d o h e =
      let (verdict, kept, d', same_ttl) = check_and_record_exact now k c d in
      elim (Bool-cases (ltb now (at + c.ttl))) [
        | inr late ↦ (
          (λ same early. absurd (omega (arith, late_le now (at + c.ttl) late))),
          Blocked-late key (at + c.ttl) now events (check_and_record now k c).1 o.1
              (late_le now (at + c.ttl) late),
        )
        | inl early ↦ (
          (λ same now_early.
              let seen : last_seen now k c ≡ some at =
                rw same (last_seen_early now c (omega arith) now_early e) in
              verdict ∙ ap (λ (o : Option ℕ). not (is_some o)) seen),
          subst (λ ttl. Blocked key (at + ttl) events (run events (check_and_record now k c).1).0)
              same_ttl
              (Blocked-while now events (check_and_record now k c).1 d' o.1 (omega arith) (
                kept_early now k c verdict (kept key)
                  (last_seen_early now c (omega arith) (ground arith) e))),
        )
      ]

-- Within the lifetime of a key, a check of any key leaves the time recorded for it alone, and a check
-- of the key itself says that it was seen.
pub check_and_record_early :
    (key : Text) (at now : ℕ) (k : Text) (c : DedupCache)
    → Distinct c.seen
    → at ≤ now
    → now < at + c.ttl
    → lookup key c.seen ≡ some at
    → (lookup key (check_and_record now k c).1.seen ≡ some at)
      × ((check_and_record now key c).0 ≡ false)
check_and_record_early key at now k c d h early seen =
    let (verdict, kept, d', same_ttl) = check_and_record_exact now k c d in
    let last = last_seen_early key at now c h early seen in
    (
      kept_early key at now k c verdict (kept key) last,
      (check_and_record_exact now key c d).0 ∙ ap (λ (o : Option ℕ). not (is_some o)) last,
    )

-- Once a key is let through, no delivery with that key is let through again before its lifetime is
-- over, whatever other deliveries come between, as long as the clock does not run backwards.
pub no_repeat :
    (key : Text) (now : ℕ) (c : DedupCache) (events : List (ℕ × Text))
    → Distinct c.seen
    → (check_and_record now key c).0 ≡ true
    → Ordered now events
    → Blocked key (now + c.ttl) events (run events (check_and_record now key c).1).0
no_repeat key now c events d first o =
    let (verdict, kept, d', same_ttl) = check_and_record_exact now key c d in
    subst (λ ttl. Blocked key (now + ttl) events (run events (check_and_record now key c).1).0)
      same_ttl
      (Blocked-while key now now events (check_and_record now key c).1 d' o (omega arith)
        (kept key ∙ ground (arith, eq_refl key)))
