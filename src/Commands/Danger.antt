-- ===== src/Commands/Danger.antt =====
-- gateway/src/router/commands.rs: which shell commands are blocked, and how output is cut.
use ilink_gateway.Prelude.{◌≡◌, ◌⊎◌, inl, inr, refl, true, List, [], ◌∷◌, ◌++◌, arith, Bool-cases}
use ilink_gateway.Text.{Text}
use ilink_gateway.Text.Search.{
  contains_text, to_lowercase, to_ascii_lowercase, is_ascii, LowerTable, contains-append,
  contains-split, to_lowercase-append, to_lowercase_ascii,
}
use ilink_gateway.Commands.{dangerous_patterns, contains_any, is_dangerous_command}

-- The text stands in the list.
abbrev pub Among : Text → List Text → Type 0
Among p [] = ⊥
Among p (q ∷ ps) = (p ≡ q) ⊎ Among p ps

contains_any-Among :
    (p : Text) (ps : List Text) (s : Text)
    → Among p ps
    → contains_text p s ≡ true
    → contains_any ps s ≡ true
unfolding contains_any
contains_any-Among p [] s a h = absurd a
contains_any-Among p (q ∷ ps) s (inl e) h = rw (← e, h)
contains_any-Among p (q ∷ ps) s (inr a) h = ground (arith, contains_any-Among p ps s a h)

any-found :
    (ps : List Text) (s : Text)
    → contains_any ps s ≡ true
    → (p : Text) × Among p ps × (contains_text p s ≡ true)
unfolding contains_any
any-found [] s h = cc
any-found (q ∷ ps) s h = elim (Bool-cases (contains_text q s)) [
  | inl here ↦ (q, inl refl, here)
  | inr later ↦ let (p, a, f) = any-found ps s (rw later at h) in (p, inr a, f)
]

-- A command that holds a dangerous pattern is blocked, whatever stands around the pattern and
-- whatever the case of its ASCII letters.
pub dangerous-blocked :
    (table : LowerTable) (before middle after pattern : Text)
    → Among pattern dangerous_patterns
    → is_ascii middle ≡ true
    → to_ascii_lowercase middle ≡ pattern
    → is_dangerous_command table (before ++ (middle ++ after)) ≡ true
unfolding is_dangerous_command
dangerous-blocked table before middle after pattern a plain e =
    contains_any-Among pattern dangerous_patterns _ a (
      rw
        (
          to_lowercase-append table before (middle ++ after),
          to_lowercase-append table middle after,
          to_lowercase_ascii table middle plain,
          e,
        )
        (contains-append pattern (to_lowercase table before) (to_lowercase table after)))

-- A command is blocked only if its lower case holds one of the patterns.
pub blocked-dangerous :
    (table : LowerTable) (c : Text)
    → is_dangerous_command table c ≡ true
    → (p : Text) × Among p dangerous_patterns
      × (a : Text) × (b : Text) × (to_lowercase table c ≡ a ++ (p ++ b))
unfolding is_dangerous_command
blocked-dangerous table c h =
    let (p, among, found) = any-found dangerous_patterns (to_lowercase table c) h in
    let (a, b, e) = contains-split p (to_lowercase table c) found in (p, among, a, b, e)
