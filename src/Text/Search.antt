-- ===== src/Text/Search.antt =====
-- `starts_with`, `ends_with`, `contains` of `str`, and lower case.
use ilink_gateway.Prelude.{
  ℕ, ◌+◌, ◌≡◌, inl, inr, refl, ap, Bool, true, false, ◌&&◌, ◌||◌, [], ◌∷◌, ◌++◌, map, append_assoc,
  arith, ltb, leb, nat_eq, if◌then◌else◌, all, Bool-cases,
}
use ilink_gateway.Text.{Text, ◌==◌}

unfoldable pub starts_with : Text → Text → Bool
starts_with [] s = true
starts_with (c ∷ p) [] = false
starts_with (c ∷ p) (d ∷ s) = nat_eq c d && starts_with p s

unfoldable pub contains_text : Text → Text → Bool
unfolding starts_with
contains_text p [] = starts_with p []
contains_text p (d ∷ s) = starts_with p (d ∷ s) || contains_text p s

unfoldable pub ends_with : Text → Text → Bool
ends_with p [] = p == []
ends_with p (d ∷ s) = p == (d ∷ s) || ends_with p s

-- `u8::to_ascii_lowercase`, on a character.
unfoldable pub ascii_lower : ℕ → ℕ
ascii_lower c = if leb b'A' c && leb c b'Z' then c + 32 else c

-- `str::to_ascii_lowercase`.
unfoldable pub to_ascii_lowercase : Text → Text
unfolding ascii_lower
to_ascii_lowercase = map ascii_lower

-- `str::to_lowercase`. The table gives the lower case of a character that is not ASCII.
abbrev pub LowerTable : Type 0
LowerTable = ℕ → Text

unfoldable pub lower_char : LowerTable → ℕ → Text
unfolding ascii_lower
lower_char table c = if ltb c 128 then ascii_lower c ∷ [] else table c

unfoldable pub to_lowercase : LowerTable → Text → Text
unfolding lower_char
to_lowercase table [] = []
to_lowercase table (c ∷ s) = lower_char table c ++ to_lowercase table s

pub starts_with-append : (p s : Text) → starts_with p (p ++ s) ≡ true
unfolding starts_with
starts_with-append [] s = refl
starts_with-append (c ∷ p) s = ground (arith, starts_with-append p s)

contains-starts_with : (p s : Text) → starts_with p s ≡ true → contains_text p s ≡ true
unfolding contains_text
contains-starts_with p [] h = h
contains-starts_with p (d ∷ s) h = rw h

-- A text contains each of its parts.
pub contains-append : (p a b : Text) → contains_text p (a ++ (p ++ b)) ≡ true
unfolding contains_text
contains-append p [] b = contains-starts_with p (p ++ b) (starts_with-append p b)
contains-append p (d ∷ a) b = ground (arith, contains-append p a b)

pub starts_with-split : (p s : Text) → starts_with p s ≡ true → (r : Text) × (s ≡ p ++ r)
unfolding starts_with
starts_with-split [] s h = (s, refl)
starts_with-split (c ∷ p) [] h = cc
starts_with-split (c ∷ p) (d ∷ s) h =
    let (r, e) = starts_with-split p s (ground arith) in (r, ground arith)

-- What is found is a part of the text.
pub contains-split :
    (p s : Text) → contains_text p s ≡ true → (a : Text) × (b : Text) × (s ≡ a ++ (p ++ b))
unfolding contains_text
contains-split p [] h = let (r, e) = starts_with-split p [] h in ([], r, e)
contains-split p (d ∷ s) h = elim (Bool-cases (starts_with p (d ∷ s))) [
  | inl here ↦ let (r, e) = starts_with-split p (d ∷ s) here in ([], r, e)
  | inr later ↦ let (a, b, e) = contains-split p s (ground arith) in (d ∷ a, b, ap (◌∷◌ d) e)
]

pub to_lowercase-append :
    (table : LowerTable) (s t : Text)
    → to_lowercase table (s ++ t) ≡ to_lowercase table s ++ to_lowercase table t
unfolding to_lowercase
to_lowercase-append table [] t = refl
to_lowercase-append table (c ∷ s) t = rw (to_lowercase-append table s t, append_assoc)

abbrev pub is_ascii : Text → Bool
is_ascii = all (λ c. ltb c 128)

pub to_lowercase_ascii :
    (table : LowerTable) (s : Text)
    → is_ascii s ≡ true
    → to_lowercase table s ≡ to_ascii_lowercase s
unfolding to_lowercase to_ascii_lowercase
to_lowercase_ascii table [] h = refl
to_lowercase_ascii table (c ∷ s) h = ground (arith, to_lowercase_ascii table s)
