-- ===== src/Text.antt =====
-- Rust's `String` and `&str`, as the list of their Unicode scalar values.
pub mod Space
pub mod Search
pub mod Number
pub mod Utf8
use Prim.Native.Char.{code}
use ilink_gateway.Prelude.{
  ℕ, String, ◌≢◌, ◌≡◌, ◌↔◌, refl, Bool, true, false, ◌&&◌, List, [], ◌∷◌, arith, nat_eq,
}

abbrev pub Text : Type 0
Text = List ℕ

-- The characters of a literal.
abbrev pub codes : String → Text
codes String.[] = []
codes (String.◌∷◌ c s) = code c ∷ codes s

infix 50 ◌==◌
unfoldable pub ◌==◌ : Text → Text → Bool
[] == [] = true
(c ∷ s) == (d ∷ t) = nat_eq c d && s == t
_ == _ = false

pub eq→≡ : (s t : Text) → (s == t) ≡ true → s ≡ t
unfolding ◌==◌
eq→≡ [] [] h = refl
eq→≡ [] (d ∷ t) h = cc
eq→≡ (c ∷ s) [] h = cc
eq→≡ (c ∷ s) (d ∷ t) h = ground (arith, eq→≡ s t)

pub eq_refl : (s : Text) → (s == s) ≡ true
unfolding ◌==◌
eq_refl [] = refl
eq_refl (c ∷ s) = ground (arith, eq_refl s)

pub eq_iff : (s t : Text) → ((s == t) ≡ true) ↔ (s ≡ t)
eq_iff s t = (eq→≡ s t, λ e. rw e (eq_refl t))

pub eq_ne : (s t : Text) → s ≢ t → (s == t) ≡ false
eq_ne s t h = ground (arith, eq_iff s t)
