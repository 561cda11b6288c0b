-- ===== src/Text/Number.antt =====
-- Decimal numbers: `to_string` of integers and `parse::<u64>`.
use ilink_gateway.Prelude.{
  ℕ, zero, suc, ◌+◌, ◌-◌, ◌*◌, ◌/◌, ◌%◌, ◌^◌, ◌<◌, ◌≡◌, inl, inr, refl, sym, ap, ◌∙◌, Bool, true,
  ◌&&◌, Option, none, some, [], ◌∷◌, arith, ltb, leb, nat_eq, if◌then◌else◌, all, Bool-cases, ℤ,
  pos, negsuc,
}
use ilink_gateway.Text.{Text}

unfoldable pub is_digit : ℕ → Bool
is_digit c = leb b'0' c && leb c b'9'

-- 2 ^ 64: the first number that a u64 cannot hold.
abbrev pub u64_limit : ℕ
u64_limit = 2 ^ 64

-- The digits of the loop of `from_str_radix`, with its overflow checks.
unfoldable pub read_digits : ℕ → Text → Option ℕ
unfolding is_digit
read_digits n [] = some n
read_digits n (c ∷ s) =
    let m = n * 10 + (c - b'0') in
    let rest = read_digits m s in
    if is_digit c then (if ltb m u64_limit then rest else none) else none

-- `s.parse::<u64>()`: an optional plus sign and at least one digit.
abbrev pub read_unsigned : Text → Option ℕ
read_unsigned [] = none
read_unsigned (c ∷ s) = read_digits 0 (c ∷ s)

unfoldable pub parse_u64 : Text → Option ℕ
unfolding read_digits
parse_u64 [] = none
parse_u64 (c ∷ s) = if nat_eq c b'+' then read_unsigned s else read_digits 0 (c ∷ s)

-- The decimal digits of `n` in front of `acc`; the fuel bounds the number of digits.
unfoldable pub digits_onto : ℕ → ℕ → Text → Text
digits_onto zero n acc = acc
digits_onto (suc f) n acc =
    let rest = digits_onto f (n / 10) ((b'0' + n % 10) ∷ acc) in
    if ltb n 10 then (b'0' + n) ∷ acc else rest

unfoldable pub show_nat : ℕ → Text
unfolding digits_onto
show_nat n = digits_onto (suc n) n []

read_digits_step :
    (n : ℕ) (acc : Text)
    → n < u64_limit
    → read_digits (n / 10) ((b'0' + n % 10) ∷ acc) ≡ read_digits n acc
unfolding read_digits
read_digits_step n acc h =
    let e : n / 10 * 10 + (b'0' + n % 10 - b'0') ≡ n = omega arith in rw e (ground arith)

read_digits_small :
    (n : ℕ) (acc : Text) → n < 10 → read_digits 0 ((b'0' + n) ∷ acc) ≡ read_digits n acc
unfolding read_digits
read_digits_small n acc h =
    let e : 0 * 10 + (b'0' + n - b'0') ≡ n = omega arith in rw e (ground arith)

read-digits_onto :
    (f n : ℕ) (acc : Text)
    → n < f
    → n < u64_limit
    → read_digits 0 (digits_onto f n acc) ≡ read_digits n acc
unfolding digits_onto
read-digits_onto zero n acc h k = absurd (omega arith)
read-digits_onto (suc f) n acc h k = elim (Bool-cases (ltb n 10)) [
  | inl small ↦ rw small (read_digits_small n acc (ground arith))
  | inr large ↦ rw large (
      read-digits_onto f (n / 10) ((b'0' + n % 10) ∷ acc) (ground arith) (omega arith)
      ∙ read_digits_step n acc k)
]

read_digits_nil : (n : ℕ) → read_digits n [] ≡ some n
unfolding read_digits
read_digits_nil n = refl

digits_onto-head :
    (f n : ℕ) (acc : Text)
    → n < f
    → (c : ℕ) × (s : Text) × (digits_onto f n acc ≡ c ∷ s) × (is_digit c ≡ true)
unfolding digits_onto is_digit
digits_onto-head zero n acc h = absurd (omega arith)
digits_onto-head (suc f) n acc h = elim (Bool-cases (ltb n 10)) [
  | inl small ↦ (b'0' + n, acc, rw small, ground arith)
  | inr large ↦ rw large (digits_onto-head f (n / 10) ((b'0' + n % 10) ∷ acc) (ground arith))
]

parse_u64-digit : (c : ℕ) (s : Text) → is_digit c ≡ true → parse_u64 (c ∷ s) ≡ read_digits 0 (c ∷ s)
unfolding parse_u64 is_digit
parse_u64-digit c s h = ground arith

-- A printed number below 2 ^ 64 is read back.
pub parse_u64-show_nat : (n : ℕ) → n < u64_limit → parse_u64 (show_nat n) ≡ some n
unfolding show_nat
parse_u64-show_nat n h =
    let (c, s, e, d) = digits_onto-head (suc n) n [] (omega arith) in
    ap parse_u64 e
    ∙ parse_u64-digit c s d
    ∙ ap (read_digits 0) (sym e)
    ∙ read-digits_onto (suc n) n [] (omega arith) h
    ∙ read_digits_nil n

-- No number above the range is ever read.
read_digits-lt : (s : Text) (n m : ℕ) → n < u64_limit → read_digits n s ≡ some m → m < u64_limit
unfolding read_digits
read_digits-lt [] n m h e = ground arith
read_digits-lt (c ∷ s) n m h e = ground (arith, read_digits-lt s (n * 10 + (c - b'0')) m)

pub parse_u64-lt : (s : Text) (n : ℕ) → parse_u64 s ≡ some n → n < u64_limit
unfolding parse_u64
parse_u64-lt [] n e = cc
parse_u64-lt (c ∷ []) n e = ground (arith, read_digits-lt (c ∷ []) 0 n)
parse_u64-lt (c ∷ d ∷ s) n e =
    ground (arith, read_digits-lt (c ∷ d ∷ s) 0 n, read_digits-lt (d ∷ s) 0 n)

all-digits_onto :
    (f n : ℕ) (acc : Text) → all is_digit acc ≡ true → all is_digit (digits_onto f n acc) ≡ true
unfolding digits_onto is_digit
all-digits_onto zero n acc h = h
all-digits_onto (suc f) n acc h = ground (arith, all-digits_onto f (n / 10) ((b'0' + n % 10) ∷ acc))

pub show_nat_digits : (n : ℕ) → all is_digit (show_nat n) ≡ true
unfolding show_nat
show_nat_digits n = all-digits_onto (suc n) n [] refl

pub show_nat-injective : (n m : ℕ) → n < u64_limit → m < u64_limit → show_nat n ≡ show_nat m → n ≡ m
show_nat-injective n m h k e = cc (parse_u64-show_nat n h, parse_u64-show_nat m k, e)

-- `i64::to_string`
unfoldable pub show_int : ℤ → Text
unfolding show_nat
show_int (pos n) = show_nat n
show_int (negsuc n) = b'-' ∷ show_nat (n + 1)

-- A printed number is not empty.
pub show_nat-cons : (n : ℕ) → (c : ℕ) × (s : Text) × (show_nat n ≡ c ∷ s)
unfolding show_nat
show_nat-cons n = let (c, s, e, d) = digits_onto-head (suc n) n [] (omega arith) in (c, s, e)
