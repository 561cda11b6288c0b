-- ===== src/Text/Utf8.antt =====
-- The length of a text in UTF-8 bytes, and `String::truncate`.
use ilink_gateway.Prelude.{
  ℕ, zero, suc, ◌+◌, ◌-◌, ◌≤◌, ◌<◌, ◌≡◌, ◌⊎◌, inl, inr, refl, ap, true, false, Option, none, some,
  [], ◌∷◌, ◌++◌, arith, ltb, if◌then◌else◌, take, all, Bool-cases, List, length, all-append,
  length-append, ◌/◌, ◌%◌,
}
use ilink_gateway.Text.{Text}

-- `char::len_utf8`
unfoldable pub width : ℕ → ℕ
width c = if ltb c 0x80 then 1 else if ltb c 0x800 then 2 else if ltb c 0x10000 then 3 else 4

-- `str::len`
unfoldable pub byte_len : Text → ℕ
unfolding width
byte_len [] = 0
byte_len (c ∷ s) = width c + byte_len s

-- `String::truncate`: the text, if it is short enough; else its first `n` bytes. `none` is the
-- panic where byte `n` does not stand on a character boundary.
unfoldable pub truncate : ℕ → Text → Option Text
unfolding width
truncate zero s = some []
truncate (suc n) [] = some []
truncate (suc n) (c ∷ s) =
    let rest = truncate (suc n - width c) s in
    if ltb (suc n) (width c) then none else elim rest [ none ↦ none | some t ↦ some (c ∷ t) ]

pub width_pos : (c : ℕ) → (0 < width c) × (width c ≤ 4)
unfolding width
width_pos c = ground arith

pub truncate_step :
    (n : ℕ) (c : ℕ) (s : Text)
    → 0 < n
    → truncate n (c ∷ s) ≡ (
        if ltb n (width c)
        then none
        else elim (truncate (n - width c) s) [ none ↦ none | some t ↦ some (c ∷ t) ])
unfolding truncate
truncate_step zero c s h = elim h [ ]
truncate_step (suc n) c s h = refl

-- A cut at a character boundary leaves exactly the characters in front of it.
pub truncate-append : (t r : Text) → truncate (byte_len t) (t ++ r) ≡ some t
unfolding byte_len
truncate-append [] r = unfold truncate in refl
truncate-append (c ∷ t) r =
    let e : width c + byte_len t - width c ≡ byte_len t = omega arith in
    let far : ltb (width c + byte_len t) (width c) ≡ false = ground arith in
    rw (
      truncate_step (width c + byte_len t) c (t ++ r) (omega (arith, width_pos c)),
      far,
      e,
      truncate-append t r,
    )

-- A cut beyond the end changes nothing.
pub truncate_long : (n : ℕ) (s : Text) → byte_len s ≤ n → truncate n s ≡ some s
unfolding byte_len
truncate_long zero [] h = unfold truncate in refl
truncate_long (suc n) [] h = unfold truncate in refl
truncate_long n (c ∷ s) h =
    let far : ltb n (width c) ≡ false = ground arith in
    rw (
      truncate_step n c s (omega (arith, width_pos c)),
      far,
      truncate_long (n - width c) s (omega arith),
    )

some_cons : (c : ℕ) (t' t : Text) → ◌≡◌ {A = Option Text} (some (c ∷ t')) (some t) → c ∷ t' ≡ t
some_cons c t' t h = cc

truncate-split_cons :
    (n c : ℕ) (s t : Text)
    → ltb (suc n) (width c) ≡ false
    → (o : Option Text) → truncate (suc n - width c) s ≡ o
    → ((t' : Text)
        → truncate (suc n - width c) s ≡ some t'
        → (r : Text) × (s ≡ t' ++ r)
          × ((r ≡ []) ⊎ (byte_len t' ≡ suc n - width c))
          × (byte_len t' ≤ suc n - width c))
    → (elim o [ none ↦ none | some t' ↦ some (c ∷ t') ]) ≡ some t
    → (r : Text) × (c ∷ s ≡ t ++ r) × ((r ≡ []) ⊎ (byte_len t ≡ suc n)) × (byte_len t ≤ suc n)
unfolding byte_len
truncate-split_cons n c s t fits none e ih h = cc
truncate-split_cons n c s t fits (some t') e ih h =
    let (r, split, whole, bound) = ih t' e in
    rw (← some_cons c t' t h) (
      r,
      ap (◌∷◌ c) split,
      elim whole [ inl all_kept ↦ inl all_kept | inr exact ↦ inr (ground arith) ],
      ground arith,
    )

-- What a cut leaves is a first part of the text: all of it, or one of exactly `n` bytes.
pub truncate-split :
    (n : ℕ) (s t : Text)
    → truncate n s ≡ some t
    → (r : Text) × (s ≡ t ++ r) × ((r ≡ []) ⊎ (byte_len t ≡ n)) × (byte_len t ≤ n)
unfolding truncate byte_len
truncate-split zero s [] h = (s, refl, inr refl, omega arith)
truncate-split zero s (d ∷ t) h = cc
truncate-split (suc n) [] [] h = ([], refl, inl refl, omega arith)
truncate-split (suc n) [] (d ∷ t) h = cc
truncate-split (suc n) (c ∷ s) t h = elim (Bool-cases (ltb (suc n) (width c))) [
  | inl short ↦ ground arith
  | inr fits ↦
      truncate-split_cons n c s t fits (truncate (suc n - width c) s) refl
        (λ t' h'. truncate-split (suc n - width c) s t' h') (ground arith)
]

-- Where every character is one byte, a cut never fails.
pub truncate_ascii :
    (n : ℕ) (s : Text) → all (λ c. ltb c 128) s ≡ true → truncate n s ≡ some (take n s)
unfolding truncate width
truncate_ascii zero s h = refl
truncate_ascii (suc n) [] h = refl
truncate_ascii (suc n) (c ∷ s) h =
    let e : suc n - 1 ≡ n = omega arith in ground (arith, truncate_ascii n s)

pub byte_len-append : (s t : Text) → byte_len (s ++ t) ≡ byte_len s + byte_len t
unfolding byte_len
byte_len-append [] t = omega arith
byte_len-append (c ∷ s) t = omega (arith, byte_len-append s t)

pub byte_len-cons : (c : ℕ) (s : Text) → byte_len (c ∷ s) ≡ width c + byte_len s
unfolding byte_len
byte_len-cons c s = refl

-- A cut inside a character fails.
pub truncate_inside :
    (before : Text) (c : ℕ) (after : Text) (k : ℕ)
    → 0 < k
    → k < width c
    → truncate (byte_len before + k) (before ++ (c ∷ after)) ≡ none
unfolding byte_len
truncate_inside [] c after k h b =
    let short : ltb (0 + k) (width c) ≡ true = ground arith in
    rw (truncate_step (0 + k) c after (omega arith), short)
truncate_inside (d ∷ before) c after k h b =
    let e : width d + byte_len before + k - width d ≡ byte_len before + k = omega arith in
    let far : ltb (width d + byte_len before + k) (width d) ≡ false = ground arith in
    rw (
      truncate_step (width d + byte_len before + k) d (before ++ (c ∷ after))
          (omega (arith, width_pos d)),
      far,
      e,
      truncate_inside before c after k h b,
    )

-- The bytes of a character.
unfoldable pub char_bytes : ℕ → List ℕ
char_bytes c =
    if ltb c 128
    then c ∷ []
    else if ltb c 2048
    then (192 + c / 64 % 32) ∷ (128 + c % 64) ∷ []
    else if ltb c 65536
    then (224 + c / 4096 % 16) ∷ (128 + c / 64 % 64) ∷ (128 + c % 64) ∷ []
    else (240 + c / 262144 % 8) ∷ (128 + c / 4096 % 64) ∷ (128 + c / 64 % 64) ∷ (128 + c % 64) ∷ []

-- `str::bytes`
unfoldable pub utf8 : Text → List ℕ
unfolding char_bytes
utf8 [] = []
utf8 (c ∷ s) = char_bytes c ++ utf8 s

char_bytes-bytes :
    (c : ℕ) → (all (λ b. ltb b 256) (char_bytes c) ≡ true) × (length (char_bytes c) ≡ width c)
unfolding char_bytes width
char_bytes-bytes c = ground arith

-- The bytes of a text are bytes, and as many as its length counts.
pub utf8-bytes :
    (s : Text) → (all (λ b. ltb b 256) (utf8 s) ≡ true) × (length (utf8 s) ≡ byte_len s)
unfolding utf8 byte_len
utf8-bytes [] = (refl, refl)
utf8-bytes (c ∷ s) = ground (
  arith,
  all-append (λ b. ltb b 256) (char_bytes c) (utf8 s),
  length-append (char_bytes c) (utf8 s),
  char_bytes-bytes c,
  utf8-bytes s,
)
