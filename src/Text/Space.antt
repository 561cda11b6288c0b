-- ===== src/Text/Space.antt =====
-- `char::is_whitespace`, `str::trim`, `str::split_whitespace` and `[&str]::join`.
use ilink_gateway.Prelude.{
  ℕ, ◌≡◌, refl, ap, ◌∙◌, Bool, true, false, not, ◌&&◌, ◌||◌, List, [], ◌∷◌, ◌++◌, append-nil, arith,
  leb, nat_eq, if◌then◌else◌, all,
}
use ilink_gateway.Text.{Text}

-- The characters with the Unicode property White_Space.
unfoldable pub is_whitespace : ℕ → Bool
is_whitespace c =
    (leb 9 c && leb c 13)
    || nat_eq c 32
    || nat_eq c 0x85
    || nat_eq c 0xa0
    || nat_eq c 0x1680
    || (leb 0x2000 c && leb c 0x200a)
    || nat_eq c 0x2028
    || nat_eq c 0x2029
    || nat_eq c 0x202f
    || nat_eq c 0x205f
    || nat_eq c 0x3000

unfoldable pub trim_start : Text → Text
trim_start [] = []
trim_start (c ∷ s) = let rest = trim_start s in if is_whitespace c then rest else c ∷ s

-- A blank character stays only if something that is not blank follows it.
abbrev pub end_with : ℕ → Text → Text
end_with c [] = if is_whitespace c then [] else c ∷ []
end_with c (d ∷ s) = c ∷ d ∷ s

unfoldable pub trim_end : Text → Text
trim_end [] = []
trim_end (c ∷ s) = end_with c (trim_end s)

unfoldable pub trim : Text → Text
unfolding trim_start trim_end
trim s = trim_end (trim_start s)

-- A word joins the list unless it is empty.
abbrev pub flush : Text → List Text → List Text
flush [] ws = ws
flush (c ∷ w) ws = (c ∷ w) ∷ ws

-- The word that stands at the head of the text, perhaps empty, and the words behind it.
abbrev pub extend : ℕ → Text × List Text → Text × List Text
extend c (w, ws) = if is_whitespace c then ([], flush w ws) else (c ∷ w, ws)

unfoldable pub fields : Text → Text × List Text
fields [] = ([], [])
fields (c ∷ s) = extend c (fields s)

unfoldable pub split_whitespace : Text → List Text
unfolding fields
split_whitespace s = let (w, ws) = fields s in flush w ws

unfoldable pub join : Text → List Text → Text
join sep [] = []
join sep (w ∷ []) = w
join sep (w ∷ v ∷ ws) = w ++ (sep ++ join sep (v ∷ ws))

-- A word: not empty, and with no blank character.
abbrev pub no_blank : Text → Bool
no_blank = all (λ c. not (is_whitespace c))

abbrev pub IsWord : Text → Type 0
IsWord [] = ⊥
IsWord (c ∷ w) = no_blank (c ∷ w) ≡ true

abbrev pub AllWords : List Text → Type 0
AllWords [] = Unit
AllWords (w ∷ ws) = IsWord w × AllWords ws

fields-word :
    (w : Text) (s : Text) → no_blank w ≡ true → fields (w ++ s) ≡ (w ++ (fields s).0, (fields s).1)
unfolding fields
fields-word [] s h = refl
fields-word (c ∷ w) s h = ground (arith, fields-word w s)

space_blank : is_whitespace 32 ≡ true
unfolding is_whitespace
space_blank = refl

fields-space : (s : Text) → fields (32 ∷ s) ≡ ([], flush (fields s).0 (fields s).1)
unfolding fields
fields-space s = rw space_blank

flush-word : (w : Text) (ws : List Text) → IsWord w → flush w ws ≡ w ∷ ws
flush-word [] ws h = absurd h
flush-word (c ∷ w) ws h = refl

IsWord-no_blank : (w : Text) → IsWord w → no_blank w ≡ true
IsWord-no_blank [] h = absurd h
IsWord-no_blank (c ∷ w) h = h

fields_word : (w : Text) → no_blank w ≡ true → fields w ≡ (w, [])
unfolding fields
fields_word [] h = refl
fields_word (c ∷ w) h = ground (arith, fields_word w)

fields-join :
    (w : Text) (ws : List Text) → AllWords (w ∷ ws) → fields (join (32 ∷ []) (w ∷ ws)) ≡ (w, ws)
unfolding join
fields-join w [] h = fields_word w (IsWord-no_blank w h.0)
fields-join w (v ∷ ws) h = rw (
  fields-word w (32 ∷ join (32 ∷ []) (v ∷ ws)) (IsWord-no_blank w h.0),
  fields-space,
  fields-join v ws h.1,
  flush-word v ws h.1.0,
  append-nil,
)

-- Words joined by single spaces are split again into the same words.
pub split-join : (ws : List Text) → AllWords ws → split_whitespace (join (32 ∷ []) ws) ≡ ws
unfolding split_whitespace
split-join [] h = unfold join in refl
split-join (w ∷ ws) h = rw (fields-join w ws h, flush-word w ws h.0)

extend-AllWords :
    (c : ℕ) (p : Text × List Text)
    → no_blank p.0 ≡ true
    → AllWords p.1
    → (no_blank (extend c p).0 ≡ true) × AllWords (extend c p).1
extend-AllWords c ([], ws) h k = ground arith
extend-AllWords c ((d ∷ w), ws) h k = ground arith

fields-AllWords : (s : Text) → (no_blank (fields s).0 ≡ true) × AllWords (fields s).1
unfolding fields
fields-AllWords [] = (refl, tt)
fields-AllWords (c ∷ s) = extend-AllWords c (fields s) (fields-AllWords s).0 (fields-AllWords s).1

flush-AllWords :
    (w : Text) (ws : List Text) → no_blank w ≡ true → AllWords ws → AllWords (flush w ws)
flush-AllWords [] ws h k = k
flush-AllWords (c ∷ w) ws h k = (h, k)

-- What the split returns are words.
pub split_whitespace-AllWords : (s : Text) → AllWords (split_whitespace s)
unfolding split_whitespace
split_whitespace-AllWords s =
    flush-AllWords (fields s).0 (fields s).1 (fields-AllWords s).0 (fields-AllWords s).1

extend_blank : (c : ℕ) → is_whitespace c ≡ true → extend c ([], []) ≡ ([], [])
extend_blank c h = ground arith

fields-end_with : (c : ℕ) (s : Text) → fields (end_with c s) ≡ extend c (fields s)
unfolding fields
fields-end_with c [] = ground arith
fields-end_with c (d ∷ s) = refl

fields-trim_end : (s : Text) → fields (trim_end s) ≡ fields s
unfolding fields trim_end
fields-trim_end [] = refl
fields-trim_end (c ∷ s) = fields-end_with c (trim_end s) ∙ ap (extend c) (fields-trim_end s)

-- Trimming behind a first character that is no blank changes no word.
pub split-trim_end : (s : Text) → split_whitespace (trim_end s) ≡ split_whitespace s
unfolding split_whitespace
split-trim_end s = rw (fields-trim_end s)

end_with_solid : (c : ℕ) (s : Text) → is_whitespace c ≡ false → end_with c s ≡ c ∷ s
end_with_solid c [] h = rw h
end_with_solid c (d ∷ s) h = refl

pub trim_solid : (c : ℕ) (s : Text) → is_whitespace c ≡ false → trim (c ∷ s) ≡ c ∷ trim_end s
unfolding trim
trim_solid c s h = rw (h, end_with_solid c (trim_end s) h)
