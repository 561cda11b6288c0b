-- ===== src/Media/Cipher.antt =====
-- The chunks of gateway/src/ilink/media.rs: a cipher that works on blocks, over whole data.
use ilink_gateway.Prelude.{
  ℕ, zero, suc, ◌-◌, ◌*◌, ◌≤◌, ◌<◌, ◌≡◌, refl, sym, ap, ap₂, ◌∙◌, [], ◌∷◌, ◌++◌, append-nil, arith,
  length, take, drop, length-append,
}
use ilink_gateway.Media.{Bytes, map_blocks, fill_block}

take_append : (s t : Bytes) → take (length s) (s ++ t) ≡ s
take_append [] t = refl
take_append (b ∷ s) t = ap (λ (x : Bytes). b ∷ x) (take_append s t)

drop_append : (s t : Bytes) → drop (length s) (s ++ t) ≡ t
drop_append [] t = refl
drop_append (b ∷ s) t = drop_append s t

pub take-append : (n : ℕ) (s t : Bytes) → length s ≡ n → take n (s ++ t) ≡ s
take-append n s t h = rw (← h) (take_append s t)

pub drop-append : (n : ℕ) (s t : Bytes) → length s ≡ n → drop n (s ++ t) ≡ t
drop-append n s t h = rw (← h) (drop_append s t)

take-drop : (n : ℕ) (s : Bytes) → take n s ++ drop n s ≡ s
take-drop zero s = refl
take-drop (suc n) [] = refl
take-drop (suc n) (b ∷ s) = ap (λ (x : Bytes). b ∷ x) (take-drop n s)

length-take : (n : ℕ) (s : Bytes) → n ≤ length s → length (take n s) ≡ n
length-take zero s h = refl
length-take (suc n) [] h = absurd (omega arith)
length-take (suc n) (b ∷ s) h = ap suc (length-take n s (omega arith))

length-drop : (n : ℕ) (s : Bytes) → length (drop n s) ≡ length s - n
length-drop zero s = omega arith
length-drop (suc n) [] = omega arith
length-drop (suc n) (b ∷ s) = omega (arith, length-drop n s)

map_blocks-step :
    (f : Bytes → Bytes) (fuel : ℕ) (s : Bytes)
    → 0 < length s
    → map_blocks f (suc fuel) s ≡ f (take 16 s) ++ map_blocks f fuel (drop 16 s)
unfolding map_blocks
map_blocks-step f fuel [] h = absurd (omega arith)
map_blocks-step f fuel (b ∷ s) h = refl

map_blocks-nil :
    (f : Bytes → Bytes) (fuel : ℕ) (s : Bytes) → length s ≡ 0 → map_blocks f fuel s ≡ []
unfolding map_blocks
map_blocks-nil f zero s h = refl
map_blocks-nil f (suc fuel) [] h = refl
map_blocks-nil f (suc fuel) (b ∷ s) h = absurd (omega arith)

length_nil : (s : Bytes) → length s ≡ 0 → s ≡ []
length_nil [] h = refl
length_nil (b ∷ s) h = absurd (omega arith)

pub fill_full : (s : Bytes) → length s ≡ 16 → fill_block s ≡ s
unfolding fill_block
fill_full s h = rw (h, append-nil) refl

module _ (f g : Bytes → Bytes) (keeps : (b : Bytes) → length b ≡ 16 → length (f b) ≡ 16) where
  -- Whole blocks stay as many.
  pub length-map_blocks :
      (k fuel : ℕ) (s : Bytes)
      → length s ≡ k * 16
      → k ≤ fuel
      → length (map_blocks f fuel s) ≡ k * 16
  length-map_blocks zero fuel s h b = ap length (map_blocks-nil f fuel s h)
  length-map_blocks (suc k) zero s h b = absurd (omega arith)
  length-map_blocks (suc k) (suc fuel) s h b =
      ap length (map_blocks-step f fuel s (omega arith))
      ∙ length-append (f (take 16 s)) (map_blocks f fuel (drop 16 s))
      ∙ omega (
        arith,
        keeps (take 16 s) (length-take 16 s (omega arith)),
        length-map_blocks k fuel (drop 16 s) (omega (arith, length-drop 16 s)) (omega arith),
      )

  module _ (back : (b : Bytes) → length b ≡ 16 → g (fill_block (f b)) ≡ b) where
    -- A function of blocks is undone by the function that undoes it on one block.
    pub map_blocks-inverse :
        (k fuel fuel' : ℕ) (s : Bytes)
        → length s ≡ k * 16
        → k ≤ fuel
        → k ≤ fuel'
        → map_blocks (λ chunk. g (fill_block chunk)) fuel' (map_blocks f fuel s) ≡ s
    map_blocks-inverse zero fuel fuel' s h b c =
        map_blocks-nil _ fuel' (map_blocks f fuel s) (ap length (map_blocks-nil f fuel s h))
        ∙ sym (length_nil s h)
    map_blocks-inverse (suc k) zero fuel' s h b c = absurd (omega arith)
    map_blocks-inverse (suc k) (suc fuel) zero s h b c = absurd (omega arith)
    map_blocks-inverse (suc k) (suc fuel) (suc fuel') s h b c =
        let e = keeps (take 16 s) (length-take 16 s (omega arith)) in
        let first = f (take 16 s) in
        let rest = map_blocks f fuel (drop 16 s) in
        ap (map_blocks (λ chunk. g (fill_block chunk)) (suc fuel'))
          (map_blocks-step f fuel s (omega arith))
        ∙ map_blocks-step (λ chunk. g (fill_block chunk)) fuel' (first ++ rest)
            (omega (arith, length-append first rest))
        ∙ ap₂
            (λ (x y : Bytes).
              g (fill_block x) ++ map_blocks (λ chunk. g (fill_block chunk)) fuel' y)
            (take-append 16 first rest e) (drop-append 16 first rest e)
        ∙ ap₂ (λ (x y : Bytes). x ++ y) (back (take 16 s) (length-take 16 s (omega arith)))
            (map_blocks-inverse k fuel fuel' (drop 16 s) (omega (arith, length-drop 16 s))
              (omega arith) (omega arith))
        ∙ take-drop 16 s
