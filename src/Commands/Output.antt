-- ===== src/Commands/Output.antt =====
-- gateway/src/router/commands.rs: how the output of a shell command is cut.
use ilink_gateway.Prelude.{
  ℕ, ◌+◌, ◌≤◌, ◌<◌, ◌≡◌, true, none, some, ◌∷◌, ◌++◌, arith, ltb, if◌then◌else◌, take, all,
}
use ilink_gateway.Text.{Text, codes}
use ilink_gateway.Text.Utf8.{
  width, byte_len, truncate, byte_len-append, byte_len-cons, width_pos, truncate_inside,
  truncate-append, truncate_ascii,
}
use ilink_gateway.Error.{ok, panic}
use ilink_gateway.Commands.{limit_output}

-- The end of an output that was cut.
abbrev pub cut_note : Text
cut_note = codes "... (truncated)"

-- An output within the limit is returned whole.
pub limit_output_short : (max : ℕ) (s : Text) → byte_len s ≤ max → limit_output max s ≡ ok s
unfolding limit_output
limit_output_short max s h = ground arith

limit_output_cut :
    (max : ℕ) (s t : Text)
    → max < byte_len s
    → truncate max s ≡ some t
    → limit_output max s ≡ ok (t ++ cut_note)
unfolding limit_output
limit_output_cut max s t h e = ground arith

limit_output_broken :
    (max : ℕ) (s : Text) → max < byte_len s → truncate max s ≡ none → limit_output max s ≡ panic
unfolding limit_output
limit_output_broken max s h e = ground arith

-- The first characters of an output, if they are exactly as long as the limit, are what is left of
-- a longer output, with the note behind them.
pub limit_output-append :
    (kept : Text) (c : ℕ) (rest : Text)
    → limit_output (byte_len kept) (kept ++ (c ∷ rest)) ≡ ok (kept ++ cut_note)
limit_output-append kept c rest =
    limit_output_cut _ _ kept
      (omega (arith, byte_len-append kept (c ∷ rest), byte_len-cons c rest, width_pos c))
      (truncate-append kept (c ∷ rest))

-- The cut panics whenever the limit falls inside a character of the output.
pub limit_output_panics :
    (before : Text) (c : ℕ) (after : Text) (k : ℕ)
    → 0 < k
    → k < width c
    → limit_output (byte_len before + k) (before ++ (c ∷ after)) ≡ panic
limit_output_panics before c after k h b =
    limit_output_broken _ _
      (omega (arith, byte_len-append before (c ∷ after), byte_len-cons c after))
      (truncate_inside before c after k h b)

-- An ASCII output of any length is never cut inside a character.
pub limit_output_ascii :
    (max : ℕ) (s : Text)
    → all (λ c. ltb c 128) s ≡ true
    → limit_output max s ≡ ok (if ltb max (byte_len s) then take max s ++ cut_note else s)
unfolding limit_output
limit_output_ascii max s h = ground (arith, truncate_ascii max s h)
