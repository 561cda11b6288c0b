-- ===== src/Dedup/Key.antt =====
-- The dedup key of gateway/src/main.rs.
use ilink_gateway.Prelude.{
  ℕ, ◌+◌, ◌≡◌, refl, sym, ap, Bool, true, not, [], ◌∷◌, ◌++◌, arith, nat_eq, all, ℤ, pos, negsuc,
  IsI64,
}
use ilink_gateway.Text.{Text}
use ilink_gateway.Text.Number.{show_nat, show_int, is_digit, show_nat_digits, show_nat-injective}
use ilink_gateway.Types.{WeixinMessage}
use ilink_gateway.Types.Message.{message_text, unwrap_or}
use ilink_gateway.Dedup.{dedup_key}

-- No colon stands in the text.
abbrev no_colon : Text → Bool
no_colon = all (λ c. not (nat_eq c b':'))

no_colon-digits : (s : Text) → all is_digit s ≡ true → no_colon s ≡ true
unfolding is_digit
no_colon-digits [] h = refl
no_colon-digits (c ∷ s) h = ground (arith, no_colon-digits s)

no_colon-show_int : (a : ℤ) → no_colon (show_int a) ≡ true
unfolding show_int
no_colon-show_int (pos n) = no_colon-digits (show_nat n) (show_nat_digits n)
no_colon-show_int (negsuc n) = no_colon-digits (show_nat (n + 1)) (show_nat_digits (n + 1))

-- A text is cut at its first colon in one way.
colon_unique :
    (s t u v : Text)
    → no_colon s ≡ true
    → no_colon t ≡ true
    → s ++ (b':' ∷ u) ≡ t ++ (b':' ∷ v)
    → (s ≡ t) × (u ≡ v)
colon_unique [] [] u v h k e = (refl, cc)
colon_unique [] (c ∷ t) u v h k e = ground arith
colon_unique (c ∷ s) [] u v h k e = ground arith
colon_unique (c ∷ s) (d ∷ t) u v h k e =
    let (p, q) = colon_unique s t u v (ground arith) (ground arith) (cc) in (cc, q)

minus_digits : (s : Text) (n : ℕ) → show_nat n ≡ b'-' ∷ s → ⊥
unfolding is_digit
minus_digits s n e = ground (arith, show_nat_digits n, ap (all is_digit) e)

show_int-injective : (a b : ℤ) → IsI64 a → IsI64 b → show_int a ≡ show_int b → a ≡ b
unfolding show_int
show_int-injective (pos n) (pos m) h k e =
    ap pos (show_nat-injective n m (omega arith) (omega arith) e)
show_int-injective (negsuc n) (negsuc m) h k e =
    let same : n + 1 ≡ m + 1 =
      show_nat-injective (n + 1) (m + 1) (omega arith) (omega arith) (cc) in
    ap negsuc (omega arith)
show_int-injective (pos n) (negsuc m) h k e = absurd (minus_digits (show_nat (m + 1)) n e)
show_int-injective (negsuc n) (pos m) h k e = absurd (minus_digits (show_nat (n + 1)) m (sym e))

-- Two messages whose ids are i64 numbers have the same key only if their ids, a missing one read as
-- 0, and the digests of their texts are the same, whatever the digest function.
pub dedup_key-injective :
    (md5 : Text → Text) (a b : WeixinMessage)
    → IsI64 (unwrap_or (pos 0) a.message_id)
    → IsI64 (unwrap_or (pos 0) b.message_id)
    → dedup_key md5 a ≡ dedup_key md5 b
    → (unwrap_or (pos 0) a.message_id ≡ unwrap_or (pos 0) b.message_id)
      × (md5 (unwrap_or [] (message_text a)) ≡ md5 (unwrap_or [] (message_text b)))
unfolding dedup_key
dedup_key-injective md5 a b h k e =
    let (ids, digests) =
      colon_unique _ _ _ _ (no_colon-show_int (unwrap_or (pos 0) a.message_id))
        (no_colon-show_int (unwrap_or (pos 0) b.message_id)) e in
    (show_int-injective _ _ h k ids, digests)
