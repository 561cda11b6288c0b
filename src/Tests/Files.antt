-- ===== src/Tests/Files.antt =====
-- The encryption of files at a concrete key, with a block cipher that turns a block around.
use ilink_gateway.Prelude.{
  ◌*◌, ◌≡◌, refl, sym, ap, ◌∙◌, [], ◌∷◌, ◌++◌, append_assoc, append-nil, arith, length, replicate,
  length-append,
}
use ilink_gateway.Error.{ok}
use ilink_gateway.Media.{Bytes, aes128_ecb_encrypt, aes128_ecb_decrypt}
use ilink_gateway.Media.RoundTrip.{blocks, decrypt-encrypt}

abbrev reverse : Bytes → Bytes
reverse [] = []
reverse (b ∷ s) = reverse s ++ (b ∷ [])

reverse-append : (s t : Bytes) → reverse (s ++ t) ≡ reverse t ++ reverse s
reverse-append [] t = sym (append-nil (reverse t))
reverse-append (b ∷ s) t = rw (reverse-append s t, append_assoc)

pub reverse-reverse : (s : Bytes) → reverse (reverse s) ≡ s
reverse-reverse [] = refl
reverse-reverse (b ∷ s) =
    reverse-append (reverse s) (b ∷ []) ∙ ap (λ (x : Bytes). b ∷ x) (reverse-reverse s)

pub length-reverse : (s : Bytes) → length (reverse s) ≡ length s
length-reverse [] = refl
length-reverse (b ∷ s) = omega (arith, length-append (reverse s) (b ∷ []), length-reverse s)

abbrev pub turn : Bytes → Bytes → Bytes
turn key block = reverse block

abbrev pub file : Bytes
file = 1 ∷ 2 ∷ 3 ∷ replicate 14 7

decrypt-encrypt_example :
    (t : Bytes) × (aes128_ecb_encrypt turn turn (replicate 16 5) file ≡ ok t)
    × (length t ≡ blocks file * 16)
    × (aes128_ecb_decrypt turn turn (replicate 16 5) t ≡ ok file)
decrypt-encrypt_example =
    decrypt-encrypt turn turn (replicate 16 5) file refl (λ b h. length-reverse b ∙ h)
      (λ b h. reverse-reverse b)
