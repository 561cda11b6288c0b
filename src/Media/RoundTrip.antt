-- ===== src/Media/RoundTrip.antt =====
-- gateway/src/ilink/media.rs: what is encrypted is decrypted.
use ilink_gateway.Prelude.{
  ℕ, zero, suc, ◌+◌, ◌-◌, ◌*◌, ◌/◌, ◌%◌, ◌≤◌, ◌<◌, ◌≡◌, refl, ap, ◌∙◌, some, [], ◌∷◌, ◌++◌, arith,
  length, replicate, take, length-append, length-replicate,
}
use ilink_gateway.Error.{ok}
use ilink_gateway.Media.{
  Bytes, map_blocks, last_byte, pad, unpad, aes128_ecb_encrypt, aes128_ecb_decrypt,
}
use ilink_gateway.Media.Cipher.{take-append, length-map_blocks, map_blocks-inverse, fill_full}

-- The number of blocks of padded data.
abbrev pub blocks : Bytes → ℕ
blocks s = length s / 16 + 1

length-pad : (s : Bytes) → length (pad s) ≡ blocks s * 16
unfolding pad
length-pad s =
    length-append s (replicate (16 - length s % 16) (16 - length s % 16))
    ∙ omega (arith, length-replicate (16 - length s % 16) (16 - length s % 16))

last_byte-append : (s : Bytes) (n : ℕ) (t : Bytes) → last_byte (s ++ (n ∷ t)) ≡ last_byte (n ∷ t)
last_byte-append [] n t = refl
last_byte-append (b ∷ []) n t = refl
last_byte-append (b ∷ c ∷ s) n t = last_byte-append (c ∷ s) n t

last_byte-replicate : (k n : ℕ) → last_byte (replicate (suc k) n) ≡ some n
last_byte-replicate zero n = refl
last_byte-replicate (suc k) n = last_byte-replicate k n

unpad_last :
    (s : Bytes) (n : ℕ) → last_byte s ≡ some n → 0 < n → n ≤ 16 → unpad s ≡ take (length s - n) s
unfolding unpad
unpad_last s n e h b = ground arith

unpad_padding : (s : Bytes) (k : ℕ) → suc k ≤ 16 → unpad (s ++ replicate (suc k) (suc k)) ≡ s
unpad_padding s k h =
    let padding = replicate (suc k) (suc k) in
    unpad_last (s ++ padding) (suc k)
      (last_byte-append s (suc k) (replicate k (suc k)) ∙ last_byte-replicate k (suc k))
      (omega arith) h
    ∙ ap (λ n. take n (s ++ padding))
        (omega (arith, length-append s padding, length-replicate (suc k) (suc k)))
    ∙ take-append (length s) s padding refl

unpad-pad : (s : Bytes) → unpad (pad s) ≡ s
unfolding pad
unpad-pad s =
    let k = 15 - length s % 16 in
    let e : 16 - length s % 16 ≡ suc k = omega arith in rw e (unpad_padding s k (omega arith))

module _ (encrypt_block decrypt_block : Bytes → Bytes → Bytes) (key s : Bytes) where
  -- With a block cipher that undoes its own blocks of 16 bytes and keeps their length, and with a
  -- key of 16 bytes, data of any length is encrypted to whole blocks, at least one byte more than
  -- the data, and what is encrypted is decrypted to the data.
  pub decrypt-encrypt :
      length key ≡ 16
      → ((b : Bytes) → length b ≡ 16 → length (encrypt_block key b) ≡ 16)
      → ((b : Bytes) → length b ≡ 16 → decrypt_block key (encrypt_block key b) ≡ b)
      → (t : Bytes) × (aes128_ecb_encrypt encrypt_block decrypt_block key s ≡ ok t)
        × (length t ≡ blocks s * 16)
        × (aes128_ecb_decrypt encrypt_block decrypt_block key t ≡ ok s)
  unfolding aes128_ecb_encrypt aes128_ecb_decrypt
  decrypt-encrypt good keeps back =
      let t : Bytes = map_blocks (encrypt_block key) (length (pad s)) (pad s) in
      let size = length-pad s in
      let size_t : length t ≡ blocks s * 16 =
        length-map_blocks (encrypt_block key) (decrypt_block key) keeps (blocks s) (length (pad s))
          (pad s) size (omega arith) in
      let same =
        map_blocks-inverse (encrypt_block key) (decrypt_block key) keeps
          (λ b h. ap (decrypt_block key) (fill_full (encrypt_block key b) (keeps b h)) ∙ back b h)
          (blocks s) (length (pad s)) (length t) (pad s) size (omega arith) (omega arith) in
      (
        t,
        rw good refl,
        size_t,
        rw good (ap (λ (x : Bytes). ok (unpad x)) same ∙ ap ok (unpad-pad s)),
      )
