-- ===== src/Client/Encoding.antt =====
-- gateway/src/ilink/client.rs: what `urlencoding` writes can be read back.
use ilink_gateway.Prelude.{
  ℕ, ◌+◌, ◌-◌, ◌*◌, ◌/◌, ◌%◌, ◌<◌, ◌≡◌, inl, inr, refl, ap, ◌∙◌, Bool, true, false, ◌||◌, List, [],
  ◌∷◌, ◌++◌, arith, ltb, nat_eq, if◌then◌else◌, all, Bool-cases, all-append,
}
use ilink_gateway.Text.{Text}
use ilink_gateway.Text.Utf8.{utf8, utf8-bytes}
use ilink_gateway.Client.{hex_digit, is_unreserved, encode_byte, encode_bytes, urlencoding}

-- The value of a hexadecimal digit in upper case.
unfoldable pub unhex : ℕ → ℕ
unhex c = if ltb c b'A' then c - b'0' else c - b'A' + 10

-- Percent decoding, as RFC 3986 says it.
unfoldable pub percent_decode : Text → List ℕ
unfolding unhex
percent_decode [] = []
percent_decode (c ∷ []) = c ∷ []
percent_decode (c ∷ d ∷ []) = c ∷ percent_decode (d ∷ [])
percent_decode (c ∷ d ∷ e ∷ s) =
    let escaped = percent_decode s in
    let plain = percent_decode (d ∷ e ∷ s) in
    if nat_eq c b'%' then (unhex d * 16 + unhex e) ∷ escaped else c ∷ plain

-- The characters that may stand in a query parameter.
abbrev pub is_query_char : ℕ → Bool
is_query_char c = is_unreserved c || nat_eq c b'%'

decode_plain :
    (c : ℕ) (s : Text) → nat_eq c b'%' ≡ false → percent_decode (c ∷ s) ≡ c ∷ percent_decode s
unfolding percent_decode
decode_plain c [] h = refl
decode_plain c (d ∷ []) h = refl
decode_plain c (d ∷ e ∷ s) h = rw h

decode_escape :
    (d e : ℕ) (s : Text)
    → percent_decode (b'%' ∷ d ∷ e ∷ s) ≡ (unhex d * 16 + unhex e) ∷ percent_decode s
unfolding percent_decode
decode_escape d e s = refl

decode_space : (s : Text) → percent_decode (b'%' ∷ b'2' ∷ b'0' ∷ s) ≡ 32 ∷ percent_decode s
unfolding percent_decode
decode_space s = refl

same_space : (b : ℕ) → nat_eq b b' ' ≡ true → 32 ≡ b
same_space b h = ground arith

unhex-hex_digit : (n : ℕ) → n < 16 → unhex (hex_digit n) ≡ n
unfolding unhex hex_digit
unhex-hex_digit n h = ground arith

unreserved_plain : (c : ℕ) → is_unreserved c ≡ true → nat_eq c b'%' ≡ false
unfolding is_unreserved
unreserved_plain c h = ground arith

decode-encode_byte :
    (b : ℕ) (s : Text) → b < 256 → percent_decode (encode_byte b ++ s) ≡ b ∷ percent_decode s
unfolding encode_byte
decode-encode_byte b s h = elim (Bool-cases (is_unreserved b)) [
  | inl plain ↦ rw plain (decode_plain b s (unreserved_plain b plain))
  | inr escaped ↦ elim (Bool-cases (nat_eq b b' ')) [
    | inl space ↦
        rw (escaped, space) (decode_space s ∙ ap (λ n. n ∷ percent_decode s) (same_space b space))
    | inr other ↦
        rw (escaped, other)
          (decode_escape (hex_digit (b / 16)) (hex_digit (b % 16)) s
            ∙ ap (λ n. n ∷ percent_decode s)
                (omega (
                  arith,
                  unhex-hex_digit (b / 16) (omega arith),
                  unhex-hex_digit (b % 16) (omega arith),
                )))
  ]
]

decode-encode_bytes :
    (bs : List ℕ) → all (λ b. ltb b 256) bs ≡ true → percent_decode (encode_bytes bs) ≡ bs
unfolding percent_decode
decode-encode_bytes [] h = refl
decode-encode_bytes (b ∷ bs) h =
    decode-encode_byte b (encode_bytes bs) (ground arith)
    ∙ ap (λ (t : List ℕ). b ∷ t) (decode-encode_bytes bs (ground arith))

hex_digit-query : (n : ℕ) → n < 16 → is_query_char (hex_digit n) ≡ true
unfolding hex_digit is_unreserved
hex_digit-query n h = ground arith

encode_byte-query : (b : ℕ) → b < 256 → all is_query_char (encode_byte b) ≡ true
unfolding encode_byte
encode_byte-query b h =
    ground (arith, hex_digit-query (b / 16) (omega arith), hex_digit-query (b % 16) (omega arith))

encode_bytes-query :
    (bs : List ℕ) → all (λ b. ltb b 256) bs ≡ true → all is_query_char (encode_bytes bs) ≡ true
encode_bytes-query [] h = refl
encode_bytes-query (b ∷ bs) h = ground (
  arith,
  all-append is_query_char (encode_byte b) (encode_bytes bs),
  encode_byte-query b,
  encode_bytes-query bs,
)

-- Whatever the text, what `urlencoding` writes has only unreserved characters and percent signs,
-- and percent decoding reads the text's UTF-8 bytes back from it.
pub decode-urlencoding :
    (s : Text)
    → (percent_decode (urlencoding s) ≡ utf8 s) × (all is_query_char (urlencoding s) ≡ true)
unfolding urlencoding
decode-urlencoding s =
    (decode-encode_bytes (utf8 s) (utf8-bytes s).0, encode_bytes-query (utf8 s) (utf8-bytes s).0)
