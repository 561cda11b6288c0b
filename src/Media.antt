-- ===== src/Media.antt =====
-- gateway/src/ilink/media.rs: encryption of media files, and what is read off their names. The
-- block cipher is a parameter: it is handed a key and a block of 16 bytes.
pub mod Cipher
pub mod RoundTrip
use ilink_gateway.Prelude.{
  ℕ, zero, suc, ◌-◌, ◌%◌, Bool, false, ◌&&◌, ◌||◌, Option, none, some, List, [], ◌∷◌, ◌++◌, ltb,
  leb, nat_eq, if◌then◌else◌, length, replicate, take, drop, ℤ, pos,
}
use ilink_gateway.Text.{Text, codes}
use ilink_gateway.Text.Search.{starts_with, ends_with, to_lowercase, LowerTable}
use ilink_gateway.Error.{Result, ok, err, config}
use ilink_gateway.Types.Message.{type_image, type_voice, type_file, type_video}

abbrev pub Bytes : Type 0
Bytes = List ℕ

unfoldable pub is_valid_cdn_url : Text → Bool
is_valid_cdn_url url =
    starts_with (codes "https://novac2c.cdn.weixin.qq.com/") url
    || starts_with (codes "https://cdn.weixin.qq.com/") url

-- The chunks of 16 bytes of some data, each put through a function, one behind the other. As many
-- chunks as the first number says, which is enough if it is the length of the data.
unfoldable pub map_blocks : (Bytes → Bytes) → ℕ → Bytes → Bytes
map_blocks f zero bytes = []
map_blocks f (suc fuel) [] = []
map_blocks f (suc fuel) (b ∷ bytes) =
    f (take 16 (b ∷ bytes)) ++ map_blocks f fuel (drop 16 (b ∷ bytes))

-- The last byte.
abbrev pub last_byte : Bytes → Option ℕ
last_byte [] = none
last_byte (b ∷ []) = some b
last_byte (b ∷ c ∷ bytes) = last_byte (c ∷ bytes)

-- PKCS7 padding, on and off.
unfoldable pub pad : Bytes → Bytes
pad bytes = let n = 16 - length bytes % 16 in bytes ++ replicate n n

unfoldable pub unpad : Bytes → Bytes
unpad bytes = elim (last_byte bytes) [
  | none ↦ bytes
  | some n ↦ (if ltb 0 n && leb n 16 then take (length bytes - n) bytes else bytes)
]

-- A chunk that is shorter than a block is filled up with zeros.
unfoldable pub fill_block : Bytes → Bytes
fill_block chunk = chunk ++ replicate (16 - length chunk) 0

abbrev pub bad_key : Text
bad_key = codes "AES key must be 16 bytes"

module _ (encrypt_block decrypt_block : Bytes → Bytes → Bytes) where
  unfoldable pub aes128_ecb_encrypt : Bytes → Bytes → Result Bytes
  unfolding pad map_blocks
  aes128_ecb_encrypt key bytes =
      if nat_eq (length key) 16
      then ok (map_blocks (encrypt_block key) (length (pad bytes)) (pad bytes))
      else err (config bad_key)

  unfoldable pub aes128_ecb_decrypt : Bytes → Bytes → Result Bytes
  unfolding unpad map_blocks fill_block
  aes128_ecb_decrypt key bytes =
      if nat_eq (length key) 16
      then ok
          (unpad (map_blocks (λ chunk. decrypt_block key (fill_block chunk)) (length bytes) bytes))
      else err (config bad_key)

abbrev pub ends_with_any : List Text → Text → Bool
ends_with_any [] s = false
ends_with_any (p ∷ ps) s = ends_with p s || ends_with_any ps s

abbrev pub image_extensions : List Text
image_extensions =
    codes ".jpg" ∷ codes ".jpeg" ∷ codes ".png" ∷ codes ".gif" ∷ codes ".webp" ∷ codes ".bmp" ∷ []

abbrev pub voice_extensions : List Text
voice_extensions =
    codes ".silk" ∷ codes ".mp3" ∷ codes ".wav" ∷ codes ".ogg" ∷ codes ".amr" ∷ codes ".aac" ∷ []

abbrev pub video_extensions : List Text
video_extensions = codes ".mp4" ∷ codes ".mov" ∷ codes ".avi" ∷ codes ".mkv" ∷ codes ".webm" ∷ []

-- The type of the item that carries a file, and the type of its upload.
unfoldable pub media_types_from_extension : LowerTable → Text → ℤ × ℤ
media_types_from_extension table path =
    let lower = to_lowercase table path in
    if ends_with_any image_extensions lower
    then (type_image, pos 1)
    else if ends_with_any voice_extensions lower
    then (type_voice, pos 4)
    else if ends_with_any video_extensions lower
    then (type_video, pos 2)
    else (type_file, pos 3)
