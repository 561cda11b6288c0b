-- ===== src/Upload.antt =====
-- `process_media_upload` of gateway/src/ilink/media.rs. Reading the file, the MD5 digest, the random
-- bytes, the hexadecimal and base64 texts, the block cipher and the exchange with the CDN are
-- arguments.
pub mod Stored
use ilink_gateway.Prelude.{
  ℕ, true, ◌&&◌, Option, none, some, [], ◌∷◌, ◌++◌, nat_eq, if◌then◌else◌, length, pos,
}
use ilink_gateway.Text.{Text, codes, ◌==◌}
use ilink_gateway.Text.Search.{LowerTable}
use ilink_gateway.Error.{GatewayError, Result, ok, err, ◌>>=◌, ilink}
use ilink_gateway.Config.{ilink_cdn_base_url}
use ilink_gateway.Types.{channel_default}
use ilink_gateway.Types.Requests.{GetUploadUrlRequest, GetUploadUrlResponse}
use ilink_gateway.Media.{Bytes, aes128_ecb_encrypt, media_types_from_extension}
use ilink_gateway.Client.{Client, ClientEnv}
use ilink_gateway.Client.Calls.{get_upload_url, is_success}
use ilink_gateway.Replies.{MediaUpload}

-- `trim_end_matches('/')`
unfoldable pub trim_slashes : Text → Text
trim_slashes [] = []
trim_slashes (c ∷ s) =
    let rest = trim_slashes s in if nat_eq c b'/' && rest == [] then [] else c ∷ rest

-- `format!("{}/c2c?{}", ..)`, which `build_cdn_download_url` and the upload share.
unfoldable pub build_cdn_download_url : Text → Text → Text
unfolding trim_slashes
build_cdn_download_url cdn_base param = trim_slashes cdn_base ++ (codes "/c2c?" ++ param)

-- The CDN's answer: its status, and its `x-encrypted-param` header, which may be no text.
pub record CdnResponse : Type 0 where
  pub status : ℕ
  pub reason : Text
  pub encrypted_param : Option (Result Text)

pub record UploadEnv : Type 0 where
  pub read : Text → Result Bytes
  pub md5_hex : Bytes → Text
  pub filekey_bytes : Bytes
  pub aes_key_bytes : Bytes
  pub hex_encode : Bytes → Text
  pub base64 : Text → Text
  pub encrypt_block : Bytes → Bytes → Bytes
  pub decrypt_block : Bytes → Bytes → Bytes
  pub table : LowerTable
  pub client_env : ClientEnv
  pub build : Option GatewayError
  pub post : Text → Bytes → Result CdnResponse

-- The request for an upload URL.
unfoldable pub upload_request : UploadEnv → Text → Text → Bytes → Bytes → GetUploadUrlRequest
upload_request env to_user_id file_path file_data encrypted = record {
  filekey = env.hex_encode env.filekey_bytes;
  media_type = (media_types_from_extension env.table file_path).1;
  to_user_id = to_user_id;
  rawsize = pos (length file_data);
  rawfilemd5 = env.md5_hex file_data;
  filesize = pos (length encrypted);
  no_need_thumb = true;
  aeskey = env.hex_encode env.aes_key_bytes;
  base_info = some channel_default;
}

-- The URL of the answer, or its parameter behind the CDN's base.
unfoldable pub upload_url : GetUploadUrlResponse → Result Text
unfolding build_cdn_download_url
upload_url resp = elim resp.upload_full_url [
  | some url ↦ ok url
  | none ↦ elim resp.upload_param [
    | some p ↦ ok (build_cdn_download_url ilink_cdn_base_url p)
    | none ↦ err (ilink (codes "getuploadurl returned no upload URL"))
  ]
]

abbrev pub read_header : Option (Result Text) → Result Text
read_header none = err (ilink (codes "CDN upload response missing x-encrypted-param header"))
read_header (some r) = r

unfoldable pub read_cdn : CdnResponse → Result Text
read_cdn resp =
    if is_success resp.status
    then read_header resp.encrypted_param
    else err (ilink (codes "CDN upload returned HTTP " ++ resp.reason))

abbrev pub built : Option GatewayError → Result (Unit {0})
built none = ok tt
built (some e) = err e

-- What the message needs of an upload.
abbrev pub uploaded : UploadEnv → Text → Bytes → Text → MediaUpload
uploaded env file_path encrypted param = record {
  item_type = (media_types_from_extension env.table file_path).0;
  encrypt_query_param = param;
  aes_key = env.base64 (env.hex_encode env.aes_key_bytes);
  mid_size = pos (length encrypted);
}

-- The steps behind the encryption, the last one first.
abbrev pub receive : UploadEnv → Text → Bytes → CdnResponse → Result MediaUpload
receive env file_path encrypted answer =
    read_cdn answer >>= λ param. ok (uploaded env file_path encrypted param)

abbrev pub post_body : UploadEnv → Text → Bytes → Text → Result MediaUpload
post_body env file_path encrypted url =
    built env.build >>= λ u. env.post url encrypted >>= receive env file_path encrypted

abbrev pub upload_to : UploadEnv → Text → Bytes → GetUploadUrlResponse → Result MediaUpload
upload_to env file_path encrypted resp = upload_url resp >>= post_body env file_path encrypted

unfoldable pub upload_encrypted :
    UploadEnv → Client → Text → Text → Text → Bytes → Bytes → Result MediaUpload
unfolding upload_request upload_url read_cdn
upload_encrypted env client token to_user_id file_path file_data encrypted =
    get_upload_url env.client_env client token
      (upload_request env to_user_id file_path file_data encrypted)
    >>= upload_to env file_path encrypted

abbrev pub encrypt_and_upload : UploadEnv → Client → Text → Text → Text → Bytes → Result MediaUpload
encrypt_and_upload env client token to_user_id file_path file_data =
    aes128_ecb_encrypt env.encrypt_block env.decrypt_block env.aes_key_bytes file_data
    >>= upload_encrypted env client token to_user_id file_path file_data

unfoldable pub process_media_upload : UploadEnv → Client → Text → Text → Text → Result MediaUpload
unfolding upload_encrypted
process_media_upload env client token to_user_id file_path =
    env.read file_path >>= encrypt_and_upload env client token to_user_id file_path
