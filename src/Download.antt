-- ===== src/Download.antt =====
-- gateway/src/ilink/download.rs, and `try_download_media` of gateway/src/main.rs. The GET, the file
-- system and hexadecimal decoding are arguments.
pub mod Guarded
pub mod Shared
pub mod RoundTrip
use ilink_gateway.Prelude.{
  ℕ, ◌||◌, Option, none, some, List, [], ◌∷◌, ◌++◌, nat_eq, if◌then◌else◌, length, int_eq,
}
use ilink_gateway.Text.{Text, codes, ◌==◌}
use ilink_gateway.Error.{GatewayError, Result, ok, err, panic, ◌>>=◌, ilink}
use ilink_gateway.Map.{Map, insert}
use ilink_gateway.Types.{MessageItem}
use ilink_gateway.Types.Message.{type_image, type_voice, type_video}
use ilink_gateway.Media.{Bytes, aes128_ecb_decrypt, is_valid_cdn_url}
use ilink_gateway.Client.Calls.{is_success}
use ilink_gateway.Upload.{build_cdn_download_url}

-- The status of an answer, with its display, and its bytes, which may fail to arrive.
pub record Fetched : Type 0 where
  pub status : ℕ
  pub reason : Text
  pub bytes : Result Bytes

-- `faults` are the errors of making the directory and of writing the file.
pub record DownloadEnv : Type 0 where
  pub fetch : Text → Result Fetched
  pub hex_decode : Text → Option Bytes
  pub encrypt_block : Bytes → Bytes → Bytes
  pub decrypt_block : Bytes → Bytes → Bytes
  pub make_dir : Text → Option GatewayError
  pub write : Text → Option GatewayError

-- The files by their paths.
abbrev pub Files : Type 0
Files = Map Bytes

-- `PathBuf::join` of a directory that does not end in a slash.
unfoldable pub join_path : Text → Text → Text
join_path dir [] = dir ++ codes "/"
join_path dir (c ∷ name) = if nat_eq c b'/' then c ∷ name else dir ++ (b'/' ∷ c ∷ name)

-- The URLs that were asked for, the result and the files.
pub record Downloaded : Type 0 where
  pub asked : List Text
  pub result : Result Text
  pub files : Files

abbrev pub read_fetched : Fetched → Result Bytes
read_fetched resp =
    if is_success resp.status
    then resp.bytes
    else err (ilink (codes "CDN download returned HTTP " ++ resp.reason))

abbrev pub write_file : Option GatewayError → Text → Bytes → Files → Result Text × Files
write_file (some e) path bytes files = (err e, files)
write_file none path bytes files = (ok path, insert path bytes files)

abbrev pub make_and_write :
    Option GatewayError → Option GatewayError → Text → Bytes → Files → Result Text × Files
make_and_write (some e) write path bytes files = (err e, files)
make_and_write none write path bytes files = write_file write path bytes files

-- Makes the directory and writes the file.
unfoldable pub save_file : DownloadEnv → Text → Text → Bytes → Files → Result Text × Files
unfolding join_path
save_file env dir name bytes files =
    let path = join_path dir name in
    make_and_write (env.make_dir dir) (env.write path) path bytes files

abbrev pub save_decrypted : DownloadEnv → Text → Text → Result Bytes → Files → Result Text × Files
save_decrypted env dir name (ok bytes) files = save_file env dir name bytes files
save_decrypted env dir name (err e) files = (err e, files)
save_decrypted env dir name panic files = (panic, files)

unfoldable pub download_media : DownloadEnv → Text → Text → Bytes → Text → Text → Files → Downloaded
unfolding save_file
download_media env cdn_base_url encrypt_query_param aes_key cache_dir file_name files =
    let url = build_cdn_download_url cdn_base_url encrypt_query_param in
    let decrypted = env.fetch url >>= λ resp. read_fetched resp >>= λ bytes.
    aes128_ecb_decrypt env.encrypt_block env.decrypt_block aes_key bytes in
    let (result, files') = save_decrypted env cache_dir file_name decrypted files in
    if is_valid_cdn_url url
    then record { asked = url ∷ []; result = result; files = files' }
    else record {
      asked = [];
      result = err (ilink (codes "Invalid CDN URL (anti-SSRF blocked): " ++ url));
      files = files;
    }

-- What a media item says of its download.
pub record Source : Type 0 where
  pub param : Text
  pub aes_key_hex : Text
  pub media_type : Text
  pub original_name : Option Text

abbrev pub source : Option Text → Option Text → Text → Option Text → Option Source
source (some param) (some key) media_type name =
    some
      (record { param = param; aes_key_hex = key; media_type = media_type; original_name = name })
source _ _ media_type name = none

unfoldable pub source_of : MessageItem → Option Source
source_of item = elim item.item_type [
  | none ↦ none
  | some t ↦
      if int_eq t type_image
      then elim item.image_item [
        | none ↦ none
        | some i ↦ source i.encrypt_query_param i.aes_key (codes "image") i.md5
      ]
      else if int_eq t type_voice
      then elim item.voice_item [
        | none ↦ none
        | some v ↦ source v.encrypt_query_param v.aes_key (codes "voice") none
      ]
      else if int_eq t type_video
      then elim item.video_item [
        | none ↦ none
        | some v ↦ source v.encrypt_query_param v.aes_key (codes "video") v.md5
      ]
      else none
]

-- The key, if it is sixteen bytes in hexadecimal and the parameter is not empty.
unfoldable pub key_of : DownloadEnv → Source → Option Bytes
key_of env s =
    if s.param == [] || s.aes_key_hex == [] then none else elim (env.hex_decode s.aes_key_hex) [
      | none ↦ none
      | some key ↦ (if nat_eq (length key) 16 then some key else none)
    ]

abbrev pub media_cache_dir : Text
media_cache_dir = codes "/tmp/wechat-gateway-media"

abbrev pub file_name_of : Text → Source → Text
file_name_of msg_id s = msg_id ++ (b'-' ∷ s.media_type)

-- The path, the type and the name of a file that was downloaded.
abbrev pub Media : Type 0
Media = Text × Text × Option Text

abbrev pub media_of : Source → Result Text → Option Media
media_of s (ok path) = some (path, s.media_type, s.original_name)
media_of s _ = none

abbrev pub download_source :
    DownloadEnv → Text → Text → Source → Option Bytes → Files → Option Media × Files
download_source env msg_id cdn_base s none files = (none, files)
download_source env msg_id cdn_base s (some key) files =
    let d = download_media env cdn_base s.param key media_cache_dir (file_name_of msg_id s) files in
    (media_of s d.result, d.files)

unfoldable pub try_download_media :
    DownloadEnv → MessageItem → Text → Text → Files → Option Media × Files
unfolding download_media source_of key_of
try_download_media env item msg_id cdn_base files = elim (source_of item) [
  | none ↦ (none, files)
  | some s ↦ download_source env msg_id cdn_base s (key_of env s) files
]
