-- ===== src/Tests/Transfers.antt =====
-- Files that are sent and fetched, at concrete inputs: a CDN whose parameter is the body.
use ilink_gateway.Prelude.{
  ◌⊎◌, ◌≡◌, refl, sym, ap, ◌∙◌, true, Option, none, some, [], ◌∷◌, ◌++◌, replicate, drop, pos,
}
use ilink_gateway.Text.{Text, ◌==◌, codes}
use ilink_gateway.Text.Search.{starts_with}
use ilink_gateway.Error.{GatewayError, err, Result, ok, panic}
use ilink_gateway.Map.{lookup, insert}
use ilink_gateway.Types.{MessageItem, item_default, image_default}
use ilink_gateway.Media.{
  Bytes, aes128_ecb_encrypt, aes128_ecb_decrypt, is_valid_cdn_url, media_types_from_extension,
}
use ilink_gateway.Client.{Client, ClientEnv, build_headers}
use ilink_gateway.Client.Calls.{exchange, read_answer, get_upload_url}
use ilink_gateway.Replies.{MediaUpload}
use ilink_gateway.Upload.{
  CdnResponse, UploadEnv, trim_slashes, build_cdn_download_url, upload_url, read_cdn,
  upload_encrypted, process_media_upload,
}
use ilink_gateway.Upload.Stored.{Ciphers, Posted}
use ilink_gateway.Download.{
  DownloadEnv, Files, Downloaded, join_path, download_media, Source, source_of, Media,
  try_download_media,
}
use ilink_gateway.Download.Guarded.{IsCdn, download_media-IsCdn}
use ilink_gateway.Download.RoundTrip.{Writable, served, download-upload}
use ilink_gateway.Download.Shared.{shared_path}
use ilink_gateway.Tests.{table}
use ilink_gateway.Tests.Files.{turn, file, length-reverse, reverse-reverse}

abbrev answer : Bytes → CdnResponse
answer body = record { status = 200; reason = []; encrypted_param = some (ok body) }

abbrev server : ClientEnv
server = record {
  random = 7;
  base64 = λ t. t;
  is_header_value = λ t. true;
  send = λ req. ok (record { status = 200; reason = []; text = ok [] });
  from_str = λ t. none;
  read_qrcode = λ t. panic;
  read_status = λ t. panic;
  read_updates = λ t. panic;
  read_message = λ t. panic;
  read_config = λ t. panic;
  read_upload = λ t. ok (record {
    ret = none;
    upload_full_url = some (codes "https://up");
    upload_param = none;
    errmsg = none;
  });
}

abbrev key : Bytes
key = replicate 16 5

abbrev up : UploadEnv
up = record {
  read = λ path. ok file;
  md5_hex = λ b. codes "d";
  filekey_bytes = replicate 16 6;
  aes_key_bytes = key;
  hex_encode = λ b. b;
  base64 = λ t. t;
  encrypt_block = turn;
  decrypt_block = turn;
  table = table;
  client_env = server;
  build = none;
  post = λ url body. ok (answer body);
}

abbrev client : Client
client = record { base_url = codes "https://h" }

-- The file in two blocks that are turned around.
abbrev sent : Bytes
sent = replicate 13 7 ++ (3 ∷ 2 ∷ 1 ∷ (replicate 15 15 ++ (7 ∷ [])))

abbrev media : MediaUpload
media = record { item_type = pos 2; encrypt_query_param = sent; aes_key = key; mid_size = pos 32 }

abbrev path : Text
path = codes "a.png"

ciphers : Ciphers up
ciphers = record {
  sixteen = refl;
  keeps = λ b h. length-reverse b ∙ h;
  back = λ b h. reverse-reverse b;
}

is_up : process_media_upload up client (codes "t") (codes "u") path ≡ ok media
unfolding process_media_upload upload_encrypted get_upload_url exchange read_answer build_headers
    upload_url read_cdn aes128_ecb_encrypt media_types_from_extension
    ilink_gateway.Text.Search.ends_with ilink_gateway.Text.Search.to_lowercase ◌==◌
is_up = refl

-- A GET of the CDN's URL gives the parameter back.
abbrev down : DownloadEnv
down = record {
  fetch = λ url. served (drop 38 url);
  hex_decode = λ t. some key;
  encrypt_block = turn;
  decrypt_block = turn;
  make_dir = λ dir. none;
  write = λ p. none;
}

abbrev cdn : Text
cdn = codes "https://novac2c.cdn.weixin.qq.com/"

is_valid : is_valid_cdn_url (build_cdn_download_url cdn sent) ≡ true
unfolding is_valid_cdn_url build_cdn_download_url trim_slashes starts_with ◌==◌
is_valid = refl

writable : Writable down
writable = record { makes = λ dir. refl; writes = λ p. refl }

-- The parameter of an answer is the body that was posted.
abbrev read_param : Option (Result Text) → Bytes
read_param (some (ok p)) = p
read_param o = []

abbrev param_of : Result CdnResponse → Bytes
param_of (ok a) = read_param a.encrypted_param
param_of r = []

body_is_sent : (body : Bytes) → Posted up body sent → body ≡ sent
body_is_sent body (url, a, posted, good, header) = ap param_of posted ∙ ap read_param header

fetch_sent : down.fetch (build_cdn_download_url cdn sent) ≡ served sent
unfolding build_cdn_download_url trim_slashes ◌==◌
fetch_sent = refl

download-upload_example :
    (f : Bytes) × (up.read path ≡ ok f)
    × (let d : Downloaded = download_media down cdn sent key (codes "/tmp") (codes "f") [] in
        (d.result ≡ ok (join_path (codes "/tmp") (codes "f")))
        × (lookup (join_path (codes "/tmp") (codes "f")) d.files ≡ some f))
download-upload_example =
    download-upload up client (codes "t") (codes "u") path media down cdn (codes "/tmp") (codes "f")
      [] ciphers is_up refl refl writable is_valid
      (λ body posted. fetch_sent ∙ ap served (sym (body_is_sent body posted)))

-- A configured base that is no CDN asks no server.
abbrev elsewhere : Downloaded
elsewhere = download_media down (codes "http://10.0.0.1") sent key (codes "/tmp") (codes "f") []

download_media-IsCdn_example :
    ((url : Text) × (elsewhere.asked ≡ url ∷ []) × IsCdn url)
    ⊎ ((elsewhere.asked ≡ [])
        × (elsewhere.files ≡ [])
        × (e : GatewayError) × (elsewhere.result ≡ err e))
download_media-IsCdn_example =
    download_media-IsCdn down (codes "http://10.0.0.1") sent key (codes "/tmp") (codes "f") []

none_asked : elsewhere.asked ≡ []
unfolding download_media is_valid_cdn_url build_cdn_download_url trim_slashes starts_with ◌==◌
none_asked = refl

abbrev picture : Bytes → MessageItem
picture param = record item_default {
  item_type = some (pos 2);
  image_item =
      some (record image_default { encrypt_query_param = some param; aes_key = some (codes "k") });
}

abbrev source : Bytes → Source
source param = record {
  param = param;
  aes_key_hex = codes "k";
  media_type = codes "image";
  original_name = none;
}

-- The body of an empty file.
abbrev empty : Bytes
empty = replicate 16 16

abbrev image : Media
image = (codes "/tmp/wechat-gateway-media/m-image", codes "image", none)

abbrev at_image : Bytes → Files
at_image b = (codes "/tmp/wechat-gateway-media/m-image", b) ∷ []

source_is : (param : Bytes) → source_of (picture param) ≡ some (source param)
unfolding source_of
source_is param = refl

got_first : try_download_media down (picture sent) (codes "m") cdn [] ≡ (some image, at_image file)
unfolding try_download_media ◌==◌ is_valid_cdn_url starts_with build_cdn_download_url
    aes128_ecb_decrypt insert
got_first = refl

got_second :
    try_download_media down (picture empty) (codes "m") cdn (at_image file)
    ≡ (some image, at_image [])
unfolding try_download_media ◌==◌ is_valid_cdn_url starts_with build_cdn_download_url
    aes128_ecb_decrypt insert
got_second = refl

shared_path_example :
    (image.0 ≡ image.0) × (b : Bytes) × (at_image [] ≡ insert image.0 b (at_image file))
shared_path_example =
    shared_path down (picture sent) (picture empty) (codes "m") cdn (source sent) (source empty)
      image image [] (at_image file) (at_image []) (source_is sent) (source_is empty) refl got_first
      got_second
