-- ===== src/Download/RoundTrip.antt =====
-- gateway/src/ilink/download.rs with gateway/src/ilink/media.rs: what was uploaded is downloaded.
use ilink_gateway.Prelude.{◌≡◌, refl, ap, ap₂, ◌∙◌, true, none, some, []}
use ilink_gateway.Text.{Text, eq_refl}
use ilink_gateway.Error.{Result, ok}
use ilink_gateway.Map.{lookup}
use ilink_gateway.Map.Laws.{lookup-insert}
use ilink_gateway.Media.{Bytes, aes128_ecb_decrypt, is_valid_cdn_url}
use ilink_gateway.Client.{Client}
use ilink_gateway.Replies.{MediaUpload}
use ilink_gateway.Upload.{UploadEnv, build_cdn_download_url, process_media_upload}
use ilink_gateway.Upload.Stored.{Ciphers, Posted, upload-Posted}
use ilink_gateway.Download.{
  Fetched, DownloadEnv, Files, Downloaded, join_path, make_and_write, save_file, download_media,
}

-- Nothing goes wrong with the directory and the file.
pub record Writable (env : DownloadEnv) : Type 0 where
  pub makes : (dir : Text) → env.make_dir dir ≡ none
  pub writes : (path : Text) → env.write path ≡ none

-- An answer with a body.
abbrev pub served : Bytes → Result Fetched
served body = ok (record { status = 200; reason = []; bytes = ok body })

save_file-writes :
    (env : DownloadEnv) (dir name : Text) (bytes : Bytes) (files : Files)
    → Writable env
    → save_file env dir name bytes files
      ≡ (ok (join_path dir name), ilink_gateway.Map.insert (join_path dir name) bytes files)
unfolding save_file
save_file-writes env dir name bytes files w =
    ap₂ (λ m v. make_and_write m v (join_path dir name) bytes files) (w.makes dir)
      (w.writes (join_path dir name))

-- A file that a valid URL serves, and that decrypts, is saved.
pub download-served :
    (env : DownloadEnv) (base param : Text) (key body file : Bytes) (dir name : Text)
    (files : Files)
    → Writable env
    → is_valid_cdn_url (build_cdn_download_url base param) ≡ true
    → env.fetch (build_cdn_download_url base param) ≡ served body
    → aes128_ecb_decrypt env.encrypt_block env.decrypt_block key body ≡ ok file
    → ((download_media env base param key dir name files).result ≡ ok (join_path dir name))
      × ((download_media env base param key dir name files).files
          ≡ ilink_gateway.Map.insert (join_path dir name) file files)
unfolding download_media
download-served env base param key body file dir name files w valid fetched plain =
    rw (valid, fetched, plain, save_file-writes env dir name file files w) (refl, refl)

-- If an upload succeeded, the CDN serves the posted body under its parameter, the URL is the CDN's
-- and the cache can be written, then a download with the same cipher and key saves the file that
-- was uploaded, under the path that it returns.
pub download-upload :
    (env : UploadEnv) (client : Client) (token to path : Text) (u : MediaUpload)
    (other : DownloadEnv) (base dir name : Text) (files : Files)
    → Ciphers env
    → process_media_upload env client token to path ≡ ok u
    → other.encrypt_block ≡ env.encrypt_block
    → other.decrypt_block ≡ env.decrypt_block
    → Writable other
    → is_valid_cdn_url (build_cdn_download_url base u.encrypt_query_param) ≡ true
    → ((body : Bytes)
        → Posted env body u.encrypt_query_param
        → other.fetch (build_cdn_download_url base u.encrypt_query_param) ≡ served body)
    → (file : Bytes) × (env.read path ≡ ok file)
      × (let d : Downloaded =
            download_media other base u.encrypt_query_param env.aes_key_bytes dir name files in
          (d.result ≡ ok (join_path dir name)) × (lookup (join_path dir name) d.files ≡ some file))
download-upload env client token to path u other base dir name files c up same_e same_d w valid
      serves =
    let (file, body, read, posted, plain, size, key) =
      upload-Posted env client token to path u c up in
    let plain' : aes128_ecb_decrypt other.encrypt_block other.decrypt_block env.aes_key_bytes body
        ≡ ok file =
      ap₂ (λ e d. aes128_ecb_decrypt e d env.aes_key_bytes body) same_e same_d ∙ plain in
    let (result, saved) =
      download-served other base u.encrypt_query_param env.aes_key_bytes body file dir name files w
        valid (serves body posted) plain' in
    (
      file,
      read,
      (result, ap (lookup (join_path dir name)) saved ∙ saved_here (join_path dir name) file files),
    )
  where
    saved_here :
        (p : Text) (b : Bytes) (m : Files) → lookup p (ilink_gateway.Map.insert p b m) ≡ some b
    saved_here p b m = lookup-insert p p b m ∙ rw eq_refl refl
