-- ===== src/Download/Shared.antt =====
-- gateway/src/main.rs: the files of two items of one message.
use ilink_gateway.Prelude.{
  ◌≡◌, inl, inr, refl, sym, ap, ◌∙◌, Option, none, some, ◌∷◌, ◌++◌, Bool-cases,
}
use mathlib.Core.Path.{subst}
use ilink_gateway.Text.{Text}
use ilink_gateway.Error.{GatewayError, Result, ok, err, panic}
use ilink_gateway.Map.{lookup}
use ilink_gateway.Types.{MessageItem}
use ilink_gateway.Media.{Bytes, is_valid_cdn_url}
use ilink_gateway.Upload.{build_cdn_download_url}
use ilink_gateway.Download.{
  DownloadEnv, Files, Source, source_of, key_of, join_path, make_and_write, save_file,
  save_decrypted, download_media, media_cache_dir, file_name_of, Media, media_of, download_source,
  try_download_media,
}

-- A result of a save is an error, or the path with the file in its place.
abbrev pub SavedAt : Text → Files → Result Text × Files → Type 0
SavedAt path files (ok p, files') =
    (p ≡ path) × (b : Bytes) × (files' ≡ ilink_gateway.Map.insert path b files)
SavedAt path files (r, files') = files' ≡ files

make_and_write-SavedAt :
    (made written : Option GatewayError) (path : Text) (bytes : Bytes) (files : Files)
    → SavedAt path files (make_and_write made written path bytes files)
make_and_write-SavedAt (some e) written path bytes files = refl
make_and_write-SavedAt none (some e) path bytes files = refl
make_and_write-SavedAt none none path bytes files = (refl, bytes, refl)

save_file-SavedAt :
    (env : DownloadEnv) (dir name : Text) (bytes : Bytes) (files : Files)
    → SavedAt (join_path dir name) files (save_file env dir name bytes files)
unfolding save_file
save_file-SavedAt env dir name bytes files =
    make_and_write-SavedAt (env.make_dir dir) (env.write (join_path dir name)) (join_path dir name)
      bytes files

save_decrypted-SavedAt :
    (env : DownloadEnv) (dir name : Text) (r : Result Bytes) (files : Files)
    → SavedAt (join_path dir name) files (save_decrypted env dir name r files)
save_decrypted-SavedAt env dir name (ok bytes) files = save_file-SavedAt env dir name bytes files
save_decrypted-SavedAt env dir name (err e) files = refl
save_decrypted-SavedAt env dir name panic files = refl

download-SavedAt :
    (env : DownloadEnv) (base param : Text) (key : Bytes) (dir name : Text) (files : Files)
    → SavedAt (join_path dir name) files (
      (download_media env base param key dir name files).result,
      (download_media env base param key dir name files).files,
    )
unfolding download_media
download-SavedAt env base param key dir name files =
    elim (Bool-cases (is_valid_cdn_url (build_cdn_download_url base param))) [
      | inr blocked ↦ rw blocked refl
      | inl valid ↦ rw valid (save_decrypted-SavedAt env dir name _ files)
    ]

-- A download of media is none and leaves the files, or it is the path of its message and its type,
-- with the file there.
abbrev pub TriedAt : Text → Files → Option Media × Files → Type 0
TriedAt path files (none, files') = files' ≡ files
TriedAt path files (some m, files') =
    (m.0 ≡ path) × (b : Bytes) × (files' ≡ ilink_gateway.Map.insert path b files)

media_of-TriedAt :
    (path : Text) (s : Source) (r : Result Text) (files files' : Files)
    → SavedAt path files (r, files')
    → TriedAt path files (media_of s r, files')
media_of-TriedAt path s (ok p) files files' h = h
media_of-TriedAt path s (err e) files files' h = h
media_of-TriedAt path s panic files files' h = h

-- Where the file of a source is put.
abbrev pub path_of : Text → Source → Text
path_of msg_id s = join_path media_cache_dir (file_name_of msg_id s)

download_source-TriedAt :
    (env : DownloadEnv) (msg_id base : Text) (s : Source) (key : Option Bytes) (files : Files)
    → TriedAt (path_of msg_id s) files (download_source env msg_id base s key files)
download_source-TriedAt env msg_id base s none files = refl
download_source-TriedAt env msg_id base s (some key) files =
    let d = download_media env base s.param key media_cache_dir (file_name_of msg_id s) files in
    media_of-TriedAt (path_of msg_id s) s d.result files d.files
      (download-SavedAt env base s.param key media_cache_dir (file_name_of msg_id s) files)

try-TriedAt :
    (env : DownloadEnv) (item : MessageItem) (msg_id base : Text) (s : Source) (files : Files)
    → source_of item ≡ some s
    → TriedAt (path_of msg_id s) files (try_download_media env item msg_id base files)
unfolding try_download_media
try-TriedAt env item msg_id base s files h =
    rw (h, try_download_media) (download_source-TriedAt env msg_id base s (key_of env s) files)

-- If two items of one message have the same media type and both are downloaded, one after the
-- other, both are reported under one path, and the file of the second is written over the first.
pub shared_path :
    (env : DownloadEnv) (first second : MessageItem) (msg_id base : Text) (s t : Source)
    (m n : Media) (files files' files'' : Files)
    → source_of first ≡ some s
    → source_of second ≡ some t
    → s.media_type ≡ t.media_type
    → try_download_media env first msg_id base files ≡ (some m, files')
    → try_download_media env second msg_id base files' ≡ (some n, files'')
    → (m.0 ≡ n.0) × (b : Bytes) × (files'' ≡ ilink_gateway.Map.insert m.0 b files')
shared_path env first second msg_id base s t m n files files' files'' hs ht same got got' =
    let (at, b, put) =
      subst (TriedAt (path_of msg_id s) files) got (try-TriedAt env first msg_id base s files hs) in
    let (at', b', put') =
      subst (TriedAt (path_of msg_id t) files') got'
        (try-TriedAt env second msg_id base t files' ht) in
    let one : path_of msg_id s ≡ path_of msg_id t =
      ap (λ (k : Text). join_path media_cache_dir (msg_id ++ (b'-' ∷ k))) same in
    (
      at ∙ one ∙ sym at',
      b',
      put' ∙ ap (λ (p : Text). ilink_gateway.Map.insert p b' files') (sym (at ∙ one)),
    )
