-- ===== src/Download/Guarded.antt =====
-- gateway/src/ilink/download.rs: which servers are asked for a file.
use ilink_gateway.Prelude.{◌≡◌, ◌⊎◌, inl, inr, refl, true, [], ◌∷◌, ◌++◌, Bool-cases}
use ilink_gateway.Text.{Text, codes}
use ilink_gateway.Text.Search.{starts_with, starts_with-split}
use ilink_gateway.Media.{Bytes, is_valid_cdn_url}
use ilink_gateway.Upload.{build_cdn_download_url}
use ilink_gateway.Error.{GatewayError, err}
use ilink_gateway.Download.{DownloadEnv, Files, Downloaded, download_media}

-- A URL of one of the two hosts of the CDN, by HTTPS.
abbrev pub IsCdn : Text → Type 0
IsCdn url =
    (rest : Text) × ((url ≡ codes "https://novac2c.cdn.weixin.qq.com/" ++ rest)
      ⊎ (url ≡ codes "https://cdn.weixin.qq.com/" ++ rest))

valid-IsCdn : (url : Text) → is_valid_cdn_url url ≡ true → IsCdn url
unfolding is_valid_cdn_url
valid-IsCdn url h =
    elim (Bool-cases (starts_with (codes "https://novac2c.cdn.weixin.qq.com/") url)) [
      | inl first ↦
          let (rest, e) =
            starts_with-split (codes "https://novac2c.cdn.weixin.qq.com/") url first in
          (rest, inl e)
      | inr other ↦
          let (rest, e) =
            starts_with-split (codes "https://cdn.weixin.qq.com/") url (rw other at h) in
          (rest, inr e)
    ]

-- Whatever base URL is configured, and whatever parameter a message carries: a download asks for one
-- URL, which is one of the CDN's two hosts by HTTPS, or it asks for none, is an error and leaves the
-- files alone.
pub download_media-IsCdn :
    (env : DownloadEnv) (base param : Text) (key : Bytes) (dir name : Text) (files : Files)
    → let d : Downloaded = download_media env base param key dir name files in
      ((url : Text) × (d.asked ≡ url ∷ []) × IsCdn url)
      ⊎ ((d.asked ≡ []) × (d.files ≡ files) × (e : GatewayError) × (d.result ≡ err e))
unfolding download_media
download_media-IsCdn env base param key dir name files =
    elim (Bool-cases (is_valid_cdn_url (build_cdn_download_url base param))) [
      | inl valid ↦ rw valid (inl (build_cdn_download_url base param, refl, valid-IsCdn _ valid))
      | inr blocked ↦ rw blocked (inr (refl, refl, _, refl))
    ]
