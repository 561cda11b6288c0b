-- ===== src/Upload/Stored.antt =====
-- gateway/src/ilink/media.rs: what an upload has put on the CDN.
use ilink_gateway.Prelude.{
  ◌*◌, ◌≡◌, inl, inr, sym, ap, ◌∙◌, true, some, arith, length, Bool-cases, Option-cases, pos,
}
use ilink_gateway.Text.{Text}
use ilink_gateway.Error.{ok, ◌>>=◌, bind-ok, ok_inj}
use ilink_gateway.Media.{Bytes, aes128_ecb_encrypt, aes128_ecb_decrypt}
use ilink_gateway.Media.RoundTrip.{blocks, decrypt-encrypt}
use ilink_gateway.Client.{Client}
use ilink_gateway.Client.Calls.{get_upload_url, is_success}
use ilink_gateway.Replies.{MediaUpload}
use ilink_gateway.Upload.{
  CdnResponse, UploadEnv, upload_request, upload_url, read_cdn, built, uploaded, receive, post_body,
  upload_to, upload_encrypted, encrypt_and_upload, process_media_upload,
}

read_cdn-ok :
    (answer : CdnResponse) (p : Text)
    → read_cdn answer ≡ ok p
    → (is_success answer.status ≡ true) × (answer.encrypted_param ≡ some (ok p))
unfolding read_cdn
read_cdn-ok answer p h = elim (Bool-cases (is_success answer.status)) [
  | inr bad ↦ absurd (ground arith)
  | inl good ↦ elim (Option-cases answer.encrypted_param) [
    | inl missing ↦ absurd (ground arith)
    | inr (r, e) ↦ (good, ground arith)
  ]
]

-- A body was posted, and answered with success and this parameter.
abbrev pub Posted : UploadEnv → Bytes → Text → Type 0
Posted env body param =
    (url : Text) × (answer : CdnResponse) × (env.post url body ≡ ok answer)
    × (is_success answer.status ≡ true)
    × (answer.encrypted_param ≡ some (ok param))

receive-ok :
    (env : UploadEnv) (path : Text) (body : Bytes) (answer : CdnResponse) (u : MediaUpload)
    → receive env path body answer ≡ ok u
    → (is_success answer.status ≡ true)
      × (answer.encrypted_param ≡ some (ok u.encrypt_query_param))
      × (u ≡ uploaded env path body u.encrypt_query_param)
receive-ok env path body answer u h =
    let (param, read, last) = bind-ok (read_cdn answer) (λ p. ok (uploaded env path body p)) u h in
    let same = ok_inj (uploaded env path body param) u last in
    let named = ap (λ (m : MediaUpload). m.encrypt_query_param) same in
    let (good, header) = read_cdn-ok answer param read in
    (
      good,
      header ∙ ap (λ (t : Text). some (ok t)) named,
      sym same ∙ ap (uploaded env path body) named,
    )

upload_encrypted-ok :
    (env : UploadEnv) (client : Client) (token to path : Text) (file body : Bytes) (u : MediaUpload)
    → upload_encrypted env client token to path file body ≡ ok u
    → Posted env body u.encrypt_query_param × (u ≡ uploaded env path body u.encrypt_query_param)
unfolding upload_encrypted
upload_encrypted-ok env client token to path file body u h =
    let (resp, got, h1) =
      bind-ok (get_upload_url env.client_env client token (upload_request env to path file body))
        (upload_to env path body) u h in
    let (url, has, h2) = bind-ok (upload_url resp) (post_body env path body) u h1 in
    let (t, can, h3) =
      bind-ok (built env.build) (λ (w : Unit {0}). env.post url body >>= receive env path body) u
        h2 in
    let (answer, posted, h4) = bind-ok (env.post url body) (receive env path body) u h3 in
    let (good, header, same) = receive-ok env path body answer u h4 in
    ((url, answer, posted, good, header), same)

module _ (env : UploadEnv) where
  -- A block cipher that undoes its own blocks and keeps their length, under the drawn key.
  pub record Ciphers : Type 0 where
    pub sixteen : length env.aes_key_bytes ≡ 16
    pub keeps : (b : Bytes) → length b ≡ 16 → length (env.encrypt_block env.aes_key_bytes b) ≡ 16
    pub back :
        (b : Bytes)
        → length b ≡ 16
        → env.decrypt_block env.aes_key_bytes (env.encrypt_block env.aes_key_bytes b) ≡ b

-- An upload that succeeds has posted a body to the CDN that decrypts, with the drawn key, to the
-- file; the message gets the CDN's parameter, the body's size, which is a whole number of blocks,
-- and the key.
pub upload-Posted :
    (env : UploadEnv) (client : Client) (token to path : Text) (u : MediaUpload)
    → Ciphers env
    → process_media_upload env client token to path ≡ ok u
    → (file : Bytes) × (body : Bytes) × (env.read path ≡ ok file)
      × Posted env body u.encrypt_query_param
      × (aes128_ecb_decrypt env.encrypt_block env.decrypt_block env.aes_key_bytes body ≡ ok file)
      × (u.mid_size ≡ pos (blocks file * 16))
      × (u.aes_key ≡ env.base64 (env.hex_encode env.aes_key_bytes))
unfolding process_media_upload
upload-Posted env client token to path u c h =
    let (file, read, h1) =
      bind-ok (env.read path) (encrypt_and_upload env client token to path) u h in
    let (body, encrypted, h2) =
      bind-ok (aes128_ecb_encrypt env.encrypt_block env.decrypt_block env.aes_key_bytes file)
        (upload_encrypted env client token to path file) u h1 in
    let (t, enc, size, dec) =
      decrypt-encrypt env.encrypt_block env.decrypt_block env.aes_key_bytes file c.sixteen c.keeps
        c.back in
    let (posted, same) = upload_encrypted-ok env client token to path file body u h2 in
    let t_body = ok_inj t body (sym enc ∙ encrypted) in
    (
      file,
      body,
      read,
      posted,
      ap (aes128_ecb_decrypt env.encrypt_block env.decrypt_block env.aes_key_bytes) (sym t_body)
          ∙ dec,
      ap (λ (m : MediaUpload). m.mid_size) same
          ∙ ap (λ (b : Bytes). pos (length b)) (sym t_body)
          ∙ ap pos size,
      ap (λ (m : MediaUpload). m.aes_key) same,
    )
