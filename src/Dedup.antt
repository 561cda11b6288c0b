-- ===== src/Dedup.antt =====
-- The message dedup cache of gateway/src/main.rs.
pub mod Window
pub mod Key
use ilink_gateway.Prelude.{ℕ, ◌-◌, Bool, true, false, [], ◌∷◌, ◌++◌, ltb, if◌then◌else◌, pos}
use ilink_gateway.Text.{Text}
use ilink_gateway.Text.Number.{show_int}
use ilink_gateway.Map.{Map, contains, insert, retain}
use ilink_gateway.Types.{WeixinMessage}
use ilink_gateway.Types.Message.{message_text, unwrap_or}

pub record DedupCache : Type 0 where
  pub seen : Map ℕ
  pub ttl : ℕ

unfoldable pub new : ℕ → DedupCache
new ttl = record { seen = []; ttl = ttl }

-- `now.duration_since(*t) < ttl`
abbrev pub fresh : ℕ → ℕ → ℕ → Bool
fresh now ttl t = ltb (now - t) ttl

unfoldable pub check_and_record : ℕ → Text → DedupCache → Bool × DedupCache
check_and_record now key c =
    let seen : Map ℕ = retain (fresh now c.ttl) c.seen in
    if contains key seen
    then (false, record c { seen = seen })
    else (true, record c { seen = insert key now seen })

-- The key, over the library's MD5 in hexadecimal.
unfoldable pub dedup_key : (Text → Text) → WeixinMessage → Text
dedup_key md5 msg =
    show_int (unwrap_or (pos 0) msg.message_id) ++ (b':' ∷ md5 (unwrap_or [] (message_text msg)))
