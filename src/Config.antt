-- ===== src/Config.antt =====
-- gateway/src/config.rs: the configuration of the gateway, from its environment variables.
use ilink_gateway.Prelude.{
  ℕ, ◌^◌, Bool, false, not, ◌||◌, Option, none, some, List, [], ◌∷◌, map, ltb, nat_eq,
  if◌then◌else◌, keep,
}
use ilink_gateway.Text.{Text, ◌==◌, codes}
use ilink_gateway.Text.Space.{trim}
use ilink_gateway.Text.Search.{to_ascii_lowercase}
use ilink_gateway.Text.Number.{parse_u64}
use ilink_gateway.Types.Message.{unwrap_or}

pub data DmPolicy : Type 0 where
  disabled pairing allowlist open_to_all : DmPolicy

pub data GroupPolicy : Type 0 where
  no_groups all_groups allowed_only : GroupPolicy

-- `DmPolicy::parse`
unfoldable pub parse_dm_policy : Text → DmPolicy
parse_dm_policy s =
    let t = to_ascii_lowercase s in
    if t == codes "disabled"
    then disabled
    else if t == codes "pairing"
    then pairing
    else if t == codes "allowlist"
    then allowlist
    else if t == codes "open"
    then open_to_all
    else open_to_all

-- `GroupPolicy::parse`
unfoldable pub parse_group_policy : Text → GroupPolicy
parse_group_policy s =
    let t = to_ascii_lowercase s in
    if t == codes "disabled"
    then no_groups
    else if t == codes "all"
    then all_groups
    else if t == codes "allowlist"
    then allowed_only
    else no_groups

-- A `HashSet<String>` as the list of its insertions.
abbrev pub TextSet : Type 0
TextSet = List Text

-- `set.contains(k)`
unfoldable pub member : Text → TextSet → Bool
member k [] = false
member k (j ∷ s) = j == k || member k s

-- `str::split(sep)`: the part in front of the first separator, and the parts behind it.
abbrev pub split_at : ℕ → ℕ → Text × List Text → Text × List Text
split_at sep c (part, parts) = if nat_eq c sep then ([], part ∷ parts) else (c ∷ part, parts)

unfoldable pub split_parts : ℕ → Text → Text × List Text
split_parts sep [] = ([], [])
split_parts sep (c ∷ s) = split_at sep c (split_parts sep s)

unfoldable pub split : ℕ → Text → List Text
unfolding split_parts
split sep s = let (part, parts) = split_parts sep s in part ∷ parts

unfoldable pub parse_set : Text → TextSet
unfolding split
parse_set s = keep (λ t. not (t == [])) (map trim (split b',' s))

pub record GatewayConfig : Type 0 where
  pub http_addr : Text
  pub http_port : ℕ
  pub ilink_base_url : Text
  pub cdn_base_url : Text
  pub db_path : Text
  pub cmd_timeout_secs : ℕ
  pub cmd_max_output_chars : ℕ
  pub dm_policy : DmPolicy
  pub group_policy : GroupPolicy
  pub allowed_users : TextSet
  pub allowed_groups : TextSet

abbrev pub ilink_base_url_default : Text
ilink_base_url_default = codes "https://ilinkai.weixin.qq.com"

abbrev pub ilink_cdn_base_url : Text
ilink_cdn_base_url = codes "https://novac2c.cdn.weixin.qq.com/c2c"

unfoldable pub default : GatewayConfig
default = record {
  http_addr = codes "127.0.0.1";
  http_port = 8765;
  ilink_base_url = ilink_base_url_default;
  cdn_base_url = ilink_cdn_base_url;
  db_path = codes "~/.wechat-gateway/data.db";
  cmd_timeout_secs = 30;
  cmd_max_output_chars = 2000;
  dm_policy = open_to_all;
  group_policy = no_groups;
  allowed_users = [];
  allowed_groups = [];
}

-- `std::env::var`: none where the variable is not set or is no Unicode.
abbrev pub Environment : Type 0
Environment = Text → Option Text

-- `v.parse().ok()` at an unsigned type below `limit`.
abbrev pub read_below : ℕ → Option ℕ → Option ℕ
read_below limit none = none
read_below limit (some n) = if ltb n limit then some n else none

-- `var(name).ok().and_then(|v| v.parse().ok()).unwrap_or(d)`
unfoldable pub env_number : Environment → Text → ℕ → ℕ → ℕ
env_number env name limit d = elim (env name) [
  | none ↦ d
  | some v ↦ unwrap_or d (read_below limit (parse_u64 v))
]

-- `var(name).map(f).unwrap_or(d)`
abbrev pub env_map {ℓ} : {A : Type ℓ} → Environment → Text → (Text → A) → A → A
env_map env name f d = elim (env name) [ none ↦ d | some v ↦ f v ]

unfoldable pub from_env : Environment → GatewayConfig
unfolding env_number
from_env env = record {
  http_addr = unwrap_or (codes "127.0.0.1") (env (codes "GW_HTTP_ADDR"));
  http_port = env_number env (codes "GW_HTTP_PORT") (2 ^ 16) 8765;
  ilink_base_url = unwrap_or ilink_base_url_default (env (codes "GW_ILINK_BASE_URL"));
  cdn_base_url = unwrap_or ilink_cdn_base_url (env (codes "GW_CDN_BASE_URL"));
  db_path = unwrap_or (codes "~/.wechat-gateway/data.db") (env (codes "GW_DB_PATH"));
  cmd_timeout_secs = env_number env (codes "GW_CMD_TIMEOUT") (2 ^ 64) 30;
  cmd_max_output_chars = env_number env (codes "GW_CMD_MAX_OUTPUT") (2 ^ 64) 2000;
  dm_policy = env_map env (codes "GW_DM_POLICY") parse_dm_policy open_to_all;
  group_policy = env_map env (codes "GW_GROUP_POLICY") parse_group_policy no_groups;
  allowed_users = env_map env (codes "GW_ALLOWED_USERS") parse_set [];
  allowed_groups = env_map env (codes "GW_ALLOWED_GROUPS") parse_set [];
}
