-- ===== src/Startup.antt =====
-- The start of the gateway in gateway/src/main.rs: the configuration, the store, the login and the
-- first state.
pub mod Restart
use ilink_gateway.Prelude.{ℕ, Option, none, some, [], ◌∷◌, ◌++◌, nat_eq, if◌then◌else◌, drop}
use ilink_gateway.Text.{Text, codes, ◌==◌}
use ilink_gateway.Text.Search.{starts_with}
use ilink_gateway.Text.Utf8.{byte_len}
use ilink_gateway.Error.{Result, ok, err, panic}
use ilink_gateway.Config.{GatewayConfig}
use ilink_gateway.Types.Message.{unwrap_or, or_else}
use ilink_gateway.Queue
use ilink_gateway.Registry
use ilink_gateway.Registry.{check_heartbeat}
use ilink_gateway.Store.{SqliteStore, StoredCredentials, Faults, load_credentials}
use ilink_gateway.Breaker
use ilink_gateway.Dedup
use ilink_gateway.WsRegistry
use ilink_gateway.Router
use ilink_gateway.Router.{Router, set_cmd_max_output_chars, set_policies, load_state}
use ilink_gateway.Poll.{Gateway}
use ilink_gateway.Login.{LoginEnv, Login, qr_login_and_save}

-- `strip_suffix`
unfoldable pub strip_suffix : Text → Text → Option Text
strip_suffix p [] = if p == [] then some [] else none
strip_suffix p (c ∷ s) =
    let rest = strip_suffix p s in
    if p == (c ∷ s) then some [] else elim rest [ none ↦ none | some r ↦ some (c ∷ r) ]

unfoldable pub cdn_base : GatewayConfig → Text
unfolding strip_suffix
cdn_base config = unwrap_or config.cdn_base_url (strip_suffix (codes "/c2c") config.cdn_base_url)

-- The two variables are none where they are not set.
unfoldable pub expand_tilde : Option Text → Option Text → Text → Text
expand_tilde home user_profile path =
    if starts_with (codes "~") path
    then (let dir = unwrap_or (codes ".") (or_else home user_profile) in
        if nat_eq (byte_len path) 1 then dir else dir ++ drop 1 path)
    else path

-- The router of a start, with the active agent that was stored.
unfoldable pub first_router : Faults → GatewayConfig → SqliteStore → Router
first_router fault config store = load_state fault store (
    set_policies config.dm_policy config.group_policy config.allowed_users config.allowed_groups
      (set_cmd_max_output_chars config.cmd_max_output_chars (Router.new Registry.new Queue.new)))

-- The state before the first poll, at one failure per thirty seconds and five minutes of dedup.
unfoldable pub first_gateway : Faults → GatewayConfig → SqliteStore → Gateway
unfolding first_router
first_gateway fault config store = record {
  router = first_router fault config store;
  message_contexts = [];
  dedup = Dedup.new 300;
  store = store;
  ws_registry = WsRegistry.new;
  breaker = Breaker.new 1 30 30;
  sent = [];
}

abbrev pub use_credentials :
    LoginEnv → Faults → Text → Text → SqliteStore → Result (Option StoredCredentials) → Option Login
use_credentials env save at base store (ok (some c)) = some (ok (c.token, c.base_url), store)
use_credentials env save at base store (ok none) = qr_login_and_save env save at base store
use_credentials env save at base store (err e) = some (err e, store)
use_credentials env save at base store panic = some (panic, store)

-- The stored credentials, or a login.
unfoldable pub first_credentials :
    LoginEnv → Faults → Faults → Text → GatewayConfig → SqliteStore → Option Login
first_credentials env load save at config store =
    use_credentials env save at config.ilink_base_url store (load_credentials load store)

-- One round of the heartbeat task, at a time in milliseconds.
unfoldable pub heartbeat_tick : ℕ → ℕ → Router → Router
heartbeat_tick now timeout_secs r = record r {
  registry = (check_heartbeat now timeout_secs r.registry).1;
}
