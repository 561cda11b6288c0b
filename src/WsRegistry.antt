-- ===== src/WsRegistry.antt =====
-- gateway/src/agents/ws_registry.rs: the WebSocket sender of each agent.
use ilink_gateway.Prelude.{
  ℕ, Bool, true, false, Option, none, some, List, [], ◌∷◌, ◌++◌, nat_eq, if◌then◌else◌, length,
}
use ilink_gateway.Text.{Text}
use ilink_gateway.Map.{Map, lookup, contains, insert, remove}

-- A sender is known by the number of its channel. `channels` holds, for each channel, whether
-- its receiver still lives and what was sent into it.
pub record Channel : Type 0 where
  pub live : Bool
  pub sent : List Text

pub record WsRegistry : Type 0 where
  pub senders : Map ℕ
  pub channels : ℕ → Channel

abbrev pub no_channel : Channel
no_channel = record { live = false; sent = [] }

unfoldable pub new : WsRegistry
new = record { senders = []; channels = λ n. no_channel }

abbrev pub update : (ℕ → Channel) → ℕ → Channel → ℕ → Channel
update f n c m = if nat_eq n m then c else f m

-- `mpsc::unbounded_channel()`, and `drop(rx)`.
unfoldable pub open_channel : ℕ → WsRegistry → WsRegistry
open_channel n r = record r { channels = update r.channels n (record { live = true; sent = [] }) }

unfoldable pub drop_receiver : ℕ → WsRegistry → WsRegistry
drop_receiver n r = record r {
  channels = update r.channels n (record (r.channels n) { live = false });
}

unfoldable pub register : Text → ℕ → WsRegistry → WsRegistry
register name tx r = record r { senders = insert name tx r.senders }

unfoldable pub unregister : Text → WsRegistry → WsRegistry
unregister name r = record r { senders = remove name r.senders }

-- `tx.send(..)`: it fails where the receiver is gone.
abbrev pub send : Text → ℕ → WsRegistry → Bool × WsRegistry
send json tx r =
    if (r.channels tx).live
    then (
      true,
      record r {
        channels =
            update r.channels tx
              (record (r.channels tx) { sent = (r.channels tx).sent ++ (json ∷ []) });
      },
    )
    else (false, r)

abbrev pub send_to : Option ℕ → Text → WsRegistry → Bool × WsRegistry
send_to none json r = (false, r)
send_to (some tx) json r = send json tx r

unfoldable pub push : Text → Text → WsRegistry → Bool × WsRegistry
push name json r = send_to (lookup name r.senders) json r

unfoldable pub is_connected : Text → WsRegistry → Bool
is_connected name r = contains name r.senders

unfoldable pub len : WsRegistry → ℕ
len r = length r.senders

unfoldable pub is_empty : WsRegistry → Bool
is_empty r = nat_eq (length r.senders) 0
