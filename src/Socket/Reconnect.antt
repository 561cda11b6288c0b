-- ===== src/Socket/Reconnect.antt =====
-- gateway/src/api/ws.rs and gateway/src/agents/ws_registry.rs: pushes to an agent that connects,
-- disconnects and connects again.
use ilink_gateway.Prelude.{ℕ, ◌≡◌, ◌≢◌, refl, true, false, [], ◌∷◌, arith, nat_eq}
use ilink_gateway.Text.{Text, eq_refl}
use ilink_gateway.Map.Laws.{lookup-insert, lookup-remove, contains-eq-is_some}
use ilink_gateway.WsRegistry.{
  WsRegistry, open_channel, drop_receiver, register, unregister, push, is_connected,
}
use ilink_gateway.Socket.{connect, disconnect}

nat_eq_refl : (n : ℕ) → nat_eq n n ≡ true
nat_eq_refl n = ground arith

-- A message pushed to an agent that has just connected is accepted and is the one text that its new
-- connection has; the connections with another number are as they were.
pub push-connect :
    (name json : Text) (n : ℕ) (r : WsRegistry)
    → ((push name json (connect name n r)).0 ≡ true)
      × (((push name json (connect name n r)).1.channels n).sent ≡ json ∷ [])
      × ((m : ℕ) → m ≢ n → (push name json (connect name n r)).1.channels m ≡ r.channels m)
unfolding push connect register open_channel
push-connect name json n r =
    rw (lookup-insert, eq_refl) (ground arith, ground arith, (λ m h. ground arith))

-- If an agent connects a second time, with another channel, before its first connection has ended,
-- then the end of the first connection leaves the agent unregistered although its second connection
-- is open: every push to it fails.
pub push-disconnect_old :
    (name json : Text) (n m : ℕ) (r : WsRegistry)
    → n ≢ m
    → let r' : WsRegistry = disconnect name n (connect name m (connect name n r)) in
      ((r'.channels m).live ≡ true)
      × (is_connected name r' ≡ false)
      × ((push name json r').0 ≡ false)
unfolding push is_connected disconnect unregister drop_receiver connect register open_channel
push-disconnect_old name json n m r h = (
  ground arith,
  rw (contains-eq-is_some, lookup-remove, eq_refl) refl,
  rw (lookup-remove, eq_refl) refl,
)
