-- ===== src/Typing/Stale.antt =====
-- gateway/src/main.rs: how long a cached ticket is used.
use ilink_gateway.Prelude.{ℕ, ◌+◌, ◌≤◌, ◌≡◌, refl, none, some, [], ◌∷◌, arith, pos}
use ilink_gateway.Text.{Text}
use ilink_gateway.Map.{lookup}
use ilink_gateway.Typing.{TypingTicketCache, get, typing_request, stop_typing}

-- Ten minutes after its fetch a ticket is not read from the cache any more, yet a task that stops
-- the typing indicator still sends it.
pub stop_typing_expired :
    (now created : ℕ) (user_id ticket : Text) (c : TypingTicketCache)
    → lookup user_id c.tickets ≡ some (ticket, created)
    → created + 600 ≤ now
    → (get now user_id c ≡ none)
      × (stop_typing user_id c ≡ typing_request user_id ticket (pos 2) ∷ [])
unfolding get stop_typing
stop_typing_expired now created user_id ticket c h old =
    (rw (h, get) (ground arith), rw (h, stop_typing) refl)
