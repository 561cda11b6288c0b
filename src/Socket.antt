-- ===== src/Socket.antt =====
-- gateway/src/api/ws.rs: the WebSocket connection of an agent. A connection's channel has a number
-- that no other connection has.
pub mod Reconnect
use ilink_gateway.Prelude.{ℕ, Bool, false, Option, none, some, List, [], ◌∷◌, if◌then◌else◌}
use ilink_gateway.Text.{Text, ◌==◌, codes}
use ilink_gateway.Json.{Json, get, get_str, text_array}
use ilink_gateway.Types.{AgentReply}
use ilink_gateway.Types.Message.{unwrap_or}
use ilink_gateway.WsRegistry.{WsRegistry, open_channel, drop_receiver, register, unregister}

-- The head of `handle_socket`: a new channel, and its sender registered under the agent's name.
unfoldable pub connect : Text → ℕ → WsRegistry → WsRegistry
connect name n r = register name n (open_channel n r)

-- The end of `handle_socket`: the aborted task drops the receiver, and the name is unregistered.
unfoldable pub disconnect : Text → ℕ → WsRegistry → WsRegistry
disconnect name n r = unregister name (drop_receiver n r)

unfoldable pub reply_of : Json → AgentReply
reply_of reply = record {
  reply_to_id = unwrap_or [] (get_str (codes "reply_to_id") reply);
  text = unwrap_or [] (get_str (codes "text") reply);
  media_paths = elim (get (codes "media_paths") reply) [ none ↦ [] | some v ↦ text_array v ];
  to_user = get_str (codes "to_user") reply;
  context_token = get_str (codes "context_token") reply;
  agent_context = get_str (codes "agent_context") reply;
}

abbrev pub is_reply : Option Text → Bool
is_reply none = false
is_reply (some t) = t == codes "reply"

-- A text frame that the JSON library reads as a reply.
unfoldable pub read_reply : (Text → Option Json) → Text → Option AgentReply
unfolding reply_of
read_reply from_str frame = elim (from_str frame) [
  | none ↦ none
  | some reply ↦ if is_reply (get_str (codes "type") reply) then some (reply_of reply) else none
]

-- What comes over the connection, and what goes into the reply channel until it closes.
pub data Frame : Type 0 where
  text_frame : Text → Frame
  close : Frame
  pong : Frame
  other : Frame
  failed : Frame

unfoldable pub read_loop : (Text → Option Json) → List Frame → List AgentReply
unfolding read_reply
read_loop from_str [] = []
read_loop from_str (text_frame t ∷ frames) =
    let rest = read_loop from_str frames in
    elim (read_reply from_str t) [ none ↦ rest | some reply ↦ reply ∷ rest ]
read_loop from_str (close ∷ frames) = []
read_loop from_str (failed ∷ frames) = []
read_loop from_str (pong ∷ frames) = read_loop from_str frames
read_loop from_str (other ∷ frames) = read_loop from_str frames
