-- ===== src/Convert.antt =====
-- The conversion of a message for agents in gateway/src/router/router.rs: `to_agent_message` and
-- `extract_media_info`.
use ilink_gateway.Prelude.{false, Option, none, some, List, [], ◌∷◌, if◌then◌else◌, ℤ, pos, int_eq}
use ilink_gateway.Text.{Text, codes}
use ilink_gateway.Text.Number.{show_int}
use ilink_gateway.Types.{WeixinMessage, MessageItem, AgentMessage, MediaItem, QueuedMessage}
use ilink_gateway.Types.Message.{
  message_text, unwrap_or, type_text, type_image, type_voice, type_file, type_video,
}

-- The first item of a message.
abbrev pub first_of_list : List MessageItem → Option MessageItem
first_of_list [] = none
first_of_list (item ∷ items) = some item

abbrev pub first_item : WeixinMessage → Option MessageItem
first_item msg = elim msg.item_list [ none ↦ none | some items ↦ first_of_list items ]

unfoldable pub type_name : ℤ → Text
type_name t =
    if int_eq t type_text
    then codes "text"
    else if int_eq t type_image
    then codes "image"
    else if int_eq t type_voice
    then codes "voice"
    else if int_eq t type_file
    then codes "file"
    else if int_eq t type_video
    then codes "video"
    else codes "unknown"

-- A media item that is not yet downloaded.
abbrev pub pending_media : Text → Option Text → List MediaItem
pending_media media_type original_name =
    record { media_type = media_type; local_path = []; original_name = original_name } ∷ []

unfoldable pub item_media : MessageItem → List MediaItem
item_media item =
    let t = unwrap_or type_text item.item_type in
    if int_eq t type_image
    then elim item.image_item [ none ↦ [] | some i ↦ pending_media (codes "image") i.md5 ]
    else if int_eq t type_voice
    then elim item.voice_item [ none ↦ [] | some v ↦ pending_media (codes "voice") none ]
    else if int_eq t type_video
    then elim item.video_item [ none ↦ [] | some v ↦ pending_media (codes "video") v.md5 ]
    else if int_eq t type_file
    then elim item.file_item [ none ↦ [] | some f ↦ pending_media (codes "file") f.file_name ]
    else []

unfoldable pub extract_media_info : WeixinMessage → List MediaItem
unfolding item_media
extract_media_info msg = elim (first_item msg) [ none ↦ [] | some item ↦ item_media item ]

abbrev pub agent_message_of : WeixinMessage → MessageItem → AgentMessage
agent_message_of msg item = record {
  id = elim msg.message_id [ none ↦ [] | some id ↦ show_int id ];
  from_user = unwrap_or [] msg.from_user_id;
  text = unwrap_or [] (message_text msg);
  timestamp = unwrap_or (pos 0) msg.create_time_ms;
  context_token = unwrap_or [] msg.context_token;
  message_type = type_name (unwrap_or type_text item.item_type);
  media = extract_media_info msg;
  agent_context = none;
}

unfoldable pub to_agent_message : WeixinMessage → Option AgentMessage
to_agent_message msg = elim (first_item msg) [
  | none ↦ none
  | some item ↦ some (agent_message_of msg item)
]

abbrev pub to_queued : Option Text → AgentMessage → QueuedMessage
to_queued agent_context m = record {
  id = m.id;
  from_user = m.from_user;
  text = m.text;
  timestamp = m.timestamp;
  context_token = m.context_token;
  message_type = m.message_type;
  delivered = false;
  media = m.media;
  agent_context = agent_context;
}
