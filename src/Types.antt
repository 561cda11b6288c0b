-- ===== src/Types.antt =====
-- gateway/src/ilink/types.rs: the iLink protocol types and the types that agents see.
pub mod Message
pub mod Requests
use ilink_gateway.Prelude.{ℕ, Bool, Option, none, some, List, ℤ}
use ilink_gateway.Text.{Text, codes}
use ilink_gateway.Json.{Json, null}

pub record BaseInfo : Type 0 where
  pub channel_version : Option Text
  pub bot_agent : Option Text

-- `BaseInfo::channel_default`, with `CHANNEL_VERSION`.
abbrev pub channel_default : BaseInfo
channel_default = record { channel_version = some (codes "2.2.0"); bot_agent = none }

pub record MediaRef : Type 0 where
  pub encrypt_query_param : Option Text
  pub aes_key : Option Text
  pub encrypt_type : Option ℤ

pub record TextItem : Type 0 where
  pub text : Option Text

pub record VoiceItem : Type 0 where
  pub media : Option MediaRef
  pub mid_size : Option ℤ
  pub text : Option Text
  pub cdn_url : Option Text
  pub aes_key : Option Text
  pub encrypt_query_param : Option Text

pub record ImageItem : Type 0 where
  pub media : Option MediaRef
  pub mid_size : Option ℤ
  pub cdn_url : Option Text
  pub md5 : Option Text
  pub aes_key : Option Text
  pub encrypt_query_param : Option Text

pub record FileItem : Type 0 where
  pub media : Option MediaRef
  pub mid_size : Option ℤ
  pub file_name : Option Text
  pub file_size : Option ℤ

pub record VideoItem : Type 0 where
  pub media : Option MediaRef
  pub mid_size : Option ℤ
  pub cdn_url : Option Text
  pub aes_key : Option Text
  pub encrypt_query_param : Option Text
  pub md5 : Option Text

pub record RefMsgItem : Type 0 where
  pub msg_id : Text

pub record RefMsg : Type 0 where
  pub message_item : RefMsgItem

pub record MessageItem : Type 0 where
  pub item_type : Option ℤ
  pub text_item : Option TextItem
  pub voice_item : Option VoiceItem
  pub image_item : Option ImageItem
  pub file_item : Option FileItem
  pub video_item : Option VideoItem
  pub ref_msg : Option RefMsg
  pub extra : Json

pub record WeixinMessage : Type 0 where
  pub seq : Option ℤ
  pub message_id : Option ℤ
  pub from_user_id : Option Text
  pub to_user_id : Option Text
  pub client_id : Option Text
  pub create_time_ms : Option ℤ
  pub session_id : Option Text
  pub group_id : Option Text
  pub message_type : Option ℤ
  pub message_state : Option ℤ
  pub item_list : Option (List MessageItem)
  pub context_token : Option Text

-- The values of `Default::default()`.
abbrev pub voice_default : VoiceItem
voice_default = record {
  media = none;
  mid_size = none;
  text = none;
  cdn_url = none;
  aes_key = none;
  encrypt_query_param = none;
}

abbrev pub image_default : ImageItem
image_default = record {
  media = none;
  mid_size = none;
  cdn_url = none;
  md5 = none;
  aes_key = none;
  encrypt_query_param = none;
}

abbrev pub file_default : FileItem
file_default = record { media = none; mid_size = none; file_name = none; file_size = none }

abbrev pub video_default : VideoItem
video_default = record {
  media = none;
  mid_size = none;
  cdn_url = none;
  aes_key = none;
  encrypt_query_param = none;
  md5 = none;
}

abbrev pub item_default : MessageItem
item_default = record {
  item_type = none;
  text_item = none;
  voice_item = none;
  image_item = none;
  file_item = none;
  video_item = none;
  ref_msg = none;
  extra = null;
}

abbrev pub message_default : WeixinMessage
message_default = record {
  seq = none;
  message_id = none;
  from_user_id = none;
  to_user_id = none;
  client_id = none;
  create_time_ms = none;
  session_id = none;
  group_id = none;
  message_type = none;
  message_state = none;
  item_list = none;
  context_token = none;
}

pub record SendMessageRequest : Type 0 where
  pub msg : WeixinMessage
  pub base_info : Option BaseInfo

pub record SendMessageResponse : Type 0 where
  pub ret : Option ℤ
  pub errcode : Option ℤ
  pub errmsg : Option Text
  pub context_token : Option Text
  pub message_id : Option ℤ
  pub extra : Json

pub record GetUpdatesResponse : Type 0 where
  pub ret : Option ℤ
  pub errcode : Option ℤ
  pub errmsg : Option Text
  pub msgs : Option (List WeixinMessage)
  pub get_updates_buf : Option Text

pub record MediaItem : Type 0 where
  pub media_type : Text
  pub local_path : Text
  pub original_name : Option Text

pub record AgentMessage : Type 0 where
  pub id : Text
  pub from_user : Text
  pub text : Text
  pub timestamp : ℤ
  pub context_token : Text
  pub message_type : Text
  pub media : List MediaItem
  pub agent_context : Option Text

pub record AgentReply : Type 0 where
  pub reply_to_id : Text
  pub text : Text
  pub media_paths : List Text
  pub to_user : Option Text
  pub context_token : Option Text
  pub agent_context : Option Text

pub data AgentStatus : Type 0 where
  online offline : AgentStatus

-- `last_seen` and `registered_at` are milliseconds since the epoch.
pub record AgentInfo : Type 0 where
  pub name : Text
  pub endpoint : Option Text
  pub capabilities : List Text
  pub status : AgentStatus
  pub last_seen : ℕ
  pub registered_at : ℕ

pub record QueuedMessage : Type 0 where
  pub id : Text
  pub from_user : Text
  pub text : Text
  pub timestamp : ℤ
  pub context_token : Text
  pub message_type : Text
  pub delivered : Bool
  pub media : List MediaItem
  pub agent_context : Option Text

pub data RouterCommand : Type 0 where
  use_agent : Text → RouterCommand
  list_agents : RouterCommand
  status : RouterCommand
  cmd : Text → ℕ → RouterCommand
  help : RouterCommand
