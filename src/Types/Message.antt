-- ===== src/Types/Message.antt =====
-- The methods of `WeixinMessage` in gateway/src/ilink/types.rs.
use ilink_gateway.Prelude.{
  Bool, false, Option, none, some, List, [], ◌∷◌, ◌++◌, if◌then◌else◌, ℤ, pos, int_eq,
}
use ilink_gateway.Text.{Text, codes}
use ilink_gateway.Types.{
  MediaRef, MessageItem, WeixinMessage, voice_default, image_default, file_default, video_default,
  item_default, message_default,
}

-- mod msg_type
abbrev pub type_text : ℤ
type_text = pos 1

abbrev pub type_image : ℤ
type_image = pos 2

abbrev pub type_voice : ℤ
type_voice = pos 3

abbrev pub type_file : ℤ
type_file = pos 4

abbrev pub type_video : ℤ
type_video = pos 5

-- mod chat_type and mod message_state
abbrev pub chat_user : ℤ
chat_user = pos 1

abbrev pub chat_bot : ℤ
chat_bot = pos 2

abbrev pub state_finish : ℤ
state_finish = pos 2

-- ENCRYPT_TYPE_AES_128_ECB
abbrev pub encrypt_type_aes : ℤ
encrypt_type_aes = pos 1

-- `item.text_item.as_ref()?.text.as_deref()`
abbrev pub item_text : MessageItem → Option Text
item_text item = elim item.text_item [ none ↦ none | some t ↦ t.text ]

-- `item.voice_item.as_ref()?.text.as_deref()`
abbrev pub item_voice_text : MessageItem → Option Text
item_voice_text item = elim item.voice_item [ none ↦ none | some v ↦ v.text ]

-- `Iterator::find_map`
abbrev pub find_map {ℓ κ} : {A : Type ℓ} {B : Type κ} → (A → Option B) → List A → Option B
find_map f [] = none
find_map f (x ∷ xs) = elim (f x) [ none ↦ find_map f xs | some y ↦ some y ]

-- `Option::or_else`
abbrev pub or_else {ℓ} : {A : Type ℓ} → Option A → Option A → Option A
or_else none b = b
or_else (some a) b = some a

-- `Option::unwrap_or`
abbrev pub unwrap_or {ℓ} : {A : Type ℓ} → A → Option A → A
unwrap_or d none = d
unwrap_or d (some a) = a

-- `WeixinMessage::text`
unfoldable pub message_text : WeixinMessage → Option Text
message_text msg = elim msg.item_list [
  | none ↦ none
  | some items ↦ or_else (find_map item_text items) (find_map item_voice_text items)
]

-- `self.message_type == Some(chat_type::USER)`
unfoldable pub is_user_message : WeixinMessage → Bool
is_user_message msg = elim msg.message_type [ none ↦ false | some t ↦ int_eq t chat_user ]

-- `new_client_id`; the UUID is drawn by a library.
unfoldable pub new_client_id : Text → Text
new_client_id uuid = codes "wechat-gw:" ++ uuid

-- What the two reply builders have in common.
abbrev pub reply_with : Text → Text → Text → MessageItem → WeixinMessage
reply_with uuid context_token to_user item = record message_default {
  context_token = some context_token;
  to_user_id = some to_user;
  message_type = some chat_bot;
  message_state = some state_finish;
  from_user_id = some [];
  client_id = some (new_client_id uuid);
  item_list = some (item ∷ []);
}

unfoldable pub build_text_reply : Text → Text → Text → Text → WeixinMessage
unfolding new_client_id
build_text_reply uuid context_token to_user text =
    reply_with uuid context_token to_user (record item_default {
      item_type = some type_text;
      text_item = some (record { text = some text });
    })

-- The `match item_type` of `build_media_reply`.
unfoldable pub attach_media : ℤ → MediaRef → ℤ → Text → MessageItem → MessageItem
attach_media item_type media mid_size text item =
    if int_eq item_type type_image
    then record item {
      image_item = some (record image_default { media = some media; mid_size = some mid_size });
    }
    else if int_eq item_type type_voice
    then record item {
      voice_item = some (record voice_default { media = some media; mid_size = some mid_size });
    }
    else if int_eq item_type type_video
    then record item {
      video_item = some (record video_default { media = some media; mid_size = some mid_size });
    }
    else if int_eq item_type type_file
    then record item {
      file_item = some (record file_default {
        media = some media;
        mid_size = some mid_size;
        file_name = some text;
      });
    }
    else item

unfoldable pub build_media_reply : Text → Text → Text → Text → ℤ → Text → Text → ℤ → WeixinMessage
unfolding new_client_id attach_media
build_media_reply uuid context_token to_user text item_type encrypt_query_param aes_key mid_size =
    let media : MediaRef = record {
      encrypt_query_param = some encrypt_query_param;
      aes_key = some aes_key;
      encrypt_type = some encrypt_type_aes;
    } in
    let item : MessageItem = record item_default {
      item_type = some item_type;
      text_item = some (record { text = some text });
    } in
    reply_with uuid context_token to_user (attach_media item_type media mid_size text item)
