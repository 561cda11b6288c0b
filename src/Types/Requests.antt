-- ===== src/Types/Requests.antt =====
-- gateway/src/ilink/types.rs: the requests and responses of login, upload, polling and typing.
use ilink_gateway.Prelude.{ℕ, Bool, Option, ℤ}
use ilink_gateway.Text.{Text}
use ilink_gateway.Types.{BaseInfo}

pub record GetQrcodeResponse : Type 0 where
  pub ret : ℤ
  pub qrcode : Option Text
  pub qrcode_img_content : Option Text
  pub errmsg : Option Text

pub record QrcodeStatusResponse : Type 0 where
  pub ret : ℤ
  pub status : Option Text
  pub bot_token : Option Text
  pub baseurl : Option Text
  pub ilink_bot_id : Option Text
  pub ilink_user_id : Option Text
  pub errmsg : Option Text

pub record GetUploadUrlRequest : Type 0 where
  pub filekey : Text
  pub media_type : ℤ
  pub to_user_id : Text
  pub rawsize : ℤ
  pub rawfilemd5 : Text
  pub filesize : ℤ
  pub no_need_thumb : Bool
  pub aeskey : Text
  pub base_info : Option BaseInfo

pub record GetUploadUrlResponse : Type 0 where
  pub ret : Option ℤ
  pub upload_full_url : Option Text
  pub upload_param : Option Text
  pub errmsg : Option Text

pub record GetUpdatesRequest : Type 0 where
  pub get_updates_buf : Text
  pub base_info : Option BaseInfo
  pub timeout : Option ℕ

pub record SendTypingRequest : Type 0 where
  pub ilink_user_id : Text
  pub typing_ticket : Text
  pub status : ℤ
  pub base_info : Option BaseInfo

pub record GetConfigRequest : Type 0 where
  pub ilink_user_id : Text
  pub context_token : Option Text
  pub base_info : Option BaseInfo

pub record GetConfigResponse : Type 0 where
  pub ret : Option ℤ
  pub typing_ticket : Option Text
  pub errmsg : Option Text
