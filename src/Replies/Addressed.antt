-- ===== src/Replies/Addressed.antt =====
-- gateway/src/main.rs: to whom the messages of a reply go, what they say, and how many there are.
use ilink_gateway.Prelude.{
  ℕ, suc, ◌+◌, ◌≡◌, ◌≢◌, refl, ap, ap₂, Option, map, drop, ◌++◌, some, List, [], ◌∷◌, arith, nat_eq,
  if◌then◌else◌, length, pos,
}
use ilink_gateway.Text.{Text, codes}
use ilink_gateway.Error.{Result, ok, err, panic}
use ilink_gateway.Types.{AgentReply, WeixinMessage}
use ilink_gateway.Types.Message.{message_text, build_text_reply, build_media_reply}
use ilink_gateway.Replies.{
  ReplyEnv, MediaUpload, media_message, extra_notes, messages_for, outgoing,
}

-- A message for one user, with one token, from the bot.
abbrev pub IsFor : Text → Text → WeixinMessage → Type 0
IsFor token user msg =
    (msg.context_token ≡ some token)
    × (msg.to_user_id ≡ some user)
    × (msg.message_type ≡ some (pos 2))

abbrev pub AllFor : Text → Text → List WeixinMessage → Type 0
AllFor token user [] = Unit
AllFor token user (msg ∷ msgs) = IsFor token user msg × AllFor token user msgs

build_text_reply-IsFor :
    (uuid token user text : Text) → IsFor token user (build_text_reply uuid token user text)
unfolding build_text_reply
build_text_reply-IsFor uuid token user text = (refl, refl, refl)

media_message-IsFor :
    (env : ReplyEnv) (reply : AgentReply) (token user : Text) (u : Result MediaUpload)
    → u ≢ panic
    → (m : WeixinMessage) × (media_message env reply token user u ≡ ok m) × IsFor token user m
unfolding media_message build_media_reply
media_message-IsFor env reply token user (ok u) h = (_, refl, (refl, refl, refl))
media_message-IsFor env reply token user (err e) h =
    (_, refl, build_text_reply-IsFor _ token user _)
media_message-IsFor env reply token user panic h = absurd (h refl)

extra_notes-AllFor :
    (env : ReplyEnv) (i : ℕ) (token user : Text) (paths : List Text)
    → AllFor token user (extra_notes env i token user paths)
unfolding extra_notes
extra_notes-AllFor env i token user [] = tt
extra_notes-AllFor env i token user (path ∷ paths) =
    (build_text_reply-IsFor _ token user _, extra_notes-AllFor env (i + 1) token user paths)

length-extra_notes :
    (env : ReplyEnv) (i : ℕ) (token user : Text) (paths : List Text)
    → length (extra_notes env i token user paths) ≡ length paths
unfolding extra_notes
length-extra_notes env i token user [] = refl
length-extra_notes env i token user (path ∷ paths) =
    ap suc (length-extra_notes env (i + 1) token user paths)

abbrev note : Text → Option Text
note path = some (codes "Additional file received: " ++ path)

-- What the user reads: the reply's text, or behind the message with the first file a note for each
-- other file.
abbrev pub Content : AgentReply → List Text → List WeixinMessage → Type 0
Content reply [] msgs = map message_text msgs ≡ some reply.text ∷ []
Content reply (path ∷ paths) msgs = map message_text (drop 1 msgs) ≡ map note paths

message_text-build_text_reply :
    (uuid token user text : Text) → message_text (build_text_reply uuid token user text) ≡ some text
unfolding message_text build_text_reply
message_text-build_text_reply uuid token user text = refl

extra_notes-note :
    (env : ReplyEnv) (i : ℕ) (token user : Text) (paths : List Text)
    → map message_text (extra_notes env i token user paths) ≡ map note paths
unfolding extra_notes
extra_notes-note env i token user [] = refl
extra_notes-note env i token user (path ∷ paths) =
    ap₂ ◌∷◌ (message_text-build_text_reply (env.uuid i) token user _)
      (extra_notes-note env (i + 1) token user paths)

-- What the messages of a reply are, where no upload panics.
abbrev pub Addressed : AgentReply → Text → Text → List WeixinMessage → Type 0
Addressed reply token user msgs =
    AllFor token user msgs
    × Content reply reply.media_paths msgs
    × (length msgs ≡ (if nat_eq (length reply.media_paths) 0 then 1 else length reply.media_paths))

messages_for-AllFor :
    (env : ReplyEnv) (reply : AgentReply) (token user : Text) (paths : List Text)
    → ((path : Text) → env.upload user path ≢ panic)
    → (msgs : List WeixinMessage) × (messages_for env reply token user paths ≡ ok msgs)
      × AllFor token user msgs
      × Content reply paths msgs
      × (length msgs ≡ (if nat_eq (length paths) 0 then 1 else length paths))
messages_for-AllFor env reply token user [] calm = (
  _,
  refl,
  (build_text_reply-IsFor _ token user _, tt),
  ap (λ (t : Option Text). t ∷ []) (message_text-build_text_reply _ token user reply.text),
  refl,
)
messages_for-AllFor env reply token user (path ∷ paths) calm =
    let (m, e, for) = media_message-IsFor env reply token user (env.upload user path) (calm path) in
    (
      m ∷ extra_notes env 1 token user paths,
      rw e refl,
      (for, extra_notes-AllFor env 1 token user paths),
      extra_notes-note env 1 token user paths,
      ground (arith, length-extra_notes env 1 token user paths),
    )

-- Whether its files can be uploaded or not, as long as no upload panics, a reply is sent as one
-- message with its text if it has no file, and else as one for each file, where those behind the
-- first name their file, and each of them is the bot's message to the reply's user with the reply's
-- context token.
pub outgoing-Addressed :
    (env : ReplyEnv) (reply : AgentReply) (token user : Text)
    → ((path : Text) → env.upload user path ≢ panic)
    → (msgs : List WeixinMessage) × (outgoing env reply token user ≡ ok msgs)
      × Addressed reply token user msgs
unfolding outgoing
outgoing-Addressed env reply token user calm =
    let (msgs, e, for, content, count) =
      messages_for-AllFor env reply token user reply.media_paths calm in
    (msgs, e, (for, content, count))
