-- ===== src/Loop/Downloads.antt =====
-- gateway/src/main.rs and gateway/src/api/server.rs: an agent that polls while the loop downloads the
-- media of its message.
use ilink_gateway.Prelude.{ℕ, ◌≡◌, refl, ap, ◌∙◌, true, none, some, List, [], ◌∷◌, ◌++◌}
use ilink_gateway.Text.{Text, eq_refl}
use ilink_gateway.Types.{WeixinMessage, AgentMessage, MediaItem}
use ilink_gateway.Convert.{to_agent_message, to_queued}
use ilink_gateway.Queue.{set_last_media}
use ilink_gateway.Queue.Order.{
  queue_of-enqueue, queue_of-update_last_media, update_last_media-enqueue,
}
use ilink_gateway.Registry.{is_registered}
use ilink_gateway.Router.{Router, handle_incoming}
use ilink_gateway.Router.Delivery.{inbox, with_message}
use ilink_gateway.Poll.{
  Env, Gateway, Stepped, set_media, downloaded, after_routing, process_message,
  process_message_with,
}
use ilink_gateway.Api.{messages_response, handle_poll}
use ilink_gateway.Api.Polling.{poll_known, still_registered, inbox-with_message, emptied}
use ilink_gateway.Loop.Routed.{IsRouted, behind_check, process_message_with-routed}

-- The queue of the agent, where the media come before a poll.
inbox-set_media :
    (agent : Text) (m : AgentMessage) (first : MediaItem) (rest : List MediaItem) (r : Router)
    → inbox agent (set_media agent (first ∷ rest) (with_message agent none m r))
      ≡ inbox agent r ++ (record (to_queued none m) { media = first ∷ rest } ∷ [])
inbox-set_media agent m first rest r =
    update_last_media-enqueue agent agent (to_queued none m) (first ∷ rest) r.queue
    ∙ queue_of-enqueue agent agent (record (to_queued none m) { media = first ∷ rest }) r.queue
    ∙ rw eq_refl refl

-- The queue of the agent, where they come after it.
inbox-set_media_late :
    (now : ℕ) (agent : Text) (first : MediaItem) (rest : List MediaItem) (r : Router)
    → is_registered agent r.registry ≡ true
    → inbox agent (set_media agent (first ∷ rest) (handle_poll now agent r).1) ≡ []
unfolding set_last_media
inbox-set_media_late now agent first rest r known =
    queue_of-update_last_media agent agent (first ∷ rest) (handle_poll now agent r).1.queue
    ∙ rw eq_refl (ap (set_last_media (first ∷ rest)) (emptied now agent r known))

-- The router behind the handling of a message, by the router that its queueing has left.
after_routing-router :
    (env : Env) (msg : WeixinMessage) (agent : Text) (media : List MediaItem) (g : Gateway)
    (r : Router)
    → downloaded env msg ≡ media
    → (after_routing env msg (some agent) (behind_check env msg g r)).router
      ≡ set_media agent media r
unfolding after_routing
after_routing-router env msg agent media g r h =
    ap (λ (ms : List MediaItem). set_media agent ms r) h

-- A new text of an admitted user, which quotes nothing and is no command, comes with media that are
-- downloaded, and the active agent is registered. If the agent polls when the loop has handled the
-- message, it gets the message with the media behind what waited. If it polls while the loop is at
-- the download, it gets the message without them, and after the loop has handled the message its
-- next poll is answered with no message: the media never come.
pub poll_before_media :
    (now later : ℕ) (env : Env) (msg : WeixinMessage) (g : Gateway) (text agent : Text)
    (first : MediaItem) (rest : List MediaItem)
    → IsRouted env msg g text agent
    → is_registered agent g.router.registry ≡ true
    → downloaded env msg ≡ first ∷ rest
    → (m : AgentMessage) × (to_agent_message msg ≡ some m)
      × ((handle_poll later agent (process_message env msg g).1.router).0
          ≡ messages_response
              (inbox agent g.router ++ (record (to_queued none m) { media = first ∷ rest } ∷ [])))
      × ((handle_poll now agent (handle_incoming env.shell env.table msg g.router).1).0
          ≡ messages_response (inbox agent g.router ++ (to_queued none m ∷ [])))
      × ((handle_poll later agent
            (process_message_with (λ r. (handle_poll now agent r).1) env msg g).1.router).0
          ≡ messages_response [])
poll_before_media now later env msg g text agent first rest routed known media =
    let (m, converts, queued, all_others) =
      process_message_with-routed env msg g text agent routed in
    let ms : List MediaItem = first ∷ rest in
    let w = with_message agent none m g.router in
    let polled = (handle_poll now agent w).1 in
    let answer : Router → ilink_gateway.Api.Response = λ r. (handle_poll later agent r).0 in
    (
      m,
      converts,
      ap (λ (s : Stepped). answer s.1.router) (all_others (λ r. r))
          ∙ ap answer (after_routing-router env msg agent ms g w media)
          ∙ poll_known later agent (set_media agent ms w) known
          ∙ ap messages_response (inbox-set_media agent m first rest g.router),
      ap (λ (r : Router). (handle_poll now agent r).0) queued
          ∙ poll_known now agent w known
          ∙ ap messages_response (inbox-with_message agent m g.router),
      ap (λ (s : Stepped). answer s.1.router) (all_others (λ r. (handle_poll now agent r).1))
          ∙ ap answer (after_routing-router env msg agent ms g polled media)
          ∙ poll_known later agent (set_media agent ms polled) (still_registered now agent w known)
          ∙ ap messages_response (inbox-set_media_late now agent first rest w known),
    )
