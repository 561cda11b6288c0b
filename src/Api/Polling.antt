-- ===== src/Api/Polling.antt =====
-- gateway/src/api/server.rs with gateway/src/router/router.rs: from a user's message to the agent
-- that polls.
use ilink_gateway.Prelude.{
  ℕ, ◌≡◌, refl, ap, ◌∙◌, true, false, ◌&&◌, none, some, [], ◌∷◌, ◌++◌, if◌then◌else◌,
}
use ilink_gateway.Text.{Text, codes, ◌==◌, eq_refl}
use ilink_gateway.Text.Search.{starts_with, LowerTable}
use ilink_gateway.Map.Laws.{contains-modify}
use ilink_gateway.Types.{WeixinMessage, AgentMessage}
use ilink_gateway.Types.Message.{message_text}
use ilink_gateway.Convert.{to_agent_message, to_queued}
use ilink_gateway.Queue.{dequeue_all}
use ilink_gateway.Queue.Order.{queue_of-enqueue, queue_of-dequeue_all}
use ilink_gateway.Registry.{is_registered, mark_online, set_status}
use ilink_gateway.Commands.{Shell, parse_command}
use ilink_gateway.Router.{Router, is_admitted, handle_incoming, Handled}
use ilink_gateway.Router.Delivery.{inbox, with_message}
use ilink_gateway.Router.Errors.{is_command, handle_incoming_routes}
use ilink_gateway.Api.{messages_response, unknown_agent, handle_poll}

pub poll_known :
    (now : ℕ) (name : Text) (r : Router)
    → is_registered name r.registry ≡ true
    → (handle_poll now name r).0 ≡ messages_response (inbox name r)
unfolding handle_poll dequeue_all
poll_known now name r h = rw h

pub poll_known_inbox :
    (now : ℕ) (name j : Text) (r : Router)
    → is_registered name r.registry ≡ true
    → inbox j (handle_poll now name r).1 ≡ (if name == j then [] else inbox j r)
unfolding handle_poll
poll_known_inbox now name j r h = rw h (queue_of-dequeue_all name j r.queue)

pub emptied :
    (now : ℕ) (name : Text) (r : Router)
    → is_registered name r.registry ≡ true
    → inbox name (handle_poll now name r).1 ≡ []
emptied now name r h = poll_known_inbox now name name r h ∙ rw eq_refl refl

pub inbox-with_message :
    (agent : Text) (m : AgentMessage) (r : Router)
    → inbox agent (with_message agent none m r) ≡ inbox agent r ++ (to_queued none m ∷ [])
inbox-with_message agent m r =
    queue_of-enqueue agent agent (to_queued none m) r.queue ∙ rw eq_refl refl

pub still_registered :
    (now : ℕ) (name : Text) (r : Router)
    → is_registered name r.registry ≡ true
    → is_registered name (handle_poll now name r).1.registry ≡ true
unfolding handle_poll mark_online set_status is_registered
still_registered now name r h = rw (h, contains-modify, h) refl

-- A poll of an agent that is not registered is answered with 404 and changes nothing. A poll of a
-- registered agent is answered with all its messages in order, takes them out of its queue and no
-- other, and a second poll is answered with no message.
pub handle_poll_exact :
    (now later : ℕ) (name : Text) (r : Router)
    → (is_registered name r.registry ≡ false → handle_poll now name r ≡ (unknown_agent name, r))
      × (is_registered name r.registry ≡ true
          → ((handle_poll now name r).0 ≡ messages_response (inbox name r))
            × ((j : Text)
                → inbox j (handle_poll now name r).1 ≡ (if name == j then [] else inbox j r))
            × ((handle_poll later name (handle_poll now name r).1).0 ≡ messages_response []))
unfolding handle_poll
handle_poll_exact now later name r = (
  (λ h. rw h),
  (λ h. (
    poll_known now name r h,
    (λ j. poll_known_inbox now name j r h),
    poll_known later name (handle_poll now name r).1 (still_registered now name r h)
        ∙ ap messages_response (emptied now name r h),
  )),
)

module _ (shell : Shell) (table : LowerTable) where
  -- A text of an admitted user that is no command of the gateway's own reaches the active agent, if
  -- that is registered: its next poll is answered with what waited before and then this message.
  pub poll-handle_incoming :
      (now : ℕ) (msg : WeixinMessage) (r : Router) (text agent : Text)
      → is_admitted msg r ≡ true
      → message_text msg ≡ some text
      → (starts_with (codes "/") text && is_command (parse_command text)) ≡ false
      → r.active_agent ≡ some agent
      → is_registered agent r.registry ≡ true
      → (m : AgentMessage) × (to_agent_message msg ≡ some m)
        × (m.text ≡ text)
        × ((handle_poll now agent (handle_incoming shell table msg r).1).0
            ≡ messages_response (inbox agent r ++ (to_queued none m ∷ [])))
  poll-handle_incoming now msg r text agent admitted has_text plain active known =
      let (m, e, t, routed) =
        handle_incoming_routes shell table msg r text agent admitted has_text plain active in
      (
        m,
        e,
        t,
        ap (λ (h : Handled). (handle_poll now agent h.1).0) routed
            ∙ poll_known now agent (with_message agent none m r) known
            ∙ ap messages_response (inbox-with_message agent m r),
      )
