-- ===== src/Router/Delivery.antt =====
-- gateway/src/router/router.rs: which queues a message may reach, and which errors there are.
use ilink_gateway.Prelude.{
  ◌≡◌, ◌⊎◌, inl, inr, refl, ap, ◌∙◌, true, false, Option, none, some, List, [], ◌∷◌, ◌++◌, arith,
  Bool-cases, Option-cases,
}
use ilink_gateway.Text.{Text, ◌==◌, codes, eq_iff}
use ilink_gateway.Text.Search.{starts_with, LowerTable}
use ilink_gateway.Error.{Result, ok, err, panic}
use ilink_gateway.Types.{
  WeixinMessage, AgentMessage, QueuedMessage, RouterCommand, use_agent, list_agents, status, cmd,
  help,
}
use ilink_gateway.Types.Message.{message_text}
use ilink_gateway.Convert.{to_agent_message, to_queued}
use ilink_gateway.Queue.{queue_of, enqueue}
use ilink_gateway.Queue.Order.{queue_of-enqueue}
use ilink_gateway.Registry.{is_registered}
use ilink_gateway.Commands.{Shell, parse_command}
use ilink_gateway.Router.{
  Router, is_admitted, deliver, dispatch, handle_command, or_deliver, handle_text, handle_incoming,
  no_active_agent, no_conversion,
}

-- The queue of an agent in a router.
abbrev pub inbox : Text → Router → List QueuedMessage
inbox j r = queue_of j r.queue

-- What one message does to one agent's queue: nothing, or its own copy joins the end, the sender
-- being admitted and the agent being the active one.
abbrev pub Effect : WeixinMessage → Text → Router → Router → Type 0
Effect msg j r r' =
    (inbox j r' ≡ inbox j r)
    ⊎ ((is_admitted msg r ≡ true)
        × (r'.active_agent ≡ some j)
        × (m : AgentMessage) × (to_agent_message msg ≡ some m)
        × (inbox j r' ≡ inbox j r ++ (to_queued none m ∷ [])))

-- The router after a message went to an agent's queue.
abbrev pub with_message : Text → Option Text → AgentMessage → Router → Router
with_message a context m r = record r { queue = enqueue a (to_queued context m) r.queue }

pub deliver-none :
    (msg : WeixinMessage) (r : Router)
    → r.active_agent ≡ none
    → deliver msg r ≡ (err no_active_agent, r)
unfolding deliver
deliver-none msg r h = ground arith

pub deliver-some :
    (msg : WeixinMessage) (r : Router) (a : Text) (m : AgentMessage)
    → r.active_agent ≡ some a
    → to_agent_message msg ≡ some m
    → deliver msg r ≡ (ok none, with_message a none m r)
unfolding deliver
deliver-some msg r a m h k = ground arith

deliver_bad :
    (msg : WeixinMessage) (r : Router) (a : Text)
    → r.active_agent ≡ some a
    → to_agent_message msg ≡ none
    → deliver msg r ≡ (err no_conversion, r)
unfolding deliver
deliver_bad msg r a h k = ground arith

with_message-Effect :
    (msg : WeixinMessage) (j a : Text) (m : AgentMessage) (r : Router)
    → is_admitted msg r ≡ true
    → r.active_agent ≡ some a
    → to_agent_message msg ≡ some m
    → Effect msg j r (with_message a none m r)
with_message-Effect msg j a m r h active e = elim (Bool-cases (a == j)) [
  | inl same ↦ inr (
    h,
    active ∙ ap some ((eq_iff a j).0 same),
    m,
    e,
    queue_of-enqueue a j (to_queued none m) r.queue ∙ rw same,
  )
  | inr other ↦ inl (queue_of-enqueue a j (to_queued none m) r.queue ∙ rw other)
]

deliver-Effect :
    (msg : WeixinMessage) (j : Text) (r : Router)
    → is_admitted msg r ≡ true
    → Effect msg j r (deliver msg r).1
deliver-Effect msg j r h = elim (Option-cases r.active_agent) [
  | inl unset ↦ rw (deliver-none msg r unset) (inl refl)
  | inr (a, active) ↦ elim (Option-cases (to_agent_message msg)) [
    | inl bad ↦ rw (deliver_bad msg r a active bad) (inl refl)
    | inr (m, e) ↦ rw (deliver-some msg r a m active e) (with_message-Effect msg j a m r h active e)
  ]
]

module _ (shell : Shell) (table : LowerTable) where
  -- A command changes no queue, and gives no reply only where it leaves the router as it is.
  pub dispatch_quiet :
      (c : Option RouterCommand) (r : Router)
      → ((dispatch shell table c r).1.queue ≡ r.queue)
        × ((dispatch shell table c r).0 ≡ ok none → (dispatch shell table c r).1 ≡ r)
  unfolding dispatch
  dispatch_quiet none r = (refl, λ e. refl)
  dispatch_quiet (some (use_agent name)) r = elim (Bool-cases (is_registered name r.registry)) [
    | inl known ↦ rw known (refl, λ e. cc)
    | inr unknown ↦ rw unknown (refl, λ e. refl)
  ]
  dispatch_quiet (some list_agents) r = (refl, λ e. refl)
  dispatch_quiet (some status) r = (refl, λ e. refl)
  dispatch_quiet (some help) r = (refl, λ e. refl)
  dispatch_quiet (some (cmd c t)) r = (refl, λ e. refl)

  or_deliver-Effect :
      (msg : WeixinMessage) (j : Text) (r r' : Router) (res : Result (Option Text))
      → is_admitted msg r ≡ true
      → r'.queue ≡ r.queue
      → (res ≡ ok none → r' ≡ r)
      → Effect msg j r (or_deliver msg (res, r')).1
  or_deliver-Effect msg j r r' (ok none) h q same = rw (same refl) (deliver-Effect msg j r h)
  or_deliver-Effect msg j r r' (ok (some reply)) h q same = inl (ap (queue_of j) q)
  or_deliver-Effect msg j r r' (err e) h q same = inl (ap (queue_of j) q)
  or_deliver-Effect msg j r r' panic h q same = inl (ap (queue_of j) q)

  command-Effect :
      (msg : WeixinMessage) (j text : Text) (r : Router)
      → is_admitted msg r ≡ true
      → Effect msg j r (or_deliver msg (handle_command shell table text r)).1
  unfolding handle_command
  command-Effect msg j text r h =
      let (res, r') = dispatch shell table (parse_command text) r in
      let (quiet, same) = dispatch_quiet (parse_command text) r in
      or_deliver-Effect msg j r r' res h quiet same

  handle_text-Effect :
      (msg : WeixinMessage) (j : Text) (text : Option Text) (r : Router)
      → is_admitted msg r ≡ true
      → Effect msg j r (handle_text shell table msg text r).1
  unfolding handle_text
  handle_text-Effect msg j none r h = inl refl
  handle_text-Effect msg j (some text) r h = elim (Bool-cases (starts_with (codes "/") text)) [
    | inl slash ↦ rw slash (command-Effect msg j text r h)
    | inr plain ↦ rw plain (deliver-Effect msg j r h)
  ]

  pub handle_incoming_admitted :
      (msg : WeixinMessage) (r : Router)
      → is_admitted msg r ≡ true
      → handle_incoming shell table msg r ≡ handle_text shell table msg (message_text msg) r
  unfolding handle_incoming
  handle_incoming_admitted msg r h = rw h

  pub handle_incoming_dropped :
      (msg : WeixinMessage) (r : Router)
      → is_admitted msg r ≡ false
      → handle_incoming shell table msg r ≡ (ok none, r)
  unfolding handle_incoming
  handle_incoming_dropped msg r h = rw h

  -- Whatever the message and whatever the shell answers, `handle_incoming` leaves each agent's
  -- queue as it is, or puts one copy of the message at its end; the latter only for the active agent
  -- and only where the sender is admitted.
  pub handle_incoming-Effect :
      (msg : WeixinMessage) (j : Text) (r : Router)
      → Effect msg j r (handle_incoming shell table msg r).1
  handle_incoming-Effect msg j r = elim (Bool-cases (is_admitted msg r)) [
    | inl admitted ↦
        rw (handle_incoming_admitted msg r admitted)
          (handle_text-Effect msg j (message_text msg) r admitted)
    | inr dropped ↦ rw (handle_incoming_dropped msg r dropped) (inl refl)
  ]
