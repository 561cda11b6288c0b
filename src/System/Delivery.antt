-- ===== src/System/Delivery.antt =====
-- gateway/src: from the messages that are accepted to the polls that hand them over.
use ilink_gateway.Prelude.{
  ℕ, ◌≡◌, inl, inr, refl, sym, ap, ap₂, ◌∙◌, true, false, Option, none, some, List, [], ◌∷◌, ◌++◌,
  append_assoc, append-nil, arith, ltb, if◌then◌else◌, length, length-append, Bool-cases,
}
use ilink_gateway.Text.{Text, codes, ◌==◌, eq_iff, eq_refl}
use ilink_gateway.Error.{Result, ok, err, panic}
use ilink_gateway.Types.{WeixinMessage, QueuedMessage}
use ilink_gateway.Types.Message.{unwrap_or}
use ilink_gateway.Queue.{MessageQueue, queue_of}
use ilink_gateway.Json.{Json, array, Items, nil, cons, get, get_str, find_member}
use ilink_gateway.Startup.{heartbeat_tick}
use ilink_gateway.Registry.{is_registered, register}
use ilink_gateway.Store.{SqliteStore, Faults}
use ilink_gateway.Router.{Router, set_active_agent}
use ilink_gateway.Poll.{Gateway, process_message}
use ilink_gateway.Poll.Growth.{ids_of, ids, msg_id, Grows, process_message-Grows}
use ilink_gateway.Router.Delivery.{inbox}
use ilink_gateway.Api.{
  Response, items_of, message_json, messages_response, unknown_agent, RegisterRequest, or_activate,
  after_register, handle_register, handle_poll,
}
use ilink_gateway.Api.Polling.{poll_known_inbox, handle_poll_exact}
use ilink_gateway.System
use ilink_gateway.System.{Step, Trace, stop, go}

-- The ids of the messages in the answer to a poll, in order, as the agent reads them from the JSON.
unfoldable pub item_ids : Items → List Text
item_ids nil = []
item_ids (cons v vs) = unwrap_or [] (get_str (codes "id") v) ∷ item_ids vs

abbrev pub listed_ids : Option Json → List Text
listed_ids (some (array items)) = item_ids items
listed_ids _ = []

unfoldable pub answered_ids : Response → List Text
unfolding item_ids
answered_ids resp = listed_ids (get (codes "messages") resp.body)

-- The ids in the answer to a poll, if it is one of this agent.
abbrev pub polled : Text → Text → Response → List Text
polled a name resp = if name == a then answered_ids resp else []

item_ids-messages : (ms : List QueuedMessage) → item_ids (items_of message_json ms) ≡ ids_of ms
unfolding item_ids message_json get_str find_member ◌==◌
item_ids-messages [] = refl
item_ids-messages (m ∷ ms) = ap (λ (k : List Text). m.id ∷ k) (item_ids-messages ms)

answered_ids-messages : (ms : List QueuedMessage) → answered_ids (messages_response ms) ≡ ids_of ms
unfolding answered_ids get find_member ◌==◌
answered_ids-messages ms = item_ids-messages ms

answered_ids-unknown : (name : Text) → answered_ids (unknown_agent name) ≡ []
unfolding answered_ids get find_member ◌==◌
answered_ids-unknown name = refl

-- The id of a message that has made this agent's queue longer.
abbrev pub queued : Text → WeixinMessage → Router → Router → List Text
queued a msg r r' = if ltb (length (ids a r)) (length (ids a r')) then msg_id msg ∷ [] else []

module _ (a : Text) where
  unfoldable pub handed : {g g' : Gateway} → Step g g' → List Text
  handed {g} (System.poll now name) = polled a name (handle_poll now name g.router).0
  handed _ = []

  unfoldable pub accepted : {g g' : Gateway} → Step g g' → List Text
  accepted {g} (System.message env msg) = queued a msg g.router (process_message env msg g).1.router
  accepted _ = []

  -- What was handed over by the polls of a trace, in order, and what was accepted.
  unfoldable pub all_handed : {g h : Gateway} → Trace g h → List Text
  all_handed stop = []
  all_handed (go t s) = all_handed t ++ handed s

  unfoldable pub all_accepted : {g h : Gateway} → Trace g h → List Text
  all_accepted stop = []
  all_accepted (go t s) = all_accepted t ++ accepted s

  queued-Grows :
      (msg : WeixinMessage) (r r' : Router)
      → Grows msg a r r'
      → ids a r' ≡ ids a r ++ queued a msg r r'
  queued-Grows msg r r' (inl same) =
      let no : ltb (length (ids a r)) (length (ids a r')) ≡ false =
        ground (arith, ap length same) in
      same ∙ rw (no, append-nil) refl
  queued-Grows msg r r' (inr (admitted, put)) =
      let yes : ltb (length (ids a r)) (length (ids a r')) ≡ true =
        ground (arith, ap length put ∙ length-append (ids a r) (msg_id msg ∷ [])) in
      put ∙ rw yes refl

  or_activate-queue :
      (o : Option Text) (name : Text) (r : Router) → (or_activate o name r).queue ≡ r.queue
  unfolding set_active_agent
  or_activate-queue (some b) name r = refl
  or_activate-queue none name r = elim (Bool-cases (is_registered name r.registry)) [
    | inl known ↦ rw (known, or_activate) refl
    | inr unknown ↦ rw (unknown, or_activate) refl
  ]

  after_register-queue :
      (fault : Faults) (name : Text) (res : Result (Unit {0})) (r : Router) (store : SqliteStore)
      → (after_register fault name res r store).1.0.queue ≡ r.queue
  after_register-queue fault name (ok u) r store = or_activate-queue r.active_agent name r
  after_register-queue fault name (err e) r store = refl
  after_register-queue fault name panic r store = refl

  handle_register-queue :
      (fault : Faults) (now : ℕ) (body : RegisterRequest) (r : Router) (store : SqliteStore)
      → (handle_register fault now body r store).1.0.queue ≡ r.queue
  unfolding handle_register
  handle_register-queue fault now body r store =
      let (res, registry) = register now body.name none body.capabilities r.registry in
      after_register-queue fault body.name res (record r { registry = registry }) store

  handle_poll-unknown :
      (now : ℕ) (name : Text) (r : Router)
      → is_registered name r.registry ≡ false
      → ids a (handle_poll now name r).1 ≡ ids a r
  unfolding handle_poll
  handle_poll-unknown now name r unknown = rw unknown refl

  handle_poll-known :
      (now : ℕ) (name : Text) (r : Router)
      → is_registered name r.registry ≡ true
      → ids a (handle_poll now name r).1 ≡ (if name == a then [] else ids a r)
  handle_poll-known now name r known = elim (Bool-cases (name == a)) [
    | inl here ↦ ap ids_of (poll_known_inbox now name a r known) ∙ rw here refl
    | inr other ↦ ap ids_of (poll_known_inbox now name a r known) ∙ rw other refl
  ]

  -- The ids in an answer to this agent's poll.
  polled-known :
      (now : ℕ) (name : Text) (r : Router)
      → is_registered name r.registry ≡ true
      → (name == a) ≡ true
      → answered_ids (handle_poll now name r).0 ≡ ids a r
  polled-known now name r known here =
      ap answered_ids (((handle_poll_exact now now name r).1 known).0)
      ∙ answered_ids-messages (inbox name r)
      ∙ ap (λ (k : Text). ids k r) ((eq_iff name a).0 here)

  polled-unknown :
      (now : ℕ) (name : Text) (r : Router)
      → is_registered name r.registry ≡ false
      → polled a name (handle_poll now name r).0 ≡ []
  polled-unknown now name r unknown =
      let none_sent : answered_ids (handle_poll now name r).0 ≡ [] =
        ap (λ (p : Response × Router). answered_ids p.0)
          ((handle_poll_exact now now name r).0 unknown)
        ∙ answered_ids-unknown name in
      elim (Bool-cases (name == a)) [ inl here ↦ rw here none_sent | inr other ↦ rw other refl ]

  handle_poll-exact :
      (now : ℕ) (name : Text) (r : Router)
      → polled a name (handle_poll now name r).0 ++ ids a (handle_poll now name r).1 ≡ ids a r
  handle_poll-exact now name r = elim (Bool-cases (is_registered name r.registry)) [
    | inr unknown ↦
        ap₂ ◌++◌ (polled-unknown now name r unknown) (handle_poll-unknown now name r unknown)
    | inl known ↦ elim (Bool-cases (name == a)) [
      | inr other ↦ rw (handle_poll-known now name r known, other) refl
      | inl here ↦
          rw (handle_poll-known now name r known, here, append-nil)
            (polled-known now name r known here)
    ]
  ]

  Step-exact :
      {g g' : Gateway} (s : Step g g') → handed s ++ ids a g'.router ≡ ids a g.router ++ accepted s
  unfolding handed accepted heartbeat_tick
  Step-exact {g} (System.message env msg) =
      queued-Grows msg g.router (process_message env msg g).1.router
        (process_message-Grows env msg g a)
  Step-exact {g} (System.register fault now body) =
      ap (λ (q : MessageQueue). ids_of (queue_of a q))
        (handle_register-queue fault now body g.router g.store)
      ∙ sym (append-nil (ids a g.router))
  Step-exact {g} (System.poll now name) =
      handle_poll-exact now name g.router ∙ sym (append-nil (ids a g.router))
  Step-exact {g} (System.heartbeat now t) = sym (append-nil (ids a g.router))
  Step-exact {g} (System.cleanup now) = sym (append-nil (ids a g.router))
  Step-exact {g} (System.reply env r) = sym (append-nil (ids a g.router))
  Step-exact {g} (System.join agent channel) = sym (append-nil (ids a g.router))
  Step-exact {g} (System.leave agent channel) = sym (append-nil (ids a g.router))

-- What was handed over and what still waits is what waited at first and what was accepted.
Trace-conserves :
    (a : Text) {g h : Gateway} (t : Trace g h)
    → all_handed a t ++ ids a h.router ≡ ids a g.router ++ all_accepted a t
unfolding all_handed all_accepted
Trace-conserves a {g} stop = sym (append-nil (ids a g.router))
Trace-conserves a {g} (go {h} {h'} t s) =
    append_assoc (all_handed a t) (handed a s) (ids a h'.router)
    ∙ ap (λ (k : List Text). all_handed a t ++ k) (Step-exact a s)
    ∙ sym (append_assoc (all_handed a t) (ids a h.router) (accepted a s))
    ∙ ap (λ (k : List Text). k ++ accepted a s) (Trace-conserves a t)
    ∙ append_assoc (ids a g.router) (all_accepted a t) (accepted a s)

-- A last poll.
handed-poll :
    (a : Text) (now : ℕ) (g : Gateway)
    → handed a {g = g} (System.poll now a)
      ≡ (if is_registered a g.router.registry then ids a g.router else [])
unfolding handed
handed-poll a now g = elim (Bool-cases (is_registered a g.router.registry)) [
  | inl known ↦ rw (known, eq_refl) (polled-known a now a g.router known (eq_refl a))
  | inr unknown ↦ rw unknown (polled-unknown a now a g.router unknown)
]

-- Whatever the tasks and the handlers do, in any order: the ids in the answers to the polls of an
-- agent, followed by those of the messages that still wait for it, are the ids of the messages that
-- waited at first, followed by those that have made its queue longer since. None is lost, repeated or
-- reordered, and the answer to one more poll of the agent, if it is registered, has all that is left.
pub Trace-exact :
    (a : Text) (now : ℕ) {g h : Gateway} (t : Trace g h)
    → (all_handed a t ++ ids a h.router ≡ ids a g.router ++ all_accepted a t)
      × (all_handed a (go t (System.poll now a)) ≡ (
          if is_registered a h.router.registry
          then ids a g.router ++ all_accepted a t
          else all_handed a t))
unfolding all_handed
Trace-exact a now {g} {h} t = (
  Trace-conserves a t,
  ap (λ (k : List Text). all_handed a t ++ k) (handed-poll a now h)
      ∙ elim (Bool-cases (is_registered a h.router.registry)) [
        | inl known ↦ rw known (Trace-conserves a t)
        | inr unknown ↦ rw unknown (append-nil (all_handed a t))
      ],
)
