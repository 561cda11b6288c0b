-- ===== src/Router/Errors.antt =====
-- gateway/src/router/router.rs: the route of a plain message, and the errors of `handle_incoming`.
use ilink_gateway.Prelude.{
  ◌≡◌, ◌⊎◌, inl, inr, refl, sym, ap, ◌∙◌, Bool, true, false, ◌&&◌, Option, none, some, List, [],
  ◌∷◌, arith, Bool-cases, Option-cases,
}
use ilink_gateway.Text.{Text, codes}
use ilink_gateway.Text.Search.{starts_with, LowerTable}
use ilink_gateway.Error.{GatewayError, Result, ok, err, panic}
use ilink_gateway.Types.{
  WeixinMessage, MessageItem, AgentMessage, RouterCommand, use_agent, list_agents, status, cmd,
  help,
}
use ilink_gateway.Types.Message.{message_text, unwrap_or}
use ilink_gateway.Convert.{first_item, agent_message_of, to_agent_message}
use ilink_gateway.Commands.{Shell, parse_command}
use ilink_gateway.Router.{
  Router, Handled, is_admitted, deliver, run_cmd, dispatch, handle_command, or_deliver, handle_text,
  handle_incoming, no_text, no_active_agent,
}
use ilink_gateway.Router.Delivery.{
  with_message, deliver-none, deliver-some, dispatch_quiet, handle_incoming_admitted,
  handle_incoming_dropped,
}

-- Is there a command?
abbrev pub is_command : Option RouterCommand → Bool
is_command none = false
is_command (some c) = true

first_of_items :
    (msg : WeixinMessage) (text : Text) (items : List MessageItem)
    → msg.item_list ≡ some items
    → message_text msg ≡ some text
    → (item : MessageItem) × (first_item msg ≡ some item)
unfolding message_text
first_of_items msg text [] e h = ground arith
first_of_items msg text (item ∷ items) e h = (item, ground arith)

text-first_item :
    (msg : WeixinMessage) (text : Text)
    → message_text msg ≡ some text
    → (item : MessageItem) × (first_item msg ≡ some item)
unfolding message_text
text-first_item msg text h = elim (Option-cases msg.item_list) [
  | inl absent ↦ absurd (ground arith)
  | inr (items, e) ↦ first_of_items msg text items e h
]

-- A message that has a text can be converted for agents.
pub text-converts :
    (msg : WeixinMessage) (text : Text)
    → message_text msg ≡ some text
    → (m : AgentMessage) × (to_agent_message msg ≡ some m) × (m.text ≡ text)
unfolding to_agent_message
text-converts msg text h =
    let (item, first) = text-first_item msg text h in
    (agent_message_of msg item, rw (first, to_agent_message), ap (unwrap_or []) h)

module _ (shell : Shell) (table : LowerTable) where
  deliver_errors :
      (msg : WeixinMessage) (text : Text) (r : Router) (e : GatewayError)
      → message_text msg ≡ some text
      → (deliver msg r).0 ≡ err e
      → ((deliver msg r).1 ≡ r) × (r.active_agent ≡ none) × (e ≡ no_active_agent)
  deliver_errors msg text r e has_text h = elim (Option-cases r.active_agent) [
    | inl unset ↦ let eq = deliver-none msg r unset in (ap (λ (t : Handled). t.1) eq, unset, cc eq)
    | inr (a, active) ↦
        let (m, conv, t) = text-converts msg text has_text in
        let eq = deliver-some msg r a m active conv in cc eq
  ]

  no_command : (c : Option RouterCommand) → is_command c ≡ false → c ≡ none
  no_command none h = refl
  no_command (some c) h = cc

  handle_text_plain :
      (msg : WeixinMessage) (text : Text) (r : Router)
      → (starts_with (codes "/") text && is_command (parse_command text)) ≡ false
      → handle_text shell table msg (some text) r ≡ deliver msg r
  unfolding handle_text handle_command dispatch
  handle_text_plain msg text r h = elim (Bool-cases (starts_with (codes "/") text)) [
    | inl slash ↦
        let none_parsed : parse_command text ≡ none =
          no_command (parse_command text) (rw slash at h) in
        rw (slash, none_parsed)
    | inr plain ↦ rw plain
  ]

  -- A text that is no command of the gateway's own goes, once, to the end of the active agent's
  -- queue and to no other; there is no reply, and the rest of the router is as it was.
  pub handle_incoming_routes :
      (msg : WeixinMessage) (r : Router) (text agent : Text)
      → is_admitted msg r ≡ true
      → message_text msg ≡ some text
      → (starts_with (codes "/") text && is_command (parse_command text)) ≡ false
      → r.active_agent ≡ some agent
      → (m : AgentMessage) × (to_agent_message msg ≡ some m)
        × (m.text ≡ text)
        × (handle_incoming shell table msg r ≡ (ok none, with_message agent none m r))
  handle_incoming_routes msg r text agent admitted has_text plain active =
      let (m, e, t) = text-converts msg text has_text in
      (
        m,
        e,
        t,
        handle_incoming_admitted shell table msg r admitted
            ∙ rw has_text
                (handle_text_plain msg text r plain ∙ deliver-some msg r agent m active e),
      )

  dispatch_errors :
      (c : Option RouterCommand) (r : Router) (e : GatewayError)
      → (dispatch shell table c r).0 ≡ err e
      → ⊥
  unfolding dispatch run_cmd
  dispatch_errors none r e h = cc
  dispatch_errors (some (use_agent name)) r e h = ground arith
  dispatch_errors (some list_agents) r e h = cc
  dispatch_errors (some status) r e h = cc
  dispatch_errors (some help) r e h = cc
  dispatch_errors (some (cmd c t)) r e h = ground arith

  or_deliver_errors :
      (msg : WeixinMessage) (text : Text) (r r' : Router) (res : Result (Option Text))
      (e : GatewayError)
      → message_text msg ≡ some text
      → (res ≡ ok none → r' ≡ r)
      → (res ≡ err e → ⊥)
      → (or_deliver msg (res, r')).0 ≡ err e
      → ((or_deliver msg (res, r')).1 ≡ r) × (r.active_agent ≡ none) × (e ≡ no_active_agent)
  or_deliver_errors msg text r r' (ok none) e has_text same never h =
      let (kept, unset, which) = deliver_errors msg text r' e has_text h in
      (kept ∙ same refl, ap (λ (q : Router). q.active_agent) (sym (same refl)) ∙ unset, which)
  or_deliver_errors msg text r r' (ok (some reply)) e has_text same never h = cc
  or_deliver_errors msg text r r' (err d) e has_text same never h = absurd (never h)
  or_deliver_errors msg text r r' panic e has_text same never h = cc

  handle_text_errors :
      (msg : WeixinMessage) (text : Option Text)
      → message_text msg ≡ text
      → (r : Router) (e : GatewayError) → (handle_text shell table msg text r).0 ≡ err e
      → ((handle_text shell table msg text r).1 ≡ r)
        × ((message_text msg ≡ none) × (e ≡ no_text)
            ⊎ (r.active_agent ≡ none) × (e ≡ no_active_agent))
  unfolding handle_text handle_command
  handle_text_errors msg none has_text r e h = (refl, inl (has_text, cc))
  handle_text_errors msg (some text) has_text r e h =
      elim (Bool-cases (starts_with (codes "/") text)) [
        | inl slash ↦
            let (res, r') = dispatch shell table (parse_command text) r in
            let (kept, unset, which) =
              or_deliver_errors msg text r r' res e has_text
                (dispatch_quiet shell table (parse_command text) r).1
                (dispatch_errors (parse_command text) r e) (rw slash at h) in
            rw slash (kept, inr (unset, which))
        | inr plain ↦
            let (kept, unset, which) = deliver_errors msg text r e has_text (rw plain at h) in
            rw plain (kept, inr (unset, which))
      ]

  -- An error is reported only for a message of an admitted sender that has no text, or that is for
  -- an agent while none is active; it leaves the router as it was.
  pub handle_incoming_errors :
      (msg : WeixinMessage) (r : Router) (e : GatewayError)
      → (handle_incoming shell table msg r).0 ≡ err e
      → (is_admitted msg r ≡ true)
        × ((handle_incoming shell table msg r).1 ≡ r)
        × ((message_text msg ≡ none) × (e ≡ no_text)
            ⊎ (r.active_agent ≡ none) × (e ≡ no_active_agent))
  handle_incoming_errors msg r e h = elim (Bool-cases (is_admitted msg r)) [
    | inr dropped ↦ let quiet = handle_incoming_dropped shell table msg r dropped in cc quiet
    | inl admitted ↦
        let eq = handle_incoming_admitted shell table msg r admitted in
        let (same, why) =
          handle_text_errors msg (message_text msg) refl r e
            (ap (λ (t : Handled). t.0) (sym eq) ∙ h) in
        (admitted, ap (λ (t : Handled). t.1) eq ∙ same, why)
  ]
