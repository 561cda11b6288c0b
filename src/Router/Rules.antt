-- ===== src/Router/Rules.antt =====
-- gateway/src/router/router.rs: commands that switch agents, commands that are blocked, and
-- messages routed to a given agent.
use ilink_gateway.Prelude.{
  ℕ, ◌+◌, ◌<◌, ◌≡◌, ◌⊎◌, inl, inr, refl, ap, ◌∙◌, Bool, true, false, Option, none, some, [], ◌∷◌,
  ◌++◌, arith, if◌then◌else◌, Bool-cases, Option-cases,
}
use ilink_gateway.Text.{Text, codes}
use ilink_gateway.Text.Search.{starts_with, LowerTable}
use ilink_gateway.Text.Utf8.{width, byte_len}
use ilink_gateway.Error.{Result, ok, err, panic, agent_not_found}
use ilink_gateway.Types.{WeixinMessage, AgentMessage, RouterCommand, use_agent, cmd}
use ilink_gateway.Types.Message.{message_text}
use ilink_gateway.Convert.{to_agent_message}
use ilink_gateway.Registry.{is_registered}
use ilink_gateway.Commands.{Shell, finished, execute_command, is_dangerous_command}
use ilink_gateway.Commands.Grammar.{Typed, parse_command-Typed}
use ilink_gateway.Commands.Output.{limit_output_panics}
use ilink_gateway.Router.{
  Router, Handled, no_conversion, is_admitted, route_to_agent, run_cmd, dispatch, handle_command,
  or_deliver, handle_text, handle_incoming,
}
use ilink_gateway.Router.Delivery.{with_message, handle_incoming_admitted}

slash-Typed : (text : Text) (c : RouterCommand) → Typed text c → starts_with (codes "/") text ≡ true
unfolding starts_with
slash-Typed text c (s, e, means) = ap (starts_with (codes "/")) e

run_cmd_panics :
    (shell : Shell) (table : LowerTable) (c before after : Text) (timeout_secs d k : ℕ) (r : Router)
    → is_dangerous_command table c ≡ false
    → shell c timeout_secs ≡ finished (before ++ (d ∷ after)) []
    → byte_len before + k ≡ r.cmd_max_output_chars
    → 0 < k
    → k < width d
    → run_cmd shell table c timeout_secs r ≡ panic
unfolding run_cmd execute_command
run_cmd_panics shell table c before after t d k r safe out limit pos_k inside =
    rw (safe, out, ← limit, limit_output_panics before d after k pos_k inside)

-- The reply to a command that the user has typed.
module _ (shell : Shell) (table : LowerTable) (msg : WeixinMessage) (r : Router) where
  handle_incoming-Typed :
      (text : Text) (c : RouterCommand)
      → Typed text c
      → is_admitted msg r ≡ true
      → message_text msg ≡ some text
      → handle_incoming shell table msg r ≡ or_deliver msg (dispatch shell table (some c) r)
  unfolding handle_text handle_command
  handle_incoming-Typed text c h admitted has_text =
      handle_incoming_admitted shell table msg r admitted
      ∙ rw (has_text, slash-Typed text c h, parse_command-Typed text c h)

  -- A typed switch to a name makes that agent the active one if it is registered, and else changes
  -- nothing; the user is told which, and nothing is queued.
  pub handle_incoming_use :
      (text name : Text)
      → Typed text (use_agent name)
      → is_admitted msg r ≡ true
      → message_text msg ≡ some text
      → handle_incoming shell table msg r ≡ (
          if is_registered name r.registry
          then (
            ok (some (codes "Switched to agent '" ++ (name ++ codes "'"))),
            record r { active_agent = some name },
          )
          else (ok (some (codes "Agent '" ++ (name ++ codes "' not found"))), r))
  handle_incoming_use text name h admitted has_text =
      handle_incoming-Typed text (use_agent name) h admitted has_text
      ∙ use_reply (is_registered name r.registry) refl
    where
      use_reply :
          (b : Bool)
          → is_registered name r.registry ≡ b
          → or_deliver msg (dispatch shell table (some (use_agent name)) r) ≡ (
              if b
              then (
                ok (some (codes "Switched to agent '" ++ (name ++ codes "'"))),
                record r { active_agent = some name },
              )
              else (ok (some (codes "Agent '" ++ (name ++ codes "' not found"))), r))
      use_reply true e = unfold dispatch in rw e
      use_reply false e = unfold dispatch in rw e

  -- A text of an admitted user that starts with a slash and is a shell command, by `/cmd` with any
  -- words behind it or by `/cmd timeout <n>`, and whose command is dangerous, is answered with the
  -- command and never run: the answer does not depend on the shell, and the router stays as it is.
  pub handle_incoming_dangerous :
      (text c : Text) (timeout_secs : ℕ)
      → Typed text (cmd c timeout_secs)
      → is_dangerous_command table c ≡ true
      → is_admitted msg r ≡ true
      → message_text msg ≡ some text
      → handle_incoming shell table msg r
        ≡ (ok (some (codes "Dangerous command blocked: " ++ c)), r)
  unfolding dispatch
  handle_incoming_dangerous text c t h danger admitted has_text =
      handle_incoming-Typed text (cmd c t) h admitted has_text ∙ rw danger

  -- A text of an admitted user that starts with a slash and is a shell command, by `/cmd` with any
  -- words behind it or by `/cmd timeout <n>`, makes the handler panic if the command is not
  -- dangerous and its output, without any error output, has a character across the byte limit.
  pub handle_incoming_panics :
      (text c before after : Text) (timeout_secs d k : ℕ)
      → Typed text (cmd c timeout_secs)
      → is_dangerous_command table c ≡ false
      → is_admitted msg r ≡ true
      → message_text msg ≡ some text
      → shell c timeout_secs ≡ finished (before ++ (d ∷ after)) []
      → byte_len before + k ≡ r.cmd_max_output_chars
      → 0 < k
      → k < width d
      → (handle_incoming shell table msg r).0 ≡ panic
  unfolding dispatch
  handle_incoming_panics text c before after t d k h safe admitted has_text out limit pos_k inside =
      ap (λ (p : Handled). p.0) (handle_incoming-Typed text (cmd c t) h admitted has_text)
      ∙ ap (λ (q : Result (Option Text)). (or_deliver msg (q, r)).0)
          (run_cmd_panics shell table c before after t d k r safe out limit pos_k inside)

-- A message for a given agent goes to the end of that agent's queue and changes nothing else,
-- whichever agent is active; a message of a sender who is not admitted is dropped without an error,
-- and an agent that is not registered, or a message with no item, is an error. Only the first of
-- these four outcomes changes the router.
pub route_to_agent_exact :
    (msg : WeixinMessage) (agent : Text) (context : Option Text) (r : Router)
    → ((m : AgentMessage) × (is_admitted msg r ≡ true)
        × (is_registered agent r.registry ≡ true)
        × (to_agent_message msg ≡ some m)
        × (route_to_agent msg agent context r ≡ (ok tt, with_message agent context m r)))
      ⊎ (((route_to_agent msg agent context r).1 ≡ r)
          × ((is_admitted msg r ≡ false) × ((route_to_agent msg agent context r).0 ≡ ok tt)
              ⊎ (is_registered agent r.registry ≡ false)
                × ((route_to_agent msg agent context r).0 ≡ err (agent_not_found agent))
              ⊎ (to_agent_message msg ≡ none)
                × ((route_to_agent msg agent context r).0 ≡ err no_conversion)))
unfolding route_to_agent
route_to_agent_exact msg agent context r = elim (Bool-cases (is_admitted msg r)) [
  | inr dropped ↦ inr (ground arith, inl (dropped, ground arith))
  | inl admitted ↦ elim (Bool-cases (is_registered agent r.registry)) [
    | inr unknown ↦ inr (ground arith, inr (inl (unknown, ground arith)))
    | inl known ↦ elim (Option-cases (to_agent_message msg)) [
      | inl bad ↦ inr (ground arith, inr (inr (bad, ground arith)))
      | inr (m, e) ↦ inl (m, admitted, known, e, ground arith)
    ]
  ]
]
