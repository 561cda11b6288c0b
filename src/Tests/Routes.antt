-- ===== src/Tests/Routes.antt =====
-- The router at concrete messages.
use ilink_gateway.Prelude.{
  ◌≡◌, ◌⊎◌, refl, true, false, ◌&&◌, none, some, [], ◌∷◌, inl, inr, ◌++◌, arith,
}
use ilink_gateway.Text.{◌==◌, Text, codes}
use ilink_gateway.Text.Space.{join, split_whitespace, is_whitespace}
use ilink_gateway.Text.Utf8.{byte_len, width}
use ilink_gateway.Text.Search.{to_lowercase, starts_with}
use ilink_gateway.Error.{ok, err, panic}
use ilink_gateway.Types.{cmd}
use ilink_gateway.Types.Message.{message_text}
use ilink_gateway.Commands.{parse_command, is_dangerous_command}
use ilink_gateway.Commands.Grammar.{Typed}
use ilink_gateway.Router.{
  Router, is_admitted, is_dm_allowed, handle_incoming, no_text, no_active_agent,
}
use ilink_gateway.Router.Delivery.{Effect, handle_incoming-Effect}
use ilink_gateway.Router.Errors.{is_command, handle_incoming_errors}
use ilink_gateway.Router.Rules.{handle_incoming_dangerous, handle_incoming_panics}
use ilink_gateway.Tests.{hermes, router, shell, table, message}

handle_incoming-Effect_example :
    Effect
      (message (codes "hi"))
      hermes
      router
      (handle_incoming shell table (message (codes "hi")) router).1
handle_incoming-Effect_example =
    handle_incoming-Effect shell table (message (codes "hi")) hermes router

admitted : (t : Text) → is_admitted (message t) router ≡ true
unfolding is_admitted is_dm_allowed ◌==◌
admitted t = refl

reads : (t : Text) → message_text (message t) ≡ some t
unfolding message_text
reads t = refl

plain_hi : (starts_with (codes "/") (codes "hi") && is_command (parse_command (codes "hi"))) ≡ false
unfolding starts_with
plain_hi = refl

-- Nobody has chosen an agent yet.
abbrev idle : Router
idle = record router { active_agent = none }

idle_error : (handle_incoming shell table (message (codes "hi")) idle).0 ≡ err no_active_agent
unfolding handle_incoming ilink_gateway.Router.deliver is_admitted is_dm_allowed ◌==◌ message_text
    starts_with
idle_error = refl

handle_incoming_errors_example :
    (is_admitted (message (codes "hi")) idle ≡ true)
    × ((handle_incoming shell table (message (codes "hi")) idle).1 ≡ idle)
    × ((message_text (message (codes "hi")) ≡ none) × (no_active_agent ≡ no_text)
        ⊎ (idle.active_agent ≡ none) × (no_active_agent ≡ no_active_agent))
handle_incoming_errors_example =
    handle_incoming_errors shell table (message (codes "hi")) idle no_active_agent idle_error

abbrev erase : Text
erase = codes "rm -rf /"

erase-Typed : Typed (codes "/cmd rm -rf /") (cmd erase 30)
unfolding split_whitespace is_whitespace join ◌==◌
erase-Typed = (
  codes "cmd rm -rf /",
  refl,
  inl (codes "rm", codes "-rf" ∷ codes "/" ∷ [], refl, (inr refl, refl, refl)),
)

erase_danger : is_dangerous_command table erase ≡ true
unfolding is_dangerous_command to_lowercase ilink_gateway.Commands.contains_any
    ilink_gateway.Text.Search.contains_text
erase_danger = refl

handle_incoming_dangerous_example :
    handle_incoming shell table (message (codes "/cmd rm -rf /")) router
    ≡ (ok (some (codes "Dangerous command blocked: " ++ erase)), router)
handle_incoming_dangerous_example =
    handle_incoming_dangerous shell table (message (codes "/cmd rm -rf /")) router
      (codes "/cmd rm -rf /") erase 30 erase-Typed erase_danger (admitted _) (reads _)

date-Typed : Typed (codes "/cmd date") (cmd (codes "date") 30)
unfolding split_whitespace is_whitespace join
date-Typed = (codes "cmd date", refl, inl (codes "date", [], refl, (inl refl, refl, refl)))

date_safe : is_dangerous_command table (codes "date") ≡ false
unfolding is_dangerous_command to_lowercase ilink_gateway.Commands.contains_any
    ilink_gateway.Text.Search.contains_text
date_safe = refl

-- The output is three letters and the character 世, of three bytes, and the limit is four bytes.
handle_incoming_panics_example :
    (handle_incoming shell table (message (codes "/cmd date")) router).0 ≡ panic
unfolding byte_len width
handle_incoming_panics_example =
    handle_incoming_panics shell table (message (codes "/cmd date")) router (codes "/cmd date")
      (codes "date") (codes "abc") [] 30 19990 1 date-Typed date_safe (admitted _) (reads _) refl
      refl (omega arith) (omega arith)
