-- ===== src/Tests/Texts.antt =====
-- Commands, dangerous patterns and the output limit at concrete inputs.
use ilink_gateway.Prelude.{◌≡◌, inl, inr, refl, true, some, ◌++◌, ◌↔◌, [], ◌∷◌}
use ilink_gateway.Text.{Text, ◌==◌, codes}
use ilink_gateway.Text.Space.{trim, join, split_whitespace, is_whitespace}
use ilink_gateway.Text.Search.{to_lowercase, to_ascii_lowercase, is_ascii}
use ilink_gateway.Types.{cmd}
use ilink_gateway.Commands.{parse_command, dangerous_patterns, is_dangerous_command, limit_output}
use ilink_gateway.Commands.Grammar.{Means, parse_command_exact}
use ilink_gateway.Commands.Danger.{dangerous-blocked}
use ilink_gateway.Tests.{table}

parse_command_exact_example :
    (parse_command (codes " /cmd rm -rf / ") ≡ some (cmd (codes "rm -rf /") 30)) ↔ (
      (s : Text) × (trim (codes " /cmd rm -rf / ") ≡ b'/' ∷ s)
      × Means (cmd (codes "rm -rf /") 30) (split_whitespace s))
parse_command_exact_example =
    parse_command_exact (codes " /cmd rm -rf / ") (cmd (codes "rm -rf /") 30)

-- The words of that text.
typed : Means (cmd (codes "rm -rf /") 30) (split_whitespace (codes "cmd rm -rf / "))
unfolding split_whitespace is_whitespace join ◌==◌
typed = inl (codes "rm", codes "-rf" ∷ codes "/" ∷ [], refl, (inr refl, refl, refl))

dangerous-blocked_example :
    is_dangerous_command table (codes "sudo " ++ (codes "ReBoot" ++ codes " now")) ≡ true
unfolding to_ascii_lowercase
dangerous-blocked_example =
    dangerous-blocked table (codes "sudo ") (codes "ReBoot") (codes " now") (codes "reboot")
      (inr (inr (inr (inr (inl refl))))) refl refl

mkfs_blocked : is_dangerous_command table (codes "mkfs") ≡ true
unfolding is_dangerous_command to_lowercase ilink_gateway.Commands.contains_any
    ilink_gateway.Text.Search.contains_text
mkfs_blocked = refl
