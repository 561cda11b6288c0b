-- ===== src/Commands.antt =====
-- gateway/src/router/commands.rs: the commands of a WeChat user.
pub mod Parse
pub mod Grammar
pub mod Danger
pub mod Output
use ilink_gateway.Prelude.{
  ℕ, Bool, false, ◌||◌, Option, none, some, List, [], ◌∷◌, ◌++◌, ltb, nat_eq, if◌then◌else◌,
}
use ilink_gateway.Text.{Text, ◌==◌, codes}
use ilink_gateway.Text.Space.{trim, split_whitespace, join}
use ilink_gateway.Text.Search.{contains_text, to_lowercase, LowerTable}
use ilink_gateway.Text.Number.{parse_u64, show_nat}
use ilink_gateway.Text.Utf8.{byte_len, truncate}
use ilink_gateway.Error.{Result, ok, err, panic, command}
use ilink_gateway.Types.{RouterCommand, use_agent, list_agents, status, cmd, help}

abbrev pub default_timeout : ℕ
default_timeout = 30

-- The command after the optional timeout: none, if no word is left.
unfoldable pub build_cmd : ℕ → List Text → Option RouterCommand
build_cmd timeout_secs [] = none
build_cmd timeout_secs (w ∷ ws) = some (cmd (join (32 ∷ []) (w ∷ ws)) timeout_secs)

-- The words behind `/cmd`: with two words or more the first may be `timeout`, and then the second
-- is skipped even where it is no number.
unfoldable pub parse_cmd : List Text → Option RouterCommand
unfolding build_cmd
parse_cmd [] = none
parse_cmd (w ∷ []) = build_cmd default_timeout (w ∷ [])
parse_cmd (w ∷ v ∷ ws) =
    if w == codes "timeout"
    then build_cmd (elim (parse_u64 v) [ none ↦ default_timeout | some t ↦ t ]) ws
    else build_cmd default_timeout (w ∷ v ∷ ws)

-- The words behind `/use`.
abbrev pub parse_use : List Text → Option RouterCommand
parse_use [] = none
parse_use (w ∷ ws) = if w == [] then none else some (use_agent w)

unfoldable pub parse_words : List Text → Option RouterCommand
unfolding parse_cmd
parse_words [] = none
parse_words (w ∷ ws) =
    if w == codes "use"
    then parse_use ws
    else if w == codes "list"
    then some list_agents
    else if w == codes "status"
    then some status
    else if w == codes "gateway-help"
    then some help
    else if w == codes "cmd"
    then parse_cmd ws
    else none

-- `text.starts_with('/')` and `&text[1..]`.
abbrev pub after_slash : Text → Option Text
after_slash [] = none
after_slash (c ∷ s) = if nat_eq c b'/' then some s else none

abbrev pub parse_rest : Option Text → Option RouterCommand
parse_rest none = none
parse_rest (some s) = parse_words (split_whitespace s)

unfoldable pub parse_command : Text → Option RouterCommand
unfolding parse_words
parse_command text = parse_rest (after_slash (trim text))

-- What the shell did with a command within its time limit; the texts are those that
-- `from_utf8_lossy` returns.
pub data ShellOutcome : Type 0 where
  timed_out : ShellOutcome
  failed : Text → ShellOutcome
  finished : Text → Text → ShellOutcome

abbrev pub Shell : Type 0
Shell = Text → ℕ → ShellOutcome

-- stdout, and stderr behind it on a line of its own.
abbrev pub push_stderr : Text → Text → Text
push_stderr out [] = out
push_stderr [] (e ∷ es) = e ∷ es
push_stderr (o ∷ os) (e ∷ es) = (o ∷ os) ++ (10 ∷ e ∷ es)

-- The output, cut to `max_chars` bytes; the cut panics inside a character.
unfoldable pub limit_output : ℕ → Text → Result Text
limit_output max_chars result =
    if ltb max_chars (byte_len result)
    then elim (truncate max_chars result) [
      | none ↦ panic
      | some t ↦ ok (t ++ codes "... (truncated)")
    ]
    else ok result

abbrev pub finish_command : ℕ → ℕ → ShellOutcome → Result Text
finish_command timeout_secs max_chars timed_out =
    err (command (codes "command timed out after " ++ (show_nat timeout_secs ++ codes "s")))
finish_command timeout_secs max_chars (failed e) =
    err (command (codes "failed to execute command: " ++ e))
finish_command timeout_secs max_chars (finished out errs) =
    limit_output max_chars (push_stderr out errs)

unfoldable pub execute_command : Shell → Text → ℕ → ℕ → Result Text
unfolding limit_output
execute_command shell c timeout_secs max_chars =
    finish_command timeout_secs max_chars (shell c timeout_secs)

abbrev pub dangerous_patterns : List Text
dangerous_patterns =
    codes "rm -rf /"
    ∷ codes "rm -rf /*"
    ∷ codes "rm -rf ~"
    ∷ codes "shutdown"
    ∷ codes "reboot"
    ∷ codes "> /dev/sda"
    ∷ codes "mkfs"
    ∷ codes "dd if="
    ∷ codes ":{():|:&};:"
    ∷ codes ":(){ :|:& };:"
    ∷ []

unfoldable pub contains_any : List Text → Text → Bool
contains_any [] s = false
contains_any (p ∷ ps) s = contains_text p s || contains_any ps s

unfoldable pub is_dangerous_command : LowerTable → Text → Bool
unfolding contains_any
is_dangerous_command table c = contains_any dangerous_patterns (to_lowercase table c)
