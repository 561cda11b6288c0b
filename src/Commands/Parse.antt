-- ===== src/Commands/Parse.antt =====
-- gateway/src/router/commands.rs: the words of the commands, and their long spelling.
use ilink_gateway.Prelude.{
  ℕ, ◌<◌, ◌≡◌, ◌≢◌, inl, inr, refl, ap, ◌∙◌, true, false, not, Option, none, some, List, [], ◌∷◌,
  arith, all, Bool-cases, Option-cases,
}
use ilink_gateway.Text.{Text, ◌==◌, codes}
use ilink_gateway.Text.Space.{
  is_whitespace, trim, split_whitespace, join, IsWord, AllWords, no_blank, split-join,
  split_whitespace-AllWords, split-trim_end, trim_solid,
}
use ilink_gateway.Text.Number.{
  parse_u64, show_nat, u64_limit, is_digit, show_nat_digits, show_nat-cons, parse_u64-show_nat,
  parse_u64-lt,
}
use ilink_gateway.Types.{RouterCommand, use_agent, list_agents, status, cmd, help}
use ilink_gateway.Commands.{
  default_timeout, build_cmd, parse_cmd, parse_use, parse_words, after_slash, parse_command,
}

slash_solid : is_whitespace b'/' ≡ false
unfolding is_whitespace
slash_solid = refl

-- Behind a slash, a text is read word by word.
pub parse_command-slash : (s : Text) → parse_command (b'/' ∷ s) ≡ parse_words (split_whitespace s)
unfolding parse_command
parse_command-slash s = rw (trim_solid b'/' s slash_solid, split-trim_end s)

-- The words of a command in its long spelling, with the timeout written out.
unfoldable pub command_words : RouterCommand → List Text
command_words (use_agent name) = codes "use" ∷ name ∷ []
command_words list_agents = codes "list" ∷ []
command_words status = codes "status" ∷ []
command_words help = codes "gateway-help" ∷ []
command_words (cmd c timeout_secs) =
    codes "cmd" ∷ codes "timeout" ∷ show_nat timeout_secs ∷ split_whitespace c

unfoldable pub print_command : RouterCommand → Text
unfolding command_words
print_command c = b'/' ∷ join (32 ∷ []) (command_words c)

-- A command that the parser can return: a name is a word, a shell command is words joined by
-- single spaces, and a timeout is a u64.
abbrev pub IsCommand : RouterCommand → Type 0
IsCommand (use_agent name) = IsWord name
IsCommand (cmd c timeout_secs) =
    (split_whitespace c ≢ [])
    × (join (32 ∷ []) (split_whitespace c) ≡ c)
    × (timeout_secs < u64_limit)
IsCommand _ = Unit

digit_solid : (c : ℕ) → is_digit c ≡ true → not (is_whitespace c) ≡ true
unfolding is_digit is_whitespace
digit_solid c h = ground arith

digits_solid : (s : Text) → all is_digit s ≡ true → no_blank s ≡ true
digits_solid [] h = refl
digits_solid (c ∷ s) h = ground (arith, digit_solid c, digits_solid s)

no_blank-IsWord : (w : Text) (c : ℕ) (s : Text) → w ≡ c ∷ s → no_blank w ≡ true → IsWord w
no_blank-IsWord [] c s e h = cc
no_blank-IsWord (d ∷ w) c s e h = h

show_nat-IsWord : (n : ℕ) → IsWord (show_nat n)
show_nat-IsWord n =
    let (c, s, e) = show_nat-cons n in
    no_blank-IsWord (show_nat n) c s e (digits_solid (show_nat n) (show_nat_digits n))

command_words-AllWords : (c : RouterCommand) → IsCommand c → AllWords (command_words c)
unfolding command_words is_whitespace
command_words-AllWords (use_agent name) h = (refl, (h, tt))
command_words-AllWords list_agents h = (refl, tt)
command_words-AllWords status h = (refl, tt)
command_words-AllWords help h = (refl, tt)
command_words-AllWords (cmd c t) h =
    (refl, (refl, (show_nat-IsWord t, split_whitespace-AllWords c)))

build_cmd-words :
    (t : ℕ) (ws : List Text) → ws ≢ [] → build_cmd t ws ≡ some (cmd (join (32 ∷ []) ws) t)
unfolding build_cmd
build_cmd-words t [] h = absurd (h refl)
build_cmd-words t (w ∷ ws) h = refl

IsWord-ne : (w : Text) → IsWord w → (w == []) ≡ false
unfolding ◌==◌
IsWord-ne [] h = absurd h
IsWord-ne (c ∷ w) h = refl

parse_words-command_words :
    (c : RouterCommand) → IsCommand c → parse_words (command_words c) ≡ some c
unfolding parse_words command_words ◌==◌
parse_words-command_words (use_agent name) h = rw (IsWord-ne name h)
parse_words-command_words list_agents h = refl
parse_words-command_words status h = refl
parse_words-command_words help h = refl
parse_words-command_words (cmd c t) h =
    rw (parse_u64-show_nat t h.2)
      (build_cmd-words t (split_whitespace c) h.0 ∙ ap (λ s. some (cmd s t)) h.1)

-- Every command that the parser can return is read back from its long spelling.
pub parse-print_command :
    (c : RouterCommand) → IsCommand c → parse_command (print_command c) ≡ some c
unfolding print_command
parse-print_command c h =
    parse_command-slash (join (32 ∷ []) (command_words c))
    ∙ ap parse_words (split-join (command_words c) (command_words-AllWords c h))
    ∙ parse_words-command_words c h

-- What a parser may return.
abbrev pub Parsed : Option RouterCommand → Type 0
Parsed none = Unit
Parsed (some c) = IsCommand c

parse_use-Parsed : (ws : List Text) → AllWords ws → Parsed (parse_use ws)
parse_use-Parsed [] h = tt
parse_use-Parsed (w ∷ ws) h = rw (IsWord-ne w h.0) h.0

build_cmd-Parsed : (t : ℕ) (ws : List Text) → t < u64_limit → AllWords ws → Parsed (build_cmd t ws)
unfolding build_cmd
build_cmd-Parsed t [] k h = tt
build_cmd-Parsed t (w ∷ ws) k h = rw (split-join (w ∷ ws) h) ((λ e. cc), refl, k)

timeout_of : Option ℕ → ℕ
timeout_of o = elim o [ none ↦ default_timeout | some t ↦ t ]

timeout_of-lt : (v : Text) → timeout_of (parse_u64 v) < u64_limit
unfolding timeout_of
timeout_of-lt v = elim (Option-cases (parse_u64 v)) [
  | inl bad ↦ rw bad (omega arith)
  | inr (t, good) ↦ rw good (parse_u64-lt v t good)
]

parse_cmd-Parsed : (ws : List Text) → AllWords ws → Parsed (parse_cmd ws)
unfolding parse_cmd timeout_of
parse_cmd-Parsed [] h = tt
parse_cmd-Parsed (w ∷ []) h = build_cmd-Parsed default_timeout (w ∷ []) (omega arith) h
parse_cmd-Parsed (w ∷ v ∷ ws) h = elim (Bool-cases (w == codes "timeout")) [
  | inl e ↦ rw e (build_cmd-Parsed _ ws (timeout_of-lt v) h.1.1)
  | inr e ↦ rw e (build_cmd-Parsed default_timeout (w ∷ v ∷ ws) (omega arith) h)
]

parse_words-Parsed : (ws : List Text) → AllWords ws → Parsed (parse_words ws)
unfolding parse_words
parse_words-Parsed [] h = tt
parse_words-Parsed (w ∷ ws) h = elim (Bool-cases (w == codes "use")) [
  | inl e ↦ rw e (parse_use-Parsed ws h.1)
  | inr e₁ ↦ elim (Bool-cases (w == codes "list")) [
    | inl e ↦ rw (e₁, e) tt
    | inr e₂ ↦ elim (Bool-cases (w == codes "status")) [
      | inl e ↦ rw (e₁, e₂, e) tt
      | inr e₃ ↦ elim (Bool-cases (w == codes "gateway-help")) [
        | inl e ↦ rw (e₁, e₂, e₃, e) tt
        | inr e₄ ↦ elim (Bool-cases (w == codes "cmd")) [
          | inl e ↦ rw (e₁, e₂, e₃, e₄, e) (parse_cmd-Parsed ws h.1)
          | inr e₅ ↦ rw (e₁, e₂, e₃, e₄, e₅) tt
        ]
      ]
    ]
  ]
]

-- Whatever the text, a command that is parsed out of it has a name that is one word, or a shell
-- command of single-spaced words and a timeout below 2 ^ 64.
pub parse_command-Parsed : (s : Text) → Parsed (parse_command s)
unfolding parse_command
parse_command-Parsed s = elim (Option-cases (after_slash (trim s))) [
  | inl none_left ↦ rw none_left tt
  | inr (r, rest) ↦ rw rest (parse_words-Parsed (split_whitespace r) (split_whitespace-AllWords r))
]
