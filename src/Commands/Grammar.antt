-- ===== src/Commands/Grammar.antt =====
-- gateway/src/router/commands.rs: which texts are which commands.
use ilink_gateway.Prelude.{
  ℕ, ◌≡◌, ◌≢◌, ◌⊎◌, ◌↔◌, inl, inr, refl, sym, ap, ◌∙◌, true, false, Option, none, some, List, [],
  ◌∷◌, arith, Bool-cases, Option-cases, if◌then◌else◌,
}
use mathlib.Core.Path.{subst}
use ilink_gateway.Text.{Text, ◌==◌, codes, eq_iff}
use ilink_gateway.Text.Space.{trim, split_whitespace, join}
use ilink_gateway.Text.Number.{parse_u64}
use ilink_gateway.Types.{RouterCommand, use_agent, list_agents, status, cmd, help}
use ilink_gateway.Commands.{
  default_timeout, build_cmd, parse_cmd, parse_use, parse_words, after_slash, parse_rest,
  parse_command,
}
use ilink_gateway.Commands.Parse.{parse_command-slash}

-- A shell command of these words, which begins with no timeout: a single word `timeout` is the
-- command itself.
abbrev pub IsShell : Text → List Text → Text → ℕ → Type 0
IsShell w rest c timeout_secs =
    ((rest ≡ []) ⊎ ((w == codes "timeout") ≡ false))
    × (c ≡ join (32 ∷ []) (w ∷ rest))
    × (timeout_secs ≡ 30)

-- The words of a command, the first one behind its slash. Words behind the ones that count are
-- ignored; a timeout that is no u64 is skipped.
abbrev pub Means : RouterCommand → List Text → Type 0
Means (use_agent name) ws = (rest : List Text) × (ws ≡ codes "use" ∷ name ∷ rest) × (name ≢ [])
Means list_agents ws = (rest : List Text) × (ws ≡ codes "list" ∷ rest)
Means status ws = (rest : List Text) × (ws ≡ codes "status" ∷ rest)
Means help ws = (rest : List Text) × (ws ≡ codes "gateway-help" ∷ rest)
Means (cmd c timeout_secs) ws =
    ((w : Text) × (rest : List Text) × (ws ≡ codes "cmd" ∷ w ∷ rest)
      × IsShell w rest c timeout_secs)
    ⊎ ((v : Text) × (w : Text) × (rest : List Text) × (ws
          ≡ codes "cmd" ∷ codes "timeout" ∷ v ∷ w ∷ rest)
        × (c ≡ join (32 ∷ []) (w ∷ rest))
        × ((parse_u64 v ≡ some timeout_secs) ⊎ (parse_u64 v ≡ none) × (timeout_secs ≡ 30)))

abbrev MeansOption : List Text → Option RouterCommand → Type 0
MeansOption ws none = Unit
MeansOption ws (some c) = Means c ws

ne_nil : (w : Text) → w ≢ [] → (w == []) ≡ false
unfolding ◌==◌
ne_nil [] h = absurd (h refl)
ne_nil (c ∷ w) h = refl

nil_ne : (w : Text) → (w == []) ≡ false → w ≢ []
unfolding ◌==◌
nil_ne [] h e = absurd cc
nil_ne (c ∷ w) h e = absurd cc

parse_cmd-shell :
    (w : Text) (rest : List Text)
    → (rest ≡ []) ⊎ ((w == codes "timeout") ≡ false)
    → parse_cmd (w ∷ rest) ≡ some (cmd (join (32 ∷ []) (w ∷ rest)) 30)
unfolding parse_cmd
parse_cmd-shell w [] h = refl
parse_cmd-shell w (v ∷ ws) (inl e) = absurd cc
parse_cmd-shell w (v ∷ ws) (inr e) = rw e refl

parse_cmd-timeout :
    (v w : Text) (rest : List Text) (t : ℕ)
    → (parse_u64 v ≡ some t) ⊎ (parse_u64 v ≡ none) × (t ≡ 30)
    → parse_cmd (codes "timeout" ∷ v ∷ w ∷ rest) ≡ some (cmd (join (32 ∷ []) (w ∷ rest)) t)
unfolding parse_cmd ◌==◌
parse_cmd-timeout v w rest t (inl good) = rw good refl
parse_cmd-timeout v w rest t (inr (bad, e)) = rw (bad, e) refl

Means-parse_words : (c : RouterCommand) (ws : List Text) → Means c ws → parse_words ws ≡ some c
unfolding parse_words ◌==◌
Means-parse_words (use_agent name) ws (rest, e, h) =
    ap parse_words e ∙ ap (λ b. if b then none else some (use_agent name)) (ne_nil name h)
Means-parse_words list_agents ws (rest, e) = ap parse_words e
Means-parse_words status ws (rest, e) = ap parse_words e
Means-parse_words help ws (rest, e) = ap parse_words e
Means-parse_words (cmd c t) ws (inl (w, rest, e, (plain, same, half))) =
    ap parse_words e ∙ parse_cmd-shell w rest plain ∙ rw (same, half) refl
Means-parse_words (cmd c t) ws (inr (v, w, rest, e, same, timed)) =
    ap parse_words e ∙ parse_cmd-timeout v w rest t timed ∙ rw same refl

parse_use-Means : (ws : List Text) → MeansOption (codes "use" ∷ ws) (parse_use ws)
parse_use-Means [] = tt
parse_use-Means (w ∷ ws) = elim (Bool-cases (w == [])) [
  | inl empty ↦ rw empty tt
  | inr word ↦ rw word (ws, refl, nil_ne w word)
]

timeout_cases :
    (v : Text) (t : ℕ)
    → t ≡ elim (parse_u64 v) [ none ↦ default_timeout | some n ↦ n ]
    → (parse_u64 v ≡ some t) ⊎ (parse_u64 v ≡ none) × (t ≡ 30)
timeout_cases v t h = elim (Option-cases (parse_u64 v)) [
  | inl bad ↦ inr (bad, ground arith)
  | inr (n, good) ↦ inl (ground arith)
]

parse_cmd-Means : (ws : List Text) → MeansOption (codes "cmd" ∷ ws) (parse_cmd ws)
unfolding parse_cmd build_cmd
parse_cmd-Means [] = tt
parse_cmd-Means (w ∷ []) = inl (w, [], refl, (inl refl, refl, refl))
parse_cmd-Means (w ∷ v ∷ []) = elim (Bool-cases (w == codes "timeout")) [
  | inl timed ↦ rw timed tt
  | inr plain ↦ rw plain (inl (w, v ∷ [], refl, (inr plain, refl, refl)))
]
parse_cmd-Means (w ∷ v ∷ x ∷ rest) = elim (Bool-cases (w == codes "timeout")) [
  | inl timed ↦ rw timed (
      inr (
        v,
        x,
        rest,
        ap (λ (k : Text). codes "cmd" ∷ k ∷ v ∷ x ∷ rest) ((eq_iff w (codes "timeout")).0 timed),
        refl,
        timeout_cases v _ refl,
      ))
  | inr plain ↦ rw plain (inl (w, v ∷ x ∷ rest, refl, (inr plain, refl, refl)))
]

-- The same for words whose first one equals a given one.
first_word :
    (w k : Text) (ws : List Text) (o : Option RouterCommand)
    → (w == k) ≡ true
    → MeansOption (k ∷ ws) o
    → MeansOption (w ∷ ws) o
first_word w k ws o e h = subst (λ (j : Text). MeansOption (j ∷ ws) o) (sym ((eq_iff w k).0 e)) h

parse_words-Means : (ws : List Text) → MeansOption ws (parse_words ws)
unfolding parse_words
parse_words-Means [] = tt
parse_words-Means (w ∷ ws) = elim (Bool-cases (w == codes "use")) [
  | inl e ↦ rw e (first_word w (codes "use") ws (parse_use ws) e (parse_use-Means ws))
  | inr e₁ ↦ elim (Bool-cases (w == codes "list")) [
    | inl e ↦ rw (e₁, e) (first_word w (codes "list") ws (some list_agents) e (ws, refl))
    | inr e₂ ↦ elim (Bool-cases (w == codes "status")) [
      | inl e ↦ rw (e₁, e₂, e) (first_word w (codes "status") ws (some status) e (ws, refl))
      | inr e₃ ↦ elim (Bool-cases (w == codes "gateway-help")) [
        | inl e ↦
            rw (e₁, e₂, e₃, e) (first_word w (codes "gateway-help") ws (some help) e (ws, refl))
        | inr e₄ ↦ elim (Bool-cases (w == codes "cmd")) [
          | inl e ↦
              rw (e₁, e₂, e₃, e₄, e)
                (first_word w (codes "cmd") ws (parse_cmd ws) e (parse_cmd-Means ws))
          | inr e₅ ↦ rw (e₁, e₂, e₃, e₄, e₅) tt
        ]
      ]
    ]
  ]
]

after_slash-some : (t s : Text) → after_slash t ≡ some s → t ≡ b'/' ∷ s
after_slash-some [] s h = absurd cc
after_slash-some (c ∷ t) s h = ground arith

-- Exactly these texts are read as a command: behind surrounding white space and a slash come the
-- command's words. A shell command is all the words behind `/cmd`, with 30 seconds, unless the first
-- of several is `timeout`; and behind `/cmd timeout <n>` it is all further words, at least one, with
-- `n` seconds, or 30 where `n` is no number that fits. Other commands ignore further words.
pub parse_command_exact :
    (text : Text) (c : RouterCommand)
    → (parse_command text ≡ some c)
      ↔ ((s : Text) × (trim text ≡ b'/' ∷ s) × Means c (split_whitespace s))
unfolding parse_command
parse_command_exact text c = (
  (λ h. elim (Option-cases (after_slash (trim text))) [
    | inl bare ↦ let no : none ≡ some c = sym (ap parse_rest bare) ∙ h in absurd cc
    | inr (s, slash) ↦ (
      s,
      after_slash-some (trim text) s slash,
      subst (MeansOption (split_whitespace s)) (sym (ap parse_rest slash) ∙ h)
          (parse_words-Means (split_whitespace s)),
    )
  ]),
  (λ (s, e, means).
      ap (λ (t : Text). parse_rest (after_slash t)) e
      ∙ Means-parse_words c (split_whitespace s) means),
)

-- A text that starts with the slash and is this command.
abbrev pub Typed : Text → RouterCommand → Type 0
Typed text c = (s : Text) × (text ≡ b'/' ∷ s) × Means c (split_whitespace s)

pub parse_command-Typed :
    (text : Text) (c : RouterCommand) → Typed text c → parse_command text ≡ some c
parse_command-Typed text c (s, e, means) =
    ap parse_command e ∙ parse_command-slash s ∙ Means-parse_words c (split_whitespace s) means
