-- ===== src/Loop/Waiting.antt =====
-- gateway/src/main.rs: what the loop does to the queues of the agents.
use ilink_gateway.Prelude.{
  ◌≡◌, sym, ◌∙◌, refl, ◌++◌, append_assoc, append-nil, length-append, ℕ, suc, ◌+◌, ◌≤◌, inl, inr,
  List, [], ◌∷◌, arith, length, Bool-cases,
}
use ilink_gateway.Text.{Text}
use ilink_gateway.Error.{Result, ok, err, panic}
use ilink_gateway.Types.{WeixinMessage, GetUpdatesResponse}
use ilink_gateway.Types.Message.{unwrap_or}
use ilink_gateway.Poll.{Env, Gateway, Stepped, process_message}
use ilink_gateway.Poll.Growth.{ids, msg_id, process_message-Grows}
use ilink_gateway.Loop.{
  and_then, process_all, Loop, is_session_timeout, poll_round, Answer, go_on, poll_loop,
}

-- The messages of an answer.
abbrev pub messages_of : Result GetUpdatesResponse → List WeixinMessage
messages_of (ok resp) = unwrap_or [] resp.msgs
messages_of (err e) = []
messages_of panic = []

-- An agent's queue has kept its messages, in their order and at its head, and has at most so many
-- messages more behind them.
abbrev pub Within : Text → ℕ → Gateway → Gateway → Type 0
Within j n g g' = (new : List Text) × (ids j g'.router ≡ ids j g.router ++ new) × (length new ≤ n)

stay : (j : Text) (n : ℕ) (g : Gateway) → Within j n g g
stay j n g = ([], sym (append-nil (ids j g.router)), omega arith)

more : (j : Text) (n m : ℕ) (g g' : Gateway) → n ≤ m → Within j n g g' → Within j m g g'
more j n m g g' h (new, e, few) = (new, e, omega (arith, few))

trans :
    (j : Text) (n m : ℕ) (g g' g'' : Gateway)
    → Within j n g g'
    → Within j m g' g''
    → Within j (n + m) g g''
trans j n m g g' g'' (new, e, few) (new', e', few') =
    (new ++ new', e' ∙ rw (e, append_assoc) refl, omega (arith, few, few', length-append new new'))

message-Within :
    (env : Env) (msg : WeixinMessage) (j : Text) (g : Gateway)
    → Within j 1 g (process_message env msg g).1
message-Within env msg j g = elim (process_message-Grows env msg g j) [
  | inl same ↦ ([], same ∙ sym (append-nil (ids j g.router)), omega arith)
  | inr (h, put) ↦ (msg_id msg ∷ [], put, omega arith)
]

and_then-Within :
    (j : Text) (n : ℕ) (g : Gateway) (s : Stepped) (next : Gateway → Stepped)
    → Within j 1 g s.1
    → ((g' : Gateway) → Within j n g' (next g').1)
    → Within j (suc n) g (and_then s next).1
and_then-Within j n g (ok u, g') next h k =
    more j (1 + n) (suc n) g (next g').1 (omega arith) (trans j 1 n g g' (next g').1 h (k g'))
and_then-Within j n g (err e, g') next h k = more j 1 (suc n) g g' (omega arith) h
and_then-Within j n g (panic, g') next h k = more j 1 (suc n) g g' (omega arith) h

process_all-Within :
    (envs : ℕ → Env) (i : ℕ) (msgs : List WeixinMessage) (j : Text) (g : Gateway)
    → Within j (length msgs) g (process_all envs i msgs g).1
unfolding process_all
process_all-Within envs i [] j g = stay j 0 g
process_all-Within envs i (msg ∷ msgs) j g =
    and_then-Within j (length msgs) g (process_message (envs i) msg g)
      (process_all envs (i + 1) msgs) (message-Within (envs i) msg j g)
      (process_all-Within envs (i + 1) msgs j)

round-Within :
    (envs : ℕ → Env) (resp : Result GetUpdatesResponse) (j : Text) (l : Loop)
    → Within j (length (messages_of resp)) l.gateway (poll_round envs resp l).1.gateway
unfolding poll_round
round-Within envs (err e) j l = stay j 0 l.gateway
round-Within envs panic j l = stay j 0 l.gateway
round-Within envs (ok resp) j l = elim (Bool-cases (is_session_timeout resp.errcode)) [
  | inl timeout ↦ rw timeout (stay j _ l.gateway)
  | inr alive ↦ rw alive (process_all-Within envs 0 (unwrap_or [] resp.msgs) j l.gateway)
]

go_on-Within :
    (j : Text) (n m : ℕ) (g : Gateway) (s : Result (Unit {0}) × Loop)
    (next : Loop → Result (Unit {0}) × Loop)
    → Within j n g s.1.gateway
    → ((l : Loop) → Within j m l.gateway (next l).1.gateway)
    → Within j (n + m) g (go_on s next).1.gateway
go_on-Within j n m g (ok u, l) next h k = trans j n m g l.gateway (next l).1.gateway h (k l)
go_on-Within j n m g (err e, l) next h k = more j n (n + m) g l.gateway (omega arith) h
go_on-Within j n m g (panic, l) next h k = more j n (n + m) g l.gateway (omega arith) h

-- The messages of all answers.
abbrev pub total_messages : List Answer → ℕ
total_messages [] = 0
total_messages ((envs, resp) ∷ answers) = length (messages_of resp) + total_messages answers

-- Over any number of rounds, with errors, session timeouts and panics among them, the loop takes no
-- message out of any agent's queue and keeps their order, and it puts at most one behind them for
-- each message that the server sent.
pub poll_loop-Within :
    (answers : List Answer) (j : Text) (l : Loop)
    → Within j (total_messages answers) l.gateway (poll_loop answers l).1.gateway
unfolding poll_loop
poll_loop-Within [] j l = stay j 0 l.gateway
poll_loop-Within ((envs, resp) ∷ answers) j l =
    go_on-Within j (length (messages_of resp)) (total_messages answers) l.gateway
      (poll_round envs resp l) (poll_loop answers) (round-Within envs resp j l)
      (poll_loop-Within answers j)
