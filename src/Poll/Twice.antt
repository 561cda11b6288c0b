-- ===== src/Poll/Twice.antt =====
-- gateway/src/main.rs: a message that the server delivers again.
use ilink_gateway.Prelude.{
  ℕ, ◌+◌, ◌≤◌, ◌<◌, ◌≡◌, inl, inr, refl, sym, ap, ◌∙◌, Bool, true, false, Option, none, some, List,
  [], ◌∷◌, Bool-cases, Option-cases, arith, if◌then◌else◌,
}
use mathlib.Core.Path.{subst}
use ilink_gateway.Text.{Text, eq_refl}
use ilink_gateway.Error.{Result, ok, err, panic}
use ilink_gateway.Map.{Distinct, lookup}
use ilink_gateway.Types.{WeixinMessage}
use ilink_gateway.Types.Message.{is_user_message}
use ilink_gateway.Registry.{is_registered}
use ilink_gateway.Store.{get_msg_agent_context}
use ilink_gateway.Dedup.{DedupCache, check_and_record, dedup_key}
use ilink_gateway.Dedup.Window.{check_and_record_exact, check_and_record_early}
use ilink_gateway.Router.{Router, handle_incoming, route_to_agent}
use ilink_gateway.Poll.{
  Env, Gateway, Stepped, ref_msg_id, unwrap_none, agent_of, routed, route_to_context,
  route_reference, after_handled, after_routing, send_inline, handle_message, process_message,
  handle_message_with,
}
use ilink_gateway.Poll.Dropped.{checked, process_message_skips, process_message_new}
use ilink_gateway.Poll.Growth.{continue_with}

after_handled-dedup :
    (env : Env) (msg : WeixinMessage) (active : Option Text) (res : Result (Option Text))
    (g : Gateway)
    → (after_handled env msg active res g).1.dedup ≡ g.dedup
unfolding after_routing send_inline
after_handled-dedup env msg none (ok none) g = refl
after_handled-dedup env msg (some a) (ok none) g = refl
after_handled-dedup env msg active (ok (some t)) g = refl
after_handled-dedup env msg active (err e) g = refl
after_handled-dedup env msg active panic g = refl

handle_message-dedup :
    (env : Env) (msg : WeixinMessage) (g : Gateway) → (handle_message env msg g).1.dedup ≡ g.dedup
unfolding handle_message_with
handle_message-dedup env msg g =
    let (res, r') = handle_incoming env.shell env.table msg g.router in
    after_handled-dedup env msg g.router.active_agent res (record g { router = r' })

routed-dedup :
    (env : Env) (msg : WeixinMessage) (a : Text) (res : Result (Unit {0}) × Router) (g : Gateway)
    → (routed env msg a res g).1.dedup ≡ g.dedup
routed-dedup env msg a (ok u, r') g = refl
routed-dedup env msg a (err e, r') g = refl
routed-dedup env msg a (panic, r') g = refl

route_to_context-dedup :
    (env : Env) (msg : WeixinMessage) (c : Text) (agent : Option Text) (g : Gateway)
    → (route_to_context env msg c agent g).1.dedup ≡ g.dedup
unfolding route_to_context
route_to_context-dedup env msg c none g = refl
route_to_context-dedup env msg c (some a) g =
    elim (Bool-cases (is_registered a g.router.registry)) [
      | inr unknown ↦ rw unknown refl
      | inl known ↦ rw known (routed-dedup env msg a (route_to_agent msg a (some c) g.router) g)
    ]

route_reference-dedup :
    (env : Env) (msg : WeixinMessage) (g : Gateway) → (route_reference env msg g).1.dedup ≡ g.dedup
unfolding route_reference
route_reference-dedup env msg g = elim (Option-cases (ref_msg_id msg)) [
  | inl plain ↦ rw (plain, route_reference) refl
  | inr (id, e) ↦ elim (Option-cases (unwrap_none (get_msg_agent_context env.fault id g.store))) [
    | inl missing ↦ rw (e, missing, route_reference) refl
    | inr (c, found) ↦
        rw (e, found, route_reference) (route_to_context-dedup env msg c (agent_of env c) g)
  ]
]

continue_with-dedup :
    (env : Env) (msg : WeixinMessage) (p : Bool × Gateway)
    → (continue_with env msg p).1.dedup ≡ p.1.dedup
continue_with-dedup env msg (true, g) = refl
continue_with-dedup env msg (false, g) = handle_message-dedup env msg g

-- The dedup cache after a message, whatever it does.
abbrev after_check : Env → WeixinMessage → Gateway → DedupCache
after_check env msg g = if is_user_message msg then (checked env msg g).1 else g.dedup

process_message-dedup :
    (env : Env) (msg : WeixinMessage) (g : Gateway)
    → (process_message env msg g).1.dedup ≡ after_check env msg g
process_message-dedup env msg g = elim (Bool-cases (is_user_message msg)) [
  | inr other ↦
      ap (λ (s : Stepped). s.1.dedup) ((process_message_skips env msg g).0 other) ∙ rw other refl
  | inl user ↦ elim (Bool-cases (checked env msg g).0) [
    | inr seen ↦
        ap (λ (s : Stepped). s.1.dedup) ((process_message_skips env msg g).1 user seen)
        ∙ rw user refl
    | inl new ↦
        let g' : Gateway = record g { dedup = (checked env msg g).1 } in
        ap (λ (s : Stepped). s.1.dedup) (process_message_new env msg g user new)
        ∙ continue_with-dedup env msg (route_reference env msg g')
        ∙ route_reference-dedup env msg g'
        ∙ rw user refl
  ]
]

-- Some messages, each handled in its own world.
unfoldable pub process_each : List (Env × WeixinMessage) → Gateway → Gateway
process_each [] g = g
process_each ((env, msg) ∷ rest) g = process_each rest (process_message env msg g).1

-- Each of the messages comes at a time between these two.
abbrev pub Between : ℕ → ℕ → List (Env × WeixinMessage) → Type 0
Between early late [] = Unit
Between early late ((env, msg) ∷ rest) =
    (early ≤ env.now) × (env.now ≤ late) × Between early late rest

-- The key was let through at this time, and is remembered for so long.
record Holds (key : Text) (at ttl : ℕ) (c : DedupCache) : Type 0 where
  distinct : Distinct c.seen
  recorded : lookup key c.seen ≡ some at
  lifetime : c.ttl ≡ ttl

check-Holds :
    (key : Text) (at ttl now : ℕ) (k : Text) (c : DedupCache)
    → at ≤ now
    → now < at + ttl
    → Holds key at ttl c
    → Holds key at ttl (check_and_record now k c).1
check-Holds key at ttl now k c h early held =
    let (verdict, kept, d', same_ttl) = check_and_record_exact now k c held.distinct in
    let soon : now < at + c.ttl = omega (arith, held.lifetime) in
    record {
      distinct = d';
      recorded = (check_and_record_early key at now k c held.distinct h soon held.recorded).0;
      lifetime = same_ttl ∙ held.lifetime;
    }

process_message-Holds :
    (key : Text) (at ttl : ℕ) (env : Env) (msg : WeixinMessage) (g : Gateway)
    → at ≤ env.now
    → env.now < at + ttl
    → Holds key at ttl g.dedup
    → Holds key at ttl (process_message env msg g).1.dedup
process_message-Holds key at ttl env msg g h early held =
    subst (Holds key at ttl) (sym (process_message-dedup env msg g))
      (elim (Bool-cases (is_user_message msg)) [
        | inl user ↦
            rw user (check-Holds key at ttl env.now (dedup_key env.md5 msg) g.dedup h early held)
        | inr other ↦ rw other held
      ])

process_each-Holds :
    (key : Text) (at ttl late : ℕ) (es : List (Env × WeixinMessage)) (g : Gateway)
    → Between at late es
    → late < at + ttl
    → Holds key at ttl g.dedup
    → Holds key at ttl (process_each es g).dedup
unfolding process_each
process_each-Holds key at ttl late [] g times early held = held
process_each-Holds key at ttl late ((env, msg) ∷ es) g times early held =
    process_each-Holds key at ttl late es (process_message env msg g).1 times.2 early
      (process_message-Holds key at ttl env msg g times.0 (omega (arith, times.1)) held)

-- A key that is let through is recorded.
first-Holds :
    (key : Text) (now : ℕ) (c : DedupCache)
    → Distinct c.seen
    → (check_and_record now key c).0 ≡ true
    → Holds key now c.ttl (check_and_record now key c).1
first-Holds key now c d first =
    let (verdict, kept, d', same_ttl) = check_and_record_exact now key c d in
    record { distinct = d'; recorded = kept key ∙ ground (arith, eq_refl key); lifetime = same_ttl }

-- A user's message that was handled, and that comes again within the lifetime of its key, changes
-- nothing but the dedup cache, and nothing is sent: whatever the message did the first time, and
-- whatever other messages, with any effects, were handled in between. The cache has each key once,
-- and the clock does not run backwards.
pub process_message_twice :
    (env env' : Env) (msg : WeixinMessage) (between : List (Env × WeixinMessage)) (g : Gateway)
    → Distinct g.dedup.seen
    → is_user_message msg ≡ true
    → (checked env msg g).0 ≡ true
    → env'.md5 ≡ env.md5
    → Between env.now env'.now between
    → env.now ≤ env'.now
    → env'.now < env.now + g.dedup.ttl
    → let g' : Gateway = process_each between (process_message env msg g).1 in
      process_message env' msg g' ≡ (ok tt, record g' { dedup = (checked env' msg g').1 })
process_message_twice env env' msg between g d user new same times order early =
    let key = dedup_key env.md5 msg in
    let g' : Gateway = process_each between (process_message env msg g).1 in
    let first : Holds key env.now g.dedup.ttl (process_message env msg g).1.dedup =
      subst (Holds key env.now g.dedup.ttl) (sym (process_message-dedup env msg g ∙ rw user refl))
        (first-Holds key env.now g.dedup d new) in
    let held =
      process_each-Holds key env.now g.dedup.ttl env'.now between (process_message env msg g).1
        times early first in
    let soon : env'.now < env.now + g'.dedup.ttl = omega (arith, held.lifetime) in
    let seen =
      check_and_record_early key env.now env'.now key g'.dedup held.distinct order soon
        held.recorded in
    (process_message_skips env' msg g').1 user (
      ap (λ (f : Text → Text). (check_and_record env'.now (dedup_key f msg) g'.dedup).0) same
      ∙ seen.1)
