-- ===== src/Typing.antt =====
-- The typing ticket cache of gateway/src/main.rs. Times are seconds.
pub mod Stale
pub mod Flight
use ilink_gateway.Prelude.{
  ℕ, ◌+◌, ◌-◌, ◌≤◌, ◌≡◌, Bool, true, false, not, Option, none, some, List, [], ◌∷◌, ltb, nat_eq,
  if◌then◌else◌, ℤ, pos,
}
use ilink_gateway.Text.{Text}
use ilink_gateway.Map.{Map, lookup, contains, insert, remove}
use ilink_gateway.Types.Requests.{GetConfigRequest, GetConfigResponse, SendTypingRequest}

-- The users whose ticket is being fetched are the keys of `in_flight`.
pub record TypingTicketCache : Type 0 where
  pub tickets : Map (Text × ℕ)
  pub in_flight : Map (Unit {0})

unfoldable pub new : TypingTicketCache
new = record { tickets = []; in_flight = [] }

-- `created.elapsed() < Duration::from_secs(600)`
unfoldable pub get : ℕ → Text → TypingTicketCache → Option Text
get now user_id c = elim (lookup user_id c.tickets) [
  | none ↦ none
  | some (ticket, created) ↦ (if ltb (now - created) 600 then some ticket else none)
]

unfoldable pub insert_ticket : ℕ → Text → Text → TypingTicketCache → TypingTicketCache
insert_ticket now user_id ticket c = record c { tickets = insert user_id (ticket, now) c.tickets }

-- `in_flight.insert(user_id)`: was the user not in it, and the set with the user.
unfoldable pub claim : Text → TypingTicketCache → Bool × TypingTicketCache
claim user_id c =
    (not (contains user_id c.in_flight), record c { in_flight = insert user_id tt c.in_flight })

unfoldable pub release : Text → TypingTicketCache → TypingTicketCache
release user_id c = record c { in_flight = remove user_id c.in_flight }

-- The request of `fetch_and_cache`.
abbrev pub config_request : Text → GetConfigRequest
config_request user_id = record { ilink_user_id = user_id; context_token = none; base_info = none }

-- What `fetch_and_cache` makes of the answer to its request; an error is none.
unfoldable pub cache_answer :
    ℕ → Text → Option GetConfigResponse → TypingTicketCache → Option Text × TypingTicketCache
unfolding insert_ticket
cache_answer now user_id none c = (none, c)
cache_answer now user_id (some resp) c = elim resp.typing_ticket [
  | none ↦ (none, c)
  | some ticket ↦ (some ticket, insert_ticket now user_id ticket c)
]

abbrev pub typing_request : Text → Text → ℤ → SendTypingRequest
typing_request user_id ticket status = record {
  ilink_user_id = user_id;
  typing_ticket = ticket;
  status = status;
  base_info = none;
}

-- The request of `send_typing`, after the ticket was got or fetched.
unfoldable pub send_typing : Text → Option Text → List SendTypingRequest
send_typing user_id none = []
send_typing user_id (some ticket) = typing_request user_id ticket (pos 1) ∷ []

-- The request of `stop_typing`.
unfoldable pub stop_typing : Text → TypingTicketCache → List SendTypingRequest
stop_typing user_id c = elim (lookup user_id c.tickets) [
  | none ↦ []
  | some (ticket, created) ↦ typing_request user_id ticket (pos 2) ∷ []
]

-- Where a task stands in `get_or_fetch`: in front of the first look at the cache, between it and the
-- claim, while it fetches, between the fetch and the release, while it polls until a deadline in
-- tenths of a second, at its
-- result, and after a panic.
pub data Pc : Type 0 where
  start : Text → Pc
  missed : Text → Pc
  fetching : Text → Pc
  fetched : Text → Option Text → Pc
  polling : Text → ℕ → Pc
  done : Option Text → Pc
  crashed : Pc

-- One step of a task between two locks: the cache and the place before and after it. The time is
-- any.
pub data Move (c : TypingTicketCache) : Pc → TypingTicketCache → Pc → Type 0 where
  hit : {u t : Text} (now : ℕ) → get now u c ≡ some t → Move c (start u) c (done (some t))
  miss : {u : Text} (now : ℕ) → get now u c ≡ none → Move c (start u) c (missed u)
  claim_it : {u : Text} → (claim u c).0 ≡ true → Move c (missed u) (claim u c).1 (fetching u)
  wait_for_it :
      {u : Text} (tenths : ℕ)
      → (claim u c).0 ≡ false
      → Move c (missed u) (claim u c).1 (polling u (tenths + 100))
  answer :
      {u : Text} (now : ℕ) (resp : Option GetConfigResponse)
      → Move c (fetching u) (cache_answer now u resp c).1 (fetched u (cache_answer now u resp c).0)
  -- A token that cannot stand in a header makes the request panic.
  crash : {u : Text} → Move c (fetching u) c crashed
  let_go : {u : Text} {t : Option Text} → Move c (fetched u t) (release u c) (done t)
  poll_hit :
      {u t : Text} {deadline : ℕ} (now : ℕ)
      → get now u c ≡ some t
      → Move c (polling u deadline) c (done (some t))
  poll_again :
      {u : Text} {deadline : ℕ} (now : ℕ)
      → get now u c ≡ none
      → Move c (polling u deadline) c (polling u deadline)
  give_up :
      {u : Text} {deadline : ℕ} (tenths : ℕ)
      → deadline ≤ tenths
      → Move c (polling u deadline) c (done none)

-- Tasks are numbered; every task starts with a user of its own choice.
pub record System : Type 0 where
  pub cache : TypingTicketCache
  pub pc : ℕ → Pc

abbrev pub update : (ℕ → Pc) → ℕ → Pc → ℕ → Pc
update f i p j = if nat_eq i j then p else f j

pub data Step (s : System) : System → Type 0 where
  pick :
      (i : ℕ) {c : TypingTicketCache} {p : Pc}
      → Move s.cache (s.pc i) c p
      → Step s (record { cache = c; pc = update s.pc i p })

pub data Reach (users : ℕ → Text) : System → Type 0 where
  init : Reach users (record { cache = new; pc = λ i. start (users i) })
  later : {s t : System} → Reach users s → Step s t → Reach users t
