-- ===== src/Poll/Textless.antt =====
-- gateway/src/main.rs: messages without a text, such as a picture.
use mathlib.Core.Path.{subst}
use ilink_gateway.Prelude.{ℕ, ◌≡◌, refl, ap, ◌∙◌, true, false, none, some, List, [], ◌∷◌, ◌++◌, pos}
use ilink_gateway.Breaker.{CircuitBreaker, is_open}
use ilink_gateway.Send.{Transport, resilient_send}
use ilink_gateway.Send.Retry.{SentBy, resilient_send_bounds}
use ilink_gateway.Text.{Text, codes}
use ilink_gateway.Error.{err, show_error}
use ilink_gateway.Types.{WeixinMessage, SendMessageRequest}
use ilink_gateway.Types.Message.{message_text, is_user_message, unwrap_or, build_text_reply}
use ilink_gateway.Commands.{Shell}
use ilink_gateway.Text.Search.{LowerTable}
use ilink_gateway.Router.{Router, is_admitted, handle_incoming, handle_text, no_text}
use ilink_gateway.Router.Delivery.{handle_incoming_admitted}
use ilink_gateway.Poll.{
  Env, Gateway, Stepped, inline_reply, ref_msg_id, send_inline, handle_message, process_message,
  handle_message_with,
}
use ilink_gateway.Poll.Dropped.{checked, process_message_new, route_reference-none}

handle_incoming-textless :
    (shell : Shell) (table : LowerTable) (msg : WeixinMessage) (r : Router)
    → is_admitted msg r ≡ true
    → message_text msg ≡ none
    → handle_incoming shell table msg r ≡ (err no_text, r)
unfolding handle_text
handle_incoming-textless shell table msg r admitted bare =
    handle_incoming_admitted shell table msg r admitted ∙ rw bare refl

-- The error that the user is sent.
abbrev error_reply : Env → WeixinMessage → SendMessageRequest
error_reply env msg =
    inline_reply env msg (codes "Error processing message: " ++ show_error no_text)

handle_message-textless :
    (env : Env) (msg : WeixinMessage) (g : Gateway)
    → is_admitted msg g.router ≡ true
    → message_text msg ≡ none
    → handle_message env msg g
      ≡ send_inline env msg (codes "Error processing message: " ++ show_error no_text) g
unfolding handle_message_with
handle_message-textless env msg g admitted bare =
    rw (handle_incoming-textless env.shell env.table msg g.router admitted bare)

-- The first request of a send, while the breaker is closed.
resilient_send-first :
    (transport : Transport) (clock : ℕ → ℕ) (now : ℕ) (req : SendMessageRequest)
    (b : CircuitBreaker)
    → is_open now b ≡ false
    → (rest : List SendMessageRequest) × ((resilient_send transport clock now req b).sent
        ≡ req ∷ rest)
unfolding resilient_send ilink_gateway.Send.attempts
resilient_send-first transport clock now req b closed = rw closed (_, refl)

-- A text of the bot's for one user, with one token.
abbrev pub Tells : Text → Text → Text → SendMessageRequest → Type 0
Tells text user token req =
    (message_text req.msg ≡ some text)
    × (req.msg.to_user_id ≡ some user)
    × (req.msg.context_token ≡ some token)
    × (req.msg.message_type ≡ some (pos 2))

-- What the user reads.
abbrev pub complaint : Text
complaint = codes "Error processing message: Command execution error: Message has no text content"

error_reply-Tells :
    (env : Env) (msg : WeixinMessage)
    → Tells complaint
        (unwrap_or [] msg.from_user_id)
        (unwrap_or [] msg.context_token)
        (error_reply env msg)
unfolding message_text build_text_reply show_error
error_reply-Tells env msg = (refl, refl, refl, refl)

-- A new message of an admitted user that has no text, a picture for example, and quotes nothing,
-- while the breaker is closed: the first request that goes out tells the sender of an error, with
-- the token of the message, and what follows it are repetitions of it, with or without the token, at
-- most four requests in all. No agent gets the message, no context is kept, nothing is pushed, none
-- of its media comes into a queue, and the store is as it was.
pub process_message_textless :
    (env : Env) (msg : WeixinMessage) (g : Gateway)
    → is_user_message msg ≡ true
    → (checked env msg g).0 ≡ true
    → ref_msg_id msg ≡ none
    → is_admitted msg g.router ≡ true
    → message_text msg ≡ none
    → is_open env.now g.breaker ≡ false
    → let g' : Gateway = (process_message env msg g).1 in
      ((req : SendMessageRequest) × (rest : List SendMessageRequest) × (g'.sent
          ≡ g.sent ++ (req ∷ rest))
        × SentBy 4 req (req ∷ rest)
        × Tells complaint (unwrap_or [] msg.from_user_id) (unwrap_or [] msg.context_token) req)
      × (g'.router ≡ g.router)
      × (g'.message_contexts ≡ g.message_contexts)
      × (g'.ws_registry ≡ g.ws_registry)
      × (g'.store ≡ g.store)
unfolding send_inline
process_message_textless env msg g user new plain admitted bare closed =
    let g1 : Gateway = record g { dedup = (checked env msg g).1 } in
    let e : process_message env msg g
        ≡ send_inline env msg (codes "Error processing message: " ++ show_error no_text) g1 =
      process_message_new env msg g user new
      ∙ rw (route_reference-none env msg g1 plain)
          (handle_message-textless env msg g1 admitted bare) in
    let req = error_reply env msg in
    let (rest, first) = resilient_send-first env.transport env.clock env.now req g.breaker closed in
    let (bounds, waits) = resilient_send_bounds env.transport env.clock env.now req g.breaker in
    (
      (
        req,
        rest,
        ap (λ (s : Stepped). s.1.sent) e ∙ ap (λ (l : List SendMessageRequest). g.sent ++ l) first,
        subst (SentBy 4 req) first bounds,
        error_reply-Tells env msg,
      ),
      ap (λ (s : Stepped). s.1.router) e,
      ap (λ (s : Stepped). s.1.message_contexts) e,
      ap (λ (s : Stepped). s.1.ws_registry) e,
      ap (λ (s : Stepped). s.1.store) e,
    )
