-- ===== src/Poll/Dropped.antt =====
-- gateway/src/main.rs: messages that the loop skips, and messages that the policy drops.
use ilink_gateway.Prelude.{◌≡◌, ◌∙◌, Bool, true, false, none, some, if◌then◌else◌}
use ilink_gateway.Text.{Text}
use ilink_gateway.Error.{ok}
use ilink_gateway.Types.{WeixinMessage}
use ilink_gateway.Types.Message.{is_user_message}
use ilink_gateway.Dedup.{DedupCache, check_and_record, dedup_key}
use ilink_gateway.WsRegistry
use ilink_gateway.Router.{Router, is_admitted}
use ilink_gateway.Router.Delivery.{handle_incoming_dropped}
use ilink_gateway.Poll.{
  Env, Gateway, ref_msg_id, record_context, route_reference, downloaded, set_media, ws_json,
  after_routing, handle_message, process_message, handle_message_with, process_message_with,
}

-- The check of the dedup cache for a message.
abbrev pub checked : Env → WeixinMessage → Gateway → Bool × DedupCache
checked env msg g = check_and_record env.now (dedup_key env.md5 msg) g.dedup

-- A message that is not a user's changes nothing, and one whose key was seen changes the dedup
-- cache alone: neither has an effect on the router, the contexts, the connections or the breaker.
pub process_message_skips :
    (env : Env) (msg : WeixinMessage) (g : Gateway)
    → (is_user_message msg ≡ false → process_message env msg g ≡ (ok tt, g))
      × (is_user_message msg ≡ true
          → (checked env msg g).0 ≡ false
          → process_message env msg g ≡ (ok tt, record g { dedup = (checked env msg g).1 }))
unfolding process_message_with
process_message_skips env msg g = ((λ h. rw h), (λ h k. rw (h, k)))

-- The rest of the loop's body for a new message of a user.
pub process_message_with-new :
    (others : Router → Router) (env : Env) (msg : WeixinMessage) (g : Gateway)
    → is_user_message msg ≡ true
    → (checked env msg g).0 ≡ true
    → process_message_with others env msg g ≡ (
        let (ref_routed, g') =
          route_reference env msg (record g { dedup = (checked env msg g).1 }) in
        if ref_routed then (ok tt, g') else handle_message_with others env msg g')
unfolding process_message_with
process_message_with-new others env msg g h k = rw (h, k)

pub process_message_new :
    (env : Env) (msg : WeixinMessage) (g : Gateway)
    → is_user_message msg ≡ true
    → (checked env msg g).0 ≡ true
    → process_message env msg g ≡ (
        let (ref_routed, g') =
          route_reference env msg (record g { dedup = (checked env msg g).1 }) in
        if ref_routed then (ok tt, g') else handle_message env msg g')
process_message_new env msg g h k = process_message_with-new (λ r. r) env msg g h k

pub route_reference-none :
    (env : Env) (msg : WeixinMessage) (g : Gateway)
    → ref_msg_id msg ≡ none
    → route_reference env msg g ≡ (false, g)
unfolding route_reference
route_reference-none env msg g h = rw (h, route_reference)

handle_message_dropped :
    (env : Env) (msg : WeixinMessage) (g : Gateway) (agent : Text)
    → is_admitted msg g.router ≡ false
    → g.router.active_agent ≡ some agent
    → handle_message env msg g ≡ (ok tt, after_routing env msg (some agent) g)
unfolding handle_message_with
handle_message_dropped env msg g agent h k =
    rw (handle_incoming_dropped env.shell env.table msg g.router h, k)

-- A new message of a user that quotes nothing, and that the admission policy drops, is handled like
-- one that was routed: it is pushed over the active agent's connection, its reply context is stored
-- under that agent, and its media are written onto the last message queued for that agent.
pub process_message_dropped :
    (env : Env) (msg : WeixinMessage) (g : Gateway) (agent : Text)
    → is_user_message msg ≡ true
    → (checked env msg g).0 ≡ true
    → ref_msg_id msg ≡ none
    → is_admitted msg g.router ≡ false
    → g.router.active_agent ≡ some agent
    → process_message env msg g ≡ (
      ok tt,
      record g {
        dedup = (checked env msg g).1;
        message_contexts = record_context env.now msg agent g.message_contexts;
        router = set_media agent (downloaded env msg) g.router;
        ws_registry = (WsRegistry.push agent (env.to_string (ws_json msg)) g.ws_registry).1;
      },
    )
unfolding after_routing
process_message_dropped env msg g agent user new plain dropped active =
    process_message_new env msg g user new
    ∙ rw (route_reference-none env msg (record g { dedup = (checked env msg g).1 }) plain) (
        handle_message_dropped env msg (record g { dedup = (checked env msg g).1 }) agent dropped
          active)
