-- ===== src/Loop/Routed.antt =====
-- gateway/src/main.rs: a text that the loop passes on to the active agent.
use ilink_gateway.Prelude.{◌≡◌, refl, ap, ◌∙◌, true, false, ◌&&◌, Option, none, some}
use ilink_gateway.Text.{Text, codes}
use ilink_gateway.Text.Search.{starts_with}
use ilink_gateway.Error.{ok}
use ilink_gateway.Types.{WeixinMessage, AgentMessage}
use ilink_gateway.Types.Message.{message_text, is_user_message}
use ilink_gateway.Convert.{to_agent_message}
use ilink_gateway.Commands.{parse_command}
use ilink_gateway.Router.{Router, is_admitted, handle_incoming, Handled}
use ilink_gateway.Router.Delivery.{with_message}
use ilink_gateway.Router.Errors.{is_command, handle_incoming_routes}
use ilink_gateway.Poll.{
  Gateway, Env, ref_msg_id, after_routing, Stepped, after_handled, handle_message_with,
  process_message_with,
}
use ilink_gateway.Poll.Dropped.{checked, process_message_with-new, route_reference-none}

-- A text that the gateway passes on to its active agent.
pub record IsRouted (env : Env) (msg : WeixinMessage) (g : Gateway) (text agent : Text)
    : Type 0 where
  pub user : is_user_message msg ≡ true
  pub new : (checked env msg g).0 ≡ true
  pub plain : ref_msg_id msg ≡ none
  pub admitted : is_admitted msg g.router ≡ true
  pub has_text : message_text msg ≡ some text
  pub no_command : (starts_with (codes "/") text && is_command (parse_command text)) ≡ false
  pub active : g.router.active_agent ≡ some agent

abbrev in_gateway :
    (Router → Router) → Gateway → Env → WeixinMessage → Option Text → Handled → Stepped
in_gateway others g env msg active (reply, router) =
    after_handled env msg active reply (record g { router = others router })

handle_message_with-in :
    (others : Router → Router) (env : Env) (msg : WeixinMessage) (g : Gateway)
    → handle_message_with others env msg g
      ≡ in_gateway others g env msg g.router.active_agent
          (handle_incoming env.shell env.table msg g.router)
unfolding handle_message_with
handle_message_with-in others env msg g = refl

-- The state behind the dedup check, with this router.
abbrev pub behind_check : Env → WeixinMessage → Gateway → Router → Gateway
behind_check env msg g r = record g { dedup = (checked env msg g).1; router = r }

-- Such a text is put into the active agent's queue, and what follows works on the router that the
-- other tasks have left.
pub process_message_with-routed :
    (env : Env) (msg : WeixinMessage) (g : Gateway) (text agent : Text)
    → IsRouted env msg g text agent
    → (m : AgentMessage) × (to_agent_message msg ≡ some m)
      × ((handle_incoming env.shell env.table msg g.router).1 ≡ with_message agent none m g.router)
      × ((others : Router → Router)
          → process_message_with others env msg g ≡ (
            ok tt,
            after_routing env msg
                (some agent)
                (behind_check env msg g (others (with_message agent none m g.router))),
          ))
process_message_with-routed env msg g text agent r =
    let g1 : Gateway = record g { dedup = (checked env msg g).1 } in
    let (m, converts, same, routed) =
      handle_incoming_routes env.shell env.table msg g.router text agent r.admitted r.has_text
        r.no_command r.active in
    (
      m,
      converts,
      ap (λ (h : Handled). h.1) routed,
      (λ others.
          process_message_with-new others env msg g r.user r.new
          ∙ rw (route_reference-none env msg g1 r.plain) (
              handle_message_with-in others env msg g1
              ∙ ap (in_gateway others g1 env msg g.router.active_agent) routed
              ∙ ap
                  (λ (o : Option Text).
                    in_gateway others g1 env msg o (ok none, with_message agent none m g.router))
                  r.active)),
    )
