-- ===== src/Startup/Restart.antt =====
-- gateway/src/main.rs, gateway/src/api/server.rs and gateway/src/router/router.rs: what a restart of
-- the gateway restores.
use ilink_gateway.Prelude.{
  ℕ, ◌≡◌, refl, sym, ap, ap₂, ◌∙◌, true, false, Option, none, some, List, [], ◌++◌,
}
use ilink_gateway.Text.{Text, codes, ◌==◌, eq_refl}
use ilink_gateway.Error.{Result, ok, err, panic}
use ilink_gateway.Map.{lookup}
use ilink_gateway.Map.Laws.{lookup-insert, contains-insert}
use ilink_gateway.Config.{GatewayConfig}
use ilink_gateway.Types.{WeixinMessage, use_agent}
use ilink_gateway.Types.Message.{message_text, is_user_message}
use ilink_gateway.Registry.{register, is_registered}
use ilink_gateway.Store.{SqliteStore, Faults, no_faults, get_state, set_state}
use ilink_gateway.Commands.Grammar.{Typed}
use ilink_gateway.Router.{
  Router, is_admitted, restore, load_state, persist_state, set_active_agent, set_policies,
  set_cmd_max_output_chars, handle_incoming, key_active_agent,
}
use ilink_gateway.Router.Rules.{handle_incoming_use}
use ilink_gateway.Poll.{
  Env, Gateway, Stepped, ref_msg_id, after_handled, send_inline, handle_message, process_message,
  handle_message_with,
}
use ilink_gateway.Poll.Dropped.{checked, process_message_new, route_reference-none}
use ilink_gateway.Api.{
  RegisterRequest, or_activate, default_active, after_register, handle_register,
}
use ilink_gateway.Login.{LoginEnv, qr_login_and_save}
use ilink_gateway.Login.Saved.{qr_login-Kept}
use ilink_gateway.Startup.{first_gateway, use_credentials, first_credentials}

-- The active agent after a restart.
abbrev pub restored : GatewayConfig → SqliteStore → Option Text
restored config store = (first_gateway no_faults config store).router.active_agent

restore-active :
    (o : Option Text) (r : Router) → r.active_agent ≡ none → (restore (ok o) r).active_agent ≡ o
restore-active none r h = h
restore-active (some a) r h = refl

restored-stored :
    (config : GatewayConfig) (store : SqliteStore)
    → restored config store ≡ lookup key_active_agent store.gateway_state
unfolding first_gateway load_state get_state set_policies set_cmd_max_output_chars
    ilink_gateway.Router.new
restored-stored config store = restore-active (lookup key_active_agent store.gateway_state) _ refl

restored-persist_state :
    (config : GatewayConfig) (r : Router) (a : Text) (store : SqliteStore)
    → r.active_agent ≡ some a
    → restored config (persist_state no_faults r store) ≡ some a
unfolding persist_state set_state
restored-persist_state config r a store h =
    restored-stored config (persist_state no_faults r store) ∙ rw (h, lookup-insert, eq_refl) refl

-- Is the registration of this name accepted?
registered_after :
    (now : ℕ) (name : Text) (caps : List Text) (r : Router)
    → (name == []) ≡ false
    → ((register now name none caps r.registry).0 ≡ ok tt)
      × (is_registered name (register now name none caps r.registry).1 ≡ true)
unfolding register is_registered
registered_after now name caps r h = (rw h refl, rw (h, contains-insert, eq_refl) refl)

or_activate-some :
    (o : Option Text) (name : Text) (r : Router)
    → r.active_agent ≡ o
    → is_registered name r.registry ≡ true
    → (a : Text) × ((or_activate o name r).active_agent ≡ some a)
unfolding set_active_agent
or_activate-some none name r e h = (name, rw (h, or_activate) refl)
or_activate-some (some a) name r e h = (a, e)

after_register-restored :
    (config : GatewayConfig) (name : Text) (res : Result (Unit {0})) (r : Router)
    (store : SqliteStore)
    → res ≡ ok tt
    → is_registered name r.registry ≡ true
    → restored config (after_register no_faults name res r store).1.1
      ≡ (after_register no_faults name res r store).1.0.active_agent
after_register-restored config name (ok u) r store h known =
    let (a, active) = or_activate-some r.active_agent name r refl known in
    restored-persist_state config (default_active name r) a store active ∙ sym active
after_register-restored config name (err e) r store h known = absurd cc
after_register-restored config name panic r store h known = absurd cc

-- Where no statement fails, the active agent after a registration under a proper name is the active
-- agent that a restart restores, whether the registration chose it or left it as it was.
pub restart-handle_register :
    (config : GatewayConfig) (now : ℕ) (body : RegisterRequest) (r : Router) (store : SqliteStore)
    → (body.name == []) ≡ false
    → let (resp, (r', store')) = handle_register no_faults now body r store in
      restored config store' ≡ r'.active_agent
unfolding handle_register
restart-handle_register config now body r store proper =
    let (accepted, known) = registered_after now body.name body.capabilities r proper in
    after_register-restored config body.name
      (register now body.name none body.capabilities r.registry).0
      (record r { registry = (register now body.name none body.capabilities r.registry).1 }) store
      accepted known

abbrev in_gateway : Gateway → Env → WeixinMessage → Result (Option Text) × Router → Stepped
in_gateway g env msg (reply, router) =
    after_handled env msg g.router.active_agent reply (record g { router = router })

handle_message-in :
    (env : Env) (msg : WeixinMessage) (g : Gateway)
    → handle_message env msg g
      ≡ in_gateway g env msg (handle_incoming env.shell env.table msg g.router)
unfolding handle_message_with
handle_message-in env msg g = refl

-- A new message of an admitted user, which quotes nothing and has a text that starts with a slash and
-- is `/use` with the name of a registered agent, makes that agent active, but leaves the store as it
-- is: a restart restores the agent that was stored before, and not the one that the user chose.
pub restart-use :
    (env : Env) (config : GatewayConfig) (msg : WeixinMessage) (g : Gateway) (text name : Text)
    → is_user_message msg ≡ true
    → (checked env msg g).0 ≡ true
    → ref_msg_id msg ≡ none
    → is_admitted msg g.router ≡ true
    → message_text msg ≡ some text
    → Typed text (use_agent name)
    → is_registered name g.router.registry ≡ true
    → let g' : Gateway = (process_message env msg g).1 in
      (g'.router.active_agent ≡ some name)
      × (g'.store ≡ g.store)
      × (restored config g'.store ≡ restored config g.store)
unfolding send_inline
restart-use env config msg g text name user new plain admitted has_text typed known =
    let g1 : Gateway = record g { dedup = (checked env msg g).1 } in
    let switched : Router = record g.router { active_agent = some name } in
    let told : Result (Option Text) =
      ok (some (codes "Switched to agent '" ++ (name ++ codes "'"))) in
    let handled : handle_incoming env.shell env.table msg g.router ≡ (told, switched) =
      handle_incoming_use env.shell env.table msg g.router text name typed admitted has_text
      ∙ rw known refl in
    let e : process_message env msg g ≡ in_gateway g1 env msg (told, switched) =
      process_message_new env msg g user new
      ∙ rw (route_reference-none env msg g1 plain)
          (handle_message-in env msg g1 ∙ ap (in_gateway g1 env msg) handled) in
    (
      ap (λ (s : Stepped). s.1.router.active_agent) e,
      ap (λ (s : Stepped). s.1.store) e,
      ap (λ (s : Stepped). restored config s.1.store) e,
    )

-- After a login that gave a token and a URL, where no statement fails, the next start uses them and
-- does not log in again.
pub restart-qr_login :
    (env again : LoginEnv) (save : Faults) (at later : Text) (config : GatewayConfig)
    (store store' : SqliteStore) (token base : Text)
    → qr_login_and_save env no_faults at config.ilink_base_url store
      ≡ some (ok (token, base), store')
    → first_credentials again no_faults save later config store' ≡ some (ok (token, base), store')
unfolding first_credentials
restart-qr_login env again save at later config store store' token base h =
    let (c, loaded, same_token, same_base) =
      qr_login-Kept env at config.ilink_base_url store (ok (token, base), store') h in
    ap (use_credentials again save later config.ilink_base_url store') loaded
    ∙ ap₂ (λ (t b : Text). some (ok (t, b), store')) same_token same_base
