-- ===== src/Gateway/Others.antt =====
-- The handlers of the Webs of Trust and of the paywalls keep the state sound: they touch no service.
use moar.Common.{refl, Bool, Option, List, Bytes, ◌==◌}
use moar.Config.{WotConfig, PaywallConfig}
use moar.HashMap.{HashMap, insert, remove}
use moar.Wot.{WotManager, add_wot, update_wot, remove_wot}
use moar.Paywall.{PaywallManager, add_paywall, update_paywall, remove_paywall}
use moar.Gateway.State.{GatewayState, Env, Body, too_long, malformed, parsed, Response}
use moar.Gateway.Relays.{validate_relay_id}
use moar.Gateway.Wots.{
  with_wots, saved, bad_wot, create_wot, update_wot_handler, delete_wot, wot_referenced,
  put_discovery_relays,
}
use moar.Gateway.Paywalls.{
  with_paywalls, create_paywall, update_paywall_handler, delete_paywall, paywall_referenced,
  verify_nwc_handler,
}
use moar.Gateway.Branches.{if-branch, sum-branch}
use moar.Gateway.Sound.{IsSound, Keeps, stay, same-IsSound, saved-Keeps, guarded-Keeps}

wots-Keeps :
    (env : Env) (s : GatewayState) (m : WotManager) (ws : HashMap WotConfig) (answer : Response)
    → IsSound s
    → Keeps (saved env (with_wots (record s { wot_manager = m }) ws) answer)
wots-Keeps env s m ws answer h =
    saved-Keeps env _ answer
      (same-IsSound s (with_wots (record s { wot_manager = m }) ws) refl refl refl refl refl h)

paywalls-Keeps :
    (env : Env) (s : GatewayState) (m : PaywallManager) (ps : HashMap PaywallConfig)
    (answer : Response)
    → IsSound s
    → Keeps (saved env (with_paywalls s m ps) answer)
paywalls-Keeps env s m ps answer h =
    saved-Keeps env _ answer (same-IsSound s (with_paywalls s m ps) refl refl refl refl refl h)

pub create_wot-Keeps :
    (env : Env) (headers : Option Bytes) (body : Body (Bytes × WotConfig)) (s : GatewayState)
    → IsSound s
    → Keeps (create_wot env headers body s)
unfolding create_wot
create_wot-Keeps env headers too_long s h = guarded-Keeps env headers s _ h (stay h)
create_wot-Keeps env headers malformed s h = guarded-Keeps env headers s _ h (stay h)
create_wot-Keeps env headers (parsed (id, config)) s h = guarded-Keeps env headers s _ h (
    if-branch Keeps (validate_relay_id env id) _ _
      (λ good_id.
        if-branch Keeps (bad_wot env config) _ _ (λ bad. stay h)
          (λ good.
            sum-branch Keeps (add_wot env.from_slice s.wot_manager id config env.now) _ _
              (λ why. stay h) (λ m. wots-Keeps env s m (insert s.config.wots id config) _ h)))
      (λ bad_id. stay h))

pub update_wot-Keeps :
    (env : Env) (headers : Option Bytes) (id : Bytes) (body : Body WotConfig) (s : GatewayState)
    → IsSound s
    → Keeps (update_wot_handler env headers id body s)
unfolding update_wot_handler
update_wot-Keeps env headers id too_long s h = guarded-Keeps env headers s _ h (stay h)
update_wot-Keeps env headers id malformed s h = guarded-Keeps env headers s _ h (stay h)
update_wot-Keeps env headers id (parsed config) s h = guarded-Keeps env headers s _ h (
    if-branch Keeps (bad_wot env config) _ _ (λ bad. stay h)
      (λ good.
        sum-branch Keeps (update_wot env.from_slice s.wot_manager id config env.now) _ _
          (λ why. stay h) (λ m. wots-Keeps env s m (insert s.config.wots id config) _ h)))

pub delete_wot-Keeps :
    (env : Env) (headers : Option Bytes) (id : Bytes) (s : GatewayState)
    → IsSound s
    → Keeps (delete_wot env headers id s)
unfolding delete_wot
delete_wot-Keeps env headers id s h = guarded-Keeps env headers s _ h (
    if-branch Keeps (wot_referenced s.config.relays id) _ _ (λ used. stay h)
      (λ unused.
        sum-branch Keeps (remove_wot s.wot_manager id) _ _ (λ why. stay h)
          (λ removed. wots-Keeps env s removed.0 (remove s.config.wots id) _ h)))

pub put_discovery_relays-Keeps :
    (env : Env) (headers : Option Bytes) (body : Body (List Bytes)) (s : GatewayState)
    → IsSound s
    → Keeps (put_discovery_relays env headers body s)
unfolding put_discovery_relays
put_discovery_relays-Keeps env headers too_long s h = guarded-Keeps env headers s _ h (stay h)
put_discovery_relays-Keeps env headers malformed s h = guarded-Keeps env headers s _ h (stay h)
put_discovery_relays-Keeps env headers (parsed urls) s h =
    guarded-Keeps env headers s _ h
      (saved-Keeps env _ _ (same-IsSound s _ refl refl refl refl refl h))

pub create_paywall-Keeps :
    (env : Env) (headers : Option Bytes) (body : Body (Bytes × PaywallConfig)) (s : GatewayState)
    → IsSound s
    → Keeps (create_paywall env headers body s)
unfolding create_paywall
create_paywall-Keeps env headers too_long s h = guarded-Keeps env headers s _ h (stay h)
create_paywall-Keeps env headers malformed s h = guarded-Keeps env headers s _ h (stay h)
create_paywall-Keeps env headers (parsed (id, config)) s h = guarded-Keeps env headers s _ h (
    if-branch Keeps (validate_relay_id env id) _ _
      (λ good_id.
        if-branch Keeps (config.price_sats == 0) _ _ (λ free. stay h)
          (λ priced.
            sum-branch Keeps
              (add_paywall env.from_slice env.valid_nwc s.paywall_manager id config env.now) _ _
              (λ why. stay h)
              (λ m. paywalls-Keeps env s m (insert s.config.paywalls id config) _ h)))
      (λ bad_id. stay h))

pub update_paywall-Keeps :
    (env : Env) (headers : Option Bytes) (id : Bytes) (body : Body PaywallConfig) (s : GatewayState)
    → IsSound s
    → Keeps (update_paywall_handler env headers id body s)
unfolding update_paywall_handler
update_paywall-Keeps env headers id too_long s h = guarded-Keeps env headers s _ h (stay h)
update_paywall-Keeps env headers id malformed s h = guarded-Keeps env headers s _ h (stay h)
update_paywall-Keeps env headers id (parsed config) s h = guarded-Keeps env headers s _ h (
    if-branch Keeps (config.price_sats == 0) _ _ (λ free. stay h)
      (λ priced.
        sum-branch Keeps
          (update_paywall env.from_slice env.valid_nwc s.paywall_manager id config env.now) _ _
          (λ why. stay h) (λ m. paywalls-Keeps env s m (insert s.config.paywalls id config) _ h)))

pub delete_paywall-Keeps :
    (env : Env) (headers : Option Bytes) (id : Bytes) (s : GatewayState)
    → IsSound s
    → Keeps (delete_paywall env headers id s)
unfolding delete_paywall
delete_paywall-Keeps env headers id s h = guarded-Keeps env headers s _ h (
    if-branch Keeps (paywall_referenced s.config.relays id) _ _ (λ used. stay h)
      (λ unused.
        sum-branch Keeps (remove_paywall s.paywall_manager id) _ _ (λ why. stay h)
          (λ removed. paywalls-Keeps env s removed.0 (remove s.config.paywalls id) _ h)))

pub verify_nwc-Keeps :
    (env : Env) (headers : Option Bytes) (verified : Bytes → Bool) (body : Body Bytes)
    (s : GatewayState)
    → IsSound s
    → Keeps (verify_nwc_handler env headers verified body s)
unfolding verify_nwc_handler
verify_nwc-Keeps env headers verified too_long s h = guarded-Keeps env headers s _ h (stay h)
verify_nwc-Keeps env headers verified malformed s h = guarded-Keeps env headers s _ h (stay h)
verify_nwc-Keeps env headers verified (parsed nwc_string) s h =
    guarded-Keeps env headers s _ h
      (if-branch Keeps (verified nwc_string) _ _ (λ fine. stay h) (λ broken. stay h))
