-- ===== src/Gateway/Paywalls.antt =====
-- src/gateway.rs: the paywalls of the admin interface. What a wallet answers to the check of its
-- connection string is an argument.
use moar.Common.{Bool, ◌||◌, inl, inr, Option, Bytes, any, ◌==◌, if◌then◌else◌}
use moar.Config.{PaywallConfig, RelayConfig}
use moar.HashMap.{HashMap, insert, remove}
use moar.Paywall.{PaywallManager, add_paywall, update_paywall, remove_paywall}
use moar.Gateway.State.{GatewayState, Env, Body, parsed, Answer, reply, nothing}
use moar.Gateway.Session.{guarded}
use moar.Gateway.Relays.{validate_relay_id}
use moar.Gateway.Wots.{is_id, saved}

abbrev pub with_paywalls : GatewayState → PaywallManager → HashMap PaywallConfig → GatewayState
with_paywalls s m ps = record s { paywall_manager = m; config = record s.config { paywalls = ps } }

unfoldable pub create_paywall :
    Env → Option Bytes → Body (Bytes × PaywallConfig) → GatewayState → Answer
create_paywall env headers body s = guarded env headers s (λ s. elim body [
  | parsed (id, config) ↦
      if validate_relay_id env id
      then (if config.price_sats == 0
          then (s, reply 400 nothing)
          else (elim (add_paywall env.from_slice env.valid_nwc s.paywall_manager id config
              env.now) [
                | inl why ↦ (s, reply 409 nothing)
                | inr m ↦
                    saved env (with_paywalls s m (insert s.config.paywalls id config))
                      (reply 201 nothing)
              ]))
      else (s, reply 400 nothing)
  | _ ↦ (s, reply 400 nothing)
])

unfoldable pub update_paywall_handler :
    Env → Option Bytes → Bytes → Body PaywallConfig → GatewayState → Answer
update_paywall_handler env headers id body s = guarded env headers s (λ s. elim body [
  | parsed config ↦
      if config.price_sats == 0
      then (s, reply 400 nothing)
      else (elim (update_paywall env.from_slice env.valid_nwc s.paywall_manager id config env.now) [
        | inl why ↦ (s, reply 404 nothing)
        | inr m ↦
            saved env (with_paywalls s m (insert s.config.paywalls id config)) (reply 200 nothing)
      ])
  | _ ↦ (s, reply 400 nothing)
])

-- Whether some relay's policy names this paywall.
unfoldable pub paywall_referenced : HashMap RelayConfig → Bytes → Bool
paywall_referenced rs id =
    any
      (λ (relay_id, conf). is_id conf.policy.write.paywall id || is_id conf.policy.read.paywall id)
      rs

unfoldable pub delete_paywall : Env → Option Bytes → Bytes → GatewayState → Answer
delete_paywall env headers id s = guarded env headers s (λ s.
    if paywall_referenced s.config.relays id
    then (s, reply 409 nothing)
    else (elim (remove_paywall s.paywall_manager id) [
      | inl why ↦ (s, reply 404 nothing)
      | inr (m, config) ↦
          saved env (with_paywalls s m (remove s.config.paywalls id)) (reply 204 nothing)
    ]))

-- `verified` is what the wallet answers to this connection string.
unfoldable pub verify_nwc_handler :
    Env → Option Bytes → (Bytes → Bool) → Body Bytes → GatewayState → Answer
verify_nwc_handler env headers verified body s = guarded env headers s (λ s. elim body [
  | parsed nwc_string ↦
      if verified nwc_string then (s, reply 200 nothing) else (s, reply 400 nothing)
  | _ ↦ (s, reply 400 nothing)
])
