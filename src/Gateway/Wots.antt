-- ===== src/Gateway/Wots.antt =====
-- src/gateway.rs: the Webs of Trust and the discovery relays of the admin interface.
use moar.Common.{
  Bool, true, false, ◌||◌, inl, inr, Option, none, some, List, [], ◌∷◌, Bytes, bytes_eq, any, ltb,
  if◌then◌else◌, is_some,
}
use moar.Config.{WotConfig, RelayConfig}
use moar.HashMap.{HashMap, insert, remove}
use moar.Wot.{WotInfo, list_wots, add_wot, update_wot, remove_wot, set_discovery_relays}
use moar.Gateway.State.{
  GatewayState, Env, Body, parsed, Answer, Response, reply, nothing, wot, wots, discovery_relays,
  save_config,
}
use moar.Gateway.Session.{guarded}
use moar.Gateway.Relays.{validate_relay_id}

unfoldable pub list_wots_handler : Env → Option Bytes → GatewayState → Answer
list_wots_handler env headers s =
    guarded env headers s (λ s. (s, reply 200 (wots (list_wots s.wot_manager))))

abbrev find_wot : List WotInfo → Bytes → Response
find_wot [] id = reply 404 nothing
find_wot (w ∷ ws) id = if bytes_eq w.id id then reply 200 (wot w) else find_wot ws id

unfoldable pub get_wot : Env → Option Bytes → Bytes → GatewayState → Answer
get_wot env headers id s = guarded env headers s (λ s. (s, find_wot (list_wots s.wot_manager) id))

abbrev pub with_wots : GatewayState → HashMap WotConfig → GatewayState
with_wots s ws = record s { config = record s.config { wots = ws } }

-- `save_config` where the handler has no rollback.
abbrev pub saved : Env → GatewayState → Response → Answer
saved env s answer = elim (save_config env s) [
  | none ↦ (s, reply 500 nothing)
  | some s ↦ (s, answer)
]

abbrev pub bad_wot : Env → WotConfig → Bool
bad_wot env config =
    (ltb config.depth 1 || ltb 4 config.depth)
    || (if is_some (env.parse_key config.seed) then false else true)

unfoldable pub create_wot : Env → Option Bytes → Body (Bytes × WotConfig) → GatewayState → Answer
create_wot env headers body s = guarded env headers s (λ s. elim body [
  | parsed (id, config) ↦
      if validate_relay_id env id
      then (if bad_wot env config
          then (s, reply 400 nothing)
          else (elim (add_wot env.from_slice s.wot_manager id config env.now) [
            | inl why ↦ (s, reply 409 nothing)
            | inr m ↦
                saved env
                  (with_wots (record s { wot_manager = m }) (insert s.config.wots id config))
                  (reply 201 nothing)
          ]))
      else (s, reply 400 nothing)
  | _ ↦ (s, reply 400 nothing)
])

unfoldable pub update_wot_handler :
    Env → Option Bytes → Bytes → Body WotConfig → GatewayState → Answer
update_wot_handler env headers id body s = guarded env headers s (λ s. elim body [
  | parsed config ↦
      if bad_wot env config
      then (s, reply 400 nothing)
      else (elim (update_wot env.from_slice s.wot_manager id config env.now) [
        | inl why ↦ (s, reply 404 nothing)
        | inr m ↦
            saved env (with_wots (record s { wot_manager = m }) (insert s.config.wots id config))
              (reply 200 nothing)
      ])
  | _ ↦ (s, reply 400 nothing)
])

abbrev pub is_id : Option Bytes → Bytes → Bool
is_id none id = false
is_id (some other) id = bytes_eq other id

-- Whether some relay's policy names this Web of Trust.
unfoldable pub wot_referenced : HashMap RelayConfig → Bytes → Bool
wot_referenced rs id =
    any (λ (relay_id, conf). is_id conf.policy.write.wot id || is_id conf.policy.read.wot id) rs

unfoldable pub delete_wot : Env → Option Bytes → Bytes → GatewayState → Answer
delete_wot env headers id s = guarded env headers s (λ s.
    if wot_referenced s.config.relays id
    then (s, reply 409 nothing)
    else (elim (remove_wot s.wot_manager id) [
      | inl why ↦ (s, reply 404 nothing)
      | inr (m, config) ↦
          saved env (with_wots (record s { wot_manager = m }) (remove s.config.wots id))
            (reply 204 nothing)
    ]))

unfoldable pub get_discovery_relays : Env → Option Bytes → GatewayState → Answer
get_discovery_relays env headers s =
    guarded env headers s (λ s. (s, reply 200 (discovery_relays s.wot_manager.discovery_relays)))

unfoldable pub put_discovery_relays : Env → Option Bytes → Body (List Bytes) → GatewayState → Answer
put_discovery_relays env headers body s = guarded env headers s (λ s. elim body [
  | parsed urls ↦
      saved env
        (record s {
          wot_manager = set_discovery_relays s.wot_manager urls;
          config = record s.config { discovery_relays = urls };
        })
        (reply 200 nothing)
  | _ ↦ (s, reply 400 nothing)
])
