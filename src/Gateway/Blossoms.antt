-- ===== src/Gateway/Blossoms.antt =====
-- src/gateway.rs: the media servers of the configuration.
use moar.Common.{Bool, false, not, Option, none, some, Bytes, if◌then◌else◌, is_some}
use moar.Config.{MoarConfig, BlossomConfig}
use moar.HashMap.{HashMap, get, insert, remove}
use moar.Gateway.State.{
  GatewayState, Env, Body, parsed, Answer, reply, nothing, blossom, blossoms, save_config,
}
use moar.Gateway.Session.{guarded}
use moar.Gateway.Relays.{is_empty, relay_has, blossom_has, validate_relay_id}

unfoldable pub list_blossoms : GatewayState → Answer
list_blossoms s = (s, reply 200 (blossoms s.config.blossoms))

unfoldable pub get_blossom : Bytes → GatewayState → Answer
get_blossom id s = elim (get s.config.blossoms id) [
  | none ↦ (s, reply 404 nothing)
  | some cfg ↦ (s, reply 200 (blossom id cfg))
]

-- `true` is `Ok(())`.
unfoldable pub validate_blossom_config : BlossomConfig → MoarConfig → Option Bytes → Bool
unfolding relay_has blossom_has
validate_blossom_config config existing exclude_id =
    if is_empty config.name
    then false
    else (if is_empty config.subdomain
        then false
        else (if is_empty config.storage_path
            then false
            else (if blossom_has existing.blossoms exclude_id config.subdomain
                then false
                else not (relay_has existing.relays none config.subdomain))))

abbrev pub with_blossoms : GatewayState → HashMap BlossomConfig → GatewayState
with_blossoms s bs = record s { config = record s.config { blossoms = bs } }

abbrev pub saved_blossoms : Env → GatewayState → HashMap BlossomConfig → Answer → Answer
saved_blossoms env s rollback (changed, answer) = elim (save_config env changed) [
  | none ↦ (with_blossoms s rollback, reply 500 nothing)
  | some saved ↦ (saved, answer)
]

unfoldable pub create_blossom :
    Env → Option Bytes → Body (Bytes × BlossomConfig) → GatewayState → Answer
create_blossom env headers body s = guarded env headers s (λ s. elim body [
  | parsed (id, config) ↦
      if validate_relay_id env id
      then (if is_some (get s.config.blossoms id)
          then (s, reply 409 nothing)
          else (if validate_blossom_config config s.config none
              then (let inserted = insert s.config.blossoms id config in
                  saved_blossoms env s (remove inserted id)
                    (with_blossoms s inserted, reply 201 (blossom id config)))
              else (s, reply 400 nothing)))
      else (s, reply 400 nothing)
  | _ ↦ (s, reply 400 nothing)
])

unfoldable pub update_blossom :
    Env → Option Bytes → Bytes → Body BlossomConfig → GatewayState → Answer
update_blossom env headers id body s = guarded env headers s (λ s. elim body [
  | parsed new_config ↦ elim (get s.config.blossoms id) [
    | none ↦ (s, reply 404 nothing)
    | some old ↦
        if validate_blossom_config new_config s.config (some id)
        then (let inserted = insert s.config.blossoms id new_config in
            saved_blossoms env s (insert inserted id old)
              (with_blossoms s inserted, reply 200 (blossom id new_config)))
        else (s, reply 400 nothing)
  ]
  | _ ↦ (s, reply 400 nothing)
])

unfoldable pub delete_blossom : Env → Option Bytes → Bytes → GatewayState → Answer
delete_blossom env headers id s = guarded env headers s (λ s. elim (get s.config.blossoms id) [
  | none ↦ (s, reply 404 nothing)
  | some old ↦
      let removed = remove s.config.blossoms id in
      saved_blossoms env s (insert removed id old) (with_blossoms s removed, reply 204 nothing)
])
