-- ===== src/Gateway/Relays.antt =====
-- src/gateway.rs: the relays of the configuration, and their pages.
use moar.Common.{
  ℕ, Bool, true, false, not, ◌&&◌, ◌||◌, Option, none, some, [], ◌∷◌, Bytes, bytes_eq, any, all,
  ◌==◌, if◌then◌else◌, is_some,
}
use moar.Config.{MoarConfig, RelayConfig, BlossomConfig}
use moar.HashMap.{HashMap, get, insert, remove}
use moar.Gateway.State.{
  GatewayState, Env, Body, too_long, malformed, parsed, Answer, reply, panicked, nothing, relay,
  relays, page, status, save_config,
}
use moar.Gateway.Session.{guarded}

unfoldable pub status_handler : Bytes → ℕ → GatewayState → Answer
status_handler domain port s = (s, reply 200 (status s.pending_restart domain port))

unfoldable pub list_relays : GatewayState → Answer
list_relays s = (s, reply 200 (relays s.config.relays))

unfoldable pub get_relay : Bytes → GatewayState → Answer
get_relay id s = elim (get s.config.relays id) [
  | none ↦ (s, reply 404 nothing)
  | some cfg ↦ (s, reply 200 (relay id cfg))
]

abbrev pub is_empty : Bytes → Bool
is_empty [] = true
is_empty (c ∷ cs) = false

unfoldable pub validate_relay_id : Env → Bytes → Bool
validate_relay_id env id =
    if is_empty id
    then false
    else all (λ c. (env.is_alphanumeric c || (c == 45)) || (c == 95)) (env.chars id)

abbrev pub is_excluded : Option Bytes → Bytes → Bool
is_excluded none id = false
is_excluded (some exclude_id) id = bytes_eq id exclude_id

-- Whether a relay, or a media server, other than the excluded one has this subdomain.
unfoldable pub relay_has : HashMap RelayConfig → Option Bytes → Bytes → Bool
relay_has existing exclude_id subdomain =
    any
      (λ (id, existing_config).
        not (is_excluded exclude_id id) && bytes_eq existing_config.subdomain subdomain)
      existing

unfoldable pub blossom_has : HashMap BlossomConfig → Option Bytes → Bytes → Bool
blossom_has existing exclude_id subdomain =
    any
      (λ (id, existing_config).
        not (is_excluded exclude_id id) && bytes_eq existing_config.subdomain subdomain)
      existing

-- `true` is `Ok(())`.
unfoldable pub validate_relay_config : RelayConfig → MoarConfig → Option Bytes → Bool
unfolding relay_has blossom_has
validate_relay_config config existing exclude_id =
    if is_empty config.name
    then false
    else (if is_empty config.subdomain
        then false
        else (if relay_has existing.relays exclude_id config.subdomain
            then false
            else not (blossom_has existing.blossoms none config.subdomain)))

abbrev pub with_relays : GatewayState → HashMap RelayConfig → GatewayState
with_relays s rs = record s { config = record s.config { relays = rs } }

-- `save_config`, or the rollback of the relays and its answer.
abbrev pub saved_relays : Env → GatewayState → HashMap RelayConfig → Answer → Answer
saved_relays env s rollback (changed, answer) = elim (save_config env changed) [
  | none ↦ (with_relays s rollback, reply 500 nothing)
  | some saved ↦ (saved, answer)
]

unfoldable pub create_relay :
    Env → Option Bytes → Body (Bytes × RelayConfig) → GatewayState → Answer
create_relay env headers body s = guarded env headers s (λ s. elim body [
  | too_long ↦ (s, panicked)
  | malformed ↦ (s, reply 400 nothing)
  | parsed (id, config) ↦
      if validate_relay_id env id
      then (if is_some (get s.config.relays id)
          then (s, reply 409 nothing)
          else (if validate_relay_config config s.config none
              then (let inserted = insert s.config.relays id config in
                  saved_relays env s (remove inserted id)
                    (with_relays s inserted, reply 201 (relay id config)))
              else (s, reply 400 nothing)))
      else (s, reply 400 nothing)
])

unfoldable pub update_relay : Env → Option Bytes → Bytes → Body RelayConfig → GatewayState → Answer
update_relay env headers id body s = guarded env headers s (λ s. elim body [
  | too_long ↦ (s, panicked)
  | malformed ↦ (s, reply 400 nothing)
  | parsed new_config ↦ elim (get s.config.relays id) [
    | none ↦ (s, reply 404 nothing)
    | some old ↦
        if validate_relay_config new_config s.config (some id)
        then (let inserted = insert s.config.relays id new_config in
            saved_relays env s (insert inserted id old)
              (with_relays s inserted, reply 200 (relay id new_config)))
        else (s, reply 400 nothing)
  ]
])

unfoldable pub delete_relay : Env → Option Bytes → Bytes → GatewayState → Answer
delete_relay env headers id s = guarded env headers s (λ s. elim (get s.config.relays id) [
  | none ↦ (s, reply 404 nothing)
  | some old ↦
      let removed = remove s.config.relays id in
      saved_relays env s (insert removed id old)
        (record (with_relays s removed) { pages = remove s.pages id }, reply 204 nothing)
])

-- `true` is `Ok(())`: no `.`, `/` or `\`.
unfoldable pub sanitize_relay_id_for_path : Bytes → Bool
sanitize_relay_id_for_path id = not (any (λ c. ((c == 46) || (c == 47)) || (c == 92)) id)

unfoldable pub get_relay_page : Bytes → GatewayState → Answer
get_relay_page id s =
    if sanitize_relay_id_for_path id
    then (if is_some (get s.config.relays id)
        then (s, reply 200 (page (get s.pages id)))
        else (s, reply 404 nothing))
    else (s, reply 400 nothing)

unfoldable pub put_relay_page : Env → Option Bytes → Bytes → Body Bytes → GatewayState → Answer
put_relay_page env headers id body s = guarded env headers s (λ s.
    if sanitize_relay_id_for_path id
    then (if is_some (get s.config.relays id)
        then (elim body [
          | parsed html ↦
              if env.can_write
              then (record s { pages = insert s.pages id html }, reply 200 nothing)
              else (s, reply 500 nothing)
          | _ ↦ (s, reply 400 nothing)
        ])
        else (s, reply 404 nothing))
    else (s, reply 400 nothing))

unfoldable pub delete_relay_page : Env → Option Bytes → Bytes → GatewayState → Answer
delete_relay_page env headers id s = guarded env headers s (λ s.
    if sanitize_relay_id_for_path id
    then (record s { pages = remove s.pages id }, reply 204 nothing)
    else (s, reply 400 nothing))
