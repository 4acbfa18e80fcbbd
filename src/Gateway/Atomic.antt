-- ===== src/Gateway/Atomic.antt =====
-- A change of a relay or a media server happens as a whole or not at all.
use moar.Common.{◌≡◌, refl, sym, true, Option, none, some, Bytes, is_some, true≢false}
use moar.Config.{RelayConfig, BlossomConfig}
use moar.HashMap.{get, insert, remove}
use moar.Gateway.State.{GatewayState, Env, Body, too_long, malformed, parsed}
use moar.Gateway.Branches.{if-branch, option-branch}
use moar.Gateway.Relays.{
  validate_relay_id, validate_relay_config, with_relays, create_relay, update_relay, delete_relay,
}
use moar.Gateway.Blossoms.{
  validate_blossom_config, with_blossoms, create_blossom, update_blossom, delete_blossom,
}
use moar.Gateway.Rollback.{undo_insert, undo_update, undo_remove}
use moar.Gateway.Kept.{is_some-none}
use moar.Gateway.{
  Request, post_relay, put_relay, drop_relay, post_blossom, put_blossom, drop_blossom, admin_router,
}
use moar.Gateway.Outcome.{
  asked_relays, asked_blossoms, IsAtomic, turned_away, guarded-IsAtomic, saved_relays-IsAtomic,
  saved_blossoms-IsAtomic, is_change, Atomic,
}

create_relay-IsAtomic :
    (env : Env) (headers : Option Bytes) (body : Body (Bytes × RelayConfig)) (s : GatewayState)
    → Atomic s (post_relay body) (create_relay env headers body s)
unfolding create_relay
create_relay-IsAtomic env headers too_long s =
    guarded-IsAtomic s _ _ env headers _ (turned_away s _ _ _ refl)
create_relay-IsAtomic env headers malformed s =
    guarded-IsAtomic s _ _ env headers _ (turned_away s _ _ _ refl)
create_relay-IsAtomic env headers (parsed (id, config)) s = guarded-IsAtomic s _ _ env headers _ (
    if-branch (Atomic s (post_relay (parsed (id, config)))) (validate_relay_id env id) _ _
      (λ good_id.
        if-branch (Atomic s (post_relay (parsed (id, config)))) (is_some (get s.config.relays id)) _
          _ (λ taken. turned_away s _ _ _ refl)
          (λ free.
            if-branch (Atomic s (post_relay (parsed (id, config))))
              (validate_relay_config config s.config none) _ _
              (λ valid.
                saved_relays-IsAtomic env s _ _ (with_relays s (insert s.config.relays id config)) _
                  (undo_insert s.config.relays id config (is_some-none _ free)) refl refl)
              (λ invalid. turned_away s _ _ _ refl)))
      (λ bad_id. turned_away s _ _ _ refl))

update_relay-IsAtomic :
    (env : Env) (headers : Option Bytes) (id : Bytes) (body : Body RelayConfig) (s : GatewayState)
    → Atomic s (put_relay id body) (update_relay env headers id body s)
unfolding update_relay
update_relay-IsAtomic env headers id too_long s =
    guarded-IsAtomic s _ _ env headers _ (turned_away s _ _ _ refl)
update_relay-IsAtomic env headers id malformed s =
    guarded-IsAtomic s _ _ env headers _ (turned_away s _ _ _ refl)
update_relay-IsAtomic env headers id (parsed config) s = guarded-IsAtomic s _ _ env headers _ (
    option-branch (Atomic s (put_relay id (parsed config))) (get s.config.relays id) _ _
      (turned_away s _ _ _ refl)
      (λ old there.
        if-branch (Atomic s (put_relay id (parsed config)))
          (validate_relay_config config s.config (some id)) _ _
          (λ valid.
            saved_relays-IsAtomic env s _ _ (with_relays s (insert s.config.relays id config)) _
              (undo_update s.config.relays id config old there) refl refl)
          (λ invalid. turned_away s _ _ _ refl)))

delete_relay-IsAtomic :
    (env : Env) (headers : Option Bytes) (id : Bytes) (s : GatewayState)
    → Atomic s (drop_relay id) (delete_relay env headers id s)
unfolding delete_relay
delete_relay-IsAtomic env headers id s = guarded-IsAtomic s _ _ env headers _ (
    option-branch (Atomic s (drop_relay id)) (get s.config.relays id) _ _ (turned_away s _ _ _ refl)
      (λ old there.
        saved_relays-IsAtomic env s _ _
          (record (with_relays s (remove s.config.relays id)) { pages = remove s.pages id }) _
          (undo_remove s.config.relays id old there) refl refl))

create_blossom-IsAtomic :
    (env : Env) (headers : Option Bytes) (body : Body (Bytes × BlossomConfig)) (s : GatewayState)
    → Atomic s (post_blossom body) (create_blossom env headers body s)
unfolding create_blossom
create_blossom-IsAtomic env headers too_long s =
    guarded-IsAtomic s _ _ env headers _ (turned_away s _ _ _ refl)
create_blossom-IsAtomic env headers malformed s =
    guarded-IsAtomic s _ _ env headers _ (turned_away s _ _ _ refl)
create_blossom-IsAtomic env headers (parsed (id, config)) s = guarded-IsAtomic s _ _ env headers _ (
    if-branch (Atomic s (post_blossom (parsed (id, config)))) (validate_relay_id env id) _ _
      (λ good_id.
        if-branch (Atomic s (post_blossom (parsed (id, config))))
          (is_some (get s.config.blossoms id)) _ _ (λ taken. turned_away s _ _ _ refl)
          (λ free.
            if-branch (Atomic s (post_blossom (parsed (id, config))))
              (validate_blossom_config config s.config none) _ _
              (λ valid.
                saved_blossoms-IsAtomic env s _ _
                  (with_blossoms s (insert s.config.blossoms id config)) _
                  (undo_insert s.config.blossoms id config (is_some-none _ free)) refl refl)
              (λ invalid. turned_away s _ _ _ refl)))
      (λ bad_id. turned_away s _ _ _ refl))

update_blossom-IsAtomic :
    (env : Env) (headers : Option Bytes) (id : Bytes) (body : Body BlossomConfig) (s : GatewayState)
    → Atomic s (put_blossom id body) (update_blossom env headers id body s)
unfolding update_blossom
update_blossom-IsAtomic env headers id too_long s =
    guarded-IsAtomic s _ _ env headers _ (turned_away s _ _ _ refl)
update_blossom-IsAtomic env headers id malformed s =
    guarded-IsAtomic s _ _ env headers _ (turned_away s _ _ _ refl)
update_blossom-IsAtomic env headers id (parsed config) s = guarded-IsAtomic s _ _ env headers _ (
    option-branch (Atomic s (put_blossom id (parsed config))) (get s.config.blossoms id) _ _
      (turned_away s _ _ _ refl)
      (λ old there.
        if-branch (Atomic s (put_blossom id (parsed config)))
          (validate_blossom_config config s.config (some id)) _ _
          (λ valid.
            saved_blossoms-IsAtomic env s _ _ (with_blossoms s (insert s.config.blossoms id config))
              _ (undo_update s.config.blossoms id config old there) refl refl)
          (λ invalid. turned_away s _ _ _ refl)))

delete_blossom-IsAtomic :
    (env : Env) (headers : Option Bytes) (id : Bytes) (s : GatewayState)
    → Atomic s (drop_blossom id) (delete_blossom env headers id s)
unfolding delete_blossom
delete_blossom-IsAtomic env headers id s = guarded-IsAtomic s _ _ env headers _ (
    option-branch (Atomic s (drop_blossom id)) (get s.config.blossoms id) _ _
      (turned_away s _ _ _ refl)
      (λ old there.
        saved_blossoms-IsAtomic env s _ _ (with_blossoms s (remove s.config.blossoms id)) _
          (undo_remove s.config.blossoms id old there) refl refl))

-- A request that creates, updates or deletes a relay or a media server either succeeds: the
-- configuration and its file then have exactly the change that was asked for, and a restart is due; or
-- it is answered with an error or not at all: then every look-up of a relay or a media server, the
-- file, the pages and the restart flag are as before.
pub admin_router-changes :
    (env : Env) (headers : Option Bytes) (request : Request) (s : GatewayState)
    → is_change request ≡ true
    → IsAtomic s
        (asked_relays request s.config.relays)
        (asked_blossoms request s.config.blossoms)
        (admin_router env headers request s)
unfolding admin_router
admin_router-changes env headers (post_relay body) s h = create_relay-IsAtomic env headers body s
admin_router-changes env headers (put_relay id body) s h =
    update_relay-IsAtomic env headers id body s
admin_router-changes env headers (drop_relay id) s h = delete_relay-IsAtomic env headers id s
admin_router-changes env headers (post_blossom body) s h =
    create_blossom-IsAtomic env headers body s
admin_router-changes env headers (put_blossom id body) s h =
    update_blossom-IsAtomic env headers id body s
admin_router-changes env headers (drop_blossom id) s h = delete_blossom-IsAtomic env headers id s
admin_router-changes env headers _ s h = absurd (true≢false (sym h))
