-- ===== src/Gateway/Kept.antt =====
-- Each handler keeps the state sound.
use moar.Common.{
  ◌≡◌, refl, sym, ap, ◌∙◌, inl, inr, false, Option, none, some, Bytes, bytes_eq, bytes_eq→eq,
  if◌then◌else◌, Option-cases, is_some, true≢false,
}
use moar.Config.{RelayConfig, BlossomConfig}
use moar.HashMap.{get, insert, remove}
use moar.Nostr.{Event}
use moar.Auth.{verify_auth_event}
use moar.Gateway.State.{
  GatewayState, Env, Body, too_long, malformed, parsed, Answer, reply, nothing,
}
use moar.Gateway.Session.{login_handler, logout_handler, extract_session_token}
use moar.Gateway.Relays.{
  validate_relay_id, validate_relay_config, with_relays, create_relay, update_relay, delete_relay,
  sanitize_relay_id_for_path, put_relay_page, delete_relay_page,
}
use moar.Gateway.Blossoms.{
  validate_blossom_config, with_blossoms, create_blossom, update_blossom, delete_blossom,
}
use moar.Gateway.Apart.{get-insert_cases}
use moar.Gateway.Branches.{if-branch, option-branch}
use moar.Gateway.Sound.{IsSound, Keeps, stay, remove-IsSound, same-IsSound, guarded-Keeps}
use moar.Gateway.Validate.{
  insert-relay-IsRoutable, insert-blossom-IsRoutable, remove-relay-IsRoutable,
  remove-blossom-IsRoutable,
}
use moar.Gateway.Rollback.{
  undo_insert, undo_update, undo_remove, saved_relays-Keeps, saved_blossoms-Keeps,
}

pub is_some-none : {A : Type 0} (o : Option A) → is_some o ≡ false → o ≡ none
is_some-none none h = refl
is_some-none (some a) h = absurd (true≢false h)

pub login-Keeps :
    (env : Env) (event : Event) (s : GatewayState) → IsSound s → Keeps (login_handler env event s)
unfolding login_handler
login-Keeps env event s h = elim (Option-cases (verify_auth_event env.verify env.now event)) [
  | inr (why, refused) ↦ rw (refused, login_handler) (stay h)
  | inl valid ↦
      rw (valid, login_handler)
        (if-branch Keeps (bytes_eq (env.to_hex event.pubkey) s.config.admin_pubkey) _ _
          (λ same. stay (record {
            in_memory = h.in_memory;
            in_file = h.in_file;
            admins = record {
              is_admin = λ t i at. elim (get-insert_cases s.sessions env.token t _ i at) [
                | inl (here, is_i) ↦ ap (λ w. w.pubkey) (sym is_i) ∙ bytes_eq→eq _ _ same
                | inr (other, old) ↦ h.admins.is_admin t i old
              ];
            };
          }))
          (λ other. stay h))
]

pub logout-Keeps :
    (env : Env) (headers : Option Bytes) (s : GatewayState)
    → IsSound s
    → Keeps (logout_handler env headers s)
unfolding logout_handler
logout-Keeps env headers s h = elim (Option-cases (extract_session_token headers)) [
  | inl nobody ↦ rw (nobody, logout_handler) (stay h)
  | inr (token, shown) ↦ rw (shown, logout_handler) (stay (remove-IsSound s token h))
]

pub create_relay-Keeps :
    (env : Env) (headers : Option Bytes) (body : Body (Bytes × RelayConfig)) (s : GatewayState)
    → IsSound s
    → Keeps (create_relay env headers body s)
unfolding create_relay
create_relay-Keeps env headers too_long s h = guarded-Keeps env headers s _ h (stay h)
create_relay-Keeps env headers malformed s h = guarded-Keeps env headers s _ h (stay h)
create_relay-Keeps env headers (parsed (id, config)) s h = guarded-Keeps env headers s _ h (
    if-branch Keeps (validate_relay_id env id) _ _
      (λ good_id.
        if-branch Keeps (is_some (get s.config.relays id)) _ _ (λ taken. stay h)
          (λ free.
            if-branch Keeps (validate_relay_config config s.config none) _ _
              (λ valid.
                saved_relays-Keeps env s _ (with_relays s (insert s.config.relays id config)) _
                  (undo_insert s.config.relays id config (is_some-none _ free)) refl refl
                  (insert-relay-IsRoutable s.config id config none tt valid h.in_memory) h)
              (λ invalid. stay h)))
      (λ bad_id. stay h))

pub update_relay-Keeps :
    (env : Env) (headers : Option Bytes) (id : Bytes) (body : Body RelayConfig) (s : GatewayState)
    → IsSound s
    → Keeps (update_relay env headers id body s)
unfolding update_relay
update_relay-Keeps env headers id too_long s h = guarded-Keeps env headers s _ h (stay h)
update_relay-Keeps env headers id malformed s h = guarded-Keeps env headers s _ h (stay h)
update_relay-Keeps env headers id (parsed config) s h = guarded-Keeps env headers s _ h (
    option-branch Keeps (get s.config.relays id) _ _ (stay h) (λ old there.
      if-branch Keeps (validate_relay_config config s.config (some id)) _ _
        (λ valid.
          saved_relays-Keeps env s _ (with_relays s (insert s.config.relays id config)) _
            (undo_update s.config.relays id config old there) refl refl
            (insert-relay-IsRoutable s.config id config (some id) refl valid h.in_memory) h)
        (λ invalid. stay h)))

pub delete_relay-Keeps :
    (env : Env) (headers : Option Bytes) (id : Bytes) (s : GatewayState)
    → IsSound s
    → Keeps (delete_relay env headers id s)
unfolding delete_relay
delete_relay-Keeps env headers id s h = guarded-Keeps env headers s _ h (
    option-branch Keeps (get s.config.relays id) _ _ (stay h) (λ old there.
      saved_relays-Keeps env s _
        (record (with_relays s (remove s.config.relays id)) { pages = remove s.pages id }) _
        (undo_remove s.config.relays id old there) refl refl
        (remove-relay-IsRoutable s.config id h.in_memory) h))

pub put_relay_page-Keeps :
    (env : Env) (headers : Option Bytes) (id : Bytes) (body : Body Bytes) (s : GatewayState)
    → IsSound s
    → Keeps (put_relay_page env headers id body s)
unfolding put_relay_page
put_relay_page-Keeps env headers id body s h = guarded-Keeps env headers s _ h (
    if-branch Keeps (sanitize_relay_id_for_path id) _ _
      (λ clean.
        if-branch Keeps (is_some (get s.config.relays id)) _ _ (λ there. written body)
          (λ gone. stay h))
      (λ unclean. stay h))
  where
    written :
        (b : Body Bytes)
        → Keeps (elim b as (λ x. Answer) [
          | parsed html ↦
              if env.can_write
              then (record s { pages = insert s.pages id html }, reply 200 nothing)
              else (s, reply 500 nothing)
          | _ ↦ (s, reply 400 nothing)
        ])
    written too_long = stay h
    written malformed = stay h
    written (parsed html) =
        if-branch Keeps env.can_write _ _
          (λ writes. stay (same-IsSound s _ refl refl refl refl refl h)) (λ fails. stay h)

pub delete_relay_page-Keeps :
    (env : Env) (headers : Option Bytes) (id : Bytes) (s : GatewayState)
    → IsSound s
    → Keeps (delete_relay_page env headers id s)
unfolding delete_relay_page
delete_relay_page-Keeps env headers id s h = guarded-Keeps env headers s _ h (
    if-branch Keeps (sanitize_relay_id_for_path id) _ _
      (λ clean. stay (same-IsSound s _ refl refl refl refl refl h)) (λ unclean. stay h))

pub create_blossom-Keeps :
    (env : Env) (headers : Option Bytes) (body : Body (Bytes × BlossomConfig)) (s : GatewayState)
    → IsSound s
    → Keeps (create_blossom env headers body s)
unfolding create_blossom
create_blossom-Keeps env headers too_long s h = guarded-Keeps env headers s _ h (stay h)
create_blossom-Keeps env headers malformed s h = guarded-Keeps env headers s _ h (stay h)
create_blossom-Keeps env headers (parsed (id, config)) s h = guarded-Keeps env headers s _ h (
    if-branch Keeps (validate_relay_id env id) _ _
      (λ good_id.
        if-branch Keeps (is_some (get s.config.blossoms id)) _ _ (λ taken. stay h)
          (λ free.
            if-branch Keeps (validate_blossom_config config s.config none) _ _
              (λ valid.
                saved_blossoms-Keeps env s _ (with_blossoms s (insert s.config.blossoms id config))
                  _ (undo_insert s.config.blossoms id config (is_some-none _ free)) refl refl
                  (insert-blossom-IsRoutable s.config id config none tt valid h.in_memory) h)
              (λ invalid. stay h)))
      (λ bad_id. stay h))

pub update_blossom-Keeps :
    (env : Env) (headers : Option Bytes) (id : Bytes) (body : Body BlossomConfig) (s : GatewayState)
    → IsSound s
    → Keeps (update_blossom env headers id body s)
unfolding update_blossom
update_blossom-Keeps env headers id too_long s h = guarded-Keeps env headers s _ h (stay h)
update_blossom-Keeps env headers id malformed s h = guarded-Keeps env headers s _ h (stay h)
update_blossom-Keeps env headers id (parsed config) s h = guarded-Keeps env headers s _ h (
    option-branch Keeps (get s.config.blossoms id) _ _ (stay h) (λ old there.
      if-branch Keeps (validate_blossom_config config s.config (some id)) _ _
        (λ valid.
          saved_blossoms-Keeps env s _ (with_blossoms s (insert s.config.blossoms id config)) _
            (undo_update s.config.blossoms id config old there) refl refl
            (insert-blossom-IsRoutable s.config id config (some id) refl valid h.in_memory) h)
        (λ invalid. stay h)))

pub delete_blossom-Keeps :
    (env : Env) (headers : Option Bytes) (id : Bytes) (s : GatewayState)
    → IsSound s
    → Keeps (delete_blossom env headers id s)
unfolding delete_blossom
delete_blossom-Keeps env headers id s h = guarded-Keeps env headers s _ h (
    option-branch Keeps (get s.config.blossoms id) _ _ (stay h) (λ old there.
      saved_blossoms-Keeps env s _ (with_blossoms s (remove s.config.blossoms id)) _
        (undo_remove s.config.blossoms id old there) refl refl
        (remove-blossom-IsRoutable s.config id h.in_memory) h))
