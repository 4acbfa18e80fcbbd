-- ===== src/Gateway/Access.antt =====
-- Who may change what: the admin interface without a session, and how long a login lasts.
use moar.Common.{
  ◌≡◌, refl, inl, inr, Bool, true, false, Option, Bytes, bytes_eq, if◌then◌else◌, Option-cases,
  is_some,
}
use moar.Auth.{verify_auth_event}
use moar.HashMap.{HashMap, get, remove}
use moar.Nostr.{Event}
use moar.Gateway.State.{GatewayState, SessionInfo, Env, Answer, Response, reply, nothing}
use moar.Gateway.Session.{
  require_auth, guarded, login_handler, logout_handler, extract_session_token,
}
use moar.Gateway.Branches.{if-branch, option-branch}
use moar.Gateway.Relays.{
  status_handler, list_relays, get_relay, get_relay_page, sanitize_relay_id_for_path, create_relay,
  update_relay, delete_relay, put_relay_page, delete_relay_page,
}
use moar.Gateway.Blossoms.{
  list_blossoms, get_blossom, create_blossom, update_blossom, delete_blossom,
}
use moar.Gateway.Wots.{
  list_wots_handler, get_wot, get_discovery_relays, create_wot, update_wot_handler, delete_wot,
  put_discovery_relays,
}
use moar.Gateway.Paywalls.{
  create_paywall, update_paywall_handler, delete_paywall, verify_nwc_handler,
}
use moar.Gateway.{
  Request, serve_index, post_login, post_logout, get_status, get_relays, post_relay, get_relay_at,
  put_relay, drop_relay, get_page, put_page, drop_page, get_wots, post_wot, get_wot_at, put_wot,
  drop_wot, get_discovery, put_discovery, get_blossoms, post_blossom, get_blossom_at, put_blossom,
  drop_blossom, post_paywall, put_paywall, drop_paywall, verify_nwc, caddy_ask, admin_router,
  is_public,
}

-- An answer that changes nothing but the sessions; unless the request is public, it is the answer 401.
pub record IsRefused (public : Bool) (s : GatewayState) (a : Answer) : Type 0 where
  pub untouched : a.0 ≡ record s { sessions = a.0.sessions }
  pub refused : a.1 ≡ (if public then a.1 else reply 401 nothing)

answered : (s : GatewayState) (r : Response) → IsRefused true s (s, r)
answered s r = record { untouched = refl; refused = refl }

guarded-IsRefused :
    (env : Env) (headers : Option Bytes) (s : GatewayState) (k : GatewayState → Answer)
    (left : HashMap SessionInfo)
    → require_auth env headers s.sessions ≡ inl left
    → IsRefused false s (guarded env headers s k)
unfolding guarded
guarded-IsRefused env headers s k left denied =
    rw (denied, guarded) (record { untouched = refl; refused = refl })

only_sessions :
    (s : GatewayState) (sessions : HashMap SessionInfo) (r : Response)
    → IsRefused true s (record s { sessions = sessions }, r)
only_sessions s sessions r = record { untouched = refl; refused = refl }

login-IsRefused :
    (env : Env) (event : Event) (s : GatewayState) → IsRefused true s (login_handler env event s)
unfolding login_handler
login-IsRefused env event s = elim (Option-cases (verify_auth_event env.verify env.now event)) [
  | inr (why, invalid) ↦ rw (invalid, login_handler) (answered s _)
  | inl valid ↦
      rw (valid, login_handler)
        (if-branch (IsRefused true s) (bytes_eq (env.to_hex event.pubkey) s.config.admin_pubkey) _ _
          (λ admin. only_sessions s _ _) (λ other. answered s _))
]

logout-IsRefused :
    (env : Env) (headers : Option Bytes) (s : GatewayState)
    → IsRefused true s (logout_handler env headers s)
unfolding logout_handler
logout-IsRefused env headers s =
    option-branch (IsRefused true s) (extract_session_token headers) _ _ (answered s _)
      (λ token shown. only_sessions s (remove s.sessions token) _)

-- A request that shows no live session changes nothing but the sessions, and it is answered with 401
-- unless it is one of the public requests: the pages, the status, the look-ups of relays, media
-- servers and relay pages, the question for a certificate, login and logout.
pub admin_router-refuses :
    (env : Env) (headers : Option Bytes) (request : Request) (s : GatewayState)
    (left : HashMap SessionInfo)
    → require_auth env headers s.sessions ≡ inl left
    → IsRefused (is_public request) s (admin_router env headers request s)
unfolding admin_router status_handler list_relays get_relay get_relay_page list_blossoms get_blossom
    list_wots_handler get_wot get_discovery_relays create_relay update_relay delete_relay
    put_relay_page delete_relay_page create_blossom update_blossom delete_blossom create_wot
    update_wot_handler delete_wot put_discovery_relays create_paywall update_paywall_handler
    delete_paywall verify_nwc_handler
admin_router-refuses env headers serve_index s left h = answered s _
admin_router-refuses env headers (post_login event) s left h = login-IsRefused env event s
admin_router-refuses env headers post_logout s left h = logout-IsRefused env headers s
admin_router-refuses env headers (get_status domain port) s left h = answered s _
admin_router-refuses env headers get_relays s left h = answered s _
admin_router-refuses env headers (post_relay body) s left h =
    guarded-IsRefused env headers s _ left h
admin_router-refuses env headers (get_relay_at id) s left h =
    option-branch (IsRefused true s) (get s.config.relays id) _ _ (answered s _)
      (λ cfg there. answered s _)
admin_router-refuses env headers (put_relay id body) s left h =
    guarded-IsRefused env headers s _ left h
admin_router-refuses env headers (drop_relay id) s left h = guarded-IsRefused env headers s _ left h
admin_router-refuses env headers (get_page id) s left h =
    if-branch (IsRefused true s) (sanitize_relay_id_for_path id) _ _
      (λ clean.
        if-branch (IsRefused true s) (is_some (get s.config.relays id)) _ _ (λ there. answered s _)
          (λ gone. answered s _))
      (λ unclean. answered s _)
admin_router-refuses env headers (put_page id body) s left h =
    guarded-IsRefused env headers s _ left h
admin_router-refuses env headers (drop_page id) s left h = guarded-IsRefused env headers s _ left h
admin_router-refuses env headers get_wots s left h = guarded-IsRefused env headers s _ left h
admin_router-refuses env headers (post_wot body) s left h = guarded-IsRefused env headers s _ left h
admin_router-refuses env headers (get_wot_at id) s left h = guarded-IsRefused env headers s _ left h
admin_router-refuses env headers (put_wot id body) s left h =
    guarded-IsRefused env headers s _ left h
admin_router-refuses env headers (drop_wot id) s left h = guarded-IsRefused env headers s _ left h
admin_router-refuses env headers get_discovery s left h = guarded-IsRefused env headers s _ left h
admin_router-refuses env headers (put_discovery body) s left h =
    guarded-IsRefused env headers s _ left h
admin_router-refuses env headers get_blossoms s left h = answered s _
admin_router-refuses env headers (post_blossom body) s left h =
    guarded-IsRefused env headers s _ left h
admin_router-refuses env headers (get_blossom_at id) s left h =
    option-branch (IsRefused true s) (get s.config.blossoms id) _ _ (answered s _)
      (λ cfg there. answered s _)
admin_router-refuses env headers (put_blossom id body) s left h =
    guarded-IsRefused env headers s _ left h
admin_router-refuses env headers (drop_blossom id) s left h =
    guarded-IsRefused env headers s _ left h
admin_router-refuses env headers (post_paywall body) s left h =
    guarded-IsRefused env headers s _ left h
admin_router-refuses env headers (put_paywall id body) s left h =
    guarded-IsRefused env headers s _ left h
admin_router-refuses env headers (drop_paywall id) s left h =
    guarded-IsRefused env headers s _ left h
admin_router-refuses env headers (verify_nwc verified body) s left h =
    guarded-IsRefused env headers s _ left h
admin_router-refuses env headers (caddy_ask domain asked) s left h = answered s _
