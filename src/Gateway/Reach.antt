-- ===== src/Gateway/Reach.antt =====
-- The admin interface over any sequence of requests.
use moar.Common.{Option, Bytes, is_some}
use moar.HashMap.{get}
use moar.Gateway.State.{GatewayState, Env}
use moar.Gateway.Relays.{
  status_handler, list_relays, get_relay, get_relay_page, sanitize_relay_id_for_path,
}
use moar.Gateway.Blossoms.{list_blossoms, get_blossom}
use moar.Gateway.Wots.{list_wots_handler, get_wot, get_discovery_relays}
use moar.Gateway.Branches.{if-branch, option-branch}
use moar.Gateway.Sound.{IsSound, Keeps, stay, guarded-Keeps}
use moar.Gateway.Kept.{
  login-Keeps, logout-Keeps, create_relay-Keeps, update_relay-Keeps, delete_relay-Keeps,
  put_relay_page-Keeps, delete_relay_page-Keeps, create_blossom-Keeps, update_blossom-Keeps,
  delete_blossom-Keeps,
}
use moar.Gateway.Others.{
  create_wot-Keeps, update_wot-Keeps, delete_wot-Keeps, put_discovery_relays-Keeps,
  create_paywall-Keeps, update_paywall-Keeps, delete_paywall-Keeps, verify_nwc-Keeps,
}
use moar.Gateway.{
  Request, serve_index, post_login, post_logout, get_status, get_relays, post_relay, get_relay_at,
  put_relay, drop_relay, get_page, put_page, drop_page, get_wots, post_wot, get_wot_at, put_wot,
  drop_wot, get_discovery, put_discovery, get_blossoms, post_blossom, get_blossom_at, put_blossom,
  drop_blossom, post_paywall, put_paywall, drop_paywall, verify_nwc, caddy_ask, admin_router,
}

-- The states that requests lead to; each request finds an environment of its own.
pub data Reach (start : GatewayState) : GatewayState → Type 0 where
  started : Reach start start
  served :
      (env : Env) (headers : Option Bytes) (request : Request) {s : GatewayState}
      → Reach start s
      → Reach start (admin_router env headers request s).0

admin_router-Keeps :
    (env : Env) (headers : Option Bytes) (request : Request) (s : GatewayState)
    → IsSound s
    → Keeps (admin_router env headers request s)
unfolding admin_router status_handler list_relays get_relay get_relay_page list_blossoms get_blossom
    list_wots_handler get_wot get_discovery_relays
admin_router-Keeps env headers serve_index s h = stay h
admin_router-Keeps env headers (post_login event) s h = login-Keeps env event s h
admin_router-Keeps env headers post_logout s h = logout-Keeps env headers s h
admin_router-Keeps env headers (get_status domain port) s h = stay h
admin_router-Keeps env headers get_relays s h = stay h
admin_router-Keeps env headers (post_relay body) s h = create_relay-Keeps env headers body s h
admin_router-Keeps env headers (get_relay_at id) s h =
    option-branch Keeps (get s.config.relays id) _ _ (stay h) (λ cfg there. stay h)
admin_router-Keeps env headers (put_relay id body) s h = update_relay-Keeps env headers id body s h
admin_router-Keeps env headers (drop_relay id) s h = delete_relay-Keeps env headers id s h
admin_router-Keeps env headers (get_page id) s h =
    if-branch Keeps (sanitize_relay_id_for_path id) _ _
      (λ clean.
        if-branch Keeps (is_some (get s.config.relays id)) _ _ (λ there. stay h) (λ gone. stay h))
      (λ unclean. stay h)
admin_router-Keeps env headers (put_page id body) s h = put_relay_page-Keeps env headers id body s h
admin_router-Keeps env headers (drop_page id) s h = delete_relay_page-Keeps env headers id s h
admin_router-Keeps env headers get_wots s h = guarded-Keeps env headers s _ h (stay h)
admin_router-Keeps env headers (post_wot body) s h = create_wot-Keeps env headers body s h
admin_router-Keeps env headers (get_wot_at id) s h = guarded-Keeps env headers s _ h (stay h)
admin_router-Keeps env headers (put_wot id body) s h = update_wot-Keeps env headers id body s h
admin_router-Keeps env headers (drop_wot id) s h = delete_wot-Keeps env headers id s h
admin_router-Keeps env headers get_discovery s h = guarded-Keeps env headers s _ h (stay h)
admin_router-Keeps env headers (put_discovery body) s h =
    put_discovery_relays-Keeps env headers body s h
admin_router-Keeps env headers get_blossoms s h = stay h
admin_router-Keeps env headers (post_blossom body) s h = create_blossom-Keeps env headers body s h
admin_router-Keeps env headers (get_blossom_at id) s h =
    option-branch Keeps (get s.config.blossoms id) _ _ (stay h) (λ cfg there. stay h)
admin_router-Keeps env headers (put_blossom id body) s h =
    update_blossom-Keeps env headers id body s h
admin_router-Keeps env headers (drop_blossom id) s h = delete_blossom-Keeps env headers id s h
admin_router-Keeps env headers (post_paywall body) s h = create_paywall-Keeps env headers body s h
admin_router-Keeps env headers (put_paywall id body) s h =
    update_paywall-Keeps env headers id body s h
admin_router-Keeps env headers (drop_paywall id) s h = delete_paywall-Keeps env headers id s h
admin_router-Keeps env headers (verify_nwc verified body) s h =
    verify_nwc-Keeps env headers verified body s h
admin_router-Keeps env headers (caddy_ask domain asked) s h = stay h

-- After any sequence of requests to the admin interface, from a state in which this holds: no two
-- services, relays or media servers, share a subdomain, neither in the configuration nor in its file,
-- and every session is the admin's.
pub Reach-IsSound : {start s : GatewayState} → IsSound start → Reach start s → IsSound s
Reach-IsSound h started = h
Reach-IsSound h (served env headers request r) =
    (admin_router-Keeps env headers request _ (Reach-IsSound h r)).kept
