-- ===== src/Gateway.antt =====
-- src/gateway.rs: the routes of the admin interface. A request is given with its parsed body, and with
-- the text of its `Cookie` header. The router's handling of paths and methods is axum's.
pub mod State
pub mod Session
pub mod Relays
pub mod Blossoms
pub mod Wots
pub mod Paywalls
pub mod Caddy
pub mod Transfer
pub mod Import
pub mod Apart
pub mod Branches
pub mod Sound
pub mod Validate
pub mod Rollback
pub mod Kept
pub mod Others
pub mod Login
pub mod Outcome
pub mod Atomic
pub mod Routing
mod Tests
pub mod Reach
pub mod Access
use moar.Common.{ℕ, Bool, true, false, Option, List, Bytes}
use moar.Config.{WotConfig, PaywallConfig, RelayConfig, BlossomConfig}
use moar.Nostr.{Event}
use moar.Gateway.State.{GatewayState, Env, Body, Answer, reply, nothing}
use moar.Gateway.Session.{login_handler, logout_handler, guarded}
use moar.Gateway.Relays.*
use moar.Gateway.Blossoms.*
use moar.Gateway.Wots.*
use moar.Gateway.Paywalls.*
use moar.Gateway.Caddy.{caddy_ask_handler}

-- A media server's files, export, import, the paywalls' lists, the statistics, the restart and the
-- update are not here.
pub data Request : Type 0 where
  serve_index : Request
  post_login : Event → Request
  post_logout : Request
  get_status : Bytes → ℕ → Request
  get_relays : Request
  post_relay : Body (Bytes × RelayConfig) → Request
  get_relay_at : Bytes → Request
  put_relay : Bytes → Body RelayConfig → Request
  drop_relay : Bytes → Request
  get_page : Bytes → Request
  put_page : Bytes → Body Bytes → Request
  drop_page : Bytes → Request
  get_wots : Request
  post_wot : Body (Bytes × WotConfig) → Request
  get_wot_at : Bytes → Request
  put_wot : Bytes → Body WotConfig → Request
  drop_wot : Bytes → Request
  get_discovery : Request
  put_discovery : Body (List Bytes) → Request
  get_blossoms : Request
  post_blossom : Body (Bytes × BlossomConfig) → Request
  get_blossom_at : Bytes → Request
  put_blossom : Bytes → Body BlossomConfig → Request
  drop_blossom : Bytes → Request
  post_paywall : Body (Bytes × PaywallConfig) → Request
  put_paywall : Bytes → Body PaywallConfig → Request
  drop_paywall : Bytes → Request
  verify_nwc : (Bytes → Bool) → Body Bytes → Request
  caddy_ask : Bytes → Option Bytes → Request

unfoldable pub admin_router : Env → Option Bytes → Request → GatewayState → Answer
admin_router env headers serve_index s = (s, reply 200 nothing)
admin_router env headers (post_login event) s = login_handler env event s
admin_router env headers post_logout s = logout_handler env headers s
admin_router env headers (get_status domain port) s = status_handler domain port s
admin_router env headers get_relays s = list_relays s
admin_router env headers (post_relay body) s = create_relay env headers body s
admin_router env headers (get_relay_at id) s = get_relay id s
admin_router env headers (put_relay id body) s = update_relay env headers id body s
admin_router env headers (drop_relay id) s = delete_relay env headers id s
admin_router env headers (get_page id) s = get_relay_page id s
admin_router env headers (put_page id body) s = put_relay_page env headers id body s
admin_router env headers (drop_page id) s = delete_relay_page env headers id s
admin_router env headers get_wots s = list_wots_handler env headers s
admin_router env headers (post_wot body) s = create_wot env headers body s
admin_router env headers (get_wot_at id) s = get_wot env headers id s
admin_router env headers (put_wot id body) s = update_wot_handler env headers id body s
admin_router env headers (drop_wot id) s = delete_wot env headers id s
admin_router env headers get_discovery s = get_discovery_relays env headers s
admin_router env headers (put_discovery body) s = put_discovery_relays env headers body s
admin_router env headers get_blossoms s = list_blossoms s
admin_router env headers (post_blossom body) s = create_blossom env headers body s
admin_router env headers (get_blossom_at id) s = get_blossom id s
admin_router env headers (put_blossom id body) s = update_blossom env headers id body s
admin_router env headers (drop_blossom id) s = delete_blossom env headers id s
admin_router env headers (post_paywall body) s = create_paywall env headers body s
admin_router env headers (put_paywall id body) s = update_paywall_handler env headers id body s
admin_router env headers (drop_paywall id) s = delete_paywall env headers id s
admin_router env headers (verify_nwc verified body) s =
    verify_nwc_handler env headers verified body s
admin_router env headers (caddy_ask domain asked) s =
    (s, reply (caddy_ask_handler domain s.config asked) nothing)

-- The requests that are answered without a session.
abbrev pub is_public : Request → Bool
is_public serve_index = true
is_public (post_login event) = true
is_public post_logout = true
is_public (get_status domain port) = true
is_public get_relays = true
is_public (get_relay_at id) = true
is_public (get_page id) = true
is_public get_blossoms = true
is_public (get_blossom_at id) = true
is_public (caddy_ask domain asked) = true
is_public _ = false
