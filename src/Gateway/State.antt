-- ===== src/Gateway/State.antt =====
-- src/gateway.rs: what the admin interface keeps, and its answers. What a request finds of the outside
-- world is one record: the clock, a fresh token, whether files can be written, and the functions of
-- other crates.
use moar.Common.{ℕ, Bool, true, Option, none, some, List, Bytes, if◌then◌else◌}
use moar.Config.{MoarConfig, RelayConfig, BlossomConfig}
use moar.HashMap.{HashMap}
use moar.Nostr.{Event}
use moar.Paywall.{PaywallManager}
use moar.Wot.{WotManager, WotInfo}

pub record SessionInfo : Type 0 where
  pub pubkey : Bytes
  pub created_at : ℕ

-- `config_file` is the configuration whose text the file holds, `pages` the files of `pages_dir` by the
-- id in their names. Parts that no request changes are not here.
pub record GatewayState : Type 0 where
  pub config : MoarConfig
  pub config_file : MoarConfig
  pub pages : HashMap Bytes
  pub pending_restart : Bool
  pub sessions : HashMap SessionInfo
  pub wot_manager : WotManager
  pub paywall_manager : PaywallManager

pub record Env : Type 0 where
  pub now : ℕ
  -- `Uuid::new_v4().to_string()`
  pub token : Bytes
  pub can_write : Bool
  pub verify : Event → Bool
  pub to_hex : Bytes → Bytes
  pub parse_key : Bytes → Option Bytes
  pub from_slice : Bytes → Option Bytes
  pub valid_nwc : Bytes → Bool
  pub chars : Bytes → List ℕ
  pub is_alphanumeric : ℕ → Bool

-- The body of an answer, where it is more than a fixed text.
pub data Content : Type 0 where
  nothing : Content
  set_cookie : Bytes → Content
  status : Bool → Bytes → ℕ → Content
  relay : Bytes → RelayConfig → Content
  relays : HashMap RelayConfig → Content
  blossom : Bytes → BlossomConfig → Content
  blossoms : HashMap BlossomConfig → Content
  page : Option Bytes → Content
  wots : List WotInfo → Content
  wot : WotInfo → Content
  discovery_relays : List Bytes → Content

-- `panicked` is a handler that panics: its client gets no answer.
pub data Response : Type 0 where
  reply : ℕ → Content → Response
  panicked : Response

-- A body: over the limit of its handler, not the JSON that is expected, or a value.
pub data Body (A : Type 0) : Type 0 where
  too_long malformed : Body A
  parsed : A → Body A

abbrev pub Answer : Type 0
Answer = GatewayState × Response

-- `save_config` on a state whose configuration is already changed: `none` is its answer 500.
abbrev pub save_config : Env → GatewayState → Option GatewayState
save_config env s =
    if env.can_write
    then some (record s { config_file = s.config; pending_restart = true })
    else none
