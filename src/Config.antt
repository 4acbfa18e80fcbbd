-- ===== src/Config.antt =====
-- src/config.rs: the configuration as the rest of the code reads it, and the values that an absent
-- section stands for. A string is its UTF-8 bytes; the TOML syntax is not modelled.
use moar.Common.{ℕ, Bool, false, Option, none, some, List, Bytes}
use moar.HashMap.{HashMap}

pub record WotConfig : Type 0 where
  pub seed : Bytes
  pub depth : ℕ
  pub update_interval_hours : ℕ

abbrev pub default_wot_depth : ℕ
default_wot_depth = 1

abbrev pub default_update_interval : ℕ
default_update_interval = 24

pub record PaywallConfig : Type 0 where
  pub nwc_string : Bytes
  pub price_sats : ℕ
  pub period_days : ℕ

abbrev pub default_period_days : ℕ
default_period_days = 30

pub record Nip11Config : Type 0 where
  pub icon : Option Bytes
  pub banner : Option Bytes
  pub contact : Option Bytes
  pub terms_of_service : Option Bytes
  pub max_message_length : Option ℕ
  pub max_subscriptions : Option ℕ
  pub max_subid_length : Option ℕ
  pub max_limit : Option ℕ
  pub max_event_tags : Option ℕ
  pub default_limit : Option ℕ
  pub created_at_lower_limit : Option ℕ
  pub created_at_upper_limit : Option ℕ

abbrev pub default_nip11 : Nip11Config
default_nip11 = record {
  icon = none;
  banner = none;
  contact = none;
  terms_of_service = none;
  max_message_length = some 524288;
  max_subscriptions = some 20;
  max_subid_length = some 64;
  max_limit = some 5000;
  max_event_tags = some 2500;
  default_limit = some 100;
  created_at_lower_limit = some 94608000;
  created_at_upper_limit = some 900;
}

pub record WritePolicy : Type 0 where
  pub require_auth : Bool
  pub allowed_pubkeys : Option (List Bytes)
  pub blocked_pubkeys : Option (List Bytes)
  pub tagged_pubkeys : Option (List Bytes)
  pub wot : Option Bytes
  pub paywall : Option Bytes

abbrev pub default_write : WritePolicy
default_write = record {
  require_auth = false;
  allowed_pubkeys = none;
  blocked_pubkeys = none;
  tagged_pubkeys = none;
  wot = none;
  paywall = none;
}

pub record ReadPolicy : Type 0 where
  pub require_auth : Bool
  pub allowed_pubkeys : Option (List Bytes)
  pub wot : Option Bytes
  pub paywall : Option Bytes

abbrev pub default_read : ReadPolicy
default_read = record { require_auth = false; allowed_pubkeys = none; wot = none; paywall = none }

pub record EventPolicy : Type 0 where
  pub allowed_kinds : Option (List ℕ)
  pub blocked_kinds : Option (List ℕ)
  pub min_pow : Option ℕ
  pub max_content_length : Option ℕ

abbrev pub default_events : EventPolicy
default_events = record {
  allowed_kinds = none;
  blocked_kinds = none;
  min_pow = none;
  max_content_length = none;
}

pub record RateLimitConfig : Type 0 where
  pub writes_per_minute : Option ℕ
  pub reads_per_minute : Option ℕ
  pub max_connections : Option ℕ

abbrev pub default_rate_limit : RateLimitConfig
default_rate_limit = record {
  writes_per_minute = some 20;
  reads_per_minute = some 60;
  max_connections = some 5;
}

pub record PolicyConfig : Type 0 where
  pub write : WritePolicy
  pub read : ReadPolicy
  pub events : EventPolicy
  pub rate_limit : RateLimitConfig

abbrev pub default_policy : PolicyConfig
default_policy = record {
  write = default_write;
  read = default_read;
  events = default_events;
  rate_limit = default_rate_limit;
}

pub record RelayConfig : Type 0 where
  pub name : Bytes
  pub description : Option Bytes
  pub subdomain : Bytes
  pub db_path : Bytes
  pub policy : PolicyConfig
  pub nip11 : Nip11Config

pub record BlossomUploadPolicy : Type 0 where
  pub allowed_pubkeys : Option (List Bytes)

pub record BlossomListPolicy : Type 0 where
  pub require_auth : Bool
  pub allowed_pubkeys : Option (List Bytes)

pub record BlossomPolicyConfig : Type 0 where
  pub upload : BlossomUploadPolicy
  pub listing : BlossomListPolicy
  pub max_file_size : Option ℕ

pub record BlossomConfig : Type 0 where
  pub name : Bytes
  pub description : Option Bytes
  pub subdomain : Bytes
  pub storage_path : Bytes
  pub policy : BlossomPolicyConfig

pub record MoarConfig : Type 0 where
  pub domain : Bytes
  pub port : ℕ
  pub admin_pubkey : Bytes
  pub pages_dir : Bytes
  pub discovery_relays : List Bytes
  pub wots : HashMap WotConfig
  pub paywalls : HashMap PaywallConfig
  pub relays : HashMap RelayConfig
  pub blossoms : HashMap BlossomConfig
