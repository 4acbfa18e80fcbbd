-- ===== src/Gateway/Tests.antt =====
-- A login, a new relay and its host name.
use moar.Common.{
  ℕ, ◌≡◌, refl, sym, ◌∙◌, inl, inr, true, false, none, some, [], ◌∷◌, ◌++◌, Bytes, ltb, bytes_eq,
  List, length, ◌+◌, ◌==◌, if◌then◌else◌, bytes_eq→eq, Bool-cases, none_ne_some, arith,
}
use moar.Config.{MoarConfig, RelayConfig, default_policy, default_nip11}
use moar.HashMap.{get, insert}
use moar.Nostr.{Event}
use moar.Gateway.State.{GatewayState, Env, parsed}
use moar.Gateway.Session.{require_auth, guarded, login_handler, cookie_name}
use moar.Gateway.Relays.{create_relay, validate_relay_id, validate_relay_config}
use moar.Gateway.Login.{login-lasts}
use moar.Gateway.Sound.{IsSound}
use moar.Gateway.Reach.{started, served, Reach-IsSound}
use moar.Gateway.Access.{IsRefused, admin_router-refuses}
use moar.Gateway.Outcome.{IsAtomic}
use moar.Gateway.Atomic.{admin_router-changes}
use moar.Gateway.Caddy.{handler, start_gateway, Service}
use moar.Gateway.Routing.{IsServed, Owns, handler-Owns}
use moar.Server.{NostrStore}
use moar.Error.{nostr, ok, err}
use moar.Gateway.Transfer.{import_relay, export_relay, export_body, offer_all, trim_line}
use moar.Gateway.Import.{IsExportable, import_relay-export_relay}
use moar.Gateway.{post_login, post_relay, put_relay, admin_router}

abbrev admin : Bytes
admin = 97 ∷ []

abbrev token : Bytes
token = 116 ∷ 49 ∷ []

abbrev domain : Bytes
domain = 109 ∷ 46 ∷ 111 ∷ []

abbrev name : Bytes
name = 120 ∷ []

abbrev id : Bytes
id = 114 ∷ []

abbrev empty_config : MoarConfig
empty_config = record {
  domain = domain;
  port = 80;
  admin_pubkey = admin;
  pages_dir = [];
  discovery_relays = [];
  wots = [];
  paywalls = [];
  relays = [];
  blossoms = [];
}

abbrev empty_state : GatewayState
empty_state = record {
  config = empty_config;
  config_file = empty_config;
  pages = [];
  pending_restart = false;
  sessions = [];
  wot_manager = record { entries = []; discovery_relays = []; disk = [] };
  paywall_manager = record { entries = []; disk = [] };
}

abbrev at : ℕ → Env
at now = record {
  now = now;
  token = token;
  can_write = true;
  verify = λ e. true;
  to_hex = λ k. k;
  parse_key = λ k. some k;
  from_slice = λ k. some k;
  valid_nwc = λ s. true;
  chars = λ s. s;
  is_alphanumeric = λ c. ltb 64 c;
}

abbrev login : Event
login = record { id = []; pubkey = admin; created_at = 1000; kind = 27235; tags = []; content = [] }

abbrev cookie : Bytes
cookie = cookie_name ++ token

abbrev new_relay : RelayConfig
new_relay = record {
  name = name;
  description = none;
  subdomain = name;
  db_path = [];
  policy = default_policy;
  nip11 = default_nip11;
}

empty-IsSound : IsSound empty_state
empty-IsSound = record {
  in_memory = record {
    relays_apart = record { one_each = λ i j c d h. absurd (none_ne_some h) };
    blossoms_apart = record { one_each = λ i j c d h. absurd (none_ne_some h) };
    disjoint = λ i j r b h. absurd (none_ne_some h);
  };
  in_file = record {
    relays_apart = record { one_each = λ i j c d h. absurd (none_ne_some h) };
    blossoms_apart = record { one_each = λ i j c d h. absurd (none_ne_some h) };
    disjoint = λ i j r b h. absurd (none_ne_some h);
  };
  admins = record { is_admin = λ t i h. absurd (none_ne_some h) };
}

abbrev logged_in : GatewayState
logged_in = (admin_router (at 1000) none (post_login login) empty_state).0

abbrev with_relay : GatewayState
with_relay =
    (admin_router (at 2000) (some cookie) (post_relay (parsed (id, new_relay))) logged_in).0

-- The relay is there afterwards.
created : get with_relay.config_file.relays id ≡ some new_relay
unfolding admin_router create_relay guarded login_handler bytes_eq validate_relay_id
    validate_relay_config
created = refl

Reach-IsSound_example : IsSound with_relay
Reach-IsSound_example = Reach-IsSound empty-IsSound (
    served (at 2000) (some cookie) (post_relay (parsed (id, new_relay)))
      (served (at 1000) none (post_login login) started))

admin_router-refuses_example :
    IsRefused false empty_state
      (admin_router (at 2000) (some cookie) (post_relay (parsed (id, new_relay))) empty_state)
unfolding require_auth
admin_router-refuses_example =
    admin_router-refuses (at 2000) (some cookie) (post_relay (parsed (id, new_relay))) empty_state
      [] refl

admin_router-changes_example :
    IsAtomic logged_in
      (insert logged_in.config.relays id new_relay)
      logged_in.config.blossoms
      (admin_router (at 2000) (some cookie) (put_relay id (parsed new_relay)) logged_in)
admin_router-changes_example =
    admin_router-changes (at 2000) (some cookie) (put_relay id (parsed new_relay)) logged_in refl

login-lasts_example :
    require_auth (at 87400) (some cookie) (login_handler (at 1000) login empty_state).0.sessions
    ≡ inr admin
unfolding login_handler bytes_eq
login-lasts_example =
    login-lasts (at 1000) (at 87400) login empty_state (refl, (refl, tt)) refl (omega arith)
      (omega arith)

abbrev config : MoarConfig
config = record empty_config { relays = (id, new_relay) ∷ [] }

-- The only entry is at the one id.
only_entry : (i : Bytes) (c : RelayConfig) → get config.relays i ≡ some c → id ≡ i
only_entry i c h = elim (Bool-cases (bytes_eq id i)) [
  | inl same ↦ bytes_eq→eq id i same
  | inr other ↦ absurd (none_ne_some (rw other at h))
]

config-IsServed : IsServed config
config-IsServed = record {
  one_relay = (refl, tt);
  one_blossom = tt;
  routable = record {
    relays_apart = record {
      one_each = λ i j c d at_i at_j same. sym (only_entry i c at_i) ∙ only_entry j d at_j;
    };
    blossoms_apart = record { one_each = λ i j c d h. absurd (none_ne_some h) };
    disjoint = λ i j r b at_i at_j. absurd (none_ne_some at_j);
  };
}

-- With a port.
handler-Owns_example :
    handler domain (start_gateway config) (name ++ (46 ∷ (domain ++ (58 ∷ 56 ∷ []))))
    ≡ Service.relay new_relay
unfolding bytes_eq
handler-Owns_example =
    handler-Owns domain (name ++ (46 ∷ (domain ++ (58 ∷ 56 ∷ [])))) config name
      (Service.relay new_relay) config-IsServed (Owns.a_relay id new_relay refl refl) refl

-- A store that refuses to keep a second event.
abbrev one_event : NostrStore
one_event = record {
  Store = List Event;
  save_event = λ kept e. if length kept == 0 then ok (e ∷ kept) else err nostr;
  query = λ kept f. ok kept;
}

-- `{}`
abbrev json : Bytes
json = 123 ∷ 125 ∷ []

login-IsExportable : IsExportable (λ e. some json) (λ b. some login) (λ e. true) login
unfolding trim_line
login-IsExportable = record {
  first = 123;
  rest = 125 ∷ [];
  written = refl;
  one_line = (refl, (refl, tt));
  trimmed = refl;
  read_back = refl;
  signed = refl;
}

-- The first is imported and the second is skipped.
import_relay-export_relay_example :
    let result =
      import_relay
        (λ e. some json)
        (λ b. some login)
        (λ e. true)
        one_event
        []
        (123 ∷ 125 ∷ 10 ∷ 123 ∷ 125 ∷ 10 ∷ []) in
    (result.0 ≡ login ∷ []) × (result.1.imported + result.1.skipped ≡ 2) × (result.1.errors ≡ 0)
unfolding export_relay export_body offer_all
import_relay-export_relay_example =
    import_relay-export_relay (λ e. some json) (λ b. some login) (λ e. true) one_event
      (login ∷ login ∷ []) (123 ∷ 125 ∷ 10 ∷ 123 ∷ 125 ∷ 10 ∷ []) []
      (login-IsExportable, (login-IsExportable, tt)) refl
