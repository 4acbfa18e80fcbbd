-- ===== src/Gateway/Caddy.antt =====
-- src/gateway.rs: which host names get a certificate, and which router a host name reaches.
use moar.Common.{
  ℕ, Bool, ◌||◌, Option, none, some, [], ◌∷◌, reverse, Bytes, bytes_eq, any, ◌==◌, if◌then◌else◌,
}
use moar.Config.{MoarConfig, RelayConfig, BlossomConfig}
use moar.HashMap.{HashMap, get, insert}
use moar.Gateway.Session.{strip_prefix}

-- `s.strip_suffix(suffix)`
unfoldable pub strip_suffix : Bytes → Bytes → Option Bytes
strip_suffix suffix s = elim (strip_prefix (reverse suffix) (reverse s)) [
  | none ↦ none
  | some rest ↦ some (reverse rest)
]

abbrev pub dot : ℕ
dot = 46

abbrev has_subdomain : MoarConfig → Bytes → Bool
has_subdomain config subdomain =
    any (λ (id, r). bytes_eq r.subdomain subdomain) config.relays
    || any (λ (id, b). bytes_eq b.subdomain subdomain) config.blossoms

-- The status of the answer; `params` is the query's `domain`.
unfoldable pub caddy_ask_handler : Bytes → MoarConfig → Option Bytes → ℕ
unfolding strip_suffix
caddy_ask_handler domain config none = 400
caddy_ask_handler domain config (some asked) =
    if bytes_eq asked domain then 200 else (elim (strip_suffix (dot ∷ domain) asked) [
      | none ↦ 404
      | some subdomain ↦ if has_subdomain config subdomain then 200 else 404
    ])

-- The relays and the media servers, by the subdomains that their routers answer.
pub record Routers : Type 0 where
  pub relay_routers : HashMap RelayConfig
  pub blossom_routers : HashMap BlossomConfig

-- A loop of `start_gateway` that fills the routers, by what gives a service's subdomain.
abbrev pub routers_of : {V : Type 0} → (V → Bytes) → HashMap V → HashMap V → HashMap V
routers_of subdomain [] m = m
routers_of subdomain ((id, config) ∷ rest) m =
    routers_of subdomain rest (insert m (subdomain config) config)

unfoldable pub start_gateway : MoarConfig → Routers
start_gateway config = record {
  relay_routers = routers_of (λ r. r.subdomain) config.relays [];
  blossom_routers = routers_of (λ b. b.subdomain) config.blossoms [];
}

pub data Service : Type 0 where
  admin not_found : Service
  relay : RelayConfig → Service
  blossom : BlossomConfig → Service

abbrev pub localhost : Bytes
localhost = 108 ∷ 111 ∷ 99 ∷ 97 ∷ 108 ∷ 104 ∷ 111 ∷ 115 ∷ 116 ∷ []

-- `host.split(':').next()`
abbrev pub host_name : Bytes → Bytes
host_name [] = []
host_name (c ∷ cs) = if c == 58 then [] else c ∷ host_name cs

-- Without the dot at the end, if there is one.
abbrev pub without_dot : Bytes → Bytes
without_dot s = elim (strip_suffix (dot ∷ []) s) [ none ↦ s | some sub ↦ sub ]

abbrev pub service_at : Routers → Bytes → Service
service_at routers sub = elim (get routers.relay_routers sub) [
  | some config ↦ relay config
  | none ↦ elim (get routers.blossom_routers sub) [
    | some config ↦ blossom config
    | none ↦ not_found
  ]
]

-- The service of a host name without its port.
abbrev pub service_of : Bytes → Routers → Bytes → Service
service_of domain routers hostname =
    if bytes_eq hostname domain || bytes_eq hostname localhost
    then admin
    else (elim (strip_suffix domain hostname) [
      | none ↦ not_found
      | some subdomain ↦ service_at routers (without_dot subdomain)
    ])

unfoldable pub handler : Bytes → Routers → Bytes → Service
handler domain routers host = service_of domain routers (host_name host)
