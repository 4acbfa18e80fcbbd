-- ===== src/Gateway/Routing.antt =====
-- The service that a host name reaches is the one with its subdomain.
use moar.Common.{
  ◌≡◌, refl, sym, ap, ◌∙◌, ◌⊎◌, inl, inr, Bool, true, false, ◌||◌, Option, none, some, [], ◌∷◌,
  ◌++◌, reverse, reverse-reverse, reverse-append, Bytes, bytes_eq, bytes_eq_refl, bytes_eq→eq,
  if◌then◌else◌, Bool-cases, some_inj, none_ne_some, true≢false, ◌==◌, In, subst, arith,
  append_assoc, length, length-append, In-append_right, any, or_left, or_right, ==_iff,
}
use moar.Config.{MoarConfig, RelayConfig, BlossomConfig}
use moar.HashMap.{HashMap, get, insert}
use moar.HashMap.Laws.{Distinct, get-insert_at, get-insert_off}
use moar.Gateway.Apart.{IsApart}
use moar.Gateway.Sound.{IsRoutable, relay_name, blossom_name}
use moar.Gateway.Session.{strip_prefix}
use moar.Gateway.Login.{strip_own_prefix}
use moar.Gateway.Caddy.{
  strip_suffix, dot, handler, host_name, service_at, start_gateway, Service, relay, blossom, admin,
  not_found, service_of, without_dot, routers_of, localhost,
}

strip_own_suffix : (s t : Bytes) → strip_suffix s (t ++ s) ≡ some t
unfolding strip_suffix
strip_own_suffix s t =
    let found : strip_prefix (reverse s) (reverse (t ++ s)) ≡ some (reverse t) =
      ap (strip_prefix (reverse s)) (reverse-append t s)
      ∙ strip_own_prefix (reverse s) (reverse t) in
    ap
      (λ (o : Option Bytes). elim o as (λ x. Option Bytes) [
        | none ↦ none
        | some r ↦ some (reverse r)
      ])
      found
    ∙ ap some (reverse-reverse t)

module _ {V : Type 0} (subdomain : V → Bytes) where
  -- The look-up of a key in the rest of a map with one entry for each key.
  get-rest :
      (j : Bytes) (d : V) (rest : HashMap V) (k : Bytes) (c : V)
      → get rest j ≡ none
      → get rest k ≡ some c
      → get ((j, d) ∷ rest) k ≡ some c
  get-rest j d rest k c alone there = elim (Bool-cases (bytes_eq j k)) [
    | inl same ↦ absurd (none_ne_some (sym alone ∙ (ap (get rest) (bytes_eq→eq j k same) ∙ there)))
    | inr other ↦ rw other there
  ]

  -- A name that no entry has.
  routers-none :
      (rs m : HashMap V) (name : Bytes)
      → Distinct rs
      → ((k : Bytes) (c : V) → get rs k ≡ some c → subdomain c ≡ name → ⊥)
      → get (routers_of subdomain rs m) name ≡ get m name
  routers-none [] m name one nobody = refl
  routers-none ((j, d) ∷ rest) m name one nobody =
      routers-none rest (insert m (subdomain d) d) name one.1
        (λ k c at same. nobody k c (get-rest j d rest k c one.0 at) same)
      ∙ get-insert_off m (subdomain d) name d (differ (Bool-cases (bytes_eq (subdomain d) name)))
    where
      differ :
          (bytes_eq (subdomain d) name ≡ true) ⊎ (bytes_eq (subdomain d) name ≡ false)
          → bytes_eq (subdomain d) name ≡ false
      differ (inl same) =
          absurd (nobody j d (rw (bytes_eq_refl j) refl) (bytes_eq→eq (subdomain d) name same))
      differ (inr other) = other

  -- The name of an entry, where no other has it.
  routers-some :
      (rs m : HashMap V) (id : Bytes) (config : V)
      → Distinct rs
      → IsApart subdomain rs
      → get rs id ≡ some config
      → get (routers_of subdomain rs m) (subdomain config) ≡ some config
  routers-some [] m id config one apart there = absurd (none_ne_some there)
  routers-some ((j, d) ∷ rest) m id config one apart there = elim (Bool-cases (bytes_eq j id)) [
    | inl same ↦
        let here : d ≡ config = some_inj (rw same at there) in
        routers-none rest (insert m (subdomain d) d) (subdomain config) one.1 (λ k c at shared.
          let twin : k ≡ id =
            apart.one_each k id c config (get-rest j d rest k c one.0 at) there shared in
          none_ne_some (sym one.0 ∙ (ap (get rest) (bytes_eq→eq j id same ∙ sym twin) ∙ at)))
        ∙ (get-insert_at m (subdomain d) (subdomain config) d
              (ap (bytes_eq (subdomain d)) (sym (ap subdomain here)) ∙ bytes_eq_refl (subdomain d))
            ∙ ap some here)
    | inr other ↦
        routers-some rest (insert m (subdomain d) d) id config one.1
          (record {
            one_each = λ a b x y at_a at_b shared.
                apart.one_each a b x y (get-rest j d rest a x one.0 at_a)
                  (get-rest j d rest b y one.0 at_b) shared;
          })
          (rw other at there)
  ]

-- The service that has a subdomain.
pub data Owns (config : MoarConfig) (name : Bytes) : Service → Type 0 where
  a_relay :
      (id : Bytes) (r : RelayConfig)
      → get config.relays id ≡ some r
      → r.subdomain ≡ name
      → Owns config name (relay r)
  a_blossom :
      (id : Bytes) (b : BlossomConfig)
      → get config.blossoms id ≡ some b
      → b.subdomain ≡ name
      → Owns config name (blossom b)

-- A configuration as a file gives it: a map has one entry for each id, and no subdomain is shared.
pub record IsServed (config : MoarConfig) : Type 0 where
  pub one_relay : Distinct config.relays
  pub one_blossom : Distinct config.blossoms
  pub routable : IsRoutable config.relays config.blossoms

service_at-Owns :
    (config : MoarConfig) (name : Bytes) (service : Service)
    → IsServed config
    → Owns config name service
    → service_at (start_gateway config) name ≡ service
unfolding start_gateway
service_at-Owns config name service h (a_relay id r there named) =
    let found : get (start_gateway config).relay_routers name ≡ some r =
      ap (get (start_gateway config).relay_routers) (sym named)
      ∙ routers-some relay_name config.relays [] id r h.one_relay h.routable.relays_apart there in
    rw (found, service_at) refl
service_at-Owns config name service h (a_blossom id b there named) =
    let absent : get (start_gateway config).relay_routers name ≡ none =
      routers-none relay_name config.relays [] name h.one_relay
        (λ k r at same. h.routable.disjoint k id r b at there (same ∙ sym named)) in
    let found : get (start_gateway config).blossom_routers name ≡ some b =
      ap (get (start_gateway config).blossom_routers) (sym named)
      ∙ routers-some blossom_name config.blossoms [] id b h.one_blossom h.routable.blossoms_apart
          there in
    rw (absent, service_at) (rw (found, service_at) refl)

longer : (s domain : Bytes) → bytes_eq (s ++ (dot ∷ domain)) domain ≡ false
longer s domain = elim (Bool-cases (bytes_eq (s ++ (dot ∷ domain)) domain)) [
  | inl same ↦
      let size = length-append s (dot ∷ domain) in
      let e = ap length (bytes_eq→eq _ domain same) in absurd (omega arith)
  | inr other ↦ other
]

elem_dot : (xs : Bytes) → In dot xs → any (λ c. dot == c) xs ≡ true
elem_dot [] m = absurd m
elem_dot (x ∷ xs) (inl here) = or_left _ _ ((==_iff dot x).1 here)
elem_dot (x ∷ xs) (inr there) = or_right (dot == x) _ (elem_dot xs there)

no_dot : In dot localhost → ⊥
no_dot m = true≢false (sym (elem_dot localhost m))

dotted : (s domain : Bytes) → bytes_eq (s ++ (dot ∷ domain)) localhost ≡ false
dotted s domain = elim (Bool-cases (bytes_eq (s ++ (dot ∷ domain)) localhost)) [
  | inl same ↦ absurd (
      no_dot (
        subst (In dot) (bytes_eq→eq _ localhost same)
          (In-append_right dot s (dot ∷ domain) (inl refl))))
  | inr other ↦ other
]

neither :
    (s domain : Bytes)
    → (bytes_eq (s ++ (dot ∷ domain)) domain || bytes_eq (s ++ (dot ∷ domain)) localhost) ≡ false
neither s domain = rw (longer s domain) (dotted s domain)

split_off : (s domain : Bytes) → strip_suffix domain (s ++ (dot ∷ domain)) ≡ some (s ++ (dot ∷ []))
split_off s domain =
    ap (strip_suffix domain) (sym (append_assoc s (dot ∷ []) domain))
    ∙ strip_own_suffix domain (s ++ (dot ∷ []))

-- What `handler` does with the name before the domain.
abbrev found_at : MoarConfig → Option Bytes → Service
found_at config none = not_found
found_at config (some subdomain) = service_at (start_gateway config) (without_dot subdomain)

bare : (s : Bytes) → without_dot (s ++ (dot ∷ [])) ≡ s
bare s =
    ap (λ (o : Option Bytes). elim o as (λ x. Bytes) [ none ↦ s ++ (dot ∷ []) | some sub ↦ sub ])
      (strip_own_suffix (dot ∷ []) s)

-- A host name made of a subdomain, a dot and the domain, with or without a port, reaches the relay or
-- the media server whose subdomain it is. The configuration has one entry for each id, and no two of
-- its services share a subdomain.
pub handler-Owns :
    (domain host : Bytes) (config : MoarConfig) (name : Bytes) (service : Service)
    → IsServed config
    → Owns config name service
    → host_name host ≡ name ++ (dot ∷ domain)
    → handler domain (start_gateway config) host ≡ service
unfolding handler
handler-Owns domain host config name service served owned named =
    ap (service_of domain (start_gateway config)) named
    ∙ (ap
          (λ (b : Bool).
            if b then admin else found_at config (strip_suffix domain (name ++ (dot ∷ domain))))
          (neither name domain)
        ∙ (ap (found_at config) (split_off name domain)
            ∙ (ap (service_at (start_gateway config)) (bare name)
                ∙ service_at-Owns config name service served owned)))
