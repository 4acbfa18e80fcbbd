-- ===== src/Gateway/Validate.antt =====
-- What the checks of a new configuration rule out.
use moar.Common.{
  ◌≡◌, refl, sym, ap, ◌∙◌, inl, inr, true, false, Option, none, some, Bytes, bytes_eq, bytes_eq_sym,
  bytes_eq_refl, true≢false, arith,
}
use moar.Config.{RelayConfig, BlossomConfig, MoarConfig}
use moar.HashMap.{HashMap, get, insert, remove}
use moar.Gateway.Relays.{relay_has, blossom_has, is_excluded, validate_relay_config}
use moar.Gateway.Blossoms.{validate_blossom_config}
use moar.Gateway.Apart.{
  IsFree, insert-IsApart, remove-IsApart, same-IsApart, get-none_pass, get-remove_some,
  get-insert_cases,
}
use moar.Gateway.Sound.{IsRoutable, relay_name, blossom_name}

-- Which ids a check leaves out: none, or the one that is about to be written.
abbrev pub IsOwn : Option Bytes → Bytes → Type 0
IsOwn none id = Unit
IsOwn (some other) id = other ≡ id

pub not_excluded :
    (exclude_id : Option Bytes) (id j : Bytes)
    → IsOwn exclude_id id
    → bytes_eq id j ≡ false
    → is_excluded exclude_id j ≡ false
not_excluded none id j own other = refl
not_excluded (some e) id j own other = ap (bytes_eq j) own ∙ bytes_eq_sym j id ∙ other

same_name : (a b : Bytes) → a ≡ b → bytes_eq b a ≡ true
same_name a b e = ap (bytes_eq b) e ∙ bytes_eq_refl b

pub relay_has-IsFree :
    (rs : HashMap RelayConfig) (exclude_id : Option Bytes) (id name : Bytes)
    → IsOwn exclude_id id
    → relay_has rs exclude_id name ≡ false
    → IsFree relay_name rs id name
unfolding relay_has
relay_has-IsFree rs exclude_id id name own free = record {
  unused = λ j d at_j other same.
      let failed = get-none_pass _ rs j d free at_j in
      absurd (
        true≢false (
          sym (same_name name d.subdomain same)
          ∙ (rw (not_excluded exclude_id id j own other) at failed)));
}

pub blossom_has-IsFree :
    (bs : HashMap BlossomConfig) (exclude_id : Option Bytes) (id name : Bytes)
    → IsOwn exclude_id id
    → blossom_has bs exclude_id name ≡ false
    → IsFree blossom_name bs id name
unfolding blossom_has
blossom_has-IsFree bs exclude_id id name own free = record {
  unused = λ j d at_j other same.
      let failed = get-none_pass _ bs j d free at_j in
      absurd (
        true≢false (
          sym (same_name name d.subdomain same)
          ∙ (rw (not_excluded exclude_id id j own other) at failed)));
}

-- No entry at all has the name.
pub relay_has-none :
    (rs : HashMap RelayConfig) (name : Bytes) (j : Bytes) (d : RelayConfig)
    → relay_has rs none name ≡ false
    → get rs j ≡ some d
    → name ≡ d.subdomain
    → ⊥
unfolding relay_has
relay_has-none rs name j d free at_j same =
    true≢false (sym (same_name name d.subdomain same) ∙ get-none_pass _ rs j d free at_j)

pub blossom_has-none :
    (bs : HashMap BlossomConfig) (name : Bytes) (j : Bytes) (d : BlossomConfig)
    → blossom_has bs none name ≡ false
    → get bs j ≡ some d
    → name ≡ d.subdomain
    → ⊥
unfolding blossom_has
blossom_has-none bs name j d free at_j same =
    true≢false (sym (same_name name d.subdomain same) ∙ get-none_pass _ bs j d free at_j)

pub validate_relay_config-free :
    (config : RelayConfig) (c : MoarConfig) (exclude_id : Option Bytes)
    → validate_relay_config config c exclude_id ≡ true
    → (relay_has c.relays exclude_id config.subdomain ≡ false)
      × (blossom_has c.blossoms none config.subdomain ≡ false)
unfolding validate_relay_config
validate_relay_config-free config c exclude_id h = ground arith

pub validate_blossom_config-free :
    (config : BlossomConfig) (c : MoarConfig) (exclude_id : Option Bytes)
    → validate_blossom_config config c exclude_id ≡ true
    → (blossom_has c.blossoms exclude_id config.subdomain ≡ false)
      × (relay_has c.relays none config.subdomain ≡ false)
unfolding validate_blossom_config
validate_blossom_config-free config c exclude_id h = ground arith

-- A valid relay can be written at its id.
pub insert-relay-IsRoutable :
    (c : MoarConfig) (id : Bytes) (config : RelayConfig) (exclude_id : Option Bytes)
    → IsOwn exclude_id id
    → validate_relay_config config c exclude_id ≡ true
    → IsRoutable c.relays c.blossoms
    → IsRoutable (insert c.relays id config) c.blossoms
insert-relay-IsRoutable c id config exclude_id own valid h =
    let (free, elsewhere) = validate_relay_config-free config c exclude_id valid in
    record {
      relays_apart =
          insert-IsApart relay_name c.relays id config h.relays_apart
            (relay_has-IsFree c.relays exclude_id id config.subdomain own free);
      blossoms_apart = h.blossoms_apart;
      disjoint = λ i j r b at_i at_j same. elim (get-insert_cases c.relays id i config r at_i) [
        | inl (here, is_r) ↦
            blossom_has-none c.blossoms config.subdomain j b elsewhere at_j
              (ap relay_name is_r ∙ same)
        | inr (other, old) ↦ h.disjoint i j r b old at_j same
      ];
    }

pub insert-blossom-IsRoutable :
    (c : MoarConfig) (id : Bytes) (config : BlossomConfig) (exclude_id : Option Bytes)
    → IsOwn exclude_id id
    → validate_blossom_config config c exclude_id ≡ true
    → IsRoutable c.relays c.blossoms
    → IsRoutable c.relays (insert c.blossoms id config)
insert-blossom-IsRoutable c id config exclude_id own valid h =
    let (free, elsewhere) = validate_blossom_config-free config c exclude_id valid in
    record {
      relays_apart = h.relays_apart;
      blossoms_apart =
          insert-IsApart blossom_name c.blossoms id config h.blossoms_apart
            (blossom_has-IsFree c.blossoms exclude_id id config.subdomain own free);
      disjoint = λ i j r b at_i at_j same. elim (get-insert_cases c.blossoms id j config b at_j) [
        | inl (here, is_b) ↦
            relay_has-none c.relays config.subdomain i r elsewhere at_i
              (ap blossom_name is_b ∙ sym same)
        | inr (other, old) ↦ h.disjoint i j r b at_i old same
      ];
    }

pub remove-relay-IsRoutable :
    (c : MoarConfig) (id : Bytes)
    → IsRoutable c.relays c.blossoms
    → IsRoutable (remove c.relays id) c.blossoms
remove-relay-IsRoutable c id h = record {
  relays_apart = remove-IsApart relay_name c.relays id h.relays_apart;
  blossoms_apart = h.blossoms_apart;
  disjoint =
      λ i j r b at_i at_j same. h.disjoint i j r b (get-remove_some c.relays id i r at_i) at_j same;
}

pub remove-blossom-IsRoutable :
    (c : MoarConfig) (id : Bytes)
    → IsRoutable c.relays c.blossoms
    → IsRoutable c.relays (remove c.blossoms id)
remove-blossom-IsRoutable c id h = record {
  relays_apart = h.relays_apart;
  blossoms_apart = remove-IsApart blossom_name c.blossoms id h.blossoms_apart;
  disjoint = λ i j r b at_i at_j same.
      h.disjoint i j r b at_i (get-remove_some c.blossoms id j b at_j) same;
}

-- A rollback has the look-ups of before.
pub same-IsRoutable :
    (rs rs' : HashMap RelayConfig) (bs bs' : HashMap BlossomConfig)
    → ((i : Bytes) → get rs' i ≡ get rs i)
    → ((i : Bytes) → get bs' i ≡ get bs i)
    → IsRoutable rs bs
    → IsRoutable rs' bs'
same-IsRoutable rs rs' bs bs' er eb h = record {
  relays_apart = same-IsApart relay_name rs rs' er h.relays_apart;
  blossoms_apart = same-IsApart blossom_name bs bs' eb h.blossoms_apart;
  disjoint =
      λ i j r b at_i at_j same. h.disjoint i j r b (sym (er i) ∙ at_i) (sym (eb j) ∙ at_j) same;
}
