-- ===== src/Policy.antt =====
-- src/policy.rs: the rules that decide who may write and read.
-- The clock is an argument, in seconds; a hash set is the list of its elements. The Web of Trust
-- and the paywall are what the engine asks of them, `contains`, at the moment of the call.
pub mod Gates
pub mod Challenge
pub mod Pow
mod Tests
use moar.Common.{
  ℕ, zero, suc, ◌+◌, ◌-◌, ◌*◌, ◌%◌, ◌^◌, Bool, true, false, not, ◌&&◌, ◌||◌, Option, none, some,
  List, [], ◌∷◌, Bytes, map, length, any, ltb, leb, ◌==◌, if◌then◌else◌, bytes_eq, elem,
}
use moar.Config.{PolicyConfig, Nip11Config}
use moar.Nostr.{Event, Filter, Tag}

-- The reasons of `PolicyResult::Deny`, with the numbers that its message shows.
pub data DenyReason : Type 0 where
  not_on_write_list not_in_wot write_payment_required pubkey_blocked no_approved_tag too_far_past :
      DenyReason
  too_far_future not_on_read_list read_payment_required : DenyReason
  kind_not_allowed kind_blocked : ℕ → DenyReason
  content_too_long insufficient_pow too_many_tags : ℕ → ℕ → DenyReason

pub data PolicyResult : Type 0 where
  allow : PolicyResult
  deny : DenyReason → PolicyResult
  auth_required : PolicyResult

abbrev pub is_allowed : PolicyResult → Bool
is_allowed allow = true
is_allowed (deny r) = false
is_allowed auth_required = false

-- An early return ends the function; otherwise the next check decides.
infixr 4 ◌>>◌
abbrev pub ◌>>◌ : PolicyResult → PolicyResult → PolicyResult
allow >> r = r
deny d >> r = deny d
auth_required >> r = auth_required

-- One byte of `leading_zeros`.
unfoldable pub leading_zeros : ℕ → ℕ
leading_zeros b =
    if ltb b 1
    then 8
    else if ltb b 2
    then 7
    else if ltb b 4
    then 6
    else if ltb b 8
    then 5
    else if ltb b 16
    then 4
    else if ltb b 32
    then 3
    else if ltb b 64
    then 2
    else if ltb b 128
    then 1
    else 0

-- `count` is a `u8`, whose overflow wraps in a release build.
unfoldable pub count_zero_bits : ℕ → Bytes → ℕ
unfolding leading_zeros
count_zero_bits count [] = count
count_zero_bits count (b ∷ bytes) =
    let rest = count_zero_bits ((count + 8) % 2 ^ 8) bytes in
    if b == 0 then rest else (count + leading_zeros b) % 2 ^ 8

unfoldable pub leading_zero_bits : Bytes → ℕ
unfolding count_zero_bits
leading_zero_bits bytes = count_zero_bits 0 bytes

-- What the engine asks of a `WotSet` or a `PaywallSet`.
abbrev pub Membership : Type 0
Membership = Bytes → Bool

pub record PolicyEngine : Type 0 where
  pub config : PolicyConfig
  pub nip11 : Nip11Config
  pub write_allowed : Option (List Bytes)
  pub write_blocked : Option (List Bytes)
  pub write_tagged : Option (List Bytes)
  pub read_allowed : Option (List Bytes)
  pub allowed_kinds : Option (List ℕ)
  pub blocked_kinds : Option (List ℕ)
  pub write_wot : Option Membership
  pub read_wot : Option Membership
  pub write_paywall : Option Membership
  pub read_paywall : Option Membership

abbrev pub map_option {ℓ κ} : {A : Type ℓ} {B : Type κ} → (A → B) → Option A → Option B
map_option f none = none
map_option f (some a) = some (f a)

-- A check of an absent rule passes.
abbrev pub if_some {ℓ} : {A : Type ℓ} → Option A → (A → PolicyResult) → PolicyResult
if_some none check = allow
if_some (some a) check = check a

abbrev pub deny_if : Bool → DenyReason → PolicyResult
deny_if b reason = if b then deny reason else allow

abbrev pub reader_gate : Option Bytes → Membership → DenyReason → PolicyResult
reader_gate none contains reason = auth_required
reader_gate (some pk) contains reason = if contains pk then allow else deny reason

unfoldable pub can_read : PolicyEngine → Filter → Option Bytes → PolicyResult
can_read p filter authed_pubkey =
    (if p.config.read.require_auth
      then (elim authed_pubkey [ none ↦ auth_required | some pk ↦ allow ])
      else allow)
    >> if_some p.read_allowed (λ allowed. elim authed_pubkey [
      | none ↦ deny not_on_read_list
      | some pk ↦ if elem pk allowed then allow else deny not_on_read_list
    ])
    >> if_some p.read_wot (λ contains. reader_gate authed_pubkey contains not_in_wot)
    >> if_some p.read_paywall (λ contains. reader_gate authed_pubkey contains read_payment_required)

-- `parse_key` is `PublicKey::from_str`, then `PublicKey::parse` if that fails.
module _ (parse_key : Bytes → Option Bytes) where
  unfoldable pub parse_pubkeys : List Bytes → List Bytes
  parse_pubkeys [] = []
  parse_pubkeys (key ∷ keys) = elim (parse_key key) [
    | none ↦ parse_pubkeys keys
    | some pk ↦ pk ∷ parse_pubkeys keys
  ]

  -- `PolicyEngine::new`. A kind is cut to 16 bits.
  unfoldable pub new_engine :
      PolicyConfig
      → Nip11Config
      → Option Membership
      → Option Membership
      → Option Membership
      → Option Membership
      → PolicyEngine
  unfolding parse_pubkeys
  new_engine config nip11 write_wot read_wot write_paywall read_paywall = record {
    config = config;
    nip11 = nip11;
    write_allowed = map_option parse_pubkeys config.write.allowed_pubkeys;
    write_blocked = map_option parse_pubkeys config.write.blocked_pubkeys;
    write_tagged = map_option parse_pubkeys config.write.tagged_pubkeys;
    read_allowed = map_option parse_pubkeys config.read.allowed_pubkeys;
    allowed_kinds = map_option (map (λ k. k % 2 ^ 16)) config.events.allowed_kinds;
    blocked_kinds = map_option (map (λ k. k % 2 ^ 16)) config.events.blocked_kinds;
    write_wot = write_wot;
    read_wot = read_wot;
    write_paywall = write_paywall;
    read_paywall = read_paywall;
  }

  -- Whether a tag is a `p` tag of an approved key.
  abbrev pub tags_approved : List Bytes → Tag → Bool
  tags_approved tagged [] = false
  tags_approved tagged (name ∷ []) = false
  tags_approved tagged (name ∷ value ∷ rest) =
      if bytes_eq name (b'p' ∷ [])
      then (elim (parse_key value) [ none ↦ false | some pk ↦ elem pk tagged ])
      else false

  unfoldable pub can_write : PolicyEngine → Event → Option Bytes → ℕ → PolicyResult
  can_write p event authed_pubkey now =
      (if p.config.write.require_auth
        then (elim authed_pubkey [ none ↦ auth_required | some pk ↦ allow ])
        else allow)
      >> if_some p.write_allowed
          (λ allowed. deny_if (not (elem event.pubkey allowed)) not_on_write_list)
      >> if_some p.write_wot (λ contains. deny_if (not (contains event.pubkey)) not_in_wot)
      >> if_some p.write_paywall
          (λ contains. deny_if (not (contains event.pubkey)) write_payment_required)
      >> if_some p.write_blocked (λ blocked. deny_if (elem event.pubkey blocked) pubkey_blocked)
      >> if_some p.write_tagged
          (λ tagged. deny_if (not (any (tags_approved tagged) event.tags)) no_approved_tag)
      >> if_some p.allowed_kinds
          (λ kinds. deny_if (not (any (λ k. event.kind == k) kinds)) (kind_not_allowed event.kind))
      >> if_some p.blocked_kinds
          (λ kinds. deny_if (any (λ k. event.kind == k) kinds) (kind_blocked event.kind))
      >> if_some p.config.events.max_content_length (λ max_len.
        deny_if (ltb max_len (length event.content))
          (content_too_long (length event.content) max_len))
      >> if_some p.config.events.min_pow (λ min_pow.
        deny_if (ltb (leading_zero_bits event.id) min_pow)
          (insufficient_pow (leading_zero_bits event.id) min_pow))
      >> if_some p.nip11.max_event_tags (λ max_tags.
        deny_if (ltb max_tags (length event.tags)) (too_many_tags (length event.tags) max_tags))
      >> if_some p.nip11.created_at_lower_limit
          (λ lower. deny_if (ltb event.created_at (now - lower)) too_far_past)
      >> if_some p.nip11.created_at_upper_limit
          (λ upper. deny_if (ltb ((now + upper) % 2 ^ 64) event.created_at) too_far_future)
