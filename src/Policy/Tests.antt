-- ===== src/Policy/Tests.antt =====
-- The policy at concrete inputs; a key parses to itself if it has 32 bytes.
use moar.Common.{
  ◌<◌, ◌≡◌, ◌↔◌, refl, arith, true, false, Option, none, some, [], ◌∷◌, Bytes, length, replicate,
  ◌==◌, if◌then◌else◌,
}
use moar.Config.{
  PolicyConfig, default_policy, default_write, default_read, default_events, default_nip11,
}
use moar.Nostr.{Event, Filter}
use moar.Policy.{
  allow, auth_required, PolicyEngine, new_engine, leading_zero_bits, can_write, can_read,
}
use moar.Policy.Gates.{MayWrite, MayRead, ◌&&&◌, can_write_lem, can_read_lem, can_read-anonymous}
use moar.Policy.Challenge.{can_write-auth_required}
use moar.Policy.Pow.{IsZeroBits, leading_zero_bits_lem}
use moar.Storage.Keys.{from_be_bytes}

abbrev parse : Bytes → Option Bytes
parse key = if length key == 32 then some key else none

abbrev alice : Bytes
alice = replicate 32 0xa1

abbrev nobody : Option Bytes
nobody = none

abbrev strict : PolicyConfig
strict = record default_policy {
  write = record default_write { require_auth = true; allowed_pubkeys = some (alice ∷ [] ∷ []) };
  read = record default_read { allowed_pubkeys = some (alice ∷ []) };
  events = record default_events { blocked_kinds = some (4 ∷ []); min_pow = some 8 };
}

abbrev engine : PolicyEngine
engine = new_engine parse strict default_nip11 none none none none

abbrev note : Event
note = record {
  id = 0 ∷ replicate 31 0x80;
  pubkey = alice;
  created_at = 1700000000;
  kind = 1;
  tags = [];
  content = [];
}

abbrev everything : Filter
everything = record {
  ids = none;
  authors = none;
  kinds = none;
  since = none;
  until = none;
  limit = none;
  generic_tags = [];
}

can_write_lem_example :
    (can_write parse engine note (some alice) 1700000100 ≡ allow)
    ↔ MayWrite parse engine note (some alice) 1700000100
can_write_lem_example = can_write_lem parse engine note (some alice) 1700000100

can_write-auth_required_example :
    (can_write parse engine note nobody 1700000100 ≡ auth_required)
    ↔ ((engine.config.write.require_auth ≡ true) × (nobody ≡ none))
can_write-auth_required_example = can_write-auth_required parse engine note nobody 1700000100

can_read_lem_example :
    (can_read engine everything (some alice) ≡ allow) ↔ MayRead engine (some alice)
can_read_lem_example = can_read_lem engine everything (some alice)

can_read-anonymous_example : (can_read engine everything none ≡ allow) ↔ (
    (engine.config.read.require_auth ≡ false)
    &&& (engine.read_allowed ≡ none)
    &&& (engine.read_wot ≡ none)
    &&& (engine.read_paywall ≡ none))
can_read-anonymous_example = can_read-anonymous engine everything

leading_zero_bits_lem_example :
    (leading_zero_bits note.id < 256)
    × IsZeroBits (leading_zero_bits note.id) (from_be_bytes 0 note.id) (length note.id)
unfolding from_be_bytes
leading_zero_bits_lem_example = leading_zero_bits_lem note.id (omega arith) refl (omega arith)
