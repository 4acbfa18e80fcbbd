-- ===== src/Storage/Keys.antt =====
-- src/storage/lmdb.rs, the keys of the store's indices and the bounds of its range scans.
pub mod Order
pub mod Ranges
use moar.Common.{
  ℕ, zero, suc, ◌+◌, ◌*◌, ◌-◌, ◌/◌, ◌%◌, Bytes, List, [], ◌∷◌, ◌++◌, take, drop, replicate, length,
}
use moar.Nostr.{Event}

-- `to_be_bytes` of an unsigned integer of `w` bytes.
unfoldable pub to_be_bytes : ℕ → ℕ → Bytes
to_be_bytes zero n = []
to_be_bytes (suc w) n = to_be_bytes w (n / 256) ++ n % 256 ∷ []

-- `from_be_bytes`.
unfoldable pub from_be_bytes : ℕ → Bytes → ℕ
from_be_bytes acc [] = acc
from_be_bytes acc (b ∷ bs) = from_be_bytes (acc * 256 + b) bs

abbrev pub u64_bytes : ℕ → Bytes
u64_bytes = to_be_bytes 8

abbrev pub u16_bytes : ℕ → Bytes
u16_bytes = to_be_bytes 2

-- `key[from..to]`.
abbrev pub slice : ℕ → ℕ → Bytes → Bytes
slice from to key = take (to - from) (drop from key)

abbrev pub created_key_len : ℕ
created_key_len = 8 + 32

abbrev pub author_key_len : ℕ
author_key_len = 32 + 8 + 32

abbrev pub kind_key_len : ℕ
kind_key_len = 2 + 8 + 32

abbrev pub author_kind_key_len : ℕ
author_kind_key_len = 32 + 2 + 8 + 32

-- The arrays are filled slice by slice, without a gap.
unfoldable pub encode_created_key : Event → Bytes
encode_created_key event = u64_bytes event.created_at ++ event.id

unfoldable pub encode_author_key : Event → Bytes
encode_author_key event = event.pubkey ++ (u64_bytes event.created_at ++ event.id)

unfoldable pub encode_kind_key : Event → Bytes
encode_kind_key event = u16_bytes event.kind ++ (u64_bytes event.created_at ++ event.id)

unfoldable pub encode_author_kind_key : Event → Bytes
encode_author_kind_key event =
    (event.pubkey ++ u16_bytes event.kind) ++ (u64_bytes event.created_at ++ event.id)

unfoldable pub encode_tag_key : Bytes → Bytes → Event → Bytes
encode_tag_key tag_key tag_val event =
    (tag_key ++ 0 ∷ (tag_val ++ 0 ∷ [])) ++ (u64_bytes event.created_at ++ event.id)

-- A scan's bounds: what the index fixes, then the first and the last timestamp, then the least
-- and the greatest id.
abbrev pub range_start : Bytes → ℕ → Bytes
range_start fixed since_ts = fixed ++ (u64_bytes since_ts ++ replicate 32 0x00)

abbrev pub range_end : Bytes → ℕ → Bytes
range_end fixed until_ts = fixed ++ (u64_bytes until_ts ++ replicate 32 0xff)

-- The bounds of `make_author_kind_range_start` and `make_author_kind_range_end`.
unfoldable pub make_author_kind_range_start : Bytes → ℕ → Bytes
make_author_kind_range_start pubkey kind = (pubkey ++ u16_bytes kind) ++ replicate 40 0x00

unfoldable pub make_author_kind_range_end : Bytes → ℕ → Bytes
make_author_kind_range_end pubkey kind = (pubkey ++ u16_bytes kind) ++ replicate 40 0xff
