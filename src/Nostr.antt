-- ===== src/Nostr.antt =====
-- What the code reads of the `nostr` crate's types. The crate is not part of the repository: a
-- record here has the fields that the code reads, as plain values, and parsing is a parameter.
-- A `String` is its UTF-8 bytes, an event id and a public key their 32 bytes, a `Timestamp` and a
-- `Kind` their numbers.
use moar.Common.{ℕ, ◌^◌, ◌≡◌, ◌<◌, Option, List, Bytes, length, All}

abbrev pub Tag : Type 0
Tag = List Bytes

pub record Event : Type 0 where
  pub id : Bytes
  pub pubkey : Bytes
  pub created_at : ℕ
  pub kind : ℕ
  pub tags : List Tag
  pub content : Bytes

-- The letter of a generic tag is one ASCII character.
pub record Filter : Type 0 where
  pub ids : Option (List Bytes)
  pub authors : Option (List Bytes)
  pub kinds : Option (List ℕ)
  pub since : Option ℕ
  pub until : Option ℕ
  pub limit : Option ℕ
  pub generic_tags : List (ℕ × List Bytes)

abbrev pub AreBytes : Bytes → Type 0
AreBytes = All (λ b. b < 256)

-- What the Rust types of an event say of its fields.
pub record IsEvent (e : Event) : Type 0 where
  pub id_length : length e.id ≡ 32
  pub id_bytes : AreBytes e.id
  pub pubkey_length : length e.pubkey ≡ 32
  pub created_at_u64 : e.created_at < 2 ^ 64
  pub kind_u16 : e.kind < 2 ^ 16
