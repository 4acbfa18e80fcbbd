-- ===== src/Storage/Heed.antt =====
-- What the store relies on of the crates below it, which are not part of the repository.
-- `heed`, the binding of LMDB: an ordered map from byte strings, whose range is read in the
-- lexicographic order of the keys with both bounds included. A key has 1 to 511 bytes, and a put of
-- another one is an error; faults of the disk and a full map are not modelled.
-- `serde_json`: an event's bytes, which read back as the event.
use moar.Common.{
  ◌<◌, ◌≤◌, ◌≡◌, true, false, ◌&&◌, Option, none, some, List, [], ◌∷◌, Bytes, length, if◌then◌else◌,
  bytes_eq, lex_leb, elem, is_some, All,
}
use moar.Nostr.{Event}

-- Strictly ascending.
abbrev pub Ascending : List Bytes → Type 0
Ascending [] = Unit
Ascending (k ∷ ks) = All (λ j. (lex_leb k j ≡ true) × (bytes_eq k j ≡ false)) ks × Ascending ks

pub record Database (V : Type 0) : Type 1 where
  pub Table : Type 0
  pub empty : Table
  pub get : Table → Bytes → Option V
  pub put : Table → Bytes → V → Option Table
  pub delete : Table → Bytes → Table
  pub range : Table → Bytes → Bytes → List Bytes
  pub get-empty : (k : Bytes) → get empty k ≡ none
  pub put_fits :
      (t : Table) (k : Bytes) (v : V)
      → 0 < length k
      → length k ≤ 511
      → (t' : Table) × (put t k v ≡ some t')
  pub put_long : (t : Table) (k : Bytes) (v : V) → 511 < length k → put t k v ≡ none
  pub get-put :
      (t t' : Table) (k j : Bytes) (v : V)
      → put t k v ≡ some t'
      → get t' j ≡ (if bytes_eq k j then some v else get t j)
  pub get-delete :
      (t : Table) (k j : Bytes) → get (delete t k) j ≡ (if bytes_eq k j then none else get t j)
  pub elem-range :
      (t : Table) (lo hi k : Bytes)
      → elem k (range t lo hi) ≡ (is_some (get t k) && (lex_leb lo k && lex_leb k hi))
  pub range-Ascending : (t : Table) (lo hi : Bytes) → Ascending (range t lo hi)

pub record Serde : Type 0 where
  pub to_vec : Event → Bytes
  pub from_slice : Bytes → Option Event
  pub from_slice-to_vec : (e : Event) → from_slice (to_vec e) ≡ some e

pub record Backend : Type 1 where
  pub events : Database Bytes
  pub index : Database (Unit {0})
  pub serde : Serde
