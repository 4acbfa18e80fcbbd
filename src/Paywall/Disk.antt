-- ===== src/Paywall/Disk.antt =====
-- src/paywall.rs, `save_to_disk` and `load_from_disk`: what the file brings back.
use moar.Common.{
  ℕ, zero, suc, ◌*◌, ◌/◌, ◌%◌, ◌^◌, ◌≤◌, ◌<◌, ◌≡◌, refl, sym, ap, ◌∙◌, true, Option, none, some, [],
  ◌∷◌, ◌++◌, append_assoc, Bytes, length, length-append, take, drop, take_left, drop_left, All, ltb,
  ◌==◌, bytes_eq, bytes_eq→eq, Bool-cases, inl, inr, arith,
}
use moar.Storage.Keys.Order.{capacity}
use moar.HashMap.{get}
use moar.Paywall.{
  PaywallSet, live, contains, to_le_bytes, from_le_bytes, save_to_disk, noted, load_chunks,
  load_from_disk,
}
use moar.HashMap.Laws.{Distinct, get-insert}
use moar.Paywall.Set.{still, still-live}

length-to_le_bytes : (w n : ℕ) → length (to_le_bytes w n) ≡ w
unfolding to_le_bytes
length-to_le_bytes zero n = refl
length-to_le_bytes (suc w) n = ap suc (length-to_le_bytes w (n / 256))

from_le_bytes-to_le_bytes : (w n : ℕ) → n < capacity w → from_le_bytes (to_le_bytes w n) ≡ n
unfolding to_le_bytes from_le_bytes
from_le_bytes-to_le_bytes zero n h = omega arith
from_le_bytes-to_le_bytes (suc w) n h =
    let rest = from_le_bytes-to_le_bytes w (n / 256) (omega arith) in omega (arith, rest)

-- The first entry that is there.
abbrev or_else : Option ℕ → Option ℕ → Option ℕ
or_else none o = o
or_else (some e) o = some e

unset : (o : Option ℕ) → or_else o none ≡ o
unset none = refl
unset (some e) = refl

module _ (from_slice : Bytes → Option Bytes) where
  -- What the types of an entry say, and that its key's bytes read back.
  abbrev pub IsSaved : Bytes × ℕ → Type 0
  IsSaved (pk, e) = (length pk ≡ 32) × (from_slice pk ≡ some pk) × (e < 2 ^ 64)

  length-save_to_disk : (s : PaywallSet) → All IsSaved s → length (save_to_disk s) ≡ 40 * length s
  unfolding save_to_disk
  length-save_to_disk [] h = refl
  length-save_to_disk ((pk, e) ∷ s) h = omega (
    arith,
    length-save_to_disk s h.1,
    length-append pk (to_le_bytes 8 e ++ save_to_disk s),
    length-append (to_le_bytes 8 e) (save_to_disk s),
    length-to_le_bytes 8 e,
    h.0.0,
  )

  -- The entry that a chunk holds.
  chunk_parts :
      (pk : Bytes) (e : ℕ) (rest : Bytes)
      → length pk ≡ 32
      → e < 2 ^ 64
      → (take 32 (pk ++ (to_le_bytes 8 e ++ rest)) ≡ pk)
        × (from_le_bytes (take 8 (drop 32 (pk ++ (to_le_bytes 8 e ++ rest)))) ≡ e)
        × (drop 40 (pk ++ (to_le_bytes 8 e ++ rest)) ≡ rest)
  chunk_parts pk e rest n small = (
    take_left 32 pk (to_le_bytes 8 e ++ rest) n,
    ap (λ r. from_le_bytes (take 8 r)) (drop_left 32 pk (to_le_bytes 8 e ++ rest) n)
        ∙ ap from_le_bytes (take_left 8 (to_le_bytes 8 e) rest (length-to_le_bytes 8 e))
        ∙ from_le_bytes-to_le_bytes 8 e (omega arith),
    ap (drop 40) (sym (append_assoc pk (to_le_bytes 8 e) rest))
        ∙ drop_left 40 (pk ++ to_le_bytes 8 e) rest
            (omega (arith, length-append pk (to_le_bytes 8 e), length-to_le_bytes 8 e, n)),
  )

  load_chunks-step :
      (now n : ℕ) (pk : Bytes) (e : ℕ) (rest : Bytes) (acc : PaywallSet)
      → IsSaved (pk, e)
      → load_chunks from_slice now (suc n) (pk ++ (to_le_bytes 8 e ++ rest)) acc
        ≡ load_chunks from_slice now n rest (noted now (some pk) e acc)
  unfolding load_chunks
  load_chunks-step now n pk e rest acc h =
      let (key, end, after) = chunk_parts pk e rest h.0 h.2 in rw (key, end, after, h.1) refl

  get-load_chunks :
      (now : ℕ) (s acc : PaywallSet) (k : Bytes)
      → Distinct s
      → All IsSaved s
      → get (load_chunks from_slice now (length s) (save_to_disk s) acc) k
        ≡ or_else (still now (get s k)) (get acc k)
  unfolding save_to_disk load_chunks
  get-load_chunks now [] acc k d h = refl
  get-load_chunks now ((pk, e) ∷ s) acc k d h =
      ap (λ m. get m k) (load_chunks-step now (length s) pk e (save_to_disk s) acc h.0)
      ∙ get-load_chunks now s (noted now (some pk) e acc) k d.1 h.1
      ∙ elim (Bool-cases (bytes_eq pk k)) [
        | inl same ↦
            let off : get s k ≡ none = ap (get s) (sym (bytes_eq→eq pk k same)) ∙ d.0 in
            rw (same, off)
              (elim (Bool-cases (ltb now e)) [
                | inl in' ↦ rw in' (get-insert acc pk k e ∙ rw same refl)
                | inr out ↦ rw out refl
              ])
        | inr other ↦ rw other (
            ap (or_else (still now (get s k))) (elim (Bool-cases (ltb now e)) [
              | inl in' ↦ rw in' (get-insert acc pk k e ∙ rw other refl)
              | inr out ↦ rw out refl
            ]))
      ]

  -- Reading the file that was written gives everyone the access that they had, now and later, if
  -- the set has one entry for each key, the keys have 32 bytes and are valid, and the times are
  -- `u64`s.
  pub load_from_disk-save_to_disk :
      (now : ℕ) (s : PaywallSet)
      → Distinct s
      → All IsSaved s
      → (s' : PaywallSet) × (load_from_disk from_slice now (save_to_disk s) ≡ some s')
        × ((x : Bytes) (t : ℕ) → now ≤ t → contains s' x t ≡ contains s x t)
  unfolding load_from_disk contains
  load_from_disk-save_to_disk now s d h =
      let size = length-save_to_disk s h in
      let whole : (length (save_to_disk s) % 40 == 0) ≡ true = ground (arith, size) in
      let count : length (save_to_disk s) / 40 ≡ length s = omega (arith, size) in
      (
        load_chunks from_slice now (length s) (save_to_disk s) [],
        rw (whole, count) refl,
        λ x t later.
            ap (λ o. live o t) (get-load_chunks now s [] x d h ∙ unset (still now (get s x)))
            ∙ still-live (get s x) now t later,
      )
