-- ===== src/Wot/Disk.antt =====
-- src/wot.rs: the file of a Web of Trust, its keys' 32 bytes one after another.
use moar.Common.{
  ℕ, zero, suc, ◌*◌, ◌/◌, ◌%◌, ◌≡◌, refl, sym, subst, ◌⊎◌, inl, inr, ◌↔◌, true, Option, none, some,
  [], ◌∷◌, ◌++◌, Bytes, length, take, drop, All, In, ◌==◌, ==_iff, if◌then◌else◌, length-append,
  take_left, drop_left, arith,
}
use moar.HashSet.{HashSet, insert, In-insert, In-insert_new, In-insert_old}

unfoldable pub save_pubkeys_to_disk : HashSet → Bytes
save_pubkeys_to_disk [] = []
save_pubkeys_to_disk (pk ∷ pks) = pk ++ save_pubkeys_to_disk pks

-- `from_slice` is `PublicKey::from_slice`.
module _ (from_slice : Bytes → Option Bytes) where
  -- A chunk that is no valid key is left out.
  abbrev taken : HashSet → Option Bytes → HashSet
  taken set none = set
  taken set (some pk) = insert set pk

  -- The loop over so many chunks.
  unfoldable pub load_chunks : ℕ → Bytes → HashSet → HashSet
  load_chunks zero raw set = set
  load_chunks (suc n) raw set = load_chunks n (drop 32 raw) (taken set (from_slice (take 32 raw)))

  -- `none` is the error of a file of a wrong size.
  unfoldable pub load_pubkeys_from_disk : Bytes → Option HashSet
  unfolding load_chunks
  load_pubkeys_from_disk raw =
      if length raw % 32 == 0 then some (load_chunks (length raw / 32) raw []) else none

  -- What the type of a key says: 32 bytes that parse to it.
  pub record IsKey (pk : Bytes) : Type 0 where
    pub key_length : length pk ≡ 32
    pub parses : from_slice pk ≡ some pk

  saved_length :
      (set : HashSet) → All IsKey set → length (save_pubkeys_to_disk set) ≡ 32 * length set
  unfolding save_pubkeys_to_disk
  saved_length [] keys = omega arith
  saved_length (pk ∷ pks) keys = omega (
    arith,
    length-append pk (save_pubkeys_to_disk pks),
    keys.0.key_length,
    saved_length pks keys.1,
  )

  load_one :
      (n : ℕ) (pk rest : Bytes) (found : HashSet)
      → IsKey pk
      → load_chunks (suc n) (pk ++ rest) found ≡ load_chunks n rest (insert found pk)
  unfolding load_chunks
  load_one n pk rest found key =
      rw (take_left 32 pk rest key.key_length, load_chunks)
        (rw (drop_left 32 pk rest key.key_length, load_chunks) (rw (key.parses, load_chunks) refl))

  load_chunks-save :
      (set found : HashSet)
      → All IsKey set
      → (x : Bytes)
      → (In x (load_chunks (length set) (save_pubkeys_to_disk set) found)) ↔ (In x set ⊎ In x found)
  unfolding save_pubkeys_to_disk load_chunks
  load_chunks-save [] found keys x = (λ m. inr m, λ m. elim m [ inl m ↦ absurd m | inr m ↦ m ])
  load_chunks-save (pk ∷ pks) found keys x =
      let rest = save_pubkeys_to_disk pks in
      let one = load_one (length pks) pk rest found keys.0 in
      let (into, from) = load_chunks-save pks (insert found pk) keys.1 x in
      (
        λ m. elim (into (subst (In x) one m)) [
          | inl later ↦ inl (inr later)
          | inr before ↦ elim (In-insert found pk x before) [
            | inl here ↦ inl (inl here)
            | inr old ↦ inr old
          ]
        ],
        λ m. subst (In x) (sym one) (
            from (elim m [
              | inl (inl here) ↦ inr (rw here (In-insert_new found pk))
              | inl (inr later) ↦ inl later
              | inr old ↦ inr (In-insert_old found pk x old)
            ])),
      )

  -- A set of valid keys that is saved and loaded again has the same keys.
  pub load_pubkeys-save :
      (set : HashSet)
      → All IsKey set
      → (loaded : HashSet) × (load_pubkeys_from_disk (save_pubkeys_to_disk set) ≡ some loaded)
        × ((x : Bytes) → (In x loaded) ↔ (In x set))
  unfolding load_pubkeys_from_disk
  load_pubkeys-save set keys =
      let raw = save_pubkeys_to_disk set in
      let size : length raw ≡ 32 * length set = saved_length set keys in
      let whole : (length raw % 32 == 0) ≡ true = (==_iff (length raw % 32) 0).1 (omega arith) in
      let count : length raw / 32 ≡ length set = omega arith in
      (
        load_chunks (length set) raw [],
        rw whole (rw count refl),
        λ x. (
          λ m. elim ((load_chunks-save set [] keys x).0 m) [ inl m ↦ m | inr m ↦ absurd m ],
          λ m. (load_chunks-save set [] keys x).1 (inl m),
        ),
      )
