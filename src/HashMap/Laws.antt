-- ===== src/HashMap/Laws.antt =====
-- What inserts and removals leave in a map, and that they keep one entry for each key.
use moar.Common.{
  ◌≡◌, refl, ◌∙◌, true, false, none, some, [], ◌∷◌, Bytes, if◌then◌else◌, bytes_eq, bytes_eq_refl,
  bytes_eq_iff, Bool-cases, inl, inr, arith,
}
use moar.ConcurrentMap.{lookup-without}
use moar.HashMap.{HashMap, get, insert, remove}

-- One entry for each key.
abbrev pub Distinct : {V : Type 0} → HashMap V → Type 0
Distinct [] = Unit
Distinct ((k, v) ∷ m) = (get m k ≡ none) × Distinct m

module _ {V : Type 0} where
  pub get-remove :
      (m : HashMap V) (k j : Bytes) → get (remove m k) j ≡ (if bytes_eq k j then none else get m j)
  get-remove m k j = lookup-without bytes_eq bytes_eq_iff m k j

  pub get-insert :
      (m : HashMap V) (k j : Bytes) (v : V)
      → get (insert m k v) j ≡ (if bytes_eq k j then some v else get m j)
  get-insert m k j v = let r = get-remove m k j in ground (arith, r)

  pub Distinct-remove : (m : HashMap V) (k : Bytes) → Distinct m → Distinct (remove m k)
  Distinct-remove [] k d = tt
  Distinct-remove ((j, v) ∷ m) k d = elim (Bool-cases (bytes_eq k j)) [
    | inl same ↦ rw same (Distinct-remove m k d.1)
    | inr other ↦ rw other (get-remove m k j ∙ rw other d.0, Distinct-remove m k d.1)
  ]

  pub Distinct-insert : (m : HashMap V) (k : Bytes) (v : V) → Distinct m → Distinct (insert m k v)
  Distinct-insert m k v d = (get-remove m k k ∙ rw (bytes_eq_refl k) refl, Distinct-remove m k d)

  -- At the key of the change, and at another.
  pub get-insert_at :
      (m : HashMap V) (k j : Bytes) (v : V) → bytes_eq k j ≡ true → get (insert m k v) j ≡ some v
  get-insert_at m k j v same = get-insert m k j v ∙ rw same refl

  pub get-insert_off :
      (m : HashMap V) (k j : Bytes) (v : V) → bytes_eq k j ≡ false → get (insert m k v) j ≡ get m j
  get-insert_off m k j v other = get-insert m k j v ∙ rw other refl

  pub get-remove_at :
      (m : HashMap V) (k j : Bytes) → bytes_eq k j ≡ true → get (remove m k) j ≡ none
  get-remove_at m k j same = get-remove m k j ∙ rw same refl

  pub get-remove_off :
      (m : HashMap V) (k j : Bytes) → bytes_eq k j ≡ false → get (remove m k) j ≡ get m j
  get-remove_off m k j other = get-remove m k j ∙ rw other refl
