-- ===== src/ConcurrentMap.antt =====
-- What the code relies on of the `dashmap` crate's `DashMap`: a map whose operations are atomic.
-- The crate is not part of the repository, so the tracker takes it as a parameter.
use moar.Common.{
  Bool, true, Option, none, some, List, [], ◌∷◌, ◌≡◌, ◌↔◌, refl, if◌then◌else◌, arith,
}

-- `retain` keeps an entry if and only if the test holds of its value.
abbrev pub retained : {V : Type 0} → (V → Bool) → Option V → Option V
retained p none = none
retained p (some v) = if p v then some v else none

pub record DashMap (K V : Type 0) (key_eq : K → K → Bool) : Type 1 where
  pub Table : Type 0
  pub empty : Table
  pub get : Table → K → Option V
  pub insert : Table → K → V → Table
  pub remove : Table → K → Table
  pub retain : Table → (V → Bool) → Table
  pub get-empty : (k : K) → get empty k ≡ none
  pub get-insert :
      (t : Table) (k j : K) (v : V)
      → get (insert t k v) j ≡ (if key_eq k j then some v else get t j)
  pub get-remove :
      (t : Table) (k j : K) → get (remove t k) j ≡ (if key_eq k j then none else get t j)
  pub get-retain : (t : Table) (p : V → Bool) (j : K) → get (retain t p) j ≡ retained p (get t j)

-- A map that meets the laws: an association list whose first entry for a key counts.
module _ {K V : Type 0} (key_eq : K → K → Bool) where
  abbrev pub lookup : List (K × V) → K → Option V
  lookup [] k = none
  lookup ((j, v) ∷ t) k = if key_eq j k then some v else lookup t k

  abbrev pub without : List (K × V) → K → List (K × V)
  without [] k = []
  without ((j, v) ∷ t) k = if key_eq k j then without t k else (j, v) ∷ without t k

  -- An entry that is hidden by an earlier one must not come back: it goes too.
  abbrev pub retain : List (K × V) → (V → Bool) → List (K × V)
  retain [] p = []
  retain ((j, v) ∷ t) p = if p v then (j, v) ∷ retain t p else without (retain t p) j

  module _ (key_eq_iff : (a b : K) → (key_eq a b ≡ true) ↔ (a ≡ b)) where
    pub lookup-without :
        (t : List (K × V)) (k j : K)
        → lookup (without t k) j ≡ (if key_eq k j then none else lookup t j)
    lookup-without [] k j = ground arith
    lookup-without ((i, v) ∷ t) k j =
        ground (arith, lookup-without t k j, key_eq_iff k i, key_eq_iff i j, key_eq_iff k j)

    pub lookup-retain :
        (t : List (K × V)) (p : V → Bool) (j : K) → lookup (retain t p) j ≡ retained p (lookup t j)
    lookup-retain [] p j = refl
    lookup-retain ((i, v) ∷ t) p j =
        ground (arith, lookup-retain t p j, lookup-without (retain t p) i j)

    abbrev pub assoc_map : DashMap K V key_eq
    assoc_map = record {
      Table = List (K × V);
      empty = [];
      get = lookup;
      insert = λ t k v. (k, v) ∷ t;
      remove = without;
      retain = retain;
      get-empty = λ k. refl;
      get-insert = λ t k j v. refl;
      get-remove = lookup-without;
      get-retain = lookup-retain;
    }
