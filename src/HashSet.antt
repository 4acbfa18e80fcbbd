-- ===== src/HashSet.antt =====
-- The standard library's `HashSet` of byte strings: the list of its elements. The order in which a
-- loop meets them is theirs in the list.
use moar.Common.{
  ◌≡◌, refl, ◌⊎◌, inl, inr, List, [], ◌∷◌, Bytes, if◌then◌else◌, elem, In, In-of_elem, Bool-cases,
}

abbrev pub HashSet : Type 0
HashSet = List Bytes

unfoldable pub insert : HashSet → Bytes → HashSet
insert s k = if elem k s then s else k ∷ s

unfoldable pub extend : HashSet → List Bytes → HashSet
unfolding insert
extend s [] = s
extend s (k ∷ ks) = extend (insert s k) ks

pub In-insert_new : (s : HashSet) (k : Bytes) → In k (insert s k)
unfolding insert
In-insert_new s k = elim (Bool-cases (elem k s)) [
  | inl old ↦ rw old (In-of_elem k s old)
  | inr new ↦ rw new (inl refl)
]

pub In-insert_old : (s : HashSet) (k x : Bytes) → In x s → In x (insert s k)
unfolding insert
In-insert_old s k x m = elim (Bool-cases (elem k s)) [
  | inl old ↦ rw old m
  | inr new ↦ rw new (inr m)
]

pub In-insert : (s : HashSet) (k x : Bytes) → In x (insert s k) → (x ≡ k) ⊎ In x s
unfolding insert
In-insert s k x m = elim (Bool-cases (elem k s)) [
  | inl old ↦ inr (rw old at m)
  | inr new ↦ rw new at m
]

pub In-extend_old : (s : HashSet) (ks : List Bytes) (x : Bytes) → In x s → In x (extend s ks)
unfolding extend
In-extend_old s [] x m = m
In-extend_old s (k ∷ ks) x m = In-extend_old (insert s k) ks x (In-insert_old s k x m)

pub In-extend_new : (s : HashSet) (ks : List Bytes) (x : Bytes) → In x ks → In x (extend s ks)
unfolding extend
In-extend_new s [] x m = absurd m
In-extend_new s (k ∷ ks) x (inl here) =
    In-extend_old (insert s k) ks x (rw here (In-insert_new s k))
In-extend_new s (k ∷ ks) x (inr there) = In-extend_new (insert s k) ks x there

pub In-extend : (s : HashSet) (ks : List Bytes) (x : Bytes) → In x (extend s ks) → In x s ⊎ In x ks
unfolding extend
In-extend s [] x m = inl m
In-extend s (k ∷ ks) x m = elim (In-extend (insert s k) ks x m) [
  | inl before ↦ elim (In-insert s k x before) [ inl here ↦ inr (inl here) | inr old ↦ inl old ]
  | inr later ↦ inr (inr later)
]
