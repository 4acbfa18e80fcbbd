-- ===== src/Common/ByteStrings.antt =====
-- Byte strings: equality and the lexicographic order of `[u8]`.
use Prim.Native.Nat.{ℕ}
use mathlib.Core.Path.{◌≡◌, refl, sym, ap, ◌∙◌}
use mathlib.Core.Logic.{◌↔◌, inl, inr}
use mathlib.Core.Bool.{Bool, true, false, ◌&&◌}
use mathlib.Core.List.{List, [], ◌∷◌}
use native.Mathlib.Omega.{arith}
use moar.Common.Tests.{ltb, ◌==◌, if◌then◌else◌, Bool-cases, or_left, or_right}
use moar.Common.Lists.{any, In}

abbrev pub Bytes : Type 0
Bytes = List ℕ

unfoldable pub bytes_eq : Bytes → Bytes → Bool
bytes_eq [] [] = true
bytes_eq [] (y ∷ ys) = false
bytes_eq (x ∷ xs) [] = false
bytes_eq (x ∷ xs) (y ∷ ys) = (x == y) && bytes_eq xs ys

pub bytes_eq_refl : (xs : Bytes) → bytes_eq xs xs ≡ true
unfolding bytes_eq
bytes_eq_refl [] = refl
bytes_eq_refl (x ∷ xs) = ground (arith, bytes_eq_refl xs)

pub bytes_eq→eq : (xs ys : Bytes) → bytes_eq xs ys ≡ true → xs ≡ ys
unfolding bytes_eq
bytes_eq→eq [] [] h = refl
bytes_eq→eq [] (y ∷ ys) h = cc
bytes_eq→eq (x ∷ xs) [] h = cc
bytes_eq→eq (x ∷ xs) (y ∷ ys) h = ground (arith, bytes_eq→eq xs ys)

pub bytes_eq_iff : (a b : Bytes) → (bytes_eq a b ≡ true) ↔ (a ≡ b)
bytes_eq_iff a b = (bytes_eq→eq a b, λ p. ap (bytes_eq a) (sym p) ∙ bytes_eq_refl a)

pub bytes_eq_sym : (xs ys : Bytes) → bytes_eq xs ys ≡ bytes_eq ys xs
unfolding bytes_eq
bytes_eq_sym [] [] = refl
bytes_eq_sym [] (y ∷ ys) = refl
bytes_eq_sym (x ∷ xs) [] = refl
bytes_eq_sym (x ∷ xs) (y ∷ ys) = ground (arith, bytes_eq_sym xs ys)

-- Whether `a` comes no later than `b` in the order of byte strings.
unfoldable pub lex_leb : Bytes → Bytes → Bool
lex_leb [] ys = true
lex_leb (x ∷ xs) [] = false
lex_leb (x ∷ xs) (y ∷ ys) = if ltb x y then true else ((x == y) && lex_leb xs ys)

pub lex_refl : (xs : Bytes) → lex_leb xs xs ≡ true
unfolding lex_leb
lex_refl [] = refl
lex_refl (x ∷ xs) = ground (arith, lex_refl xs)

pub lex_total : (xs ys : Bytes) → lex_leb xs ys ≡ false → lex_leb ys xs ≡ true
unfolding lex_leb
lex_total [] ys h = cc
lex_total (x ∷ xs) [] h = refl
lex_total (x ∷ xs) (y ∷ ys) h = ground (arith, lex_total xs ys)

pub lex_antisym : (xs ys : Bytes) → lex_leb xs ys ≡ true → lex_leb ys xs ≡ true → xs ≡ ys
unfolding lex_leb
lex_antisym [] [] h k = refl
lex_antisym [] (y ∷ ys) h k = cc
lex_antisym (x ∷ xs) [] h k = cc
lex_antisym (x ∷ xs) (y ∷ ys) h k = ground (arith, lex_antisym xs ys)

pub lex_trans :
    (xs ys zs : Bytes) → lex_leb xs ys ≡ true → lex_leb ys zs ≡ true → lex_leb xs zs ≡ true
unfolding lex_leb
lex_trans [] ys zs h k = refl
lex_trans (x ∷ xs) [] zs h k = cc
lex_trans (x ∷ xs) (y ∷ ys) [] h k = cc
lex_trans (x ∷ xs) (y ∷ ys) (z ∷ zs) h k = ground (arith, lex_trans xs ys zs)

-- Membership, as `contains` of a slice or a set of byte strings.
abbrev pub elem : Bytes → List Bytes → Bool
elem k xs = any (bytes_eq k) xs

pub any-elim :
    (p : Bytes → Bool) (xs : List Bytes)
    → any p xs ≡ true
    → (k : Bytes) × (elem k xs ≡ true) × (p k ≡ true)
any-elim p [] h = cc
any-elim p (x ∷ xs) h = elim (Bool-cases (p x)) [
  | inl here ↦ (x, or_left _ _ (bytes_eq_refl x), here)
  | inr there ↦ let (k, m, q) = any-elim p xs (rw there at h) in (k, or_right (bytes_eq k x) _ m, q)
]

pub any-intro :
    (p : Bytes → Bool) (xs : List Bytes) (k : Bytes)
    → elem k xs ≡ true
    → p k ≡ true
    → any p xs ≡ true
any-intro p [] k h q = h
any-intro p (x ∷ xs) k h q = elim (Bool-cases (bytes_eq k x)) [
  | inl here ↦ or_left _ _ (sym (ap p (bytes_eq→eq k x here)) ∙ q)
  | inr there ↦ or_right (p x) _ (any-intro p xs k (rw there at h) q)
]

pub elem_of_In : (a : Bytes) (xs : List Bytes) → In a xs → elem a xs ≡ true
elem_of_In a [] m = absurd m
elem_of_In a (x ∷ xs) (inl here) = or_left _ _ (ap (bytes_eq a) (sym here) ∙ bytes_eq_refl a)
elem_of_In a (x ∷ xs) (inr there) = or_right (bytes_eq a x) _ (elem_of_In a xs there)

pub In-of_elem : (a : Bytes) (xs : List Bytes) → elem a xs ≡ true → In a xs
In-of_elem a [] h = absurd (ground arith)
In-of_elem a (x ∷ xs) h = elim (Bool-cases (bytes_eq a x)) [
  | inl here ↦ inl (bytes_eq→eq a x here)
  | inr there ↦ inr (In-of_elem a xs (rw there at h))
]
