-- ===== src/Wot/Spread.antt =====
-- Every key of a layer is asked for: it stands in a batch, and each batch goes to a relay.
use moar.Common.{
  ℕ, zero, suc, ◌%◌, ◌≤◌, ◌<◌, ◌≡◌, refl, ◌⊎◌, inl, inr, ◌==◌, ==_iff, some, List, [], ◌∷◌, Bytes,
  length, take, drop, In, In-append, In-append_left, In-append_right, Bool-cases, arith,
}
use moar.Wot.Build.{chunks, push, distribute, url_at}

In-take : {A : Type 0} (a : A) (n : ℕ) (xs : List A) → In a (take n xs) → In a xs
In-take a zero xs m = absurd m
In-take a (suc n) [] m = m
In-take a (suc n) (x ∷ xs) (inl here) = inl here
In-take a (suc n) (x ∷ xs) (inr there) = inr (In-take a n xs there)

In-drop : {A : Type 0} (a : A) (n : ℕ) (xs : List A) → In a (drop n xs) → In a xs
In-drop a zero xs m = m
In-drop a (suc n) [] m = m
In-drop a (suc n) (x ∷ xs) m = inr (In-drop a n xs m)

In-take_or_drop :
    {A : Type 0} (a : A) (n : ℕ) (xs : List A) → In a xs → In a (take n xs) ⊎ In a (drop n xs)
In-take_or_drop a zero xs m = inr m
In-take_or_drop a (suc n) [] m = absurd m
In-take_or_drop a (suc n) (x ∷ xs) (inl here) = inl (inl here)
In-take_or_drop a (suc n) (x ∷ xs) (inr there) = elim (In-take_or_drop a n xs there) [
  | inl l ↦ inl (inr l)
  | inr r ↦ inr r
]

length-drop-le : {A : Type 0} (n : ℕ) (xs : List A) → length (drop n xs) ≤ length xs
length-drop-le zero xs = omega arith
length-drop-le (suc n) [] = omega arith
length-drop-le (suc n) (x ∷ xs) = omega (arith, length-drop-le n xs)

pub In-chunks_lem :
    (n size : ℕ) (xs : List Bytes) (batch : List Bytes) (a : Bytes)
    → In batch (chunks n size xs)
    → In a batch
    → In a xs
unfolding chunks
In-chunks_lem zero size xs batch a m k = absurd m
In-chunks_lem (suc n) size [] batch a m k = absurd m
In-chunks_lem (suc n) size (x ∷ xs) batch a (inl here) k = In-take a size (x ∷ xs) (rw here at k)
In-chunks_lem (suc n) size (x ∷ xs) batch a (inr there) k =
    In-drop a size (x ∷ xs) (In-chunks_lem n size (drop size (x ∷ xs)) batch a there k)

pub In-chunks :
    (n size : ℕ) (xs : List Bytes) (a : Bytes)
    → length xs ≤ n
    → In a xs
    → (batch : List Bytes) × In batch (chunks n (suc size) xs) × In a batch
unfolding chunks
In-chunks n size [] a fits m = absurd m
In-chunks zero size (x ∷ xs) a fits m = absurd (omega arith)
In-chunks (suc n) size (x ∷ xs) a fits m = elim (In-take_or_drop a (suc size) (x ∷ xs) m) [
  | inl now ↦ (x ∷ take size xs, inl refl, now)
  | inr later ↦
      let (batch, k, j) =
        In-chunks n size (drop size xs) a (omega (arith, length-drop-le size xs)) later in
      (batch, inr k, j)
]

-- The relays by number, with their batches.
abbrev pub Given : List (ℕ × List (List Bytes)) → ℕ → List Bytes → Type 0
Given [] i batch = ⊥
Given ((j, bs) ∷ rest) i batch = ((i ≡ j) × In batch bs) ⊎ Given rest i batch

Given-push :
    (rb : List (ℕ × List (List Bytes))) (i j : ℕ) (b batch : List Bytes)
    → Given (push rb i b) j batch
    → (batch ≡ b) ⊎ Given rb j batch
unfolding push
Given-push [] i j b batch (inl (same, inl here)) = inl here
Given-push [] i j b batch (inl (same, inr no_more)) = absurd no_more
Given-push [] i j b batch (inr no_more) = absurd no_more
Given-push ((k, bs) ∷ rest) i j b batch g = elim (Bool-cases (i == k)) [
  | inl same ↦ elim (rw same at g) [
    | inl (at_k, m) ↦ elim (In-append batch bs (b ∷ []) m) [
      | inl old ↦ inr (inl (at_k, old))
      | inr (inl new) ↦ inl new
      | inr (inr no_more) ↦ absurd no_more
    ]
    | inr later ↦ inr (inr later)
  ]
  | inr other ↦ elim (rw other at g) [
    | inl here ↦ inr (inl here)
    | inr later ↦ elim (Given-push rest i j b batch later) [
      | inl new ↦ inl new
      | inr old ↦ inr (inr old)
    ]
  ]
]

Given-push_old :
    (rb : List (ℕ × List (List Bytes))) (i j : ℕ) (b batch : List Bytes)
    → Given rb j batch
    → Given (push rb i b) j batch
unfolding push
Given-push_old [] i j b batch g = absurd g
Given-push_old ((k, bs) ∷ rest) i j b batch g = elim (Bool-cases (i == k)) [
  | inl same ↦ rw same (elim g [
    | inl (at_k, m) ↦ inl (at_k, In-append_left batch bs (b ∷ []) m)
    | inr later ↦ inr later
  ])
  | inr other ↦
      rw other
        (elim g [ inl here ↦ inl here | inr later ↦ inr (Given-push_old rest i j b batch later) ])
]

Given-push_new :
    (rb : List (ℕ × List (List Bytes))) (i : ℕ) (b : List Bytes) → Given (push rb i b) i b
unfolding push
Given-push_new [] i b = inl (refl, inl refl)
Given-push_new ((k, bs) ∷ rest) i b = elim (Bool-cases (i == k)) [
  | inl same ↦ rw same (inl ((==_iff i k).0 same, In-append_right b bs (b ∷ []) (inl refl)))
  | inr other ↦ rw other (inr (Given-push_new rest i b))
]

pub Given-distribute :
    (n i : ℕ) (bs : List (List Bytes)) (rb : List (ℕ × List (List Bytes))) (j : ℕ)
    (batch : List Bytes)
    → Given (distribute n i bs rb) j batch
    → In batch bs ⊎ Given rb j batch
unfolding distribute
Given-distribute n i [] rb j batch g = inr g
Given-distribute n i (b ∷ bs) rb j batch g =
    elim (Given-distribute n (suc i) bs (push rb (i % n) b) j batch g) [
      | inl later ↦ inl (inr later)
      | inr g' ↦ elim (Given-push rb (i % n) j b batch g') [
        | inl here ↦ inl (inl here)
        | inr old ↦ inr old
      ]
    ]

Given-distribute_old :
    (n i : ℕ) (bs : List (List Bytes)) (rb : List (ℕ × List (List Bytes))) (j : ℕ)
    (batch : List Bytes)
    → Given rb j batch
    → Given (distribute n i bs rb) j batch
unfolding distribute
Given-distribute_old n i [] rb j batch g = g
Given-distribute_old n i (b ∷ bs) rb j batch g =
    Given-distribute_old n (suc i) bs (push rb (i % n) b) j batch
      (Given-push_old rb (i % n) j b batch g)

-- Each batch goes to a relay that there is.
pub distribute-covers :
    (n : ℕ) (some_relay : 0 < n) (i : ℕ) (bs : List (List Bytes))
    (rb : List (ℕ × List (List Bytes))) (batch : List Bytes)
    → In batch bs
    → (j : ℕ) × (j < n) × Given (distribute n i bs rb) j batch
unfolding distribute
distribute-covers n some_relay i [] rb batch m = absurd m
distribute-covers n some_relay i (b ∷ bs) rb batch (inl here) = (
  i % n,
  omega arith,
  rw here (
      Given-distribute_old n (suc i) bs (push rb (i % n) b) (i % n) b
        (Given-push_new rb (i % n) b)),
)
distribute-covers n some_relay i (b ∷ bs) rb batch (inr there) =
    distribute-covers n some_relay (suc i) bs (push rb (i % n) b) batch there

pub url_at_lem :
    (urls : List Bytes) (i : ℕ)
    → i < length urls
    → (url : Bytes) × (url_at urls i ≡ some url) × In url urls
url_at_lem [] i h = absurd (omega arith)
url_at_lem (u ∷ us) zero h = (u, refl, inl refl)
url_at_lem (u ∷ us) (suc i) h = let (url, e, m) = url_at_lem us i (omega arith) in (url, e, inr m)
