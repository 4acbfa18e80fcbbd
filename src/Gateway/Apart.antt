-- ===== src/Gateway/Apart.antt =====
-- When no two services share a subdomain, and which changes of a map of services keep that.
use moar.Common.{
  ◌≡◌, sym, ap, ◌∙◌, ◌⊎◌, inl, inr, Bool, false, some, [], ◌∷◌, Bytes, bytes_eq, bytes_eq→eq, any,
  ◌||◌, Bool-cases, some_inj, none_ne_some, true≢false, or_left, or_right, subst,
}
use moar.HashMap.{HashMap, get, insert, remove}
use moar.HashMap.Laws.{get-insert_at, get-insert_off, get-remove_at, get-remove_off}

-- What an insert or a removal leaves at an id.
pub get-insert_cases :
    {V : Type 0} (m : HashMap V) (k j : Bytes) (v w : V)
    → get (insert m k v) j ≡ some w
    → ((k ≡ j) × (v ≡ w)) ⊎ ((bytes_eq k j ≡ false) × (get m j ≡ some w))
get-insert_cases m k j v w h = elim (Bool-cases (bytes_eq k j)) [
  | inl same ↦ inl (bytes_eq→eq k j same, some_inj (sym (get-insert_at m k j v same) ∙ h))
  | inr other ↦ inr (other, sym (get-insert_off m k j v other) ∙ h)
]

pub get-remove_some :
    {V : Type 0} (m : HashMap V) (k j : Bytes) (w : V)
    → get (remove m k) j ≡ some w
    → get m j ≡ some w
get-remove_some m k j w h = elim (Bool-cases (bytes_eq k j)) [
  | inl same ↦ absurd (none_ne_some (sym (get-remove_at m k j same) ∙ h))
  | inr other ↦ sym (get-remove_off m k j other) ∙ h
]

-- A test that no entry passes fails on what a look-up finds.
pub get-none_pass :
    {V : Type 0} (p : Bytes × V → Bool) (m : HashMap V) (j : Bytes) (w : V)
    → any p m ≡ false
    → get m j ≡ some w
    → p (j, w) ≡ false
get-none_pass p [] j w h g = absurd (none_ne_some g)
get-none_pass p ((k, v) ∷ m) j w h g = elim (Bool-cases (bytes_eq k j)) [
  | inl same ↦
      let here : v ≡ w = some_inj (rw same at g) in
      subst (λ x. p (x, w) ≡ false) (bytes_eq→eq k j same)
        (subst (λ x. p (k, x) ≡ false) here (none_here h))
  | inr other ↦ get-none_pass p m j w (none_there h) (rw other at g)
]
  where
    none_here : (p (k, v) || any p m) ≡ false → p (k, v) ≡ false
    none_here n = elim (Bool-cases (p (k, v))) [
      | inl passes ↦ absurd (true≢false (sym (or_left _ _ passes) ∙ n))
      | inr none_yet ↦ none_yet
    ]

    none_there : (p (k, v) || any p m) ≡ false → any p m ≡ false
    none_there n = elim (Bool-cases (any p m)) [
      | inl passes ↦ absurd (true≢false (sym (or_right (p (k, v)) _ passes) ∙ n))
      | inr none_yet ↦ none_yet
    ]

module _ {V : Type 0} (subdomain : V → Bytes) where
  -- No two entries share a subdomain.
  pub record IsApart (m : HashMap V) : Type 0 where
    pub one_each :
        (i j : Bytes) (c d : V)
        → get m i ≡ some c
        → get m j ≡ some d
        → subdomain c ≡ subdomain d
        → i ≡ j

  -- No entry but the one at this id has this subdomain.
  pub record IsFree (m : HashMap V) (id name : Bytes) : Type 0 where
    pub unused :
        (j : Bytes) (d : V) → get m j ≡ some d → bytes_eq id j ≡ false → name ≡ subdomain d → ⊥

  pub insert-IsApart :
      (m : HashMap V) (id : Bytes) (c : V)
      → IsApart m
      → IsFree m id (subdomain c)
      → IsApart (insert m id c)
  insert-IsApart m id c h free = record {
    one_each = λ i j a b at_i at_j same. elim (get-insert_cases m id i c a at_i) [
      | inl (here, is_a) ↦ elim (get-insert_cases m id j c b at_j) [
        | inl (there, is_b) ↦ sym here ∙ there
        | inr (other, old) ↦ absurd (free.unused j b old other (ap subdomain is_a ∙ same))
      ]
      | inr (other, old) ↦ elim (get-insert_cases m id j c b at_j) [
        | inl (there, is_b) ↦ absurd (free.unused i a old other (ap subdomain is_b ∙ sym same))
        | inr (elsewhere, kept) ↦ h.one_each i j a b old kept same
      ]
    ];
  }

  pub remove-IsApart : (m : HashMap V) (id : Bytes) → IsApart m → IsApart (remove m id)
  remove-IsApart m id h = record {
    one_each = λ i j a b at_i at_j same.
        h.one_each i j a b (get-remove_some m id i a at_i) (get-remove_some m id j b at_j) same;
  }

  -- Maps with the same look-ups.
  pub same-IsApart : (m n : HashMap V) → ((i : Bytes) → get n i ≡ get m i) → IsApart m → IsApart n
  same-IsApart m n same h = record {
    one_each =
        λ i j a b at_i at_j e. h.one_each i j a b (sym (same i) ∙ at_i) (sym (same j) ∙ at_j) e;
  }
