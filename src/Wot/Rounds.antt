-- ===== src/Wot/Rounds.antt =====
-- One depth of the build: what the answers add, and that nothing is missed.
use moar.Common.{◌⊎◌, inl, inr, List, [], ◌∷◌, Bytes, elem, In, In-of_elem, Bool-cases}
use moar.HashSet.{HashSet, insert, In-insert, In-insert_old, In-insert_new}
use moar.Wot.Build.{absorb}

-- What absorbing new keys does to the two sets.
pub record Grown (all next all' next' : HashSet) : Type 0 where
  pub all_kept : (x : Bytes) → In x all → In x all'
  pub next_kept : (x : Bytes) → In x next → In x next'
  pub new_next : (x : Bytes) → In x all' → In x all ⊎ In x next'
  pub next_all : (x : Bytes) → In x next' → In x next ⊎ In x all'

pub Grown-refl : (all next : HashSet) → Grown all next all next
Grown-refl all next = record {
  all_kept = λ x m. m;
  next_kept = λ x m. m;
  new_next = λ x m. inl m;
  next_all = λ x m. inl m;
}

pub Grown-trans : (a n b p c q : HashSet) → Grown a n b p → Grown b p c q → Grown a n c q
Grown-trans a n b p c q g h = record {
  all_kept = λ x m. h.all_kept x (g.all_kept x m);
  next_kept = λ x m. h.next_kept x (g.next_kept x m);
  new_next = λ x m. elim (h.new_next x m) [
    | inl before ↦ elim (g.new_next x before) [
      | inl old ↦ inl old
      | inr new ↦ inr (h.next_kept x new)
    ]
    | inr new ↦ inr new
  ];
  next_all = λ x m. elim (h.next_all x m) [
    | inl before ↦ elim (g.next_all x before) [
      | inl old ↦ inl old
      | inr new ↦ inr (h.all_kept x new)
    ]
    | inr new ↦ inr new
  ];
}

Grown-insert : (all next : HashSet) (pk : Bytes) → Grown all next (insert all pk) (insert next pk)
Grown-insert all next pk = record {
  all_kept = λ x m. In-insert_old all pk x m;
  next_kept = λ x m. In-insert_old next pk x m;
  new_next = λ x m. elim (In-insert all pk x m) [
    | inl new ↦ inr (rw new (In-insert_new next pk))
    | inr old ↦ inl old
  ];
  next_all = λ x m. elim (In-insert next pk x m) [
    | inl new ↦ inr (rw new (In-insert_new all pk))
    | inr old ↦ inl old
  ];
}

pub absorb-Grown :
    (all next : HashSet) (pks : List Bytes)
    → let (all', next') = absorb (all, next) pks in Grown all next all' next'
unfolding absorb
absorb-Grown all next [] = Grown-refl all next
absorb-Grown all next (pk ∷ pks) = elim (Bool-cases (elem pk all)) [
  | inl old ↦ rw old (absorb-Grown all next pks)
  | inr new ↦ rw new (
      Grown-trans all next (insert all pk) (insert next pk) _ _ (Grown-insert all next pk)
        (absorb-Grown (insert all pk) (insert next pk) pks))
]

pub absorb-all :
    (all next : HashSet) (pks : List Bytes) (x : Bytes)
    → In x (absorb (all, next) pks).0
    → In x all ⊎ In x pks
unfolding absorb
absorb-all all next [] x m = inl m
absorb-all all next (pk ∷ pks) x m = elim (Bool-cases (elem pk all)) [
  | inl old ↦ elim (absorb-all all next pks x (rw old at m)) [
    | inl before ↦ inl before
    | inr later ↦ inr (inr later)
  ]
  | inr new ↦ elim (absorb-all (insert all pk) (insert next pk) pks x (rw new at m)) [
    | inl before ↦ elim (In-insert all pk x before) [
      | inl here ↦ inr (inl here)
      | inr old ↦ inl old
    ]
    | inr later ↦ inr (inr later)
  ]
]

pub absorb-takes :
    (all next : HashSet) (pks : List Bytes) (x : Bytes) → In x pks → In x (absorb (all, next) pks).0
unfolding absorb
absorb-takes all next [] x m = absurd m
absorb-takes all next (pk ∷ pks) x m = elim (Bool-cases (elem pk all)) [
  | inl old ↦ rw old (elim m [
    | inl here ↦ (absorb-Grown all next pks).all_kept x (rw here (In-of_elem pk all old))
    | inr there ↦ absorb-takes all next pks x there
  ])
  | inr new ↦ rw new (elim m [
    | inl here ↦
        (absorb-Grown (insert all pk) (insert next pk) pks).all_kept x
          (rw here (In-insert_new all pk))
    | inr there ↦ absorb-takes (insert all pk) (insert next pk) pks x there
  ])
]
