-- ===== src/Storage/Query/Answers.antt =====
-- The answer of `query`: the stored events that match, newest first, up to the limit.
use moar.Common.{
  In, In-of_elem, true≢false, ℕ, zero, suc, ◌≡◌, refl, subst, sym, ap, ◌∙◌, ◌<◌, ◌≤◌, true, ◌↔◌,
  Bytes, List, [], ◌∷◌, append-nil, arith, ltb, length, take, All, All-take, length-take-le,
  Bool-cases, Option-cases, inl, inr, and_elim, none_ne_some,
}
use moar.Error.{ok}
use moar.Nostr.{Event, Filter}
use moar.Storage.Heed.{Backend}
use moar.Storage.Lmdb.{LmdbStore}
use moar.Storage.Lmdb.Index.{Holds-unique}
use moar.Storage.Lmdb.Coherence.{Coherent, Stored}
use moar.Storage.Query.{
  limit_of, allows, event_matches_filter, insert_by_time, sort_by_time, lookup_id, query,
}
use moar.Storage.Query.Collect.{Collects, for_each-Collects}
use moar.Storage.Query.Filters.{IsFilter}
use moar.Storage.Query.Results.{Answer, candidates-Collects}

-- No event comes after one that is older.
abbrev pub NewestFirst : List Event → Type 0
NewestFirst [] = Unit
NewestFirst (x ∷ xs) = All (λ y. y.created_at ≤ x.created_at) xs × NewestFirst xs

All-trans :
    (t u : ℕ) (xs : List Event)
    → t ≤ u
    → All (λ y. y.created_at ≤ t) xs
    → All (λ y. y.created_at ≤ u) xs
All-trans t u [] h k = tt
All-trans t u (x ∷ xs) h k = (omega arith, All-trans t u xs h k.1)

All-insert :
    (t : ℕ) (e : Event) (xs : List Event)
    → e.created_at ≤ t
    → All (λ y. y.created_at ≤ t) xs
    → All (λ y. y.created_at ≤ t) (insert_by_time e xs)
unfolding insert_by_time
All-insert t e [] h k = (h, tt)
All-insert t e (x ∷ xs) h k = elim (Bool-cases (ltb e.created_at x.created_at)) [
  | inl later ↦ rw later (k.0, All-insert t e xs h k.1)
  | inr here ↦ rw here (h, k)
]

NewestFirst-insert :
    (e : Event) (xs : List Event) → NewestFirst xs → NewestFirst (insert_by_time e xs)
unfolding insert_by_time
NewestFirst-insert e [] h = (tt, tt)
NewestFirst-insert e (x ∷ xs) h = elim (Bool-cases (ltb e.created_at x.created_at)) [
  | inl later ↦
      rw later (All-insert x.created_at e xs (ground arith) h.0, NewestFirst-insert e xs h.1)
  | inr here ↦
      rw here ((ground arith, All-trans x.created_at e.created_at xs (ground arith) h.0), h)
]

sort-NewestFirst : (xs : List Event) → NewestFirst (sort_by_time xs)
unfolding sort_by_time
sort-NewestFirst [] = tt
sort-NewestFirst (x ∷ xs) = NewestFirst-insert x (sort_by_time xs) (sort-NewestFirst xs)

take-NewestFirst : (n : ℕ) (xs : List Event) → NewestFirst xs → NewestFirst (take n xs)
take-NewestFirst zero xs h = tt
take-NewestFirst (suc n) [] h = tt
take-NewestFirst (suc n) (x ∷ xs) h =
    (All-take (λ y. y.created_at ≤ x.created_at) n xs h.0, take-NewestFirst n xs h.1)

length-insert : (e : Event) (xs : List Event) → length (insert_by_time e xs) ≡ suc (length xs)
unfolding insert_by_time
length-insert e [] = refl
length-insert e (x ∷ xs) = ground (arith, length-insert e xs)

length-sort : (xs : List Event) → length (sort_by_time xs) ≡ length xs
unfolding sort_by_time
length-sort [] = refl
length-sort (x ∷ xs) = length-insert x (sort_by_time xs) ∙ ap suc (length-sort xs)

In-insert : (a e : Event) (xs : List Event) → In a (insert_by_time e xs) ↔ In a (e ∷ xs)
unfolding insert_by_time
In-insert a e [] = ((λ h. h), λ h. h)
In-insert a e (x ∷ xs) = elim (Bool-cases (ltb e.created_at x.created_at)) [
  | inr here ↦ rw here ((λ h. h), λ h. h)
  | inl later ↦
      let (to, from) = In-insert a e xs in
      rw later (
        (λ h. elim h [
          | inl x' ↦ inr (inl x')
          | inr r ↦ elim (to r) [ inl e' ↦ inl e' | inr q ↦ inr (inr q) ]
        ]),
        λ h. elim h [
          | inl e' ↦ inr (from (inl e'))
          | inr r ↦ elim r [ inl x' ↦ inl x' | inr q ↦ inr (from (inr q)) ]
        ],
      )
]

In-sort : (a : Event) (xs : List Event) → In a (sort_by_time xs) ↔ In a xs
unfolding sort_by_time
In-sort a [] = ((λ h. h), λ h. h)
In-sort a (x ∷ xs) =
    let (to, from) = In-insert a x (sort_by_time xs) in
    let (to', from') = In-sort a xs in
    (
      (λ h. elim (to h) [ inl e ↦ inl e | inr q ↦ inr (to' q) ]),
      λ h. elim h [ inl e ↦ from (inl e) | inr q ↦ from (inr (from' q)) ],
    )

In-take : (a : Event) (n : ℕ) (xs : List Event) → In a (take n xs) → In a xs
In-take a zero xs h = absurd h
In-take a (suc n) [] h = h
In-take a (suc n) (x ∷ xs) (inl e) = inl e
In-take a (suc n) (x ∷ xs) (inr q) = inr (In-take a n xs q)

take_few : (n : ℕ) (xs : List Event) → length (take n xs) < n → take n xs ≡ xs
take_few zero xs h = absurd (omega (arith, h))
take_few (suc n) [] h = refl
take_few (suc n) (x ∷ xs) h = ap (λ ys. x ∷ ys) (take_few n xs (omega arith))

length-take_few : (n : ℕ) (xs : List Event) → length (take n xs) < n → length xs < n
length-take_few n xs h = subst (λ ys. length ys < n) (take_few n xs h) h

id_allowed : (e : Event) (f : Filter) → event_matches_filter e f ≡ true → allows f.ids e.id ≡ true
unfolding event_matches_filter
id_allowed e f h = (and_elim _ _ h).0

module _ (b : Backend) (s : LmdbStore b) (v : Coherent b s) (f : Filter) (w : IsFilter f) where
  open b use {events}

  -- The look-up of one id.
  lookup_id-Collects :
      (limit : ℕ) (id : Bytes)
      → Collects limit (lookup_id b s f id) (λ e. Answer b s v f w e × (e.id ≡ id))
  unfolding lookup_id
  lookup_id-Collects limit id cs = elim (Option-cases (events.get s.events_db id)) [
    | inl miss ↦ (
      [],
      rw (miss, lookup_id) (ap ok (sym (append-nil cs))),
      (λ e m. absurd m),
      λ few e g. absurd (none_ne_some (sym miss ∙ ap (events.get s.events_db) (sym g.1) ∙ g.0.0.1)),
    )
    | inr (raw, hit) ↦
        let (e, d, same, wf) = v.decodes id raw hit in
        let held : Stored b s e = (raw, ap (events.get s.events_db) same ∙ hit, d) in
        let unique : (x : Event) → Answer b s v f w x × (x.id ≡ id) → x ≡ e =
          λ x g. Holds-unique b s.events_db x e g.0.0 held (g.1 ∙ sym same) in
        elim (Bool-cases (event_matches_filter e f)) [
          | inl good ↦ (
            e ∷ [],
            rw (hit, lookup_id) (rw d (rw good refl)),
            (λ x m. elim m [
              | inl eq ↦ subst (λ y. Answer b s v f w y × (y.id ≡ id)) (sym eq) ((held, good), same)
              | inr n ↦ absurd n
            ]),
            λ few x g. inl (unique x g),
          )
          | inr bad ↦ (
            [],
            rw (hit, lookup_id) (rw d (rw bad (ap ok (sym (append-nil cs))))),
            (λ x m. absurd m),
            λ few x g.
                absurd
                  (true≢false (sym g.0.1 ∙ ap (λ y. event_matches_filter y f) (unique x g) ∙ bad)),
          )
        ]
  ]

  -- What the answer to a filter has to be.
  pub record IsAnswer (es : List Event) : Type 0 where
    pub newest_first : NewestFirst es
    pub bounded : length es ≤ limit_of f
    pub sound : (e : Event) → In e es → Answer b s v f w e
    pub complete : length es < limit_of f → (e : Event) → Answer b s v f w e → In e es

  finish :
      (found : List Event)
      → ((e : Event) → In e found → Answer b s v f w e)
      → (length found < limit_of f → (e : Event) → Answer b s v f w e → In e found)
      → IsAnswer (take (limit_of f) (sort_by_time found))
  finish found sound complete = record {
    newest_first = take-NewestFirst (limit_of f) _ (sort-NewestFirst found);
    bounded = length-take-le (limit_of f) (sort_by_time found);
    sound = λ e m. sound e ((In-sort e found).0 (In-take e (limit_of f) _ m));
    complete = λ few e a. subst (In e) (sym (take_few (limit_of f) (sort_by_time found) few)) (
        (In-sort e found).1 (
          complete
            (subst (λ n. n < limit_of f) (length-sort found)
              (length-take_few (limit_of f) (sort_by_time found) few))
            e a));
  }

  -- On a coherent store a query never fails. It returns stored events that match the filter, newest
  -- first and no more than the limit, and if it returns fewer than the limit, then no stored event
  -- that matches is missing. The filter's times are `u64`s, its kinds `u16`s and its authors have
  -- 32 bytes.
  pub query_lem : (es : List Event) × (query b s f ≡ ok es) × IsAnswer es
  unfolding query
  query_lem = elim (Option-cases f.ids) [
    | inl no_ids ↦
        let (found, r, sound, complete) =
          candidates-Collects b s v f w no_ids f.authors f.kinds refl refl [] in
        (
          take (limit_of f) (sort_by_time found),
          rw (no_ids, query) (rw r),
          finish found sound complete,
        )
    | inr (ids, some_ids) ↦
        let (found, r, sound, complete) =
          for_each-Collects (limit_of f) (lookup_id b s f) _ ids
            (λ id _. lookup_id-Collects (limit_of f) id) [] in
        (
          take (limit_of f) (sort_by_time found),
          rw (some_ids, query) (rw r),
          finish found (λ e m. let (id, _, g) = sound e m in g.0)
              (λ few e a. complete few e (
                e.id,
                In-of_elem e.id ids (sym (ap (λ o. allows o e.id) some_ids) ∙ id_allowed e f a.1),
                (a, refl),
              )),
        )
  ]
