-- ===== src/Storage/Query/Collect.antt =====
-- What a loop over keys or over values collects.
use moar.Common.{
  In, In-append, In-append_left, In-append_right, true≢false, ℕ, ◌≡◌, refl, subst, sym, ap, ◌∙◌,
  ◌<◌, ◌≤◌, ◌+◌, Bool, true, false, ◌||◌, Bytes, List, [], ◌∷◌, ◌++◌, arith, bytes_eq,
  bytes_eq_refl, bytes_eq→eq, ltb, leb, length, length-append, elem, any, Bool-cases, Option-cases,
  inl, inr, ◌⊎◌, append-nil, append_assoc, reverse, reverse-cons, ltb→lt, leb→le, none_ne_some,
  or_left, or_right,
}
use moar.Error.{Result, ok}
use moar.Nostr.{Event}
use moar.Storage.Heed.{Backend}
use moar.Storage.Lmdb.{LmdbStore}
use moar.Storage.Lmdb.Index.{Holds, Decodes, Holds-unique}
use moar.Storage.Query.{for_each, visit, scan_keys}

any-append : (p : Bytes → Bool) (xs ys : List Bytes) → any p (xs ++ ys) ≡ (any p xs || any p ys)
any-append p [] ys = refl
any-append p (x ∷ xs) ys = ground (arith, any-append p xs ys)

elem-reverse : (k : Bytes) (xs : List Bytes) → elem k (reverse xs) ≡ elem k xs
elem-reverse k [] = refl
elem-reverse k (x ∷ xs) =
    ap (elem k) (reverse-cons x xs)
    ∙ any-append (bytes_eq k) (reverse xs) (x ∷ [])
    ∙ ground (arith, elem-reverse k xs)

-- A loop that adds only good events to the candidates, and all of them if it adds fewer than
-- `limit`.
abbrev pub Collects : ℕ → (List Event → Result (List Event)) → (Event → Type 0) → Type 0
Collects limit run Good =
    (cs : List Event)
    → (new : List Event) × (run cs ≡ ok (cs ++ new))
      × ((e : Event) → In e new → Good e)
      × (length new < limit → (e : Event) → Good e → In e new)

pub for_each-Collects :
    {A : Type 0} (limit : ℕ) (f : A → List Event → Result (List Event)) (Good : A → Event → Type 0)
    (xs : List A)
    → ((a : A) → In a xs → Collects limit (f a) (Good a))
    → Collects limit (for_each f xs) (λ e. (a : A) × In a xs × Good a e)
unfolding for_each
for_each-Collects limit f Good [] h cs =
    ([], ap ok (sym (append-nil cs)), (λ e m. absurd m), λ small e g. absurd g.1)
for_each-Collects limit f Good (x ∷ xs) h cs =
    let (new, r, sound, complete) = h x (inl refl) cs in
    let (rest, q, sound', complete') =
      for_each-Collects limit f Good xs (λ a m. h a (inr m)) (cs ++ new) in
    (
      new ++ rest,
      rw r (q ∙ ap ok (append_assoc cs new rest)),
      (λ e m. elim (In-append e new rest m) [
        | inl l ↦ (x, inl refl, sound e l)
        | inr r' ↦ let (a, i, g) = sound' e r' in (a, inr i, g)
      ]),
      λ small e g. elim g.1 [
        | inl same ↦
            In-append_left e new rest
              (complete (omega (arith, length-append new rest)) e (subst (λ a. Good a e) same g.2))
        | inr there ↦
            In-append_right e new rest
              (complete' (omega (arith, length-append new rest)) e (g.0, there, g.2))
      ],
    )

module _ (b : Backend) (s : LmdbStore b) (decodes : Decodes b s.events_db) where
  open b use {events, serde}

  -- The stored event with the id, if it matches, or none.
  visit-cases :
      (matches : Event → Bool) (id : Bytes) (count : ℕ) (cs : List Event)
      → ((visit b s matches id (count, cs) ≡ ok (count, cs))
          × ((e : Event) → Holds b s.events_db e → e.id ≡ id → matches e ≡ false))
        ⊎ ((e : Event) × Holds b s.events_db e
            × (e.id ≡ id)
            × (matches e ≡ true)
            × (visit b s matches id (count, cs) ≡ ok (count + 1, cs ++ e ∷ [])))
  unfolding visit
  visit-cases matches id count cs = elim (Option-cases (events.get s.events_db id)) [
    | inl miss ↦ inl (
      rw (miss, visit),
      λ e h same. absurd (none_ne_some (sym miss ∙ ap (events.get s.events_db) (sym same) ∙ h.1)),
    )
    | inr (raw, hit) ↦
        let (e, d, same, wf) = decodes id raw hit in
        let held : Holds b s.events_db e = (raw, ap (events.get s.events_db) same ∙ hit, d) in
        elim (Bool-cases (matches e)) [
          | inl passes ↦ inr (e, held, same, passes, rw (hit, visit) (rw d (rw passes)))
          | inr fails ↦ inl (
            rw (hit, visit) (rw d (rw fails)),
            λ x h i. ap matches (Holds-unique b s.events_db x e h held (i ∙ sym same)) ∙ fails,
          )
        ]
  ]

  module _ (matches : Event → Bool) (key_len : ℕ) (id_of : Bytes → Bytes) (limit : ℕ) where
    -- A whole key of the list leads to the event.
    abbrev pub Listed : List Bytes → Event → Type 0
    Listed keys e =
        (key : Bytes) × (elem key keys ≡ true) × (key_len ≤ length key) × (id_of key ≡ e.id)

    abbrev pub Hit : List Bytes → Event → Type 0
    Hit keys e = Holds b s.events_db e × (matches e ≡ true) × Listed keys e

    Hit-later : (key : Bytes) (keys : List Bytes) (e : Event) → Hit keys e → Hit (key ∷ keys) e
    Hit-later key keys e (held, good, (k, m, whole, same)) =
        (held, good, (k, or_right (bytes_eq k key) _ m, whole, same))

    Hit-split :
        (key : Bytes) (keys : List Bytes) (e : Event)
        → Hit (key ∷ keys) e
        → ((key_len ≤ length key) × (id_of key ≡ e.id)) ⊎ Hit keys e
    Hit-split key keys e (held, good, (k, m, whole, same)) = elim (Bool-cases (bytes_eq k key)) [
      | inl here ↦
          let k=key = bytes_eq→eq k key here in
          inl (subst (λ j. key_len ≤ length j) k=key whole, ap id_of (sym k=key) ∙ same)
      | inr there ↦ inr (held, good, (k, (rw there at m), whole, same))
    ]

    scan_short :
        (key : Bytes) (keys : List Bytes) (acc : ℕ × List Event)
        → ltb (length key) key_len ≡ true
        → scan_keys b s matches key_len id_of limit (key ∷ keys) acc
          ≡ scan_keys b s matches key_len id_of limit keys acc
    unfolding scan_keys
    scan_short key keys acc short = rw (short, scan_keys)

    scan_stop :
        (key : Bytes) (keys : List Bytes) (acc acc' : ℕ × List Event)
        → ltb (length key) key_len ≡ false
        → visit b s matches (id_of key) acc ≡ ok acc'
        → leb limit acc'.0 ≡ true
        → scan_keys b s matches key_len id_of limit (key ∷ keys) acc ≡ ok acc'.1
    unfolding scan_keys
    scan_stop key keys acc acc' whole v full = rw (whole, scan_keys) (rw v (ground arith))

    scan_on :
        (key : Bytes) (keys : List Bytes) (acc acc' : ℕ × List Event)
        → ltb (length key) key_len ≡ false
        → visit b s matches (id_of key) acc ≡ ok acc'
        → leb limit acc'.0 ≡ false
        → scan_keys b s matches key_len id_of limit (key ∷ keys) acc
          ≡ scan_keys b s matches key_len id_of limit keys acc'
    unfolding scan_keys
    scan_on key keys acc acc' whole v room = rw (whole, scan_keys) (rw v (ground arith))

    Scanned : List Bytes → ℕ → List Event → Result (List Event) → Type 0
    Scanned keys count cs r =
        (new : List Event) × (r ≡ ok (cs ++ new))
        × ((e : Event) → In e new → Hit keys e)
        × (count + length new < limit → (e : Event) → Hit keys e → In e new)

    -- A key that gives no event.
    Scanned-later :
        (key : Bytes) (keys : List Bytes) (count : ℕ) (cs : List Event) (r : Result (List Event))
        → ((e : Event) → Hit (key ∷ keys) e → Hit keys e)
        → Scanned keys count cs r
        → Scanned (key ∷ keys) count cs r
    unfolding Scanned
    Scanned-later key keys count cs r only (new, q, sound, complete) = (
      new,
      q,
      (λ e m. Hit-later key keys e (sound e m)),
      λ small e h. complete small e (only e h),
    )

    scan_keys_lem :
        (keys : List Bytes) (count : ℕ) (cs : List Event)
        → Scanned keys count cs (scan_keys b s matches key_len id_of limit keys (count, cs))
    unfolding scan_keys Scanned
    scan_keys_lem [] count cs = (
      [],
      ap ok (sym (append-nil cs)),
      (λ e m. absurd m),
      λ small e h. absurd (true≢false (sym h.2.1)),
    )
    scan_keys_lem (key ∷ keys) count cs = elim (Bool-cases (ltb (length key) key_len)) [
      | inl short ↦ rw (scan_short key keys (count, cs) short) (
          Scanned-later key keys count cs _
            (λ e h. elim (Hit-split key keys e h) [
              | inl (whole, _) ↦ absurd (omega (arith, ltb→lt _ _ short))
              | inr later ↦ later
            ])
            (scan_keys_lem keys count cs))
      | inr whole ↦ elim (visit-cases matches (id_of key) count cs) [
        | inl (v, none_here) ↦ elim (Bool-cases (leb limit count)) [
          | inl full ↦ (
            [],
            scan_stop key keys (count, cs) (count, cs) whole v full ∙ ap ok (sym (append-nil cs)),
            (λ e m. absurd m),
            λ small e h. absurd (omega (arith, leb→le _ _ full)),
          )
          | inr room ↦ rw (scan_on key keys (count, cs) (count, cs) whole v room) (
              Scanned-later key keys count cs _
                (λ e h. elim (Hit-split key keys e h) [
                  | inl (_, same) ↦ absurd (true≢false (sym h.1 ∙ none_here e h.0 (sym same)))
                  | inr later ↦ later
                ])
                (scan_keys_lem keys count cs))
        ]
        | inr (e, held, same, good, v) ↦
            let here : Hit (key ∷ keys) e = (
              held,
              good,
              (key, or_left _ _ (bytes_eq_refl key), ground (arith, whole), sym same),
            ) in
            elim (Bool-cases (leb limit (count + 1))) [
              | inl full ↦ (
                e ∷ [],
                scan_stop key keys (count, cs) (count + 1, cs ++ e ∷ []) whole v full,
                (λ x m. elim m [
                  | inl eq ↦ subst (Hit (key ∷ keys)) (sym eq) here
                  | inr n ↦ absurd n
                ]),
                λ small x h. absurd (omega (arith, leb→le _ _ full)),
              )
              | inr room ↦
                  let (new, r, sound, complete) = scan_keys_lem keys (count + 1) (cs ++ e ∷ []) in
                  (
                    e ∷ new,
                    scan_on key keys (count, cs) (count + 1, cs ++ e ∷ []) whole v room
                        ∙ r
                        ∙ ap ok (append_assoc cs (e ∷ []) new),
                    (λ x m. elim m [
                      | inl eq ↦ subst (Hit (key ∷ keys)) (sym eq) here
                      | inr n ↦ Hit-later key keys x (sound x n)
                    ]),
                    λ small x h. elim (Hit-split key keys x h) [
                      | inl (_, i) ↦
                          inl (Holds-unique b s.events_db x e h.0 held (sym i ∙ sym same))
                      | inr later ↦ inr (complete (omega arith) x later)
                    ],
                  )
            ]
      ]
    ]

    turn :
        (xs ys : List Bytes) (e : Event)
        → ((k : Bytes) → elem k ys ≡ elem k xs)
        → Hit xs e
        → Hit ys e
    turn xs ys e same (held, good, (k, m, whole, i)) = (held, good, (k, same k ∙ m, whole, i))

    -- A scan of a range, last key first.
    pub scan-Collects :
        (keys : List Bytes)
        → Collects limit
            (λ cs. scan_keys b s matches key_len id_of limit (reverse keys) (0, cs))
            (Hit keys)
    unfolding Scanned
    scan-Collects keys cs =
        let (new, r, sound, complete) = scan_keys_lem (reverse keys) 0 cs in
        (
          new,
          r,
          (λ e m. turn (reverse keys) keys e (λ k. sym (elem-reverse k keys)) (sound e m)),
          λ small e h.
              complete (omega arith) e (turn keys (reverse keys) e (λ k. elem-reverse k keys) h),
        )
