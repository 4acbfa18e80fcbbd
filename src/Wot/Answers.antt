-- ===== src/Wot/Answers.antt =====
-- What one relay's answers hold: no key that was not asked for, and none is missing.
use moar.Common.{
  ℕ, suc, ◌≡◌, refl, sym, ◌⊎◌, inl, inr, ◌++◌, Option, some, List, [], ◌∷◌, Bytes, In, Bool-cases,
  Option-cases, some_inj, none_ne_some,
}
use moar.HashSet.{HashSet, extend, In-extend, In-extend_old, In-extend_new}
use moar.Wot.Relay.{
  Serde, Exchange, Network, query_batches, query_relay_batches, read_until_eose, wot_dash, answer,
}
use moar.Wot.Reading.{read_until_eose-Names}
use moar.Wot.Follows.{FollowedBy, IsHonest, IsComplete}

module _ (S : Serde) (parse : Bytes → Option Bytes) (display : ℕ → Bytes) where
  answer-honest :
      (net : Network) (follows : Bytes → List Bytes)
      → IsHonest S parse display net follows
      → (url : Bytes) (ws : ℕ → List Bytes → Option Exchange) → net url ≡ some ws
      → (i : ℕ) (batch : List Bytes) (keys : HashSet)
      → answer S parse display ws i batch ≡ some keys
      → (x : Bytes) → In x keys
      → FollowedBy follows batch x
  answer-honest net follows honest url ws up i batch keys got x m =
      elim (Option-cases (ws i batch)) [
        | inl nothing ↦ absurd (none_ne_some (rw (nothing, answer) at got))
        | inr (ex, sent) ↦ elim (Bool-cases ex.closed) [
          | inl ended ↦ honest.truthful url ws up i batch ex sent x (
              (read_until_eose-Names S parse display ex.frames (wot_dash ++ display i) x).0
                (rw (sym (some_inj (rw ended at (rw (sent, answer) at got)))) at m))
          | inr broken ↦ absurd (none_ne_some (rw broken at (rw (sent, answer) at got)))
        ]
      ]

  -- What the batches of one relay bring was asked for.
  batches-honest :
      (net : Network) (follows : Bytes → List Bytes)
      → IsHonest S parse display net follows
      → (url : Bytes) (ws : ℕ → List Bytes → Option Exchange) → net url ≡ some ws
      → (i : ℕ) (bs : List (List Bytes)) (f keys : HashSet)
      → query_batches S parse display ws i bs f ≡ some keys
      → (x : Bytes) → In x keys
      → In x f ⊎ ((batch : List Bytes) × In batch bs × FollowedBy follows batch x)
  unfolding query_batches
  batches-honest net follows honest url ws up i [] f keys got x m =
      inl (rw (sym (some_inj got)) at m)
  batches-honest net follows honest url ws up i (b ∷ bs) f keys got x m =
      elim (Option-cases (answer S parse display ws i b)) [
        | inl broken ↦ absurd (none_ne_some (rw (broken, query_batches) at got))
        | inr (part, told) ↦
            elim (batches-honest net follows honest url ws up (suc i) bs (extend f part) keys
              (rw (told, query_batches) at got) x m) [
                | inl before ↦ elim (In-extend f part x before) [
                  | inl old ↦ inl old
                  | inr new ↦
                      inr (
                        b,
                        inl refl,
                        answer-honest net follows honest url ws up i b part told x new,
                      )
                ]
                | inr (batch, at_bs, by) ↦ inr (batch, inr at_bs, by)
              ]
      ]

  answer_complete :
      (net : Network) (follows : Bytes → List Bytes) (url : Bytes)
      (c : IsComplete S parse display net follows url) (i : ℕ) (batch : List Bytes)
      → (keys : HashSet) × (answer S parse display c.ws i batch ≡ some keys)
        × ((x : Bytes) → FollowedBy follows batch x → In x keys)
  answer_complete net follows url c i batch = (
    read_until_eose S parse display (c.exchange i batch).frames (wot_dash ++ display i) [],
    rw (c.answers i batch, answer) (rw (c.ends i batch) refl),
    λ x by.
        (read_until_eose-Names S parse display (c.exchange i batch).frames (wot_dash ++ display i)
            x).1
          (c.names_all i batch x by),
  )

  batches_complete :
      (net : Network) (follows : Bytes → List Bytes) (url : Bytes)
      (c : IsComplete S parse display net follows url) (i : ℕ) (bs : List (List Bytes))
      (f : HashSet)
      → (keys : HashSet) × (query_batches S parse display c.ws i bs f ≡ some keys)
        × ((x : Bytes) → In x f → In x keys)
        × ((batch : List Bytes)
            → In batch bs
            → (x : Bytes) → FollowedBy follows batch x
            → In x keys)
  unfolding query_batches
  batches_complete net follows url c i [] f = (f, refl, λ x m. m, λ batch m x by. absurd m)
  batches_complete net follows url c i (b ∷ bs) f =
      let (part, told, names) = answer_complete net follows url c i b in
      let (keys, got, kept, all) = batches_complete net follows url c (suc i) bs (extend f part) in
      (
        keys,
        rw (told, query_batches) got,
        λ x m. kept x (In-extend_old f part x m),
        λ batch m x by. elim m [
          | inl here ↦ kept x (In-extend_new f part x (names x (rw here at by)))
          | inr there ↦ all batch there x by
        ],
      )

  -- The keys that a relay brings are followed by keys that it was asked for.
  pub relay-honest :
      (net : Network) (follows : Bytes → List Bytes)
      → IsHonest S parse display net follows
      → (url : Bytes) (bs : List (List Bytes)) (keys : HashSet)
      → query_relay_batches S parse display net url bs ≡ some keys
      → (x : Bytes) → In x keys
      → (batch : List Bytes) × In batch bs × FollowedBy follows batch x
  unfolding query_relay_batches
  relay-honest net follows honest url bs keys got x m = elim (Option-cases (net url)) [
    | inl down ↦ absurd (none_ne_some (rw (down, query_relay_batches) at got))
    | inr (ws, up) ↦
        elim (batches-honest net follows honest url ws up 0 bs [] keys
          (rw (up, query_relay_batches) at got) x m) [ inl m ↦ absurd m | inr by ↦ by ]
  ]

  pub relay_complete :
      (net : Network) (follows : Bytes → List Bytes) (url : Bytes)
      → IsComplete S parse display net follows url
      → (bs : List (List Bytes))
      → (keys : HashSet) × (query_relay_batches S parse display net url bs ≡ some keys)
        × ((batch : List Bytes)
            → In batch bs
            → (x : Bytes) → FollowedBy follows batch x
            → In x keys)
  unfolding query_relay_batches
  relay_complete net follows url c bs =
      let (keys, got, kept, all) = batches_complete net follows url c 0 bs [] in
      (keys, rw (c.connects, query_relay_batches) got, all)
