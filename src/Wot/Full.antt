-- ===== src/Wot/Full.antt =====
-- Relays that answer in full leave out no key that is near enough.
use moar.Common.{
  ℕ, zero, suc, ◌+◌, ◌<◌, ◌≡◌, refl, sym, ap, ◌∙◌, ◌⊎◌, inl, inr, Bool, true, false, not, Option,
  List, [], ◌∷◌, Bytes, length, keep, elem, In, In-of_elem, Bool-cases, true≢false, subst, arith,
}
use moar.HashSet.{HashSet, In-extend}
use moar.Wot.Relay.{Serde, Network}
use moar.Wot.Follows.{Within, Within-seed, IsComplete}
use moar.Wot.Build.{Crawl, ask, to_query, advance, layers, found, is_empty}
use moar.Wot.Asking.{ask-Grown, ask_complete}

keep-In : (p : Bytes → Bool) (xs : List Bytes) (x : Bytes) → In x xs → p x ≡ true → In x (keep p xs)
keep-In p [] x m q = absurd m
keep-In p (y ∷ ys) x (inl here) q = rw (sym (ap p here) ∙ q) (inl here)
keep-In p (y ∷ ys) x (inr there) q = elim (Bool-cases (p y)) [
  | inl kept ↦ rw kept (inr (keep-In p ys x there q))
  | inr left_out ↦ rw left_out (keep-In p ys x there q)
]

module _ (S : Serde) (parse : Bytes → Option Bytes) (display : ℕ → Bytes) (net : Network)
    (follows : Bytes → List Bytes) where
  none_asked : (xs : List Bytes) (a : Bytes) → is_empty S parse display net xs ≡ true → In a xs → ⊥
  none_asked [] a e m = m
  none_asked (x ∷ xs) a e m = true≢false (sym e)

  some_or_none :
      (xs : List Bytes)
      → (is_empty S parse display net xs ≡ true)
        ⊎ ((is_empty S parse display net xs ≡ false) × (a : Bytes) × In a xs)
  some_or_none [] = inl refl
  some_or_none (x ∷ xs) = inr (refl, x, inl refl)

  -- After so many depths, no key that is near enough is missing.
  pub record IsFull (seed : Bytes) (depth : ℕ) (c : Crawl) : Type 0 where
    pub full : (x : Bytes) → Within follows seed depth x → In x c.all_pubkeys
    pub waiting :
        (x y : Bytes)
        → In x c.all_pubkeys
        → In y (follows x)
        → In x c.current_layer ⊎ In y c.all_pubkeys
    pub finished : (x y : Bytes) → In x c.queried → In y (follows x) → In y c.all_pubkeys

  -- A key of the layer was asked for earlier, or is now.
  queried_or_asked :
      (c : Crawl) (x : Bytes)
      → In x c.current_layer
      → In x c.queried ⊎ In x (to_query S parse display net c)
  queried_or_asked c x m = elim (Bool-cases (elem x c.queried)) [
    | inl old ↦ inl (In-of_elem x c.queried old)
    | inr new ↦ inr (keep-In _ c.current_layer x m (ap not new))
  ]

  -- When nothing is left to ask, what was found is all that can be reached.
  stop-full :
      (seed : Bytes) (depth n : ℕ) (c : Crawl)
      → IsFull seed depth c
      → is_empty S parse display net (to_query S parse display net c) ≡ true
      → (x : Bytes) → Within follows seed n x
      → In x c.all_pubkeys
  stop-full seed depth zero c h e x w = rw w (h.full seed (Within-seed follows seed depth))
  stop-full seed depth (suc n) c h e x (inl w) = stop-full seed depth n c h e x w
  stop-full seed depth (suc n) c h e x (inr (a, w, f)) =
      elim (h.waiting a x (stop-full seed depth n c h e a w) f) [
        | inl current ↦ elim (queried_or_asked c a current) [
          | inl old ↦ h.finished a x old f
          | inr asked ↦ absurd (none_asked (to_query S parse display net c) a e asked)
        ]
        | inr there ↦ there
      ]

  module _ (relays : List Bytes) (some_relay : 0 < length relays)
      (complete : (url : Bytes) → In url relays → IsComplete S parse display net follows url) where
    asked_follows :
        (c : Crawl) (a y : Bytes)
        → In a (to_query S parse display net c)
        → In y (follows a)
        → In y (ask S parse display net relays c).all_pubkeys
    asked_follows c a y m f =
        (ask_complete S parse display net follows relays complete some_relay c a m).1 y f

    closes :
        (seed : Bytes) (depth : ℕ) (c : Crawl)
        → IsFull seed depth c
        → (x y : Bytes) → In x c.all_pubkeys
        → In y (follows x)
        → In y (ask S parse display net relays c).all_pubkeys
    closes seed depth c h x y m f =
        let kept = (ask-Grown S parse display net follows relays c).all_kept in
        elim (h.waiting x y m f) [
          | inl current ↦ elim (queried_or_asked c x current) [
            | inl old ↦ kept y (h.finished x y old f)
            | inr asked ↦ asked_follows c x y asked f
          ]
          | inr there ↦ kept y there
        ]

    advance-IsFull :
        (seed : Bytes) (depth : ℕ) (c : Crawl)
        → IsFull seed depth c
        → IsFull seed (suc depth) (advance S parse display net c (ask S parse display net relays c))
    advance-IsFull seed depth c h =
        let g = ask-Grown S parse display net follows relays c in
        record {
          full = λ x w. elim w [
            | inl near ↦ g.all_kept x (h.full x near)
            | inr (a, near, f) ↦ closes seed depth c h a x (h.full a near) f
          ];
          waiting = λ x y m f. elim (g.new_next x m) [
            | inl old ↦ inr (closes seed depth c h x y old f)
            | inr new ↦ inl new
          ];
          finished = λ x y m f. elim (In-extend c.queried (to_query S parse display net c) x m) [
            | inl old ↦ g.all_kept y (h.finished x y old f)
            | inr asked ↦ asked_follows c x y asked f
          ];
        }

    pub layers_complete :
        (seed : Bytes) (left done max_depth : ℕ) (c : Crawl)
        → left + done ≡ max_depth
        → IsFull seed done c
        → (set : HashSet) × (layers S parse display net relays left (suc done) c ≡ found set)
          × ((x : Bytes) → Within follows seed max_depth x → In x set)
    unfolding layers
    layers_complete seed zero done max_depth c count h = (
      c.all_pubkeys,
      refl,
      λ x w. h.full x (subst (λ n. Within follows seed n x) (omega arith) w),
    )
    layers_complete seed (suc left) done max_depth c count h =
        elim (some_or_none (to_query S parse display net c)) [
          | inl finished ↦ (
            c.all_pubkeys,
            rw (finished, layers) refl,
            stop-full seed done max_depth c h finished,
          )
          | inr (more, a, m) ↦
              let success =
                (ask_complete S parse display net follows relays complete some_relay c a m).0 in
              let (set, got, all) =
                layers_complete seed left (suc done) max_depth
                  (advance S parse display net c (ask S parse display net relays c)) (omega arith)
                  (advance-IsFull seed done c h) in
              (set, rw (more, layers) (rw success got), all)
        ]
