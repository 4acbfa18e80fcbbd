-- ===== src/Wot/Near.antt =====
-- Honest relays bring no key that is too far away.
use moar.Common.{
  ℕ, zero, suc, ◌+◌, ◌≡◌, sym, ap, ◌∙◌, inl, inr, Bool, true, Option, List, [], ◌∷◌, Bytes, keep,
  In, Bool-cases, arith,
}
use moar.HashSet.{HashSet}
use moar.Wot.Relay.{Serde, Network}
use moar.Wot.Follows.{Within, Within-le, IsHonest}
use moar.Wot.Build.{Crawl, ask, to_query, advance, layers, found, failed_at, is_empty}
use moar.Wot.Asking.{ask-Grown, ask-honest}

In-keep :
    (p : Bytes → Bool) (xs : List Bytes) (x : Bytes) → In x (keep p xs) → In x xs × (p x ≡ true)
In-keep p [] x m = absurd m
In-keep p (y ∷ ys) x m = elim (Bool-cases (p y)) [
  | inl kept ↦ elim (rw kept at m) [
    | inl here ↦ (inl here, ap p here ∙ kept)
    | inr there ↦ let (k, q) = In-keep p ys x there in (inr k, q)
  ]
  | inr left_out ↦ let (k, q) = In-keep p ys x (rw left_out at m) in (inr k, q)
]

found_inj : {s t : HashSet} → found s ≡ found t → s ≡ t
found_inj same = cc

failed_ne_found : {d : ℕ} {s : HashSet} → failed_at d ≡ found s → ⊥
failed_ne_found same = cc

module _ (S : Serde) (parse : Bytes → Option Bytes) (display : ℕ → Bytes) (net : Network)
    (follows : Bytes → List Bytes) where
  -- After so many depths, every key is near enough, and the layer to ask next is among them.
  pub record IsNear (seed : Bytes) (depth : ℕ) (c : Crawl) : Type 0 where
    pub near : (x : Bytes) → In x c.all_pubkeys → Within follows seed depth x
    pub layer : (x : Bytes) → In x c.current_layer → In x c.all_pubkeys

  advance-IsNear :
      IsHonest S parse display net follows
      → (seed : Bytes) (depth : ℕ) (relays : List Bytes) (c : Crawl) → IsNear seed depth c
      → IsNear seed (suc depth) (advance S parse display net c (ask S parse display net relays c))
  advance-IsNear honest seed depth relays c h = record {
    near = λ x m. elim (ask-honest S parse display net follows relays honest c x m) [
      | inl old ↦ inl (h.near x old)
      | inr by ↦ inr (
        by.author,
        h.near by.author (h.layer by.author (In-keep _ c.current_layer by.author by.asked).0),
        by.followed,
      )
    ];
    layer = λ x m. elim ((ask-Grown S parse display net follows relays c).next_all x m) [
      | inl m ↦ absurd m
      | inr m ↦ m
    ];
  }

  pub layers_sound :
      IsHonest S parse display net follows
      → (seed : Bytes) (relays : List Bytes) (left done max_depth : ℕ) (c : Crawl) (set : HashSet)
      → left + done ≡ max_depth
      → IsNear seed done c
      → layers S parse display net relays left (suc done) c ≡ found set
      → (x : Bytes) → In x set
      → Within follows seed max_depth x
  unfolding layers
  layers_sound honest seed relays zero done max_depth c set count h got x m =
      Within-le follows seed max_depth done x (omega arith)
        (h.near x (rw (sym (found_inj got)) at m))
  layers_sound honest seed relays (suc left) done max_depth c set count h got x m =
      elim (Bool-cases (is_empty S parse display net (to_query S parse display net c))) [
        | inl finished ↦
            Within-le follows seed max_depth done x (omega arith)
              (h.near x (rw (sym (found_inj (rw (finished, layers) at got))) at m))
        | inr more ↦ elim (Bool-cases (ask S parse display net relays c).any_success) [
          | inl success ↦
              layers_sound honest seed relays left (suc done) max_depth
                (advance S parse display net c (ask S parse display net relays c)) set (omega arith)
                (advance-IsNear honest seed done relays c h)
                (rw success at (rw (more, layers) at got)) x m
          | inr failure ↦ absurd (failed_ne_found (rw failure at (rw (more, layers) at got)))
        ]
      ]
