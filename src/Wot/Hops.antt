-- ===== src/Wot/Hops.antt =====
-- The set that a build leaves: the keys within the configured number of hops from the seed.
use moar.Common.{
  ℕ, zero, suc, subst, ◌≡◌, refl, sym, ◌⊎◌, inl, inr, false, Option, none, some, List, [], ◌∷◌,
  Bytes, In, Option-cases, none_ne_some, arith,
}
use moar.Config.{WotConfig}
use moar.HashSet.{HashSet}
use moar.Wot.Relay.{Serde, Network}
use moar.Wot.Follows.{Within, depth_of, IsHonest, IsComplete}
use moar.Wot.Build.{
  layers, Built, found, failed_at, clamped, build_wot, WotStatus, BuildError, seeded, is_ready,
}
use moar.Wot.Near.{IsNear, layers_sound}
use moar.Wot.Full.{IsFull, layers_complete}

clamped_lem : (depth : ℕ) → clamped depth ≡ depth_of depth
clamped_lem zero = refl
clamped_lem (suc zero) = refl
clamped_lem (suc (suc zero)) = refl
clamped_lem (suc (suc (suc zero))) = refl
clamped_lem (suc (suc (suc (suc more)))) = ground arith

Built-cases : (b : Built) → ((s : HashSet) × (b ≡ found s)) ⊎ ((d : ℕ) × (b ≡ failed_at d))
Built-cases (found s) = inl (s, refl)
Built-cases (failed_at d) = inr (d, refl)

abbrev run :
    Serde → (Bytes → Option Bytes) → (ℕ → Bytes) → Network → WotConfig → List Bytes → Bytes → Built
run S parse display net config relays seed =
    layers S parse display net relays (clamped config.depth) 1 (seeded seed)

module _ (S : Serde) (parse : Bytes → Option Bytes) (display : ℕ → Bytes) (net : Network)
    (follows : Bytes → List Bytes) where
  seeded-IsNear : (seed : Bytes) → IsNear S parse display net follows seed 0 (seeded seed)
  seeded-IsNear seed = record {
    near = λ x m. elim m [ inl here ↦ here | inr m ↦ absurd m ];
    layer = λ x m. m;
  }

  seeded-IsFull : (seed : Bytes) → IsFull S parse display net follows seed 0 (seeded seed)
  seeded-IsFull seed = record {
    full = λ x w. inl w;
    waiting = λ x y m f. inl m;
    finished = λ x y m f. absurd m;
  }

  -- A build that succeeds over relays that send only true contact lists of the authors they are asked
  -- for leaves a set whose keys are all within the configured depth, clamped to 1..4, from the seed.
  pub build_wot_sound :
      IsHonest S parse display net follows
      → (config : WotConfig) (relays : List Bytes) (set : HashSet) (status : WotStatus)
      → (build_wot S parse display net config relays set status).result ≡ none
      → (seed : Bytes) → parse config.seed ≡ some seed
      → (x : Bytes) → In x (build_wot S parse display net config relays set status).set
      → Within follows seed (depth_of config.depth) x
  unfolding build_wot
  build_wot_sound honest config [] set status done seed parsed x m =
      absurd (none_ne_some (sym done))
  build_wot_sound honest config (relay ∷ relays) set status done seed parsed x m =
      elim (Built-cases (run S parse display net config (relay ∷ relays) seed)) [
        | inl (found_set, ok) ↦
            subst (λ n. Within follows seed n x) (clamped_lem config.depth)
              (layers_sound S parse display net follows honest seed (relay ∷ relays)
                (clamped config.depth) 0 (clamped config.depth) (seeded seed) found_set
                (omega arith) (seeded-IsNear seed) ok x (rw ok at (rw (parsed, build_wot) at m)))
        | inr (d, failed) ↦
            absurd (none_ne_some (sym (rw failed at (rw (parsed, build_wot) at done))))
      ]

  -- A build over at least one relay, when every relay answers with all the contact lists it is asked
  -- for, succeeds, is marked as ready, and leaves a set that holds every key within the configured
  -- depth, clamped to 1..4, from the seed.
  pub build_wot_complete :
      (config : WotConfig) (relay : Bytes) (relays : List Bytes) (set : HashSet)
      (status : WotStatus)
      → ((url : Bytes) → In url (relay ∷ relays) → IsComplete S parse display net follows url)
      → (seed : Bytes) → parse config.seed ≡ some seed
      → (x : Bytes) → Within follows seed (depth_of config.depth) x
      → let built = build_wot S parse display net config (relay ∷ relays) set status in
        (built.result ≡ none) × (built.status ≡ WotStatus.ready) × In x built.set
  unfolding build_wot
  build_wot_complete config relay relays set status complete seed parsed x near =
      let (found_set, ok, all) =
        layers_complete S parse display net follows (relay ∷ relays) (omega arith) complete seed
          (clamped config.depth) 0 (clamped config.depth) (seeded seed) (omega arith)
          (seeded-IsFull seed) in
      rw (parsed, build_wot)
        (rw ok (
          refl,
          refl,
          all x (subst (λ n. Within follows seed n x) (sym (clamped_lem config.depth)) near),
        ))

-- A build either succeeds and marks its set as ready, or it fails, leaves the set as it was, and leaves
-- a status that is the one before or not ready.
pub build_wot-fails :
    (S : Serde) (parse : Bytes → Option Bytes) (display : ℕ → Bytes) (net : Network)
    (config : WotConfig) (relays : List Bytes) (set : HashSet) (status : WotStatus)
    → let built = build_wot S parse display net config relays set status in
      ((built.result ≡ none) × (built.status ≡ WotStatus.ready))
      ⊎ ((why : BuildError) × (built.result ≡ some why)
          × (built.set ≡ set)
          × ((built.status ≡ status) ⊎ (is_ready built.status ≡ false)))
unfolding build_wot
build_wot-fails S parse display net config [] set status =
    inr (BuildError.no_discovery_relays, refl, refl, inl refl)
build_wot-fails S parse display net config (relay ∷ relays) set status =
    elim (Option-cases (parse config.seed)) [
      | inl unparsed ↦
          rw (unparsed, build_wot) (inr (BuildError.invalid_seed, refl, refl, inl refl))
      | inr (seed, parsed) ↦
          elim (Built-cases (run S parse display net config (relay ∷ relays) seed)) [
            | inl (found_set, ok) ↦ rw (parsed, build_wot) (rw ok (inl (refl, refl)))
            | inr (d, failed) ↦
                rw (parsed, build_wot)
                  (rw failed (inr (BuildError.all_relays_failed d, refl, refl, inr refl)))
          ]
    ]
