-- ===== src/Wot/Asking.antt =====
-- What one depth of the build brings back from the relays.
use moar.Common.{
  ℕ, ◌<◌, ◌≡◌, refl, ◌⊎◌, inl, inr, true, Option, List, [], ◌∷◌, Bytes, length, In, Option-cases,
  arith,
}
use moar.Wot.Relay.{Serde, Network, query_relay_batches}
use moar.Wot.Follows.{FollowedBy, IsHonest, IsComplete}
use moar.Wot.Build.{
  absorb, Layer, Crawl, gather, ask, to_query, relay_batches, unanswered, url_at, chunks,
}
use moar.Wot.Rounds.{Grown, Grown-refl, Grown-trans, absorb-Grown, absorb-all, absorb-takes}
use moar.Wot.Spread.{
  Given, Given-distribute, distribute-covers, In-chunks, In-chunks_lem, url_at_lem,
}
use moar.Wot.Answers.{relay-honest, relay_complete}

module _ (S : Serde) (parse : Bytes → Option Bytes) (display : ℕ → Bytes) where
  module _ (net : Network) (follows : Bytes → List Bytes) (relays : List Bytes) where
    abbrev gathered : List (ℕ × List (List Bytes)) → Layer → Layer
    gathered rb layer = gather S parse display net relays rb layer

    abbrev LayerGrown : Layer → Layer → Type 0
    LayerGrown l m = Grown l.all_pubkeys l.next_layer m.all_pubkeys m.next_layer

    pub gather-Grown :
        (rb : List (ℕ × List (List Bytes))) (layer : Layer) → LayerGrown layer (gathered rb layer)
    unfolding gather
    gather-Grown [] layer = Grown-refl layer.all_pubkeys layer.next_layer
    gather-Grown ((j, bs) ∷ rb) layer = elim (Option-cases (url_at relays j)) [
      | inl nowhere ↦ rw (nowhere, gather) (gather-Grown rb layer)
      | inr (url, at) ↦ elim (Option-cases (query_relay_batches S parse display net url bs)) [
        | inl down ↦ rw (at, gather) (rw down (gather-Grown rb layer))
        | inr (keys, got) ↦
            let (all, next) = absorb (layer.all_pubkeys, layer.next_layer) keys in
            let g = absorb-Grown layer.all_pubkeys layer.next_layer keys in
            let h =
              gather-Grown rb
                (record { all_pubkeys = all; next_layer = next; any_success = true }) in
            rw (at, gather) (rw got (Grown-trans _ _ _ _ _ _ g h))
      ]
    ]

    -- Where a key of the answers comes from.
    abbrev Told : List (ℕ × List (List Bytes)) → Layer → Bytes → Type 0
    Told rb layer x =
        In x layer.all_pubkeys
        ⊎ ((j : ℕ) × (batch : List Bytes) × Given rb j batch × FollowedBy follows batch x)

    Told-later :
        (j : ℕ) (bs : List (List Bytes)) (rb : List (ℕ × List (List Bytes))) (layer : Layer)
        (x : Bytes)
        → Told rb layer x
        → Told ((j, bs) ∷ rb) layer x
    Told-later j bs rb layer x (inl old) = inl old
    Told-later j bs rb layer x (inr (i, batch, g, by)) = inr (i, batch, inr g, by)

    gather-honest :
        IsHonest S parse display net follows
        → (rb : List (ℕ × List (List Bytes))) (layer : Layer) (x : Bytes)
        → In x (gathered rb layer).all_pubkeys
        → Told rb layer x
    unfolding gather
    gather-honest honest [] layer x m = inl m
    gather-honest honest ((j, bs) ∷ rb) layer x m = elim (Option-cases (url_at relays j)) [
      | inl nowhere ↦
          Told-later j bs rb layer x (gather-honest honest rb layer x (rw (nowhere, gather) at m))
      | inr (url, at) ↦ elim (Option-cases (query_relay_batches S parse display net url bs)) [
        | inl down ↦
            Told-later j bs rb layer x
              (gather-honest honest rb layer x (rw down at (rw (at, gather) at m)))
        | inr (keys, got) ↦
            let (all, next) = absorb (layer.all_pubkeys, layer.next_layer) keys in
            let l : Layer = record { all_pubkeys = all; next_layer = next; any_success = true } in
            let here =
              Told-later j bs rb l x
                (gather-honest honest rb l x (rw got at (rw (at, gather) at m))) in
            elim here [
              | inl before ↦ elim (absorb-all layer.all_pubkeys layer.next_layer keys x before) [
                | inl old ↦ inl old
                | inr new ↦
                    let (batch, at_bs, by) =
                      relay-honest S parse display net follows honest url bs keys got x new in
                    inr (j, batch, inl (refl, at_bs), by)
              ]
              | inr by ↦ inr by
            ]
      ]
    ]

    gather-success :
        (rb : List (ℕ × List (List Bytes))) (layer : Layer)
        → layer.any_success ≡ true
        → (gathered rb layer).any_success ≡ true
    unfolding gather
    gather-success [] layer h = h
    gather-success ((j, bs) ∷ rb) layer h = elim (Option-cases (url_at relays j)) [
      | inl nowhere ↦ rw (nowhere, gather) (gather-success rb layer h)
      | inr (url, at) ↦ elim (Option-cases (query_relay_batches S parse display net url bs)) [
        | inl down ↦ rw (at, gather) (rw down (gather-success rb layer h))
        | inr (keys, got) ↦ rw (at, gather) (rw got (gather-success rb _ refl))
      ]
    ]

    gather_complete :
        ((url : Bytes) → In url relays → IsComplete S parse display net follows url)
        → (rb : List (ℕ × List (List Bytes))) (layer : Layer) (j : ℕ) (batch : List Bytes)
        → j < length relays
        → Given rb j batch
        → (gathered rb layer).any_success ≡ true
          × ((x : Bytes) → FollowedBy follows batch x → In x (gathered rb layer).all_pubkeys)
    unfolding gather
    gather_complete complete [] layer j batch low g = absurd g
    gather_complete complete ((k, bs) ∷ rb) layer j batch low (inr later) =
        gather_complete complete rb _ j batch low later
    gather_complete complete ((k, bs) ∷ rb) layer j batch low (inl (same, at_bs)) =
        let (url, at, at_relays) = url_at_lem relays k (rw same at low) in
        let (keys, got, all) =
          relay_complete S parse display net follows url (complete url at_relays) bs in
        let l : Layer = record {
          all_pubkeys = (absorb (layer.all_pubkeys, layer.next_layer) keys).0;
          next_layer = (absorb (layer.all_pubkeys, layer.next_layer) keys).1;
          any_success = true;
        } in
        rw (at, gather)
          (rw got (
            gather-success rb l refl,
            λ x by.
                (gather-Grown rb l).all_kept x
                  (absorb-takes layer.all_pubkeys layer.next_layer keys x (all batch at_bs x by)),
          ))

    -- What one depth adds, and that relays which answer leave nothing out.
    pub ask-Grown :
        (c : Crawl)
        → let l = ask S parse display net relays c in
          Grown c.all_pubkeys [] l.all_pubkeys l.next_layer
    unfolding ask
    ask-Grown c =
        gather-Grown (relay_batches S parse display net relays c) (unanswered S parse display net c)

    pub ask-honest :
        IsHonest S parse display net follows
        → (c : Crawl) (x : Bytes) → In x (ask S parse display net relays c).all_pubkeys
        → In x c.all_pubkeys ⊎ FollowedBy follows (to_query S parse display net c) x
    unfolding ask
    ask-honest honest c x m =
        let asked = to_query S parse display net c in
        elim (gather-honest honest (relay_batches S parse display net relays c)
          (unanswered S parse display net c) x m) [
            | inl old ↦ inl old
            | inr (j, batch, g, by) ↦
                elim (Given-distribute (length relays) 0 (chunks (length asked) 300 asked) [] j
                  batch g) [
                    | inl cut ↦ inr (record {
                      author = by.author;
                      asked = In-chunks_lem (length asked) 300 asked batch by.author cut by.asked;
                      followed = by.followed;
                    })
                    | inr m ↦ absurd m
                  ]
          ]

    pub ask_complete :
        ((url : Bytes) → In url relays → IsComplete S parse display net follows url)
        → (some_relay : 0 < length relays) (c : Crawl) (a : Bytes)
        → In a (to_query S parse display net c)
        → (ask S parse display net relays c).any_success ≡ true
          × ((x : Bytes) → In x (follows a) → In x (ask S parse display net relays c).all_pubkeys)
    unfolding ask
    ask_complete complete some_relay c a m =
        let asked = to_query S parse display net c in
        let (batch, cut, at_batch) = In-chunks (length asked) 299 asked a (omega arith) m in
        let (j, low, g) =
          distribute-covers (length relays) some_relay 0 (chunks (length asked) 300 asked) [] batch
            cut in
        let (success, all) =
          gather_complete complete (relay_batches S parse display net relays c)
            (unanswered S parse display net c) j batch low g in
        (success, λ x f. all x (record { author = a; asked = at_batch; followed = f }))
