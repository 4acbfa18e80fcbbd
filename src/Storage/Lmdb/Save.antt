-- ===== src/Storage/Lmdb/Save.antt =====
-- `save_event` as a whole: what it leaves stored, on every branch.
use moar.Common.{
  true≢false, ℕ, ◌≡◌, sym, ap, ◌∙◌, true, false, ◌&&◌, ◌==◌, none, [], arith, bytes_eq, Bool-cases,
  Option-cases, inl, inr, ◌⊎◌, and_elim, none_ne_some,
}
use moar.Error.{ok, ok-injective}
use moar.Nostr.{Event, IsEvent}
use moar.Storage.Heed.{Backend}
use moar.Storage.Keys.{encode_author_kind_key}
use moar.Storage.Keys.Ranges.{author_kind_key_parts}
use moar.Storage.Lmdb.{
  LmdbStore, is_replaceable, is_parameterized_replaceable, author_kind_keys, handle_replaceable,
  insert_event, save_event,
}
use moar.Storage.Lmdb.Index.{Holds-IsEvent, Holds-new, Holds-put, Holds-old}
use moar.Storage.Lmdb.Rivals.{
  key_id, key_ts, is_other, examine-Finds, is_tagged_other, examine_with_tag-Finds,
}
use moar.Storage.Lmdb.Coherence.{Coherent, Stored, insert_event-Inserted, Inserted-Coherent}
use moar.Storage.Lmdb.Replace.{competes, Dominated, Lists, settle_lem, listed, unlisted}

replaceable_excl : (k : ℕ) → is_replaceable k ≡ true → is_parameterized_replaceable k ≡ false
unfolding is_replaceable is_parameterized_replaceable
replaceable_excl k h = ground arith

same_author :
    (e x : Event) → competes e x ≡ true → bytes_eq e.pubkey x.pubkey && (e.kind == x.kind) ≡ true
unfolding competes
same_author e x c = (and_elim (bytes_eq e.pubkey x.pubkey && (e.kind == x.kind)) _ c).0

competes_free :
    (e x : Event)
    → is_replaceable e.kind ≡ false
    → is_parameterized_replaceable e.kind ≡ false
    → competes e x ≡ false
unfolding competes
competes_free e x r p = rw (r, p) (ground arith)

module _ (b : Backend) where
  open b use {events, index, serde}

  module _ (s : LmdbStore b) (e : Event) (v : Coherent b s) (wf : IsEvent e) where
    counts-plain :
        (x : Event)
        → IsEvent x
        → bytes_eq e.pubkey x.pubkey && (e.kind == x.kind) ≡ true
        → is_replaceable e.kind ≡ true
        → is_other e (encode_author_kind_key x) ≡ competes e x
    unfolding competes
    counts-plain x w same r =
        let (n, i, t) = author_kind_key_parts x w in rw (n, i, same, r) (ground arith)

    Lists-plain : is_replaceable e.kind ≡ true → Lists b s e (author_kind_keys b s e) (is_other e)
    Lists-plain r = record {
      sound = λ key m.
          let (x, held, w, k, same) = listed b s e v wf key m in
          let (n, i, t) = author_kind_key_parts x w in
          (x, held, ap key_id k ∙ i, ap key_ts k ∙ t, ap (is_other e) k ∙ counts-plain x w same r);
      complete = λ x held c.
          let w = Holds-IsEvent b s.events_db x v.decodes held in
          let same = same_author e x c in
          let (n, i, t) = author_kind_key_parts x w in
          (
            encode_author_kind_key x,
            unlisted b s e v wf x held same,
            i,
            t,
            counts-plain x w same r ∙ c,
          );
    }

    counts-tagged :
        (x : Event)
        → IsEvent x
        → Stored b s x
        → bytes_eq e.pubkey x.pubkey && (e.kind == x.kind) ≡ true
        → is_replaceable e.kind ≡ false
        → is_parameterized_replaceable e.kind ≡ true
        → is_tagged_other b s e (encode_author_kind_key x) ≡ competes e x
    unfolding competes
    counts-tagged x w (raw, hit, d) same r p =
        let (n, i, t) = author_kind_key_parts x w in rw (n, i, same, r, p, hit) (ground arith)

    Lists-tagged :
        is_replaceable e.kind ≡ false
        → is_parameterized_replaceable e.kind ≡ true
        → Lists b s e (author_kind_keys b s e) (is_tagged_other b s e)
    Lists-tagged r p = record {
      sound = λ key m.
          let (x, held, w, k, same) = listed b s e v wf key m in
          let (n, i, t) = author_kind_key_parts x w in
          (
            x,
            held,
            ap key_id k ∙ i,
            ap key_ts k ∙ t,
            ap (is_tagged_other b s e) k ∙ counts-tagged x w held same r p,
          );
      complete = λ x held c.
          let w = Holds-IsEvent b s.events_db x v.decodes held in
          let same = same_author e x c in
          let (n, i, t) = author_kind_key_parts x w in
          (
            encode_author_kind_key x,
            unlisted b s e v wf x held same,
            i,
            t,
            counts-tagged x w held same r p ∙ c,
          );
    }

    -- What `handle_replaceable` does on a coherent store; it never fails.
    pub handle_replaceable_lem :
        ((handle_replaceable b s e ≡ ok (s, true)) × Dominated b s e)
        ⊎ ((s' : LmdbStore b) × (handle_replaceable b s e ≡ ok (s', false))
            × Coherent b s'
            × (¬ Dominated b s e)
            × ((x : Event) → Stored b s' x → Stored b s x × (competes e x ≡ false))
            × ((x : Event) → Stored b s x → competes e x ≡ false → Stored b s' x))
    unfolding handle_replaceable
    handle_replaceable_lem = elim (Bool-cases (is_replaceable e.kind)) [
      | inl r ↦ rw r (
          settle_lem b s e _ _ (Lists-plain r) _ v
            (examine-Finds e (author_kind_keys b s e) (false, [])))
      | inr r ↦ elim (Bool-cases (is_parameterized_replaceable e.kind)) [
        | inl p ↦
            let (g, found, f) =
              examine_with_tag-Finds b s e (author_kind_keys b s e) (false, []) v.decodes in
            rw (r, p, found) (settle_lem b s e _ _ (Lists-tagged r p) g v f)
        | inr p ↦
            let free = λ (x : Event). competes_free e x r p in
            inr (
              s,
              rw (r, p),
              v,
              (λ d. true≢false (sym d.2 ∙ free d.0)),
              (λ x h. (h, free x)),
              λ x h c. h,
            )
      ]
    ]

    -- A delete brings no event back.
    still_fresh :
        (m : LmdbStore b)
        → Coherent b m
        → ((x : Event) → Stored b m x → Stored b s x × (competes e x ≡ false))
        → events.get s.events_db e.id ≡ none
        → events.get m.events_db e.id ≡ none
    still_fresh m w to fresh = elim (Option-cases (events.get m.events_db e.id)) [
      | inl miss ↦ miss
      | inr (raw, hit) ↦
          let (x, d, same, _) = w.decodes e.id raw hit in
          let (old, _) = to x (raw, ap (events.get m.events_db) same ∙ hit, d) in
          absurd (none_ne_some (sym fresh ∙ sym (ap (events.get s.events_db) same) ∙ old.1))
    ]

    -- A coherent store and a new event: if a stored event of the same address is newer, or as new
    -- with the greater id, then the event is dropped and nothing changes. Otherwise, after a save
    -- that succeeds, the store is coherent, the event is stored, every stored event that it
    -- replaces is gone, and all others stay.
    pub save_event_lem :
        (s' : LmdbStore b)
        → events.get s.events_db e.id ≡ none
        → save_event b s e ≡ ok s'
        → (Dominated b s e × (s' ≡ s))
          ⊎ ((¬ Dominated b s e)
              × Coherent b s'
              × Stored b s' e
              × ((x : Event) → Stored b s' x → (x ≡ e) ⊎ (Stored b s x × (competes e x ≡ false)))
              × ((x : Event) → Stored b s x → competes e x ≡ false → Stored b s' x))
    unfolding save_event
    save_event_lem s' fresh h = elim handle_replaceable_lem [
      | inl (r, d) ↦ inl (d, sym (ok-injective (rw (fresh, r) at h)))
      | inr (m, r, v', nd, to, from) ↦
          let ins : insert_event b m e ≡ ok s' = rw (fresh, r) at h in
          let i = insert_event-Inserted b m s' e ins in
          let gone = still_fresh m v' to fresh in
          inr (
            nd,
            Inserted-Coherent b m s' e gone wf i v',
            Holds-new b m.events_db s'.events_db e i.put,
            (λ x held. elim (Holds-put b m.events_db s'.events_db e i.put x held) [
              | inl same ↦ inl same
              | inr old ↦ inr (to x old)
            ]),
            λ x held c. Holds-old b m.events_db s'.events_db e i.put x gone (from x held c),
          )
    ]
