-- ===== src/Storage/Lmdb/Guarantees.antt =====
-- What the store guarantees across saves, deletes and reads.
use moar.Common.{
  ◌≡◌, subst, sym, ap, ◌∙◌, ◌≢◌, ◌↔◌, false, ◌==◌, none, some, Bytes, arith, bytes_eq,
  bytes_eq_refl, bytes_eq_sym, bytes_eq→eq, is_some, Bool-cases, Option-cases, inl, inr, ◌⊎◌,
  ==_iff,
}
use moar.Error.{ok, ok-injective}
use moar.Nostr.{Event, IsEvent}
use moar.Storage.Heed.{Backend}
use moar.Storage.Lmdb.{
  get_d_tag, unwrap_or_default, is_replaceable, is_parameterized_replaceable, LmdbStore, save_event,
  get_event, delete_event,
}
use moar.Storage.Lmdb.Index.{Holds-delete, Holds-kept}
use moar.Storage.Lmdb.Coherence.{
  Coherent, Stored, without, without-Coherent, delete_event_txn-cases,
}
use moar.Storage.Lmdb.Replace.{never, competes}
use moar.Storage.Lmdb.Save.{save_event_lem}

module _ (b : Backend) where
  open b use {events, index, serde}

  save_known :
      (s : LmdbStore b) (e : Event) (raw : Bytes)
      → events.get s.events_db e.id ≡ some raw
      → save_event b s e ≡ ok s
  unfolding save_event
  save_known s e raw hit = rw (hit, save_event)

  -- A save that succeeds keeps the store coherent: each index has exactly the keys of the stored
  -- events, whether the event was new, a duplicate, dropped, or drove others out.
  pub save_event-Coherent :
      (s s' : LmdbStore b) (e : Event)
      → Coherent b s
      → IsEvent e
      → save_event b s e ≡ ok s'
      → Coherent b s'
  save_event-Coherent s s' e v wf h = elim (Option-cases (events.get s.events_db e.id)) [
    | inr (raw, hit) ↦ subst (Coherent b) (ok-injective (sym (save_known s e raw hit) ∙ h)) v
    | inl fresh ↦ elim (save_event_lem b s e v wf s' fresh h) [
      | inl (_, same) ↦ subst (Coherent b) (sym same) v
      | inr (_, v', _, _, _) ↦ v'
    ]
  ]

  -- One event for each replaceable address: no two stored events compete.
  abbrev pub IsUnique : LmdbStore b → Type 0
  IsUnique s = (x y : Event) → Stored b s x → Stored b s y → competes x y ≡ false

  competes_sym : (x y : Event) → competes x y ≡ competes y x
  unfolding competes
  competes_sym x y =
      let keys = bytes_eq_sym x.pubkey y.pubkey in
      let ids = bytes_eq_sym y.id x.id in
      let tags =
        bytes_eq_sym (unwrap_or_default (get_d_tag y.tags))
          (unwrap_or_default (get_d_tag x.tags)) in
      elim (Bool-cases (x.kind == y.kind)) [
        | inl same ↦
            let k : x.kind ≡ y.kind = (==_iff x.kind y.kind).0 same in
            let r : is_replaceable x.kind ≡ is_replaceable y.kind = ap is_replaceable k in
            let p : is_parameterized_replaceable x.kind ≡ is_parameterized_replaceable y.kind =
              ap is_parameterized_replaceable k in
            ground (arith, keys, ids, tags, r, p)
        | inr other ↦ ground arith
      ]

  competes_self : (x : Event) → competes x x ≡ false
  unfolding competes
  competes_self x = let i = bytes_eq_refl x.id in ground (arith, i)

  unique_step :
      (s : LmdbStore b) (e : Event)
      → IsUnique s
      → (x y : Event) → (x ≡ e) ⊎ (Stored b s x × (competes e x ≡ false))
      → (y ≡ e) ⊎ (Stored b s y × (competes e y ≡ false))
      → competes x y ≡ false
  unique_step s e u x y (inl p) (inl q) = rw (p, q) (competes_self e)
  unique_step s e u x y (inl p) (inr (_, c)) = rw p c
  unique_step s e u x y (inr (_, c)) (inl q) = rw q (competes_sym x e ∙ c)
  unique_step s e u x y (inr (hx, _)) (inr (hy, _)) = u x y hx hy

  -- A save that succeeds leaves at most one event of each author and replaceable kind, and of each
  -- author, parameterized kind and `d` tag, if that was so before.
  pub save_event-IsUnique :
      (s s' : LmdbStore b) (e : Event)
      → Coherent b s
      → IsEvent e
      → IsUnique s
      → save_event b s e ≡ ok s'
      → IsUnique s'
  save_event-IsUnique s s' e v wf u h = elim (Option-cases (events.get s.events_db e.id)) [
    | inr (raw, hit) ↦ subst IsUnique (ok-injective (sym (save_known s e raw hit) ∙ h)) u
    | inl fresh ↦ elim (save_event_lem b s e v wf s' fresh h) [
      | inl (_, same) ↦ subst IsUnique (sym same) u
      | inr (_, _, _, from, _) ↦ λ x y hx hy. unique_step s e u x y (from x hx) (from y hy)
    ]
  ]

  -- On a coherent store a delete never fails. It reports whether the id was stored; afterwards the
  -- id is gone, all other events stay, and the store is coherent.
  pub delete_event_lem :
      (s : LmdbStore b) (id : Bytes)
      → Coherent b s
      → (s' : LmdbStore b) × (delete_event b s id ≡ ok (s', is_some (events.get s.events_db id)))
        × Coherent b s'
        × (events.get s'.events_db id ≡ none)
        × ((x : Event) → x.id ≢ id → Stored b s x ↔ Stored b s' x)
  unfolding delete_event
  delete_event_lem s id v = elim (delete_event_txn-cases b s id v) [
    | inl (miss, r) ↦ (s, r ∙ rw miss, v, miss, λ x ne. ((λ h. h), λ h. h))
    | inr (e, here, same, r) ↦ (
      without b s e,
      r
          ∙ ap (λ k. ok (without b s e, k))
              (sym (ap is_some (ap (events.get s.events_db) (sym same) ∙ here.1))),
      without-Coherent b s e here v,
      ap (events.get (without b s e).events_db) (sym same)
          ∙ events.get-delete s.events_db e.id e.id
          ∙ rw bytes_eq_refl,
      λ x ne. (
        (λ h.
            Holds-kept b s.events_db e here x h
              (never (bytes_eq e.id x.id) (λ eq. ne (sym (bytes_eq→eq _ _ eq) ∙ same)))),
        λ h. (Holds-delete b s.events_db e here x h).0,
      ),
    )
  ]

  -- An event that a store holds is read back under its id.
  pub get_event_lem :
      (s : LmdbStore b) (e : Event) → Stored b s e → get_event b s e.id ≡ ok (some e)
  unfolding get_event
  get_event_lem s e (raw, hit, d) = rw (hit, get_event) (rw d)
