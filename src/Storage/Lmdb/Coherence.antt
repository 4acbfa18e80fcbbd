-- ===== src/Storage/Lmdb/Coherence.antt =====
-- The invariant of the store: every index has exactly the keys of the stored events.
use moar.Common.{
  ◌≡◌, refl, sym, ap, ◌∙◌, Bool, true, false, none, some, Bytes, List, [], ◌∷◌, arith, bytes_eq,
  Bool-cases, Option-cases, inl, inr, ◌⊎◌, ◌≢◌, ◌||◌, elem, bytes_eq→eq, bytes_eq_sym, none_ne_some,
}
use moar.Error.{ok}
use moar.Nostr.{Event, IsEvent}
use moar.Storage.Heed.{Backend}
use moar.Storage.Lmdb.{
  LmdbStore, new_store, put_all, insert_indices, remove_indices, delete_event_txn, delete_ids,
  insert_event,
}
use moar.Storage.Lmdb.Owners.{
  created_keys, author_keys, kind_keys, author_kind_keys_of, all_tag_keys, created_Owns,
  author_Owns, kind_Owns, author_kind_Owns, tag_Owns,
}
use moar.Storage.Lmdb.Index.{
  IsIndex, Decodes, Holds, put-IsIndex, put-Decodes, delete-IsIndex, delete-Decodes, Holds-delete,
  Holds-kept,
}

or_first : (a b : Bool) → (a || b) ≡ false → a ≡ false
or_first true b h = h
or_first false b h = refl

neither : (a b : Bool) → a ≡ false → b ≡ false → (a || b) ≡ false
neither true b h k = h
neither false b h k = k

apart : (x id y : Bytes) → y ≡ id → bytes_eq y x ≡ false → bytes_eq x id ≡ false
apart x id y e h = bytes_eq_sym x id ∙ ap (λ k. bytes_eq k x) (sym e) ∙ h

apart' : (x id y : Bytes) → y ≡ id → bytes_eq x id ≡ false → bytes_eq y x ≡ false
apart' x id y e h = ap (λ k. bytes_eq k x) e ∙ bytes_eq_sym id x ∙ h

or_out : (a b : Bool) → (a || b) ≡ false → b ≡ false
or_out true b h = cc
or_out false b h = h

ne_and_out :
    (x id : Bytes) (ids : List Bytes) → x ≢ id → elem x ids ≡ false → elem x (id ∷ ids) ≡ false
ne_and_out x id ids ne out = elim (Bool-cases (bytes_eq x id)) [
  | inl same ↦ absurd (ne (bytes_eq→eq x id same))
  | inr other ↦ rw other out
]

module _ (b : Backend) where
  open b use {events, index, serde}

  pub record Coherent (s : LmdbStore b) : Type 0 where
    pub decodes : Decodes b s.events_db
    pub created : IsIndex b created_keys s.index_created s.events_db
    pub author : IsIndex b author_keys s.index_author s.events_db
    pub kind : IsIndex b kind_keys s.index_kind s.events_db
    pub tag : IsIndex b all_tag_keys s.index_tag s.events_db
    pub author_kind : IsIndex b author_kind_keys_of s.index_author_kind s.events_db

  -- The event can be read back under its id.
  abbrev pub Stored : LmdbStore b → Event → Type 0
  Stored s e = Holds b s.events_db e

  new-IsIndex : (keys : Event → List Bytes) → IsIndex b keys index.empty events.empty
  new-IsIndex keys = record {
    sound = λ k h. absurd (ground (arith, h, index.get-empty k));
    complete = λ e k held key. absurd (none_ne_some (sym (events.get-empty e.id) ∙ held.1));
  }

  pub new_store-Coherent : Coherent (new_store b)
  new_store-Coherent = record {
    decodes = λ id raw g. absurd (none_ne_some (sym (events.get-empty id) ∙ g));
    created = new-IsIndex created_keys;
    author = new-IsIndex author_keys;
    kind = new-IsIndex kind_keys;
    tag = new-IsIndex all_tag_keys;
    author_kind = new-IsIndex author_kind_keys_of;
  }

  -- What an insert leaves: the events with the new one, and each index with its keys.
  pub record Inserted (s s' : LmdbStore b) (e : Event) : Type 0 where
    pub put : events.put s.events_db e.id (serde.to_vec e) ≡ some s'.events_db
    pub created : put_all b s.index_created (created_keys e) ≡ ok s'.index_created
    pub author : put_all b s.index_author (author_keys e) ≡ ok s'.index_author
    pub kind : put_all b s.index_kind (kind_keys e) ≡ ok s'.index_kind
    pub tag : put_all b s.index_tag (all_tag_keys e) ≡ ok s'.index_tag
    pub author_kind :
        put_all b s.index_author_kind (author_kind_keys_of e) ≡ ok s'.index_author_kind

  pub insert_event-Inserted :
      (s s' : LmdbStore b) (e : Event) → insert_event b s e ≡ ok s' → Inserted s s' e
  unfolding insert_event insert_indices
  insert_event-Inserted s s' e h = ground arith

  pub Inserted-Coherent :
      (s s' : LmdbStore b) (e : Event)
      → events.get s.events_db e.id ≡ none
      → IsEvent e
      → Inserted s s' e
      → Coherent s
      → Coherent s'
  Inserted-Coherent s s' e fresh wf i v = record {
    decodes = put-Decodes b s.events_db s'.events_db e i.put wf v.decodes;
    created = put-IsIndex b s.events_db s'.events_db e i.put _ _ _ fresh i.created v.created;
    author = put-IsIndex b s.events_db s'.events_db e i.put _ _ _ fresh i.author v.author;
    kind = put-IsIndex b s.events_db s'.events_db e i.put _ _ _ fresh i.kind v.kind;
    tag = put-IsIndex b s.events_db s'.events_db e i.put _ _ _ fresh i.tag v.tag;
    author_kind =
        put-IsIndex b s.events_db s'.events_db e i.put _ _ _ fresh i.author_kind v.author_kind;
  }

  -- The store without an event, in the events and in every index.
  abbrev pub without : LmdbStore b → Event → LmdbStore b
  without s e = record (remove_indices b s e) { events_db = events.delete s.events_db e.id }

  pub without-Coherent :
      (s : LmdbStore b) (e : Event) → Stored s e → Coherent s → Coherent (without s e)
  unfolding remove_indices
  without-Coherent s e here v = record {
    decodes = delete-Decodes b s.events_db e here v.decodes;
    created = delete-IsIndex b s.events_db e here created_keys _ created_Owns v.decodes v.created;
    author = delete-IsIndex b s.events_db e here author_keys _ author_Owns v.decodes v.author;
    kind = delete-IsIndex b s.events_db e here kind_keys _ kind_Owns v.decodes v.kind;
    tag = delete-IsIndex b s.events_db e here all_tag_keys _ tag_Owns v.decodes v.tag;
    author_kind =
        delete-IsIndex b s.events_db e here author_kind_keys_of _ author_kind_Owns v.decodes
          v.author_kind;
  }

  -- On a coherent store a delete never fails: either there is no such event and nothing changes,
  -- or the event is taken out of the events and of every index.
  pub delete_event_txn-cases :
      (s : LmdbStore b) (id : Bytes)
      → Coherent s
      → ((events.get s.events_db id ≡ none) × (delete_event_txn b s id ≡ ok (s, false)))
        ⊎ ((e : Event) × Stored s e
            × (e.id ≡ id)
            × (delete_event_txn b s id ≡ ok (without s e, true)))
  unfolding delete_event_txn remove_indices
  delete_event_txn-cases s id v = elim (Option-cases (events.get s.events_db id)) [
    | inl miss ↦ inl (miss, rw (miss, delete_event_txn))
    | inr (raw, hit) ↦
        let (e, d, same, wf) = v.decodes id raw hit in
        inr (
          e,
          (raw, ap (events.get s.events_db) same ∙ hit, d),
          same,
          rw (hit, delete_event_txn) (rw (d, ← same)),
        )
  ]

  -- Deleting by ids on a coherent store never fails, and leaves just the events with other ids.
  pub delete_ids_lem :
      (s : LmdbStore b) (ids : List Bytes)
      → Coherent s
      → (s' : LmdbStore b) × (delete_ids b s ids ≡ ok s')
        × Coherent s'
        × ((x : Event) → Stored s' x → Stored s x × (elem x.id ids ≡ false))
        × ((x : Event) → Stored s x → elem x.id ids ≡ false → Stored s' x)
  unfolding delete_ids
  delete_ids_lem s [] v = (s, refl, v, (λ x h. (h, refl)), λ x h k. h)
  delete_ids_lem s (id ∷ ids) v = elim (delete_event_txn-cases s id v) [
    | inl (miss, e) ↦
        let (s', r, v', to, from) = delete_ids_lem s ids v in
        (
          s',
          rw e r,
          v',
          (λ x h.
              let (old, out) = to x h in
              (
                old,
                ne_and_out x.id id ids
                    (λ same.
                      none_ne_some (sym miss ∙ sym (ap (events.get s.events_db) same) ∙ old.1))
                    out,
              )),
          λ x h k. from x h (or_out (bytes_eq x.id id) (elem x.id ids) k),
        )
    | inr (e, here, same, f) ↦
        let (s', r, v', to, from) =
          delete_ids_lem (without s e) ids (without-Coherent s e here v) in
        (
          s',
          rw f r,
          v',
          (λ x h.
              let (w, out) = to x h in
              let (old, ne) = Holds-delete b s.events_db e here x w in
              (old, neither (bytes_eq x.id id) _ (apart x.id id e.id same ne) out)),
          λ x h k.
              from x
                (Holds-kept b s.events_db e here x h (apart' x.id id e.id same (or_first _ _ k)))
                (or_out (bytes_eq x.id id) (elem x.id ids) k),
        )
  ]
