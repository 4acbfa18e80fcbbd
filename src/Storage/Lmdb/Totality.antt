-- ===== src/Storage/Lmdb/Totality.antt =====
-- src/storage/lmdb.rs: a save succeeds when its keys fit.
use moar.Common.{
  ◌≡◌, refl, ◌<◌, ◌≤◌, ◌==◌, Bytes, List, [], ◌∷◌, ◌++◌, arith, length, length-append, Bool-cases,
  Option-cases, inl, inr, All,
}
use moar.Error.{ok}
use moar.Nostr.{Event, Tag, IsEvent}
use moar.Storage.Heed.{Backend}
use moar.Storage.Keys.{
  encode_created_key, encode_author_key, encode_kind_key, encode_author_kind_key, encode_tag_key,
  u64_bytes, u16_bytes,
}
use moar.Storage.Keys.Order.{length-to_be_bytes}
use moar.Storage.Lmdb.{LmdbStore, tag_keys, put_all, insert_indices, insert_event, save_event}
use moar.Storage.Lmdb.Coherence.{Coherent}
use moar.Storage.Lmdb.Save.{handle_replaceable_lem}

-- The keys of all tags are short enough for LMDB.
abbrev pub FitsTags : Event → Type 0
FitsTags e = All (λ k. length k ≤ 511) (tag_keys e.tags e)

abbrev IsKey : Bytes → Type 0
IsKey k = (0 < length k) × (length k ≤ 511)

fixed_sizes :
    (e : Event)
    → IsEvent e
    → All IsKey (encode_created_key e ∷ [])
      × All IsKey (encode_author_key e ∷ [])
      × All IsKey (encode_kind_key e ∷ [])
      × All IsKey (encode_author_kind_key e ∷ [])
unfolding encode_created_key encode_author_key encode_kind_key encode_author_kind_key
fixed_sizes e v =
    let t = length-to_be_bytes 8 e.created_at in
    let k = length-to_be_bytes 2 e.kind in
    let r = length-append (u64_bytes e.created_at) e.id in
    let rest = u64_bytes e.created_at ++ e.id in
    omega (
      arith,
      t,
      k,
      r,
      v.id_length,
      v.pubkey_length,
      length-append e.pubkey rest,
      length-append (u16_bytes e.kind) rest,
      length-append (e.pubkey ++ u16_bytes e.kind) rest,
      length-append e.pubkey (u16_bytes e.kind),
    )

tag_sizes :
    (tags : List Tag) (e : Event)
    → All (λ k. length k ≤ 511) (tag_keys tags e)
    → All IsKey (tag_keys tags e)
unfolding tag_keys encode_tag_key
tag_sizes [] e h = tt
tag_sizes ([] ∷ tags) e h = tag_sizes tags e h
tag_sizes ((name ∷ []) ∷ tags) e h = tag_sizes tags e h
tag_sizes ((name ∷ value ∷ rest) ∷ tags) e h = elim (Bool-cases (length name == 1)) [
  | inr skip ↦ rw skip (tag_sizes tags e (rw skip at h))
  | inl here ↦
      let h' : All (λ k. length k ≤ 511) (encode_tag_key name value e ∷ tag_keys tags e) =
        rw here at h in
      rw here (
        (
          omega (
            arith,
            length-append (name ++ 0 ∷ (value ++ 0 ∷ [])) (u64_bytes e.created_at ++ e.id),
            length-append name (0 ∷ (value ++ 0 ∷ [])),
          ),
          h'.0,
        ),
        tag_sizes tags e h'.1,
      )
]

module _ (b : Backend) where
  open b use {events, index, serde}

  put_all_total :
      (t : index.Table) (ks : List Bytes)
      → All (λ k. (0 < length k) × (length k ≤ 511)) ks
      → (t' : index.Table) × (put_all b t ks ≡ ok t')
  unfolding put_all
  put_all_total t [] h = (t, refl)
  put_all_total t (k ∷ ks) h =
      let (u, e) = index.put_fits t k tt h.0.0 h.0.1 in
      let (t', r) = put_all_total u ks h.1 in (t', rw e r)

  insert_total :
      (s : LmdbStore b) (e : Event)
      → IsEvent e
      → FitsTags e
      → (s' : LmdbStore b) × (insert_event b s e ≡ ok s')
  unfolding insert_event insert_indices
  insert_total s e wf fits =
      let (db, p) =
        events.put_fits s.events_db e.id (serde.to_vec e) (omega (arith, wf.id_length))
          (omega (arith, wf.id_length)) in
      let (t₁, r₁) =
        put_all_total s.index_created (encode_created_key e ∷ []) (fixed_sizes e wf).0 in
      let (t₂, r₂) = put_all_total s.index_author (encode_author_key e ∷ []) (fixed_sizes e wf).1 in
      let (t₃, r₃) = put_all_total s.index_kind (encode_kind_key e ∷ []) (fixed_sizes e wf).2 in
      let (t₄, r₄) =
        put_all_total s.index_author_kind (encode_author_kind_key e ∷ []) (fixed_sizes e wf).3 in
      let (t₅, r₅) = put_all_total s.index_tag (tag_keys e.tags e) (tag_sizes e.tags e fits) in
      (
        record {
          events_db = db;
          index_created = t₁;
          index_author = t₂;
          index_kind = t₃;
          index_tag = t₅;
          index_author_kind = t₄;
        },
        rw (p, r₁, r₂, r₃, r₄, r₅),
      )

  -- On a coherent store a save succeeds if no key of the event's tags is longer than 511 bytes.
  pub save_event_total :
      (s : LmdbStore b) (e : Event)
      → Coherent b s
      → IsEvent e
      → FitsTags e
      → (s' : LmdbStore b) × (save_event b s e ≡ ok s')
  unfolding save_event
  save_event_total s e v wf fits = elim (Option-cases (events.get s.events_db e.id)) [
    | inr (raw, hit) ↦ (s, rw hit)
    | inl fresh ↦ elim (handle_replaceable_lem b s e v wf) [
      | inl (r, _) ↦ (s, rw (fresh, r))
      | inr (m, r, _, _, _, _) ↦ let (s', i) = insert_total m e wf fits in (s', rw (fresh, r) i)
    ]
  ]
