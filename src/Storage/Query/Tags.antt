-- ===== src/Storage/Query/Tags.antt =====
-- The scan of the tag index. Its range may hold keys of other tags, if a value has a zero byte, but
-- it holds all keys of the tag that is asked for.
use moar.Common.{
  ℕ, ◌≡◌, refl, sym, ap, ◌∙◌, ◌<◌, ◌+◌, ◌-◌, ◌^◌, true, ◌&&◌, Bytes, List, [], ◌∷◌, ◌++◌, arith,
  bytes_eq, bytes_eq_refl, bytes_eq→eq, ◌==◌, length, length-append, elem, drop, drop_left,
  append_assoc, Bool-cases, inl, inr, and_elim, and_intro, or_left, or_right,
}
use moar.Nostr.{Event, Filter, Tag}
use moar.Storage.Heed.{Backend}
use moar.Storage.Keys.{u64_bytes, range_start, range_end, encode_tag_key}
use moar.Storage.Keys.Order.{length-to_be_bytes}
use moar.Storage.Keys.Ranges.{in_range_lem}
use moar.Storage.Lmdb.{LmdbStore, tag_keys}
use moar.Storage.Lmdb.Index.{Holds-IsEvent}
use moar.Storage.Lmdb.Coherence.{Coherent, Stored}
use moar.Storage.Query.{since_of, until_of, limit_of, event_matches_filter, has_tag, scan_tag_index}
use moar.Storage.Query.Collect.{Collects, Hit, scan-Collects}
use moar.Storage.Query.Scans.{in_time}

-- The tag's value is one of those allowed, and the tag has a key in the index.
has_tag-key :
    (c : ℕ) (allowed : List Bytes) (tags : List Tag) (e : Event)
    → has_tag (c ∷ []) allowed tags ≡ true
    → (value : Bytes) × (elem value allowed ≡ true)
      × (elem (encode_tag_key (c ∷ []) value e) (tag_keys tags e) ≡ true)
unfolding has_tag tag_keys
has_tag-key c allowed [] e h = cc
has_tag-key c allowed ([] ∷ tags) e h = has_tag-key c allowed tags e h
has_tag-key c allowed ((name ∷ []) ∷ tags) e h = has_tag-key c allowed tags e h
has_tag-key c allowed ((name ∷ value ∷ rest) ∷ tags) e h =
    elim (Bool-cases (bytes_eq name (c ∷ []) && elem value allowed)) [
      | inl here ↦
          let (n, m) = and_elim _ _ here in
          let name=c : name ≡ c ∷ [] = bytes_eq→eq name (c ∷ []) n in
          let one : length name == 1 ≡ true = rw name=c in
          (
            value,
            m,
            rw (one, name=c) (or_left _ _ (bytes_eq_refl (encode_tag_key (c ∷ []) value e))),
          )
      | inr there ↦
          let (w, m, k) = has_tag-key c allowed tags e (rw there at h) in
          (
            w,
            m,
            elim (Bool-cases (length name == 1)) [
              | inl one ↦ rw one (or_right _ _ k)
              | inr more ↦ rw more k
            ],
          )
    ]

module _ (b : Backend) (s : LmdbStore b) (v : Coherent b s) (f : Filter)
    (small : (since_of f < 2 ^ 64) × (until_of f < 2 ^ 64)) where
  open b use {index}

  abbrev tag_part : ℕ → Bytes → Bytes
  tag_part c value = (c ∷ []) ++ 0 ∷ (value ++ 0 ∷ [])

  abbrev pub tag_keys_in : ℕ → Bytes → List Bytes
  tag_keys_in c value =
      index.range s.index_tag (range_start (tag_part c value) (since_of f))
        (range_end (tag_part c value) (until_of f))

  abbrev pub TagHit : ℕ → Bytes → Event → Type 0
  TagHit c value =
      Hit b s v.decodes (λ e. event_matches_filter e f) 40 (λ key. drop (length key - 32) key)
        (limit_of f) (tag_keys_in c value)

  pub scan_tag_index-Collects :
      (c : ℕ) (value : Bytes)
      → Collects (limit_of f) (scan_tag_index b s f (c ∷ []) value) (TagHit c value)
  unfolding scan_tag_index
  scan_tag_index-Collects c value =
      scan-Collects b s v.decodes (λ e. event_matches_filter e f) 40
        (λ key. drop (length key - 32) key) (limit_of f) (tag_keys_in c value)

  -- A stored event in time with the tag is hit by the scan for one of the allowed values.
  pub tag-hit :
      (c : ℕ) (allowed : List Bytes) (e : Event)
      → Stored b s e
      → event_matches_filter e f ≡ true
      → in_time f e ≡ true
      → has_tag (c ∷ []) allowed e.tags ≡ true
      → (value : Bytes) × (elem value allowed ≡ true) × TagHit c value e
  unfolding encode_tag_key
  tag-hit c allowed e held good time tagged =
      let (value, m, k) = has_tag-key c allowed e.tags e tagged in
      let w = Holds-IsEvent b s.events_db e v.decodes held in
      let key = tag_part c value ++ (u64_bytes e.created_at ++ e.id) in
      let size : length key ≡ length (tag_part c value ++ u64_bytes e.created_at) + 32 =
        ap length (sym (append_assoc (tag_part c value) (u64_bytes e.created_at) e.id))
        ∙ length-append (tag_part c value ++ u64_bytes e.created_at) e.id
        ∙ ap (λ n. length (tag_part c value ++ u64_bytes e.created_at) + n) w.id_length in
      let big = length-append (tag_part c value) (u64_bytes e.created_at) in
      let eight = length-to_be_bytes 8 e.created_at in
      (
        value,
        m,
        (
          held,
          good,
          (
            key,
            index.elem-range s.index_tag _ _ key
                ∙ and_intro _ _ (v.tag.complete e key held k) (
                    in_range_lem (tag_part c value) (tag_part c value) (since_of f) (until_of f)
                      e.created_at e.id refl small.0 small.1 w.created_at_u64 w.id_length w.id_bytes
                    ∙ and_intro _ _ (bytes_eq_refl (tag_part c value)) time),
            omega (arith, size, big, eight),
            ap (drop (length key - 32))
                  (sym (append_assoc (tag_part c value) (u64_bytes e.created_at) e.id))
                ∙ drop_left (length key - 32) (tag_part c value ++ u64_bytes e.created_at) e.id
                    (omega (arith, size)),
          ),
        ),
      )
