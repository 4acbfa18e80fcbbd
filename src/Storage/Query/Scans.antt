-- ===== src/Storage/Query/Scans.antt =====
-- The five index scans: each collects the stored events that pass its part of the filter.
use moar.Common.{
  ℕ, ◌≡◌, refl, subst, sym, ap, ◌∙◌, ◌<◌, ◌+◌, ◌-◌, ◌^◌, Bool, true, ◌&&◌, Bytes, List, [], ◌∷◌,
  ◌++◌, arith, bytes_eq, bytes_eq_refl, bytes_eq→eq, leb, length, length-append, elem, take, drop,
  drop_left, take_of_length-le, append_assoc, is_some, and_elim, and_intro, or_left, reverse,
}
use moar.Nostr.{Event, Filter, IsEvent}
use moar.Storage.Heed.{Backend}
use moar.Storage.Keys.{
  u64_bytes, u16_bytes, slice, range_start, range_end, encode_created_key, encode_author_key,
  encode_kind_key, encode_author_kind_key,
}
use moar.Storage.Keys.Order.{length-to_be_bytes}
use moar.Storage.Keys.Ranges.{in_range, in_range_lem}
use moar.Storage.Lmdb.{LmdbStore}
use moar.Storage.Lmdb.Index.{Holds-unique, Holds-IsEvent, IsIndex}
use moar.Storage.Lmdb.Coherence.{Coherent, Stored}
use moar.Storage.Lmdb.Replace.{or_false}
use moar.Storage.Query.{
  since_of, until_of, limit_of, event_matches_tags_only, event_matches_no_author,
  event_matches_no_kind, event_matches_filter, scan_author_kind_index, scan_author_index,
  scan_kind_index, scan_created_index, scan_keys,
}
use moar.Storage.Query.Collect.{Collects, Hit, scan-Collects}

-- The timestamp lies between the filter's two.
abbrev pub in_time : Filter → Event → Bool
in_time f e = leb (since_of f) e.created_at && leb e.created_at (until_of f)

-- What a scan of an index with one key for each event collects.
abbrev pub Good :
    (b : Backend) → LmdbStore b → (Event → Bool) → Filter → (Event → Bool) → Event → Type 0
Good b s fixed f matches e =
    Stored b s e × (fixed e ≡ true) × (in_time f e ≡ true) × (matches e ≡ true)

module _ (b : Backend) (s : LmdbStore b) (v : Coherent b s) (f : Filter)
    (small : (since_of f < 2 ^ 64) × (until_of f < 2 ^ 64)) where
  open b use {index}

  -- Such an index is scanned: `part` is what its keys begin with, `fixed` what the scan asks of it.
  module _ (table : index.Table) (part : Event → Bytes) (fixed : Bytes) (size : ℕ)
      (is_index : IsIndex b
        (λ e. (part e ++ (u64_bytes e.created_at ++ e.id)) ∷ [])
        table
        s.events_db)
      (fixed_size : length fixed ≡ size)
      (part_size : (e : Event) → IsEvent e → length (part e) ≡ size) where
    abbrev key_of : Event → Bytes
    key_of e = part e ++ (u64_bytes e.created_at ++ e.id)

    abbrev keys_in : List Bytes
    keys_in = index.range table (range_start fixed (since_of f)) (range_end fixed (until_of f))

    key_size : (e : Event) → IsEvent e → length (key_of e) ≡ size + 40
    key_size e w = omega (
      arith,
      length-append (part e) (u64_bytes e.created_at ++ e.id),
      length-append (u64_bytes e.created_at) e.id,
      length-to_be_bytes 8 e.created_at,
      part_size e w,
      w.id_length,
    )

    key_tail : (e : Event) → IsEvent e → slice (size + 8) (size + 40) (key_of e) ≡ e.id
    key_tail e w =
        let head = part e ++ u64_bytes e.created_at in
        let n : length head ≡ size + 8 = omega (
          arith,
          length-append (part e) (u64_bytes e.created_at),
          length-to_be_bytes 8 e.created_at,
          part_size e w,
        ) in
        ap (λ k. take (size + 40 - (size + 8)) (drop (size + 8) k))
          (sym (append_assoc (part e) (u64_bytes e.created_at) e.id))
        ∙ ap (take (size + 40 - (size + 8))) (drop_left (size + 8) head e.id n)
        ∙ take_of_length-le (size + 40 - (size + 8)) e.id (omega (arith, w.id_length))

    key_range :
        (e : Event)
        → IsEvent e
        → in_range (range_start fixed (since_of f)) (range_end fixed (until_of f)) (key_of e)
          ≡ (bytes_eq fixed (part e) && in_time f e)
    key_range e w =
        in_range_lem fixed (part e) (since_of f) (until_of f) e.created_at e.id
          (fixed_size ∙ sym (part_size e w)) small.0 small.1 w.created_at_u64 w.id_length w.id_bytes

    abbrev has_fixed : Event → Bool
    has_fixed x = bytes_eq fixed (part x)

    -- A key of the range is that of a stored event that the scan asks for.
    key_owner :
        (key : Bytes)
        → elem key keys_in ≡ true
        → (x : Event) × Stored b s x × (key ≡ key_of x) × (has_fixed x && in_time f x ≡ true)
    key_owner key m =
        let (there, between) =
          and_elim (is_some (index.get table key)) _ (sym (index.elem-range table _ _ key) ∙ m) in
        let (x, held, k) = is_index.sound key there in
        let same : key ≡ key_of x = bytes_eq→eq _ _ (or_false _ k) in
        (
          x,
          held,
          same,
          sym (key_range x (Holds-IsEvent b s.events_db x v.decodes held))
              ∙ ap (in_range _ _) (sym same)
              ∙ between,
        )

    module _ (matches : Event → Bool) (limit : ℕ) where
      abbrev Hits : Event → Type 0
      Hits = Hit b s v.decodes matches (size + 40) (slice (size + 8) (size + 40)) limit keys_in

      hit-Good : (e : Event) → Hits e → Good b s has_fixed f matches e
      hit-Good e (held, good, (key, m, whole, i)) =
          let (x, held', same, p) = key_owner key m in
          let w = Holds-IsEvent b s.events_db x v.decodes held' in
          let ids : x.id ≡ e.id =
            sym (key_tail x w) ∙ ap (slice (size + 8) (size + 40)) (sym same) ∙ i in
          let x=e : x ≡ e = Holds-unique b s.events_db x e held' held ids in
          let (a, t) = and_elim _ _ (subst (λ y. has_fixed y && in_time f y ≡ true) x=e p) in
          (held, a, t, good)

      Good-hit : (e : Event) → Good b s has_fixed f matches e → Hits e
      Good-hit e (held, a, t, good) =
          let w = Holds-IsEvent b s.events_db e v.decodes held in
          let there =
            is_index.complete e (key_of e) held (or_left _ _ (bytes_eq_refl (key_of e))) in
          let between = key_range e w ∙ and_intro _ _ a t in
          (
            held,
            good,
            (
              key_of e,
              index.elem-range table _ _ (key_of e) ∙ and_intro _ _ there between,
              omega (arith, key_size e w),
              key_tail e w,
            ),
          )

      index-Collects :
          Collects limit
            (λ cs.
              scan_keys b s matches
                (size + 40)
                (slice (size + 8) (size + 40))
                limit
                (reverse keys_in)
                (0, cs))
            (Good b s has_fixed f matches)
      index-Collects cs =
          let (new, r, sound, complete) =
            scan-Collects b s v.decodes matches (size + 40) (slice (size + 8) (size + 40)) limit
              keys_in cs in
          (new, r, (λ e m. hit-Good e (sound e m)), λ few e g. complete few e (Good-hit e g))

  -- `scan_author_kind_index` collects the author's stored events of the kind.
  pub scan_author_kind_index-Collects :
      (pubkey : Bytes) (kind : ℕ)
      → length pubkey ≡ 32
      → Collects (limit_of f) (scan_author_kind_index b s f pubkey kind) (
          Good b s
            (λ e. bytes_eq (pubkey ++ u16_bytes kind) (e.pubkey ++ u16_bytes e.kind))
            f
            (λ e. event_matches_tags_only e f))
  unfolding scan_author_kind_index encode_author_kind_key
  scan_author_kind_index-Collects pubkey kind n =
      index-Collects s.index_author_kind (λ e. e.pubkey ++ u16_bytes e.kind)
        (pubkey ++ u16_bytes kind) 34 v.author_kind
        (omega (arith, length-append pubkey (u16_bytes kind), length-to_be_bytes 2 kind))
        (λ e w. omega (
          arith,
          length-append e.pubkey (u16_bytes e.kind),
          length-to_be_bytes 2 e.kind,
          w.pubkey_length,
        ))
        (λ e. event_matches_tags_only e f) (limit_of f)

  pub scan_author_index-Collects :
      (pubkey : Bytes)
      → length pubkey ≡ 32
      → Collects
          (limit_of f)
          (scan_author_index b s f pubkey)
          (Good b s (λ e. bytes_eq pubkey e.pubkey) f (λ e. event_matches_no_author e f))
  unfolding scan_author_index encode_author_key
  scan_author_index-Collects pubkey n =
      index-Collects s.index_author (λ e. e.pubkey) pubkey 32 v.author n (λ e w. w.pubkey_length)
        (λ e. event_matches_no_author e f) (limit_of f)

  pub scan_kind_index-Collects :
      (kind : ℕ)
      → Collects (limit_of f) (scan_kind_index b s f kind) (
          Good b s
            (λ e. bytes_eq (u16_bytes kind) (u16_bytes e.kind))
            f
            (λ e. event_matches_no_kind e f))
  unfolding scan_kind_index encode_kind_key
  scan_kind_index-Collects kind =
      index-Collects s.index_kind (λ e. u16_bytes e.kind) (u16_bytes kind) 2 v.kind
        (length-to_be_bytes 2 kind) (λ e w. length-to_be_bytes 2 e.kind)
        (λ e. event_matches_no_kind e f) (limit_of f)

  pub scan_created_index-Collects :
      Collects
        (limit_of f)
        (scan_created_index b s f)
        (Good b s (λ e. bytes_eq [] []) f (λ e. event_matches_filter e f))
  unfolding scan_created_index encode_created_key
  scan_created_index-Collects =
      index-Collects s.index_created (λ e. []) [] 0 v.created refl (λ e w. refl)
        (λ e. event_matches_filter e f) (limit_of f)
