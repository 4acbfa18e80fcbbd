-- ===== src/Storage/Query.antt =====
-- src/storage/lmdb.rs, reads: `query`, its index scans and the filter tests.
-- A scan walks the keys of a range from the last to the first. `sort_unstable_by` is an insertion
-- sort; nothing is claimed of the order of events with one timestamp.
pub mod Collect
pub mod Scans
pub mod Tags
pub mod Filters
pub mod Results
pub mod Answers
use moar.Common.{
  ℕ, ◌+◌, ◌-◌, Bool, true, false, ◌&&◌, ◌||◌, Option, none, some, List, [], ◌∷◌, ◌++◌, Bytes,
  length, take, drop, any, ltb, leb, ◌==◌, if◌then◌else◌, bytes_eq, elem, reverse,
}
use moar.Error.{Result, ok, err, ◌>>=◌}
use moar.Nostr.{Event, Filter, Tag}
use moar.Storage.Heed.{Backend}
use moar.Storage.Keys.{
  slice, range_start, range_end, u16_bytes, created_key_len, author_key_len, kind_key_len,
  author_kind_key_len,
}
use moar.Storage.Lmdb.{LmdbStore, decode_event}

-- The inner loop of `check_tags`: a tag of the name with an allowed value.
unfoldable pub has_tag : Bytes → List Bytes → List Tag → Bool
has_tag char_key allowed [] = false
has_tag char_key allowed ((name ∷ value ∷ rest) ∷ tags) =
    (bytes_eq name char_key && elem value allowed) || has_tag char_key allowed tags
has_tag char_key allowed (short ∷ tags) = has_tag char_key allowed tags

unfoldable pub check_tags : List Tag → List (ℕ × List Bytes) → Bool
unfolding has_tag
check_tags tags [] = true
check_tags tags ((char, allowed) ∷ generic) =
    has_tag (char ∷ []) allowed tags && check_tags tags generic

-- An absent list lets everything through.
abbrev pub allows : Option (List Bytes) → Bytes → Bool
allows none x = true
allows (some xs) x = elem x xs

abbrev pub allows_kind : Option (List ℕ) → ℕ → Bool
allows_kind none k = true
allows_kind (some ks) k = any (λ j. k == j) ks

abbrev pub not_before : Option ℕ → ℕ → Bool
not_before none t = true
not_before (some since) t = leb since t

abbrev pub not_after : Option ℕ → ℕ → Bool
not_after none t = true
not_after (some until) t = leb t until

unfoldable pub event_matches_filter : Event → Filter → Bool
event_matches_filter event f =
    allows f.ids event.id
    && (allows_kind f.kinds event.kind
        && (allows f.authors event.pubkey
            && (not_before f.since event.created_at
                && (not_after f.until event.created_at && check_tags event.tags f.generic_tags))))

unfoldable pub event_matches_no_author : Event → Filter → Bool
event_matches_no_author event f =
    allows_kind f.kinds event.kind && check_tags event.tags f.generic_tags

unfoldable pub event_matches_no_kind : Event → Filter → Bool
event_matches_no_kind event f =
    allows f.authors event.pubkey && check_tags event.tags f.generic_tags

unfoldable pub event_matches_tags_only : Event → Filter → Bool
event_matches_tags_only event f = check_tags event.tags f.generic_tags

unfoldable pub insert_by_time : Event → List Event → List Event
insert_by_time e [] = e ∷ []
insert_by_time e (x ∷ xs) =
    if ltb e.created_at x.created_at then x ∷ insert_by_time e xs else e ∷ x ∷ xs

-- Newest first.
unfoldable pub sort_by_time : List Event → List Event
unfolding insert_by_time
sort_by_time [] = []
sort_by_time (e ∷ es) = insert_by_time e (sort_by_time es)

abbrev pub limit_of : Filter → ℕ
limit_of f = elim f.limit [ none ↦ 100 | some n ↦ n ]

abbrev pub since_of : Filter → ℕ
since_of f = elim f.since [ none ↦ 0 | some t ↦ t ]

abbrev pub until_of : Filter → ℕ
until_of f = elim f.until [ none ↦ 0xffffffffffffffff | some t ↦ t ]

-- `for x in xs`, over the candidates.
unfoldable pub for_each {ℓ} :
    {A : Type ℓ}
    → (A → List Event → Result (List Event))
    → List A
    → List Event
    → Result (List Event)
for_each f [] candidates = ok candidates
for_each f (x ∷ xs) candidates = do candidates' ← f x candidates; for_each f xs candidates'

module _ (b : Backend) (s : LmdbStore b) where
  open b use {events, index}

  -- One key of a scan: the event under its id, if it is there and matches.
  unfoldable pub visit : (Event → Bool) → Bytes → ℕ × List Event → Result (ℕ × List Event)
  visit matches id (count, candidates) = elim (events.get s.events_db id) [
    | none ↦ ok (count, candidates)
    | some raw ↦ do
      event ← decode_event b raw
      ok (if matches event then (count + 1, candidates ++ event ∷ []) else (count, candidates))
  ]

  -- The loop that the five scans share: `key_len` is the length of a whole key, `id_of` the part
  -- that holds the id, and the loop ends when `limit` events were found.
  unfoldable pub scan_keys :
      (Event → Bool) → ℕ → (Bytes → Bytes) → ℕ → List Bytes → ℕ × List Event → Result (List Event)
  unfolding visit
  scan_keys matches key_len id_of limit [] acc = ok acc.1
  scan_keys matches key_len id_of limit (key ∷ keys) acc = elim (ltb (length key) key_len) [
    | true ↦ scan_keys matches key_len id_of limit keys acc
    | false ↦ do
      acc' ← visit matches (id_of key) acc
      elim (leb limit acc'.0) [
        | true ↦ ok acc'.1
        | false ↦ scan_keys matches key_len id_of limit keys acc'
      ]
  ]

  unfoldable pub scan_author_kind_index : Filter → Bytes → ℕ → List Event → Result (List Event)
  unfolding scan_keys
  scan_author_kind_index f pubkey kind candidates =
      scan_keys (λ e. event_matches_tags_only e f) author_kind_key_len (slice 42 74) (limit_of f)
        (reverse (
          index.range s.index_author_kind (range_start (pubkey ++ u16_bytes kind) (since_of f))
            (range_end (pubkey ++ u16_bytes kind) (until_of f))))
        (0, candidates)

  unfoldable pub scan_author_index : Filter → Bytes → List Event → Result (List Event)
  unfolding scan_keys
  scan_author_index f pubkey candidates =
      scan_keys (λ e. event_matches_no_author e f) author_key_len (slice 40 72) (limit_of f)
        (reverse (
          index.range s.index_author (range_start pubkey (since_of f))
            (range_end pubkey (until_of f))))
        (0, candidates)

  unfoldable pub scan_kind_index : Filter → ℕ → List Event → Result (List Event)
  unfolding scan_keys
  scan_kind_index f kind candidates =
      scan_keys (λ e. event_matches_no_kind e f) kind_key_len (slice 10 42) (limit_of f)
        (reverse (
          index.range s.index_kind (range_start (u16_bytes kind) (since_of f))
            (range_end (u16_bytes kind) (until_of f))))
        (0, candidates)

  unfoldable pub scan_tag_index : Filter → Bytes → Bytes → List Event → Result (List Event)
  unfolding scan_keys
  scan_tag_index f tag_key tag_val candidates =
      scan_keys (λ e. event_matches_filter e f) 40 (λ key. drop (length key - 32) key) (limit_of f)
        (reverse (
          index.range s.index_tag (range_start (tag_key ++ 0 ∷ (tag_val ++ 0 ∷ [])) (since_of f))
            (range_end (tag_key ++ 0 ∷ (tag_val ++ 0 ∷ [])) (until_of f))))
        (0, candidates)

  unfoldable pub scan_created_index : Filter → List Event → Result (List Event)
  unfolding scan_keys
  scan_created_index f candidates =
      scan_keys (λ e. event_matches_filter e f) created_key_len (slice 8 40) (limit_of f)
        (reverse
          (index.range s.index_created (range_start [] (since_of f)) (range_end [] (until_of f))))
        (0, candidates)

  -- The loop over `filter.ids`.
  unfoldable pub lookup_id : Filter → Bytes → List Event → Result (List Event)
  lookup_id f id found = elim (events.get s.events_db id) [
    | none ↦ ok found
    | some raw ↦ do
      event ← decode_event b raw
      ok (if event_matches_filter event f then found ++ event ∷ [] else found)
  ]

  -- The index that the filter asks for, in the order in which the code tries them.
  unfoldable pub scan_generic : Filter → List (ℕ × List Bytes) → List Event → Result (List Event)
  unfolding scan_tag_index scan_created_index for_each
  scan_generic f [] = scan_created_index f
  scan_generic f ((char, values) ∷ _) = for_each (scan_tag_index f (char ∷ [])) values

  unfoldable pub candidates_for :
      Filter → Option (List Bytes) → Option (List ℕ) → List Event → Result (List Event)
  unfolding scan_author_kind_index scan_author_index scan_kind_index scan_generic for_each
  candidates_for f (some authors) (some kinds) =
      for_each (λ pubkey. for_each (scan_author_kind_index f pubkey) kinds) authors
  candidates_for f (some authors) none = for_each (scan_author_index f) authors
  candidates_for f none (some kinds) = for_each (scan_kind_index f) kinds
  candidates_for f none none = scan_generic f f.generic_tags

  unfoldable pub query : Filter → Result (List Event)
  unfolding candidates_for lookup_id for_each sort_by_time
  query f = elim f.ids [
    | some ids ↦ do
      found ← for_each (lookup_id f) ids []
      ok (take (limit_of f) (sort_by_time found))
    | none ↦ do
      candidates ← candidates_for f f.authors f.kinds []
      ok (take (limit_of f) (sort_by_time candidates))
  ]
