-- ===== src/Storage/Lmdb.antt =====
-- src/storage/lmdb.rs, writes: `save_event`, `delete_event` and what they are made of.
-- A write transaction is the store that it builds: `ok` is its commit, and an error or an early
-- return leaves the store as it was.
pub mod Owners
pub mod Index
pub mod Coherence
pub mod Rivals
pub mod Replace
pub mod Save
pub mod Guarantees
pub mod Totality
use moar.Common.{
  ℕ, suc, ◌+◌, ◌-◌, ◌≤◌, Bool, true, false, not, ◌&&◌, ◌||◌, Option, none, some, List, [], ◌∷◌,
  ◌++◌, Bytes, length, take, drop, ltb, leb, ◌==◌, if◌then◌else◌, bytes_eq, lex_leb, is_some,
}
use moar.Error.{Error, heed, json, Result, ok, err, ◌>>=◌, ok_or}
use moar.Nostr.{Event, Tag}
use moar.Storage.Heed.{Database, Serde, Backend}
use moar.Storage.Keys.{
  slice, from_be_bytes, author_kind_key_len, encode_created_key, encode_author_key, encode_kind_key,
  encode_author_kind_key, encode_tag_key, make_author_kind_range_start, make_author_kind_range_end,
}

unfoldable pub is_replaceable : ℕ → Bool
is_replaceable kind = (kind == 0) || ((kind == 3) || (leb 10000 kind && ltb kind 20000))

unfoldable pub is_parameterized_replaceable : ℕ → Bool
is_parameterized_replaceable kind = leb 30000 kind && ltb kind 40000

-- The value of the first tag of two or more elements that is named `d`.
unfoldable pub get_d_tag : List Tag → Option Bytes
get_d_tag [] = none
get_d_tag ((name ∷ value ∷ rest) ∷ tags) =
    if bytes_eq name (b'd' ∷ []) then some value else get_d_tag tags
get_d_tag (short ∷ tags) = get_d_tag tags

-- `unwrap_or_default` of a tag's value.
abbrev pub unwrap_or_default : Option Bytes → Bytes
unwrap_or_default none = []
unwrap_or_default (some v) = v

-- The keys in the tag index: one for each tag with a value whose name is one byte.
unfoldable pub tag_keys : List Tag → Event → List Bytes
tag_keys [] event = []
tag_keys ((name ∷ value ∷ rest) ∷ tags) event =
    if length name == 1
    then encode_tag_key name value event ∷ tag_keys tags event
    else tag_keys tags event
tag_keys (short ∷ tags) event = tag_keys tags event

-- Whether an event with this timestamp and id stays, and the new one is dropped.
unfoldable pub outranks : ℕ → Bytes → Event → Bool
outranks existing_ts existing_id event =
    ltb event.created_at existing_ts
    || ((existing_ts == event.created_at) && not (lex_leb existing_id event.id))

-- `dominated` and `to_delete` of `handle_replaceable`.
abbrev pub Found : Type 0
Found = Bool × List Bytes

abbrev pub weigh : Event → ℕ → Bytes → Found → Found
weigh event ts id (dominated, to_delete) =
    if outranks ts id event then (true, to_delete) else (dominated, to_delete ++ id ∷ [])

unfoldable pub examine : Event → List Bytes → Found → Found
unfolding outranks
examine event [] found = found
examine event (key ∷ keys) found =
    let id = slice 42 74 key in
    examine event keys (
      if ltb (length key) author_kind_key_len || bytes_eq id event.id
      then found
      else weigh event (from_be_bytes 0 (slice 34 42 key)) id found)

-- The same for a kind with a `d` tag: only events with the same one count.
abbrev pub weigh_with_tag : Event → ℕ → Bytes → Found → Event → Found
weigh_with_tag event ts id found existing =
    if bytes_eq (unwrap_or_default (get_d_tag existing.tags))
      (unwrap_or_default (get_d_tag event.tags))
    then weigh event ts id found
    else found

module _ (b : Backend) where
  open b use {events, index, serde}

  pub record LmdbStore : Type 0 where
    pub events_db : events.Table
    pub index_created : index.Table
    pub index_author : index.Table
    pub index_kind : index.Table
    pub index_tag : index.Table
    pub index_author_kind : index.Table

  -- `LmdbStore::new` on a directory with no data.
  abbrev pub new_store : LmdbStore
  new_store = record {
    events_db = events.empty;
    index_created = index.empty;
    index_author = index.empty;
    index_kind = index.empty;
    index_tag = index.empty;
    index_author_kind = index.empty;
  }

  unfoldable pub put_all : index.Table → List Bytes → Result index.Table
  put_all t [] = ok t
  put_all t (k ∷ ks) = do t' ← ok_or heed (index.put t k tt); put_all t' ks

  unfoldable pub delete_all : index.Table → List Bytes → index.Table
  delete_all t [] = t
  delete_all t (k ∷ ks) = delete_all (index.delete t k) ks

  unfoldable pub insert_indices : LmdbStore → Event → Result LmdbStore
  unfolding put_all
  insert_indices s event = do
    created ← put_all s.index_created (encode_created_key event ∷ [])
    author ← put_all s.index_author (encode_author_key event ∷ [])
    kind ← put_all s.index_kind (encode_kind_key event ∷ [])
    author_kind ← put_all s.index_author_kind (encode_author_kind_key event ∷ [])
    tag ← put_all s.index_tag (tag_keys event.tags event)
    ok (record {
      events_db = s.events_db;
      index_created = created;
      index_author = author;
      index_kind = kind;
      index_tag = tag;
      index_author_kind = author_kind;
    })

  unfoldable pub remove_indices : LmdbStore → Event → LmdbStore
  unfolding delete_all
  remove_indices s event = record {
    events_db = s.events_db;
    index_created = delete_all s.index_created (encode_created_key event ∷ []);
    index_author = delete_all s.index_author (encode_author_key event ∷ []);
    index_kind = delete_all s.index_kind (encode_kind_key event ∷ []);
    index_tag = delete_all s.index_tag (tag_keys event.tags event);
    index_author_kind = delete_all s.index_author_kind (encode_author_kind_key event ∷ []);
  }

  abbrev pub decode_event : Bytes → Result Event
  decode_event raw = ok_or json (serde.from_slice raw)

  unfoldable pub delete_event_txn : LmdbStore → Bytes → Result (LmdbStore × Bool)
  unfolding remove_indices
  delete_event_txn s id = elim (events.get s.events_db id) [
    | none ↦ ok (s, false)
    | some raw ↦ do
      event ← decode_event raw
      let s' = remove_indices s event
      ok (record s' { events_db = events.delete s'.events_db id }, true)
  ]

  -- The `for id in &to_delete` loops.
  unfoldable pub delete_ids : LmdbStore → List Bytes → Result LmdbStore
  unfolding delete_event_txn
  delete_ids s [] = ok s
  delete_ids s (id ∷ ids) = do (s', _) ← delete_event_txn s id; delete_ids s' ids

  abbrev pub examine_one : LmdbStore → Event → Bytes → Found → Result Found
  examine_one s event key found =
      let id = slice 42 74 key in
      if ltb (length key) author_kind_key_len || bytes_eq id event.id
      then ok found
      else (elim (events.get s.events_db id) [
        | none ↦ ok found
        | some raw ↦ do
          existing ← decode_event raw
          ok (weigh_with_tag event (from_be_bytes 0 (slice 34 42 key)) id found existing)
      ])

  unfoldable pub examine_with_tag : LmdbStore → Event → List Bytes → Found → Result Found
  unfolding outranks
  examine_with_tag s event [] found = ok found
  examine_with_tag s event (key ∷ keys) found = do
    found' ← examine_one s event key found
    examine_with_tag s event keys found'

  -- The keys of the author's events of this kind.
  abbrev pub author_kind_keys : LmdbStore → Event → List Bytes
  author_kind_keys s event =
      index.range s.index_author_kind (make_author_kind_range_start event.pubkey event.kind)
        (make_author_kind_range_end event.pubkey event.kind)

  -- `true` means that a newer event is there and the insert is skipped.
  unfoldable pub settle : LmdbStore → Found → Result (LmdbStore × Bool)
  unfolding delete_ids
  settle s (true, to_delete) = ok (s, true)
  settle s (false, to_delete) = do s' ← delete_ids s to_delete; ok (s', false)

  unfoldable pub handle_replaceable : LmdbStore → Event → Result (LmdbStore × Bool)
  unfolding settle examine examine_with_tag
  handle_replaceable s event =
      if is_replaceable event.kind
      then settle s (examine event (author_kind_keys s event) (false, []))
      else if is_parameterized_replaceable event.kind
      then (do
        found ← examine_with_tag s event (author_kind_keys s event) (false, [])
        settle s found)
      else ok (s, false)

  -- The put of the raw event and of its index entries, and the commit.
  unfoldable pub insert_event : LmdbStore → Event → Result LmdbStore
  unfolding insert_indices
  insert_event s event = do
    events_db ← ok_or heed (events.put s.events_db event.id (serde.to_vec event))
    insert_indices (record s { events_db = events_db }) event

  abbrev pub insert_unless : Event → LmdbStore → LmdbStore × Bool → Result LmdbStore
  insert_unless event s (s', true) = ok s
  insert_unless event s (s', false) = insert_event s' event

  unfoldable pub save_event : LmdbStore → Event → Result LmdbStore
  unfolding handle_replaceable insert_event
  save_event s event =
      if is_some (events.get s.events_db event.id)
      then ok s
      else (do handled ← handle_replaceable s event; insert_unless event s handled)

  unfoldable pub get_event : LmdbStore → Bytes → Result (Option Event)
  get_event s id = elim (events.get s.events_db id) [
    | none ↦ ok none
    | some raw ↦ do event ← decode_event raw; ok (some event)
  ]

  unfoldable pub delete_event : LmdbStore → Bytes → Result (LmdbStore × Bool)
  unfolding delete_event_txn
  delete_event s id = delete_event_txn s id
