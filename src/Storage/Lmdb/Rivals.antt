-- ===== src/Storage/Lmdb/Rivals.antt =====
-- The loops of `handle_replaceable`: which stored events the new one competes with.
use moar.Common.{
  ℕ, ◌≡◌, refl, subst, Bool, true, false, not, ◌&&◌, ◌||◌, Option, none, some, Bytes, List, [], ◌∷◌,
  ◌++◌, arith, bytes_eq, if◌then◌else◌, ltb, length, any, elem, Bool-cases, Option-cases, inl, inr,
}
use moar.Error.{ok}
use moar.Nostr.{Event}
use moar.Storage.Heed.{Backend}
use moar.Storage.Keys.{slice, from_be_bytes, author_kind_key_len}
use moar.Storage.Lmdb.{
  LmdbStore, outranks, Found, weigh, examine, examine_one, examine_with_tag, get_d_tag,
  unwrap_or_default,
}
use moar.Storage.Lmdb.Index.{Decodes}

abbrev pub key_id : Bytes → Bytes
key_id key = slice 42 74 key

abbrev pub key_ts : Bytes → ℕ
key_ts key = from_be_bytes 0 (slice 34 42 key)

-- A whole key, of another event.
abbrev pub is_other : Event → Bytes → Bool
is_other e key = not (ltb (length key) author_kind_key_len || bytes_eq (key_id key) e.id)

abbrev pub same_d_tag : Event → Event → Bool
same_d_tag e x =
    bytes_eq (unwrap_or_default (get_d_tag x.tags)) (unwrap_or_default (get_d_tag e.tags))

-- Some key that counts outranks the event.
abbrev pub beaten : (Bytes → Bool) → Event → List Bytes → Bool
beaten counts e = any (λ key. counts key && outranks (key_ts key) (key_id key) e)

-- The id is that of a key that counts and does not outrank the event.
abbrev pub beats : (Bytes → Bool) → Event → List Bytes → Bytes → Bool
beats counts e keys id =
    any
      (λ key.
        (counts key && not (outranks (key_ts key) (key_id key) e)) && bytes_eq id (key_id key))
      keys

-- What a loop found: the flag and the ids to delete, from those that it began with.
pub record Finds (counts : Bytes → Bool) (e : Event) (keys : List Bytes) (f g : Found)
    : Type 0 where
  pub flag : g.0 ≡ (f.0 || beaten counts e keys)
  pub ids : (id : Bytes) → elem id g.1 ≡ (elem id f.1 || beats counts e keys id)

elem-snoc :
    (id j : Bytes) (ids : List Bytes) → elem id (ids ++ j ∷ []) ≡ (elem id ids || bytes_eq id j)
elem-snoc id j [] = ground arith
elem-snoc id j (i ∷ ids) = ground (arith, elem-snoc id j ids)

-- One round of either loop.
abbrev round : (Bytes → Bool) → Event → Bytes → Found → Found
round counts e key f = if counts key then weigh e (key_ts key) (key_id key) f else f

Finds-round :
    (counts : Bytes → Bool) (e : Event) (key : Bytes) (keys : List Bytes) (f g : Found)
    → Finds counts e keys (round counts e key f) g
    → Finds counts e (key ∷ keys) f g
Finds-round counts e key keys (dom, del) g v = elim (Bool-cases (counts key)) [
  | inr skip ↦
      let w : Finds counts e keys (dom, del) g = rw skip at v in
      record { flag = ground (arith, w.flag, skip); ids = λ id. ground (arith, w.ids id, skip) }
  | inl takes ↦ elim (Bool-cases (outranks (key_ts key) (key_id key) e)) [
    | inl over ↦
        let w : Finds counts e keys (true, del) g = rw over at (rw takes at v) in
        record {
          flag = ground (arith, w.flag, takes, over);
          ids = λ id. ground (arith, w.ids id, takes, over);
        }
    | inr under ↦
        let w : Finds counts e keys (dom, del ++ key_id key ∷ []) g = rw under at (rw takes at v) in
        record {
          flag = ground (arith, w.flag, takes, under);
          ids = λ id. ground (arith, w.ids id, takes, under, elem-snoc id (key_id key) del);
        }
  ]
]

round_skip :
    (a c : Bool) (e : Event) (key : Bytes) (f : Found)
    → (if a || c then f else weigh e (key_ts key) (key_id key) f)
      ≡ (if not (a || c) then weigh e (key_ts key) (key_id key) f else f)
round_skip a c e key f = ground arith

pub examine-Finds :
    (e : Event) (keys : List Bytes) (f : Found) → Finds (is_other e) e keys f (examine e keys f)
unfolding examine
examine-Finds e [] f = record { flag = ground arith; ids = λ id. ground arith }
examine-Finds e (key ∷ keys) f = Finds-round (is_other e) e key keys f _ (
    subst (λ g. Finds (is_other e) e keys g (examine e (key ∷ keys) f))
      (round_skip (ltb (length key) author_kind_key_len) (bytes_eq (key_id key) e.id) e key f)
      (examine-Finds e keys _))

module _ (b : Backend) where
  open b use {events, index, serde}

  -- The event under the key's id, if it has the same `d` tag.
  abbrev same_tag_under : Event → Option Bytes → Bool
  same_tag_under e none = false
  same_tag_under e (some raw) = elim (serde.from_slice raw) [
    | none ↦ false
    | some x ↦ same_d_tag e x
  ]

  -- A whole key of another event that is stored with the same `d` tag.
  abbrev pub is_tagged_other : LmdbStore b → Event → Bytes → Bool
  is_tagged_other s e key = is_other e key && same_tag_under e (events.get s.events_db (key_id key))

  examine_one_lem :
      (s : LmdbStore b) (e : Event) (key : Bytes) (f : Found)
      → Decodes b s.events_db
      → examine_one b s e key f ≡ ok (round (is_tagged_other s e) e key f)
  examine_one_lem s e key f v =
      elim (Bool-cases (ltb (length key) author_kind_key_len || bytes_eq (key_id key) e.id)) [
        | inl skip ↦ rw skip
        | inr other ↦ elim (Option-cases (events.get s.events_db (key_id key))) [
          | inl miss ↦ rw (other, miss)
          | inr (raw, hit) ↦
              let (x, d, same, wf) = v (key_id key) raw hit in rw (other, hit) (rw d (ground arith))
        ]
      ]

  pub examine_with_tag-Finds :
      (s : LmdbStore b) (e : Event) (keys : List Bytes) (f : Found)
      → Decodes b s.events_db
      → (g : Found) × (examine_with_tag b s e keys f ≡ ok g)
        × Finds (is_tagged_other s e) e keys f g
  unfolding examine_with_tag
  examine_with_tag-Finds s e [] f v =
      (f, refl, record { flag = ground arith; ids = λ id. ground arith })
  examine_with_tag-Finds s e (key ∷ keys) f v =
      let f' = round (is_tagged_other s e) e key f in
      let (g, r, w) = examine_with_tag-Finds s e keys f' v in
      (g, rw (examine_one_lem s e key f v) r, Finds-round (is_tagged_other s e) e key keys f g w)
