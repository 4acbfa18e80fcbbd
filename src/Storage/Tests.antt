-- ===== src/Storage/Tests.antt =====
-- The store over the backend of Storage/Memory.antt: two profiles of one author, saved in turn.
use moar.Common.{
  true≢false, ◌^◌, ◌<◌, ◌≡◌, ◌≢◌, ◌↔◌, ◌⊎◌, inl, inr, refl, arith, false, none, some, List, [], ◌∷◌,
  Bytes, replicate, is_some, bytes_eq, bytes_eq_refl, ap, sym, ◌∙◌, Option-cases, none_ne_some,
  some_inj, subst, All, length, lex_leb, leb,
}
use moar.Error.{ok}
use moar.Nostr.{Event, Filter, IsEvent}
use moar.Storage.Memory.{memory}
use moar.Storage.Keys.{to_be_bytes, from_be_bytes, encode_tag_key}
use moar.Storage.Keys.Order.{from_be_bytes-to_be_bytes, lex_leb-to_be_bytes}
use moar.Storage.Lmdb.{tag_keys, LmdbStore, new_store, save_event, delete_event}
use moar.Storage.Lmdb.Coherence.{Coherent, Stored, new_store-Coherent}
use moar.Storage.Lmdb.Replace.{competes, Dominated}
use moar.Storage.Lmdb.Save.{save_event_lem}
use moar.Storage.Lmdb.Guarantees.{
  IsUnique, save_event-Coherent, save_event-IsUnique, delete_event_lem,
}
use moar.Storage.Lmdb.Totality.{FitsTags, save_event_total}
use moar.Storage.Query.{query}
use moar.Storage.Query.Filters.{IsFilter}
use moar.Storage.Query.Answers.{IsAnswer, query_lem}

abbrev alice : Bytes
alice = replicate 32 0xa1

abbrev profile : Event
profile = record {
  id = replicate 32 0x11;
  pubkey = alice;
  created_at = 1000;
  kind = 0;
  tags = ((b't' ∷ []) ∷ (b'x' ∷ []) ∷ []) ∷ [];
  content = [];
}

abbrev newer : Event
newer = record profile { id = replicate 32 0x22; created_at = 2000 }

profile-IsEvent : IsEvent profile
profile-IsEvent = record {
  id_length = refl;
  id_bytes = omega arith;
  pubkey_length = refl;
  created_at_u64 = omega arith;
  kind_u16 = omega arith;
}

newer-IsEvent : IsEvent newer
newer-IsEvent = record {
  id_length = refl;
  id_bytes = omega arith;
  pubkey_length = refl;
  created_at_u64 = omega arith;
  kind_u16 = omega arith;
}

profile-FitsTags : FitsTags profile
unfolding tag_keys encode_tag_key to_be_bytes
profile-FitsTags = omega arith

newer-FitsTags : FitsTags newer
unfolding tag_keys encode_tag_key to_be_bytes
newer-FitsTags = omega arith

abbrev empty_store : LmdbStore memory
empty_store = new_store memory

saved : (s : LmdbStore memory) × (save_event memory empty_store profile ≡ ok s)
saved =
    save_event_total memory empty_store profile (new_store-Coherent memory) profile-IsEvent
      profile-FitsTags

abbrev first : LmdbStore memory
first = saved.0

first-Coherent : Coherent memory first
first-Coherent =
    save_event-Coherent memory empty_store first profile (new_store-Coherent memory) profile-IsEvent
      saved.1

nothing-Stored : (x : Event) → Stored memory empty_store x → ⊥
nothing-Stored x held = none_ne_some held.1

empty_store-IsUnique : IsUnique memory empty_store
empty_store-IsUnique x y hx hy = absurd (nothing-Stored x hx)

first-IsUnique : IsUnique memory first
first-IsUnique =
    save_event-IsUnique memory empty_store first profile (new_store-Coherent memory) profile-IsEvent
      empty_store-IsUnique saved.1

-- The first save stores the profile and nothing else.
first_holds : Stored memory first profile × ((x : Event) → Stored memory first x → x ≡ profile)
first_holds =
    elim (save_event_lem memory empty_store profile (new_store-Coherent memory) profile-IsEvent
      first refl saved.1) [
        | inl ((rival, held, _, _), _) ↦ absurd (nothing-Stored rival held)
        | inr (_, _, held, from, _) ↦ (
          held,
          λ x h. elim (from x h) [ inl same ↦ same | inr (old, _) ↦ absurd (nothing-Stored x old) ],
        )
      ]

first-Stored : Stored memory first profile
first-Stored = first_holds.0

save_event_total_example : (s : LmdbStore memory) × (save_event memory first newer ≡ ok s)
save_event_total_example =
    save_event_total memory first newer first-Coherent newer-IsEvent newer-FitsTags

abbrev second : LmdbStore memory
second = save_event_total_example.0

-- The newer profile is not known yet.
newer_is_fresh : memory.events.get first.events_db newer.id ≡ none
unfolding bytes_eq
newer_is_fresh = elim (Option-cases (memory.events.get first.events_db newer.id)) [
  | inl miss ↦ miss
  | inr (raw, hit) ↦
      let (x, d, same, _) = first-Coherent.decodes newer.id raw hit in
      let held : Stored memory first x =
        (raw, ap (memory.events.get first.events_db) same ∙ hit, d) in
      let ids : newer.id ≡ profile.id = sym same ∙ ap (λ y. y.id) (first_holds.1 x held) in
      absurd (true≢false (sym (bytes_eq_refl newer.id) ∙ ap (bytes_eq newer.id) ids))
]

save_event_lem_example :
    (Dominated memory first newer × (second ≡ first))
    ⊎ ((¬ Dominated memory first newer)
        × Coherent memory second
        × Stored memory second newer
        × ((x : Event)
            → Stored memory second x
            → (x ≡ newer) ⊎ (Stored memory first x × (competes newer x ≡ false)))
        × ((x : Event) → Stored memory first x → competes newer x ≡ false → Stored memory second x))
save_event_lem_example =
    save_event_lem memory first newer first-Coherent newer-IsEvent second newer_is_fresh
      save_event_total_example.1

save_event-Coherent_example : Coherent memory second
save_event-Coherent_example =
    save_event-Coherent memory first second newer first-Coherent newer-IsEvent
      save_event_total_example.1

save_event-IsUnique_example : IsUnique memory second
save_event-IsUnique_example =
    save_event-IsUnique memory first second newer first-Coherent newer-IsEvent first-IsUnique
      save_event_total_example.1

delete_event_lem_example :
    (s : LmdbStore memory) × (delete_event memory first profile.id
      ≡ ok (s, is_some (memory.events.get first.events_db profile.id)))
    × Coherent memory s
    × (memory.events.get s.events_db profile.id ≡ none)
    × ((x : Event) → x.id ≢ profile.id → Stored memory first x ↔ Stored memory s x)
delete_event_lem_example = delete_event_lem memory first profile.id first-Coherent

-- The profiles of one author.
abbrev wanted : Filter
wanted = record {
  ids = none;
  authors = some (alice ∷ []);
  kinds = some (0 ∷ []);
  since = none;
  until = some 5000;
  limit = some 10;
  generic_tags = [];
}

wanted-IsFilter : IsFilter wanted
wanted-IsFilter = record {
  times = omega arith;
  authors_lengths = λ keys h. subst (All (λ a. length a ≡ 32)) (some_inj h) (refl, tt);
  kinds_u16 = λ kinds h. subst (All (λ k. k < 2 ^ 16)) (some_inj h) (omega arith, tt);
}

query_lem_example :
    (es : List Event) × (query memory first wanted ≡ ok es)
    × IsAnswer memory first first-Coherent wanted wanted-IsFilter es
query_lem_example = query_lem memory first first-Coherent wanted wanted-IsFilter

from_be_bytes-to_be_bytes_example : from_be_bytes 0 (to_be_bytes 8 1700000000) ≡ 1700000000
from_be_bytes-to_be_bytes_example = from_be_bytes-to_be_bytes 8 1700000000 (omega arith)

lex_leb-to_be_bytes_example : lex_leb (to_be_bytes 8 255) (to_be_bytes 8 256) ≡ leb 255 256
lex_leb-to_be_bytes_example = lex_leb-to_be_bytes 8 255 256 (omega arith) (omega arith)
