-- ===== src/Server/Backed.antt =====
-- src/storage/mod.rs, the trait `NostrStore` filled by `LmdbStore`: sessions over the real store.
use moar.Common.{◌≤◌, ◌≡◌, subst, sym, some, inl, inr, Bytes, length}
use moar.ConcurrentMap.{DashMap}
use moar.Nostr.{Event, IsEvent}
use moar.RateLimit.{IpAddr, IpState, ip_eq}
use moar.Storage.Heed.{Backend}
use moar.Storage.Lmdb.{LmdbStore}
use moar.Storage.Lmdb.Coherence.{Coherent}
use moar.Storage.Lmdb.Guarantees.{IsUnique, save_event-Coherent, save_event-IsUnique}
use moar.Server.{NostrStore, event_msg, Session, Relay, Clock, max_subscriptions, handle_text}
use moar.Server.Guards.{handle_text-store}

abbrev pub lmdb : Backend → NostrStore
lmdb b = record {
  Store = LmdbStore b;
  save_event = moar.Storage.Lmdb.save_event b;
  query = moar.Storage.Query.query b;
}

module _ (b : Backend) (m : DashMap IpAddr IpState ip_eq) (r : Relay) where
  -- What a session needs of the store, before and after a text: the indices agree with the events,
  -- and each replaceable address has one event.
  abbrev pub Sound : LmdbStore b → Type 0
  Sound store = Coherent b store × IsUnique b store

  -- Whatever text a client sends to a session within its bound on subscriptions, a sound store
  -- stays sound, if the parser of messages gives events whose fields have the sizes of their types.
  pub handle_text-Sound :
      (c : Clock) (text : Bytes) (s : Session (lmdb b) m)
      → ((e : Event) → r.from_json text ≡ some (event_msg e) → IsEvent e)
      → length s.active_subs ≤ max_subscriptions (lmdb b) m r
      → Sound s.store
      → Sound (handle_text (lmdb b) m r c text s).store
  handle_text-Sound c text s sizes few (v, u) = elim (handle_text-store (lmdb b) m r c text s few) [
    | inl (kept, _) ↦ subst Sound (sym kept) (v, u)
    | inr (e, parsed, (_, saved, _, _)) ↦
        let wf = sizes e parsed in
        (
          save_event-Coherent b s.store _ e v wf saved,
          save_event-IsUnique b s.store _ e v wf u saved,
        )
  ]
