-- ===== src/Wot/Restart.antt =====
-- A set that was built outlives the process: a restart within the update interval takes it up.
use moar.Common.{
  ℕ, ◌-◌, ◌*◌, ◌^◌, ◌<◌, ◌≡◌, refl, sym, ap, ◌∙◌, ◌↔◌, true, false, Option, none, some, Bytes,
  bytes_eq_refl, All, In, arith, subst,
}
use moar.HashMap.{get}
use moar.HashMap.Laws.{get-insert_at}
use moar.HashSet.{HashSet}
use moar.Wot.Relay.{Serde, Network}
use moar.Wot.Build.{ready, is_ready, build_wot, Outcome}
use moar.Wot.Disk.{IsKey, load_pubkeys_from_disk, save_pubkeys_to_disk, load_pubkeys-save}
use moar.Wot.{
  WotEntry, WotFile, WotManager, start_builder, loaded, is_fresh, builder_round, concluded,
}

module _ (from_slice : Bytes → Option Bytes) where
  -- An entry that a start leaves ready, with these keys.
  pub record IsTakenUp (m : WotManager) (id : Bytes) (set : HashSet) : Type 0 where
    pub entry : WotEntry
    pub listed : get m.entries id ≡ some entry
    pub is_up : entry.status ≡ ready
    pub same_keys : (x : Bytes) → (In x entry.set) ↔ (In x set)

  start-loads :
      (m : WotManager) (id : Bytes) (now : ℕ) (entry : WotEntry) (file : WotFile) (set : HashSet)
      → get m.entries id ≡ some entry
      → get m.disk id ≡ some file
      → file.bytes ≡ save_pubkeys_to_disk set
      → All (IsKey from_slice) set
      → now - file.modified < entry.config.update_interval_hours * 3600
      → entry.config.update_interval_hours * 3600 < 2 ^ 64
      → IsTakenUp (start_builder from_slice m id now) id set
  unfolding start_builder
  start-loads m id now entry file set there on_disk content keys young fits =
      let (back, got, same) = load_pubkeys-save from_slice set keys in
      let is_young : is_fresh file entry.config.update_interval_hours now ≡ true = ground arith in
      let read : load_pubkeys_from_disk from_slice file.bytes ≡ some back =
        ap (load_pubkeys_from_disk from_slice) content ∙ got in
      let up : WotEntry = record entry {
        set = back;
        status = ready;
        last_updated = some file.modified;
      } in
      let e : loaded from_slice (get m.disk id) now entry ≡ up =
        ap (λ f. loaded from_slice f now entry) on_disk
        ∙ rw (read, loaded) (rw (is_young, loaded) refl) in
      record {
        entry = record (loaded from_slice (get m.disk id) now entry) { running = true };
        listed = rw (there, start_builder) (get-insert_at m.entries id id _ (bytes_eq_refl id));
        is_up = ap (λ w. w.status) e;
        same_keys = λ x. subst (λ w. (In x w.set) ↔ (In x set)) (sym e) (same x);
      }

  module _ (S : Serde) (parse : Bytes → Option Bytes) (display : ℕ → Bytes) (net : Network)
      (m : WotManager) (id : Bytes) (entry : WotEntry) where
    abbrev built : Outcome
    built = build_wot S parse display net entry.config m.discovery_relays entry.set entry.status

    round-saves :
        (now : ℕ)
        → get m.entries id ≡ some entry
        → is_ready entry.status ≡ false
        → built.result ≡ none
        → get (builder_round S parse display net m id now).disk id
          ≡ some (record { modified = now; bytes = save_pubkeys_to_disk built.set })
    unfolding builder_round
    round-saves now there stale done =
        rw (there, builder_round)
          (rw (stale, builder_round)
            (rw (done, concluded) (get-insert_at m.disk id id _ (bytes_eq_refl id))))

    -- When a builder's round succeeds, a process that starts over the same directory less than the
    -- configured interval later finds its entry of that id ready, with the same keys. The keys are
    -- valid, and the interval in seconds fits 64 bits.
    pub builder_round-restart :
        (now later : ℕ) (restarted : WotManager) (fresh : WotEntry)
        → get m.entries id ≡ some entry
        → is_ready entry.status ≡ false
        → built.result ≡ none
        → All (IsKey from_slice) built.set
        → restarted.disk ≡ (builder_round S parse display net m id now).disk
        → get restarted.entries id ≡ some fresh
        → later - now < fresh.config.update_interval_hours * 3600
        → fresh.config.update_interval_hours * 3600 < 2 ^ 64
        → IsTakenUp (start_builder from_slice restarted id later) id built.set
    builder_round-restart now later restarted fresh there stale done keys same_disk listed young
          fits =
        start-loads restarted id later fresh _ built.set listed
          (ap (λ d. get d id) same_disk ∙ round-saves now there stale done) refl keys young fits
