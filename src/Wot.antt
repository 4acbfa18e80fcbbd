-- ===== src/Wot.antt =====
-- src/wot.rs: the manager of the Webs of Trust and their background builders. A clock reading is an
-- argument, in seconds; the sleeps between the rounds and a file system that fails are not modelled.
-- A handle of a builder is the fact that it runs: its captured values are those of the entry, which
-- `update_wot` replaces together with the handle.
pub mod Relay
pub mod Build
pub mod Disk
pub mod Meaning
pub mod Reading
pub mod Spread
pub mod Follows
pub mod Rounds
pub mod Answers
pub mod Asking
pub mod Near
pub mod Full
pub mod Hops
pub mod Restart
mod Tests
use moar.Common.{
  ℕ, ◌-◌, ◌*◌, ◌^◌, ◌%◌, Bool, true, false, ◌⊎◌, inl, inr, Option, none, some, List, [], ◌∷◌, map,
  Bytes, length, ltb, if◌then◌else◌, is_some,
}
use moar.Config.{WotConfig}
use moar.HashMap.{HashMap, get, insert, remove}
use moar.HashSet.{HashSet}
use moar.Wot.Relay.{Serde, Network}
use moar.Wot.Build.{WotStatus, pending, ready, error, is_ready, build_wot, Outcome}
use moar.Wot.Disk.{load_pubkeys_from_disk, save_pubkeys_to_disk}

pub record WotEntry : Type 0 where
  pub config : WotConfig
  pub set : HashSet
  pub status : WotStatus
  pub last_updated : Option ℕ
  pub running : Bool

-- A file and the time of its last write.
pub record WotFile : Type 0 where
  pub modified : ℕ
  pub bytes : Bytes

-- `disk` holds the files of the data directory, by the id in their names.
pub record WotManager : Type 0 where
  pub entries : HashMap WotEntry
  pub discovery_relays : List Bytes
  pub disk : HashMap WotFile

pub data WotError : Type 0 where
  already_exists not_found : WotError

abbrev new_entry : WotConfig → WotEntry
new_entry config = record {
  config = config;
  set = [];
  status = pending;
  last_updated = none;
  running = false;
}

abbrev new_entries : HashMap WotConfig → HashMap WotEntry
new_entries [] = []
new_entries ((id, config) ∷ wots) = insert (new_entries wots) id (new_entry config)

abbrev pub new : List Bytes → HashMap WotConfig → HashMap WotFile → WotManager
new discovery_relays wots disk = record {
  entries = new_entries wots;
  discovery_relays = discovery_relays;
  disk = disk;
}

-- Whether a file is younger than the update interval; a file from the future has age 0.
abbrev pub is_fresh : WotFile → ℕ → ℕ → Bool
is_fresh file hours now = ltb (now - file.modified) (hours * 3600 % 2 ^ 64)

module _ (from_slice : Bytes → Option Bytes) where
  -- What `start_builder` takes from the disk.
  abbrev pub loaded : Option WotFile → ℕ → WotEntry → WotEntry
  loaded none now entry = entry
  loaded (some file) now entry = elim (load_pubkeys_from_disk from_slice file.bytes) [
    | none ↦ entry
    | some set ↦
        if is_fresh file entry.config.update_interval_hours now
        then record entry { set = set; status = ready; last_updated = some file.modified }
        else entry
  ]

  unfoldable pub start_builder : WotManager → Bytes → ℕ → WotManager
  unfolding load_pubkeys_from_disk
  start_builder m id now = elim (get m.entries id) [
    | none ↦ m
    | some entry ↦ record m {
      entries = insert m.entries id (record (loaded (get m.disk id) now entry) { running = true });
    }
  ]

  abbrev start_each : HashMap WotEntry → WotManager → ℕ → WotManager
  start_each [] m now = m
  start_each ((id, entry) ∷ rest) m now = start_each rest (start_builder m id now) now

  unfoldable pub start_all : WotManager → ℕ → WotManager
  start_all m now = start_each m.entries m now

  unfoldable pub add_wot : WotManager → Bytes → WotConfig → ℕ → WotError ⊎ WotManager
  unfolding start_builder
  add_wot m id config now =
      if is_some (get m.entries id)
      then inl already_exists
      else inr
          (start_builder (record m { entries = insert m.entries id (new_entry config) }) id now)

  unfoldable pub update_wot : WotManager → Bytes → WotConfig → ℕ → WotError ⊎ WotManager
  unfolding start_builder
  update_wot m id config now = elim (get m.entries id) [
    | none ↦ inl not_found
    | some entry ↦ inr (
        start_builder
          (record m {
            entries =
                insert m.entries id
                  (record entry { config = config; status = pending; running = false });
          })
          id now)
  ]

unfoldable pub remove_wot : WotManager → Bytes → WotError ⊎ (WotManager × WotConfig)
remove_wot m id = elim (get m.entries id) [
  | none ↦ inl not_found
  | some entry ↦
      inr (record m { entries = remove m.entries id; disk = remove m.disk id }, entry.config)
]

unfoldable pub set_discovery_relays : WotManager → List Bytes → WotManager
set_discovery_relays m relays = record m { discovery_relays = relays }

pub record WotInfo : Type 0 where
  pub id : Bytes
  pub config : WotConfig
  pub status : WotStatus
  pub pubkey_count : ℕ
  pub last_updated : Option ℕ

abbrev info : Bytes × WotEntry → WotInfo
info (id, entry) = record {
  id = id;
  config = entry.config;
  status = entry.status;
  pubkey_count = length entry.set;
  last_updated = entry.last_updated;
}

unfoldable pub list_wots : WotManager → List WotInfo
list_wots m = map info m.entries

module _ (S : Serde) (parse : Bytes → Option Bytes) (display : ℕ → Bytes) (net : Network) where
  -- How a round ends: a build that fails leaves its message in the status.
  abbrev pub concluded : WotManager → Bytes → WotEntry → Outcome → ℕ → WotManager
  concluded m id entry built now = elim built.result [
    | none ↦ record m {
      entries =
          insert m.entries id
            (record entry { set = built.set; status = built.status; last_updated = some now });
      disk = insert m.disk id (record { modified = now; bytes = save_pubkeys_to_disk built.set });
    }
    | some why ↦ record m {
      entries = insert m.entries id (record entry { set = built.set; status = error why });
    }
  ]

  -- A builder's round until it sleeps; `now` is the time at which the build ends.
  unfoldable pub builder_round : WotManager → Bytes → ℕ → WotManager
  unfolding build_wot save_pubkeys_to_disk
  builder_round m id now = elim (get m.entries id) [
    | none ↦ m
    | some entry ↦
        if is_ready entry.status
        then m
        else concluded m id entry
            (build_wot S parse display net entry.config m.discovery_relays entry.set entry.status)
            now
  ]

-- What a builder does when the interval is over.
unfoldable pub refresh_due : WotManager → Bytes → WotManager
refresh_due m id = elim (get m.entries id) [
  | none ↦ m
  | some entry ↦ record m { entries = insert m.entries id (record entry { status = pending }) }
]
