-- ===== src/Stats.antt =====
-- src/stats.rs: the counters of a relay and the ring of one-minute snapshots.
-- The `AtomicU64` counters wrap around at 2^64; `active_connections`, an `AtomicI64`, is kept as
-- its bit pattern. The loop that fills the ring every minute is a schedule of `snapshot` and
-- `push`; the system's own figures (processor, memory, disks) are not modelled.
pub mod Ring
pub mod Tests
use moar.Common.{
  ℕ, ◌+◌, ◌-◌, ◌%◌, ◌^◌, List, [], ◌++◌, ◌∷◌, ltb, if◌then◌else◌, length, set, take, drop,
}

pub record RelayStats : Type 0 where
  pub active_connections : ℕ
  pub total_connections : ℕ
  pub events_saved : ℕ
  pub events_rejected : ℕ
  pub queries_served : ℕ
  pub bytes_rx : ℕ
  pub bytes_tx : ℕ
  pub event_count : ℕ
  pub storage_bytes : ℕ

-- `RelayStats::new`.
abbrev pub new_stats : RelayStats
new_stats = record {
  active_connections = 0;
  total_connections = 0;
  events_saved = 0;
  events_rejected = 0;
  queries_served = 0;
  bytes_rx = 0;
  bytes_tx = 0;
  event_count = 0;
  storage_bytes = 0;
}

pub record TimeBucket : Type 0 where
  pub timestamp : ℕ
  pub active_connections : ℕ
  pub total_connections : ℕ
  pub events_saved : ℕ
  pub events_rejected : ℕ
  pub queries_served : ℕ
  pub bytes_rx : ℕ
  pub bytes_tx : ℕ
  pub event_count : ℕ
  pub storage_bytes : ℕ

abbrev pub ring_capacity : ℕ
ring_capacity = 1440

pub record TimeSeriesRing : Type 0 where
  pub buckets : List TimeBucket
  pub write_pos : ℕ
  pub len : ℕ

-- `TimeSeriesRing::new`.
abbrev pub new_ring : TimeSeriesRing
new_ring = record { buckets = []; write_pos = 0; len = 0 }

unfoldable pub push : TimeSeriesRing → TimeBucket → TimeSeriesRing
push r bucket = record {
  buckets =
      if ltb (length r.buckets) ring_capacity
      then r.buckets ++ bucket ∷ []
      else set r.buckets r.write_pos bucket;
  write_pos = (r.write_pos + 1) % ring_capacity;
  len = if ltb r.len ring_capacity then r.len + 1 else r.len;
}

unfoldable pub entries : TimeSeriesRing → List TimeBucket
entries r =
    if ltb r.len ring_capacity
    then r.buckets
    else drop r.write_pos r.buckets ++ take r.write_pos r.buckets

unfoldable pub snapshot : ℕ → RelayStats → TimeBucket
snapshot now stats = record {
  timestamp = now;
  active_connections = stats.active_connections;
  total_connections = stats.total_connections;
  events_saved = stats.events_saved;
  events_rejected = stats.events_rejected;
  queries_served = stats.queries_served;
  bytes_rx = stats.bytes_rx;
  bytes_tx = stats.bytes_tx;
  event_count = stats.event_count;
  storage_bytes = stats.storage_bytes;
}
