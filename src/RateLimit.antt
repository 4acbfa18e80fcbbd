-- ===== src/RateLimit.antt =====
-- src/rate_limit.rs: the per-IP connection counts and sliding-window rate checks.
-- An `Instant` is a number of nanoseconds; the clock readings of a call are its arguments, in the
-- order in which the code takes them. The counters are those of one relay, and each operation is
-- one atomic step on the map's entry.
pub mod Window
pub mod Connections
pub mod Cleanup
pub mod Timely
pub mod Tests
use moar.ConcurrentMap.{DashMap}
use moar.Common.{
  ℕ, suc, ◌+◌, ◌-◌, ◌*◌, ◌%◌, ◌^◌, ◌≡◌, Bool, true, false, ◌&&◌, Option, none, some, List, [], ◌∷◌,
  ◌++◌, ltb, leb, ◌==◌, if◌then◌else◌, length,
}

-- `std::net::IpAddr`.
pub data IpAddr : Type 0 where
  v4 : ℕ → IpAddr
  v6 : ℕ → IpAddr

abbrev pub ip_eq : IpAddr → IpAddr → Bool
ip_eq (v4 a) (v4 b) = a == b
ip_eq (v4 a) (v6 b) = false
ip_eq (v6 a) (v4 b) = false
ip_eq (v6 a) (v6 b) = a == b

abbrev pub second : ℕ
second = 1000000000

-- A deque of instants, its front first.
pub record IpState : Type 0 where
  pub connections : ℕ
  pub write_timestamps : List ℕ
  pub read_timestamps : List ℕ
  pub last_active : ℕ

-- `IpState::new`.
unfoldable pub new_state : ℕ → IpState
new_state now = record {
  connections = 0;
  write_timestamps = [];
  read_timestamps = [];
  last_active = now;
}

unfoldable pub touch : ℕ → IpState → IpState
touch now s = record s { last_active = now }

-- The `while let` loop of `check_rate`: the front goes as long as it is before `now` - 60 s.
unfoldable pub prune : ℕ → List ℕ → List ℕ
prune now [] = []
prune now (front ∷ ts) = if ltb (front + 60 * second) now then prune now ts else front ∷ ts

-- The clock is read at the start (`now`) and where an allowed call is recorded (`later`).
unfoldable pub check_rate : ℕ → ℕ → ℕ → List ℕ → List ℕ × Bool
unfolding prune
check_rate now later limit timestamps =
    let ts = prune now timestamps in
    if leb limit (length ts % 2 ^ 32) then (ts, false) else (ts ++ later ∷ [], true)

-- `fetch_add` and `fetch_sub` of an `AtomicU32` wrap around.
abbrev pub fetch_add : ℕ → ℕ
fetch_add n = (n + 1) % 2 ^ 32

abbrev pub fetch_sub : ℕ → ℕ
fetch_sub n = (n + 2 ^ 32 - 1) % 2 ^ 32

module _ (m : DashMap IpAddr IpState ip_eq) where
  open m use {Table, get, insert, remove, retain}

  -- `entry(ip).or_insert_with(IpState::new)`.
  unfoldable pub entry : Table → IpAddr → ℕ → IpState
  unfolding new_state
  entry t ip now = elim (get t ip) [ some s ↦ s | none ↦ new_state now ]

  unfoldable pub at_limit : Option ℕ → ℕ → Bool
  at_limit none current = false
  at_limit (some max) current = leb max current

  -- A refused connection still leaves an entry for its address.
  unfoldable pub try_connect : Table → IpAddr → Option ℕ → ℕ → ℕ → Table × Bool
  unfolding entry at_limit touch
  try_connect t ip max_connections now touched =
      let state = entry t ip now in
      if at_limit max_connections state.connections then (insert t ip state, false) else (
        insert t ip (touch touched (record state { connections = fetch_add state.connections })),
        true,
      )

  unfoldable pub disconnect : Table → IpAddr → Table
  disconnect t ip = elim (get t ip) [
    | none ↦ t
    | some s ↦
        if leb s.connections 1
        then remove t ip
        else insert t ip (record s { connections = fetch_sub s.connections })
  ]

  unfoldable pub check_write_rate : Table → IpAddr → Option ℕ → ℕ → ℕ → ℕ → Table × Bool
  unfolding check_rate touch
  check_write_rate t ip none touched now later = (t, true)
  check_write_rate t ip (some limit) touched now later = elim (get t ip) [
    | none ↦ (t, true)
    | some s ↦
        let (ts, allowed) = check_rate now later limit s.write_timestamps in
        (insert t ip (record (touch touched s) { write_timestamps = ts }), allowed)
  ]

  unfoldable pub check_read_rate : Table → IpAddr → Option ℕ → ℕ → ℕ → ℕ → Table × Bool
  unfolding check_rate touch
  check_read_rate t ip none touched now later = (t, true)
  check_read_rate t ip (some limit) touched now later = elim (get t ip) [
    | none ↦ (t, true)
    | some s ↦
        let (ts, allowed) = check_rate now later limit s.read_timestamps in
        (insert t ip (record (touch touched s) { read_timestamps = ts }), allowed)
  ]

  -- The test that `cleanup` passes to `retain`.
  unfoldable pub is_live : ℕ → IpState → Bool
  is_live now s = if ltb 0 s.connections then true else ltb now (s.last_active + 600 * second)

  unfoldable pub cleanup : Table → ℕ → Table
  unfolding is_live
  cleanup t now = retain t (is_live now)
