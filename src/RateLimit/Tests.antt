-- ===== src/RateLimit/Tests.antt =====
-- The rate limiter at concrete inputs, over a map that is an association list.
use moar.Common.{ℕ, ◌*◌, ◌≤◌, ◌≡◌, ◌↔◌, refl, true, false, none, some, List, [], ◌∷◌, arith}
use moar.ConcurrentMap.{DashMap, assoc_map}
use moar.RateLimit.{
  IpAddr, v4, ip_eq, IpState, second, check_rate, try_connect, disconnect, check_write_rate,
  check_read_rate, cleanup,
}
use moar.RateLimit.Window.{in_window, empty_log, run, check_rate_lem, run_window}
use moar.RateLimit.Cleanup.{IsIdle, cleanup_lem}
use moar.RateLimit.Connections.{
  count, ip_eq_iff, try_connect_lem, disconnect_lem, reconnect_forgets,
}

abbrev pub map : DashMap IpAddr IpState ip_eq
map = assoc_map ip_eq ip_eq_iff

abbrev pub localhost : IpAddr
localhost = v4 2130706433

abbrev pub busy : IpState
busy = record {
  connections = 1;
  write_timestamps = second ∷ 2 * second ∷ [];
  read_timestamps = [];
  last_active = 2 * second;
}

abbrev pub tracked : map.Table
tracked = (localhost, busy) ∷ []

check_rate_example : (check_rate (3 * second) (3 * second) 2 busy.write_timestamps).1 ≡ false
check_rate_example =
    check_rate_lem (3 * second) (3 * second) 2 busy.write_timestamps (omega arith) (omega arith)

abbrev calls : List (ℕ × ℕ)
calls = (1, 1) ∷ (2, 2) ∷ (3, 4) ∷ (70 * second, 70 * second) ∷ []

run_window_example : in_window (70 * second) (run 2 empty_log calls).accepted ≤ 2
run_window_example = run_window 2 (70 * second) calls (omega arith) (omega arith) (omega arith)

try_connect_example : (try_connect map tracked localhost (some 1) 5 5).1 ≡ false
try_connect_example = (try_connect_lem map tracked localhost 1 5 5 (omega arith)).0

disconnect_example : count map (disconnect map tracked localhost) localhost ≡ 0
disconnect_example = (disconnect_lem map tracked localhost (omega arith)).0

-- Its last write is 998 seconds old.
abbrev idle_entry : IpState
idle_entry = record busy { connections = 0 }

abbrev idle_table : map.Table
idle_table = (localhost, idle_entry) ∷ []

-- The address is forgotten, and a new session may write at a limit of one write.
cleanup_example :
    let cleaned = cleanup map idle_table (1000 * second) in
    let (t₁, let_in) =
      try_connect map idle_table localhost (some 1) (1000 * second) (1000 * second) in
    let (t₂, let_in') =
      try_connect map cleaned localhost (some 1) (1000 * second) (1000 * second) in
    ((map.get cleaned localhost ≡ none) ↔ IsIdle map (some idle_entry) (1000 * second))
    × ((s : IpState) → map.get cleaned localhost ≡ some s → some idle_entry ≡ some s)
    × (count map cleaned localhost ≡ 0)
    × (let_in' ≡ let_in)
    × ((check_write_rate map t₂ localhost
          (some 1)
          (1001 * second)
          (1001 * second)
          (1001 * second)).1
        ≡ (check_write_rate map t₁ localhost
            (some 1)
            (1001 * second)
            (1001 * second)
            (1001 * second)).1)
    × ((check_read_rate map t₂ localhost (some 1) (1001 * second) (1001 * second) (1001 * second)).1
        ≡ (check_read_rate map t₁ localhost
            (some 1)
            (1001 * second)
            (1001 * second)
            (1001 * second)).1)
cleanup_example =
    cleanup_lem map idle_table localhost (some 1) (some 1) (1000 * second) (1000 * second)
      (1000 * second) (1001 * second) (1001 * second) (1001 * second)
      ((omega arith, (omega arith, tt)), tt) (omega arith)

reconnect_forgets_example :
    (check_write_rate map
      (try_connect map (disconnect map tracked localhost) localhost (some 5) 3 3).0
      localhost
      (some 1)
      4
      4
      4).1
    ≡ true
reconnect_forgets_example =
    reconnect_forgets map tracked localhost busy 5 1 3 3 4 4 4 refl refl (omega arith) (omega arith)
