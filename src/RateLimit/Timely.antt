-- ===== src/RateLimit/Timely.antt =====
-- What `cleanup` relies on: a checked call is recorded near to the activity of its address.
use moar.Common.{
  ℕ, ◌+◌, ◌*◌, ◌%◌, ◌^◌, ◌≤◌, ◌<◌, ◌≡◌, some, List, [], ◌∷◌, length, arith, ltb, leb, Bool-cases,
  inl, inr, All-append,
}
use moar.ConcurrentMap.{DashMap}
use moar.RateLimit.{
  IpAddr, ip_eq, IpState, second, prune, touch, check_rate, check_write_rate, check_read_rate,
}
use moar.RateLimit.Connections.{get-insert_self}
use moar.RateLimit.Cleanup.{NearActivity, IsTimely}

NearActivity-le : (a b : ℕ) (ts : List ℕ) → a ≤ b → NearActivity a ts → NearActivity b ts
NearActivity-le a b [] le h = tt
NearActivity-le a b (t ∷ ts) le h = (let near = h.0 in omega arith, NearActivity-le a b ts le h.1)

NearActivity-prune : (a now : ℕ) (ts : List ℕ) → NearActivity a ts → NearActivity a (prune now ts)
unfolding prune
NearActivity-prune a now [] h = tt
NearActivity-prune a now (t ∷ ts) h = elim (Bool-cases (ltb (t + 60 * second) now)) [
  | inl old ↦ rw old (NearActivity-prune a now ts h.1)
  | inr young ↦ rw young h
]

check_rate-NearActivity :
    (a b now later limit : ℕ) (ts : List ℕ)
    → a ≤ b
    → later < b + 540 * second
    → NearActivity a ts
    → NearActivity b (check_rate now later limit ts).0
unfolding check_rate
check_rate-NearActivity a b now later limit ts le soon h =
    let kept = NearActivity-prune b now ts (NearActivity-le a b ts le h) in
    elim (Bool-cases (leb limit (length (prune now ts) % 2 ^ 32))) [
      | inl full ↦ rw full kept
      | inr room ↦
          rw room (
            All-append (λ call. call < b + 540 * second) (prune now ts) (later ∷ []) kept
              (soon, tt))
    ]

module _ (m : DashMap IpAddr IpState ip_eq) where
  open m use {Table, get}

  -- A write that is checked keeps the address timely, when the clock does not run back and the
  -- check takes less than nine minutes.
  pub check_write_rate-IsTimely :
      (t : Table) (ip : IpAddr) (s : IpState) (limit touched now later : ℕ)
      → get t ip ≡ some s
      → s.last_active ≤ touched
      → later < touched + 540 * second
      → IsTimely m (some s)
      → IsTimely m (get (check_write_rate m t ip (some limit) touched now later).0 ip)
  unfolding check_write_rate touch
  check_write_rate-IsTimely t ip s limit touched now later e le soon h =
      rw (e, check_write_rate)
        (rw (get-insert_self m t ip) (
          check_rate-NearActivity s.last_active touched now later limit s.write_timestamps le soon
              h.0,
          NearActivity-le s.last_active touched s.read_timestamps le h.1,
        ))

  -- A read, too.
  pub check_read_rate-IsTimely :
      (t : Table) (ip : IpAddr) (s : IpState) (limit touched now later : ℕ)
      → get t ip ≡ some s
      → s.last_active ≤ touched
      → later < touched + 540 * second
      → IsTimely m (some s)
      → IsTimely m (get (check_read_rate m t ip (some limit) touched now later).0 ip)
  unfolding check_read_rate touch
  check_read_rate-IsTimely t ip s limit touched now later e le soon h =
      rw (e, check_read_rate)
        (rw (get-insert_self m t ip) (
          NearActivity-le s.last_active touched s.write_timestamps le h.0,
          check_rate-NearActivity s.last_active touched now later limit s.read_timestamps le soon
              h.1,
        ))
