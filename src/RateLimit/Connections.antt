-- ===== src/RateLimit/Connections.antt =====
-- Connection counts: the limit per address, the entries that `disconnect` and `cleanup` drop.
use moar.Common.{
  ℕ, ◌+◌, ◌-◌, ◌^◌, ◌<◌, ◌≡◌, refl, true, false, leb, Option, none, some, [], arith, ltb, leb,
  if◌then◌else◌, Option-cases, Bool-cases, ap, ◌∙◌, inl, inr, ◌↔◌, ==_refl,
}
use moar.ConcurrentMap.{DashMap}
use moar.RateLimit.{
  IpAddr, v4, v6, ip_eq, IpState, new_state, check_rate, entry, try_connect, disconnect,
  check_write_rate,
}

pub ip_eq_refl : (a : IpAddr) → ip_eq a a ≡ true
ip_eq_refl (v4 a) = ==_refl a
ip_eq_refl (v6 a) = ==_refl a

pub ip_eq_iff : (a b : IpAddr) → (ip_eq a b ≡ true) ↔ (a ≡ b)
ip_eq_iff (v4 a) (v4 b) = ground arith
ip_eq_iff (v4 a) (v6 b) = ground arith
ip_eq_iff (v6 a) (v4 b) = ground arith
ip_eq_iff (v6 a) (v6 b) = ground arith

module _ (m : DashMap IpAddr IpState ip_eq) where
  open m use {Table, empty, get, insert, remove, get-empty, get-insert, get-remove, get-retain}

  -- The connections counted for an address; an address with no entry has none.
  abbrev pub count_of : Option IpState → ℕ
  count_of none = 0
  count_of (some s) = s.connections

  abbrev pub count : Table → IpAddr → ℕ
  count t ip = count_of (get t ip)

  pub get-insert_self : (t : Table) (ip : IpAddr) (s : IpState) → get (insert t ip s) ip ≡ some s
  get-insert_self t ip s = rw (get-insert, ip_eq_refl)

  get-insert_ne :
      (t : Table) (ip j : IpAddr) (s : IpState)
      → ip_eq ip j ≡ false
      → get (insert t ip s) j ≡ get t j
  get-insert_ne t ip j s h = rw (get-insert, h)

  get-remove_self : (t : Table) (ip : IpAddr) → get (remove t ip) ip ≡ none
  get-remove_self t ip = rw (get-remove, ip_eq_refl)

  pub count-entry :
      (t : Table) (ip : IpAddr) (now : ℕ) → (entry m t ip now).connections ≡ count t ip
  unfolding entry
  count-entry t ip now = elim (Option-cases (get t ip)) [
    | inl e ↦ rw (e, entry)
    | inr (s, e) ↦ rw (e, entry)
  ]

  -- With a limit, a connection is let in exactly while fewer than the limit are open.
  -- It then counts one more, a refused one counts nothing, and no other address changes.
  pub try_connect_lem :
      (t : Table) (ip : IpAddr) (max now touched : ℕ)
      → max < 2 ^ 32
      → let r = try_connect m t ip (some max) now touched in
        (r.1 ≡ ltb (count t ip) max)
        × (count r.0 ip ≡ (if ltb (count t ip) max then count t ip + 1 else count t ip))
        × ((j : IpAddr) → ip_eq ip j ≡ false → get r.0 j ≡ get t j)
  unfolding try_connect
  try_connect_lem t ip max now touched small =
      let n = count-entry t ip now in
      elim (Bool-cases (leb max (entry m t ip now).connections)) [
        | inl e ↦ rw e (
          ground (arith, n),
          ap count_of (get-insert_self t ip _) ∙ ground (arith, n),
          λ j h. get-insert_ne t ip j _ h,
        )
        | inr e ↦ rw e (
          ground (arith, n),
          ap count_of (get-insert_self t ip _) ∙ ground (arith, n),
          λ j h. get-insert_ne t ip j _ h,
        )
      ]

  -- A disconnect gives one slot back, and no other address changes.
  pub disconnect_lem :
      (t : Table) (ip : IpAddr)
      → count t ip < 2 ^ 32
      → (count (disconnect m t ip) ip ≡ count t ip - 1)
        × ((j : IpAddr) → ip_eq ip j ≡ false → get (disconnect m t ip) j ≡ get t j)
  unfolding disconnect
  disconnect_lem t ip small = elim (Option-cases (get t ip)) [
    | inl e ↦ rw (e, disconnect) (ground (arith, e), λ j h. refl)
    | inr (s, e) ↦ elim (Bool-cases (leb s.connections 1)) [
      | inl last ↦
          rw (e, disconnect)
            (rw last (
              ap count_of (get-remove_self t ip) ∙ ground (arith, e),
              λ j h. get-remove t ip j ∙ rw h,
            ))
      | inr more ↦
          rw (e, disconnect)
            (rw more (
              ap count_of (get-insert_self t ip _) ∙ ground (arith, e),
              λ j h. get-insert_ne t ip j _ h,
            ))
    ]
  ]

  disconnect_last :
      (t : Table) (ip : IpAddr) (s : IpState)
      → get t ip ≡ some s
      → s.connections ≡ 1
      → get (disconnect m t ip) ip ≡ none
  unfolding disconnect
  disconnect_last t ip s e one = rw (e, disconnect) (rw one (get-remove_self t ip))

  try_connect_new :
      (t : Table) (ip : IpAddr) (max now touched : ℕ)
      → get t ip ≡ none
      → 0 < max
      → get (try_connect m t ip (some max) now touched).0 ip
        ≡ some (record (new_state touched) { connections = 1 })
  unfolding try_connect entry new_state
  try_connect_new t ip max now touched e room =
      let open_slot : leb max 0 ≡ false = ground arith in
      rw (e, entry) (rw open_slot (get-insert_self t ip _))

  check_write_rate_fresh :
      (t : Table) (ip : IpAddr) (s : IpState) (limit touched now later : ℕ)
      → get t ip ≡ some s
      → s.write_timestamps ≡ []
      → 0 < limit
      → (check_write_rate m t ip (some limit) touched now later).1 ≡ true
  unfolding check_write_rate check_rate
  check_write_rate_fresh t ip s limit touched now later e fresh some_writes =
      rw (e, check_write_rate) (rw fresh (ground arith))

  -- Closing the only connection forgets the address, with the writes that it made in the last
  -- minute: after a reconnect, the next write passes under any limit above 0.
  pub reconnect_forgets :
      (t : Table) (ip : IpAddr) (s : IpState) (max limit c₁ c₂ touched now later : ℕ)
      → get t ip ≡ some s
      → s.connections ≡ 1
      → 0 < max
      → 0 < limit
      → let t' = (try_connect m (disconnect m t ip) ip (some max) c₁ c₂).0 in
        (check_write_rate m t' ip (some limit) touched now later).1 ≡ true
  unfolding new_state
  reconnect_forgets t ip s max limit c₁ c₂ touched now later e one room some_writes =
      check_write_rate_fresh _ ip _ limit touched now later
        (try_connect_new _ ip max c₁ c₂ (disconnect_last t ip s e one) room) refl some_writes
