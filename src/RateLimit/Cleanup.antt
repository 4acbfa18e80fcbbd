-- ===== src/RateLimit/Cleanup.antt =====
-- `cleanup`: which addresses are forgotten, and that no limit notices it.
use moar.Common.{
  ℕ, Bool, not, ◌+◌, ◌*◌, ◌≤◌, ◌<◌, ◌≡◌, refl, sym, ap, ◌∙◌, true, Option, none, some, List, [],
  ◌∷◌, arith, ltb, Option-cases, Bool-cases, inl, inr, ◌↔◌, ◌⊎◌, All, none_ne_some,
}
use moar.ConcurrentMap.{DashMap}
use moar.RateLimit.{
  IpAddr, ip_eq, IpState, second, prune, touch, fetch_add, new_state, at_limit, check_rate, entry,
  try_connect, check_write_rate, check_read_rate, is_live, cleanup,
}
use moar.RateLimit.Connections.{count, count-entry, get-insert_self}

-- The last activity is less than nine minutes before each of these calls. A call is recorded right
-- after its activity.
abbrev pub NearActivity : ℕ → List ℕ → Type 0
NearActivity last_active ts = All (λ call. call < last_active + 540 * second) ts

prune-old :
    (now last_active : ℕ) (ts : List ℕ)
    → NearActivity last_active ts
    → last_active + 600 * second ≤ now
    → prune now ts ≡ []
unfolding prune
prune-old now last_active [] h old = refl
prune-old now last_active (front ∷ ts) h old =
    let gone : ltb (front + 60 * second) now ≡ true = let near = h.0 in ground arith in
    rw gone (prune-old now last_active ts h.1 old)

-- Old calls count as no calls.
check_rate-old :
    (now later limit last_active : ℕ) (ts : List ℕ)
    → NearActivity last_active ts
    → last_active + 600 * second ≤ now
    → check_rate now later limit ts ≡ check_rate now later limit []
unfolding check_rate prune
check_rate-old now later limit last_active ts h old = rw (prune-old now last_active ts h old) refl

-- What a check with these calls on record says.
abbrev decided : Option ℕ → ℕ → ℕ → List ℕ → Bool
decided none now later ts = true
decided (some limit) now later ts = (check_rate now later limit ts).1

decided-old :
    (limit : Option ℕ) (now later last_active : ℕ) (ts : List ℕ)
    → NearActivity last_active ts
    → last_active + 600 * second ≤ now
    → decided limit now later [] ≡ decided limit now later ts
decided-old none now later last_active ts h old = refl
decided-old (some limit) now later last_active ts h old =
    ap (λ r. r.1) (sym (check_rate-old now later limit last_active ts h old))

module _ (m : DashMap IpAddr IpState ip_eq) where
  open m use {Table, get, get-retain}

  -- An entry after an attempt to connect: the calls on record stay.
  record IsAsked (limit : Option ℕ) (now later : ℕ) (before : IpState) (t : Table) (ip : IpAddr)
      (touched : ℕ) : Type 0 where
    writes :
        (check_write_rate m t ip limit touched now later).1
        ≡ decided limit now later before.write_timestamps
    reads :
        (check_read_rate m t ip limit touched now later).1
        ≡ decided limit now later before.read_timestamps

  asked :
      (t : Table) (ip : IpAddr) (s before : IpState) (limit : Option ℕ) (touched now later : ℕ)
      → get t ip ≡ some s
      → s.write_timestamps ≡ before.write_timestamps
      → s.read_timestamps ≡ before.read_timestamps
      → IsAsked limit now later before t ip touched
  unfolding check_write_rate check_read_rate
  asked t ip s before none touched now later e w r = record { writes = refl; reads = refl }
  asked t ip s before (some limit) touched now later e w r = record {
    writes = rw (e, check_write_rate) (ap (λ ts. (check_rate now later limit ts).1) w);
    reads = rw (e, check_read_rate) (ap (λ ts. (check_rate now later limit ts).1) r);
  }

  connect-IsAsked :
      (t : Table) (ip : IpAddr) (max limit : Option ℕ) (c₁ c₂ touched now later : ℕ)
      → IsAsked limit now later (entry m t ip c₁) (try_connect m t ip max c₁ c₂).0 ip touched
  unfolding try_connect touch
  connect-IsAsked t ip max limit c₁ c₂ touched now later =
      let state = entry m t ip c₁ in
      let counted : IpState = record state {
        connections = fetch_add state.connections;
        last_active = c₂;
      } in
      elim (Bool-cases (at_limit m max (entry m t ip c₁).connections)) [
        | inl full ↦
            asked _ ip state (entry m t ip c₁) limit touched now later
              (rw (full, try_connect) (get-insert_self m t ip _)) refl refl
        | inr room ↦
            asked _ ip counted (entry m t ip c₁) limit touched now later
              (rw (room, try_connect) (get-insert_self m t ip _)) refl refl
      ]

  connect-admits :
      (t : Table) (ip : IpAddr) (max : Option ℕ) (c₁ c₂ : ℕ)
      → (try_connect m t ip max c₁ c₂).1 ≡ not (at_limit m max (entry m t ip c₁).connections)
  unfolding try_connect
  connect-admits t ip max c₁ c₂ = elim (Bool-cases (at_limit m max (entry m t ip c₁).connections)) [
    | inl full ↦ rw (full, try_connect) refl
    | inr room ↦ rw (room, try_connect) refl
  ]

  -- Every address is as after the cleanup, or it was idle and forgotten.
  cleanup-cases :
      (t : Table) (ip : IpAddr) (now : ℕ)
      → (get (cleanup m t now) ip ≡ get t ip)
        ⊎ ((s : IpState) × (get t ip ≡ some s)
            × (get (cleanup m t now) ip ≡ none)
            × (s.connections ≡ 0)
            × (s.last_active + 600 * second ≤ now))
  unfolding cleanup is_live
  cleanup-cases t ip now = elim (Option-cases (get t ip)) [
    | inl e ↦ inl (get-retain t (is_live m now) ip ∙ rw e refl)
    | inr (s, e) ↦ elim (Bool-cases (is_live m now s)) [
      | inl lives ↦ inl (get-retain t (is_live m now) ip ∙ rw e (rw lives refl))
      | inr idle ↦
          inr (
            s,
            e,
            get-retain t (is_live m now) ip ∙ rw e (rw idle refl),
            ground arith,
            ground arith,
          )
    ]
  ]

  -- What the limits read of an entry.
  record IsAlike (limit : Option ℕ) (now later : ℕ) (a b : IpState) : Type 0 where
    connections : a.connections ≡ b.connections
    writes : decided limit now later a.write_timestamps ≡ decided limit now later b.write_timestamps
    reads : decided limit now later a.read_timestamps ≡ decided limit now later b.read_timestamps

  -- The calls on record of an entry, if there is one, are near to its activity.
  abbrev pub IsTimely : Option IpState → Type 0
  IsTimely none = Unit
  IsTimely (some s) =
      NearActivity s.last_active s.write_timestamps × NearActivity s.last_active s.read_timestamps

  -- Without a connection, and without activity for ten minutes.
  abbrev pub IsIdle : Option IpState → ℕ → Type 0
  IsIdle none now = Unit
  IsIdle (some s) now = (s.connections ≡ 0) × (s.last_active + 600 * second ≤ now)

  entry-cleanup :
      (t : Table) (ip : IpAddr) (limit : Option ℕ) (at c₁ now later : ℕ)
      → IsTimely (get t ip)
      → at ≤ now
      → IsAlike limit now later (entry m (cleanup m t at) ip c₁) (entry m t ip c₁)
  unfolding entry new_state
  entry-cleanup t ip limit at c₁ now later timely after = elim (cleanup-cases t ip at) [
    | inl same ↦ rw (same, entry) (record { connections = refl; writes = refl; reads = refl })
    | inr (s, here, gone, none_open, old) ↦
        let near : IsTimely (some s) = rw here at timely in
        let older : s.last_active + 600 * second ≤ now = omega arith in
        rw (here, gone, entry)
          (record {
            connections = sym none_open;
            writes = decided-old limit now later s.last_active s.write_timestamps near.0 older;
            reads = decided-old limit now later s.last_active s.read_timestamps near.1 older;
          })
  ]

  get-cleanup :
      (t : Table) (ip : IpAddr) (at : ℕ) → (get (cleanup m t at) ip ≡ none) ↔ IsIdle (get t ip) at
  unfolding cleanup is_live
  get-cleanup t ip at = elim (Option-cases (get t ip)) [
    | inl e ↦ rw (get-retain, e) (λ h. tt, λ h. refl)
    | inr (s, e) ↦ rw (get-retain, e) (ground arith, ground arith)
  ]

  get-cleanup-some :
      (t : Table) (ip : IpAddr) (at : ℕ) (s : IpState)
      → get (cleanup m t at) ip ≡ some s
      → get t ip ≡ some s
  get-cleanup-some t ip at s h = elim (cleanup-cases t ip at) [
    | inl same ↦ sym same ∙ h
    | inr (x, here, gone, none_open, old) ↦ absurd (none_ne_some (sym gone ∙ h))
  ]

  -- `cleanup` forgets exactly the addresses without a connection that were idle for ten minutes or
  -- more, and leaves the entries of the others as they are. No limit notices it: a later connection
  -- is let in exactly if it were let in without the cleanup, and so is its next write and its next
  -- read, when they are checked at or after the cleanup's time. The calls on record are from before
  -- nine minutes after the last activity.
  pub cleanup_lem :
      (t : Table) (ip : IpAddr) (max limit : Option ℕ) (at c₁ c₂ touched now later : ℕ)
      → IsTimely (get t ip)
      → at ≤ now
      → let cleaned = cleanup m t at in
        let (t₁, let_in) = try_connect m t ip max c₁ c₂ in
        let (t₂, let_in') = try_connect m cleaned ip max c₁ c₂ in
        ((get cleaned ip ≡ none) ↔ IsIdle (get t ip) at)
        × ((s : IpState) → get cleaned ip ≡ some s → get t ip ≡ some s)
        × (count m cleaned ip ≡ count m t ip)
        × (let_in' ≡ let_in)
        × ((check_write_rate m t₂ ip limit touched now later).1
            ≡ (check_write_rate m t₁ ip limit touched now later).1)
        × ((check_read_rate m t₂ ip limit touched now later).1
            ≡ (check_read_rate m t₁ ip limit touched now later).1)
  cleanup_lem t ip max limit at c₁ c₂ touched now later timely after =
      let cleaned = cleanup m t at in
      let alike = entry-cleanup t ip limit at c₁ now later timely after in
      let a = connect-IsAsked cleaned ip max limit c₁ c₂ touched now later in
      let b = connect-IsAsked t ip max limit c₁ c₂ touched now later in
      (
        get-cleanup t ip at,
        get-cleanup-some t ip at,
        sym (count-entry m cleaned ip c₁) ∙ (alike.connections ∙ count-entry m t ip c₁),
        connect-admits cleaned ip max c₁ c₂
            ∙ (ap (λ n. not (at_limit m max n)) alike.connections
                ∙ sym (connect-admits t ip max c₁ c₂)),
        a.writes ∙ (alike.writes ∙ sym b.writes),
        a.reads ∙ (alike.reads ∙ sym b.reads),
      )
