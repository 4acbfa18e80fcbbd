-- ===== src/Server/Refusal.antt =====
-- src/server.rs: a request that the read policy refuses.
use moar.Common.{
  ◌≡◌, ◌≢◌, refl, not, ◌&&◌, ◌⊎◌, inl, inr, some, List, [], ◌∷◌, ◌++◌, Bytes, length, ltb, leb,
  elem, Bool-cases,
}
use moar.ConcurrentMap.{DashMap}
use moar.Nostr.{Filter}
use moar.Policy.{DenyReason, PolicyResult, allow, deny, auth_required, can_read}
use moar.RateLimit.{IpAddr, IpState, ip_eq, check_read_rate}
use moar.Server.{
  NostrStore, Notice, read_blocked, needs_auth, subid_too_long, too_many_subscriptions,
  reads_limited, notice, Session, Relay, Clock, authed_pubkey, refusal, max_subscriptions,
  max_subid_length, handle_req,
}

module _ (n : NostrStore) (m : DashMap IpAddr IpState ip_eq) (r : Relay) where
  PolicyResult-cases :
      (p : PolicyResult) → p ≢ allow → ((why : DenyReason) × (p ≡ deny why)) ⊎ (p ≡ auth_required)
  PolicyResult-cases allow h = absurd (h refl)
  PolicyResult-cases (deny why) h = inl (why, refl)
  PolicyResult-cases auth_required h = inr refl

  refusal-some :
      (f : Filter) (fs : List Filter)
      → can_read r.policy f authed_pubkey ≢ allow
      → (why : Notice) × (refusal n m r (f ∷ fs) ≡ some why)
  unfolding refusal
  refusal-some f fs h = elim (PolicyResult-cases (can_read r.policy f authed_pubkey) h) [
    | inl (why, e) ↦ (read_blocked why, rw (e, refusal) refl)
    | inr e ↦ (needs_auth, rw (e, refusal) refl)
  ]

  -- One notice was sent, and the subscriptions and the store are as before.
  abbrev pub OnlyNotice : Notice → Session n m → Session n m → Type 0
  OnlyNotice why s s' =
      (s'.sent ≡ s.sent ++ notice why ∷ [])
      × (s'.active_subs ≡ s.active_subs)
      × (s'.store ≡ s.store)

  -- A request whose first filter the policy refuses gets one notice and nothing else: no event, no
  -- subscription, and the store is as before.
  pub handle_req-refused :
      (c : Clock) (sub : Bytes) (f : Filter) (fs : List Filter) (s : Session n m)
      → can_read r.policy f authed_pubkey ≢ allow
      → (why : Notice) × OnlyNotice why s (handle_req n m r c sub (f ∷ fs) s)
  unfolding handle_req
  handle_req-refused c sub f fs s no_read =
      let (tracker, allowed) =
        check_read_rate m s.tracker r.client_ip r.config.policy.rate_limit.reads_per_minute
          c.touched c.now c.later in
      let (why, refused) = refusal-some f fs no_read in
      elim (Bool-cases (ltb (max_subid_length n m r) (length sub))) [
        | inl long ↦ (
          subid_too_long (length sub) (max_subid_length n m r),
          rw (long, handle_req) (refl, refl, refl),
        )
        | inr short ↦
            elim (Bool-cases (
              not (elem sub s.active_subs)
              && leb (max_subscriptions n m r) (length s.active_subs))) [
                | inl full ↦ (
                  too_many_subscriptions (max_subscriptions n m r),
                  rw (short, full, handle_req) (refl, refl, refl),
                )
                | inr room ↦ elim (Bool-cases allowed) [
                  | inr limited ↦
                      (reads_limited, rw (short, room, limited, handle_req) (refl, refl, refl))
                  | inl free ↦ (why, rw (short, room, free, refused, handle_req) (refl, refl, refl))
                ]
              ]
      ]
