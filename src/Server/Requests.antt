-- ===== src/Server/Requests.antt =====
-- src/server.rs: what a request leaves alone.
use moar.Common.{
  ◌≤◌, ◌≡◌, refl, sym, ◌∙◌, subst, false, not, ◌&&◌, inl, inr, List, [], ◌∷◌, Bytes, length, ltb,
  leb, elem, Bool-cases, Option-cases, arith,
}
use moar.ConcurrentMap.{DashMap}
use moar.Error.{Error, Result, ok, err}
use moar.Nostr.{Event, Filter}
use moar.RateLimit.{IpAddr, IpState, ip_eq, check_read_rate}
use moar.Server.{
  NostrStore, Session, Relay, Clock, refusal, send_events, run_filter, run_filters, serve,
  max_subscriptions, max_subid_length, clamp_filter, subscribe, handle_req,
}

-- What holds of each branch holds of the result.
pub result-intro {ℓ κ μ} :
    {A : Type ℓ} {B : Type μ} (P : B → Type κ) (o : Result A) {f : A → B} {g : Error → B}
    → ((a : A) → o ≡ ok a → P (f a))
    → ((e : Error) → o ≡ err e → P (g e))
    → P (elim o [ ok a ↦ f a | err e ↦ g e ])
result-intro P (ok a) h k = h a refl
result-intro P (err e) h k = k e refl

module _ (n : NostrStore) (m : DashMap IpAddr IpState ip_eq) (r : Relay) where
  -- Sending events changes neither the subscriptions nor the store nor what is broadcast.
  abbrev Same : Session n m → Session n m → Type 0
  Same s s' = (s'.active_subs ≡ s.active_subs) × (s'.store ≡ s.store) × (s'.broadcast ≡ s.broadcast)

  Same-trans : (s t u : Session n m) → Same s t → Same t u → Same s u
  Same-trans s t u h k = (k.0 ∙ h.0, k.1 ∙ h.1, k.2 ∙ h.2)

  send_events-Same :
      (sub : Bytes) (es : List Event) (s : Session n m) → Same s (send_events n m r sub es s)
  unfolding send_events
  send_events-Same sub [] s = (refl, refl, refl)
  send_events-Same sub (e ∷ es) s = send_events-Same sub es _

  run_filter-Same : (sub : Bytes) (f : Filter) (s : Session n m) → Same s (run_filter n m r sub f s)
  unfolding run_filter
  run_filter-Same sub f s =
      result-intro (Same s) (n.query s.store (clamp_filter r.config.nip11 f))
        (λ es q. send_events-Same sub es _) (λ x q. (refl, refl, refl))

  run_filters-Same :
      (sub : Bytes) (fs : List Filter) (s : Session n m) → Same s (run_filters n m r sub fs s)
  unfolding run_filters
  run_filters-Same sub [] s = (refl, refl, refl)
  run_filters-Same sub (f ∷ fs) s =
      Same-trans s (run_filter n m r sub f s) (run_filters n m r sub fs (run_filter n m r sub f s))
        (run_filter-Same sub f s) (run_filters-Same sub fs (run_filter n m r sub f s))

  -- What a request leaves alone, and the bound on the subscriptions.
  pub record Bounded (s s' : Session n m) : Type 0 where
    pub store_kept : s'.store ≡ s.store
    pub broadcast_kept : s'.broadcast ≡ s.broadcast
    pub bound : length s'.active_subs ≤ max_subscriptions n m r

  subscribe-bound :
      (sub : Bytes) (subs : List Bytes)
      → length subs ≤ max_subscriptions n m r
      → (not (elem sub subs) && leb (max_subscriptions n m r) (length subs)) ≡ false
      → length (subscribe n m r sub subs) ≤ max_subscriptions n m r
  subscribe-bound sub subs few h = elim (Bool-cases (elem sub subs)) [
    | inl known ↦ rw known few
    | inr new ↦ rw new (let h' = rw new at h in ground (arith, h'))
  ]

  serve-Bounded :
      (sub : Bytes) (fs : List Filter) (s : Session n m)
      → length s.active_subs ≤ max_subscriptions n m r
      → (not (elem sub s.active_subs) && leb (max_subscriptions n m r) (length s.active_subs))
        ≡ false
      → Bounded s (serve n m r sub fs s)
  unfolding serve
  serve-Bounded sub fs s few room =
      let same =
        run_filters-Same sub fs (record s { active_subs = subscribe n m r sub s.active_subs }) in
      record {
        store_kept = same.1;
        broadcast_kept = same.2;
        bound =
            subst (λ l. length l ≤ max_subscriptions n m r) (sym same.0)
              (subscribe-bound sub s.active_subs few room);
      }

  pub handle_req-Bounded :
      (c : Clock) (sub : Bytes) (fs : List Filter) (s : Session n m)
      → length s.active_subs ≤ max_subscriptions n m r
      → Bounded s (handle_req n m r c sub fs s)
  unfolding handle_req
  handle_req-Bounded c sub fs s few =
      let (tracker, allowed) =
        check_read_rate m s.tracker r.client_ip r.config.policy.rate_limit.reads_per_minute
          c.touched c.now c.later in
      elim (Bool-cases (ltb (max_subid_length n m r) (length sub))) [
        | inl long ↦
            rw (long, handle_req) (record { store_kept = refl; broadcast_kept = refl; bound = few })
        | inr short ↦
            elim (Bool-cases (
              not (elem sub s.active_subs)
              && leb (max_subscriptions n m r) (length s.active_subs))) [
                | inl full ↦
                    rw (short, full, handle_req)
                      (record { store_kept = refl; broadcast_kept = refl; bound = few })
                | inr room ↦ elim (Bool-cases allowed) [
                  | inr limited ↦
                      rw (short, room, limited, handle_req)
                        (record { store_kept = refl; broadcast_kept = refl; bound = few })
                  | inl free ↦ elim (Option-cases (refusal n m r fs)) [
                    | inl none_refused ↦
                        let v = serve-Bounded sub fs (record s { tracker = tracker }) few room in
                        rw (short, room, free, none_refused, handle_req)
                          (record {
                            store_kept = v.store_kept;
                            broadcast_kept = v.broadcast_kept;
                            bound = v.bound;
                          })
                    | inr (why, refused) ↦
                        rw (short, room, free, refused, handle_req)
                          (record { store_kept = refl; broadcast_kept = refl; bound = few })
                  ]
                ]
              ]
      ]
