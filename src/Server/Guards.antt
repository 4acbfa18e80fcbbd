-- ===== src/Server/Guards.antt =====
-- src/server.rs: what a message can do to the store, the subscriptions and the replies.
use moar.Common.{
  ◌≤◌, ◌≡◌, refl, sym, ap, subst, Bool, true, not, ◌⊎◌, inl, inr, some, List, [], ◌∷◌, ◌++◌, Bytes,
  length, ltb, bytes_eq, keep, Bool-cases, Option-cases, arith,
}
use moar.ConcurrentMap.{DashMap}
use moar.Error.{ok}
use moar.Nostr.{Event}
use moar.Policy.{PolicyResult, allow, deny, auth_required, can_write}
use moar.RateLimit.{IpAddr, IpState, ip_eq, check_write_rate}
use moar.Server.{
  NostrStore, ok_reply, saved, ClientMessage, event_msg, req_msg, close_msg, other_msg, Session,
  Relay, Clock, authed_pubkey, handle_event, decide, max_subscriptions, add_u64, max_message_length,
  handle_message, handle_text,
}
use moar.Server.Requests.{result-intro, handle_req-Bounded}

length-keep : (p : Bytes → Bool) (xs : List Bytes) → length (keep p xs) ≤ length xs
length-keep p [] = omega arith
length-keep p (x ∷ xs) = ground (arith, length-keep p xs)

module _ (n : NostrStore) (m : DashMap IpAddr IpState ip_eq) (r : Relay) where
  -- What an event can do: nothing to the store, or a save that the policy allowed and that is
  -- acknowledged and broadcast.
  abbrev pub Accepted : Clock → Event → Session n m → Session n m → Type 0
  Accepted c e s s' =
      (can_write r.parse_key r.policy e authed_pubkey c.seconds ≡ allow)
      × (n.save_event s.store e ≡ ok s'.store)
      × (s'.broadcast ≡ s.broadcast ++ e ∷ [])
      × (s'.sent ≡ s.sent ++ ok_reply e.id true saved ∷ [])

  record Effect (c : Clock) (e : Event) (s s' : Session n m) : Type 0 where
    subs_kept : s'.active_subs ≡ s.active_subs
    outcome : ((s'.store ≡ s.store) × (s'.broadcast ≡ s.broadcast)) ⊎ Accepted c e s s'

  decide-Effect :
      (c : Clock) (e : Event) (s : Session n m) (p : PolicyResult)
      → can_write r.parse_key r.policy e authed_pubkey c.seconds ≡ p
      → Effect c e s (decide n m r e p s)
  decide-Effect c e s allow h =
      result-intro (Effect c e s) (n.save_event s.store e)
        (λ store kept. record { subs_kept = refl; outcome = inr (h, kept, refl, refl) })
        (λ x failed. record { subs_kept = refl; outcome = inl (refl, refl) })
  decide-Effect c e s (deny why) h = record { subs_kept = refl; outcome = inl (refl, refl) }
  decide-Effect c e s auth_required h = record { subs_kept = refl; outcome = inl (refl, refl) }

  handle_event-Effect :
      (c : Clock) (e : Event) (s : Session n m) → Effect c e s (handle_event n m r c e s)
  unfolding handle_event
  handle_event-Effect c e s =
      let (tracker, allowed) =
        check_write_rate m s.tracker r.client_ip r.config.policy.rate_limit.writes_per_minute
          c.touched c.now c.later in
      elim (Bool-cases allowed) [
        | inr limited ↦
            rw (limited, handle_event) (record { subs_kept = refl; outcome = inl (refl, refl) })
        | inl free ↦
            let v =
              decide-Effect c e (record s { tracker = tracker })
                (can_write r.parse_key r.policy e authed_pubkey c.seconds) refl in
            rw (free, handle_event) (record { subs_kept = v.subs_kept; outcome = v.outcome })
      ]

  -- The session after the count of the bytes read.
  abbrev received : Bytes → Session n m → Session n m
  received text s = record s {
    stats = record s.stats { bytes_rx = add_u64 s.stats.bytes_rx (length text) };
  }

  handle_message-subs :
      (c : Clock) (msg : ClientMessage) (s : Session n m)
      → length s.active_subs ≤ max_subscriptions n m r
      → length (handle_message n m r c msg s).active_subs ≤ max_subscriptions n m r
  unfolding handle_message
  handle_message-subs c (event_msg e) s few =
      subst (λ l. length l ≤ max_subscriptions n m r) (sym (handle_event-Effect c e s).subs_kept)
        few
  handle_message-subs c (req_msg sub fs) s few = (handle_req-Bounded n m r c sub fs s few).bound
  handle_message-subs c (close_msg sub) s few =
      omega (arith, few, length-keep (λ x. not (bytes_eq x sub)) s.active_subs)
  handle_message-subs c other_msg s few = few

  handle_message-store :
      (c : Clock) (msg : ClientMessage) (s : Session n m)
      → length s.active_subs ≤ max_subscriptions n m r
      → (((handle_message n m r c msg s).store ≡ s.store)
          × ((handle_message n m r c msg s).broadcast ≡ s.broadcast))
        ⊎ ((e : Event) × (msg ≡ event_msg e) × Accepted c e s (handle_message n m r c msg s))
  unfolding handle_message
  handle_message-store c (event_msg e) s few = elim (handle_event-Effect c e s).outcome [
    | inl kept ↦ inl kept
    | inr done ↦ inr (e, refl, done)
  ]
  handle_message-store c (req_msg sub fs) s few =
      let v = handle_req-Bounded n m r c sub fs s few in inl (v.store_kept, v.broadcast_kept)
  handle_message-store c (close_msg sub) s few = inl (refl, refl)
  handle_message-store c other_msg s few = inl (refl, refl)

  -- In a session within its bound on subscriptions, a text changes the store only if it is an event
  -- that the policy allows a session without authentication to write; then the store is what the
  -- save made of it, the event is broadcast, and the acknowledgement is the only reply. Otherwise
  -- the store and the broadcasts are as before.
  pub handle_text-store :
      (c : Clock) (text : Bytes) (s : Session n m)
      → length s.active_subs ≤ max_subscriptions n m r
      → (((handle_text n m r c text s).store ≡ s.store)
          × ((handle_text n m r c text s).broadcast ≡ s.broadcast))
        ⊎ ((e : Event) × (r.from_json text ≡ some (event_msg e))
            × Accepted c e s (handle_text n m r c text s))
  unfolding handle_text
  handle_text-store c text s few =
      elim (Bool-cases (ltb (max_message_length n m r) (length text))) [
        | inl long ↦ rw (long, handle_text) (inl (refl, refl))
        | inr short ↦ elim (Option-cases (r.from_json text)) [
          | inl bad ↦ rw (short, bad, handle_text) (inl (refl, refl))
          | inr (msg, good) ↦
              rw (short, good, handle_text)
                (elim (handle_message-store c msg (received text s) few) [
                  | inl kept ↦ inl kept
                  | inr (e, same, done) ↦ inr (e, ap some same, done)
                ])
        ]
      ]

  -- A session within the configured bound on subscriptions stays within it, whatever text it sends.
  pub handle_text-subs :
      (c : Clock) (text : Bytes) (s : Session n m)
      → length s.active_subs ≤ max_subscriptions n m r
      → length (handle_text n m r c text s).active_subs ≤ max_subscriptions n m r
  unfolding handle_text
  handle_text-subs c text s few = elim (Bool-cases (ltb (max_message_length n m r) (length text))) [
    | inl long ↦ rw (long, handle_text) few
    | inr short ↦ elim (Option-cases (r.from_json text)) [
      | inl bad ↦ rw (short, bad, handle_text) few
      | inr (msg, good) ↦
          rw (short, good, handle_text) (handle_message-subs c msg (received text s) few)
    ]
  ]
