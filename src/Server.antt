-- ===== src/Server.antt =====
-- src/server.rs: one message of a WebSocket session, as `handle_socket` treats it.
-- A message that the relay sends stands in `sent`, the first one first; its JSON is a parameter.
-- The clock readings of the rate checks and of the policy are arguments.
mod Requests
pub mod Guards
pub mod Refusal
pub mod Backed
mod Tests
use moar.Common.{
  ℕ, suc, ◌+◌, ◌-◌, ◌*◌, ◌%◌, ◌^◌, Bool, true, false, not, ◌&&◌, ◌||◌, Option, none, some, List, [],
  ◌∷◌, ◌++◌, Bytes, length, ltb, leb, if◌then◌else◌, bytes_eq, elem, keep,
}
use moar.Config.{RelayConfig, Nip11Config, RateLimitConfig}
use moar.ConcurrentMap.{DashMap}
use moar.Error.{Error, Result, ok, err}
use moar.Nostr.{Event, Filter}
use moar.Policy.{
  DenyReason, PolicyResult, allow, deny, auth_required, PolicyEngine, can_write, can_read,
}
use moar.RateLimit.{IpAddr, IpState, ip_eq, check_write_rate, check_read_rate}
use moar.Stats.{RelayStats}

-- src/storage/mod.rs, the trait `NostrStore`, as far as a session uses it.
pub record NostrStore : Type 1 where
  pub Store : Type 0
  pub save_event : Store → Event → Result Store
  pub query : Store → Filter → Result (List Event)

-- The text of a NOTICE.
pub data Notice : Type 0 where
  too_large subid_too_long : ℕ → ℕ → Notice
  too_many_subscriptions : ℕ → Notice
  reads_limited needs_auth : Notice
  read_blocked : DenyReason → Notice
  query_error : Error → Notice

-- The text of an OK.
pub data Verdict : Type 0 where
  saved error_saving writes_limited write_needs_auth : Verdict
  write_blocked : DenyReason → Verdict

pub data RelayMessage : Type 0 where
  notice : Notice → RelayMessage
  ok_reply : Bytes → Bool → Verdict → RelayMessage
  event_reply : Bytes → Event → RelayMessage
  eose : Bytes → RelayMessage

pub data ClientMessage : Type 0 where
  event_msg : Event → ClientMessage
  req_msg : Bytes → List Filter → ClientMessage
  close_msg : Bytes → ClientMessage
  other_msg : ClientMessage

abbrev pub unwrap_or : ℕ → Option ℕ → ℕ
unwrap_or default none = default
unwrap_or default (some n) = n

-- The clamp of a filter's limit.
unfoldable pub clamp_limit : Nip11Config → Option ℕ → Option ℕ
clamp_limit nip11 (some l) = elim nip11.max_limit [
  | none ↦ some l
  | some max ↦ if ltb max l then some max else some l
]
clamp_limit nip11 none = nip11.default_limit

abbrev pub clamp_filter : Nip11Config → Filter → Filter
clamp_filter nip11 f = record f { limit = clamp_limit nip11 f.limit }

abbrev pub add_u64 : ℕ → ℕ → ℕ
add_u64 a b = (a + b) % 2 ^ 64

module _ (n : NostrStore) (m : DashMap IpAddr IpState ip_eq) where
  pub record Session : Type 0 where
    pub store : n.Store
    pub tracker : m.Table
    pub stats : RelayStats
    pub active_subs : List Bytes
    pub sent : List RelayMessage
    pub broadcast : List Event

-- What a session does not change: the relay's configuration and policy, the peer, the JSON of a
-- message and the parser of keys. `authed_pubkey` is `None` throughout, as in the code.
pub record Relay : Type 0 where
  pub config : RelayConfig
  pub policy : PolicyEngine
  pub client_ip : IpAddr
  pub as_json : RelayMessage → Bytes
  pub from_json : Bytes → Option ClientMessage
  pub parse_key : Bytes → Option Bytes

-- The readings of the clock while a message is handled.
pub record Clock : Type 0 where
  pub touched : ℕ
  pub now : ℕ
  pub later : ℕ
  pub seconds : ℕ

abbrev pub authed_pubkey : Option Bytes
authed_pubkey = none

module _ (n : NostrStore) (m : DashMap IpAddr IpState ip_eq) (r : Relay) where
  abbrev pub send_msg : RelayMessage → Session n m → Session n m
  send_msg msg s = record s {
    sent = s.sent ++ msg ∷ [];
    stats = record s.stats { bytes_tx = add_u64 s.stats.bytes_tx (length (r.as_json msg)) };
  }

  abbrev pub save_step : Event → Session n m → Session n m
  save_step e s = elim (n.save_event s.store e) [
    | err x ↦ send_msg (ok_reply e.id false error_saving) s
    | ok store ↦
        let s' = send_msg (ok_reply e.id true saved) (record s {
          store = store;
          stats = record s.stats { events_saved = add_u64 s.stats.events_saved 1 };
        }) in
        record s' { broadcast = s'.broadcast ++ e ∷ [] }
  ]

  -- What follows from the policy's answer.
  abbrev pub decide : Event → PolicyResult → Session n m → Session n m
  decide e allow s = save_step e s
  decide e (deny reason) s =
      send_msg (ok_reply e.id false (write_blocked reason)) (record s {
        stats = record s.stats { events_rejected = add_u64 s.stats.events_rejected 1 };
      })
  decide e auth_required s = send_msg (ok_reply e.id false write_needs_auth) s

  unfoldable pub handle_event : Clock → Event → Session n m → Session n m
  handle_event c e s =
      let (tracker, allowed) =
        check_write_rate m s.tracker r.client_ip r.config.policy.rate_limit.writes_per_minute
          c.touched c.now c.later in
      let s' : Session n m = record s { tracker = tracker } in
      if not allowed
      then send_msg (ok_reply e.id false writes_limited) s'
      else decide e (can_write r.parse_key r.policy e authed_pubkey c.seconds) s'

  -- The first filter that the policy refuses.
  unfoldable pub refusal : List Filter → Option Notice
  refusal [] = none
  refusal (f ∷ fs) = elim (can_read r.policy f authed_pubkey) [
    | allow ↦ refusal fs
    | deny reason ↦ some (read_blocked reason)
    | auth_required ↦ some needs_auth
  ]

  unfoldable pub send_events : Bytes → List Event → Session n m → Session n m
  send_events sub [] s = s
  send_events sub (e ∷ es) s = send_events sub es (send_msg (event_reply sub e) s)

  unfoldable pub run_filter : Bytes → Filter → Session n m → Session n m
  unfolding send_events
  run_filter sub f s = elim (n.query s.store (clamp_filter r.config.nip11 f)) [
    | ok events ↦
        send_events sub events (record s {
          stats = record s.stats { queries_served = add_u64 s.stats.queries_served 1 };
        })
    | err x ↦ send_msg (notice (query_error x)) s
  ]

  unfoldable pub run_filters : Bytes → List Filter → Session n m → Session n m
  unfolding run_filter
  run_filters sub [] s = s
  run_filters sub (f ∷ fs) s = run_filters sub fs (run_filter sub f s)

  abbrev pub max_subid_length : ℕ
  max_subid_length = unwrap_or 64 r.config.nip11.max_subid_length

  abbrev pub max_subscriptions : ℕ
  max_subscriptions = unwrap_or 20 r.config.nip11.max_subscriptions

  abbrev pub subscribe : Bytes → List Bytes → List Bytes
  subscribe sub subs = if elem sub subs then subs else sub ∷ subs

  -- A request that is not blocked.
  unfoldable pub serve : Bytes → List Filter → Session n m → Session n m
  unfolding run_filters
  serve sub filters s =
      send_msg (eose sub)
        (run_filters sub filters (record s { active_subs = subscribe sub s.active_subs }))

  unfoldable pub handle_req : Clock → Bytes → List Filter → Session n m → Session n m
  unfolding refusal serve
  handle_req c sub filters s =
      let (tracker, allowed) =
        check_read_rate m s.tracker r.client_ip r.config.policy.rate_limit.reads_per_minute
          c.touched c.now c.later in
      let s' : Session n m = record s { tracker = tracker } in
      if ltb max_subid_length (length sub)
      then send_msg (notice (subid_too_long (length sub) max_subid_length)) s
      else if not (elem sub s.active_subs) && leb max_subscriptions (length s.active_subs)
      then send_msg (notice (too_many_subscriptions max_subscriptions)) s
      else if not allowed
      then send_msg (notice reads_limited) s'
      else (elim (refusal filters) [
        | some why ↦ send_msg (notice why) s'
        | none ↦ serve sub filters s'
      ])

  unfoldable pub handle_message : Clock → ClientMessage → Session n m → Session n m
  unfolding handle_event handle_req
  handle_message c (event_msg e) s = handle_event c e s
  handle_message c (req_msg sub filters) s = handle_req c sub filters s
  handle_message c (close_msg sub) s = record s {
    active_subs = keep (λ x. not (bytes_eq x sub)) s.active_subs;
  }
  handle_message c other_msg s = s

  abbrev pub max_message_length : ℕ
  max_message_length = unwrap_or 524288 r.config.nip11.max_message_length

  -- `Message::Text(text)`.
  unfoldable pub handle_text : Clock → Bytes → Session n m → Session n m
  unfolding handle_message
  handle_text c text s =
      let s' : Session n m = record s {
        stats = record s.stats { bytes_rx = add_u64 s.stats.bytes_rx (length text) };
      } in
      if ltb max_message_length (length text)
      then send_msg (notice (too_large (length text) max_message_length)) s'
      else (elim (r.from_json text) [ none ↦ s' | some msg ↦ handle_message c msg s' ])
