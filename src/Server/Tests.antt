-- ===== src/Server/Tests.antt =====
-- A session over the store in memory, whose parser knows one request and nothing else.
use moar.Common.{
  ◌≤◌, ◌≡◌, ◌≢◌, ◌⊎◌, refl, arith, true, Option, none, some, [], ◌∷◌, Bytes, length, replicate,
  if◌then◌else◌, ◌==◌, subst, none_ne_some,
}
use moar.Config.{PolicyConfig, default_policy, default_read, default_nip11}
use moar.Nostr.{Event, Filter, IsEvent}
use moar.Policy.{allow, new_engine, can_read}
use moar.RateLimit.Tests.{map, localhost, tracked}
use moar.Stats.{new_stats}
use moar.Storage.Lmdb.{new_store}
use moar.Storage.Lmdb.Coherence.{new_store-Coherent}
use moar.Storage.Memory.{memory}
use moar.Server.{
  Notice, ClientMessage, event_msg, req_msg, Session, Relay, Clock, authed_pubkey,
  max_subscriptions, handle_req, handle_text,
}
use moar.Server.Guards.{Accepted, handle_text-store, handle_text-subs}
use moar.Server.Refusal.{OnlyNotice, handle_req-refused}
use moar.Server.Backed.{lmdb, Sound, handle_text-Sound}

abbrev everything : Filter
everything = record {
  ids = none;
  authors = none;
  kinds = none;
  since = none;
  until = none;
  limit = none;
  generic_tags = [];
}

abbrev note : Event
note = record {
  id = replicate 32 7;
  pubkey = replicate 32 0xa1;
  created_at = 1700000000;
  kind = 1;
  tags = [];
  content = [];
}

abbrev guarded : PolicyConfig
guarded = record default_policy { read = record default_read { require_auth = true } }

abbrev parse : Bytes → Option Bytes
parse key = none

abbrev messages : Bytes → Option ClientMessage
messages text =
    if length text == 1 then some (event_msg note) else some (req_msg text (everything ∷ []))

abbrev relay : Relay
relay = record {
  config = record {
    name = [];
    description = none;
    subdomain = [];
    db_path = [];
    policy = guarded;
    nip11 = default_nip11;
  };
  policy = new_engine parse guarded default_nip11 none none none none;
  client_ip = localhost;
  as_json = λ msg. [];
  from_json = messages;
  parse_key = parse;
}

abbrev clock : Clock
clock = record { touched = 3; now = 3; later = 3; seconds = 1700000100 }

abbrev start : Session (lmdb memory) map
start = record {
  store = new_store memory;
  tracker = tracked;
  stats = new_stats;
  active_subs = (b'a' ∷ []) ∷ [];
  sent = [];
  broadcast = [];
}

note-IsEvent : IsEvent note
note-IsEvent = record {
  id_length = refl;
  id_bytes = omega arith;
  pubkey_length = refl;
  created_at_u64 = omega arith;
  kind_u16 = omega arith;
}

abbrev text : Bytes
text = b'e' ∷ []

handle_text-store_example :
    (((handle_text (lmdb memory) map relay clock text start).store ≡ start.store)
      × ((handle_text (lmdb memory) map relay clock text start).broadcast ≡ start.broadcast))
    ⊎ ((e : Event) × (relay.from_json text ≡ some (event_msg e))
        × Accepted
            (lmdb memory)
            map
            relay
            clock
            e
            start
            (handle_text (lmdb memory) map relay clock text start))
handle_text-store_example = handle_text-store (lmdb memory) map relay clock text start (omega arith)

handle_text-subs_example :
    length (handle_text (lmdb memory) map relay clock text start).active_subs
    ≤ max_subscriptions (lmdb memory) map relay
handle_text-subs_example = handle_text-subs (lmdb memory) map relay clock text start (omega arith)

refuses : can_read relay.policy everything authed_pubkey ≢ allow
unfolding can_read new_engine
refuses = λ h. cc

handle_req-refused_example :
    (why : Notice) × OnlyNotice
      (lmdb memory)
      map
      relay
      why
      start
      (handle_req (lmdb memory) map relay clock text (everything ∷ []) start)
handle_req-refused_example =
    handle_req-refused (lmdb memory) map relay clock text everything [] start refuses

note-parsed : (e : Event) → relay.from_json text ≡ some (event_msg e) → IsEvent e
note-parsed e h = subst IsEvent (same h) note-IsEvent
  where
    same : some (event_msg note) ≡ some (event_msg e) → note ≡ e
    same p = cc

start-Sound : Sound memory map relay start.store
start-Sound = (new_store-Coherent memory, λ x y hx hy. absurd (none_ne_some hx.1))

handle_text-Sound_example :
    Sound memory map relay (handle_text (lmdb memory) map relay clock text start).store
handle_text-Sound_example =
    handle_text-Sound memory map relay clock text start note-parsed (omega arith) start-Sound
