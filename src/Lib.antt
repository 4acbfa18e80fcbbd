-- ===== src/Lib.antt =====
-- MOAR, a host for several Nostr relays (moar on GitHub, barrydeen/moar): its relays, media servers and gateway.
--
-- A client's text reaches a session (src/server.rs), which asks the rate limiter (src/rate_limit.rs)
-- and the policy (src/policy.rs) and then saves to or queries the event store (src/storage/). The
-- policy asks the paywall (src/paywall.rs) and the Web of Trust whether they have a key. The counters
-- of src/stats.rs are sampled every minute.
--
-- The gateway (src/gateway.rs) routes a host name to a relay, to a media server (src/blossom/) or to
-- the admin interface, which changes the configuration (src/config.rs) and its file, and hands changes
-- of the Webs of Trust (src/wot.rs) and of the paywalls to their managers.
--
-- Which file models what, the paths being those of the repository:
--   Common.antt          tests on numbers, lists by native length, byte strings and their order
--   ConcurrentMap.antt   the `dashmap` crate's map, as laws, with a map that meets them
--   HashMap.antt         the standard library's map with byte-string keys, and its laws
--   HashSet.antt         the standard library's set of byte strings
--   Nostr.antt           what the code reads of the `nostr` crate's events and filters
--   Error.antt           src/error.rs
--   Config.antt          src/config.rs: the records and `Default` values that the rest reads
--   RateLimit.antt       src/rate_limit.rs: `IpTracker`, `IpState`, `check_rate`, under their names
--   Stats.antt           src/stats.rs: `RelayStats`, `TimeSeriesRing`, `snapshot`
--   Storage/Heed.antt    LMDB and `serde_json`, which are not part of the repository, as laws
--   Storage/Memory.antt  a backend that meets these laws
--   Storage/Keys.antt    src/storage/lmdb.rs: the keys of the indices and the bounds of the scans
--   Storage/Lmdb.antt    src/storage/lmdb.rs: save, delete, get, indices, replaceable events
--   Storage/Query.antt   src/storage/lmdb.rs: `query`, its scans and the filter tests
--   Policy.antt          src/policy.rs: `PolicyEngine`, `can_write`, `can_read`, the proof of work
--   Paywall.antt         src/paywall.rs: `PaywallSet`, `PaywallManager`, the file of payers
--   Server.antt          src/server.rs: one text of `handle_socket`; Server/Backed.antt joins it to
--                        the store
--   Auth.antt            src/auth.rs
--   Wot.antt             src/wot.rs: `WotManager` and the builders; Wot/Build.antt `build_wot`,
--                        Wot/Relay.antt `query_relay_batches`, Wot/Disk.antt the file of keys
--   Blossom.antt         src/blossom/handlers.rs; Blossom/Auth.antt, Blossom/Store.antt and
--                        Blossom/Descriptor.antt src/blossom/auth.rs, store.rs and the descriptors
--   Gateway.antt         src/gateway.rs: the admin interface's routes; Gateway/Session.antt,
--                        Relays.antt, Blossoms.antt, Wots.antt and Paywalls.antt its handlers,
--                        Gateway/Transfer.antt the export and import of events, and
--                        Gateway/Caddy.antt the certificates and the routing by host
-- The modules below each of them hold the proofs, and the Tests modules concrete inputs.
--
-- State is passed on: a handler takes the state and returns the next one with its result. A clock
-- reading is an argument. Machine integers are native numbers with the wrap-around written out, and
-- hypotheses bound them where the types do. Loops are recursion on the list that they walk, so that no
-- fuel is needed; the white space of a line is taken off on fuel, which its length bounds. A write
-- transaction that fails leaves the store as it was.
--
-- A store is coherent when every stored value decodes to an event that stands under its id and whose
-- fields have the sizes of their types, and when each of the five indices has exactly the keys of the
-- stored events. Two events compete when a relay keeps one of them: the same author and replaceable
-- kind, and for a parameterized kind the same `d` tag.
--
-- A build of a Web of Trust is a breadth-first search: `Within` says which keys are so many hops from
-- the seed. Its loop over the depths is recursion on the clamped depth; the batches are cut on fuel, for
-- which the number of keys is enough. A handler of the gateway takes what it finds of the outside world
-- as one record, and a request's body as parsed; a handler that panics is an answer of its own.
--
-- Not modelled: in src/gateway.rs the admin's media handlers, the lists of the paywalls, the
-- statistics, restart and update; src/nwc.rs beyond the status of an invoice; the HTTP pages and
-- checkout handlers of src/server.rs and the end of a session; start-up and the background loop of
-- src/stats.rs, which are input and output; interleavings of the background tasks with requests; the
-- admin's web pages; faults of a disk other than a configuration or a page that cannot be written; and
-- signatures, hashes and encodings, which are other crates'.
pub mod Common
pub mod Auth
pub mod ConcurrentMap
pub mod HashMap
pub mod HashSet
pub mod RateLimit
pub mod Stats
pub mod Error
pub mod Nostr
pub mod Storage
pub mod Config
pub mod Policy
pub mod Paywall
pub mod Server
pub mod Wot
pub mod Gateway
pub mod Blossom
