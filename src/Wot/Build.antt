-- ===== src/Wot/Build.antt =====
-- src/wot.rs: the breadth-first build of a Web of Trust.
use moar.Common.{
  ℕ, zero, suc, ◌-◌, ◌%◌, ltb, ◌==◌, Bool, true, false, not, Option, none, some, List, [], ◌∷◌,
  ◌++◌, Bytes, length, take, drop, keep, elem, if◌then◌else◌,
}
use moar.Config.{WotConfig}
use moar.HashSet.{HashSet, insert, extend}
use moar.Wot.Relay.{Serde, Network, query_relay_batches}

pub data BuildError : Type 0 where
  no_discovery_relays invalid_seed : BuildError
  all_relays_failed : ℕ → BuildError

pub data WotStatus : Type 0 where
  pending ready : WotStatus
  building : ℕ → ℕ → WotStatus
  error : BuildError → WotStatus

abbrev pub is_ready : WotStatus → Bool
is_ready ready = true
is_ready _ = false

-- `to_query.chunks(size)`, on fuel: the length of the list is enough.
unfoldable pub chunks : ℕ → ℕ → List Bytes → List (List Bytes)
chunks zero size xs = []
chunks (suc n) size [] = []
chunks (suc n) size (x ∷ xs) = take size (x ∷ xs) ∷ chunks n size (drop size (x ∷ xs))

-- `relay_batches.entry(relay_idx).or_default().push(batch)`
unfoldable pub push : List (ℕ × List (List Bytes)) → ℕ → List Bytes → List (ℕ × List (List Bytes))
push [] i batch = (i, batch ∷ []) ∷ []
push ((j, bs) ∷ rest) i batch =
    let tail = push rest i batch in
    if i == j then (j, bs ++ (batch ∷ [])) ∷ rest else (j, bs) ∷ tail

-- Batches to relays in turn, from the batch with the number `i`.
unfoldable pub distribute :
    ℕ → ℕ → List (List Bytes) → List (ℕ × List (List Bytes)) → List (ℕ × List (List Bytes))
unfolding push
distribute n i [] relay_batches = relay_batches
distribute n i (batch ∷ batches) relay_batches =
    distribute n (suc i) batches (push relay_batches (i % n) batch)

-- `discovery_relays[relay_idx]`; an index out of range would panic.
abbrev pub url_at : List Bytes → ℕ → Option Bytes
url_at [] i = none
url_at (url ∷ urls) zero = some url
url_at (url ∷ urls) (suc i) = url_at urls i

-- `all_pubkeys.insert(pk)`, and `next_layer.insert(pk)` of a new key.
unfoldable pub absorb : HashSet × HashSet → List Bytes → HashSet × HashSet
absorb (all_pubkeys, next_layer) [] = (all_pubkeys, next_layer)
absorb (all_pubkeys, next_layer) (pk ∷ pks) =
    absorb
      (if elem pk all_pubkeys
        then (all_pubkeys, next_layer)
        else (insert all_pubkeys pk, insert next_layer pk))
      pks

-- What the loop over the depths carries.
pub record Crawl : Type 0 where
  pub all_pubkeys : HashSet
  pub current_layer : HashSet
  pub queried : HashSet

pub record Layer : Type 0 where
  pub all_pubkeys : HashSet
  pub next_layer : HashSet
  pub any_success : Bool

-- How the loop over the depths ends: with the keys found, or at this depth, without an answer.
pub data Built : Type 0 where
  found : HashSet → Built
  failed_at : ℕ → Built

module _ (S : Serde) (parse : Bytes → Option Bytes) (display : ℕ → Bytes) (net : Network) where
  -- The loop over the relays' answers.
  unfoldable pub gather : List Bytes → List (ℕ × List (List Bytes)) → Layer → Layer
  unfolding absorb
  gather relays [] layer = layer
  gather relays ((relay_idx, batches) ∷ rest) layer =
      gather relays rest (elim (url_at relays relay_idx) [
        | none ↦ layer
        | some relay_url ↦ elim (query_relay_batches S parse display net relay_url batches) [
          | none ↦ layer
          | some followed_pks ↦
              let (all, next) = absorb (layer.all_pubkeys, layer.next_layer) followed_pks in
              record { all_pubkeys = all; next_layer = next; any_success = true }
        ]
      ])

  abbrev pub to_query : Crawl → List Bytes
  to_query c = keep (λ pk. not (elem pk c.queried)) c.current_layer

  -- The batches of one depth, by the relay that gets them.
  abbrev pub relay_batches : List Bytes → Crawl → List (ℕ × List (List Bytes))
  relay_batches relays c =
      distribute (length relays) 0 (chunks (length (to_query c)) 300 (to_query c)) []

  abbrev pub unanswered : Crawl → Layer
  unanswered c = record { all_pubkeys = c.all_pubkeys; next_layer = []; any_success = false }

  unfoldable pub ask : List Bytes → Crawl → Layer
  unfolding gather chunks distribute
  ask relays c = gather relays (relay_batches relays c) (unanswered c)

  abbrev pub advance : Crawl → Layer → Crawl
  advance c layer = record {
    all_pubkeys = layer.all_pubkeys;
    current_layer = layer.next_layer;
    queried = extend c.queried (to_query c);
  }

  abbrev pub is_empty : List Bytes → Bool
  is_empty [] = true
  is_empty (x ∷ xs) = false

  -- The loop over the depths, with this many left.
  unfoldable pub layers : List Bytes → ℕ → ℕ → Crawl → Built
  unfolding ask
  layers relays zero depth c = found c.all_pubkeys
  layers relays (suc left) depth c =
      let layer = ask relays c in
      let rest = layers relays left (suc depth) (advance c layer) in
      if is_empty (to_query c)
      then found c.all_pubkeys
      else (if layer.any_success then rest else failed_at depth)

-- The shared parts of an entry that a build writes, and what it returns.
pub record Outcome : Type 0 where
  pub set : HashSet
  pub status : WotStatus
  pub result : Option BuildError

-- `depth.clamp(1, 4)`
abbrev pub clamped : ℕ → ℕ
clamped depth = if ltb depth 1 then 1 else (if ltb 4 depth then 4 else depth)

abbrev pub seeded : Bytes → Crawl
seeded seed = record { all_pubkeys = seed ∷ []; current_layer = seed ∷ []; queried = [] }

abbrev pub concluded : HashSet → ℕ → Built → Outcome
concluded set max_depth (found all_pubkeys) = record {
  set = all_pubkeys;
  status = ready;
  result = none;
}
concluded set max_depth (failed_at depth) = record {
  set = set;
  status = building (depth - 1) max_depth;
  result = some (all_relays_failed depth);
}

module _ (S : Serde) (parse : Bytes → Option Bytes) (display : ℕ → Bytes) (net : Network) where
  unfoldable pub build_wot : WotConfig → List Bytes → HashSet → WotStatus → Outcome
  unfolding layers
  build_wot config [] set status = record {
    set = set;
    status = status;
    result = some no_discovery_relays;
  }
  build_wot config (relay ∷ relays) set status = elim (parse config.seed) [
    | none ↦ record { set = set; status = status; result = some invalid_seed }
    | some seed ↦
        let max_depth = clamped config.depth in
        concluded set max_depth
          (layers S parse display net (relay ∷ relays) max_depth 1 (seeded seed))
  ]
