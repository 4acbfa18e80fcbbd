-- ===== src/Wot/Relay.antt =====
-- src/wot.rs: the contact lists that a discovery relay is asked for, and the answers that are read.
-- Parameters: the `serde_json` values, `PublicKey::parse`, and the network, as what arrives on a
-- connection. A key stands for its hexadecimal form in a request.
use moar.Common.{
  ℕ, suc, Bool, false, ◌&&◌, not, Option, none, some, List, [], ◌∷◌, ◌++◌, Bytes, bytes_eq,
  if◌then◌else◌,
}
use moar.HashSet.{HashSet, extend}

-- What the code reads of a `serde_json::Value`.
pub record Serde : Type 1 where
  pub Value : Type 0
  pub from_str : Bytes → Option Value
  pub as_array : Value → Option (List Value)
  pub as_str : Value → Option Bytes
  pub field : Value → Bytes → Option Value

-- What `ws.next()` gives. The stream's end, and the 30 seconds' timeout, are the end of the list.
pub data Frame : Type 0 where
  text : Bytes → Frame
  close other failed : Frame

-- One `REQ` on a connection: `none` where it cannot be sent. `closed` says whether `CLOSE` can be.
pub record Exchange : Type 0 where
  pub frames : List Frame
  pub closed : Bool

-- A connection answers the request with this number for these authors; `none` is a failed connect.
abbrev pub Network : Type 0
Network = Bytes → Option (ℕ → List Bytes → Option Exchange)

abbrev pub eose : Bytes
eose = 69 ∷ 79 ∷ 83 ∷ 69 ∷ []

abbrev pub event : Bytes
event = 69 ∷ 86 ∷ 69 ∷ 78 ∷ 84 ∷ []

abbrev pub tags : Bytes
tags = 116 ∷ 97 ∷ 103 ∷ 115 ∷ []

abbrev pub p_tag : Bytes
p_tag = 112 ∷ []

abbrev pub wot_dash : Bytes
wot_dash = 119 ∷ 111 ∷ 116 ∷ 45 ∷ []

abbrev pub is_str : Option Bytes → Bytes → Bool
is_str none s = false
is_str (some t) s = bytes_eq t s

-- `display` writes a number in decimal.
module _ (S : Serde) (parse : Bytes → Option Bytes) (display : ℕ → Bytes) where
  abbrev pub key_of_hex : Option Bytes → List Bytes
  key_of_hex none = []
  key_of_hex (some hex) = elim (parse hex) [ none ↦ [] | some pk ↦ pk ∷ [] ]

  -- The key that a tag names, if it is a `p` tag.
  abbrev pub tag_key : Option (List S.Value) → List Bytes
  tag_key (some (name ∷ value ∷ rest)) =
      if is_str (S.as_str name) p_tag then key_of_hex (S.as_str value) else []
  tag_key _ = []

  abbrev pub tag_keys : List S.Value → List Bytes
  tag_keys [] = []
  tag_keys (tag ∷ more) = tag_key (S.as_array tag) ++ tag_keys more

  -- The keys that an event's `p` tags name.
  abbrev pub event_keys : S.Value → List Bytes
  event_keys event_obj = elim (S.field event_obj tags) [
    | none ↦ []
    | some value ↦ elim (S.as_array value) [ none ↦ [] | some list ↦ tag_keys list ]
  ]

  -- Whether a message's subscription, if it names one, is another.
  abbrev pub is_other : Option Bytes → Bytes → Bool
  is_other none sub_id = false
  is_other (some sid) sub_id = not (bytes_eq sid sub_id)

  abbrev pub is_eose : List S.Value → Bytes → Bool
  is_eose (kind ∷ sid ∷ rest) sub_id = is_str (S.as_str kind) eose && is_str (S.as_str sid) sub_id
  is_eose _ sub_id = false

  abbrev pub message_keys : List S.Value → Bytes → List Bytes
  message_keys (kind ∷ sid ∷ event_obj ∷ rest) sub_id =
      if is_str (S.as_str kind) event && not (is_other (S.as_str sid) sub_id)
      then event_keys event_obj
      else []
  message_keys _ sub_id = []

  -- The array that a text frame holds; any other text is skipped, as an empty array is.
  abbrev pub array_of : Bytes → List S.Value
  array_of t = elim (S.from_str t) [
    | none ↦ []
    | some v ↦ elim (S.as_array v) [ none ↦ [] | some arr ↦ arr ]
  ]

  unfoldable pub read_until_eose : List Frame → Bytes → HashSet → HashSet
  read_until_eose [] sub_id followed = followed
  read_until_eose (text t ∷ ws) sub_id followed =
      let rest = read_until_eose ws sub_id in
      if is_eose (array_of t) sub_id
      then followed
      else rest (extend followed (message_keys (array_of t) sub_id))
  read_until_eose (close ∷ ws) sub_id followed = followed
  read_until_eose (failed ∷ ws) sub_id followed = followed
  read_until_eose (other ∷ ws) sub_id followed = read_until_eose ws sub_id followed

  -- The answer to one batch: `none` where the connection breaks.
  abbrev pub answer : (ℕ → List Bytes → Option Exchange) → ℕ → List Bytes → Option HashSet
  answer ws i batch = elim (ws i batch) [
    | none ↦ none
    | some ex ↦
        if ex.closed then some (read_until_eose ex.frames (wot_dash ++ display i) []) else none
  ]

  -- The loop over the batches, from the one with the number `i`.
  unfoldable pub query_batches :
      (ℕ → List Bytes → Option Exchange) → ℕ → List (List Bytes) → HashSet → Option HashSet
  query_batches ws i [] all_followed = some all_followed
  query_batches ws i (batch ∷ batches) all_followed =
      let rest = query_batches ws (suc i) batches in
      elim (answer ws i batch) [ none ↦ none | some followed ↦ rest (extend all_followed followed) ]

  unfoldable pub query_relay_batches : Network → Bytes → List (List Bytes) → Option HashSet
  unfolding query_batches
  query_relay_batches net relay_url batches = elim (net relay_url) [
    | none ↦ none
    | some ws ↦ query_batches ws 0 batches []
  ]
