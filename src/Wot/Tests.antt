-- ===== src/Wot/Tests.antt =====
-- A Web of Trust of two keys: the seed's contact list names one other.
use moar.Common.{
  ℕ, ◌≡◌, refl, sym, ap, ◌⊎◌, inl, inr, ◌↔◌, true, false, Option, none, some, List, [], ◌∷◌, Bytes,
  bytes_eq, bytes_eq→eq, if◌then◌else◌, In, Bool-cases, replicate, subst, arith, ◌∙◌, some_inj, All,
}
use moar.Config.{WotConfig}
use moar.HashSet.{extend, insert}
use moar.Wot.Relay.{
  Serde, Network, Frame, text, other, close, event, wot_dash, p_tag, message_keys, array_of,
  read_until_eose, query_relay_batches,
}
use moar.Wot.Meaning.{Text, IsEnd, Text-IsEnd, Text-EventNames, false_ne_true}
use moar.Wot.Reading.{Heard, Names, read_until_eose-Names}
use moar.Wot.Follows.{FollowedBy, Within, IsHonest, IsComplete}
use moar.Wot.Build.{WotStatus, BuildError, is_ready, build_wot}
use moar.Wot.Hops.{build_wot_sound, build_wot_complete, build_wot-fails}
use moar.Wot.Disk.{IsKey}
use moar.Wot.Restart.{builder_round-restart, IsTakenUp}
use moar.Wot.{WotManager, WotEntry, new, start_builder, builder_round}

-- Messages as the tests need them: a text names one key, in an event of the first subscription.
data Message : Type 0 where
  str : Bytes → Message
  tag tag_list event_of message : Bytes → Message

abbrev as_array : Message → Option (List Message)
as_array (tag k) = some (str p_tag ∷ str k ∷ [])
as_array (tag_list k) = some (tag k ∷ [])
as_array (message k) = some (str event ∷ str wot_dash ∷ event_of k ∷ [])
as_array _ = none

abbrev as_str : Message → Option Bytes
as_str (str s) = some s
as_str _ = none

abbrev field : Message → Bytes → Option Message
field (event_of k) name = some (tag_list k)
field _ name = none

abbrev serde : Serde
serde = record {
  Value = Message;
  from_str = λ t. some (message t);
  as_array = as_array;
  as_str = as_str;
  field = field;
}

abbrev display : ℕ → Bytes
display n = []

abbrev seed : Bytes
seed = 1 ∷ []

abbrev friend : Bytes
friend = 2 ∷ []

abbrev follows : Bytes → List Bytes
follows a = if bytes_eq a seed then friend ∷ [] else []

abbrev sent : List Bytes → List Frame
sent [] = []
sent (a ∷ batch) = if bytes_eq a seed then text friend ∷ sent batch else sent batch

abbrev net : Network
net url = some (λ i batch. some (record { frames = sent batch; closed = true }))

Heard-friend :
    (batch : List Bytes) (t : Bytes)
    → Heard serde some display (sent batch) wot_dash t
    → (t ≡ friend) × In seed batch
Heard-friend [] t h = absurd h
Heard-friend (a ∷ batch) t h = elim (Bool-cases (bytes_eq a seed)) [
  | inl is_seed ↦ elim ((rw is_seed at h).1) [
    | inl now ↦ (now, inl (sym (bytes_eq→eq a seed is_seed)))
    | inr later ↦ let (e, m) = Heard-friend batch t later in (e, inr m)
  ]
  | inr is_other ↦ let (e, m) = Heard-friend batch t (rw is_other at h) in (e, inr m)
]

Names-friend :
    (batch : List Bytes) (x : Bytes)
    → Names serde some display (sent batch) wot_dash x
    → FollowedBy follows batch x
unfolding bytes_eq
Names-friend batch x n =
    let (e, m) = Heard-friend batch n.message n.heard in
    record {
      author = seed;
      asked = m;
      followed =
          subst
            (λ t. In x (message_keys serde some display (array_of serde some display t) wot_dash)) e
            ((Text-EventNames serde some display n.message wot_dash x).1 n.named);
    }

honest : IsHonest serde some display net follows
honest = record {
  truthful = λ url ws up i batch ex got x n.
      let sent_ex : some (record { frames = sent batch; closed = true }) ≡ some ex =
        ap (λ f. f i batch) (some_inj up) ∙ got in
      Names-friend batch x
        (subst (λ e. Names serde some display e.frames wot_dash x) (sym (some_inj sent_ex)) n);
}

no-IsEnd : ¬ Text serde some display (λ arr. IsEnd serde some display arr wot_dash) friend
unfolding bytes_eq
no-IsEnd e = false_ne_true ((Text-IsEnd serde some display friend wot_dash).1 e)

friend-Heard :
    (batch : List Bytes) → In seed batch → Heard serde some display (sent batch) wot_dash friend
unfolding bytes_eq
friend-Heard [] m = absurd m
friend-Heard (a ∷ batch) (inl here) = rw (sym here) (no-IsEnd, inl refl)
friend-Heard (a ∷ batch) (inr there) = elim (Bool-cases (bytes_eq a seed)) [
  | inl is_seed ↦ rw is_seed (no-IsEnd, inl refl)
  | inr is_other ↦ rw is_other (friend-Heard batch there)
]

friend_named : (x a : Bytes) → In x (follows a) → (a ≡ seed) × (x ≡ friend)
friend_named x a m = elim (Bool-cases (bytes_eq a seed)) [
  | inl is_seed ↦ elim (rw is_seed at m) [
    | inl here ↦ (bytes_eq→eq a seed is_seed, here)
    | inr m ↦ absurd m
  ]
  | inr is_other ↦ absurd (rw is_other at m)
]

complete : (url : Bytes) → IsComplete serde some display net follows url
unfolding bytes_eq
complete url = record {
  ws = λ i batch. some (record { frames = sent batch; closed = true });
  connects = refl;
  exchange = λ i batch. record { frames = sent batch; closed = true };
  answers = λ i batch. refl;
  ends = λ i batch. refl;
  names_all = λ i batch x by.
      let (is_seed, is_friend) = friend_named x by.author by.followed in
      record {
        message = friend;
        heard = friend-Heard batch (subst (λ a. In a batch) is_seed by.asked);
        named = (Text-EventNames serde some display friend wot_dash x).0 (inl is_friend);
      };
}

abbrev config : WotConfig
config = record { seed = seed; depth = 0; update_interval_hours = 24 }

abbrev relay : Bytes
relay = 9 ∷ []

-- The events of an other kind are skipped, and so is what comes after a close.
read_until_eose-Names_example :
    (In friend (
      read_until_eose serde some display
        (other ∷ text friend ∷ close ∷ text seed ∷ [])
        wot_dash
        []))
    ↔ Names serde some display (other ∷ text friend ∷ close ∷ text seed ∷ []) wot_dash friend
read_until_eose-Names_example =
    read_until_eose-Names serde some display (other ∷ text friend ∷ close ∷ text seed ∷ []) wot_dash
      friend

abbrev built_set : List Bytes
built_set = friend ∷ seed ∷ []

built_ok :
    build_wot serde some display net config (relay ∷ []) [] WotStatus.pending
    ≡ record { set = built_set; status = WotStatus.ready; result = none }
unfolding build_wot insert extend query_relay_batches read_until_eose bytes_eq
built_ok = refl

abbrev BuiltFriend : List Bytes → Type 0
BuiltFriend set = In friend set

build_wot_sound_example : Within follows seed 1 friend
build_wot_sound_example =
    build_wot_sound serde some display net follows honest config (relay ∷ []) [] WotStatus.pending
      (ap (λ o. o.result) built_ok) seed refl friend
      (subst (λ o. BuiltFriend o.set) (sym built_ok) (inl refl))

friend_near : Within follows seed 1 friend
unfolding bytes_eq
friend_near = inr (seed, refl, inl refl)

build_wot_complete_example :
    let built = build_wot serde some display net config (relay ∷ []) [] WotStatus.pending in
    (built.result ≡ none) × (built.status ≡ WotStatus.ready) × In friend built.set
build_wot_complete_example =
    build_wot_complete serde some display net follows config relay [] [] WotStatus.pending
      (λ url m. complete url) seed refl friend friend_near

abbrev unreachable : Network
unreachable url = none

build_wot-fails_example :
    let built =
      build_wot serde some display unreachable config (relay ∷ []) built_set WotStatus.pending in
    ((built.result ≡ none) × (built.status ≡ WotStatus.ready))
    ⊎ ((why : BuildError) × (built.result ≡ some why)
        × (built.set ≡ built_set)
        × ((built.status ≡ WotStatus.pending) ⊎ (is_ready built.status ≡ false)))
build_wot-fails_example =
    build_wot-fails serde some display unreachable config (relay ∷ []) built_set WotStatus.pending

long_IsKey : (b : ℕ) → IsKey some (replicate 32 b)
long_IsKey b = record { key_length = refl; parses = refl }

abbrev silent : Network
silent url = some (λ i batch. some (record { frames = []; closed = true }))

abbrev id : Bytes
id = 119 ∷ []

abbrev long_config : WotConfig
long_config = record { seed = replicate 32 7; depth = 2; update_interval_hours = 24 }

abbrev manager : WotManager
manager = new (relay ∷ []) ((id, long_config) ∷ []) []

abbrev entry : WotEntry
entry = record {
  config = long_config;
  set = [];
  status = WotStatus.pending;
  last_updated = none;
  running = false;
}

abbrev restarted : WotManager
restarted =
    new (relay ∷ []) ((id, long_config) ∷ [])
      (builder_round serde some display silent manager id 1000).disk

long_built :
    build_wot serde some display silent long_config (relay ∷ []) [] WotStatus.pending
    ≡ record { set = replicate 32 7 ∷ []; status = WotStatus.ready; result = none }
unfolding build_wot insert extend query_relay_batches read_until_eose
long_built = refl

builder_round-restart_example :
    IsTakenUp some
      (start_builder some restarted id 5000)
      id
      (build_wot serde some display silent long_config (relay ∷ []) [] WotStatus.pending).set
unfolding bytes_eq
builder_round-restart_example =
    builder_round-restart some serde some display silent manager id entry 1000 5000 restarted entry
      refl refl (ap (λ o. o.result) long_built)
      (subst (λ o. All (IsKey some) o.set) (sym long_built) (long_IsKey 7, tt)) refl refl
      (omega arith) (omega arith)
