-- ===== src/Wot/Meaning.antt =====
-- What a relay's messages mean: the end of the stored events, and the keys that an event names.
use moar.Common.{
  ℕ, ◌≡◌, refl, sym, ap, ◌∙◌, ◌⊎◌, inl, inr, ◌↔◌, true, false, Option, none, some, List, [], ◌∷◌,
  Bytes, In, Bool-cases, Option-cases, bytes_eq, bytes_eq→eq, bytes_eq_refl, In-append,
  In-append_left, In-append_right, some_inj, subst,
}
use moar.Wot.Relay.{
  Serde, eose, event, tags, p_tag, is_str, key_of_hex, tag_key, tag_keys, event_keys, is_other,
  is_eose, message_keys, array_of,
}

pub false_ne_true : ¬ (false ≡ true)
false_ne_true h = cc

is_str_lem : (o : Option Bytes) (s : Bytes) → (is_str o s ≡ true) ↔ (o ≡ some s)
is_str_lem none s = (λ h. cc, λ h. cc)
is_str_lem (some t) s = (λ h. ap some (bytes_eq→eq t s h), λ h. rw (some_inj h) (bytes_eq_refl s))

module _ (S : Serde) (parse : Bytes → Option Bytes) (display : ℕ → Bytes) where
  -- A tag `["p", key, ...]`, whose key parses to this one.
  pub record TagNames (tag : S.Value) (x : Bytes) : Type 0 where
    pub name : S.Value
    pub value : S.Value
    pub rest : List S.Value
    pub hex : Bytes
    pub is_array : S.as_array tag ≡ some (name ∷ value ∷ rest)
    pub is_p : S.as_str name ≡ some p_tag
    pub is_hex : S.as_str value ≡ some hex
    pub parsed : parse hex ≡ some x

  -- A message `["EVENT", subscription, event, ...]` of this subscription, with such a tag among the
  -- event's tags. A message whose subscription is no string counts as one of this subscription.
  pub record EventNames (arr : List S.Value) (sub_id x : Bytes) : Type 0 where
    pub kind : S.Value
    pub sid : S.Value
    pub event_obj : S.Value
    pub rest : List S.Value
    pub is_message : arr ≡ kind ∷ sid ∷ event_obj ∷ rest
    pub is_event : S.as_str kind ≡ some event
    pub for_us : (S.as_str sid ≡ none) ⊎ (S.as_str sid ≡ some sub_id)
    pub field : S.Value
    pub list : List S.Value
    pub tag : S.Value
    pub has_tags : S.field event_obj tags ≡ some field
    pub is_list : S.as_array field ≡ some list
    pub among : In tag list
    pub names : TagNames tag x

  -- A message `["EOSE", subscription, ...]` of this subscription.
  pub record IsEnd (arr : List S.Value) (sub_id : Bytes) : Type 0 where
    pub kind : S.Value
    pub sid : S.Value
    pub rest : List S.Value
    pub is_message : arr ≡ kind ∷ sid ∷ rest
    pub is_end : S.as_str kind ≡ some eose
    pub for_us : S.as_str sid ≡ some sub_id

  -- A text that is JSON and an array, of which this holds.
  pub record Text (P : List S.Value → Type 0) (t : Bytes) : Type 0 where
    pub value : S.Value
    pub arr : List S.Value
    pub is_json : S.from_str t ≡ some value
    pub is_array : S.as_array value ≡ some arr
    pub holds : P arr

  key_of_hex_lem :
      (o : Option Bytes) (x : Bytes)
      → In x (key_of_hex S parse display o)
      → (hex : Bytes) × (o ≡ some hex) × (parse hex ≡ some x)
  key_of_hex_lem none x m = absurd m
  key_of_hex_lem (some hex) x m = elim (Option-cases (parse hex)) [
    | inl bad ↦ absurd (rw (bad, key_of_hex) at m)
    | inr (pk, good) ↦ elim (rw (good, key_of_hex) at m) [
      | inl here ↦ (hex, refl, good ∙ ap some (sym here))
      | inr there ↦ absurd there
    ]
  ]

  tag_key-TagNames :
      (tag : S.Value) (o : Option (List S.Value)) (x : Bytes)
      → S.as_array tag ≡ o
      → In x (tag_key S parse display o)
      → TagNames tag x
  tag_key-TagNames tag none x h m = absurd m
  tag_key-TagNames tag (some []) x h m = absurd m
  tag_key-TagNames tag (some (a ∷ [])) x h m = absurd m
  tag_key-TagNames tag (some (name ∷ value ∷ rest)) x h m =
      elim (Bool-cases (is_str (S.as_str name) p_tag)) [
        | inl same ↦
            let (hex, is_hex, parsed) = key_of_hex_lem (S.as_str value) x (rw same at m) in
            record {
              name = name;
              value = value;
              rest = rest;
              hex = hex;
              is_array = h;
              is_p = (is_str_lem (S.as_str name) p_tag).0 same;
              is_hex = is_hex;
              parsed = parsed;
            }
        | inr other ↦ absurd (rw other at m)
      ]

  TagNames-tag_key :
      (tag : S.Value) (x : Bytes) → TagNames tag x → In x (tag_key S parse display (S.as_array tag))
  TagNames-tag_key tag x n =
      let same = (is_str_lem (S.as_str n.name) p_tag).1 n.is_p in
      rw (n.is_array, tag_key) (rw same (rw (n.is_hex, key_of_hex) (rw n.parsed (inl refl))))

  tag_keys_lem :
      (list : List S.Value) (x : Bytes)
      → (In x (tag_keys S parse display list)) ↔ ((tag : S.Value) × In tag list × TagNames tag x)
  tag_keys_lem [] x = (λ m. absurd m, λ (tag, m, n). absurd m)
  tag_keys_lem (tag ∷ more) x = (
    λ m.
        elim (In-append x (tag_key S parse display (S.as_array tag)) (tag_keys S parse display more)
          m) [
            | inl here ↦ (tag, inl refl, tag_key-TagNames tag (S.as_array tag) x refl here)
            | inr there ↦ let (t, at, n) = (tag_keys_lem more x).0 there in (t, inr at, n)
          ],
    λ (t, at, n). elim at [
      | inl here ↦ In-append_left x _ _ (TagNames-tag_key tag x (subst (λ t. TagNames t x) here n))
      | inr there ↦ In-append_right x _ _ ((tag_keys_lem more x).1 (t, there, n))
    ],
  )

  event_keys_lem :
      (event_obj : S.Value) (x : Bytes)
      → In x (event_keys S parse display event_obj)
      → (field : S.Value) × (list : List S.Value) × (tag : S.Value) × (S.field event_obj tags
          ≡ some field)
        × (S.as_array field ≡ some list)
        × In tag list
        × TagNames tag x
  event_keys_lem event_obj x m = elim (Option-cases (S.field event_obj tags)) [
    | inl without ↦ absurd (rw (without, event_keys) at m)
    | inr (field, there) ↦ elim (Option-cases (S.as_array field)) [
      | inl other ↦ absurd (rw other at (rw (there, event_keys) at m))
      | inr (list, is_list) ↦
          let (tag, among, n) =
            (tag_keys_lem list x).0 (rw is_list at (rw (there, event_keys) at m)) in
          (field, list, tag, there, is_list, among, n)
    ]
  ]

  is_other_lem :
      (o : Option Bytes) (sub_id : Bytes)
      → (is_other S parse display o sub_id ≡ false) ↔ ((o ≡ none) ⊎ (o ≡ some sub_id))
  is_other_lem none sub_id = (λ h. inl refl, λ h. refl)
  is_other_lem (some sid) sub_id = (
    λ h. elim (Bool-cases (bytes_eq sid sub_id)) [
      | inl same ↦ inr (ap some (bytes_eq→eq sid sub_id same))
      | inr other ↦ cc
    ],
    λ h. elim h [
      | inl without ↦ cc
      | inr same ↦ rw (some_inj same) (rw (bytes_eq_refl sub_id) refl)
    ],
  )

  message_keys-EventNames :
      (arr : List S.Value) (sub_id x : Bytes)
      → In x (message_keys S parse display arr sub_id)
      → EventNames arr sub_id x
  message_keys-EventNames [] sub_id x m = absurd m
  message_keys-EventNames (a ∷ []) sub_id x m = absurd m
  message_keys-EventNames (a ∷ b ∷ []) sub_id x m = absurd m
  message_keys-EventNames (kind ∷ sid ∷ event_obj ∷ rest) sub_id x m =
      elim (Bool-cases (is_str (S.as_str kind) event)) [
        | inr other ↦ absurd (rw other at m)
        | inl is_event ↦ elim (Bool-cases (is_other S parse display (S.as_str sid) sub_id)) [
          | inl apart ↦ absurd (rw apart at (rw is_event at m))
          | inr ours ↦
              let (field, list, tag, there, is_list, among, n) =
                event_keys_lem event_obj x (rw ours at (rw is_event at m)) in
              record {
                kind = kind;
                sid = sid;
                event_obj = event_obj;
                rest = rest;
                is_message = refl;
                is_event = (is_str_lem (S.as_str kind) event).0 is_event;
                for_us = (is_other_lem (S.as_str sid) sub_id).0 ours;
                field = field;
                list = list;
                tag = tag;
                has_tags = there;
                is_list = is_list;
                among = among;
                names = n;
              }
        ]
      ]

  EventNames-message_keys :
      (arr : List S.Value) (sub_id x : Bytes)
      → EventNames arr sub_id x
      → In x (message_keys S parse display arr sub_id)
  EventNames-message_keys arr sub_id x n =
      let is_event = (is_str_lem (S.as_str n.kind) event).1 n.is_event in
      let ours = (is_other_lem (S.as_str n.sid) sub_id).1 n.for_us in
      let named : In x (event_keys S parse display n.event_obj) =
        rw (n.has_tags, event_keys)
          (rw n.is_list ((tag_keys_lem n.list x).1 (n.tag, n.among, n.names))) in
      subst (λ a. In x (message_keys S parse display a sub_id)) (sym n.is_message)
        (rw is_event (rw ours named))

  is_eose-IsEnd :
      (arr : List S.Value) (sub_id : Bytes)
      → is_eose S parse display arr sub_id ≡ true
      → IsEnd arr sub_id
  is_eose-IsEnd [] sub_id h = cc
  is_eose-IsEnd (a ∷ []) sub_id h = cc
  is_eose-IsEnd (kind ∷ sid ∷ rest) sub_id h = elim (Bool-cases (is_str (S.as_str kind) eose)) [
    | inr other ↦ absurd (false_ne_true (rw other at h))
    | inl is_end ↦ record {
      kind = kind;
      sid = sid;
      rest = rest;
      is_message = refl;
      is_end = (is_str_lem (S.as_str kind) eose).0 is_end;
      for_us = (is_str_lem (S.as_str sid) sub_id).0 (rw is_end at h);
    }
  ]

  IsEnd-is_eose :
      (arr : List S.Value) (sub_id : Bytes)
      → IsEnd arr sub_id
      → is_eose S parse display arr sub_id ≡ true
  IsEnd-is_eose arr sub_id e =
      let is_end = (is_str_lem (S.as_str e.kind) eose).1 e.is_end in
      let ours = (is_str_lem (S.as_str e.sid) sub_id).1 e.for_us in
      subst (λ a. is_eose S parse display a sub_id ≡ true) (sym e.is_message)
        (rw is_end (rw ours refl))

  array_of_lem :
      (P : List S.Value → Type 0) (t : Bytes) → ¬ P [] → P (array_of S parse display t) ↔ Text P t
  array_of_lem P t never = (
    λ p. elim (Option-cases (S.from_str t)) [
      | inl bad ↦ absurd (never (rw (bad, array_of) at p))
      | inr (v, good) ↦ elim (Option-cases (S.as_array v)) [
        | inl other ↦ absurd (never (rw other at (rw (good, array_of) at p)))
        | inr (arr, is_array) ↦ record {
          value = v;
          arr = arr;
          is_json = good;
          is_array = is_array;
          holds = rw is_array at (rw (good, array_of) at p);
        }
      ]
    ],
    λ x. rw (x.is_json, array_of) (rw x.is_array x.holds),
  )

  -- The text names the key in an event of the subscription.
  pub Text-EventNames :
      (t sub_id x : Bytes)
      → (In x (message_keys S parse display (array_of S parse display t) sub_id))
        ↔ Text (λ arr. EventNames arr sub_id x) t
  Text-EventNames t sub_id x =
      let read =
        array_of_lem (λ arr. EventNames arr sub_id x) t
          (λ n. EventNames-message_keys [] sub_id x n) in
      (
        λ m. read.0 (message_keys-EventNames (array_of S parse display t) sub_id x m),
        λ n. EventNames-message_keys (array_of S parse display t) sub_id x (read.1 n),
      )

  -- The text is the end of the subscription's stored events.
  pub Text-IsEnd :
      (t sub_id : Bytes)
      → (is_eose S parse display (array_of S parse display t) sub_id ≡ true)
        ↔ Text (λ arr. IsEnd arr sub_id) t
  Text-IsEnd t sub_id =
      let read =
        array_of_lem (λ arr. IsEnd arr sub_id) t (λ e. false_ne_true (IsEnd-is_eose [] sub_id e)) in
      (
        λ m. read.0 (is_eose-IsEnd (array_of S parse display t) sub_id m),
        λ n. IsEnd-is_eose (array_of S parse display t) sub_id (read.1 n),
      )
