-- ===== src/Wot/Reading.antt =====
-- What a relay's answer gives: the keys named in the events that are heard in time.
use moar.Common.{
  ℕ, ◌≡◌, refl, sym, ◌∙◌, ◌⊎◌, inl, inr, ◌↔◌, false, Option, List, [], ◌∷◌, Bytes, In, Bool-cases,
}
use moar.HashSet.{HashSet, extend, In-extend, In-extend_old, In-extend_new}
use moar.Wot.Meaning.{Text, IsEnd, EventNames, Text-IsEnd, Text-EventNames, false_ne_true}
use moar.Wot.Relay.{
  Serde, Frame, text, close, other, failed, read_until_eose, is_eose, message_keys, array_of,
}

module _ (S : Serde) (parse : Bytes → Option Bytes) (display : ℕ → Bytes) where
  -- The texts that arrive before the end of the stored events, a close, a failure or the timeout.
  abbrev pub Heard : List Frame → Bytes → Bytes → Type 0
  Heard [] sub_id t = ⊥
  Heard (text u ∷ ws) sub_id t =
      ¬ Text S parse display (λ arr. IsEnd S parse display arr sub_id) u
      × ((t ≡ u) ⊎ Heard ws sub_id t)
  Heard (other ∷ ws) sub_id t = Heard ws sub_id t
  Heard _ sub_id t = ⊥

  -- Whether some text that is heard names this key.
  pub record Names (ws : List Frame) (sub_id x : Bytes) : Type 0 where
    pub message : Bytes
    pub heard : Heard ws sub_id message
    pub named : Text S parse display (λ arr. EventNames S parse display arr sub_id x) message

  not-IsEnd :
      (t sub_id : Bytes)
      → (is_eose S parse display (array_of S parse display t) sub_id ≡ false)
        ↔ (¬ Text S parse display (λ arr. IsEnd S parse display arr sub_id) t)
  not-IsEnd t sub_id = (
    λ more ended. false_ne_true (sym more ∙ (Text-IsEnd S parse display t sub_id).1 ended),
    λ open'. elim (Bool-cases (is_eose S parse display (array_of S parse display t) sub_id)) [
      | inl ended ↦ absurd (open' ((Text-IsEnd S parse display t sub_id).0 ended))
      | inr more ↦ more
    ],
  )

  heard_keys :
      (ws : List Frame) (sub_id x : Bytes) (f : HashSet)
      → In x (read_until_eose S parse display ws sub_id f)
      → In x f ⊎ Names ws sub_id x
  unfolding read_until_eose
  heard_keys [] sub_id x f m = inl m
  heard_keys (close ∷ ws) sub_id x f m = inl m
  heard_keys (failed ∷ ws) sub_id x f m = inl m
  heard_keys (other ∷ ws) sub_id x f m = elim (heard_keys ws sub_id x f m) [
    | inl old ↦ inl old
    | inr n ↦ inr (record { message = n.message; heard = n.heard; named = n.named })
  ]
  heard_keys (text t ∷ ws) sub_id x f m =
      elim (Bool-cases (is_eose S parse display (array_of S parse display t) sub_id)) [
        | inl ended ↦ inl (rw ended at m)
        | inr more ↦
            elim (heard_keys ws sub_id x
              (extend f (message_keys S parse display (array_of S parse display t) sub_id))
              (rw more at m)) [
                | inl earlier ↦ elim (In-extend f _ x earlier) [
                  | inl old ↦ inl old
                  | inr now ↦ inr (record {
                    message = t;
                    heard = ((not-IsEnd t sub_id).0 more, inl refl);
                    named = (Text-EventNames S parse display t sub_id x).0 now;
                  })
                ]
                | inr n ↦ inr (record {
                  message = n.message;
                  heard = ((not-IsEnd t sub_id).0 more, inr n.heard);
                  named = n.named;
                })
              ]
      ]

  keys_kept :
      (ws : List Frame) (sub_id x : Bytes) (f : HashSet)
      → In x f
      → In x (read_until_eose S parse display ws sub_id f)
  unfolding read_until_eose
  keys_kept [] sub_id x f m = m
  keys_kept (close ∷ ws) sub_id x f m = m
  keys_kept (failed ∷ ws) sub_id x f m = m
  keys_kept (other ∷ ws) sub_id x f m = keys_kept ws sub_id x f m
  keys_kept (text t ∷ ws) sub_id x f m =
      elim (Bool-cases (is_eose S parse display (array_of S parse display t) sub_id)) [
        | inl ended ↦ rw ended m
        | inr more ↦ rw more (keys_kept ws sub_id x _ (In-extend_old f _ x m))
      ]

  named_keys :
      (ws : List Frame) (sub_id x : Bytes) (f : HashSet) (t : Bytes)
      → Heard ws sub_id t
      → In x (message_keys S parse display (array_of S parse display t) sub_id)
      → In x (read_until_eose S parse display ws sub_id f)
  unfolding read_until_eose
  named_keys [] sub_id x f t h m = absurd h
  named_keys (close ∷ ws) sub_id x f t h m = absurd h
  named_keys (failed ∷ ws) sub_id x f t h m = absurd h
  named_keys (other ∷ ws) sub_id x f t h m = named_keys ws sub_id x f t h m
  named_keys (text u ∷ ws) sub_id x f t (on, inl same) m =
      rw ((not-IsEnd u sub_id).1 on) (keys_kept ws sub_id x _ (In-extend_new f _ x (rw same at m)))
  named_keys (text u ∷ ws) sub_id x f t (on, inr later) m =
      rw ((not-IsEnd u sub_id).1 on) (named_keys ws sub_id x _ t later m)

  -- The keys read from an answer are exactly those that parse from a `p` tag of an event message of
  -- the subscription, or of a message whose subscription is no string, in the texts that arrive
  -- before the `EOSE` message of the subscription, a close, an error or the timeout.
  pub read_until_eose-Names :
      (ws : List Frame) (sub_id x : Bytes)
      → (In x (read_until_eose S parse display ws sub_id [])) ↔ Names ws sub_id x
  read_until_eose-Names ws sub_id x = (
    λ m. elim (heard_keys ws sub_id x [] m) [ inl m ↦ absurd m | inr n ↦ n ],
    λ n.
        named_keys ws sub_id x [] n.message n.heard
          ((Text-EventNames S parse display n.message sub_id x).1 n.named),
  )
