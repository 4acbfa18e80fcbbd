-- ===== src/Storage/Lmdb/Replace.antt =====
-- `save_event` against what it is for: a new event drives out the older ones that it replaces, or
-- is itself dropped.
use moar.Common.{
  true≢false, ◌<◌, ◌↔◌, lex_leb, arith, ◌≡◌, refl, sym, ap, ◌∙◌, Bool, true, false, not, ◌&&◌, ◌||◌,
  ◌==◌, Bytes, List, [], bytes_eq, bytes_eq_refl, bytes_eq→eq, elem, is_some, Bool-cases, inl, inr,
  ◌⊎◌, any-elim, any-intro, and_elim, and_intro, or_left,
}
use moar.Error.{ok}
use moar.Nostr.{Event, IsEvent}
use moar.Storage.Heed.{Backend}
use moar.Storage.Keys.{encode_author_kind_key}
use moar.Storage.Keys.Ranges.{in_range, in_range-author_kind}
use moar.Storage.Lmdb.{
  LmdbStore, is_replaceable, is_parameterized_replaceable, outranks, Found, author_kind_keys,
  settle,
}
use moar.Storage.Lmdb.Index.{Holds-unique, Holds-IsEvent}
use moar.Storage.Lmdb.Rivals.{key_id, key_ts, same_d_tag, beaten, beats, Finds}
use moar.Storage.Lmdb.Coherence.{Coherent, Stored, delete_ids_lem}

pub never : (a : Bool) → (a ≡ true → ⊥) → a ≡ false
never true h = absurd (h refl)
never false h = refl

pub or_false : (a : Bool) → (a || false) ≡ true → a ≡ true
or_false true h = refl
or_false false h = h

-- Two events of which a relay keeps one: the same author and kind, and for a parameterized kind the
-- same `d` tag.
unfoldable pub competes : Event → Event → Bool
competes e x =
    (bytes_eq e.pubkey x.pubkey && (e.kind == x.kind))
    && (not (bytes_eq x.id e.id)
        && (is_replaceable e.kind || (is_parameterized_replaceable e.kind && same_d_tag e x)))

-- Newer than an event, or as new with the greater id.
abbrev pub IsNewer : Event → Event → Type 0
IsNewer x e =
    (e.created_at < x.created_at) ⊎ ((x.created_at ≡ e.created_at) × (lex_leb x.id e.id ≡ false))

outranks-IsNewer : (x e : Event) → (outranks x.created_at x.id e ≡ true) ↔ IsNewer x e
unfolding outranks
outranks-IsNewer x e = ground arith

module _ (b : Backend) where
  open b use {events, index, serde}

  -- A competing event is stored that is newer, or as new with the greater id.
  abbrev pub Dominated : LmdbStore b → Event → Type 0
  Dominated s e = (x : Event) × Stored b s x × (competes e x ≡ true) × IsNewer x e

  -- The keys that a loop walks stand for the stored events of the author and kind.
  pub record Lists (s : LmdbStore b) (e : Event) (keys : List Bytes) (counts : Bytes → Bool)
      : Type 0 where
    pub sound :
        (key : Bytes)
        → elem key keys ≡ true
        → (x : Event) × Stored b s x
          × (key_id key ≡ x.id)
          × (key_ts key ≡ x.created_at)
          × (counts key ≡ competes e x)
    pub complete :
        (x : Event)
        → Stored b s x
        → competes e x ≡ true
        → (key : Bytes) × (elem key keys ≡ true)
          × (key_id key ≡ x.id)
          × (key_ts key ≡ x.created_at)
          × (counts key ≡ true)

  module _ (s : LmdbStore b) (e : Event) (keys : List Bytes) (counts : Bytes → Bool)
      (l : Lists s e keys counts) where
    beaten-Dominated : beaten counts e keys ≡ true → Dominated s e
    beaten-Dominated h =
        let (key, m, p) = any-elim _ keys h in
        let (x, held, i, t, c) = l.sound key m in
        let (takes, over) = and_elim (counts key) _ p in
        (
          x,
          held,
          sym c ∙ takes,
          (outranks-IsNewer x e).0
              (sym (ap (λ j. outranks (key_ts key) j e) i ∙ ap (λ j. outranks j x.id e) t) ∙ over),
        )

    Dominated-beaten : Dominated s e → beaten counts e keys ≡ true
    Dominated-beaten (x, held, c, over) =
        let (key, m, i, t, takes) = l.complete x held c in
        any-intro _ keys key m (
          and_intro _ _ takes (
            ap (λ j. outranks (key_ts key) j e) i
            ∙ ap (λ j. outranks j x.id e) t
            ∙ (outranks-IsNewer x e).1 over))

    -- If none outranks the event, what goes are the competing events.
    beats-competes :
        beaten counts e keys ≡ false
        → (x : Event) → Stored b s x
        → beats counts e keys x.id ≡ competes e x
    beats-competes safe x held = elim (Bool-cases (competes e x)) [
      | inl c ↦
          let (key, m, i, t, takes) = l.complete x held c in
          let under : outranks (key_ts key) (key_id key) e ≡ false =
            never (outranks (key_ts key) (key_id key) e) (λ over.
              true≢false (sym (any-intro _ keys key m (and_intro _ _ takes over)) ∙ safe)) in
          any-intro _ keys key m
            (and_intro _ _ (and_intro _ _ takes (ap not under)) (rw i (bytes_eq_refl x.id)))
          ∙ sym c
      | inr c ↦
          never (beats counts e keys x.id) (λ hit.
            let (key, m, p) = any-elim _ keys hit in
            let (q, same) =
              and_elim (counts key && not (outranks (key_ts key) (key_id key) e)) _ p in
            let (takes, _) = and_elim (counts key) _ q in
            let (y, there, i, t, f) = l.sound key m in
            let x=y = Holds-unique b s.events_db x y held there (bytes_eq→eq _ _ same ∙ i) in
            true≢false (sym takes ∙ f ∙ sym (ap (competes e) x=y) ∙ c))
          ∙ sym c
    ]

    -- What the loop found decides what is left.
    pub settle_lem :
        (g : Found)
        → Coherent b s
        → Finds counts e keys (false, []) g
        → ((settle b s g ≡ ok (s, true)) × Dominated s e)
          ⊎ ((s' : LmdbStore b) × (settle b s g ≡ ok (s', false))
              × Coherent b s'
              × (¬ Dominated s e)
              × ((x : Event) → Stored b s' x → Stored b s x × (competes e x ≡ false))
              × ((x : Event) → Stored b s x → competes e x ≡ false → Stored b s' x))
    unfolding settle
    settle_lem (true, del) v f = inl (refl, beaten-Dominated (sym f.flag))
    settle_lem (false, del) v f =
        let safe : beaten counts e keys ≡ false = sym f.flag in
        let (s', r, v', to, from) = delete_ids_lem b s del v in
        inr (
          s',
          rw r,
          v',
          (λ d. true≢false (sym (Dominated-beaten d) ∙ safe)),
          (λ x h.
              let (old, out) = to x h in
              (old, sym (beats-competes safe x old) ∙ sym (f.ids x.id) ∙ out)),
          λ x h c. from x h (f.ids x.id ∙ beats-competes safe x h ∙ c),
        )

  -- The keys in the range of `handle_replaceable` are those of the author's events of the kind.
  module _ (s : LmdbStore b) (e : Event) (v : Coherent b s) (wf : IsEvent e) where
    pub listed :
        (key : Bytes)
        → elem key (author_kind_keys b s e) ≡ true
        → (x : Event) × Stored b s x
          × IsEvent x
          × (key ≡ encode_author_kind_key x)
          × (bytes_eq e.pubkey x.pubkey && (e.kind == x.kind) ≡ true)
    listed key h =
        let (there, between) =
          and_elim (is_some (index.get s.index_author_kind key)) _
            (sym (index.elem-range s.index_author_kind _ _ key) ∙ h) in
        let (x, held, m) = v.author_kind.sound key there in
        let w = Holds-IsEvent b s.events_db x v.decodes held in
        let k : key ≡ encode_author_kind_key x = bytes_eq→eq _ _ (or_false _ m) in
        (
          x,
          held,
          w,
          k,
          sym (in_range-author_kind e.pubkey e.kind x w wf.pubkey_length wf.kind_u16)
              ∙ ap (in_range _ _) (sym k)
              ∙ between,
        )

    pub unlisted :
        (x : Event)
        → Stored b s x
        → bytes_eq e.pubkey x.pubkey && (e.kind == x.kind) ≡ true
        → elem (encode_author_kind_key x) (author_kind_keys b s e) ≡ true
    unlisted x held same =
        let w = Holds-IsEvent b s.events_db x v.decodes held in
        index.elem-range s.index_author_kind _ _ (encode_author_kind_key x)
        ∙ and_intro _ _
            (v.author_kind.complete x _ held
              (or_left _ _ (bytes_eq_refl (encode_author_kind_key x))))
            (in_range-author_kind e.pubkey e.kind x w wf.pubkey_length wf.kind_u16 ∙ same)
