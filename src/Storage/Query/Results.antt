-- ===== src/Storage/Query/Results.antt =====
-- The candidates that each index gives: the stored events that match.
use moar.Common.{
  In, In-of_elem, elem_of_In, ℕ, ◌≡◌, refl, subst, sym, ap, ◌∙◌, ◌<◌, ◌^◌, true, Option, none, some,
  Bytes, List, [], ◌∷◌, ◌++◌, bytes_eq, bytes_eq_refl, bytes_eq→eq, ==_iff, length, and_elim,
  and_intro,
}
use moar.Nostr.{Event, Filter, IsEvent}
use moar.Storage.Heed.{Backend}
use moar.Storage.Keys.{u16_bytes}
use moar.Storage.Keys.Order.{bytes_eq-append, bytes_eq-to_be_bytes}
use moar.Storage.Lmdb.{LmdbStore}
use moar.Storage.Lmdb.Index.{Holds-IsEvent}
use moar.Storage.Lmdb.Coherence.{Coherent, Stored}
use moar.Storage.Query.{
  limit_of, check_tags, has_tag, allows, allows_kind, event_matches_filter, event_matches_tags_only,
  event_matches_no_author, event_matches_no_kind, for_each, scan_generic, scan_author_kind_index,
  scan_author_index, scan_kind_index, candidates_for,
}
use moar.Storage.Query.Collect.{Collects, for_each-Collects}
use moar.Storage.Query.Scans.{
  in_time, scan_author_kind_index-Collects, scan_author_index-Collects, scan_kind_index-Collects,
  scan_created_index-Collects,
}
use moar.Storage.Query.Tags.{scan_tag_index-Collects, tag-hit}
use moar.Storage.Query.Filters.{IsFilter, any_of_In, In-of_any, All-In, Collects-iff, matches_split}

module _ (b : Backend) (s : LmdbStore b) (v : Coherent b s) (f : Filter) (w : IsFilter f) where
  -- A stored event that the filter lets through.
  abbrev pub Answer : Event → Type 0
  Answer e = Stored b s e × (event_matches_filter e f ≡ true)

  event_of : (e : Event) → Stored b s e → IsEvent e
  event_of e held = Holds-IsEvent b s.events_db e v.decodes held

  abbrev Parts : Event → Type 0
  Parts e =
      (allows_kind f.kinds e.kind ≡ true)
      × (allows f.authors e.pubkey ≡ true)
      × (in_time f e ≡ true)
      × (check_tags e.tags f.generic_tags ≡ true)

  author_ok :
      (keys : List Bytes) (a x : Bytes)
      → f.authors ≡ some keys
      → In a keys
      → a ≡ x
      → allows f.authors x ≡ true
  author_ok keys a x ea m same =
      ap (λ o. allows o x) ea ∙ elem_of_In x keys (subst (λ y. In y keys) same m)

  author-In :
      (keys : List Bytes) (x : Bytes)
      → f.authors ≡ some keys
      → allows f.authors x ≡ true
      → In x keys
  author-In keys x ea h = In-of_elem x keys (sym (ap (λ o. allows o x) ea) ∙ h)

  kind_ok :
      (kinds : List ℕ) (k x : ℕ)
      → f.kinds ≡ some kinds
      → In k kinds
      → k ≡ x
      → allows_kind f.kinds x ≡ true
  kind_ok kinds k x ek m same =
      ap (λ o. allows_kind o x) ek ∙ any_of_In x kinds (subst (λ y. In y kinds) same m)

  kind-In :
      (kinds : List ℕ) (x : ℕ) → f.kinds ≡ some kinds → allows_kind f.kinds x ≡ true → In x kinds
  kind-In kinds x ek h = In-of_any x kinds (sym (ap (λ o. allows_kind o x) ek) ∙ h)

  same_kind :
      (kinds : List ℕ) (k : ℕ) (e : Event)
      → f.kinds ≡ some kinds
      → In k kinds
      → IsEvent e
      → bytes_eq (u16_bytes k) (u16_bytes e.kind) ≡ true
      → k ≡ e.kind
  same_kind kinds k e ek m ev h = (==_iff k e.kind).0 (
      sym (
        bytes_eq-to_be_bytes 2 k e.kind (All-In (λ j. j < 2 ^ 16) k kinds (w.kinds_u16 kinds ek) m)
          ev.kind_u16)
      ∙ h)

  module _ (no_ids : f.ids ≡ none) where
    join-Parts : (e : Event) → Stored b s e → Parts e → Answer e
    join-Parts e held (k, a, t, g) = (
      held,
      matches_split f e no_ids (event_of e held).created_at_u64
          ∙ and_intro _ _ k (and_intro _ _ a (and_intro _ _ t g)),
    )

    parts : (e : Event) → Answer e → Stored b s e × Parts e
    parts e (held, h) =
        let split = sym (matches_split f e no_ids (event_of e held).created_at_u64) ∙ h in
        let (k, r) = and_elim (allows_kind f.kinds e.kind) _ split in
        let (a, q) = and_elim (allows f.authors e.pubkey) _ r in
        let (t, g) = and_elim (in_time f e) _ q in (held, (k, a, t, g))

    by_author_kind :
        (authors : List Bytes) (kinds : List ℕ)
        → f.authors ≡ some authors
        → f.kinds ≡ some kinds
        → Collects
            (limit_of f)
            (for_each (λ pubkey. for_each (scan_author_kind_index b s f pubkey) kinds) authors)
            Answer
    unfolding event_matches_tags_only
    by_author_kind authors kinds ea ek =
        Collects-iff (limit_of f) _ _ Answer
          (λ e g.
            let (pubkey, m, in_kind) = g in
            let (kind, n, good) = in_kind in
            let (held, fixed, time, tags) = good in
            let ev = event_of e held in
            let (a, k) = and_elim (bytes_eq pubkey e.pubkey) _ (
              sym (
                bytes_eq-append pubkey e.pubkey (u16_bytes kind) (u16_bytes e.kind) (
                  All-In (λ a. length a ≡ 32) pubkey authors (w.authors_lengths authors ea) m
                  ∙ sym ev.pubkey_length))
              ∙ fixed) in
            join-Parts e held (
              kind_ok kinds kind e.kind ek n (same_kind kinds kind e ek n ev k),
              author_ok authors pubkey e.pubkey ea m (bytes_eq→eq _ _ a),
              time,
              tags,
            ))
          (λ e g.
            let (held, p) = parts e g in
            (
              e.pubkey,
              author-In authors e.pubkey ea p.1,
              (
                e.kind,
                kind-In kinds e.kind ek p.0,
                (held, bytes_eq_refl (e.pubkey ++ u16_bytes e.kind), p.2, p.3),
              ),
            ))
          (for_each-Collects (limit_of f) _ _ authors (λ pubkey m.
            for_each-Collects (limit_of f) _ _ kinds (λ kind _.
              scan_author_kind_index-Collects b s v f w.times pubkey kind
                (All-In (λ a. length a ≡ 32) pubkey authors (w.authors_lengths authors ea) m))))

    by_author :
        (authors : List Bytes)
        → f.authors ≡ some authors
        → Collects (limit_of f) (for_each (scan_author_index b s f) authors) Answer
    unfolding event_matches_no_author
    by_author authors ea =
        Collects-iff (limit_of f) _ _ Answer
          (λ e g.
            let (pubkey, m, good) = g in
            let (held, fixed, time, rest) = good in
            let (k, tags) = and_elim (allows_kind f.kinds e.kind) _ rest in
            join-Parts e held
              (k, author_ok authors pubkey e.pubkey ea m (bytes_eq→eq _ _ fixed), time, tags))
          (λ e g.
            let (held, p) = parts e g in
            (
              e.pubkey,
              author-In authors e.pubkey ea p.1,
              (held, bytes_eq_refl e.pubkey, p.2, and_intro _ _ p.0 p.3),
            ))
          (for_each-Collects (limit_of f) _ _ authors (λ pubkey m.
            scan_author_index-Collects b s v f w.times pubkey
              (All-In (λ a. length a ≡ 32) pubkey authors (w.authors_lengths authors ea) m)))

    by_kind :
        (kinds : List ℕ)
        → f.kinds ≡ some kinds
        → Collects (limit_of f) (for_each (scan_kind_index b s f) kinds) Answer
    unfolding event_matches_no_kind
    by_kind kinds ek =
        Collects-iff (limit_of f) _ _ Answer
          (λ e g.
            let (kind, n, good) = g in
            let (held, fixed, time, rest) = good in
            let (a, tags) = and_elim (allows f.authors e.pubkey) _ rest in
            join-Parts e held (
              kind_ok kinds kind e.kind ek n (same_kind kinds kind e ek n (event_of e held) fixed),
              a,
              time,
              tags,
            ))
          (λ e g.
            let (held, p) = parts e g in
            (
              e.kind,
              kind-In kinds e.kind ek p.0,
              (held, bytes_eq_refl (u16_bytes e.kind), p.2, and_intro _ _ p.1 p.3),
            ))
          (for_each-Collects (limit_of f) _ _ kinds
            (λ kind _. scan_kind_index-Collects b s v f w.times kind))

    by_time : Collects (limit_of f) (scan_generic b s f []) Answer
    unfolding scan_generic bytes_eq
    by_time =
        Collects-iff (limit_of f) _ _ Answer (λ e g. (g.0, g.3))
          (λ e g. let (held, p) = parts e g in (held, refl, p.2, g.1))
          (scan_created_index-Collects b s v f w.times)

    by_tag :
        (c : ℕ) (values : List Bytes) (rest : List (ℕ × List Bytes))
        → f.generic_tags ≡ (c, values) ∷ rest
        → Collects (limit_of f) (scan_generic b s f ((c, values) ∷ rest)) Answer
    unfolding scan_generic check_tags
    by_tag c values rest eg =
        Collects-iff (limit_of f) _ _ Answer (λ e g. (g.2.0, g.2.1))
          (λ e g.
            let (held, p) = parts e g in
            let (tagged, _) =
              and_elim (has_tag (c ∷ []) values e.tags) _ (sym (ap (check_tags e.tags) eg) ∙ p.3) in
            let (value, m, hit) = tag-hit b s v f w.times c values e held g.1 p.2 tagged in
            (value, In-of_elem value values m, hit))
          (for_each-Collects (limit_of f) _ _ values
            (λ value _. scan_tag_index-Collects b s v f w.times c value))

    by_generic :
        (g : List (ℕ × List Bytes))
        → f.generic_tags ≡ g
        → Collects (limit_of f) (scan_generic b s f g) Answer
    by_generic [] e = by_time
    by_generic ((c, values) ∷ rest) e = by_tag c values rest e

    -- Whichever index is scanned, the candidates are answers, and all of them if they are fewer than
    -- the limit.
    pub candidates-Collects :
        (authors : Option (List Bytes)) (kinds : Option (List ℕ))
        → f.authors ≡ authors
        → f.kinds ≡ kinds
        → Collects (limit_of f) (candidates_for b s f authors kinds) Answer
    unfolding candidates_for
    candidates-Collects (some authors) (some kinds) ea ek = by_author_kind authors kinds ea ek
    candidates-Collects (some authors) none ea ek = by_author authors ea
    candidates-Collects none (some kinds) ea ek = by_kind kinds ek
    candidates-Collects none none ea ek = by_generic f.generic_tags refl
