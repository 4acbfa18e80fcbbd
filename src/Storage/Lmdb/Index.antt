-- ===== src/Storage/Lmdb/Index.antt =====
-- One index beside the events: what puts and deletes do to it.
use moar.Common.{
  ◌≡◌, refl, sym, ap, subst, ◌∙◌, true, false, not, ◌&&◌, ◌||◌, none, some, Bytes, List, [], ◌∷◌,
  arith, bytes_eq, bytes_eq→eq, bytes_eq_refl, bytes_eq_sym, elem, is_some, Bool-cases, inl, inr,
  ◌⊎◌, or_left, or_right, and_intro, and_elim, some_inj, none_ne_some,
}
use moar.Error.{ok, ok_or, heed, ok-injective, >>=-eq-ok, ok_or-eq-ok}
use moar.Nostr.{Event, IsEvent}
use moar.Storage.Heed.{Backend}
use moar.Storage.Lmdb.{put_all, delete_all}
use moar.Storage.Lmdb.Owners.{Owns}

module _ (b : Backend) where
  open b use {events, index, serde}

  -- The event is stored: its id leads to bytes that decode to it.
  abbrev pub Holds : events.Table → Event → Type 0
  Holds db e = (raw : Bytes) × (events.get db e.id ≡ some raw) × (serde.from_slice raw ≡ some e)

  -- The index has the keys of the stored events, and no other.
  pub record IsIndex (keys : Event → List Bytes) (t : index.Table) (db : events.Table)
      : Type 0 where
    pub sound :
        (k : Bytes)
        → is_some (index.get t k) ≡ true
        → (e : Event) × Holds db e × (elem k (keys e) ≡ true)
    pub complete :
        (e : Event) (k : Bytes)
        → Holds db e
        → elem k (keys e) ≡ true
        → is_some (index.get t k) ≡ true

  -- What is stored under an id is stored as the event that it decodes to.
  abbrev pub Decodes : events.Table → Type 0
  Decodes db =
      (id raw : Bytes)
      → events.get db id ≡ some raw
      → (e : Event) × (serde.from_slice raw ≡ some e) × (e.id ≡ id) × IsEvent e

  pub get-put_all :
      (t t' : index.Table) (ks : List Bytes) (k : Bytes)
      → put_all b t ks ≡ ok t'
      → is_some (index.get t' k) ≡ (elem k ks || is_some (index.get t k))
  unfolding put_all
  get-put_all t t' [] k h = ap (λ u. is_some (index.get u k)) (sym (ok-injective h))
  get-put_all t t' (j ∷ ks) k h =
      let (u, e, rest) = >>=-eq-ok (ok_or heed (index.put t j tt)) (λ v. put_all b v ks) h in
      ground (
        arith,
        get-put_all u t' ks k rest,
        index.get-put t u j k tt (ok_or-eq-ok heed (index.put t j tt) e),
        bytes_eq_sym j k,
      )

  pub get-delete_all :
      (t : index.Table) (ks : List Bytes) (k : Bytes)
      → is_some (index.get (delete_all b t ks) k) ≡ (not (elem k ks) && is_some (index.get t k))
  unfolding delete_all
  get-delete_all t [] k = refl
  get-delete_all t (j ∷ ks) k =
      ground
        (arith, get-delete_all (index.delete t j) ks k, index.get-delete t j k, bytes_eq_sym j k)

  -- Under one id there is one event.
  pub Holds-unique :
      (db : events.Table) (e x : Event) → Holds db e → Holds db x → e.id ≡ x.id → e ≡ x
  Holds-unique db e x (r, g, d) (q, g', d') same =
      let r=q : r ≡ q = some_inj (sym g ∙ ap (events.get db) same ∙ g') in
      some_inj (sym d ∙ ap serde.from_slice r=q ∙ d')

  pub Holds-IsEvent : (db : events.Table) (e : Event) → Decodes db → Holds db e → IsEvent e
  Holds-IsEvent db e decodes (r, g, d) =
      let (x, d', same, wf) = decodes e.id r g in subst IsEvent (some_inj (sym d' ∙ d)) wf

  module _ (db db' : events.Table) (e : Event)
      (put : events.put db e.id (serde.to_vec e) ≡ some db') where
    pub Holds-new : Holds db' e
    Holds-new = (
      serde.to_vec e,
      events.get-put db db' e.id e.id (serde.to_vec e) put ∙ rw bytes_eq_refl,
      serde.from_slice-to_vec e,
    )

    get-other : (id : Bytes) → bytes_eq e.id id ≡ false → events.get db' id ≡ events.get db id
    get-other id ne = events.get-put db db' e.id id (serde.to_vec e) put ∙ rw ne

    -- After the put of an event, that event and the old ones are stored.
    pub Holds-put : (x : Event) → Holds db' x → (x ≡ e) ⊎ Holds db x
    Holds-put x (r, g, d) = elim (Bool-cases (bytes_eq e.id x.id)) [
      | inl same ↦ inl (Holds-unique db' x e (r, g, d) Holds-new (sym (bytes_eq→eq _ _ same)))
      | inr other ↦ inr (r, sym (get-other x.id other) ∙ g, d)
    ]

    pub Holds-old : (x : Event) → events.get db e.id ≡ none → Holds db x → Holds db' x
    Holds-old x fresh (r, g, d) = elim (Bool-cases (bytes_eq e.id x.id)) [
      | inl same ↦ absurd (none_ne_some (sym fresh ∙ ap (events.get db) (bytes_eq→eq _ _ same) ∙ g))
      | inr other ↦ (r, get-other x.id other ∙ g, d)
    ]

    -- The put of a new event's keys keeps an index in step with the events.
    pub put-IsIndex :
        (keys : Event → List Bytes) (t t' : index.Table)
        → events.get db e.id ≡ none
        → put_all b t (keys e) ≡ ok t'
        → IsIndex keys t db
        → IsIndex keys t' db'
    put-IsIndex keys t t' fresh puts v = record {
      sound = λ k h. elim (Bool-cases (elem k (keys e))) [
        | inl new ↦ (e, Holds-new, new)
        | inr old ↦
            let (x, held, key) =
              v.sound k (sym (rw old at (get-put_all t t' (keys e) k puts)) ∙ h) in
            (x, Holds-old x fresh held, key)
      ];
      complete = λ x k held key. get-put_all t t' (keys e) k puts ∙ elim (Holds-put x held) [
        | inl same ↦ or_left _ _ (sym (ap (λ y. elem k (keys y)) same) ∙ key)
        | inr old ↦ or_right (elem k (keys e)) _ (v.complete x k old key)
      ];
    }

    pub put-Decodes : IsEvent e → Decodes db → Decodes db'
    put-Decodes wf v id raw g = elim (Bool-cases (bytes_eq e.id id)) [
      | inl same ↦
          let new = Holds-new in
          let e=id : e.id ≡ id = bytes_eq→eq _ _ same in
          let stored : raw ≡ new.0 = some_inj (sym g ∙ ap (events.get db') (sym e=id) ∙ new.1) in
          (e, ap serde.from_slice stored ∙ new.2, e=id, wf)
      | inr other ↦ v id raw (sym (get-other id other) ∙ g)
    ]

  -- The event that is stored under an id, and the events without it.
  module _ (db : events.Table) (e : Event) (here : Holds db e) where
    pub Holds-delete :
        (x : Event) → Holds (events.delete db e.id) x → Holds db x × (bytes_eq e.id x.id ≡ false)
    Holds-delete x (r, g, d) =
        let g' = sym (events.get-delete db e.id x.id) ∙ g in
        elim (Bool-cases (bytes_eq e.id x.id)) [
          | inl same ↦ absurd (none_ne_some (rw same at g'))
          | inr other ↦ ((r, rw other at g', d), other)
        ]

    pub Holds-kept :
        (x : Event) → Holds db x → bytes_eq e.id x.id ≡ false → Holds (events.delete db e.id) x
    Holds-kept x (r, g, d) other = (r, events.get-delete db e.id x.id ∙ rw other g, d)

    foreign :
        (keys : Event → List Bytes)
        → Owns keys
        → Decodes db
        → (x : Event) (k : Bytes) → Holds db x
        → bytes_eq e.id x.id ≡ false
        → elem k (keys x) ≡ true
        → not (elem k (keys e)) ≡ true
    foreign keys owns decodes x k old other key = elim (Bool-cases (elem k (keys e))) [
      | inr out ↦ rw out
      | inl both ↦
          let same : e.id ≡ x.id =
            owns e x k (Holds-IsEvent db e decodes here) (Holds-IsEvent db x decodes old) both
              key in
          let hit : bytes_eq e.id x.id ≡ true = rw same (bytes_eq_refl x.id) in
          absurd (ground (arith, hit, other))
    ]

    -- The removal of an event's keys keeps an index in step with the events.
    pub delete-IsIndex :
        (keys : Event → List Bytes) (t : index.Table)
        → Owns keys
        → Decodes db
        → IsIndex keys t db
        → IsIndex keys (delete_all b t (keys e)) (events.delete db e.id)
    delete-IsIndex keys t owns decodes v = record {
      sound = λ k h.
          let (gone, was) =
            and_elim (not (elem k (keys e))) _ (sym (get-delete_all t (keys e) k) ∙ h) in
          let (x, held, key) = v.sound k was in
          elim (Bool-cases (bytes_eq e.id x.id)) [
            | inr other ↦ (x, Holds-kept x held other, key)
            | inl same ↦
                let e=x = Holds-unique db e x here held (bytes_eq→eq _ _ same) in
                let mine : elem k (keys e) ≡ true = ap (λ y. elem k (keys y)) e=x ∙ key in
                absurd (ground (arith, gone, mine))
          ];
      complete = λ x k held key.
          let (old, other) = Holds-delete x held in
          get-delete_all t (keys e) k
          ∙ and_intro _ _ (foreign keys owns decodes x k old other key) (v.complete x k old key);
    }

    pub delete-Decodes : Decodes db → Decodes (events.delete db e.id)
    delete-Decodes v id raw g =
        let g' = sym (events.get-delete db e.id id) ∙ g in
        elim (Bool-cases (bytes_eq e.id id)) [
          | inl same ↦ absurd (none_ne_some (rw same at g'))
          | inr other ↦ v id raw (rw other at g')
        ]
