-- ===== src/Storage/Memory.antt =====
-- A backend that meets the laws of Storage/Heed.antt: tables are association lists, and an event is
-- written field after field, each string behind its length.
use moar.Common.{
  bytes_eq_iff, true≢false, ℕ, zero, suc, ◌≡◌, refl, sym, ap, ◌∙◌, Bool, true, false, ◌&&◌, ◌||◌,
  Option, none, some, List, [], ◌∷◌, ◌++◌, Bytes, arith, length, take, drop, take_left, drop_left,
  ltb, leb, if◌then◌else◌, bytes_eq, bytes_eq→eq, bytes_eq_sym, lex_leb, lex_total, lex_trans,
  lex_antisym, some_inj, none_ne_some, elem, is_some, Bool-cases, inl, inr, All,
}
use moar.ConcurrentMap.{lookup, without, lookup-without}
use moar.Nostr.{Event, Tag}
use moar.Storage.Heed.{Ascending, Database, Backend}

unfoldable pub insert_key : Bytes → List Bytes → List Bytes
insert_key k [] = k ∷ []
insert_key k (x ∷ xs) =
    if bytes_eq k x then x ∷ xs else if lex_leb k x then k ∷ x ∷ xs else x ∷ insert_key k xs

elem-insert_key :
    (j k : Bytes) (xs : List Bytes) → elem j (insert_key k xs) ≡ (bytes_eq j k || elem j xs)
unfolding insert_key
elem-insert_key j k [] = refl
elem-insert_key j k (x ∷ xs) = elim (Bool-cases (bytes_eq k x)) [
  | inl same ↦ rw same (let p = ap (bytes_eq j) (bytes_eq→eq k x same) in ground (arith, p))
  | inr other ↦ rw other (ground (arith, elem-insert_key j k xs))
]

All-insert_key :
    (P : Bytes → Type 0) (k : Bytes) (xs : List Bytes) → P k → All P xs → All P (insert_key k xs)
unfolding insert_key
All-insert_key P k [] h r = (h, tt)
All-insert_key P k (x ∷ xs) h r = elim (Bool-cases (bytes_eq k x)) [
  | inl same ↦ rw same r
  | inr other ↦ elim (Bool-cases (lex_leb k x)) [
    | inl here ↦ rw (other, here) (h, r)
    | inr later ↦ rw (other, later) (r.0, All-insert_key P k xs h r.1)
  ]
]

abbrev Below : Bytes → Bytes → Type 0
Below k j = (lex_leb k j ≡ true) × (bytes_eq k j ≡ false)

-- What is above `x` is above `k`, if `x` is.
All-Below : (k x : Bytes) (xs : List Bytes) → Below k x → All (Below x) xs → All (Below k) xs
All-Below k x [] h r = tt
All-Below k x (j ∷ xs) h r = ((lex_trans k x j h.0 r.0.0, apart), All-Below k x xs h r.1)
  where
    apart : bytes_eq k j ≡ false
    apart = elim (Bool-cases (bytes_eq k j)) [
      | inr differ ↦ differ
      | inl same ↦
          let back : lex_leb x k ≡ true = ap (lex_leb x) (bytes_eq→eq k j same) ∙ r.0.0 in
          let both : bytes_eq k x ≡ true = (bytes_eq_iff k x).1 (lex_antisym k x h.0 back) in
          absurd (true≢false (sym both ∙ h.1))
    ]

Ascending-insert_key : (k : Bytes) (xs : List Bytes) → Ascending xs → Ascending (insert_key k xs)
unfolding insert_key
Ascending-insert_key k [] h = (tt, tt)
Ascending-insert_key k (x ∷ xs) h = elim (Bool-cases (bytes_eq k x)) [
  | inl same ↦ rw same h
  | inr other ↦ elim (Bool-cases (lex_leb k x)) [
    | inl here ↦ rw (other, here) (((here, other), All-Below k x xs (here, other) h.0), h)
    | inr later ↦
        rw (other, later)
          (
            All-insert_key (Below x) k xs (lex_total k x later, bytes_eq_sym x k ∙ other) h.0,
            Ascending-insert_key k xs h.1,
          )
  ]
]

module _ {V : Type 0} where
  unfoldable pub keys_between : Bytes → Bytes → List (Bytes × V) → List Bytes
  unfolding insert_key
  keys_between lo hi [] = []
  keys_between lo hi ((k, v) ∷ t) =
      if lex_leb lo k && lex_leb k hi
      then insert_key k (keys_between lo hi t)
      else keys_between lo hi t

  pub elem-keys_between :
      (t : List (Bytes × V)) (lo hi j : Bytes)
      → elem j (keys_between lo hi t)
        ≡ (is_some (lookup bytes_eq t j) && (lex_leb lo j && lex_leb j hi))
  unfolding keys_between
  elem-keys_between [] lo hi j = refl
  elem-keys_between ((k, v) ∷ t) lo hi j = elim (Bool-cases (bytes_eq k j)) [
    | inl same ↦
        let moved : (lex_leb lo k && lex_leb k hi) ≡ (lex_leb lo j && lex_leb j hi) =
          ap (λ x. lex_leb lo x && lex_leb x hi) (bytes_eq→eq k j same) in
        let head : bytes_eq j k ≡ true = bytes_eq_sym j k ∙ same in
        ground (arith, elem-insert_key j k (keys_between lo hi t), elem-keys_between t lo hi j)
    | inr other ↦
        let head : bytes_eq j k ≡ false = bytes_eq_sym j k ∙ other in
        ground (arith, elem-insert_key j k (keys_between lo hi t), elem-keys_between t lo hi j)
  ]

  pub Ascending-keys_between :
      (t : List (Bytes × V)) (lo hi : Bytes) → Ascending (keys_between lo hi t)
  unfolding keys_between
  Ascending-keys_between [] lo hi = tt
  Ascending-keys_between ((k, v) ∷ t) lo hi =
      let rest = Ascending-keys_between t lo hi in
      elim (Bool-cases (lex_leb lo k && lex_leb k hi)) [
        | inl in' ↦ rw in' (Ascending-insert_key k (keys_between lo hi t) rest)
        | inr out ↦ rw out rest
      ]

abbrev sound_key : Bytes → Bool
sound_key k = ltb 0 (length k) && leb (length k) 511

abbrev table : (V : Type 0) → Database V
table V = record {
  Table = List (Bytes × V);
  empty = [];
  get = lookup bytes_eq;
  put = λ t k v. if sound_key k then some ((k, v) ∷ t) else none;
  delete = without bytes_eq;
  range = λ t lo hi. keys_between lo hi t;
  get-empty = λ k. refl;
  put_fits = λ t k v pos short. ((k, v) ∷ t, ground arith);
  put_long = λ t k v long. ground arith;
  get-put = λ t t' k j v h. elim (Bool-cases (sound_key k)) [
    | inl sound ↦ rw (sym (some_inj (rw sound at h))) refl
    | inr bad ↦ absurd (none_ne_some (rw bad at h))
  ];
  get-delete = lookup-without bytes_eq bytes_eq_iff;
  elem-range = elem-keys_between;
  range-Ascending = Ascending-keys_between;
}

unfoldable pub put_string : Bytes → Bytes → Bytes
put_string x rest = length x ∷ (x ++ rest)

unfoldable pub get_string : Bytes → Bytes × Bytes
get_string [] = ([], [])
get_string (n ∷ r) = (take n r, drop n r)

pub get_string-put_string : (x r : Bytes) → get_string (put_string x r) ≡ (x, r)
unfolding get_string put_string
get_string-put_string x r = rw (take_left (length x) x r refl, drop_left (length x) x r refl) refl

module _ {A : Type 0} (put : A → Bytes → Bytes) (get : Bytes → A × Bytes)
    (get-put : (a : A) (r : Bytes) → get (put a r) ≡ (a, r)) where
  unfoldable pub put_items : List A → Bytes → Bytes
  put_items [] r = r
  put_items (x ∷ xs) r = put x (put_items xs r)

  unfoldable pub get_items : ℕ → Bytes → List A × Bytes
  get_items zero r = ([], r)
  get_items (suc n) r = let (x, r') = get r in let (xs, r'') = get_items n r' in (x ∷ xs, r'')

  get_items-put_items : (xs : List A) (r : Bytes) → get_items (length xs) (put_items xs r) ≡ (xs, r)
  unfolding get_items put_items
  get_items-put_items [] r = refl
  get_items-put_items (x ∷ xs) r = rw (get-put x (put_items xs r), get_items-put_items xs r) refl

  unfoldable pub put_list : List A → Bytes → Bytes
  unfolding put_items
  put_list xs r = length xs ∷ put_items xs r

  unfoldable pub get_list : Bytes → List A × Bytes
  unfolding get_items
  get_list [] = ([], [])
  get_list (n ∷ r) = get_items n r

  pub get_list-put_list : (xs : List A) (r : Bytes) → get_list (put_list xs r) ≡ (xs, r)
  unfolding get_list put_list
  get_list-put_list xs r = get_items-put_items xs r

abbrev put_tag : Tag → Bytes → Bytes
put_tag = put_list put_string get_string get_string-put_string

abbrev get_tag : Bytes → Tag × Bytes
get_tag = get_list put_string get_string get_string-put_string

abbrev put_tags : List Tag → Bytes → Bytes
put_tags = put_list put_tag get_tag (get_list-put_list put_string get_string get_string-put_string)

abbrev get_tags : Bytes → List Tag × Bytes
get_tags = get_list put_tag get_tag (get_list-put_list put_string get_string get_string-put_string)

abbrev write : Event → Bytes
write e = e.created_at ∷ e.kind ∷ put_string e.id (put_string e.pubkey (put_tags e.tags e.content))

abbrev read : Bytes → Option Event
read (created_at ∷ kind ∷ r) =
    let (id, r₁) = get_string r in
    let (pubkey, r₂) = get_string r₁ in
    let (tags, content) = get_tags r₂ in
    some (record {
      id = id;
      pubkey = pubkey;
      created_at = created_at;
      kind = kind;
      tags = tags;
      content = content;
    })
read short = none

pub read-write : (e : Event) → read (write e) ≡ some e
read-write e =
    rw
      (
        get_string-put_string e.id (put_string e.pubkey (put_tags e.tags e.content)),
        get_string-put_string e.pubkey (put_tags e.tags e.content),
        get_list-put_list put_tag get_tag
            (get_list-put_list put_string get_string get_string-put_string) e.tags e.content,
      )
      refl

abbrev pub memory : Backend
memory = record {
  events = table Bytes;
  index = table Unit;
  serde = record { to_vec = write; from_slice = read; from_slice-to_vec = read-write };
}
