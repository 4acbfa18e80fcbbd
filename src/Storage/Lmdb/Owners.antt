-- ===== src/Storage/Lmdb/Owners.antt =====
-- Every index key ends with the id of its event, so two events with different ids share no key.
use moar.Common.{
  ◌≡◌, refl, sym, ap, ◌∙◌, true, Bytes, List, [], ◌∷◌, ◌++◌, length, length-append, append_assoc,
  arith, ◌==◌, bytes_eq, bytes_eq→eq, elem, Bool-cases, inl, inr,
}
use moar.Nostr.{Event, IsEvent, Tag}
use moar.Storage.Keys.{
  u64_bytes, u16_bytes, encode_created_key, encode_author_key, encode_kind_key,
  encode_author_kind_key, encode_tag_key,
}
use moar.Storage.Lmdb.{tag_keys}

-- The keys of an event in each index.
abbrev pub created_keys : Event → List Bytes
created_keys e = encode_created_key e ∷ []

abbrev pub author_keys : Event → List Bytes
author_keys e = encode_author_key e ∷ []

abbrev pub kind_keys : Event → List Bytes
kind_keys e = encode_kind_key e ∷ []

abbrev pub author_kind_keys_of : Event → List Bytes
author_kind_keys_of e = encode_author_kind_key e ∷ []

abbrev pub all_tag_keys : Event → List Bytes
all_tag_keys e = tag_keys e.tags e

abbrev EndsWith : Bytes → Bytes → Type 0
EndsWith id k = (p : Bytes) × (k ≡ p ++ id)

append_inj : (p q x y : Bytes) → p ++ x ≡ q ++ y → length p ≡ length q → x ≡ y
append_inj [] [] x y e n = e
append_inj [] (b ∷ q) x y e n = absurd (omega arith)
append_inj (a ∷ p) [] x y e n = absurd (omega arith)
append_inj (a ∷ p) (b ∷ q) x y e n = append_inj p q x y (cc) (omega arith)

suffix_inj : (k x y : Bytes) → EndsWith x k → EndsWith y k → length x ≡ length y → x ≡ y
suffix_inj k x y (p, e) (q, f) n =
    append_inj p q x y (sym e ∙ f)
      (omega (arith, ap length (sym e ∙ f), length-append p x, length-append q y))

-- Every key that the function gives ends with the event's id.
abbrev Ends : (Event → List Bytes) → Type 0
Ends keys = (e : Event) (k : Bytes) → elem k (keys e) ≡ true → EndsWith e.id k

one_key : (id k j : Bytes) → EndsWith id j → elem k (j ∷ []) ≡ true → EndsWith id k
one_key id k j (p, e) h = (p, bytes_eq→eq k j (ground arith) ∙ e)

created_Ends : Ends created_keys
unfolding encode_created_key
created_Ends e k h = one_key e.id k _ (u64_bytes e.created_at, refl) h

after_time : (p : Bytes) (e : Event) → EndsWith e.id (p ++ (u64_bytes e.created_at ++ e.id))
after_time p e = (p ++ u64_bytes e.created_at, sym (append_assoc p (u64_bytes e.created_at) e.id))

author_Ends : Ends author_keys
unfolding encode_author_key
author_Ends e k h = one_key e.id k _ (after_time e.pubkey e) h

kind_Ends : Ends kind_keys
unfolding encode_kind_key
kind_Ends e k h = one_key e.id k _ (after_time (u16_bytes e.kind) e) h

author_kind_Ends : Ends author_kind_keys_of
unfolding encode_author_kind_key
author_kind_Ends e k h = one_key e.id k _ (after_time (e.pubkey ++ u16_bytes e.kind) e) h

tag_keys_Ends :
    (tags : List Tag) (e : Event) (k : Bytes) → elem k (tag_keys tags e) ≡ true → EndsWith e.id k
unfolding tag_keys encode_tag_key
tag_keys_Ends [] e k h = cc
tag_keys_Ends ([] ∷ tags) e k h = tag_keys_Ends tags e k h
tag_keys_Ends ((name ∷ []) ∷ tags) e k h = tag_keys_Ends tags e k h
tag_keys_Ends ((name ∷ value ∷ rest) ∷ tags) e k h = elim (Bool-cases (length name == 1)) [
  | inr skip ↦ tag_keys_Ends tags e k (rw skip at h)
  | inl here ↦
      let h' : elem k (encode_tag_key name value e ∷ tag_keys tags e) ≡ true = rw here at h in
      elim (Bool-cases (bytes_eq k (encode_tag_key name value e))) [
        | inl this ↦ one_key e.id k _ (after_time (name ++ 0 ∷ (value ++ 0 ∷ [])) e) (rw this)
        | inr other ↦ tag_keys_Ends tags e k (rw other at h')
      ]
]

-- Two events that share a key have one id.
abbrev pub Owns : (Event → List Bytes) → Type 0
Owns keys =
    (e x : Event) (k : Bytes)
    → IsEvent e
    → IsEvent x
    → elem k (keys e) ≡ true
    → elem k (keys x) ≡ true
    → e.id ≡ x.id

Owns-of_Ends : (keys : Event → List Bytes) → Ends keys → Owns keys
Owns-of_Ends keys ends e x k v w h j =
    suffix_inj k e.id x.id (ends e k h) (ends x k j) (v.id_length ∙ sym w.id_length)

pub created_Owns : Owns created_keys
created_Owns = Owns-of_Ends created_keys created_Ends

pub author_Owns : Owns author_keys
author_Owns = Owns-of_Ends author_keys author_Ends

pub kind_Owns : Owns kind_keys
kind_Owns = Owns-of_Ends kind_keys kind_Ends

pub author_kind_Owns : Owns author_kind_keys_of
author_kind_Owns = Owns-of_Ends author_kind_keys_of author_kind_Ends

pub tag_Owns : Owns all_tag_keys
tag_Owns = Owns-of_Ends all_tag_keys (λ e k h. tag_keys_Ends e.tags e k h)
