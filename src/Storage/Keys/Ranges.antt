-- ===== src/Storage/Keys/Ranges.antt =====
-- Which keys lie between the bounds of a scan.
use moar.Common.{
  ℕ, zero, suc, ◌^◌, ◌<◌, ◌≡◌, sym, ap, ◌∙◌, Bool, true, ◌&&◌, Bytes, [], ◌∷◌, ◌++◌, length,
  length-append, replicate, arith, leb, ◌==◌, bytes_eq, lex_leb, Bool-cases, append_assoc, take,
  drop, drop_left, take_left, take_of_length-le, All-append, ◌/◌, ◌%◌, bytes_eq_refl, bytes_eq→eq,
  lex_antisym, inl, inr,
}
use moar.Nostr.{Event, IsEvent, AreBytes}
use moar.Storage.Keys.{
  to_be_bytes, from_be_bytes, slice, author_kind_key_len, make_author_kind_range_start,
  make_author_kind_range_end, u64_bytes, u16_bytes, range_start, range_end, encode_author_kind_key,
}
use moar.Storage.Keys.Order.{
  lex_leb-append, bytes_eq-append, bytes_eq-to_be_bytes, lex_leb-to_be_bytes, lex_leb_max,
  lex_leb_min, length-to_be_bytes, from_be_bytes-to_be_bytes,
}

abbrev pub in_range : Bytes → Bytes → Bytes → Bool
in_range lo hi key = lex_leb lo key && lex_leb key hi

from_start :
    (since t : ℕ) (id : Bytes)
    → since < 2 ^ 64
    → t < 2 ^ 64
    → length id ≡ 32
    → lex_leb (u64_bytes since ++ replicate 32 0) (u64_bytes t ++ id) ≡ leb since t
from_start since t id h k n =
    lex_leb-append (u64_bytes since) (u64_bytes t) (replicate 32 0) id
      (length-to_be_bytes 8 since ∙ sym (length-to_be_bytes 8 t))
    ∙ rw
        (
          bytes_eq-to_be_bytes 8 since t h k,
          lex_leb-to_be_bytes 8 since t h k,
          lex_leb_min 32 id (omega arith),
        )
        (ground arith)

to_end :
    (until t : ℕ) (id : Bytes)
    → until < 2 ^ 64
    → t < 2 ^ 64
    → length id ≡ 32
    → AreBytes id
    → lex_leb (u64_bytes t ++ id) (u64_bytes until ++ replicate 32 255) ≡ leb t until
to_end until t id h k n bs =
    lex_leb-append (u64_bytes t) (u64_bytes until) id (replicate 32 255)
      (length-to_be_bytes 8 t ∙ sym (length-to_be_bytes 8 until))
    ∙ rw
        (
          bytes_eq-to_be_bytes 8 t until k h,
          lex_leb-to_be_bytes 8 t until k h,
          lex_leb_max 32 id bs (omega arith),
        )
        (ground arith)

-- Two heads of one length: strings between bounds with one head have that head.
between_heads :
    (p q a b x : Bytes)
    → length p ≡ length q
    → in_range (p ++ a) (p ++ b) (q ++ x) ≡ (bytes_eq p q && in_range a b x)
between_heads p q a b x n =
    let l = lex_leb-append p q a x n in
    let r = lex_leb-append q p x b (sym n) in
    elim (Bool-cases (bytes_eq p q)) [
      | inl e ↦ ground (arith, l, r, e, bytes_eq→eq p q, bytes_eq_refl q)
      | inr e ↦ ground (arith, l, r, e, bytes_eq→eq q p, bytes_eq_refl p, lex_antisym p q)
    ]

-- A key of a timestamp and an id of 32 bytes after a part of the fixed part's length lies between
-- the bounds of a scan exactly when it has the fixed part and its timestamp lies between the two
-- timestamps, all three `u64`s.
pub in_range_lem :
    (fixed part : Bytes) (since until t : ℕ) (id : Bytes)
    → length fixed ≡ length part
    → since < 2 ^ 64
    → until < 2 ^ 64
    → t < 2 ^ 64
    → length id ≡ 32
    → AreBytes id
    → in_range (range_start fixed since) (range_end fixed until) (part ++ (u64_bytes t ++ id))
      ≡ (bytes_eq fixed part && (leb since t && leb t until))
in_range_lem fixed part since until t id n h k j m bs =
    between_heads fixed part _ _ _ n ∙ rw (from_start since t id h j m, to_end until t id k j m bs)

AreBytes-to_be_bytes : (w n : ℕ) → AreBytes (to_be_bytes w n)
unfolding to_be_bytes
AreBytes-to_be_bytes zero n = tt
AreBytes-to_be_bytes (suc w) n =
    All-append (λ b. b < 256) (to_be_bytes w (n / 256)) (n % 256 ∷ [])
      (AreBytes-to_be_bytes w (n / 256)) (omega arith)

-- The bounds of `handle_replaceable` hold exactly the keys of the author's events of the kind.
pub in_range-author_kind :
    (pubkey : Bytes) (kind : ℕ) (x : Event)
    → IsEvent x
    → length pubkey ≡ 32
    → kind < 2 ^ 16
    → in_range
        (make_author_kind_range_start pubkey kind)
        (make_author_kind_range_end pubkey kind)
        (encode_author_kind_key x)
      ≡ (bytes_eq pubkey x.pubkey && (kind == x.kind))
unfolding make_author_kind_range_start make_author_kind_range_end encode_author_kind_key
in_range-author_kind pubkey kind x v n k =
    let rest = u64_bytes x.created_at ++ x.id in
    let size : length rest ≡ 40 = omega (
      arith,
      length-append (u64_bytes x.created_at) x.id,
      length-to_be_bytes 8 x.created_at,
      v.id_length,
    ) in
    let lo : lex_leb (replicate 40 0) rest ≡ true = lex_leb_min 40 rest (omega arith) in
    let hi : lex_leb rest (replicate 40 255) ≡ true =
      lex_leb_max 40 rest
        (All-append (λ b. b < 256) (u64_bytes x.created_at) x.id
          (AreBytes-to_be_bytes 8 x.created_at) v.id_bytes)
        (omega arith) in
    between_heads (pubkey ++ u16_bytes kind) (x.pubkey ++ u16_bytes x.kind) (replicate 40 0)
      (replicate 40 255) rest
      (length-append pubkey (u16_bytes kind)
        ∙ omega (
          arith,
          length-append x.pubkey (u16_bytes x.kind),
          length-to_be_bytes 2 kind,
          length-to_be_bytes 2 x.kind,
          v.pubkey_length,
        ))
    ∙ rw
        (
          lo,
          hi,
          bytes_eq-append pubkey x.pubkey (u16_bytes kind) (u16_bytes x.kind)
              (n ∙ sym v.pubkey_length),
          bytes_eq-to_be_bytes 2 kind x.kind k v.kind_u16,
        )
        (ground arith)

-- What a scan reads back from a key.
pub author_kind_key_parts :
    (x : Event)
    → IsEvent x
    → (length (encode_author_kind_key x) ≡ author_kind_key_len)
      × (slice 42 74 (encode_author_kind_key x) ≡ x.id)
      × (from_be_bytes 0 (slice 34 42 (encode_author_kind_key x)) ≡ x.created_at)
unfolding encode_author_kind_key
author_kind_key_parts x v =
    let head = x.pubkey ++ u16_bytes x.kind in
    let time = u64_bytes x.created_at in
    let h : length head ≡ 34 = omega (
      arith,
      length-append x.pubkey (u16_bytes x.kind),
      length-to_be_bytes 2 x.kind,
      v.pubkey_length,
    ) in
    let t : length time ≡ 8 = length-to_be_bytes 8 x.created_at in
    (
      omega (arith, length-append head (time ++ x.id), length-append time x.id, v.id_length),
      ap (take 32) (
            ap (drop 42) (sym (append_assoc head time x.id))
            ∙ drop_left 42 (head ++ time) x.id (omega (arith, length-append head time)))
          ∙ take_of_length-le 32 x.id (omega (arith, v.id_length)),
      ap (from_be_bytes 0)
            (ap (take 8) (drop_left 34 head (time ++ x.id) h) ∙ take_left 8 time x.id t)
          ∙ from_be_bytes-to_be_bytes 8 x.created_at v.created_at_u64,
    )
