-- ===== src/Storage/Keys/Order.antt =====
-- Big-endian bytes compare as the numbers that they stand for.
use moar.Common.{
  ℕ, zero, suc, ◌+◌, ◌*◌, ◌/◌, ◌%◌, ◌<◌, ◌≤◌, ◌≡◌, refl, sym, ◌∙◌, true, ◌&&◌, Bytes, [], ◌∷◌, ◌++◌,
  length, length-append, replicate, arith, leb, ◌==◌, if◌then◌else◌, bytes_eq, lex_leb,
}
use moar.Nostr.{AreBytes}
use moar.Storage.Keys.{to_be_bytes, from_be_bytes}

-- 256^w.
abbrev pub capacity : ℕ → ℕ
capacity zero = 1
capacity (suc w) = 256 * capacity w

pub length-to_be_bytes : (w n : ℕ) → length (to_be_bytes w n) ≡ w
unfolding to_be_bytes
length-to_be_bytes zero n = refl
length-to_be_bytes (suc w) n =
    omega (
      arith,
      length-append (to_be_bytes w (n / 256)) (n % 256 ∷ []),
      length-to_be_bytes w (n / 256),
    )

from_be_bytes-append :
    (acc : ℕ) (xs ys : Bytes)
    → from_be_bytes acc (xs ++ ys) ≡ from_be_bytes (from_be_bytes acc xs) ys
unfolding from_be_bytes
from_be_bytes-append acc [] ys = refl
from_be_bytes-append acc (x ∷ xs) ys = from_be_bytes-append (acc * 256 + x) xs ys

-- Reading back what was written gives the number, if it fits the width.
pub from_be_bytes-to_be_bytes : (w n : ℕ) → n < capacity w → from_be_bytes 0 (to_be_bytes w n) ≡ n
unfolding to_be_bytes from_be_bytes
from_be_bytes-to_be_bytes zero n h = omega arith
from_be_bytes-to_be_bytes (suc w) n h =
    from_be_bytes-append 0 (to_be_bytes w (n / 256)) (n % 256 ∷ [])
    ∙ omega (arith, from_be_bytes-to_be_bytes w (n / 256) (omega arith))

-- Strings with heads of one length compare by the heads first.
pub lex_leb-append :
    (xs ys us vs : Bytes)
    → length xs ≡ length ys
    → lex_leb (xs ++ us) (ys ++ vs) ≡ (if bytes_eq xs ys then lex_leb us vs else lex_leb xs ys)
unfolding lex_leb bytes_eq
lex_leb-append [] [] us vs h = refl
lex_leb-append [] (y ∷ ys) us vs h = absurd (omega arith)
lex_leb-append (x ∷ xs) [] us vs h = absurd (omega arith)
lex_leb-append (x ∷ xs) (y ∷ ys) us vs h = ground (arith, lex_leb-append xs ys us vs (omega arith))

pub bytes_eq-append :
    (xs ys us vs : Bytes)
    → length xs ≡ length ys
    → bytes_eq (xs ++ us) (ys ++ vs) ≡ (bytes_eq xs ys && bytes_eq us vs)
unfolding bytes_eq
bytes_eq-append [] [] us vs h = refl
bytes_eq-append [] (y ∷ ys) us vs h = absurd (omega arith)
bytes_eq-append (x ∷ xs) [] us vs h = absurd (omega arith)
bytes_eq-append (x ∷ xs) (y ∷ ys) us vs h =
    ground (arith, bytes_eq-append xs ys us vs (omega arith))

same_length : (w a b : ℕ) → length (to_be_bytes w a) ≡ length (to_be_bytes w b)
same_length w a b = length-to_be_bytes w a ∙ sym (length-to_be_bytes w b)

pub bytes_eq-to_be_bytes :
    (w a b : ℕ)
    → a < capacity w
    → b < capacity w
    → bytes_eq (to_be_bytes w a) (to_be_bytes w b) ≡ (a == b)
unfolding to_be_bytes bytes_eq
bytes_eq-to_be_bytes zero a b h k = ground arith
bytes_eq-to_be_bytes (suc w) a b h k =
    bytes_eq-append (to_be_bytes w (a / 256)) (to_be_bytes w (b / 256)) (a % 256 ∷ [])
      (b % 256 ∷ []) (same_length w (a / 256) (b / 256))
    ∙ rw (bytes_eq-to_be_bytes w (a / 256) (b / 256) (omega arith) (omega arith)) (ground arith)

-- The order of the bytes is the order of the numbers.
pub lex_leb-to_be_bytes :
    (w a b : ℕ)
    → a < capacity w
    → b < capacity w
    → lex_leb (to_be_bytes w a) (to_be_bytes w b) ≡ leb a b
unfolding to_be_bytes lex_leb
lex_leb-to_be_bytes zero a b h k = ground arith
lex_leb-to_be_bytes (suc w) a b h k =
    lex_leb-append (to_be_bytes w (a / 256)) (to_be_bytes w (b / 256)) (a % 256 ∷ []) (b % 256 ∷ [])
      (same_length w (a / 256) (b / 256))
    ∙ rw
        (
          bytes_eq-to_be_bytes w (a / 256) (b / 256) (omega arith) (omega arith),
          lex_leb-to_be_bytes w (a / 256) (b / 256) (omega arith) (omega arith),
        )
        (ground arith)

-- No string of bytes is after as many 0xff, none is before as many 0x00.
pub lex_leb_max :
    (n : ℕ) (xs : Bytes) → AreBytes xs → length xs ≤ n → lex_leb xs (replicate n 255) ≡ true
unfolding lex_leb
lex_leb_max n [] h k = refl
lex_leb_max zero (x ∷ xs) h k = absurd (omega arith)
lex_leb_max (suc n) (x ∷ xs) h k = ground (arith, h.0, lex_leb_max n xs h.1 (omega arith))

pub lex_leb_min : (n : ℕ) (xs : Bytes) → n ≤ length xs → lex_leb (replicate n 0) xs ≡ true
unfolding lex_leb
lex_leb_min zero xs k = refl
lex_leb_min (suc n) [] k = absurd (omega arith)
lex_leb_min (suc n) (x ∷ xs) k = ground (arith, lex_leb_min n xs (omega arith))
