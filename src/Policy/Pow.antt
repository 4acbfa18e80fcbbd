-- ===== src/Policy/Pow.antt =====
-- src/policy.rs, `leading_zero_bits`: the bits counted are those of the id read as a number.
use moar.Common.{
  ℕ, zero, suc, ◌+◌, ◌*◌, ◌%◌, ◌^◌, ◌≤◌, ◌<◌, ◌≡◌, sym, ap, ◌∙◌, subst, [], ◌∷◌, Bytes, length,
  ◌==◌, arith, Bool-cases, inl, inr, ==_iff,
}
use moar.Nostr.{AreBytes}
use moar.Policy.{leading_zeros, count_zero_bits, leading_zero_bits}
use moar.Storage.Keys.{from_be_bytes}
use moar.Storage.Keys.Order.{capacity}

-- A byte that is not zero, shifted by its leading zeros, has its highest bit set.
leading_zeros_lem :
    (b : ℕ)
    → 0 < b
    → b < 256
    → (128 ≤ b * 2 ^ leading_zeros b) × ((b + 1) * 2 ^ leading_zeros b ≤ 256)
unfolding leading_zeros
leading_zeros_lem b pos small = ground arith

from_be_bytes_acc :
    (acc : ℕ) (bs : Bytes) → from_be_bytes acc bs ≡ acc * capacity (length bs) + from_be_bytes 0 bs
unfolding from_be_bytes
from_be_bytes_acc acc [] = omega arith
from_be_bytes_acc acc (b ∷ bs) =
    let one = from_be_bytes_acc (acc * 256 + b) bs in
    let two = from_be_bytes_acc b bs in grind (arith, one, two)

mul_le : (a b k : ℕ) → a ≤ b → a * k ≤ b * k
mul_le a b zero h = grind arith
mul_le a b (suc k) h = let rest = mul_le a b k h in grind (arith, rest, h)

pow_eight : (z : ℕ) → 2 ^ (z + 8) ≡ 256 * 2 ^ z
pow_eight z =
    let eight : z + 8 ≡ suc (suc (suc (suc (suc (suc (suc (suc z))))))) = omega arith in
    ap (λ n. 2 ^ n) eight ∙ omega arith

pub below_capacity : (bs : Bytes) → AreBytes bs → from_be_bytes 0 bs < capacity (length bs)
unfolding from_be_bytes
below_capacity [] h = omega arith
below_capacity (b ∷ bs) h =
    let rest = below_capacity bs h.1 in
    let head = from_be_bytes_acc (0 * 256 + b) bs in
    let top : b * capacity (length bs) ≤ 255 * capacity (length bs) =
      mul_le b 255 (capacity (length bs)) (omega arith) in
    grind (arith, rest, head, top)

-- What a count of zero bits says of a number of `n` bytes: it has that many and no more.
abbrev pub IsZeroBits : ℕ → ℕ → ℕ → Type 0
IsZeroBits z v n = (capacity n ≤ 2 * (v * 2 ^ z)) × (v * 2 ^ z < capacity n)

zero_head : (z v n : ℕ) → IsZeroBits z v n → IsZeroBits (z + 8) v (suc n)
zero_head z v n h = let p = pow_eight z in rw p (grind (arith, h))

top_bit : (b : ℕ) → 1 ≤ 2 ^ leading_zeros b
unfolding leading_zeros
top_bit b = ground arith

top_head :
    (b v n : ℕ)
    → 0 < b
    → b < 256
    → v < capacity n
    → IsZeroBits (leading_zeros b) (b * capacity n + v) (suc n)
top_head b v n pos small h =
    let (lo, hi) = leading_zeros_lem b pos small in
    let low = mul_le 128 (b * 2 ^ leading_zeros b) (capacity n) lo in
    let high = mul_le ((b + 1) * 2 ^ leading_zeros b) 256 (capacity n) hi in
    let rest = mul_le (v + 1) (capacity n) (2 ^ leading_zeros b) (omega arith) in
    let some_bit : 1 ≤ 2 ^ leading_zeros b = top_bit b in grind (arith, low, high, rest, some_bit)

leading_zeros_lt : (b : ℕ) → 0 < b → leading_zeros b < 8
unfolding leading_zeros
leading_zeros_lt b pos = ground arith

has_bytes : (bytes : Bytes) → 0 < from_be_bytes 0 bytes → 0 < length bytes
unfolding from_be_bytes
has_bytes [] pos = pos
has_bytes (b ∷ bytes) pos = omega arith

count_zero_bits_lem :
    (count : ℕ) (bytes : Bytes)
    → AreBytes bytes
    → 0 < from_be_bytes 0 bytes
    → count + 8 * length bytes ≤ 256
    → (z : ℕ) × (count_zero_bits count bytes ≡ count + z)
      × (z < 8 * length bytes)
      × IsZeroBits z (from_be_bytes 0 bytes) (length bytes)
unfolding count_zero_bits from_be_bytes
count_zero_bits_lem count [] bs pos fits = absurd (omega arith)
count_zero_bits_lem count (b ∷ bytes) bs pos fits = elim (Bool-cases (b == 0)) [
  | inl zero' ↦
      let none_yet : from_be_bytes (0 * 256 + b) bytes ≡ from_be_bytes 0 bytes =
        ap (λ a. from_be_bytes a bytes) (omega (arith, (==_iff b 0).0 zero')) in
      let pos' : 0 < from_be_bytes 0 bytes = subst (λ v. 0 < v) none_yet pos in
      let more = has_bytes bytes pos' in
      let (z, counted, bound, bits) =
        count_zero_bits_lem (count + 8) bytes bs.1 pos' (omega (arith, fits)) in
      let fits8 : (count + 8) % 2 ^ 8 ≡ count + 8 = omega (arith, fits, more) in
      (
        z + 8,
        rw zero' (ap (λ c. count_zero_bits c bytes) fits8 ∙ counted ∙ omega arith),
        omega arith,
        subst (λ v. IsZeroBits (z + 8) v (suc (length bytes))) (sym none_yet)
            (zero_head z (from_be_bytes 0 bytes) (length bytes) bits),
      )
  | inr top ↦
      let pos' : 0 < b = ground (arith, top) in
      let few = leading_zeros_lt b pos' in
      let value : from_be_bytes (0 * 256 + b) bytes
          ≡ b * capacity (length bytes) + from_be_bytes 0 bytes =
        ap (λ a. from_be_bytes a bytes) (omega arith) ∙ from_be_bytes_acc b bytes in
      (
        leading_zeros b,
        rw top (omega (arith, few, fits)),
        omega (arith, few),
        subst (λ v. IsZeroBits (leading_zeros b) v (suc (length bytes))) (sym value)
            (top_head b (from_be_bytes 0 bytes) (length bytes) pos' bs.0
              (below_capacity bytes bs.1)),
      )
]

-- The count for an id of 32 bytes that are not all zero is below 256, so that the `u8` does not
-- overflow, and a count of `z` says of the id, read as a number, that its product with 2^z is below
-- 2^256 and at least half of that.
pub leading_zero_bits_lem :
    (id : Bytes)
    → AreBytes id
    → length id ≡ 32
    → 0 < from_be_bytes 0 id
    → (leading_zero_bits id < 256)
      × IsZeroBits (leading_zero_bits id) (from_be_bytes 0 id) (length id)
unfolding leading_zero_bits
leading_zero_bits_lem id bs n pos =
    let (z, counted, bound, bits) = count_zero_bits_lem 0 id bs pos (omega arith) in
    let same : count_zero_bits 0 id ≡ z = counted ∙ omega arith in
    (omega arith, subst (λ c. IsZeroBits c (from_be_bytes 0 id) (length id)) (sym same) bits)
