-- ===== src/Lamport/Bits.antt =====
-- `uint_to_bits` and `bits_to_uint` of crates/lamport/src/lib.rs, least significant bit first.
use mathlib.Core.List.{foldl, reverse, reverse-append}
use native.Mathlib.Nat.{div-div-eq-div-mul, pow-succ', div-one, pow-le-pow_right}
use mathlib.Core.Path.{ap₂}
use ln_gap.Prelude.{
  ℕ, zero, suc, ◌+◌, ◌*◌, ◌/◌, ◌%◌, ◌^◌, ◌<◌, ◌≤◌, ◌≡◌, refl, ap, ◌∙◌, Bool, true, false, List, [],
  ◌∷◌, ◌++◌, map, arith, ◌==◌, length, range_from, length-map, length-range_from,
}

-- `u32::from(b)`
abbrev pub bit : Bool → ℕ
bit true = 1
bit false = 0

-- `(0..n_bits).map(|i| (value >> i) & 1 == 1)`; a shift by 32 or more, which Rust refuses, is met
-- only beyond the 32 bits that the callers allow.
unfoldable pub uint_to_bits : ℕ → ℕ → List Bool
uint_to_bits value n_bits = map (λ i. value / 2 ^ i % 2 == 1) (range_from 0 n_bits)

-- One round of the fold: a `u32` shifted left by one, whose low bit is then set.
abbrev pub push_bit : ℕ → Bool → ℕ
push_bit acc b = acc * 2 % 2 ^ 32 + bit b

-- `bits.iter().rev().fold(0, |acc, &b| (acc << 1) | u32::from(b))`
unfoldable pub bits_to_uint : List Bool → ℕ
bits_to_uint bits = foldl push_bit 0 (reverse bits)

pub length-uint_to_bits : (v n : ℕ) → length (uint_to_bits v n) ≡ n
unfolding uint_to_bits
length-uint_to_bits v n = length-map _ (range_from 0 n) ∙ length-range_from 0 n

-- The value that the bits stand for, with no bound on its size.
abbrev pub uint_of : List Bool → ℕ
uint_of [] = 0
uint_of (b ∷ bs) = bit b + 2 * uint_of bs

pub uint_of-lt : (bs : List Bool) → uint_of bs < 2 ^ length bs
uint_of-lt [] = omega arith
uint_of-lt (true ∷ bs) = omega (arith, uint_of-lt bs, pow-succ' 2 (length bs))
uint_of-lt (false ∷ bs) = omega (arith, uint_of-lt bs, pow-succ' 2 (length bs))

foldl-append {ℓ κ} :
    {A : Type ℓ} {B : Type κ} (f : B → A → B) (z : B) (xs ys : List A)
    → foldl f z (xs ++ ys) ≡ foldl f (foldl f z xs) ys
foldl-append f z [] ys = refl
foldl-append f z (x ∷ xs) ys = foldl-append f (f z x) xs ys

bits_to_uint-cons :
    (b : Bool) (bs : List Bool) → bits_to_uint (b ∷ bs) ≡ push_bit (bits_to_uint bs) b
unfolding bits_to_uint
bits_to_uint-cons b bs =
    ap (foldl push_bit 0) (reverse-append (b ∷ []) bs)
    ∙ foldl-append push_bit 0 (reverse bs) (b ∷ [])

-- Up to 32 bits nothing is shifted out.
pub bits_to_uint-uint_of : (bs : List Bool) → length bs ≤ 32 → bits_to_uint bs ≡ uint_of bs
bits_to_uint-uint_of [] h = unfold bits_to_uint in refl
bits_to_uint-uint_of (b ∷ bs) h = omega (
  arith,
  bits_to_uint-cons b bs,
  bits_to_uint-uint_of bs (omega arith),
  uint_of-lt bs,
  pow_le bs (omega arith),
)
  where
    pow_le : (cs : List Bool) → length cs ≤ 31 → 2 ^ length cs ≤ 2 ^ 31
    pow_le cs k = pow-le-pow_right (omega arith) k

shift :
    (v a n : ℕ)
    → map (λ i. v / 2 ^ i % 2 == 1) (range_from (suc a) n)
      ≡ map (λ i. v / 2 / 2 ^ i % 2 == 1) (range_from a n)
shift v a zero = refl
shift v a (suc n) =
    rw (div-div-eq-div-mul v 2 (2 ^ a), ← pow-succ' 2 a)
      (ap (λ t. (v / 2 ^ suc a % 2 == 1) ∷ t) (shift v (suc a) n))

pub uint_to_bits-suc : (v n : ℕ) → uint_to_bits v (suc n) ≡ (v % 2 == 1) ∷ uint_to_bits (v / 2) n
unfolding uint_to_bits
uint_to_bits-suc v n =
    rw (shift v 0 n)
      (ap (λ t. (t % 2 == 1) ∷ map (λ i. v / 2 / 2 ^ i % 2 == 1) (range_from 0 n)) (div-one v))

uint_of-uint_to_bits : (n v : ℕ) → v < 2 ^ n → uint_of (uint_to_bits v n) ≡ v
uint_of-uint_to_bits zero v h = unfold uint_to_bits in omega arith
uint_of-uint_to_bits (suc n) v h =
    rw uint_to_bits-suc (ground (arith, uint_of-uint_to_bits n (v / 2), pow-succ' 2 n))

-- A value that fits in `n` bits, 32 at most, is read back from its bits.
pub bits_to_uint-uint_to_bits : (v n : ℕ) → n ≤ 32 → v < 2 ^ n → bits_to_uint (uint_to_bits v n) ≡ v
bits_to_uint-uint_to_bits v n k h =
    bits_to_uint-uint_of (uint_to_bits v n) (rw length-uint_to_bits k) ∙ uint_of-uint_to_bits n v h

uint_to_bits-uint_of : (bs : List Bool) → uint_to_bits (uint_of bs) (length bs) ≡ bs
uint_to_bits-uint_of [] = unfold uint_to_bits in refl
uint_to_bits-uint_of (b ∷ bs) =
    uint_to_bits-suc (uint_of (b ∷ bs)) (length bs)
    ∙ ap₂ ◌∷◌ (low b) (rw (high b) (uint_to_bits-uint_of bs))
  where
    low : (c : Bool) → (uint_of (c ∷ bs) % 2 == 1) ≡ c
    low true = ground arith
    low false = ground arith

    high : (c : Bool) → uint_of (c ∷ bs) / 2 ≡ uint_of bs
    high true = omega arith
    high false = omega arith

-- At most 32 bits are recovered from the number that they are packed into.
pub uint_to_bits-bits_to_uint :
    (bs : List Bool) → length bs ≤ 32 → uint_to_bits (bits_to_uint bs) (length bs) ≡ bs
uint_to_bits-bits_to_uint bs h = rw (bits_to_uint-uint_of bs h) (uint_to_bits-uint_of bs)
