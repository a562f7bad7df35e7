-- ===== src/Script/Number.antt =====
-- The script numbers of crates/script32/src/sim.rs: little-endian bytes whose last byte carries the
-- sign in its high bit. An `i64` is a ℤ; its magnitude takes eight bytes at most.
pub mod Roundtrip
use ln_gap.Prelude.{
  Option, some, none, length, ℕ, zero, suc, ◌+◌, ◌*◌, ◌/◌, ◌%◌, Bool, true, false, ◌&&◌, ◌||◌, List,
  [], ◌∷◌, ◌==◌, ◌!=◌, leb, if◌then◌else◌, Bytes, ℤ, pos, negsuc, abs, negate,
}

-- The loop of `decode`: the bytes, shifted to their places, have no bit in common, so that their
-- disjunction is their sum. The last byte loses its high bit.
unfoldable pub magnitude : Bytes → ℕ
magnitude [] = 0
magnitude (b ∷ []) = b % 128
magnitude (b ∷ (c ∷ r)) = b + 256 * magnitude (c ∷ r)

-- `v[v.len() - 1] & 0x80 != 0`
unfoldable pub sign_bit : Bytes → Bool
sign_bit [] = false
sign_bit (b ∷ []) = leb 128 b
sign_bit (b ∷ (c ∷ r)) = sign_bit (c ∷ r)

-- What `decode` gives for at most eight bytes.
unfoldable pub number_of : Bytes → ℤ
unfolding magnitude sign_bit
number_of v = if sign_bit v then negate (pos (magnitude v)) else pos (magnitude v)

-- From the ninth byte on the shift by `8 * i` is past the 64 bits, which panics under overflow checks.
unfoldable pub decode : Bytes → Option ℤ
unfolding number_of
decode v = if leb (length v) 8 then some (number_of v) else none

-- `while n > 0`
unfoldable pub encode_rounds : ℕ → ℕ → Bytes
encode_rounds zero n = []
encode_rounds (suc fuel) n =
    let rest = encode_rounds fuel (n / 256) in if n == 0 then [] else n % 256 ∷ rest

-- The branches on the last byte: `|= 0x80` adds 128 to a byte below 128.
unfoldable pub set_sign : Bool → Bytes → Bytes
set_sign neg [] = []
set_sign neg (b ∷ []) =
    if leb 128 b then b ∷ ((if neg then 128 else 0) ∷ []) else (if neg then b + 128 else b) ∷ []
set_sign neg (b ∷ (c ∷ r)) = b ∷ set_sign neg (c ∷ r)

abbrev pub is_neg : ℤ → Bool
is_neg (pos n) = false
is_neg (negsuc n) = true

unfoldable pub encode : ℤ → Bytes
unfolding encode_rounds set_sign
encode n = if abs n == 0 then [] else set_sign (is_neg n) (encode_rounds 8 (abs n))

unfoldable pub truthy : Bytes → Bool
truthy [] = false
truthy (b ∷ []) = b != 0 && b != 128
truthy (b ∷ (c ∷ r)) = b != 0 || truthy (c ∷ r)
