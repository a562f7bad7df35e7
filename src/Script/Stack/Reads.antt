-- ===== src/Script/Stack/Reads.antt =====
-- Which numbers an opcode reads: `popn` of crates/script32/src/sim.rs.
use ln_gap.Prelude.{
  ℕ, ◌^◌, ◌<◌, ◌≡◌, refl, ◌∷◌, ℤ, abs, ltb, leb, false, true, if◌then◌else◌, length, ok, err, arith,
  dec_lt, lt→ltb, ltb_ge, le→leb,
}
use ln_gap.Script.Number.{encode, number_of}
use ln_gap.Script.Number.Roundtrip.{number_of-encode, length-encode}
use ln_gap.Script.Stack.{Elements, popn, number_overflow}

leb_gt : (a b : ℕ) → b < a → leb a b ≡ false
leb_gt a b h = ground arith

-- An opcode reads the number that was encoded below 2 ^ 31, and refuses its bytes from there on.
pub popn-encode :
    (n : ℤ) (s : Elements)
    → abs n < 2 ^ 63
    → popn (encode n ∷ s)
      ≡ (if ltb (abs n) (2 ^ 31) then ok (n, s) else err (number_overflow (length (encode n))))
unfolding popn
popn-encode n s h = elim (dec_lt (abs n) (2 ^ 31)) [
  | yes p ↦
      rw (lt→ltb (abs n) (2 ^ 31) p, le→leb _ 4 ((length-encode n h).0 p), number_of-encode n h)
        refl
  | no p ↦
      rw (ltb_ge (abs n) (2 ^ 31) (omega arith), leb_gt _ 4 ((length-encode n h).1 (omega arith)))
        refl
]

-- The same, where the number is known to be small.
pub popn_small : (n : ℤ) (s : Elements) → abs n < 2 ^ 31 → popn (encode n ∷ s) ≡ ok (n, s)
popn_small n s h = rw (lt→ltb (abs n) (2 ^ 31) h) at (popn-encode n s (omega arith))

-- What `popn` tests and reads, of a number that is known to be small.
pub length-encode_small : (n : ℤ) → abs n < 2 ^ 31 → leb (length (encode n)) 4 ≡ true
length-encode_small n h = le→leb _ 4 ((length-encode n (omega arith)).0 h)

pub number_of-encode_small : (n : ℤ) → abs n < 2 ^ 31 → number_of (encode n) ≡ n
number_of-encode_small n h = number_of-encode n (omega arith)
