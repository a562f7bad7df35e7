-- ===== src/Script/Number/Roundtrip.antt =====
-- Script numbers are read back, and how long they are: crates/script32/src/sim.rs.
use native.Mathlib.Nat.{pow-succ', one-le-pow}
use ln_gap.Prelude.{
  ℕ, zero, suc, ◌+◌, ◌*◌, ◌/◌, ◌%◌, ◌^◌, ◌≤◌, ◌<◌, ◌≡◌, ◌≢◌, refl, Bool, true, false, [], ◌∷◌, leb,
  if◌then◌else◌, Bytes, ℤ, pos, negsuc, abs, negate, length, arith, inl, inr, Bool-cases,
  ℕ_discrete, ==_ne,
}
use ln_gap.Script.Number.{magnitude, sign_bit, number_of, encode_rounds, set_sign, is_neg, encode}

-- A byte string that is not empty goes on with a value of the rest.
rounds_step : (f n : ℕ) → n ≢ 0 → encode_rounds (suc f) n ≡ n % 256 ∷ encode_rounds f (n / 256)
unfolding encode_rounds
rounds_step f n h = rw (==_ne n 0 h) refl

rounds_zero : (f : ℕ) → encode_rounds f 0 ≡ []
unfolding encode_rounds
rounds_zero zero = refl
rounds_zero (suc f) = refl

-- A number below 256: one byte, or two when its high bit is taken.
one_byte :
    (n : ℕ) (neg : Bool)
    → n < 256
    → (magnitude (set_sign neg (n ∷ [])) ≡ n) × (sign_bit (set_sign neg (n ∷ [])) ≡ neg)
unfolding magnitude sign_bit set_sign
one_byte n true h = ground arith
one_byte n false h = ground arith

set_sign-Nonempty :
    (neg : Bool) (b : ℕ) (r : Bytes) → (c : ℕ) × (q : Bytes) × (set_sign neg (b ∷ r) ≡ c ∷ q)
unfolding set_sign
set_sign-Nonempty neg b [] = elim (Bool-cases (leb 128 b)) [
  | inl e ↦ rw e (b, _, refl)
  | inr e ↦ rw e (_, [], refl)
]
set_sign-Nonempty neg b (c ∷ r) = (b, set_sign neg (c ∷ r), refl)

length-in_front :
    (a b : ℕ) (r : Bytes) (neg : Bool)
    → length (set_sign neg (a ∷ (b ∷ r))) ≡ suc (length (set_sign neg (b ∷ r)))
unfolding set_sign
length-in_front a b r neg = refl

-- A byte in front of bytes that are there is the low byte of the number.
in_front :
    (a n b : ℕ) (r : Bytes) (neg : Bool)
    → magnitude (set_sign neg (b ∷ r)) ≡ n
    → sign_bit (set_sign neg (b ∷ r)) ≡ neg
    → (magnitude (set_sign neg (a ∷ (b ∷ r))) ≡ a + 256 * n)
      × (sign_bit (set_sign neg (a ∷ (b ∷ r))) ≡ neg)
in_front a n b r neg e f =
    let (c, q, g) = set_sign-Nonempty neg b r in
    let m : magnitude (a ∷ (c ∷ q)) ≡ a + 256 * n = unfold magnitude in omega (arith, rw g at e) in
    let s : sign_bit (a ∷ (c ∷ q)) ≡ neg = unfold sign_bit in rw g at f in
    unfold set_sign in rw g (m, s)

rounds_cons : (f n : ℕ) → n ≢ 0 → n < 256 ^ f → (b : ℕ) × (r : Bytes) × (encode_rounds f n ≡ b ∷ r)
rounds_cons zero n h lt = absurd (h (omega arith))
rounds_cons (suc f) n h lt = (n % 256, encode_rounds f (n / 256), rounds_step f n h)

-- The bytes of a number other than 0, its sign set on them, hold its magnitude and its sign.
pub magnitude-set_sign :
    (f n : ℕ) (neg : Bool)
    → n ≢ 0
    → n < 256 ^ f
    → (magnitude (set_sign neg (encode_rounds f n)) ≡ n)
      × (sign_bit (set_sign neg (encode_rounds f n)) ≡ neg)
magnitude-set_sign zero n neg h lt = absurd (h (omega arith))
magnitude-set_sign (suc f) n neg h lt = elim (ℕ_discrete (n / 256) 0) [
  | yes small ↦
      rw (rounds_step f n h, small, rounds_zero f)
        (let r = one_byte (n % 256) neg (omega arith) in (omega (arith, r.0), r.1))
  | no big ↦
      let (b, r, e) = rounds_cons f (n / 256) big (omega (arith, pow-succ' 256 f)) in
      let ih = magnitude-set_sign f (n / 256) neg big (omega (arith, pow-succ' 256 f)) in
      let g = in_front (n % 256) (n / 256) b r neg (rw e at ih.0) (rw e at ih.1) in
      rw (rounds_step f n h, e) (omega (arith, g.0), g.1)
]

length-one_byte :
    (n : ℕ) (neg : Bool) → length (set_sign neg (n ∷ [])) ≡ (if leb 128 n then 2 else 1)
unfolding set_sign
length-one_byte n neg = ground arith

-- One byte holds no number from 128 * 256 on.
too_small : (k n : ℕ) → n / 256 ≡ 0 → 128 * 256 ^ suc k ≤ n → ⊥
too_small k n e h = omega (arith, pow-succ' 256 k, one-le-pow k 256 (omega arith))

-- `k + 1` bytes are enough exactly below 128 times 256 to the `k`.
pub length-set_sign :
    (k f n : ℕ) (neg : Bool)
    → n ≢ 0
    → n < 256 ^ f
    → (n < 128 * 256 ^ k → length (set_sign neg (encode_rounds f n)) ≤ suc k)
      × (128 * 256 ^ k ≤ n → suc k < length (set_sign neg (encode_rounds f n)))
length-set_sign k zero n neg h lt = absurd (h (omega arith))
length-set_sign zero (suc f) n neg h lt = elim (ℕ_discrete (n / 256) 0) [
  | yes small ↦
      rw (rounds_step f n h, small, rounds_zero f, length-one_byte)
        ((λ p. ground arith), (λ p. ground arith))
  | no big ↦
      let (b, r, e) = rounds_cons f (n / 256) big (omega (arith, pow-succ' 256 f)) in
      let (c, q, g) = set_sign-Nonempty neg b r in
      rw (rounds_step f n h, e)
        ((λ p. absurd (big (omega arith))), (λ p. unfold set_sign in rw g (omega arith)))
]
length-set_sign (suc k) (suc f) n neg h lt = elim (ℕ_discrete (n / 256) 0) [
  | yes small ↦
      rw (rounds_step f n h, small, rounds_zero f, length-one_byte)
        ((λ p. ground arith), (λ p. absurd (too_small k n small p)))
  | no big ↦
      let (b, r, e) = rounds_cons f (n / 256) big (omega (arith, pow-succ' 256 f)) in
      let ih = length-set_sign k f (n / 256) neg big (omega (arith, pow-succ' 256 f)) in
      rw (rounds_step f n h, e, length-in_front)
        (
          (λ p. omega (arith, rw e at (ih.0 (omega (arith, pow-succ' 256 k))))),
          (λ p. omega (arith, rw e at (ih.1 (omega (arith, pow-succ' 256 k))))),
        )
]

decode_of :
    (v : Bytes) (n : ℕ) (neg : Bool)
    → (magnitude v ≡ n) × (sign_bit v ≡ neg)
    → number_of v ≡ (if neg then negate (pos n) else pos n)
unfolding number_of
decode_of v n neg h = rw (h.0, h.1) refl

encode_of : (n : ℤ) → abs n ≢ 0 → encode n ≡ set_sign (is_neg n) (encode_rounds 8 (abs n))
unfolding encode
encode_of n h = rw (==_ne (abs n) 0 h) refl

-- A script number of an `i64` is read back.
pub number_of-encode : (n : ℤ) → abs n < 2 ^ 63 → number_of (encode n) ≡ n
number_of-encode (pos zero) h = unfold number_of encode in refl
number_of-encode (pos (suc n)) h =
    rw (encode_of (pos (suc n)) (λ e. cc))
      (decode_of _ (suc n) false (magnitude-set_sign 8 (suc n) false (λ e. cc) (omega arith)))
number_of-encode (negsuc n) h =
    rw (encode_of (negsuc n) (λ e. cc))
      (decode_of _ (suc n) true (magnitude-set_sign 8 (suc n) true (λ e. cc) (omega arith)))

-- A number takes at most four bytes below 2 ^ 31, and more from there on.
pub length-encode :
    (n : ℤ)
    → abs n < 2 ^ 63
    → (abs n < 2 ^ 31 → length (encode n) ≤ 4) × (2 ^ 31 ≤ abs n → 4 < length (encode n))
length-encode n h = elim (ℕ_discrete (abs n) 0) [
  | yes z ↦ ((λ p. unfold encode in rw z (omega arith)), (λ p. absurd (omega arith)))
  | no nz ↦
      let r = length-set_sign 3 8 (abs n) (is_neg n) nz (omega arith) in
      rw (encode_of n nz) ((λ p. r.0 (omega arith)), (λ p. r.1 (omega arith)))
]
