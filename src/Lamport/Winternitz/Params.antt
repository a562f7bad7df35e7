-- ===== src/Lamport/Winternitz/Params.antt =====
-- The digit counts of `WotsParams::for_bytes` in crates/lamport/src/winternitz.rs.
use native.Mathlib.Nat.{pow-suc, add-zero}
use native.Mathlib.Numerals.{towards_suc}
use ln_gap.Prelude.{
  ℕ, zero, suc, ◌+◌, ◌-◌, ◌*◌, ◌^◌, ◌≤◌, ◌<◌, ◌≡◌, refl, ◌⊎◌, inl, inr, some, ltb, Bool-cases,
  arith, ltb→lt, lt→ltb, true, Bool,
}
use ln_gap.Lamport.Winternitz.{
  WotsParams, checksum_width, params_for, to_u32, checksum_bound, for_bytes, max_digit,
}

-- `c` is the least number of base-16 digits that reaches the bound.
abbrev pub IsWidth : ℕ → ℕ → Type 0
IsWidth bound c = (bound ≤ 16 ^ c) × ((c ≡ 0) ⊎ (16 ^ (c - 1) < bound))

checksum_width-IsWidth :
    (fuel bound cur count : ℕ)
    → cur ≡ 16 ^ count
    → bound ≤ 16 ^ (count + fuel)
    → (count ≡ 0) ⊎ (16 ^ (count - 1) < bound)
    → (c : ℕ) × (checksum_width (suc fuel) bound cur count ≡ some c) × IsWidth bound c
unfolding checksum_width
checksum_width-IsWidth zero bound cur count e h low =
    let h' : bound ≤ cur = rw (add-zero count, ← e) at h in (count, ground arith, (rw e at h', low))
checksum_width-IsWidth (suc fuel) bound cur count e h low = elim (Bool-cases (ltb cur bound)) [
  | inr stop ↦ (count, rw stop, (ground (arith, e), low))
  | inl more ↦
      let (c, got, width) =
        checksum_width-IsWidth fuel bound (cur * 16) (count + 1) (grown more)
          (rw (one_more count fuel) h) (inr (shifted more)) in
      (c, rw more got, width)
]
  where
    one_more : (a b : ℕ) → a + 1 + b ≡ a + suc b
    one_more a b = omega arith

    grown : ltb cur bound ≡ true → cur * 16 ≡ 16 ^ (count + 1)
    grown _ = simp (towards_suc, pow-suc, e)

    shifted : ltb cur bound ≡ true → 16 ^ (count + 1 - 1) < bound
    shifted more =
        let back : count + 1 - 1 ≡ count = omega arith in rw (back, ← e) (ltb→lt cur bound more)

to_u32_small : (overflow_checks : Bool) (n : ℕ) → n < 2 ^ 32 → to_u32 overflow_checks n ≡ some n
unfolding to_u32
to_u32_small overflow_checks n h = rw (lt→ltb n (2 ^ 32) h) refl

-- The greatest checksum is a multiple of 30, which 2 ^ 32 - 1 is not.
no_power : (n : ℕ) → 15 * (n * 2) + 1 ≤ 2 ^ 32 → 15 * (n * 2) + 1 < 2 ^ 32
no_power n h = omega arith

for_bytes_in_range :
    (overflow_checks : Bool) (n : ℕ)
    → 15 * (n * 2) + 1 < 2 ^ 32
    → for_bytes overflow_checks n ≡ params_for (n * 2) (15 * (n * 2) + 1)
unfolding for_bytes checksum_bound
for_bytes_in_range overflow_checks n h =
    rw
      (
        to_u32_small overflow_checks (n * 2) (omega arith),
        for_bytes,
        checksum_bound,
        to_u32_small overflow_checks (15 * (n * 2)) (omega arith),
        to_u32_small overflow_checks (15 * (n * 2) + 1) h,
      )
      refl

-- With and without overflow checks, where the greatest checksum is below 2 ^ 32, the parameters are found: two digits for each byte,
-- and the least number of checksum digits that holds every checksum.
pub for_bytes-IsWidth :
    (overflow_checks : Bool) (n_bytes : ℕ)
    → 15 * (n_bytes * 2) + 1 ≤ 2 ^ 32
    → (ps : WotsParams) × (for_bytes overflow_checks n_bytes ≡ some ps)
      × (ps.message_digits ≡ n_bytes * 2)
      × IsWidth (15 * (n_bytes * 2) + 1) ps.checksum_digits
unfolding params_for
for_bytes-IsWidth overflow_checks n_bytes h =
    let (c, got, width) = checksum_width-IsWidth 8 (15 * (n_bytes * 2) + 1) 1 0 refl h (inl refl) in
    (
      record { message_digits = n_bytes * 2; checksum_digits = c },
      rw (for_bytes_in_range overflow_checks n_bytes (no_power n_bytes h), got, params_for),
      refl,
      width,
    )

-- The checksum of a key made by `for_bytes` fits in its digits.
pub checksum_fits :
    (overflow_checks : Bool) (n_bytes : ℕ) (ps : WotsParams)
    → 15 * (n_bytes * 2) + 1 ≤ 2 ^ 32
    → for_bytes overflow_checks n_bytes ≡ some ps
    → max_digit * ps.message_digits < 16 ^ ps.checksum_digits
checksum_fits overflow_checks n_bytes ps h e =
    let (qs, got, digits, width) = for_bytes-IsWidth overflow_checks n_bytes h in
    let p : qs ≡ ps = cc in same p (omega (arith, digits, width.0))
  where
    same :
        {qs : WotsParams}
        → qs ≡ ps
        → max_digit * qs.message_digits < 16 ^ qs.checksum_digits
        → max_digit * ps.message_digits < 16 ^ ps.checksum_digits
    same p t = rw p at t
