-- ===== src/N4Bit/Target.antt =====
-- `meets_target` and `target_from_difficulty` of crates/n4bit/src/lib.rs against the number that a
-- digest spells.
use mathlib.Core.Option
use ln_gap.Prelude.{
  ℕ, suc, ◌+◌, ◌*◌, ◌%◌, ◌<◌, ◌^◌, ◌-◌, ◌≡◌, ◌≢◌, refl, ap, sym, ◌∙◌, Bool, true, false, Option,
  some, none, [], ◌∷◌, length, All, arith, Bytes, ltb, ltb→lt, lt→ltb, ◌==◌, Bool-cases,
  every_below, every_below_lem, if◌then◌else◌, inl, inr, ==_iff, ==_refl, ltb_ge, ==_ne, ◌&&◌,
  &&_true, all,
}
use ln_gap.N4Bit.{meets_target, target_from_difficulty}
use ln_gap.N4Bit.Digest.{IsDigest}

-- The number that bytes spell after the number `acc`, the first byte first.
unfoldable pub be_from : ℕ → Bytes → ℕ
be_from acc [] = acc
be_from acc (b ∷ bs) = be_from (acc * 256 + b) bs

be_from-lt :
    (a c : ℕ) (ds ts : Bytes)
    → length ds ≡ length ts
    → All (λ b. b < 256) ds
    → a < c
    → be_from a ds < be_from c ts
unfolding be_from
be_from-lt a c [] [] e h l = l
be_from-lt a c [] (t ∷ ts) e h l = absurd (omega arith)
be_from-lt a c (d ∷ ds) [] e h l = absurd (omega arith)
be_from-lt a c (d ∷ ds) (t ∷ ts) e h l =
    let small : d < 256 = h.0 in
    be_from-lt (a * 256 + d) (c * 256 + t) ds ts (omega arith) h.1 (omega arith)

-- The comparison byte by byte is the comparison of the numbers.
meets_target-be :
    (a : ℕ) (ds ts : Bytes)
    → length ds ≡ length ts
    → All (λ b. b < 256) ds
    → All (λ b. b < 256) ts
    → meets_target ds ts ≡ ltb (be_from a ds) (suc (be_from a ts))
unfolding meets_target be_from
meets_target-be a [] [] e h k = sym (lt→ltb a (suc a) (omega arith))
meets_target-be a [] (t ∷ ts) e h k = absurd (omega arith)
meets_target-be a (d ∷ ds) [] e h k = absurd (omega arith)
meets_target-be a (d ∷ ds) (t ∷ ts) e h k = elim (Bool-cases (d == t)) [
  | inl same ↦
      (let equal : d ≡ t = (==_iff d t).0 same in
        rw (equal, ==_refl t) (meets_target-be (a * 256 + t) ds ts (omega arith) h.1 k.1))
  | inr other ↦ elim (Bool-cases (ltb d t)) [
    | inl below ↦
        (let less = ltb→lt d t below in
          let whole =
            be_from-lt (a * 256 + d) (a * 256 + t) ds ts (omega arith) h.1 (omega (arith, less)) in
          rw (other, below) (sym (lt→ltb _ _ (omega (arith, whole)))))
    | inr above ↦
        (let more : t < d = grind arith in
          let whole =
            be_from-lt (a * 256 + t) (a * 256 + d) ts ds (omega arith) k.1 (omega (arith, more)) in
          rw (other, above) (sym (ltb_ge _ _ (omega (arith, whole)))))
  ]
]

-- A target of twenty bytes, that spell one less than a power of two.
unfoldable fits : Option Bytes → ℕ → Bool
unfolding be_from
fits none w = false
fits (some t) w = (suc (be_from 0 t) == 2 ^ w) && ((length t == 20) && all (λ b. ltb b 256) t)

-- The target's number, the one of the difficulty less one, when the bits are no multiple of eight.
exact_table :
    every_below 160 (λ bits.
      if bits % 8 == 0
      then true
      else fits (target_from_difficulty true bits) (160 - bits)
        && fits (target_from_difficulty false bits) (160 - bits))
    ≡ true
unfolding fits every_below target_from_difficulty be_from
exact_table = refl

unfoldable panics : Option Bytes → Bool
panics none = true
panics (some t) = false

panics-none : (o : Option Bytes) → panics o ≡ true → o ≡ none
unfolding panics
panics-none none h = refl
panics-none (some t) h = absurd cc

else_true : (b x : Bool) → b ≡ false → (if b then true else x) ≡ true → x ≡ true
else_true true x e h = absurd cc
else_true false x e h = h

then_true : (b x : Bool) → b ≡ true → (if b then x else true) ≡ true → x ≡ true
then_true true x e h = h
then_true false x e h = absurd cc

-- Under overflow checks no target, and without them eight bits too many, when they are one.
wrapped_table :
    every_below 160 (λ bits.
      if bits % 8 == 0
      then panics (target_from_difficulty true bits)
        && fits (target_from_difficulty false bits) (152 - bits)
      else true)
    ≡ true
unfolding panics fits every_below target_from_difficulty be_from
wrapped_table = refl

all-All : (ts : Bytes) → all (λ b. ltb b 256) ts ≡ true → All (λ b. b < 256) ts
all-All [] h = tt
all-All (t ∷ ts) h =
    let (first, rest) = &&_true (ltb t 256) _ h in (ltb→lt t 256 first, all-All ts rest)

from_fits :
    (target : Option Bytes) (w : ℕ) (digest : Bytes)
    → IsDigest digest
    → fits target w ≡ true
    → Option.map (meets_target digest) target ≡ some (ltb (be_from 0 digest) (2 ^ w))
unfolding fits
from_fits none w digest d h = absurd cc
from_fits (some t) w digest d h =
    let (number, shape) = &&_true (suc (be_from 0 t) == 2 ^ w) _ h in
    let (size, bytes) = &&_true (length t == 20) _ shape in
    let bound : suc (be_from 0 t) ≡ 2 ^ w = (==_iff _ _).0 number in
    let equal : length t ≡ 20 = (==_iff _ _).0 size in
    ap some (
      meets_target-be 0 digest t (d.twenty ∙ sym equal) d.bytes (all-All t bytes)
      ∙ ap (ltb (be_from 0 digest)) bound)

-- For fewer than 160 bits that are no multiple of eight, a digest meets the target of the difficulty
-- exactly when the number that its bytes spell is below 2 ^ (160 - bits), with and without overflow
-- checks.
pub meets_target-target_from_difficulty :
    (overflow_checks : Bool) (bits : ℕ) (digest : Bytes)
    → bits < 160
    → bits % 8 ≢ 0
    → IsDigest digest
    → Option.map (meets_target digest) (target_from_difficulty overflow_checks bits)
      ≡ some (ltb (be_from 0 digest) (2 ^ (160 - bits)))
meets_target-target_from_difficulty overflow_checks bits digest h odd d =
    let row =
      else_true (bits % 8 == 0) _ (==_ne _ _ odd) (every_below_lem 160 _ exact_table bits h) in
    let (checked, unchecked) =
      &&_true (fits (target_from_difficulty true bits) (160 - bits)) _ row in
    from_fits _ (160 - bits) digest d
      (elim overflow_checks as (λ c. fits (target_from_difficulty c bits) (160 - bits) ≡ true) [
        | true ↦ checked
        | false ↦ unchecked
      ])

-- For fewer than 160 bits that are a multiple of eight, there is no target under overflow checks, and
-- without them a digest meets it exactly when its number is below 2 ^ (152 - bits).
pub meets_target-target_wrapped :
    (bits : ℕ) (digest : Bytes)
    → bits < 160
    → bits % 8 ≡ 0
    → IsDigest digest
    → (target_from_difficulty true bits ≡ none)
      × (Option.map (meets_target digest) (target_from_difficulty false bits)
          ≡ some (ltb (be_from 0 digest) (2 ^ (152 - bits))))
meets_target-target_wrapped bits digest h even d =
    let row =
      then_true (bits % 8 == 0) _ (rw even refl) (every_below_lem 160 _ wrapped_table bits h) in
    let (checked, unchecked) = &&_true (panics (target_from_difficulty true bits)) _ row in
    (panics-none _ checked, from_fits _ (152 - bits) digest d unchecked)
