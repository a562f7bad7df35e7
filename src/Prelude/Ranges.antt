-- ===== src/Prelude/Ranges.antt =====
-- Searches over a range of numbers, and lists compared position by position.
use Prim.Native.Nat.{ℕ, zero, suc, ◌+◌, ◌≤◌, ◌<◌}
use mathlib.Core.Path.{◌≡◌, refl, ap₂}
use mathlib.Core.Bool.{Bool, true, false}
use mathlib.Core.Option.{none, some}
use mathlib.Core.List.{List, [], ◌∷◌}
use mathlib.Core.Logic.{inl, inr}
use native.Mathlib.Omega.{arith}
use native.Mathlib.Decide.{ℕ_discrete}
use ln_gap.Prelude.Tests.{Bool-cases}
use ln_gap.Prelude.Lists.{length, get_or, any, first, range_from}

pub any-none :
    (f : ℕ → Bool) (a n k : ℕ) → any f (range_from a n) ≡ false → a ≤ k → k < a + n → f k ≡ false
any-none f a zero k h le lt = absurd (omega arith)
any-none f a (suc n) k h le lt = elim (ℕ_discrete a k) [
  | yes e ↦ rw (← e) (ground arith)
  | no ne ↦ any-none f (suc a) n k (ground arith) (omega arith) (omega arith)
]

pub list-ext :
    (n : ℕ) (xs ys : List ℕ)
    → length xs ≡ n
    → length ys ≡ n
    → ((k : ℕ) → k < n → get_or xs k 0 ≡ get_or ys k 0)
    → xs ≡ ys
list-ext zero [] [] e f h = refl
list-ext zero [] (y ∷ ys) e f h = absurd (omega (arith, f))
list-ext zero (x ∷ xs) ys e f h = absurd (omega (arith, e))
list-ext (suc n) [] ys e f h = absurd (omega (arith, e))
list-ext (suc n) (x ∷ xs) [] e f h = absurd (omega (arith, f))
list-ext (suc n) (x ∷ xs) (y ∷ ys) e f h =
    ap₂ ◌∷◌ (h 0 (omega arith))
      (list-ext n xs ys (omega (arith, e)) (omega (arith, f)) (λ k lt. h (suc k) (omega arith)))

-- A search that finds nothing.
pub first-none :
    (f : ℕ → Bool) (a n k : ℕ) → first f (range_from a n) ≡ none → a ≤ k → k < a + n → f k ≡ false
first-none f a zero k h le lt = absurd (omega arith)
first-none f a (suc n) k h le lt = elim (ℕ_discrete a k) [
  | yes e ↦ rw (← e) (ground arith)
  | no ne ↦ first-none f (suc a) n k (ground arith) (omega arith) (omega arith)
]

pub first-none_of :
    (f : ℕ → Bool) (a n : ℕ)
    → ((k : ℕ) → a ≤ k → k < a + n → f k ≡ false)
    → first f (range_from a n) ≡ none
first-none_of f a zero h = refl
first-none_of f a (suc n) h =
    rw (h a (omega arith) (omega arith))
      (first-none_of f (suc a) n (λ k x y. h k (omega arith) (omega arith)))

-- What a search finds lies in the range and passes the test.
pub first-some :
    (f : ℕ → Bool) (a n k : ℕ)
    → first f (range_from a n) ≡ some k
    → (f k ≡ true) × (a ≤ k) × (k < a + n)
first-some f a zero k h = cc
first-some f a (suc n) k h = elim (Bool-cases (f a)) [
  | inl t ↦ let e : a ≡ k = ground arith in rw (← e) (t, omega arith, omega arith)
  | inr t ↦
      let r = first-some f (suc a) n k (ground arith) in
      (r.0, omega (arith, r.1), omega (arith, r.2))
]
