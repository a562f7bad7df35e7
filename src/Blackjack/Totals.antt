-- ===== src/Blackjack/Totals.antt =====
-- The totals of a hand, with every ace counted 1 or 11: `best_total` of
-- crates/apps/blackjack/src/lib.rs.
use ln_gap.Prelude.{
  ℕ, zero, suc, ◌+◌, ◌*◌, ◌≤◌, ◌≡◌, refl, ◌⊎◌, inl, inr, true, false, ◌||◌, List, [], ◌∷◌, ◌==◌,
  arith, Bool-cases, leb,
}
use ln_gap.Blackjack.{value, hard_total, best_total}

-- The totals that a hand can be counted to.
pub data IsTotal : List ℕ → ℕ → Type 0 where
  none_left : IsTotal [] 0
  face : (r : ℕ) (rs : List ℕ) (t : ℕ) → IsTotal rs t → IsTotal (r ∷ rs) (value r + t)
  high_ace : (rs : List ℕ) (t : ℕ) → IsTotal rs t → IsTotal (0 ∷ rs) (11 + t)

-- A total is the hard one and ten for each of `k` high aces.
high_aces :
    (rs : List ℕ) (t : ℕ)
    → IsTotal rs t
    → (k : ℕ) × (t ≡ (hard_total rs).0 + 10 * k)
      × (k ≤ (hard_total rs).0)
      × ((k ≡ 0) ⊎ ((hard_total rs).1 ≡ true))
unfolding hard_total value
high_aces [] _ none_left = (0, omega arith, omega arith, inl refl)
high_aces (r ∷ rs) _ (face _ _ t h) =
    let p = high_aces rs t h in (p.0, omega (arith, p.1), omega (arith, p.2), ace p.3)
  where
    ace :
        {k : ℕ}
        → (k ≡ 0) ⊎ ((hard_total rs).1 ≡ true)
        → (k ≡ 0) ⊎ (((r == 0) || (hard_total rs).1) ≡ true)
    ace (inl e) = inl e
    ace (inr e) = inr (ground (arith, e))
high_aces (zero ∷ rs) _ (high_ace _ t h) =
    let p = high_aces rs t h in (p.0 + 1, omega (arith, p.1), omega (arith, p.2), inr refl)

hard_total-IsTotal : (rs : List ℕ) → IsTotal rs (hard_total rs).0
unfolding hard_total
hard_total-IsTotal [] = none_left
hard_total-IsTotal (r ∷ rs) = face r rs (hard_total rs).0 (hard_total-IsTotal rs)

recount : (rs : List ℕ) (t u : ℕ) → t ≡ u → IsTotal rs t → IsTotal rs u
recount rs t u e h = rw (← e) h

with_ace : (rs : List ℕ) → (hard_total rs).1 ≡ true → IsTotal rs ((hard_total rs).0 + 10)
unfolding hard_total
with_ace [] h = cc
with_ace (zero ∷ rs) h =
    recount (zero ∷ rs) _ _ (unfold value in omega arith)
      (high_ace rs (hard_total rs).0 (hard_total-IsTotal rs))
with_ace (suc r ∷ rs) h =
    recount (suc r ∷ rs) _ _ (omega arith)
      (face (suc r) rs ((hard_total rs).0 + 10) (with_ace rs (ground arith)))

-- The best total is a total of the hand, and where a total is at most 21 the best one is at most
-- 21 and at least that total.
pub best_total-IsBest :
    (rs : List ℕ)
    → IsTotal rs (best_total rs)
      × ((t : ℕ) → IsTotal rs t → t ≤ 21 → (t ≤ best_total rs) × (best_total rs ≤ 21))
unfolding best_total
best_total-IsBest rs =
    (is_total (Bool-cases (hard_total rs).1) (Bool-cases (leb ((hard_total rs).0 + 10) 21)), best)
  where
    is_total :
        ((hard_total rs).1 ≡ true) ⊎ ((hard_total rs).1 ≡ false)
        → (leb ((hard_total rs).0 + 10) 21 ≡ true) ⊎ (leb ((hard_total rs).0 + 10) 21 ≡ false)
        → IsTotal rs (best_total rs)
    is_total (inl a) (inl l) = rw (a, l) (with_ace rs a)
    is_total (inl a) (inr l) = rw (a, l) (hard_total-IsTotal rs)
    is_total (inr a) l = rw a (hard_total-IsTotal rs)

    best : (t : ℕ) → IsTotal rs t → t ≤ 21 → (t ≤ best_total rs) × (best_total rs ≤ 21)
    best t h le = let p = high_aces rs t h in ground (arith, p.1, p.2, p.3)
