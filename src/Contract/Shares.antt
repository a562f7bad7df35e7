-- ===== src/Contract/Shares.antt =====
-- `Payout::dist` and `Payout::favours` of crates/contract/src/lib.rs.
use ln_gap.Prelude.{ℕ, ◌+◌, ◌≤◌, ◌<◌, ◌≡◌, ◌↔◌, ◌⊎◌, ◌%◌, true, arith}
use ln_gap.Contract.{Payout, user_all, hub_all, even, Role, user, hub, dist, favours}

abbrev pub share_of : Role → ℕ × ℕ → ℕ
share_of user d = d.0
share_of hub d = d.1

abbrev pub share_against : Role → ℕ × ℕ → ℕ
share_against user d = d.1
share_against hub d = d.0

-- The two shares add up to the value, and differ by at most one unit where the payout is even.
pub dist_conserves :
    (p : Payout) (v : ℕ)
    → ((dist p v).0 + (dist p v).1 ≡ v)
      × (p ≡ even → ((dist p v).0 ≤ (dist p v).1) × ((dist p v).1 ≤ (dist p v).0 + 1))
unfolding dist
dist_conserves user_all v = ground arith
dist_conserves hub_all v = ground arith
dist_conserves even v = ground arith

-- Of a value of at least one unit a side gets strictly more than the other exactly when the payout
-- favours it, or when it is the hub, the payout is even and the value is odd: an even payout of an odd
-- value gives the hub the odd unit and favours neither side.
pub favours_iff :
    (p : Payout) (r : Role) (v : ℕ)
    → 1 ≤ v
    → (share_against r (dist p v) < share_of r (dist p v))
      ↔ ((favours p r ≡ true) ⊎ ((p ≡ even) × (r ≡ hub) × (v % 2 ≡ 1)))
unfolding dist favours
favours_iff user_all user v h = ground arith
favours_iff user_all hub v h = ground arith
favours_iff hub_all user v h = ground arith
favours_iff hub_all hub v h = ground arith
favours_iff even user v h = ground arith
favours_iff even hub v h = ground arith
