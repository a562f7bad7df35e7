-- ===== src/Chess/Certificate/Rays.antt =====
-- Rays: `between` of crates/apps/chess/src/square.rs against `line` and `step` of certificate.rs.
use ln_gap.Prelude.{
  inl, inr, Option-cases, ℕ, ◌+◌, ◌-◌, ◌*◌, ◌/◌, ◌%◌, ◌<◌, ◌≡◌, refl, Bool, true, none, some, List,
  [], map, list_eq, list_eq→eq, range_from, every_below, every_below_lem, arith,
}
use ln_gap.Chess.Square.{between, between_rounds}
use ln_gap.Chess.Classify.{is_some}
use ln_gap.Chess.Challenges.{line, step}

-- The squares that the certificate reads between two squares.
unfoldable pub ray_squares : ℕ → ℕ → List ℕ
unfolding line
ray_squares a b = elim (line a b) [
  | none ↦ []
  | some (delta, dist) ↦ map (step a delta) (range_from 1 (dist - 1))
]

abbrev same_ray : ℕ → Bool
same_ray n = list_eq (between (n / 64) (n % 64)) (ray_squares (n / 64) (n % 64))

rays_table : every_below 4096 same_ray ≡ true
unfolding every_below between ray_squares
rays_table = refl

-- Between two squares of the board the rules and the certificate look at the same squares.
pub between-ray_squares : (a b : ℕ) → a < 64 → b < 64 → between a b ≡ ray_squares a b
between-ray_squares a b h k =
    let q : (a * 64 + b) / 64 ≡ a = omega arith in
    let r : (a * 64 + b) % 64 ≡ b = omega arith in
    let t = every_below_lem 4096 same_ray rays_table (a * 64 + b) (omega arith) in
    list_eq→eq (between a b) (ray_squares a b) (rw (q, r) at t)

-- The `loop` of `between` always ends at its second square.
abbrev ends : ℕ → Bool
ends n = is_some (between_rounds (n / 64) (n % 64))

ends_table : every_below 4096 ends ≡ true
unfolding every_below between_rounds
ends_table = refl

-- The loop of `between` ends within its rounds and never leaves the board, from any square to any
-- other.
pub between_rounds-ends : (a b : ℕ) → a < 64 → b < 64 → (v : List ℕ) × (between_rounds a b ≡ some v)
between_rounds-ends a b h k =
    let q : (a * 64 + b) / 64 ≡ a = omega arith in
    let r : (a * 64 + b) % 64 ≡ b = omega arith in
    let t = every_below_lem 4096 ends ends_table (a * 64 + b) (omega arith) in
    elim (Option-cases (between_rounds a b)) [ inr found ↦ found | inl e ↦ cc (rw (q, r, e) at t) ]
