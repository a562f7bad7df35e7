-- ===== src/Chess/Certificate/Paths.antt =====
-- The challenges to the squares that a move passes: certificate.rs against rules.rs of
-- crates/apps/chess.
use Prim.Native.Nat.{max}
use ln_gap.Prelude.{
  ℕ, zero, suc, ◌+◌, ◌-◌, ◌*◌, ◌≤◌, ◌<◌, ◌≡◌, refl, sym, ap, ◌∙◌, ◌⊎◌, inl, inr, Bool, true, false,
  not, ◌&&◌, arith, Bool-cases, ==_iff, ok, ℤ, pos, negsuc, abs, All, [], ◌∷◌, map, range_from, leb,
  ltb, leb→le, ltb→lt, int_eq, &&_true, ℕ_discrete,
}
use ln_gap.Chess.Square.{aligned_by, from_fr, rank_diff, file_diff, between, aligned}
use ln_gap.Chess.Piece.{Colour, white, black, forward, home_rank, Piece}
use ln_gap.Chess.Move.{Move}
use ln_gap.Chess.Position.{Position, nibble_at, is_empty}
use ln_gap.Chess.Rules.{is_double_push}
use ln_gap.Chess.Classify.{double_forward, step_rank, Kind, pawn_kind, is_positive}
use ln_gap.Chess.Rules.Legal.{IsOnBoard}
use ln_gap.Chess.Certificate.{check}
use ln_gap.Chess.Challenges.{line, line_delta, step, ray}
use ln_gap.Chess.Certificate.Rays.{ray_squares, between-ray_squares}
use ln_gap.Chess.Certificate.Castle.{
  first-none-All, castle_shape, castle_from, castle_path, castle_squares,
}
use ln_gap.Chess.Certificate.Fields.{pawn_double, double_step}
use ln_gap.Chess.Certificate.Mover.{Moves}

-- Every square of a path is empty.
path_square :
    (p : Position) (g : ℕ → ℕ) (a n j : ℕ)
    → All (λ s. nibble_at p s ≡ 0) (map g (range_from a n))
    → a ≤ j
    → j < a + n
    → is_empty p (g j) ≡ true
path_square p g a zero j h l k = absurd (omega arith)
path_square p g a (suc n) j h l k = elim (ℕ_discrete a j) [
  | yes e ↦ rw (← e) ((==_iff (nibble_at p (g a)) 0).1 h.0)
  | no ne ↦ path_square p g (suc a) n j h.1 (omega arith) (omega arith)
]

ray_test :
    (p : Position) (delta : ℤ) (a dist j : ℕ) (other : Bool)
    → All (λ s. nibble_at p s ≡ 0) (map (step a delta) (range_from 1 (dist - 1)))
    → (other && ((leb 1 j && ltb j dist) && not (is_empty p (step a delta j)))) ≡ false
ray_test p delta a dist j other h = elim (Bool-cases (leb 1 j && ltb j dist)) [
  | inl e ↦
      let b = &&_true (leb 1 j) (ltb j dist) e in
      let l = leb→le 1 j b.0 in
      let k = ltb→lt j dist b.1 in
      let s = path_square p (step a delta) 1 (dist - 1) j h l (omega arith) in
      rw (e, s) (ground arith)
  | inr e ↦ rw e (ground arith)
]

-- A clear path answers every challenge to a square of it.
clear_ray :
    (p n : Position) (mv : Move) (j : ℕ)
    → All (λ s. nibble_at p s ≡ 0) (ray_squares mv.from mv.to)
    → check p mv n (ray j) ≡ false
unfolding check ray_squares line
clear_ray p n mv j h = elim (Bool-cases (aligned mv.from mv.to)) [
  | inl e ↦ rw (e, check) (ray_test p _ mv.from _ j _ (rw (e, ray_squares) at h))
  | inr e ↦ rw (e, check) refl
]

pub int_eq→eq : (a b : ℤ) → int_eq a b ≡ true → a ≡ b
int_eq→eq a b h = ground arith

short_path :
    (a b : ℕ) → max (abs (file_diff a b)) (abs (rank_diff a b)) - 1 ≡ 0 → ray_squares a b ≡ []
unfolding ray_squares line
short_path a b h = elim (Bool-cases (aligned a b)) [
  | inl e ↦ rw (e, h, ray_squares) refl
  | inr e ↦ rw (e, ray_squares) refl
]

-- A path of two steps has one square in it.
pub two_steps :
    (a b : ℕ) (f r : ℤ)
    → file_diff a b ≡ f
    → rank_diff a b ≡ r
    → aligned_by f r ≡ true
    → max (abs f) (abs r) ≡ 2
    → ray_squares a b ≡ step a (line_delta f r) 1 ∷ []
unfolding ray_squares line aligned
two_steps a b f r e g h k = rw (e, g, h, k, ray_squares) refl

pawn_short :
    (p : Position) (a b : ℕ) (us : Colour) (occupied : Bool) (k : Kind)
    → pawn_kind p a b us occupied ≡ ok k
    → is_double_push k ≡ false
    → max (abs (file_diff a b)) (abs (rank_diff a b)) - 1 ≡ 0
unfolding pawn_kind
pawn_short p a b white occupied k h d = ground arith
pawn_short p a b black occupied k h d = ground arith

pawn_far :
    (p : Position) (a b : ℕ) (us : Colour) (occupied : Bool) (k : Kind)
    → pawn_kind p a b us occupied ≡ ok k
    → is_double_push k ≡ true
    → (int_eq (file_diff a b) (pos 0) ≡ true) × (is_empty p (step_rank a (forward us)) ≡ true)
unfolding pawn_kind
pawn_far p a b us occupied k h d = (ground arith, ground arith)

pawn_ray :
    (p : Position) (a b : ℕ) (us : Colour) (occupied : Bool) (k : Kind)
    → a < 64
    → pawn_kind p a b us occupied ≡ ok k
    → All (λ s. nibble_at p s ≡ 0) (ray_squares a b)
pawn_ray p a b us occupied k l h = elim (Bool-cases (is_double_push k)) [
  | inr d ↦ rw (short_path a b (pawn_short p a b us occupied k h d)) tt
  | inl d ↦
      let far = pawn_far p a b us occupied k h d in
      let r =
        int_eq→eq (rank_diff a b) (double_forward us)
          (sym (pawn_double p a b us occupied k h) ∙ d) in
      by_side us (int_eq→eq (file_diff a b) (pos 0) far.0) r
        (rw (double_step p a b us occupied k l h d) at ((==_iff _ 0).0 far.1))
]
  where
    by_side :
        (c : Colour)
        → file_diff a b ≡ pos 0
        → rank_diff a b ≡ double_forward c
        → nibble_at p (step a (elim c [ white ↦ pos 8 | black ↦ negsuc 7 ]) 1) ≡ 0
        → All (λ s. nibble_at p s ≡ 0) (ray_squares a b)
    by_side white e g z = rw (two_steps a b (pos 0) (pos 2) e g refl refl) (z, tt)
    by_side black e g z = rw (two_steps a b (pos 0) (negsuc 1) e g refl refl) (z, tt)

pub abs_zero : (z : ℤ) → abs z ≡ 0 → z ≡ pos 0
abs_zero (pos n) h = ap pos h
abs_zero (negsuc n) h = absurd (omega (arith, h))

pub abs_two : (z : ℤ) → abs z ≡ 2 → (z ≡ pos 2) ⊎ (z ≡ negsuc 1)
abs_two (pos n) h = inl (ap pos h)
abs_two (negsuc n) h = inr (ap negsuc (omega (arith, h)))

castle_ray :
    (p : Position) (a b : ℕ) (c : Colour)
    → a ≡ from_fr 4 (home_rank c)
    → (abs (rank_diff a b) ≡ 0) × (abs (file_diff a b) ≡ 2)
    → All (λ s. nibble_at p s ≡ 0) (castle_squares c (is_positive (file_diff a b)))
    → All (λ s. nibble_at p s ≡ 0) (ray_squares a b)
castle_ray p a b c e s h = elim (abs_two (file_diff a b) s.1) [
  | inl f ↦
      let z = rw f at h in
      rw (two_steps a b (pos 2) (pos 0) f (abs_zero (rank_diff a b) s.0) refl refl)
        (rw e (right c z.0), tt)
  | inr f ↦
      let z = rw f at h in
      rw (two_steps a b (negsuc 1) (pos 0) f (abs_zero (rank_diff a b) s.0) refl refl)
        (rw e (left c z.0), tt)
]
  where
    right :
        (d : Colour)
        → nibble_at p (from_fr 5 (home_rank d)) ≡ 0
        → nibble_at p (from_fr 4 (home_rank d) + 1 * 1) ≡ 0
    right white z = z
    right black z = z

    left :
        (d : Colour)
        → nibble_at p (from_fr 3 (home_rank d)) ≡ 0
        → nibble_at p (from_fr 4 (home_rank d) - 1 * 1) ≡ 0
    left white z = z
    left black z = z

pub path_unchallenged :
    (p n : Position) (mv : Move) (q : Piece) (k : Kind) (j : ℕ)
    → IsOnBoard mv
    → Moves p n mv q k
    → check p mv n (ray j) ≡ false
path_unchallenged p n mv q k j o m = clear_ray p n mv j (elim m.way [
  | inl a ↦ pawn_ray p mv.from mv.to q.colour _ k o.from a.moves
  | inr (inl c) ↦
      castle_ray p mv.from mv.to q.colour (castle_from p mv o q k c) (castle_shape p mv o q k c)
        (castle_path p mv o q k c)
  | inr (inr a) ↦
      rw (← (between-ray_squares mv.from mv.to o.from o.to))
        (first-none-All p (between mv.from mv.to) a.clear)
])
