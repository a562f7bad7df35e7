-- ===== src/Chess/Certificate/Lawful.antt =====
-- What a move without a challenge must be: certificate.rs against classify of rules.rs of
-- crates/apps/chess.
use Prim.Native.Nat.{max}
use ln_gap.Prelude.{
  ℕ, zero, suc, ◌+◌, ◌≤◌, ◌<◌, ◌≡◌, refl, sym, ap, ◌∙◌, inl, inr, Bool, true, false, not, ◌&&◌,
  none, some, arith, ◌!=◌, Bool-cases, abs, ltb, leb, All, List, [], ◌∷◌, map, range_from, first,
}
use ln_gap.Chess.Square.{aligned, rank_diff, file_diff}
use ln_gap.Chess.Piece.{colour_eq→eq, Piece}
use ln_gap.Chess.Move.{Move}
use ln_gap.Chess.Position.{Position, nibble_at, piece_at, is_empty}
use ln_gap.Chess.Position.Bytes.{IsPosition}
use ln_gap.Chess.Classify.{piece_of}
use ln_gap.Chess.Certificate.{Shape, shape, mover_ok, destination_ok, check}
use ln_gap.Chess.Challenges.{is_own, line, mover, destination, ray}
use ln_gap.Chess.Certificate.Rays.{ray_squares}
use ln_gap.Chess.Certificate.Pieces.{Shows, square-cases, nibble_at-IsNibble, is_own-Shows}

-- The piece that a move without a challenge to its mover moves.
pub record Found (p : Position) (mv : Move) (q : Piece) : Type 0 where
  pub at : piece_at p mv.from ≡ some q
  pub shows : Shows (nibble_at p mv.from) q
  pub own : q.colour ≡ p.side

mover_of_none : (p : Position) (mv : Move) (s : Shape) → s.kind ≡ 0 → mover_ok p mv s ≡ false
unfolding mover_ok
mover_of_none p mv s e = rw e refl

no_mover :
    (p a : Position) (mv : Move)
    → is_own (nibble_at p mv.from) p.side ≡ false
    → check p mv a mover ≡ true
unfolding check shape
no_mover p a mv h = ap not (mover_of_none p mv (shape p mv) (rw h refl))

pub mover-Found :
    (p a : Position) (mv : Move)
    → IsPosition p
    → check p mv a mover ≡ false
    → (q : Piece) × Found p mv q
mover-Found p a mv h e = elim (Bool-cases (is_own (nibble_at p mv.from) p.side)) [
  | inr f ↦ cc (no_mover p a mv f, e)
  | inl t ↦ elim (square-cases p mv.from (nibble_at-IsNibble p mv.from h.nibbles)) [
    | inl (g, z) ↦ cc (rw z at t)
    | inr (q, g, s) ↦ (
      q,
      record {
        at = g;
        shows = s;
        own =
            colour_eq→eq q.colour p.side (sym (is_own-Shows (nibble_at p mv.from) q p.side s) ∙ t);
      },
    )
  ]
]

destination_free :
    (p : Position) (mv : Move) (s : Shape)
    → destination_ok p mv s ≡ true
    → is_own (nibble_at p mv.to) p.side ≡ false
unfolding destination_ok
destination_free p mv s h = ground arith

pub own_free :
    (p a : Position) (mv : Move)
    → IsPosition p
    → check p mv a destination ≡ false
    → piece_of (piece_at p mv.to) p.side ≡ false
unfolding check
own_free p a mv h e =
    let f = destination_free p mv (shape p mv) (not_false _ e) in
    elim (square-cases p mv.to (nibble_at-IsNibble p mv.to h.nibbles)) [
      | inl (g, z) ↦ rw g refl
      | inr (r, g, s) ↦ rw g (sym (is_own-Shows (nibble_at p mv.to) r p.side s) ∙ f)
    ]
  where
    not_false : (b : Bool) → not b ≡ false → b ≡ true
    not_false b h = ground arith

All-path :
    (p : Position) (g : ℕ → ℕ) (a n : ℕ)
    → ((j : ℕ) → a ≤ j → j < a + n → nibble_at p (g j) ≡ 0)
    → All (λ s. nibble_at p s ≡ 0) (map g (range_from a n))
All-path p g a zero h = tt
All-path p g a (suc n) h = (
  h a (omega arith) (omega arith),
  All-path p g (suc a) n (λ j x y. h j (omega arith) (omega arith)),
)

ray_read :
    (other : Bool) (p : Position) (sq j dist : ℕ)
    → other ≡ true
    → 1 ≤ j
    → j < dist
    → (other && ((leb 1 j && ltb j dist) && not (is_empty p sq))) ≡ false
    → nibble_at p sq ≡ 0
ray_read other p sq j dist o l m h = ground arith

far : (a b : ℕ) → a < 64 → b < 64 → max (abs (file_diff a b)) (abs (rank_diff a b)) ≤ 7
far a b l m = ground arith

-- The squares that a move passes, of any piece but a knight.
pub rays_clear :
    (p a : Position) (mv : Move)
    → ((j : ℕ) → 1 ≤ j → j < 7 → check p mv a (ray j) ≡ false)
    → ((shape p mv).kind != 2) ≡ true
    → mv.from < 64
    → mv.to < 64
    → All (λ s. nibble_at p s ≡ 0) (ray_squares mv.from mv.to)
unfolding check ray_squares line
rays_clear p a mv h k l m = elim (Bool-cases (aligned mv.from mv.to)) [
  | inr e ↦ rw (e, ray_squares) tt
  | inl e ↦
      rw (e, ray_squares)
        (All-path p _ 1 _ (λ j x y.
          ray_read _ p _ j _ k x (omega arith)
            (rw (e, check) at (h j x (omega (arith, far mv.from mv.to l m, y))))))
]

pub All-IsClear :
    (p : Position) (xs : List ℕ)
    → All (λ s. nibble_at p s ≡ 0) xs
    → first (λ s. not (is_empty p s)) xs ≡ none
All-IsClear p [] h = refl
All-IsClear p (x ∷ xs) h = rw h.0 (All-IsClear p xs h.1)
