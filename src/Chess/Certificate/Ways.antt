-- ===== src/Chess/Certificate/Ways.antt =====
-- Pawns and pieces whose moves have no challenge: certificate.rs against classify of rules.rs of
-- crates/apps/chess.
use ln_gap.Prelude.{
  ℕ, ◌<◌, ◌≡◌, refl, ◌∙◌, inl, inr, Bool, true, false, not, ◌&&◌, ◌||◌, none, some, arith, ◌==◌,
  ◌!=◌, if◌then◌else◌, Bool-cases, ==_iff, ok, pos, negsuc, abs, int_eq, All, [],
}
use ln_gap.Chess.Square.{offset, between, rank, rank_diff, file_diff}
use ln_gap.Chess.Piece.{
  Colour, white, black, forward, pawn_rank, last_rank, PieceType, pawn, knight, bishop, rook, queen,
  king, Piece, piece_code, kind_eq, is_promotion_piece,
}
use ln_gap.Chess.Move.{Move}
use ln_gap.Chess.Position.{Position, nibble_at, piece_at, is_empty}
use ln_gap.Chess.Position.Bytes.{IsPosition}
use ln_gap.Chess.Classify.{
  Kind, double_forward, is_some, is_ep, is_castling, moves_so, piece_of, classify, step_rank,
}
use ln_gap.Chess.Rules.Legal.{IsOnBoard}
use ln_gap.Chess.Rules.Classify.{IsClear}
use ln_gap.Chess.Certificate.{Shape, shape, mover_ok, destination_ok, check}
use ln_gap.Chess.Challenges.{step, attack_shape, shape_attacks}
use ln_gap.Chess.Certificate.Rays.{ray_squares, between-ray_squares}
use ln_gap.Chess.Certificate.Attacks.{short_ray}
use ln_gap.Chess.Certificate.Paths.{two_steps, int_eq→eq}
use ln_gap.Chess.Certificate.Mover.{shape_kind_of}
use ln_gap.Chess.Certificate.Shapes.{free_target}
use ln_gap.Chess.Certificate.Search.{FailsAll}
use ln_gap.Chess.Certificate.Lawful.{Found, own_free, rays_clear, All-IsClear}
use ln_gap.Chess.Certificate.Classified.{
  pawn_kind_exists, promotion_allowed, pawn_classified, piece_classified,
}

-- What the checks of the mover and the destination ask of a pawn.
pawn_asked :
    (p : Position) (mv : Move) (s : Shape)
    → s.kind ≡ 1
    → mover_ok p mv s ≡ true
    → destination_ok p mv s ≡ true
    → ((int_eq s.f (pos 0) && int_eq s.r (forward p.side))
          || ((int_eq s.f (pos 0)
                && (int_eq s.r (double_forward p.side) && (rank mv.from == pawn_rank p.side)))
              || ((abs s.f == 1) && int_eq s.r (forward p.side))))
        ≡ true
      × ((if int_eq s.f (pos 0)
            then not (nibble_at p mv.to != 0)
            else (nibble_at p mv.to != 0) || is_ep p mv.to)
          ≡ true)
unfolding mover_ok destination_ok
pawn_asked p mv s e h d = (rw e at h, let d' = rw e at d in ground arith)

-- The square that a pawn pushed twice passes.
passed_square :
    (a b : ℕ) (us : Colour)
    → a < 64
    → b < 64
    → rank_diff a b ≡ double_forward us
    → step_rank a (forward us) ≡ step a (elim us [ white ↦ pos 8 | black ↦ negsuc 7 ]) 1
unfolding offset
passed_square a b white l m h = ground arith
passed_square a b black l m h = ground arith

passed_empty :
    (p : Position) (a b : ℕ) (us : Colour)
    → a < 64
    → b < 64
    → All (λ s. nibble_at p s ≡ 0) (ray_squares a b)
    → int_eq (file_diff a b) (pos 0) ≡ true
    → int_eq (rank_diff a b) (double_forward us) ≡ true
    → is_empty p (step_rank a (forward us)) ≡ true
passed_empty p a b us l m h f r =
    let e = int_eq→eq (rank_diff a b) (double_forward us) r in
    rw (passed_square a b us l m e) ((==_iff _ 0).1 (by_side us e))
  where
    by_side :
        (c : Colour)
        → rank_diff a b ≡ double_forward c
        → nibble_at p (step a (elim c [ white ↦ pos 8 | black ↦ negsuc 7 ]) 1) ≡ 0
    by_side white e =
        (rw (two_steps a b (pos 0) (pos 2) (int_eq→eq _ (pos 0) f) e refl refl) at h).0
    by_side black e =
        (rw (two_steps a b (pos 0) (negsuc 1) (int_eq→eq _ (pos 0) f) e refl refl) at h).0

piece_asked :
    (k : PieceType) (p : Position) (mv : Move) (s : Shape)
    → s.kind ≡ piece_code k
    → kind_eq k pawn ≡ false
    → s.castling ≡ false
    → mover_ok p mv s ≡ true
    → moves_so k (file_diff mv.from mv.to) (rank_diff mv.from mv.to) ≡ true
unfolding mover_ok moves_so attack_shape shape_attacks
piece_asked pawn p mv s e n c h = cc
piece_asked knight p mv s e n c h = rw e at h
piece_asked bishop p mv s e n c h = rw e at h
piece_asked rook p mv s e n c h = rw e at h
piece_asked queen p mv s e n c h = rw e at h
piece_asked king p mv s e n c h = or_false _ _ c (rw e at h)
  where
    or_false : (a b : Bool) → s.castling ≡ false → (a || (s.castling && b)) ≡ true → a ≡ true
    or_false a b c h = ground arith

pub ok_of : (b : Bool) → not b ≡ false → b ≡ true
ok_of b h = ground arith

pawn_no_knight : (k : PieceType) → kind_eq k pawn ≡ true → kind_eq k knight ≡ false
pawn_no_knight k h = ground arith

knight_leaps :
    (k : PieceType) (a b : ℕ)
    → kind_eq k knight ≡ true
    → moves_so k (file_diff a b) (rank_diff a b) ≡ true
    → ray_squares a b ≡ []
unfolding moves_so attack_shape shape_attacks
knight_leaps pawn a b e m = cc
knight_leaps knight a b e m = short_ray 2 a b m refl
knight_leaps bishop a b e m = cc
knight_leaps rook a b e m = cc
knight_leaps queen a b e m = cc
knight_leaps king a b e m = cc

not_knight : (k : PieceType) → kind_eq k knight ≡ false → (piece_code k != 2) ≡ true
not_knight k h = ground arith

shape_code :
    (p : Position) (mv : Move) (q : Piece) (c : ℕ)
    → Found p mv q
    → (piece_code q.kind == c) ≡ true
    → (shape p mv).kind ≡ c
shape_code p mv q c f e = shape_kind_of p mv q f.shows f.own ∙ (==_iff (piece_code q.kind) c).0 e

module _ (p a : Position) (mv : Move) (q : Piece) (h : IsPosition p) (o : IsOnBoard mv)
    (w : elim mv.promotion [ none ↦ true | some k ↦ is_promotion_piece k ] ≡ true)
    (u : FailsAll (check p mv a)) (f : Found p mv q) where
  pub free : piece_of (piece_at p mv.to) q.colour ≡ false
  free = rw f.own (own_free p a mv h u.destination)

  pub path_clear :
      kind_eq q.kind knight ≡ false → All (λ s. nibble_at p s ≡ 0) (ray_squares mv.from mv.to)
  path_clear e =
      rays_clear p a mv u.rays (rw (shape_kind_of p mv q f.shows f.own) (not_knight q.kind e))
        o.from o.to

  pub pawn_way : kind_eq q.kind pawn ≡ true → (k : Kind) × (classify p mv q ≡ ok k)
  unfolding check shape
  pawn_way e =
      let one = shape_code p mv q 1 f e in
      let x = pawn_asked p mv (shape p mv) one (ok_of _ u.mover) (ok_of _ u.destination) in
      let t = free_target p mv.to q.colour h free in
      let k =
        pawn_kind_exists p mv.from mv.to q.colour (is_some (piece_at p mv.to)) (rw f.own x.0)
          (rw t.1 x.1)
          (passed_empty p mv.from mv.to q.colour o.from o.to
            (path_clear (pawn_no_knight q.kind e))) in
      (
        k.0,
        pawn_classified p mv q k.0 e free k.1 (
            promotion_allowed (rank mv.to == last_rank q.colour) mv.promotion w
              (rw f.own (rw (shape_kind_of p mv q f.shows f.own, e) at u.promotion))),
      )

  way-IsClear :
      moves_so q.kind (file_diff mv.from mv.to) (rank_diff mv.from mv.to) ≡ true
      → IsClear p mv.from mv.to
  way-IsClear m = All-IsClear p (between mv.from mv.to) (
      rw (between-ray_squares mv.from mv.to o.from o.to)
        (elim (Bool-cases (kind_eq q.kind knight)) [
          | inl e ↦ rw (knight_leaps q.kind mv.from mv.to e m) tt
          | inr e ↦ path_clear e
        ]))

  pub no_promotion : kind_eq q.kind pawn ≡ false → is_some mv.promotion ≡ false
  unfolding check
  no_promotion e = rw (shape_kind_of p mv q f.shows f.own, e) at u.promotion

  pub piece_way :
      kind_eq q.kind pawn ≡ false
      → is_castling q.kind mv.from mv.to ≡ false
      → (k : Kind) × (classify p mv q ≡ ok k)
  unfolding check shape
  piece_way e c =
      let m =
        piece_asked q.kind p mv (shape p mv) (shape_kind_of p mv q f.shows f.own) e
          (rw (shape_kind_of p mv q f.shows f.own) c) (ok_of _ u.mover) in
      (_, piece_classified p mv q e free (no_promotion e) c m (way-IsClear m))
