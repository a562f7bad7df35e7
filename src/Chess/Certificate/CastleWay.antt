-- ===== src/Chess/Certificate/CastleWay.antt =====
-- A castling move without a challenge is one that castle of crates/apps/chess/src/rules.rs accepts.
use ln_gap.Prelude.{
  ℕ, ◌<◌, ◌≡◌, ◌≢◌, refl, sym, ap, ◌∙◌, inl, inr, Bool, true, false, ◌&&◌, ◌||◌, Option, none, some,
  arith, ◌==◌, ◌!=◌, if◌then◌else◌, ==_iff, ok, pos, negsuc, abs, signum, All, &&_true,
}
use ln_gap.Chess.Square.{from_fr, rank_diff, file_diff}
use ln_gap.Chess.Piece.{
  colour_eq_refl, Colour, home_rank, PieceType, pawn, knight, rook, king, Piece, piece_code,
  kind_eq, kind_of, nibble, is_promotion_piece,
}
use ln_gap.Chess.Move.{Move}
use ln_gap.Chess.Position.{Position, nibble_at, is_empty}
use ln_gap.Chess.Position.Bytes.{IsPosition}
use ln_gap.Chess.Rules.{placed_piece}
use ln_gap.Chess.Classify.{
  Kind, castle_kind, is_castling, is_positive, is_some, rook_home, rook_target, classify,
}
use ln_gap.Chess.Rules.Legal.{IsOnBoard}
use ln_gap.Chess.Certificate.{shape, expected_nibble, castling_ok, check}
use ln_gap.Chess.Challenges.{is_own, step, attacks_square, castling, board}
use ln_gap.Chess.Certificate.Rays.{ray_squares}
use ln_gap.Chess.Certificate.Pieces.{nibble_at-IsNibble, is_own-Shows}
use ln_gap.Chess.Certificate.Castle.{castle_squares, castle_to}
use ln_gap.Chess.Certificate.Paths.{two_steps, abs_zero, abs_two}
use ln_gap.Chess.Certificate.Safety.{crossing, shape_castling_of, rook_target-lt}
use ln_gap.Chess.Certificate.Board.{Shows-nibble, expected_castle}
use ln_gap.Chess.Certificate.Squares.{shape_ep_of, castle_apart, rook_home-lt}
use ln_gap.Chess.Certificate.Search.{FailsAll}
use ln_gap.Chess.Certificate.Lawful.{Found}
use ln_gap.Chess.Certificate.Classified.{castle_classified}
use ln_gap.Chess.Certificate.Ways.{ok_of, free, path_clear, no_promotion}
use ln_gap.Chess.Certificate.Castling.{
  Asked, castling-Asked, castle_accepts, castle_way-IsClear, nibble-piece_is, no_attacker,
}
use ln_gap.Chess.Certificate.Landing.{landing, Agree, landing_unattacked}

-- The square that the king crosses is empty.
crossed_empty :
    (p : Position) (a b : ℕ)
    → abs (rank_diff a b) ≡ 0
    → abs (file_diff a b) ≡ 2
    → All (λ s. nibble_at p s ≡ 0) (ray_squares a b)
    → nibble_at p (step a (signum (file_diff a b)) 1) ≡ 0
crossed_empty p a b r f h = elim (abs_two (file_diff a b) f) [
  | inl e ↦
      rw e (rw (two_steps a b (pos 2) (pos 0) e (abs_zero (rank_diff a b) r) refl refl) at h).0
  | inr e ↦
      rw e (rw (two_steps a b (negsuc 1) (pos 0) e (abs_zero (rank_diff a b) r) refl refl) at h).0
]

squares_empty :
    (p : Position) (c : Colour) (side : Bool)
    → nibble_at p (landing c side) ≡ 0
    → nibble_at p (rook_target c side) ≡ 0
    → (side || is_empty p (from_fr 1 (home_rank c))) ≡ true
    → All (λ s. nibble_at p s ≡ 0) (castle_squares c side)
squares_empty p c true t u b = (u, (t, tt))
squares_empty p c false t u b = (u, (t, ((==_iff _ 0).0 b, tt)))

castling_tested :
    (p a : Position) (mv : Move)
    → check p mv a castling ≡ false
    → (shape p mv).castling ≡ true
    → castling_ok p mv (shape p mv) ≡ true
unfolding check
castling_tested p a mv h e = ok_of _ (rw e at h)

king_no_knight :
    (k : PieceType) → kind_eq k king ≡ true → (kind_eq k knight ≡ false) × (kind_eq k pawn ≡ false)
king_no_knight k h = (ground arith, ground arith)

no_placed : (q : Piece) (o : Option PieceType) → is_some o ≡ false → placed_piece q o ≡ q
no_placed q none h = refl
no_placed q (some k) h = cc

pub board_read :
    (p a : Position) (mv : Move) (sq : ℕ)
    → check p mv a (board sq) ≡ false
    → nibble_at a sq ≡ expected_nibble p mv (shape p mv) sq
unfolding check
board_read p a mv sq h = ne_false _ _ h
  where
    ne_false : (x y : ℕ) → (x != y) ≡ false → x ≡ y
    ne_false x y e = ground arith

-- A square of the board after castling.
abbrev cell_after : ℕ → ℕ → ℕ → ℕ → ℕ → ℕ → ℕ → ℕ → ℕ
cell_after sq target home to from corner moved old =
    if sq == target
    then corner
    else if sq == home
    then 0
    else if sq == to
    then moved
    else if sq == from
    then 0
    else old

cell_elsewhere :
    (sq target home to from corner moved old : ℕ)
    → sq ≢ target
    → sq ≢ home
    → sq ≢ to
    → sq ≢ from
    → cell_after sq target home to from corner moved old ≡ old
cell_elsewhere sq target home to from corner moved old a b c d = ground arith

cell_left :
    (target home to from corner moved old : ℕ)
    → from ≢ target
    → from ≢ to
    → cell_after from target home to from corner moved old ≡ 0
cell_left target home to from corner moved old a b = ground arith

cell_rook :
    (target home to from corner moved old : ℕ)
    → home ≢ target
    → cell_after home target home to from corner moved old ≡ 0
cell_rook target home to from corner moved old a = ground arith

cell_king :
    (target home to from corner moved old : ℕ)
    → to ≢ target
    → to ≢ home
    → cell_after to target home to from corner moved old ≡ moved
cell_king target home to from corner moved old a b = ground arith

far_apart : (a b : ℕ) → abs (file_diff a b) ≡ 2 → a ≢ b
far_apart a b h e = ground arith

module _ (p a : Position) (mv : Move) (q : Piece) (h : IsPosition p) (v : IsPosition a)
    (o : IsOnBoard mv)
    (w : elim mv.promotion [ none ↦ true | some k ↦ is_promotion_piece k ] ≡ true)
    (u : FailsAll (check p mv a)) (f : Found p mv q)
    (c : is_castling q.kind mv.from mv.to ≡ true) where
  abbrev kingside : Bool
  kingside = is_positive (file_diff mv.from mv.to)

  shaped : (shape p mv).castling ≡ true
  shaped = shape_castling_of p mv q f.shows f.own ∙ c

  asked : Asked p mv (shape p mv)
  asked = castling-Asked p mv (shape p mv) (castling_tested p a mv u.castling shaped)

  is_king : kind_eq q.kind king ≡ true
  is_king = (&&_true (kind_eq q.kind king) _ c).0

  spread : (abs (rank_diff mv.from mv.to) ≡ 0) × (abs (file_diff mv.from mv.to) ≡ 2)
  spread =
      let x = (&&_true (kind_eq q.kind king) _ c).1 in
      let y = &&_true (abs (rank_diff mv.from mv.to) == 0) (abs (file_diff mv.from mv.to) == 2) x in
      ((==_iff _ 0).0 y.0, (==_iff _ 2).0 y.1)

  home : mv.from ≡ from_fr 4 (home_rank p.side)
  home = (==_iff mv.from _).0 asked.home

  lands : mv.to ≡ landing p.side kingside
  lands = castle_to mv.from mv.to p.side home o.to spread.0 spread.1

  crosses : step mv.from (signum (file_diff mv.from mv.to)) 1 ≡ rook_target p.side kingside
  crosses = crossing mv.from mv.to p.side home spread.1

  target_empty : nibble_at p (rook_target p.side kingside) ≡ 0
  target_empty =
      ap (λ s. nibble_at p s) (sym crosses)
      ∙ crossed_empty p mv.from mv.to spread.0 spread.1
          (path_clear p a mv q h o w u f (king_no_knight q.kind is_king).0)

  landing_empty : nibble_at p (landing p.side kingside) ≡ 0
  landing_empty = ap (λ s. nibble_at p s) (sym lands) ∙ asked.empty

  own_king : is_own (nibble_at p mv.from) p.side ≡ true
  own_king = is_own-Shows (nibble_at p mv.from) q p.side f.shows ∙ rw f.own (colour_eq_refl p.side)

  apart :
      (mv.to ≢ rook_home p.side kingside)
      × (mv.to ≢ rook_target p.side kingside)
      × (mv.from ≢ rook_target p.side kingside)
      × (rook_home p.side kingside ≢ rook_target p.side kingside)
  apart = castle_apart p.side kingside mv.from mv.to home lands

  -- The board after the move, as the challenges to its squares leave it.
  cells :
      (sq : ℕ)
      → sq < 64
      → nibble_at a sq
        ≡ cell_after sq
            (rook_target p.side kingside)
            (rook_home p.side kingside)
            mv.to
            mv.from
            (nibble_at p (rook_home p.side kingside))
            (nibble q)
            (nibble_at p sq)
  unfolding shape
  cells sq l =
      let n =
        no_placed q mv.promotion
          (no_promotion p a mv q h o w u f (king_no_knight q.kind is_king).1) in
      board_read p a mv sq (u.boards sq l)
      ∙ rw n at (
          expected_castle p mv (shape p mv) q sq (rook_home p.side kingside)
            (rook_target p.side kingside)
            (Shows-nibble (nibble_at p mv.from) q (nibble_at-IsNibble p mv.from h.nibbles).0
              f.shows)
            (shaped, shape_ep_of p mv q f.shows f.own ∙ rw (king_no_knight q.kind is_king).1 refl)
            refl refl apart)

  agree : Agree p a p.side kingside
  agree = record {
    elsewhere = λ s l n1 n2 n3 n4.
        cells s l
        ∙ cell_elsewhere s _ _ mv.to mv.from _ _ _ n4 n3 (λ e. n2 (e ∙ lands)) (λ e. n1 (e ∙ home));
    left =
        ap (λ s. nibble_at a s) (sym home)
        ∙ cells mv.from o.from
        ∙ cell_left _ _ mv.to mv.from _ _ _ apart.2 (far_apart mv.from mv.to spread.1);
    rook_left =
        cells (rook_home p.side kingside) (rook_home-lt p.side kingside)
        ∙ cell_rook _ _ mv.to mv.from _ _ _ apart.3;
  }

  king_after : nibble_at a mv.to ≡ nibble_at p mv.from
  king_after =
      cells mv.to o.to
      ∙ cell_king _ _ mv.to mv.from _ _ _ apart.1 apart.0
      ∙ Shows-nibble (nibble_at p mv.from) q (nibble_at-IsNibble p mv.from h.nibbles).0 f.shows

  spared : (by : ℕ) → by < 64 → attacks_square a p.side by mv.to ≡ false
  unfolding check
  spared by l =
      let six = f.shows.kind ∙ (==_iff (piece_code q.kind) 6).0 is_king in
      third (is_own (nibble_at a mv.to) p.side) (kind_of (nibble_at a mv.to) == 6) _
        (rw king_after own_king) (rw king_after ((==_iff _ 6).1 six)) (u.kings mv.to by o.to l)
    where
      third : (x y z : Bool) → x ≡ true → y ≡ true → (x && (y && z)) ≡ false → z ≡ false
      third x y z e g k = ground arith

  own_rook : is_own (nibble_at p (rook_home p.side kingside)) p.side ≡ true
  unfolding shape
  own_rook = asked.own

  safe_landing : (by : ℕ) → by < 64 → attacks_square p p.side by mv.to ≡ false
  safe_landing by l = rw lands (
      landing_unattacked p a p.side kingside by agree l (rw home at own_king) own_rook landing_empty
        target_empty (rw lands at (spared by l)))

  safe_home : (by : ℕ) → by < 64 → attacks_square p p.side by mv.from ≡ false
  unfolding check
  safe_home by l = rw shaped at (u.attacks false by l)

  safe_crossing :
      (by : ℕ) → by < 64 → attacks_square p p.side by (rook_target p.side kingside) ≡ false
  unfolding check
  safe_crossing by l = rw crosses at (rw shaped at (u.attacks true by l))

  pub castle_way : (k : Kind) × (classify p mv q ≡ ok k)
  unfolding shape
  castle_way =
      let r = nibble-piece_is p (rook_home p.side kingside) p.side rook h own_rook asked.kind in
      let e = squares_empty p p.side kingside landing_empty target_empty asked.beside in
      let d =
        castle_accepts p mv.from mv.to p.side kingside asked.home asked.right r
          (castle_way-IsClear p mv.from p.side kingside home e)
          (no_attacker p p.side mv.from h o.from safe_home)
          (no_attacker p p.side (rook_target p.side kingside) h (rook_target-lt p.side kingside)
            safe_crossing)
          (no_attacker p p.side mv.to h o.to safe_landing) in
      (
        castle_kind (rook_home q.colour kingside) (rook_target q.colour kingside),
        castle_classified p mv q
            (castle_kind (rook_home q.colour kingside) (rook_target q.colour kingside))
            (king_no_knight q.kind is_king).1 (free p a mv q h o w u f)
            (no_promotion p a mv q h o w u f (king_no_knight q.kind is_king).1) c (rw f.own d),
      )
