-- ===== src/Chess/Attack.antt =====
-- crates/apps/chess/src/attack.rs: which pieces of a colour attack a square.
use ln_gap.Prelude.{
  ℕ, Bool, false, ◌&&◌, ◌||◌, none, some, List, leb, ◌==◌, if◌then◌else◌, all, any, keep, ℤ, abs,
  int_eq,
}
use ln_gap.Chess.Square.{all_squares, file_diff, rank_diff, between}
use ln_gap.Chess.Piece.{
  Colour, other_colour, forward, PieceType, pawn, knight, bishop, rook, queen, king, Piece,
}
use ln_gap.Chess.Position.{Position, piece_at, is_empty, holds, king_square}

-- The geometry of a kind of piece, for the differences of files and of ranks of two squares.
unfoldable pub kind_attacks : PieceType → Colour → ℕ → ℤ → Bool
kind_attacks pawn c f r = (f == 1) && int_eq r (forward c)
kind_attacks knight c f r = ((f == 1) && (abs r == 2)) || ((f == 2) && (abs r == 1))
kind_attacks bishop c f r = f == abs r
kind_attacks rook c f r = (f == 0) || (abs r == 0)
kind_attacks queen c f r = (f == abs r) || ((f == 0) || (abs r == 0))
kind_attacks king c f r = leb f 1 && leb (abs r) 1

unfoldable pub attacks_geometrically : Piece → ℕ → ℕ → Bool
unfolding kind_attacks
attacks_geometrically p from to =
    if from == to
    then false
    else kind_attacks p.kind p.colour (abs (file_diff from to)) (rank_diff from to)

unfoldable pub attacks : Position → ℕ → ℕ → Bool
attacks pos from to = elim (piece_at pos from) [
  | none ↦ false
  | some p ↦ if attacks_geometrically p from to then all (is_empty pos) (between from to) else false
]

unfoldable pub attackers : Position → ℕ → Colour → List ℕ
attackers pos sq by = keep (λ from. holds pos by from && attacks pos from sq) all_squares

unfoldable pub is_attacked : Position → ℕ → Colour → Bool
is_attacked pos sq by = any (λ from. holds pos by from && attacks pos from sq) all_squares

unfoldable pub in_check : Position → Colour → Bool
in_check pos c = elim (king_square pos c) [
  | none ↦ false
  | some k ↦ is_attacked pos k (other_colour c)
]
