-- ===== src/Chess/Rules/Ranges.antt =====
-- The ranges of a successor's fields: `apply` of crates/apps/chess/src/rules.rs.
use Prim.Native.Nat.{bit_or}
use ln_gap.Prelude.{
  ap, lt→ltb, ℕ, ◌<◌, ◌≡◌, refl, Bool, true, false, none, some, arith, ltb, inl, inr, Bool-cases,
  ok, ℤ, pos, negsuc, if◌then◌else◌, ◌==◌,
}
use ln_gap.Chess.Square.{offset}
use ln_gap.Chess.Piece.{
  Colour, white, black, other_colour, Piece, colour_eq, colour_eq→eq, kind_eq, king, forward,
}
use ln_gap.Chess.Move.{Move}
use ln_gap.Chess.Position.{Position, castle_bit}
use ln_gap.Chess.Position.Bytes.{IsPosition}
use ln_gap.Chess.Rules.{is_double_push, successor, apply, castling_after, clear_bits, clear_corner}
use ln_gap.Chess.Classify.{Kind, step_rank, rook_home}
use ln_gap.Chess.Rules.Legal.{move_board-IsBoard, clear_bits-lt, apply-parts, IsOnBoard}

castle_bit-lt : (c : Colour) (k : Bool) → castle_bit c k < 16
castle_bit-lt white true = omega arith
castle_bit-lt white false = omega arith
castle_bit-lt black true = omega arith
castle_bit-lt black false = omega arith

both_bits-lt : (c : Colour) → bit_or (castle_bit c true) (castle_bit c false) < 16
both_bits-lt white = omega arith
both_bits-lt black = omega arith

clear_corner-lt :
    (sq : ℕ) (c : Colour) (k : Bool) (castling : ℕ)
    → castling < 16
    → clear_corner sq c k castling < 16
clear_corner-lt sq c k castling h = elim (Bool-cases (sq == rook_home c k)) [
  | inl e ↦ rw e (clear_bits-lt castling (castle_bit c k) h (castle_bit-lt c k))
  | inr e ↦ rw e h
]

castling_after-lt :
    (castling : ℕ) (us : Colour) (moved : Bool) (mv : Move)
    → castling < 16
    → castling_after castling us moved mv < 16
unfolding castling_after
castling_after-lt castling us moved mv h = clear_corner-lt mv.to (other_colour us) false _ (
    clear_corner-lt mv.to (other_colour us) true _
      (clear_corner-lt mv.from us false _ (clear_corner-lt mv.from us true _ (king moved))))
  where
    king :
        (m : Bool)
        → (if m
            then clear_bits castling (bit_or (castle_bit us true) (castle_bit us false))
            else castling)
          < 16
    king true =
        clear_bits-lt castling (bit_or (castle_bit us true) (castle_bit us false)) h
          (both_bits-lt us)
    king false = h

pub step_rank-lt : (s : ℕ) (d : ℤ) → s < 64 → step_rank s d < 64
unfolding offset
step_rank-lt s (pos d) h = ground arith
step_rank-lt s (negsuc d) h = ground arith

module _ (p : Position) (mv : Move) (h : IsPosition p) (o : IsOnBoard mv) (piece : Piece)
    (k : Kind) where
  successor-ep : elim (successor p mv piece k).ep [ none ↦ true | some sq ↦ ltb sq 64 ] ≡ true
  unfolding successor
  successor-ep = elim (Bool-cases (is_double_push k)) [
    | inl e ↦ rw e (
        lt→ltb (step_rank mv.from (forward piece.colour)) 64
          (step_rank-lt mv.from (forward piece.colour) o.from))
    | inr e ↦ rw e refl
  ]

  successor-IsPosition : IsPosition (successor p mv piece k)
  unfolding successor
  successor-IsPosition =
      let b = move_board-IsBoard p mv piece k (record { size = h.size; nibbles = h.nibbles }) in
      let f = h.fullmove in
      record {
        size = b.size;
        nibbles = b.nibbles;
        castling =
            castling_after-lt p.castling piece.colour (kind_eq piece.kind king) mv h.castling;
        ep = successor-ep;
        halfmove = ground arith;
        fullmove = ground arith;
      }

successor-side :
    (p : Position) (mv : Move) (piece : Piece) (k : Kind)
    → colour_eq piece.colour p.side ≡ true
    → (successor p mv piece k).side ≡ other_colour p.side
unfolding successor
successor-side p mv piece k c = ap other_colour (colour_eq→eq piece.colour p.side c)

-- A move between squares of the board that the rules accept leads from a position in its ranges to
-- one in its ranges, and passes the turn.
pub apply-IsPosition :
    (p n : Position) (mv : Move)
    → IsPosition p
    → IsOnBoard mv
    → apply p mv ≡ ok n
    → IsPosition n × (n.side ≡ other_colour p.side)
apply-IsPosition p n mv h o e =
    let a = apply-parts p n mv e in
    rw (a.6) (successor-IsPosition p mv h o a.0 a.1, successor-side p mv a.0 a.1 a.3)
