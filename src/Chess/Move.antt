-- ===== src/Chess/Move.antt =====
-- crates/apps/chess/src/mv.rs: a move in 16 bits.
use ln_gap.Prelude.{
  ℕ, ◌+◌, ◌*◌, ◌/◌, ◌%◌, ◌^◌, Option, none, some, Result, ok, err, ◌>>=◌, ◌>>◌, ensure, ◌==◌,
  if◌then◌else◌,
}
use ln_gap.Chess.Piece.{PieceType, piece_code, from_code, is_promotion_piece}

pub record Move : Type 0 where
  pub from : ℕ
  pub to : ℕ
  pub promotion : Option PieceType

pub data MoveError : Type 0 where
  promotion_code spare_bit : MoveError

abbrev pub promotion_bits : Option PieceType → ℕ
promotion_bits none = 0
promotion_bits (some k) = piece_code k

-- `from | to << 6 | promotion << 12`: the three fields have no bit in common.
unfoldable pub to_u16 : Move → ℕ
to_u16 m = m.from + m.to * 2 ^ 6 + promotion_bits m.promotion * 2 ^ 12

-- The promotion that a code names.
unfoldable pub read_promotion : ℕ → Result MoveError (Option PieceType)
unfolding from_code
read_promotion c = if c == 0 then ok none else elim (from_code c) [
  | none ↦ err promotion_code
  | some k ↦ if is_promotion_piece k then ok (some k) else err promotion_code
]

unfoldable pub from_u16 : ℕ → Result MoveError Move
unfolding read_promotion
from_u16 w = do
  promotion ← read_promotion (w / 2 ^ 12 % 8)
  ensure (w / 2 ^ 15 == 0) spare_bit
  ok (record { from = w % 64; to = w / 2 ^ 6 % 64; promotion = promotion })
