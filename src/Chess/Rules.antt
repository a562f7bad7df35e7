-- ===== src/Chess/Rules.antt =====
-- crates/apps/chess/src/rules.rs: the successor of a position by a move that passes every check, and
-- the check of a claimed successor.
pub mod Legal
pub mod Ranges
pub mod Verify
pub mod Classify
use Prim.Native.Nat.{bit_and, bit_or, min}
use ln_gap.Prelude.{
  ℕ, ◌+◌, ◌-◌, Bool, true, false, not, ◌&&◌, ◌||◌, Option, none, some, List, [], ◌∷◌, ltb, leb,
  ◌==◌, ◌!=◌, if◌then◌else◌, first, head?, Result, ok, err, ◌>>=◌, ◌>>◌, ensure, ℤ, pos, negsuc,
  abs, int_eq,
}
use ln_gap.Chess.Square.{from_fr, file, rank, file_diff, rank_diff, offset, between, all_squares}
use ln_gap.Chess.Piece.{
  Colour, white, black, other_colour, colour_eq, forward, pawn_rank, home_rank, last_rank,
  PieceType, pawn, knight, bishop, rook, queen, king, kind_eq, is_promotion_piece, Piece,
}
use ln_gap.Chess.Move.{Move}
use ln_gap.Chess.Position.{
  Position, nibble_at, piece_at, put_piece, is_empty, king_square, can_castle, castle_bit,
}
use ln_gap.Chess.Attack.{attackers}
use ln_gap.Chess.Classify.{
  Violation, no_piece_of_mover, destination_own_piece, bad_geometry, ray_blocked,
  pawn_push_occupied, pawn_capture_no_target, promotion_required, promotion_not_allowed,
  castling_rights, castling_path_blocked, castling_through_check, king_attacked, board_mismatch,
  side_mismatch, castling_field_mismatch, ep_field_mismatch, clock_mismatch, move_number_mismatch,
  Kind, normal, capture, double_push, en_passant, castle_kind, is_some, double_forward, backward,
  step_rank, is_ep, pawn_kind, pawn_promotion, moves_so, is_positive, rook_home, rook_target,
  piece_is, unattacked, unless_found, castle, piece_kind, is_castling, classify_pawn,
  classify_piece, piece_of, classify,
}

-- The piece that stands on the destination: the moved or the promoted one.
abbrev pub placed_piece : Piece → Option PieceType → Piece
placed_piece piece none = piece
placed_piece piece (some k) = record { colour = piece.colour; kind = k }

-- The board after a move of a kind.
unfoldable pub move_board : Position → Move → Piece → Kind → Position
move_board p mv piece kind =
    let n = put_piece (put_piece p mv.from none) mv.to (some (placed_piece piece mv.promotion)) in
    elim kind [
      | normal ↦ n
      | capture ↦ n
      | double_push ↦ n
      | en_passant captured ↦ put_piece n captured none
      | castle_kind rook_from rook_to ↦
          put_piece (put_piece n rook_from none) rook_to
            (some (record { colour = piece.colour; kind = rook }))
    ]

-- `castling &= !bits`, in a `u8`
abbrev pub clear_bits : ℕ → ℕ → ℕ
clear_bits castling bits = bit_and castling (255 - bits)

abbrev pub clear_corner : ℕ → Colour → Bool → ℕ → ℕ
clear_corner sq c kingside castling =
    if sq == rook_home c kingside then clear_bits castling (castle_bit c kingside) else castling

unfoldable pub castling_after : ℕ → Colour → Bool → Move → ℕ
castling_after castling us king_moved mv =
    let c0 =
      if king_moved
      then clear_bits castling (bit_or (castle_bit us true) (castle_bit us false))
      else castling in
    clear_corner mv.to (other_colour us) false (
      clear_corner mv.to (other_colour us) true
        (clear_corner mv.from us false (clear_corner mv.from us true c0)))

abbrev pub is_capture : Kind → Bool
is_capture normal = false
is_capture capture = true
is_capture double_push = false
is_capture (en_passant c) = true
is_capture (castle_kind f t) = false

abbrev pub is_double_push : Kind → Bool
is_double_push double_push = true
is_double_push _ = false

-- The end of `apply`: the fields of the successor.
unfoldable pub successor : Position → Move → Piece → Kind → Position
unfolding move_board castling_after
successor p mv piece kind =
    let us = piece.colour in
    let n = move_board p mv piece kind in
    record {
      board = n.board;
      side = other_colour us;
      castling = castling_after p.castling us (kind_eq piece.kind king) mv;
      ep = if is_double_push kind then some (step_rank mv.from (forward us)) else none;
      halfmove = if kind_eq piece.kind pawn || is_capture kind then 0 else min (p.halfmove + 1) 255;
      fullmove = if colour_eq us black then min (p.fullmove + 1) 65535 else p.fullmove;
    }

-- The king of the side that moved is not attacked.
unfoldable pub king_safe : Position → Colour → Result Violation (Unit {0})
king_safe n us = elim (king_square n us) [
  | none ↦ ok tt
  | some k ↦ elim (head? (attackers n k (other_colour us))) [
    | none ↦ ok tt
    | some by ↦ err (king_attacked k by)
  ]
]

unfoldable pub apply : Position → Move → Result Violation Position
unfolding classify successor king_safe
apply p mv = elim (piece_at p mv.from) [
  | none ↦ err (no_piece_of_mover mv.from)
  | some piece ↦ do
    ensure (colour_eq piece.colour p.side) (no_piece_of_mover mv.from)
    kind ← classify p mv piece
    king_safe (move_board p mv piece kind) p.side
    ok (successor p mv piece kind)
]

abbrev pub ep_eq : Option ℕ → Option ℕ → Bool
ep_eq none none = true
ep_eq none (some b) = false
ep_eq (some a) none = false
ep_eq (some a) (some b) = a == b

-- Named `verify_claim`, after what it checks: `verify` of the source.
unfoldable pub verify_claim : Position → Move → Position → Result Violation (Unit {0})
verify_claim p mv claimed = do
  n ← apply p mv
  elim (first (λ s. nibble_at n s != nibble_at claimed s) all_squares) [
    | some sq ↦ err (board_mismatch sq)
    | none ↦ ok tt
  ]
  ensure (colour_eq n.side claimed.side) side_mismatch
  ensure (n.castling == claimed.castling) castling_field_mismatch
  ensure (ep_eq n.ep claimed.ep) ep_field_mismatch
  ensure (n.halfmove == claimed.halfmove) clock_mismatch
  ensure (n.fullmove == claimed.fullmove) move_number_mismatch
