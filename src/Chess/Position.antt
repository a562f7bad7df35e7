-- ===== src/Chess/Position.antt =====
-- crates/apps/chess/src/position.rs: a position and its 40 bytes. The board is a list of 64 nibbles.
pub mod Bytes
use Prim.Native.Nat.{bit_and, bit_or}
use ln_gap.Prelude.{
  ℕ, zero, suc, ◌+◌, ◌*◌, ◌/◌, ◌%◌, Bool, true, false, not, ◌&&◌, Option, none, some, List, [], ◌∷◌,
  ◌++◌, ltb, leb, ◌==◌, ◌!=◌, if◌then◌else◌, get_or, set, take, drop, replicate, range_from, first,
  Result, ok, err, ◌>>=◌, ◌>>◌, ensure,
}
use ln_gap.Chess.Square.{squares, new_square, all_squares}
use ln_gap.Chess.Piece.{
  Colour, white, black, colour_eq, Piece, PieceType, king, kind_eq, nibble, from_nibble,
}

pub record Position : Type 0 where
  pub board : List ℕ
  pub side : Colour
  pub castling : ℕ
  pub ep : Option ℕ
  pub halfmove : ℕ
  pub fullmove : ℕ

pub record Malformed : Type 0 where
  pub offset : ℕ
  pub value : ℕ

abbrev pub empty_position : Position
empty_position = record {
  board = replicate squares 0;
  side = white;
  castling = 0;
  ep = none;
  halfmove = 0;
  fullmove = 1;
}

abbrev pub nibble_at : Position → ℕ → ℕ
nibble_at p sq = get_or p.board sq 0

-- A nibble that is no piece, which the source panics on, reads as an empty square; a position that
-- `from_bytes` or `apply` makes holds none.
unfoldable pub piece_at : Position → ℕ → Option Piece
piece_at p sq = elim (from_nibble (nibble_at p sq)) [ ok piece ↦ piece | err n ↦ none ]

unfoldable pub put_piece : Position → ℕ → Option Piece → Position
put_piece p sq piece = record p {
  board = set p.board sq (elim piece [ none ↦ 0 | some q ↦ nibble q ]);
}

abbrev pub is_empty : Position → ℕ → Bool
is_empty p sq = nibble_at p sq == 0

-- Whether `pieces_of c` gives a square.
unfoldable pub holds : Position → Colour → ℕ → Bool
unfolding piece_at
holds p c sq = elim (piece_at p sq) [ none ↦ false | some q ↦ colour_eq q.colour c ]

unfoldable pub holds_king : Position → Colour → ℕ → Bool
unfolding piece_at
holds_king p c sq = elim (piece_at p sq) [
  | none ↦ false
  | some q ↦ colour_eq q.colour c && kind_eq q.kind king
]

unfoldable pub king_square : Position → Colour → Option ℕ
unfolding holds_king
king_square p c = first (holds_king p c) all_squares

abbrev pub castle_wk : ℕ
castle_wk = 1

abbrev pub castle_wq : ℕ
castle_wq = 2

abbrev pub castle_bk : ℕ
castle_bk = 4

abbrev pub castle_bq : ℕ
castle_bq = 8

-- `true` is the king's side.
abbrev pub castle_bit : Colour → Bool → ℕ
castle_bit white true = castle_wk
castle_bit white false = castle_wq
castle_bit black true = castle_bk
castle_bit black false = castle_bq

unfoldable pub can_castle : Position → Colour → Bool → Bool
can_castle p c kingside = bit_and p.castling (castle_bit c kingside) != 0

-- Two squares to a byte, the even one in the high nibble.
unfoldable pub pack_board : List ℕ → List ℕ
pack_board [] = []
pack_board (a ∷ []) = []
pack_board (a ∷ b ∷ ns) = bit_or (a * 16 % 256) b ∷ pack_board ns

abbrev pub side_byte : Colour → ℕ
side_byte white = 0
side_byte black = 1

abbrev pub ep_byte : Option ℕ → ℕ
ep_byte none = 64
ep_byte (some sq) = sq

unfoldable pub to_bytes : Position → List ℕ
unfolding pack_board
to_bytes p =
    pack_board p.board
    ++ (side_byte p.side
        ∷ (p.castling
            ∷ (ep_byte p.ep
                ∷ (p.halfmove ∷ (p.fullmove / 256 % 256 ∷ (p.fullmove % 256 ∷ (0 ∷ (0 ∷ []))))))))

-- Whether a nibble is empty or a piece.
unfoldable pub is_nibble : ℕ → Bool
is_nibble n = elim (from_nibble n) [ ok p ↦ true | err m ↦ false ]

-- The first loop of `from_bytes`, from byte `k` on.
unfoldable pub read_squares : ℕ → List ℕ → Result Malformed (List ℕ)
unfolding is_nibble
read_squares k [] = ok []
read_squares k (byte ∷ bytes) = do
  ensure (is_nibble (byte / 16) && is_nibble (byte % 16)) (record { offset = k; value = byte })
  ns ← read_squares (suc k) bytes
  ok (byte / 16 ∷ (byte % 16 ∷ ns))

abbrev pub read_side : ℕ → Result Malformed Colour
read_side v =
    if v == 0
    then ok white
    else if v == 1
    then ok black
    else err (record { offset = 32; value = v })

abbrev pub read_ep : ℕ → Result Malformed (Option ℕ)
read_ep v = if v == 64 then ok none else elim (new_square v) [
  | some sq ↦ ok (some sq)
  | none ↦ err (record { offset = 34; value = v })
]

-- The search for a byte that is not zero, from offset `k` on.
unfoldable pub zero_from : ℕ → List ℕ → Result Malformed (Unit {0})
zero_from k [] = ok tt
zero_from k (v ∷ vs) = do ensure (v == 0) (record { offset = k; value = v }); zero_from (suc k) vs

unfoldable pub from_bytes : List ℕ → Result Malformed Position
unfolding read_squares zero_from
from_bytes b = do
  board ← read_squares 0 (take 32 b)
  side ← read_side (get_or b 32 0)
  ensure (leb (get_or b 33 0) 15) (record { offset = 33; value = get_or b 33 0 })
  ep ← read_ep (get_or b 34 0)
  zero_from 38 (drop 38 b)
  ok (record {
    board = board;
    side = side;
    castling = get_or b 33 0;
    ep = ep;
    halfmove = get_or b 35 0;
    fullmove = get_or b 36 0 * 256 + get_or b 37 0;
  })
