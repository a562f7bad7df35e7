-- ===== src/Chess/Examples.antt =====
-- Concrete positions and moves.
use ln_gap.Prelude.{
  sym, ◌∙◌, ◌+◌, ◌*◌, not, ◌||◌, ltb, ltb→lt, &&_true, ==_iff, every_below, every_below_lem, ℕ, ◌≡◌,
  ◌↔◌, refl, true, false, ◌&&◌, none, some, List, [], ◌∷◌, set, replicate, arith, ok, All, ◌==◌,
  all,
}
use ln_gap.Chess.Square.{between_rounds, between}
use ln_gap.Chess.Piece.{white, black, other_colour, queen, from_nibble, nibble, from_code}
use ln_gap.Chess.Move.{Move, from_u16}
use ln_gap.Chess.Position.{
  can_castle, king_square, put_piece, Position, nibble_at, piece_at, holds, holds_king, from_bytes,
  to_bytes, is_nibble,
}
use ln_gap.Chess.Position.Bytes.{IsPosition, IsNibble, from_bytes-to_bytes}
use ln_gap.Chess.Attack.{attackers, attacks_geometrically, attacks, in_check}
use ln_gap.Chess.Rules.{apply, verify_claim}
use ln_gap.Chess.Rules.Legal.{IsOnBoard, apply_leaves_no_check}
use ln_gap.Chess.Rules.Ranges.{apply-IsPosition}
use ln_gap.Chess.Rules.Verify.{verify_iff_apply}
use ln_gap.Chess.Codecs.{IsMoveWord}
use ln_gap.Chess.Certificate.{find_challenge}
use ln_gap.Chess.Challenges.{attacks_square}
use ln_gap.Chess.Certificate.Rays.{between_rounds-ends}
use ln_gap.Chess.Certificate.Attacks.{attacks_square-attacks}
use ln_gap.Chess.Certificate.Safety.{OneKing}
use ln_gap.Chess.Certificate.Complete.{unchallenged_move_legal}
use ln_gap.Chess.Certificate.Sound.{legal_move_unchallenged}

-- White: king e1, rook h1, pawn a7. Black: king e8, queen d8.
abbrev small : Position
small = record {
  board = set (set (set (set (set (replicate 64 0) 4 6) 7 4) 48 1) 60 14) 59 13;
  side = white;
  castling = 1;
  ep = none;
  halfmove = 7;
  fullmove = 30;
}

abbrev castles : Move
castles = record { from = 4; to = 6; promotion = none }

abbrev castled : Position
castled = record {
  board = set (set (set (set (set (replicate 64 0) 6 6) 5 4) 48 1) 60 14) 59 13;
  side = black;
  castling = 0;
  ep = none;
  halfmove = 8;
  fullmove = 30;
}

castles_apply : apply small castles ≡ ok castled
unfolding apply piece_at from_nibble can_castle between attackers holds attacks
    attacks_geometrically king_square put_piece nibble
castles_apply = refl

All-IsNibble : (ns : List ℕ) → all (λ n. ltb n 16 && is_nibble n) ns ≡ true → All IsNibble ns
All-IsNibble [] h = tt
All-IsNibble (n ∷ ns) h =
    let a = &&_true (ltb n 16 && is_nibble n) _ h in
    let b = &&_true (ltb n 16) (is_nibble n) a.0 in ((ltb→lt n 16 b.0, b.1), All-IsNibble ns a.1)

small_nibbles : all (λ n. ltb n 16 && is_nibble n) small.board ≡ true
unfolding is_nibble from_nibble
small_nibbles = refl

small-IsPosition : IsPosition small
small-IsPosition = record {
  size = refl;
  nibbles = All-IsNibble small.board small_nibbles;
  castling = omega arith;
  ep = refl;
  halfmove = omega arith;
  fullmove = omega arith;
}

castles-IsOnBoard : IsOnBoard castles
castles-IsOnBoard = record { from = omega arith; to = omega arith }

one_white_king : every_below 64 (λ s. not (holds_king small white s) || (s == 4)) ≡ true
unfolding every_below holds_king piece_at from_nibble
one_white_king = refl

small-OneKing : OneKing small white
small-OneKing a b l m h k =
    let x = every_below_lem 64 _ one_white_king a l in
    let y = every_below_lem 64 _ one_white_king b m in
    (==_iff a 4).0 (rw h at x) ∙ sym ((==_iff b 4).0 (rw k at y))

from_bytes-to_bytes_example : from_bytes (to_bytes small) ≡ ok small
from_bytes-to_bytes_example = from_bytes-to_bytes small small-IsPosition

apply_leaves_no_check_example : in_check castled white ≡ false
apply_leaves_no_check_example = apply_leaves_no_check small castled castles castles_apply

apply-IsPosition_example : IsPosition castled × (castled.side ≡ other_colour small.side)
apply-IsPosition_example =
    apply-IsPosition small castled castles small-IsPosition castles-IsOnBoard castles_apply

verify_iff_apply_example :
    (verify_claim small castles castled ≡ ok tt) ↔ (apply small castles ≡ ok castled)
verify_iff_apply_example =
    verify_iff_apply small castled castles small-IsPosition castles-IsOnBoard refl

legal_move_unchallenged_example : find_challenge small castles castled ≡ none
legal_move_unchallenged_example =
    legal_move_unchallenged small castled castles small-IsPosition castles-IsOnBoard castles_apply
      small-OneKing

between_rounds-ends_example : (v : List ℕ) × (between_rounds 0 63 ≡ some v)
between_rounds-ends_example = between_rounds-ends 0 63 (omega arith) (omega arith)

queen-IsNibble : IsNibble (nibble_at small 59)
unfolding is_nibble from_nibble
queen-IsNibble = (omega arith, refl)

attacks_square-attacks_example :
    attacks_square small white 59 3 ≡ (holds small black 59 && attacks small 59 3)
attacks_square-attacks_example =
    attacks_square-attacks small white 59 3 queen-IsNibble (omega arith) (omega arith)

abbrev promotes : Move
promotes = record { from = 48; to = 56; promotion = some queen }

word_of_promotion : from_u16 (48 + 56 * 64 + 5 * 4096) ≡ ok promotes
unfolding from_u16 from_code
word_of_promotion = refl

castles-IsMoveWord : IsMoveWord castles
castles-IsMoveWord = record { from = omega arith; to = omega arith; promotion = refl }

unchallenged_move_legal_example : apply small castles ≡ ok castled
unchallenged_move_legal_example =
    unchallenged_move_legal small castled castles small-IsPosition
      (apply-IsPosition small castled castles small-IsPosition castles-IsOnBoard castles_apply).0
      castles-IsMoveWord
      (legal_move_unchallenged small castled castles small-IsPosition castles-IsOnBoard
        castles_apply small-OneKing)
