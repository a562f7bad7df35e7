-- ===== src/Chess/Certificate/Sound.antt =====
-- What legal moves leave to challenge: `find` of crates/apps/chess/src/certificate.rs.
use ln_gap.Prelude.{◌≡◌, none, ok}
use ln_gap.Chess.Move.{Move}
use ln_gap.Chess.Position.{Position}
use ln_gap.Chess.Position.Bytes.{IsPosition}
use ln_gap.Chess.Rules.{apply}
use ln_gap.Chess.Rules.Legal.{IsOnBoard}
use ln_gap.Chess.Rules.Ranges.{apply-IsPosition}
use ln_gap.Chess.Certificate.{check, find_challenge}
use ln_gap.Chess.Certificate.Kings.{apply-OneKing}
use ln_gap.Chess.Certificate.Search.{FailsAll-none}
use ln_gap.Chess.Certificate.Mover.{apply-Moves}
use ln_gap.Chess.Certificate.Fields.{
  ep_unchallenged, clock_unchallenged, side_unchallenged, number_unchallenged,
  castling_unchallenged,
}
use ln_gap.Chess.Certificate.Shapes.{
  mover_unchallenged, promotion_unchallenged, destination_unchallenged,
}
use ln_gap.Chess.Certificate.Safety.{OneKing, rights_unchallenged, castling_safe, king_unchallenged}
use ln_gap.Chess.Certificate.Paths.{path_unchallenged}
use ln_gap.Chess.Certificate.Squares.{board_unchallenged}

-- From a position whose fields are in their ranges, with one king of the mover at most: on a legal
-- move between squares of the board and its successor, no challenge of the whole challenge space
-- succeeds.
pub legal_move_unchallenged :
    (p n : Position) (mv : Move)
    → IsPosition p
    → IsOnBoard mv
    → apply p mv ≡ ok n
    → OneKing p p.side
    → find_challenge p mv n ≡ none
unfolding find_challenge
legal_move_unchallenged p n mv h o e u =
    let m = apply-Moves p n mv h e in
    let v = (apply-IsPosition p n mv h o e).0 in
    let one = apply-OneKing p n mv p.side h o e u in
    FailsAll-none (check p mv n) (record {
      mover = mover_unchallenged p n mv m.0 m.1 h o m.2;
      destination = destination_unchallenged p n mv m.0 m.1 h o m.2;
      promotion = promotion_unchallenged p n mv m.0 m.1 h o m.2;
      castling = rights_unchallenged p n mv m.0 m.1 h o m.2;
      side = side_unchallenged p n mv m.0 m.1 h o m.2;
      castling_field = castling_unchallenged p n mv m.0 m.1 h o m.2;
      ep_field = ep_unchallenged p n mv m.0 m.1 h o m.2;
      clock = clock_unchallenged p n mv m.0 m.1 h o m.2;
      move_number = number_unchallenged p n mv m.0 m.1 h o m.2;
      rays = λ j x y. path_unchallenged p n mv m.0 m.1 j o m.2;
      boards = λ sq x. board_unchallenged p n mv m.0 m.1 sq h o m.2;
      attacks = castling_safe p n mv m.0 m.1 h o m.2;
      kings = λ k by l b. king_unchallenged p n mv k by e v one l b;
    })
