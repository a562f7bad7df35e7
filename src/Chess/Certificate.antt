-- ===== src/Chess/Certificate.antt =====
-- crates/apps/chess/src/certificate.rs: the statements that a mover makes by publishing a move and
-- the position after it, and the check of a challenge to one of them.
pub mod Rays
pub mod Pieces
pub mod Attacks
pub mod Rights
pub mod Castle
pub mod Mover
pub mod Fields
pub mod Shapes
pub mod Safety
pub mod Paths
pub mod Board
pub mod Squares
pub mod Search
pub mod Lawful
pub mod Classified
pub mod Ways
pub mod Castling
pub mod Landing
pub mod CastleWay
pub mod Complete
pub mod Kings
pub mod Sound
use Prim.Native.Nat.{bit_and, bit_or, min, max}
use ln_gap.Prelude.{
  ℕ, suc, ◌+◌, ◌-◌, ◌*◌, ◌/◌, ◌%◌, Bool, true, false, not, ◌&&◌, ◌||◌, Option, none, some, List, [],
  ◌∷◌, ◌++◌, map, ltb, leb, ◌==◌, ◌!=◌, if◌then◌else◌, first, all, range_from, ℤ, pos, negsuc, abs,
  signum, int_eq,
}
use ln_gap.Chess.Square.{
  squares, from_fr, file, rank, file_diff, rank_diff, aligned, offset, all_squares,
}
use ln_gap.Chess.Piece.{
  Colour, white, black, other_colour, colour_eq, forward, pawn_rank, home_rank, last_rank,
  piece_code, colour_of, kind_of,
}
use ln_gap.Chess.Move.{Move}
use ln_gap.Chess.Position.{Position, nibble_at, is_empty, can_castle, castle_bit}
use ln_gap.Chess.Rules.{ep_eq}
use ln_gap.Chess.Classify.{
  is_some, double_forward, backward, rook_home, rook_target, is_positive, is_ep,
}
use ln_gap.Chess.Challenges.{
  Challenge, mover, destination, promotion, castling, side, castling_field, ep_field, clock,
  move_number, ray, castling_attacked, king_attacked, board, pairs, castling_pairs, all_challenges,
  is_own, is_enemy, line_delta, line, step, shape_attacks, attack_shape, ray_empty, attacks_square,
}

pub record Shape : Type 0 where
  pub kind : ℕ
  pub f : ℤ
  pub r : ℤ
  pub castling : Bool
  pub rook_from : ℕ
  pub rook_to : ℕ
  pub ep_capture : Bool
  pub ep_captured : ℕ

unfoldable pub shape : Position → Move → Shape
shape prior mv =
    let c = prior.side in
    let n = nibble_at prior mv.from in
    let kind : ℕ = if is_own n c then kind_of n else 0 in
    let f = file_diff mv.from mv.to in
    let r = rank_diff mv.from mv.to in
    record {
      kind = kind;
      f = f;
      r = r;
      castling = (kind == 6) && ((abs r == 0) && (abs f == 2));
      rook_from = rook_home c (is_positive f);
      rook_to = rook_target c (is_positive f);
      ep_capture = (kind == 1) && ((abs f != 0) && is_empty prior mv.to);
      ep_captured = elim (offset mv.to (pos 0) (backward c)) [ none ↦ mv.to | some t ↦ t ];
    }

-- Whether the piece moves so.
unfoldable pub mover_ok : Position → Move → Shape → Bool
unfolding attack_shape
mover_ok prior mv s =
    let c = prior.side in
    if s.kind == 1
    then (int_eq s.f (pos 0) && int_eq s.r (forward c))
      || ((int_eq s.f (pos 0) && (int_eq s.r (double_forward c) && (rank mv.from == pawn_rank c)))
          || ((abs s.f == 1) && int_eq s.r (forward c)))
    else if s.kind == 6
    then attack_shape s.kind mv.from mv.to || (s.castling && (mv.from == from_fr 4 (home_rank c)))
    else if s.kind == 0
    then false
    else attack_shape s.kind mv.from mv.to

unfoldable pub destination_ok : Position → Move → Shape → Bool
destination_ok prior mv s =
    let c = prior.side in
    let target = nibble_at prior mv.to in
    if s.kind == 1
    then (if int_eq s.f (pos 0)
        then target == 0
        else is_enemy target c || ((target == 0) && is_ep prior mv.to))
    else not (is_own target c)

unfoldable pub castling_ok : Position → Move → Shape → Bool
castling_ok prior mv s =
    let c = prior.side in
    let rook = nibble_at prior s.rook_from in
    (mv.from == from_fr 4 (home_rank c))
    && (can_castle prior c (is_positive s.f)
        && (is_own rook c
            && ((kind_of rook == 4)
                && (is_empty prior mv.to
                    && (is_positive s.f || is_empty prior (from_fr 1 (home_rank c)))))))

-- What the move makes of a square.
unfoldable pub expected_nibble : Position → Move → Shape → ℕ → ℕ
expected_nibble prior mv s sq =
    let moved = nibble_at prior mv.from in
    if sq == mv.to
    then elim mv.promotion [ none ↦ moved | some k ↦ bit_or (bit_and moved 8) (piece_code k) ]
    else if (sq == mv.from)
        || ((s.castling && (sq == s.rook_from)) || (s.ep_capture && (sq == s.ep_captured)))
    then 0
    else if s.castling && (sq == s.rook_to)
    then nibble_at prior s.rook_from
    else nibble_at prior sq

-- `cleared |= bit` for a home corner.
abbrev pub clear_corner_bit : ℕ → Colour → Bool → ℕ → ℕ
clear_corner_bit sq c kingside cleared =
    if sq == rook_home c kingside then bit_or cleared (castle_bit c kingside) else cleared

unfoldable pub cleared_bits : Colour → Bool → Move → ℕ
cleared_bits c king_moved mv = clear_corner_bit mv.to (other_colour c) false (
    clear_corner_bit mv.to (other_colour c) true (
      clear_corner_bit mv.from c false (
        clear_corner_bit mv.from c true
          (if king_moved then bit_or (castle_bit c true) (castle_bit c false) else 0))))

-- `true` when the statement is false of the prior position, the move and the position after it.
unfoldable pub check : Position → Move → Position → Challenge → Bool
unfolding shape mover_ok destination_ok castling_ok expected_nibble cleared_bits attacks_square line
check prior mv after mover = not (mover_ok prior mv (shape prior mv))
check prior mv after destination = not (destination_ok prior mv (shape prior mv))
check prior mv after (ray j) = elim (line mv.from mv.to) [
  | none ↦ false
  | some (delta, dist) ↦
      ((shape prior mv).kind != 2)
      && ((leb 1 j && ltb j dist) && not (is_empty prior (step mv.from delta j)))
]
check prior mv after promotion =
    let due = ((shape prior mv).kind == 1) && (rank mv.to == last_rank prior.side) in
    if due then not (is_some mv.promotion) else is_some mv.promotion
check prior mv after castling =
    (shape prior mv).castling && not (castling_ok prior mv (shape prior mv))
check prior mv after (castling_attacked crossed by) =
    (shape prior mv).castling
    && attacks_square prior prior.side by
        (if crossed then step mv.from (signum (file_diff mv.from mv.to)) 1 else mv.from)
check prior mv after (king_attacked king by) =
    is_own (nibble_at after king) prior.side
    && ((kind_of (nibble_at after king) == 6) && attacks_square after prior.side by king)
check prior mv after (board sq) = nibble_at after sq != expected_nibble prior mv (shape prior mv) sq
check prior mv after side = not (colour_eq after.side (other_colour prior.side))
check prior mv after castling_field =
    after.castling
    != bit_and prior.castling (255 - cleared_bits prior.side ((shape prior mv).kind == 6) mv)
check prior mv after ep_field =
    let s = shape prior mv in
    not (
      ep_eq after.ep (
        if (s.kind == 1) && int_eq s.r (double_forward prior.side)
        then some (step mv.from (elim prior.side [ white ↦ pos 8 | black ↦ negsuc 7 ]) 1)
        else none))
check prior mv after clock = after.halfmove != (
    if ((shape prior mv).kind == 1) || (nibble_at prior mv.to != 0)
    then 0
    else min (prior.halfmove + 1) 255)
check prior mv after move_number =
    after.fullmove != min (prior.fullmove + elim prior.side [ white ↦ 0 | black ↦ 1 ]) 65535

unfoldable pub find_challenge : Position → Move → Position → Option Challenge
unfolding all_challenges
find_challenge prior mv after = first (check prior mv after) all_challenges
