-- ===== src/Chess/Classify.antt =====
-- crates/apps/chess/src/rules.rs: what a move does, decided against the prior position, or the
-- statement that fails. A step of one square that the source expects on the board stays where it is
-- if it is not.
use ln_gap.Prelude.{
  ℕ, Bool, true, false, not, ◌&&◌, ◌||◌, Option, none, some, List, [], ◌∷◌, ltb, leb, ◌==◌, ◌!=◌,
  if◌then◌else◌, first, head?, Result, ok, err, ◌>>=◌, ◌>>◌, ensure, ℤ, pos, negsuc, abs, int_eq,
}
use ln_gap.Chess.Square.{from_fr, rank, file_diff, rank_diff, offset, between}
use ln_gap.Chess.Piece.{
  Colour, white, black, other_colour, colour_eq, forward, pawn_rank, home_rank, last_rank,
  PieceType, pawn, knight, bishop, rook, queen, king, kind_eq, is_promotion_piece, Piece,
}
use ln_gap.Chess.Move.{Move}
use ln_gap.Chess.Position.{Position, piece_at, is_empty, can_castle}
use ln_gap.Chess.Attack.{attackers}

pub data Violation : Type 0 where
  no_piece_of_mover destination_own_piece : ℕ → Violation
  bad_geometry : ℕ → ℕ → Violation
  ray_blocked pawn_push_occupied pawn_capture_no_target : ℕ → Violation
  promotion_required promotion_not_allowed castling_rights : Violation
  castling_path_blocked : ℕ → Violation
  castling_through_check king_attacked : ℕ → ℕ → Violation
  board_mismatch : ℕ → Violation
  side_mismatch castling_field_mismatch ep_field_mismatch clock_mismatch move_number_mismatch :
      Violation

pub data Kind : Type 0 where
  normal capture double_push : Kind
  en_passant : ℕ → Kind
  castle_kind : ℕ → ℕ → Kind

abbrev pub is_some {ℓ} : {A : Type ℓ} → Option A → Bool
is_some none = false
is_some (some a) = true

abbrev pub double_forward : Colour → ℤ
double_forward white = pos 2
double_forward black = negsuc 1

abbrev pub backward : Colour → ℤ
backward c = forward (other_colour c)

abbrev pub step_rank : ℕ → ℤ → ℕ
step_rank s d = elim (offset s (pos 0) d) [ none ↦ s | some t ↦ t ]

abbrev pub is_ep : Position → ℕ → Bool
is_ep p to = elim p.ep [ none ↦ false | some sq ↦ sq == to ]

-- The pawn's part of `classify` up to its promotion.
unfoldable pub pawn_kind : Position → ℕ → ℕ → Colour → Bool → Result Violation Kind
pawn_kind p from to us occupied =
    let f = file_diff from to in
    let r = rank_diff from to in
    if int_eq f (pos 0) && int_eq r (forward us)
    then (if occupied then err (pawn_push_occupied to) else ok normal)
    else if int_eq f (pos 0) && (int_eq r (double_forward us) && (rank from == pawn_rank us))
    then (if not (is_empty p (step_rank from (forward us)))
        then err (ray_blocked (step_rank from (forward us)))
        else if occupied
        then err (pawn_push_occupied to)
        else ok double_push)
    else if (abs f == 1) && int_eq r (forward us)
    then (if occupied
        then ok capture
        else if is_ep p to
        then ok (en_passant (step_rank to (backward us)))
        else err (pawn_capture_no_target to))
    else err (bad_geometry from to)

unfoldable pub pawn_promotion : Bool → Option PieceType → Result Violation (Unit {0})
pawn_promotion true none = err promotion_required
pawn_promotion true (some k) = ensure (is_promotion_piece k) promotion_not_allowed
pawn_promotion false none = ok tt
pawn_promotion false (some k) = err promotion_not_allowed

-- The shapes of the moves of the other pieces; a castling king is taken out before.
unfoldable pub moves_so : PieceType → ℤ → ℤ → Bool
moves_so pawn f r = false
moves_so knight f r = ((abs f == 1) && (abs r == 2)) || ((abs f == 2) && (abs r == 1))
moves_so bishop f r = (abs f != 0) && (abs f == abs r)
moves_so rook f r = if abs f == 0 then not (abs r == 0) else (abs r == 0)
moves_so queen f r =
    ((abs f != 0) || (abs r != 0)) && ((abs f == 0) || ((abs r == 0) || (abs f == abs r)))
moves_so king f r = ((abs f != 0) || (abs r != 0)) && (leb (abs f) 1 && leb (abs r) 1)

abbrev pub is_positive : ℤ → Bool
is_positive (pos n) = ltb 0 n
is_positive (negsuc n) = false

abbrev pub rook_home : Colour → Bool → ℕ
rook_home c kingside = from_fr (if kingside then 7 else 0) (home_rank c)

abbrev pub rook_target : Colour → Bool → ℕ
rook_target c kingside = from_fr (if kingside then 5 else 3) (home_rank c)

abbrev pub piece_is : Option Piece → Colour → PieceType → Bool
piece_is none c k = false
piece_is (some q) c k = colour_eq q.colour c && kind_eq q.kind k

-- The loop of `castle` over the squares that the king may not leave, cross or reach attacked.
unfoldable pub unattacked : Position → Colour → List ℕ → Result Violation (Unit {0})
unattacked p them [] = ok tt
unattacked p them (sq ∷ sqs) =
    let rest = unattacked p them sqs in
    elim (head? (attackers p sq them)) [
      | some by ↦ err (castling_through_check sq by)
      | none ↦ rest
    ]

-- `if let Some(sq) = … { return Err(…) }`
abbrev pub unless_found : Option ℕ → (ℕ → Violation) → Result Violation (Unit {0})
unless_found none why = ok tt
unless_found (some sq) why = err (why sq)

unfoldable pub castle : Position → ℕ → ℕ → Colour → Bool → Result Violation Kind
unfolding unattacked
castle p from to us kingside = do
  ensure ((from == from_fr 4 (home_rank us)) && can_castle p us kingside) castling_rights
  let rook_from = rook_home us kingside
  let rook_to = rook_target us kingside
  ensure (piece_is (piece_at p rook_from) us rook) castling_rights
  unless_found (first (λ s. not (is_empty p s)) (between from rook_from)) castling_path_blocked
  unattacked p (other_colour us) (from ∷ (rook_to ∷ (to ∷ [])))
  ok (castle_kind rook_from rook_to)

-- The pieces but pawns, when they do not castle.
unfoldable pub piece_kind : Position → ℕ → ℕ → PieceType → Bool → Result Violation Kind
unfolding moves_so
piece_kind p from to k occupied = do
  ensure (moves_so k (file_diff from to) (rank_diff from to)) (bad_geometry from to)
  elim (first (λ s. not (is_empty p s)) (between from to)) [
    | some sq ↦ err (ray_blocked sq)
    | none ↦ ok (if occupied then capture else normal)
  ]

abbrev pub is_castling : PieceType → ℕ → ℕ → Bool
is_castling k from to =
    kind_eq k king && ((abs (rank_diff from to) == 0) && (abs (file_diff from to) == 2))

unfoldable pub classify_pawn : Position → Move → Piece → Bool → Result Violation Kind
unfolding pawn_kind pawn_promotion
classify_pawn p mv piece occupied = do
  kind ← pawn_kind p mv.from mv.to piece.colour occupied
  pawn_promotion (rank mv.to == last_rank piece.colour) mv.promotion
  ok kind

unfoldable pub classify_piece : Position → Move → Piece → Bool → Result Violation Kind
unfolding piece_kind castle
classify_piece p mv piece occupied = do
  ensure (not (is_some mv.promotion)) promotion_not_allowed
  if is_castling piece.kind mv.from mv.to
      then castle p mv.from mv.to piece.colour (is_positive (file_diff mv.from mv.to))
      else piece_kind p mv.from mv.to piece.kind occupied

abbrev pub piece_of : Option Piece → Colour → Bool
piece_of none c = false
piece_of (some q) c = colour_eq q.colour c

unfoldable pub classify : Position → Move → Piece → Result Violation Kind
unfolding classify_pawn classify_piece
classify p mv piece = do
  let target = piece_at p mv.to
  ensure (not (piece_of target piece.colour)) (destination_own_piece mv.to)
  if kind_eq piece.kind pawn
      then classify_pawn p mv piece (is_some target)
      else classify_piece p mv piece (is_some target)
