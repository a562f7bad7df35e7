-- ===== src/Chess/Certificate/Board.antt =====
-- The challenges to a square of the board after a move: certificate.rs against rules.rs of
-- crates/apps/chess.
use Prim.Native.Nat.{bit_and, bit_or}
use ln_gap.Prelude.{
  ℕ, ◌+◌, ◌*◌, ◌/◌, ◌%◌, ◌<◌, ◌≡◌, ◌≢◌, refl, sym, ap, ◌∙◌, inl, inr, Bool, true, false, not, ◌&&◌,
  ◌||◌, Option, none, some, arith, ◌==◌, ◌!=◌, if◌then◌else◌, Bool-cases, ==_iff, ok, abs, length,
  get_or, set, length-set, get_or-set_self, get_or-set_ne, List, every_below, every_below_lem,
}
use ln_gap.Chess.Square.{file_diff, offset}
use ln_gap.Chess.Piece.{Colour, white, black, PieceType, Piece, piece_code, nibble}
use ln_gap.Chess.Move.{Move}
use ln_gap.Chess.Position.{Position, nibble_at, put_piece}
use ln_gap.Chess.Rules.{placed_piece}
use ln_gap.Chess.Classify.{Kind, en_passant, pawn_kind, backward, step_rank}
use ln_gap.Chess.Rules.Legal.{IsOnBoard, nibble-lt}
use ln_gap.Chess.Certificate.{Shape, expected_nibble}
use ln_gap.Chess.Certificate.Pieces.{Shows}

abbrev pub cell : Option Piece → ℕ
cell none = 0
cell (some q) = nibble q

abbrev pub is_en_passant : Kind → Bool
is_en_passant (en_passant c) = true
is_en_passant _ = false

pub set_cell :
    (xs : List ℕ) (i j v : ℕ)
    → i < length xs
    → get_or (set xs i v) j 0 ≡ (if j == i then v else get_or xs j 0)
set_cell xs i j v h = elim (Bool-cases (j == i)) [
  | inl e ↦ rw (e, (==_iff j i).0 e) (get_or-set_self xs i v 0 h)
  | inr e ↦ rw e (get_or-set_ne xs i j v 0 (λ f. ground arith))
]

pub put_piece-nibble_at :
    (p : Position) (i sq : ℕ) (x : Option Piece)
    → length p.board ≡ 64
    → i < 64
    → nibble_at (put_piece p i x) sq ≡ (if sq == i then cell x else nibble_at p sq)
unfolding put_piece
put_piece-nibble_at p i sq none h l = set_cell p.board i sq 0 (rw h l)
put_piece-nibble_at p i sq (some q) h l = set_cell p.board i sq (nibble q) (rw h l)

pub put_piece-size :
    (p : Position) (i : ℕ) (x : Option Piece) → length (put_piece p i x).board ≡ length p.board
unfolding put_piece
put_piece-size p i none = length-set p.board i 0
put_piece-size p i (some q) = length-set p.board i (nibble q)

-- A nibble shows its piece whole.
pub Shows-nibble : (n : ℕ) (q : Piece) → n < 16 → Shows n q → nibble q ≡ n
unfolding nibble
Shows-nibble n q l s = let c = s.colour in let k = s.kind in ground arith

promoted_table :
    every_below 128 (λ m. bit_or (bit_and (m / 8) 8) (m % 8) == m / 8 / 8 * 8 + m % 8) ≡ true
unfolding every_below
promoted_table = refl

promoted : (n c : ℕ) → n < 16 → c < 8 → bit_or (bit_and n 8) c ≡ n / 8 * 8 + c
promoted n c h l =
    let q : (n * 8 + c) / 8 ≡ n = omega arith in
    let r : (n * 8 + c) % 8 ≡ c = omega arith in
    (==_iff _ _).0 (rw (q, r) at (every_below_lem 128 _ promoted_table (n * 8 + c) (omega arith)))

code-lt : (k : PieceType) → piece_code k < 8
code-lt k = ground arith

placed_nibble :
    (q : Piece) (n : ℕ) (o : Option PieceType)
    → nibble q ≡ n
    → elim o [ none ↦ n | some k ↦ bit_or (bit_and n 8) (piece_code k) ] ≡ nibble (placed_piece q o)
unfolding nibble
placed_nibble q n none e = sym e
placed_nibble q n (some k) e =
    rw (← e) (promoted (nibble q) (piece_code k) (nibble-lt q) (code-lt k) ∙ ground arith)

-- A square of the board after the two steps that every move makes.
pub moved_cell :
    (p : Position) (mv : Move) (q : Piece) (sq : ℕ)
    → length p.board ≡ 64
    → IsOnBoard mv
    → nibble_at (put_piece (put_piece p mv.from none) mv.to (some (placed_piece q mv.promotion))) sq
      ≡ (if sq == mv.to
          then nibble (placed_piece q mv.promotion)
          else if sq == mv.from
          then 0
          else nibble_at p sq)
moved_cell p mv q sq h o =
    put_piece-nibble_at (put_piece p mv.from none) mv.to sq (some (placed_piece q mv.promotion))
      (put_piece-size p mv.from none ∙ h) o.to
    ∙ rw (put_piece-nibble_at p mv.from sq none h o.from) refl

pub moved_size :
    (p : Position) (mv : Move) (q : Piece)
    → length p.board ≡ 64
    → length (put_piece (put_piece p mv.from none) mv.to (some (placed_piece q mv.promotion))).board
      ≡ 64
moved_size p mv q h =
    put_piece-size (put_piece p mv.from none) mv.to (some (placed_piece q mv.promotion))
    ∙ put_piece-size p mv.from none
    ∙ h

-- What the certificate expects, with the nibble of the piece on the destination.
abbrev pub expected_with : ℕ → Position → Move → Shape → ℕ → ℕ
expected_with placed p mv s sq =
    if sq == mv.to
    then placed
    else if (sq == mv.from)
        || ((s.castling && (sq == s.rook_from)) || (s.ep_capture && (sq == s.ep_captured)))
    then 0
    else if s.castling && (sq == s.rook_to)
    then nibble_at p s.rook_from
    else nibble_at p sq

pub expected_placed :
    (p : Position) (mv : Move) (s : Shape) (q : Piece) (sq : ℕ)
    → nibble q ≡ nibble_at p mv.from
    → expected_nibble p mv s sq ≡ expected_with (nibble (placed_piece q mv.promotion)) p mv s sq
unfolding expected_nibble
expected_placed p mv s q sq e =
    ap (λ x. expected_with x p mv s sq) (placed_nibble q (nibble_at p mv.from) mv.promotion e)

-- That, for a move that is neither castling nor en passant, and for those.
pub expected_plain :
    (p : Position) (mv : Move) (s : Shape) (q : Piece) (sq : ℕ)
    → nibble q ≡ nibble_at p mv.from
    → s.castling ≡ false
    → s.ep_capture ≡ false
    → expected_nibble p mv s sq ≡ (
        if sq == mv.to
        then nibble (placed_piece q mv.promotion)
        else if sq == mv.from
        then 0
        else nibble_at p sq)
expected_plain p mv s q sq e c f = expected_placed p mv s q sq e ∙ rw (c, f) (ground arith)

pub expected_en_passant :
    (p : Position) (mv : Move) (s : Shape) (q : Piece) (sq c : ℕ)
    → nibble q ≡ nibble_at p mv.from
    → s.castling ≡ false
    → s.ep_capture ≡ true
    → s.ep_captured ≡ c
    → mv.to ≢ c
    → expected_nibble p mv s sq ≡ (
        if sq == c
        then 0
        else if sq == mv.to
        then nibble (placed_piece q mv.promotion)
        else if sq == mv.from
        then 0
        else nibble_at p sq)
expected_en_passant p mv s q sq c e f g i ne =
    expected_placed p mv s q sq e ∙ rw (f, g, i) (ground arith)

pub expected_castle :
    (p : Position) (mv : Move) (s : Shape) (q : Piece) (sq a b : ℕ)
    → nibble q ≡ nibble_at p mv.from
    → (s.castling ≡ true) × (s.ep_capture ≡ false)
    → s.rook_from ≡ a
    → s.rook_to ≡ b
    → (mv.to ≢ a) × (mv.to ≢ b) × (mv.from ≢ b) × (a ≢ b)
    → expected_nibble p mv s sq ≡ (
        if sq == b
        then nibble_at p a
        else if sq == a
        then 0
        else if sq == mv.to
        then nibble (placed_piece q mv.promotion)
        else if sq == mv.from
        then 0
        else nibble_at p sq)
expected_castle p mv s q sq a b e f i j ne =
    let n1 = ne.0 in
    let n2 = ne.1 in
    let n3 = ne.2 in
    let n4 = ne.3 in expected_placed p mv s q sq e ∙ rw (f.0, f.1, i, j) (ground arith)

-- A pawn's capture of what is not on its destination is en passant, and nothing else is.
pub pawn_plain :
    (p : Position) (a b : ℕ) (us : Colour) (occupied : Bool) (k : Kind)
    → pawn_kind p a b us occupied ≡ ok k
    → is_en_passant k ≡ false
    → ((abs (file_diff a b) != 0) && not occupied) ≡ false
unfolding pawn_kind
pawn_plain p a b us occupied k h e = ground arith

pub pawn_passing :
    (p : Position) (a b c : ℕ) (us : Colour) (occupied : Bool)
    → pawn_kind p a b us occupied ≡ ok (en_passant c)
    → (((abs (file_diff a b) != 0) && not occupied) ≡ true) × (c ≡ step_rank b (backward us))
unfolding pawn_kind
pawn_passing p a b c us occupied h = (ground arith, ground arith)

-- The pawn that is passed does not stand on the destination.
pub passed_elsewhere :
    (p : Position) (a b c : ℕ) (us : Colour) (occupied : Bool)
    → a < 64
    → b < 64
    → pawn_kind p a b us occupied ≡ ok (en_passant c)
    → b ≢ c
unfolding pawn_kind offset
passed_elsewhere p a b c white occupied l m h e = ground arith
passed_elsewhere p a b c black occupied l m h e = ground arith
