-- ===== src/Chess/Piece.antt =====
-- crates/apps/chess/src/piece.rs: colours, kinds and pieces, and the nibble that holds a piece.
use ln_gap.Prelude.{
  ℕ, ◌+◌, ◌/◌, ◌%◌, Bool, true, false, Option, none, some, ◌==◌, if◌then◌else◌, ◌≡◌, refl, Result,
  ok, err, ℤ, pos, negsuc,
}

pub data Colour : Type 0 where
  white black : Colour

abbrev pub other_colour : Colour → Colour
other_colour white = black
other_colour black = white

abbrev pub colour_eq : Colour → Colour → Bool
colour_eq white white = true
colour_eq white black = false
colour_eq black white = false
colour_eq black black = true

abbrev pub forward : Colour → ℤ
forward white = pos 1
forward black = negsuc 0

abbrev pub pawn_rank : Colour → ℕ
pawn_rank white = 1
pawn_rank black = 6

abbrev pub home_rank : Colour → ℕ
home_rank white = 0
home_rank black = 7

abbrev pub last_rank : Colour → ℕ
last_rank c = home_rank (other_colour c)

pub data PieceType : Type 0 where
  pawn knight bishop rook queen king : PieceType

unfoldable pub from_code : ℕ → Option PieceType
from_code c =
    if c == 1
    then some pawn
    else if c == 2
    then some knight
    else if c == 3
    then some bishop
    else if c == 4
    then some rook
    else if c == 5
    then some queen
    else if c == 6
    then some king
    else none

abbrev pub piece_code : PieceType → ℕ
piece_code pawn = 1
piece_code knight = 2
piece_code bishop = 3
piece_code rook = 4
piece_code queen = 5
piece_code king = 6

abbrev pub is_promotion_piece : PieceType → Bool
is_promotion_piece pawn = false
is_promotion_piece knight = true
is_promotion_piece bishop = true
is_promotion_piece rook = true
is_promotion_piece queen = true
is_promotion_piece king = false

abbrev pub kind_eq : PieceType → PieceType → Bool
kind_eq a b = piece_code a == piece_code b

pub record Piece : Type 0 where
  pub colour : Colour
  pub kind : PieceType

-- `c | self.kind.code()`, where a code is below 8
unfoldable pub nibble : Piece → ℕ
nibble p = elim p.colour [ white ↦ 0 | black ↦ 8 ] + piece_code p.kind

-- `n & 8 != 0` and `n & 7`
abbrev pub colour_of : ℕ → Colour
colour_of n = if n / 8 % 2 == 1 then black else white

abbrev pub kind_of : ℕ → ℕ
kind_of n = n % 8

unfoldable pub from_nibble : ℕ → Result ℕ (Option Piece)
unfolding from_code
from_nibble n = if n == 0 then ok none else elim (from_code (kind_of n)) [
  | some kind ↦ ok (some (record { colour = colour_of n; kind = kind }))
  | none ↦ err n
]

pub colour_eq→eq : (a b : Colour) → colour_eq a b ≡ true → a ≡ b
colour_eq→eq white white h = refl
colour_eq→eq white black h = cc
colour_eq→eq black white h = cc
colour_eq→eq black black h = refl

pub colour_eq_refl : (a : Colour) → colour_eq a a ≡ true
colour_eq_refl white = refl
colour_eq_refl black = refl
