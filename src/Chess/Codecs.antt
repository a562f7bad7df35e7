-- ===== src/Chess/Codecs.antt =====
-- The nibble of a piece and the word of a move, both ways: piece.rs and mv.rs of crates/apps/chess.
use ln_gap.Prelude.{
  ℕ, ◌+◌, ◌*◌, ◌/◌, ◌%◌, ◌^◌, ◌<◌, ◌≡◌, refl, true, Option, none, some, ok, arith, >>=-eq-ok,
  ensure-eq-ok, ◌==◌,
}
use ln_gap.Chess.Piece.{
  Colour, white, black, PieceType, pawn, knight, bishop, rook, queen, king, Piece, nibble,
  from_nibble, from_code, is_promotion_piece,
}
use ln_gap.Chess.Move.{Move, spare_bit, to_u16, from_u16, read_promotion, promotion_bits}

-- A piece is read back from its nibble.
pub from_nibble-nibble : (p : Piece) → from_nibble (nibble p) ≡ ok (some p)
unfolding from_nibble nibble
from_nibble-nibble p = by_parts p.colour p.kind
  where
    by_parts :
        (c : Colour) (k : PieceType)
        → from_nibble (nibble (record { colour = c; kind = k }))
          ≡ ok (some (record { colour = c; kind = k }))
    by_parts white pawn = refl
    by_parts white knight = refl
    by_parts white bishop = refl
    by_parts white rook = refl
    by_parts white queen = refl
    by_parts white king = refl
    by_parts black pawn = refl
    by_parts black knight = refl
    by_parts black bishop = refl
    by_parts black rook = refl
    by_parts black queen = refl
    by_parts black king = refl

-- A nibble that is read as a piece is the nibble of that piece.
pub nibble-from_nibble : (n : ℕ) (p : Piece) → n < 16 → from_nibble n ≡ ok (some p) → nibble p ≡ n
unfolding from_nibble nibble
nibble-from_nibble n p lt h = ground arith

-- The fields of a move fit.
pub record IsMoveWord (m : Move) : Type 0 where
  pub from : m.from < 64
  pub to : m.to < 64
  pub promotion : elim m.promotion [ none ↦ true | some k ↦ is_promotion_piece k ] ≡ true

promotion_code_lem :
    (o : Option PieceType)
    → elim o [ none ↦ true | some k ↦ is_promotion_piece k ] ≡ true
    → (read_promotion (promotion_bits o) ≡ ok o) × (promotion_bits o < 6)
unfolding read_promotion
promotion_code_lem none h = (refl, omega arith)
promotion_code_lem (some pawn) h = cc
promotion_code_lem (some knight) h = (refl, omega arith)
promotion_code_lem (some bishop) h = (refl, omega arith)
promotion_code_lem (some rook) h = (refl, omega arith)
promotion_code_lem (some queen) h = (refl, omega arith)
promotion_code_lem (some king) h = cc

read_promotion_lem :
    (c : ℕ) (o : Option PieceType)
    → read_promotion c ≡ ok o
    → (promotion_bits o ≡ c) × (elim o [ none ↦ true | some k ↦ is_promotion_piece k ] ≡ true)
unfolding read_promotion from_code
read_promotion_lem c none h = ground arith
read_promotion_lem c (some k) h = ground arith

-- A move between two squares of the board, with a promotion piece or none, is read back from its
-- word.
pub from_u16-to_u16 : (m : Move) → IsMoveWord m → from_u16 (to_u16 m) ≡ ok m
unfolding from_u16 to_u16
from_u16-to_u16 m h =
    let p = promotion_code_lem m.promotion h.promotion in
    let w : ℕ = m.from + m.to * 2 ^ 6 + promotion_bits m.promotion * 2 ^ 12 in
    let a = h.from in
    let b = h.to in
    let code : w / 2 ^ 12 % 8 ≡ promotion_bits m.promotion = omega (arith, p.1) in
    let spare : w / 2 ^ 15 ≡ 0 = omega (arith, p.1) in
    let source : w % 64 ≡ m.from = omega (arith, p.1) in
    let target : w / 2 ^ 6 % 64 ≡ m.to = omega (arith, p.1) in
    rw (code, p.0, spare, source, target) refl

-- A word that is read as a move is the word of that move, whose fields fit.
pub to_u16-from_u16 : (w : ℕ) (m : Move) → from_u16 w ≡ ok m → (to_u16 m ≡ w) × IsMoveWord m
unfolding from_u16 to_u16
to_u16-from_u16 w m h =
    let p = >>=-eq-ok (read_promotion (w / 2 ^ 12 % 8)) _ h in
    let q = ensure-eq-ok (w / 2 ^ 15 == 0) spare_bit _ p.2 in
    let r = read_promotion_lem (w / 2 ^ 12 % 8) p.0 p.1 in
    let e : record { from = w % 64; to = w / 2 ^ 6 % 64; promotion = p.0 } ≡ m = cc q.1 in
    rw (← e)
      (ground (arith, q.0, r.0), record { from = omega arith; to = omega arith; promotion = r.1 })
