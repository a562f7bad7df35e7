-- ===== src/Chess/Position/Bytes.antt =====
-- The 40 bytes of a position: `to_bytes` and `from_bytes` of crates/apps/chess/src/position.rs.
use Prim.Native.Nat.{bit_or}
use native.Mathlib.Nat.{zero-add, suc-add}
use ln_gap.Prelude.{
  ℕ, zero, suc, ◌+◌, ◌*◌, ◌/◌, ◌%◌, ◌<◌, ◌≡◌, refl, sym, ap, ◌∙◌, true, Option, none, some, List,
  [], ◌∷◌, ◌++◌, ltb, leb, arith, length, All, take, drop, get_or, ok, join_nibbles, take_prefix,
  drop_prefix, get_or_suffix,
}
use ln_gap.Chess.Square.{new_square}
use ln_gap.Chess.Piece.{Colour, white, black}
use ln_gap.Chess.Position.{
  Position, is_nibble, pack_board, to_bytes, from_bytes, read_squares, read_side, read_ep,
  zero_from, side_byte, ep_byte,
}

abbrev pub IsNibble : ℕ → Type 0
IsNibble n = (n < 16) × (is_nibble n ≡ true)

-- A position whose fields are in their ranges.
pub record IsPosition (p : Position) : Type 0 where
  pub size : length p.board ≡ 64
  pub nibbles : All IsNibble p.board
  pub castling : p.castling < 16
  pub ep : elim p.ep [ none ↦ true | some sq ↦ ltb sq 64 ] ≡ true
  pub halfmove : p.halfmove < 256
  pub fullmove : p.fullmove < 65536

joined : (a b : ℕ) → a < 16 → b < 16 → bit_or (a * 16 % 256) b ≡ a * 16 + b
joined a b h k =
    let hi : (a * 16 + b) / 16 ≡ a = omega arith in
    let lo : (a * 16 + b) % 16 ≡ b = omega arith in
    rw
      (
        ap (λ x. bit_or (x * 16 % 256) b) (sym hi),
        ap (λ x. bit_or ((a * 16 + b) / 16 * 16 % 256) x) (sym lo),
      )
      (join_nibbles (a * 16 + b) (omega arith))

length-pack_board : (ns : List ℕ) (k : ℕ) → length ns ≡ k + k → length (pack_board ns) ≡ k
unfolding pack_board
length-pack_board [] k e = omega (arith, e)
length-pack_board (a ∷ []) k e = absurd (omega (arith, e))
length-pack_board (a ∷ b ∷ ns) zero e = absurd (omega (arith, e))
length-pack_board (a ∷ b ∷ ns) (suc k) e = ap suc (length-pack_board ns k (omega (arith, e)))

read_squares-pack_board :
    (ns : List ℕ) (i k : ℕ)
    → length ns ≡ k + k
    → All IsNibble ns
    → read_squares i (pack_board ns) ≡ ok ns
unfolding read_squares pack_board
read_squares-pack_board [] i k e h = refl
read_squares-pack_board (a ∷ []) i k e h = absurd (omega (arith, e))
read_squares-pack_board (a ∷ b ∷ ns) i zero e h = absurd (omega (arith, e))
read_squares-pack_board (a ∷ b ∷ ns) i (suc k) e h =
    let j = joined a b h.0.0 h.1.0.0 in
    let hi : bit_or (a * 16 % 256) b / 16 ≡ a = omega (arith, j, h.0.0, h.1.0.0) in
    let lo : bit_or (a * 16 % 256) b % 16 ≡ b = omega (arith, j, h.0.0, h.1.0.0) in
    rw (hi, lo, h.0.1, h.1.0.1, read_squares-pack_board ns (suc i) k (omega (arith, e)) h.1.1) refl

-- The eight bytes after the board.
abbrev tail_bytes : Position → List ℕ
tail_bytes p =
    side_byte p.side
    ∷ (p.castling
        ∷ (ep_byte p.ep
            ∷ (p.halfmove ∷ (p.fullmove / 256 % 256 ∷ (p.fullmove % 256 ∷ (0 ∷ (0 ∷ [])))))))

read_side-side_byte : (c : Colour) → read_side (side_byte c) ≡ ok c
read_side-side_byte white = refl
read_side-side_byte black = refl

read_ep-ep_byte :
    (e : Option ℕ)
    → elim e [ none ↦ true | some sq ↦ ltb sq 64 ] ≡ true
    → read_ep (ep_byte e) ≡ ok e
unfolding new_square
read_ep-ep_byte none h = refl
read_ep-ep_byte (some sq) h = ground arith

drop-nil : (n : ℕ) → drop {A = ℕ} n [] ≡ []
drop-nil zero = refl
drop-nil (suc n) = refl

drop_add : (m n : ℕ) (xs : List ℕ) → drop (m + n) xs ≡ drop n (drop m xs)
drop_add zero n xs = rw zero-add
drop_add (suc m) n [] = rw (suc-add, drop-nil n)
drop_add (suc m) n (x ∷ xs) = rw suc-add (drop_add m n xs)

-- What `from_bytes` reads, part by part.
from_bytes_parts :
    (b board : List ℕ) (side : Colour) (ep : Option ℕ)
    → read_squares 0 (take 32 b) ≡ ok board
    → read_side (get_or b 32 0) ≡ ok side
    → leb (get_or b 33 0) 15 ≡ true
    → read_ep (get_or b 34 0) ≡ ok ep
    → zero_from 38 (drop 38 b) ≡ ok tt
    → from_bytes b
      ≡ ok (record {
        board = board;
        side = side;
        castling = get_or b 33 0;
        ep = ep;
        halfmove = get_or b 35 0;
        fullmove = get_or b 36 0 * 256 + get_or b 37 0;
      })
unfolding from_bytes
from_bytes_parts b board side ep r s c e z = rw (r, s, c, e, z) refl

module _ (p : Position) (h : IsPosition p) where
  length-packed : length (pack_board p.board) ≡ 32
  length-packed = length-pack_board p.board 32 (omega (arith, h.size))

  byte_at : (i : ℕ) → get_or (to_bytes p) (32 + i) 0 ≡ get_or (tail_bytes p) i 0
  unfolding to_bytes
  byte_at i = get_or_suffix 32 (pack_board p.board) (tail_bytes p) i 0 length-packed

  board_back : read_squares 0 (take 32 (to_bytes p)) ≡ ok p.board
  unfolding to_bytes
  board_back =
      rw (take_prefix 32 (pack_board p.board) (tail_bytes p) length-packed)
        (read_squares-pack_board p.board 0 32 (omega (arith, h.size)) h.nibbles)

  zeros_back : zero_from 38 (drop 38 (to_bytes p)) ≡ ok tt
  unfolding to_bytes zero_from
  zeros_back =
      rw
        (
          drop_add 32 6 (pack_board p.board ++ tail_bytes p),
          drop_prefix 32 (pack_board p.board) (tail_bytes p) length-packed,
        )
        refl

  -- A position whose fields are in their ranges is read back from its bytes.
  pub from_bytes-to_bytes : from_bytes (to_bytes p) ≡ ok p
  from_bytes-to_bytes =
      let c = h.castling in
      let f = h.fullmove in
      let whole : p.fullmove / 256 % 256 * 256 + p.fullmove % 256 ≡ p.fullmove = omega arith in
      from_bytes_parts (to_bytes p) p.board p.side p.ep board_back
        (rw (byte_at 0) (read_side-side_byte p.side)) (rw (byte_at 1) (ground arith))
        (ap read_ep (byte_at 2) ∙ read_ep-ep_byte p.ep h.ep) zeros_back
      ∙ rw (byte_at 1, byte_at 3, byte_at 4, byte_at 5, whole) refl
