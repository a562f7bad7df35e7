-- ===== src/Chess/Rules/Legal.antt =====
-- What a legal move keeps: positions in their ranges, and a king that is not attacked.
use ln_gap.Prelude.{
  head?, keep, any, ap, Bool-cases, inl, inr, ℕ, zero, suc, ◌+◌, ◌*◌, ◌/◌, ◌%◌, ◌&&◌, ◌<◌, ◌≡◌,
  refl, ◌∙◌, Bool, true, false, Option, none, some, List, [], ◌∷◌, arith, ltb, ltb→lt, length, set,
  All, length-set, every_below, every_below_lem, ok, >>=-eq-ok, ensure-eq-ok, >>-eq-ok,
  Option-cases,
}
use ln_gap.Chess.Square.{all_squares}
use ln_gap.Chess.Piece.{Colour, other_colour, colour_eq, rook, Piece, nibble, from_nibble}
use ln_gap.Chess.Move.{Move}
use ln_gap.Chess.Codecs.{from_nibble-nibble}
use ln_gap.Chess.Position.{Position, holds, holds_king, put_piece, is_nibble, piece_at, king_square}
use ln_gap.Chess.Position.Bytes.{IsNibble}
use ln_gap.Chess.Attack.{attacks, in_check, is_attacked, attackers}
use ln_gap.Chess.Rules.{move_board, successor, king_safe, apply, clear_bits, placed_piece}
use ln_gap.Chess.Classify.{
  Kind, normal, capture, double_push, en_passant, castle_kind, no_piece_of_mover, classify,
}

-- The squares of a move are on the board.
pub record IsOnBoard (m : Move) : Type 0 where
  pub from : m.from < 64
  pub to : m.to < 64

pub nibble-lt : (q : Piece) → nibble q < 16
unfolding nibble
nibble-lt q = ground arith

nibble-IsNibble : (q : Piece) → IsNibble (nibble q)
unfolding is_nibble
nibble-IsNibble q = (nibble-lt q, rw (from_nibble-nibble q, is_nibble) refl)

zero-IsNibble : IsNibble 0
unfolding is_nibble from_nibble
zero-IsNibble = (omega arith, refl)

All-set : (P : ℕ → Type 0) (xs : List ℕ) (i v : ℕ) → All P xs → P v → All P (set xs i v)
All-set P [] i v h k = tt
All-set P (x ∷ xs) zero v h k = (k, h.1)
All-set P (x ∷ xs) (suc i) v h k = (h.0, All-set P xs i v h.1 k)

-- A board of 64 valid nibbles.
pub record IsBoard (p : Position) : Type 0 where
  pub size : length p.board ≡ 64
  pub nibbles : All IsNibble p.board

put_piece-IsBoard :
    (p : Position) (sq : ℕ) (piece : Option Piece) → IsBoard p → IsBoard (put_piece p sq piece)
unfolding put_piece
put_piece-IsBoard p sq none h = record {
  size = length-set p.board sq 0 ∙ h.size;
  nibbles = All-set IsNibble p.board sq 0 h.nibbles zero-IsNibble;
}
put_piece-IsBoard p sq (some q) h = record {
  size = length-set p.board sq (nibble q) ∙ h.size;
  nibbles = All-set IsNibble p.board sq (nibble q) h.nibbles (nibble-IsNibble q);
}

pub move_board-IsBoard :
    (p : Position) (mv : Move) (piece : Piece) (k : Kind)
    → IsBoard p
    → IsBoard (move_board p mv piece k)
unfolding move_board
move_board-IsBoard p mv piece k h = by_kind k
  where
    moved :
        IsBoard
          (put_piece (put_piece p mv.from none) mv.to (some (placed_piece piece mv.promotion)))
    moved =
        put_piece-IsBoard (put_piece p mv.from none) mv.to (some (placed_piece piece mv.promotion))
          (put_piece-IsBoard p mv.from none h)

    by_kind : (kind : Kind) → IsBoard (move_board p mv piece kind)
    by_kind normal = moved
    by_kind capture = moved
    by_kind double_push = moved
    by_kind (en_passant c) = put_piece-IsBoard _ c none moved
    by_kind (castle_kind f t) =
        put_piece-IsBoard _ t (some (record { colour = piece.colour; kind = rook }))
          (put_piece-IsBoard _ f none moved)

clear_table : every_below 256 (λ n. ltb (clear_bits (n / 16) (n % 16)) 16) ≡ true
unfolding every_below
clear_table = refl

pub clear_bits-lt : (c b : ℕ) → c < 16 → b < 16 → clear_bits c b < 16
clear_bits-lt c b h k =
    let q : (c * 16 + b) / 16 ≡ c = omega arith in
    let r : (c * 16 + b) % 16 ≡ b = omega arith in
    let t = every_below_lem 256 _ clear_table (c * 16 + b) (omega arith) in
    ltb→lt (clear_bits c b) 16 (rw (q, r) at t)

-- What `apply` accepts, taken apart.
pub apply-parts :
    (p n : Position) (mv : Move)
    → apply p mv ≡ ok n
    → (piece : Piece) × (kind : Kind) × (piece_at p mv.from ≡ some piece)
      × (colour_eq piece.colour p.side ≡ true)
      × (classify p mv piece ≡ ok kind)
      × (king_safe (move_board p mv piece kind) p.side ≡ ok tt)
      × (n ≡ successor p mv piece kind)
unfolding apply
apply-parts p n mv h = elim (Option-cases (piece_at p mv.from)) [
  | inl e ↦ cc (rw (e, apply) at h)
  | inr (piece, e) ↦
      let h' = rw (e, apply) at h in
      let a = ensure-eq-ok (colour_eq piece.colour p.side) (no_piece_of_mover mv.from) _ h' in
      let b = >>=-eq-ok (classify p mv piece) _ a.1 in
      let c = >>-eq-ok (king_safe (move_board p mv piece b.0) p.side) _ b.2 in
      (piece, b.0, e, a.0, b.1, c.0, cc c.1)
]

pub head?-keep {ℓ} :
    {A : Type ℓ} (f : A → Bool) (xs : List A) → head? (keep f xs) ≡ none → any f xs ≡ false
head?-keep f [] h = refl
head?-keep f (x ∷ xs) h = elim (Bool-cases (f x)) [
  | inl e ↦ cc (rw (e, keep) at h)
  | inr e ↦ rw e (head?-keep f xs (rw (e, keep) at h))
]

king_safe-in_check : (n : Position) (c : Colour) → king_safe n c ≡ ok tt → in_check n c ≡ false
unfolding king_safe in_check attackers is_attacked
king_safe-in_check n c h = elim (Option-cases (king_square n c)) [
  | inl e ↦ rw (e, in_check) refl
  | inr (k, e) ↦ elim (Option-cases (head? (attackers n k (other_colour c)))) [
    | inl f ↦
        rw (e, in_check)
          (head?-keep (λ x. holds n (other_colour c) x && attacks n x k) all_squares f)
    | inr (by, f) ↦ cc (rw (e, f, king_safe) at h)
  ]
]

pub same_board-in_check :
    (n m : Position) (c : Colour) → n.board ≡ m.board → in_check n c ≡ in_check m c
unfolding in_check is_attacked attacks holds king_square holds_king piece_at
same_board-in_check n m c e = rw e refl

-- A move that the rules accept leaves its mover's king out of check.
pub apply_leaves_no_check :
    (p n : Position) (mv : Move) → apply p mv ≡ ok n → in_check n p.side ≡ false
unfolding successor
apply_leaves_no_check p n mv h =
    let a = apply-parts p n mv h in
    same_board-in_check n (move_board p mv a.0 a.1) p.side (ap (λ (q : Position). q.board) a.6)
    ∙ king_safe-in_check (move_board p mv a.0 a.1) p.side a.5
