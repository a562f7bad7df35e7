-- ===== src/Chess/Certificate/Pieces.antt =====
-- Nibbles and pieces: the certificate of crates/apps/chess reads the one, its rules the other.
use ln_gap.Prelude.{
  ℕ, zero, suc, ◌≡◌, refl, ◌⊎◌, inl, inr, true, false, Option, none, some, List, [], ◌∷◌, All,
  get_or, arith, Result, ok, err, ◌==◌,
}
use ln_gap.Chess.Piece.{
  Colour, white, black, other_colour, colour_eq, Piece, from_nibble, piece_code, colour_of, kind_of,
}
use ln_gap.Chess.Position.{Position, nibble_at, piece_at, is_nibble, holds}
use ln_gap.Chess.Position.Bytes.{IsNibble}
use ln_gap.Chess.Challenges.{is_own, is_enemy}

All-get_or : (P : ℕ → Type 0) (xs : List ℕ) (i d : ℕ) → All P xs → P d → P (get_or xs i d)
All-get_or P [] i d h k = k
All-get_or P (x ∷ xs) zero d h k = h.0
All-get_or P (x ∷ xs) (suc i) d h k = All-get_or P xs i d h.1 k

pub nibble_at-IsNibble : (p : Position) (sq : ℕ) → All IsNibble p.board → IsNibble (nibble_at p sq)
unfolding is_nibble from_nibble
nibble_at-IsNibble p sq h = All-get_or IsNibble p.board sq 0 h (omega arith, refl)

-- The nibble of a piece shows its colour and kind.
pub record Shows (n : ℕ) (q : Piece) : Type 0 where
  pub colour : colour_of n ≡ q.colour
  pub kind : kind_of n ≡ piece_code q.kind
  pub some_piece : (n == 0) ≡ false

from_nibble-Shows : (n : ℕ) (q : Piece) → from_nibble n ≡ ok (some q) → Shows n q
unfolding from_nibble
from_nibble-Shows n q h = record {
  colour = ground arith;
  kind = ground arith;
  some_piece = ground arith;
}

from_nibble-empty : (n : ℕ) → from_nibble n ≡ ok none → n ≡ 0
unfolding from_nibble
from_nibble-empty n h = ground arith

-- A square is empty, or holds a piece that its nibble shows.
pub square-cases :
    (p : Position) (sq : ℕ)
    → IsNibble (nibble_at p sq)
    → ((piece_at p sq ≡ none) × (nibble_at p sq ≡ 0))
      ⊎ ((q : Piece) × (piece_at p sq ≡ some q) × Shows (nibble_at p sq) q)
unfolding is_nibble piece_at
square-cases p sq h = by_result (from_nibble (nibble_at p sq)) refl h.1
  where
    by_result :
        (r : Result ℕ (Option Piece))
        → from_nibble (nibble_at p sq) ≡ r
        → elim r [ ok x ↦ true | err m ↦ false ] ≡ true
        → ((piece_at p sq ≡ none) × (nibble_at p sq ≡ 0))
          ⊎ ((q : Piece) × (piece_at p sq ≡ some q) × Shows (nibble_at p sq) q)
    by_result (err m) e t = cc
    by_result (ok none) e t = inl (rw (e, piece_at) refl, from_nibble-empty (nibble_at p sq) e)
    by_result (ok (some q)) e t =
        inr (q, rw (e, piece_at) refl, from_nibble-Shows (nibble_at p sq) q e)

pub is_own-Shows : (n : ℕ) (q : Piece) (c : Colour) → Shows n q → is_own n c ≡ colour_eq q.colour c
is_own-Shows n q c s = let e = s.colour in let f = s.some_piece in ground arith

pub holds-is_own :
    (p : Position) (c : Colour) (sq : ℕ)
    → IsNibble (nibble_at p sq)
    → holds p c sq ≡ is_own (nibble_at p sq) c
unfolding holds
holds-is_own p c sq h = elim (square-cases p sq h) [
  | inl (e, z) ↦ rw (e, holds, z) refl
  | inr (q, e, s) ↦ rw (e, holds, is_own-Shows (nibble_at p sq) q c s) refl
]

pub enemy-own : (n : ℕ) (c : Colour) → is_enemy n c ≡ is_own n (other_colour c)
enemy-own n white = ground arith
enemy-own n black = ground arith
