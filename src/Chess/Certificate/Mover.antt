-- ===== src/Chess/Certificate/Mover.antt =====
-- The piece that a legal move moves, as the certificate of crates/apps/chess sees it.
use ln_gap.Prelude.{ℕ, ◌≡◌, ◌⊎◌, inl, inr, false, some, ok}
use ln_gap.Chess.Piece.{colour_eq→eq, colour_eq_refl, Piece, piece_code}
use ln_gap.Chess.Move.{Move}
use ln_gap.Chess.Position.{Position, nibble_at, piece_at}
use ln_gap.Chess.Position.Bytes.{IsPosition}
use ln_gap.Chess.Rules.{apply, successor}
use ln_gap.Chess.Classify.{Kind, piece_of}
use ln_gap.Chess.Rules.Legal.{apply-parts}
use ln_gap.Chess.Rules.Classify.{PawnMove, CastleMove, PieceMove, classify-cases}
use ln_gap.Chess.Certificate.{shape}
use ln_gap.Chess.Certificate.Pieces.{Shows, square-cases, nibble_at-IsNibble, is_own-Shows}

-- A legal move of a piece, and the position after it.
pub record Moves (p n : Position) (mv : Move) (q : Piece) (k : Kind) : Type 0 where
  pub shows : Shows (nibble_at p mv.from) q
  pub own : q.colour ≡ p.side
  pub free : piece_of (piece_at p mv.to) q.colour ≡ false
  pub way : PawnMove p mv q k ⊎ (CastleMove p mv q k ⊎ PieceMove p mv q k)
  pub next : n ≡ successor p mv q k

mover-Shows :
    (p : Position) (sq : ℕ) (q : Piece)
    → IsPosition p
    → piece_at p sq ≡ some q
    → Shows (nibble_at p sq) q
mover-Shows p sq q h e = elim (square-cases p sq (nibble_at-IsNibble p sq h.nibbles)) [
  | inl (f, z) ↦ cc
  | inr (r, f, s) ↦ let same : r ≡ q = cc in rw same at s
]

pub apply-Moves :
    (p n : Position) (mv : Move)
    → IsPosition p
    → apply p mv ≡ ok n
    → (q : Piece) × (k : Kind) × Moves p n mv q k
apply-Moves p n mv h e =
    let a = apply-parts p n mv e in
    let c = classify-cases p mv a.0 a.1 a.4 in
    (
      a.0,
      a.1,
      record {
        shows = mover-Shows p mv.from a.0 h a.2;
        own = colour_eq→eq a.0.colour p.side a.3;
        free = c.0;
        way = c.1;
        next = a.6;
      },
    )

pub shape_kind_of :
    (p : Position) (mv : Move) (q : Piece)
    → Shows (nibble_at p mv.from) q
    → q.colour ≡ p.side
    → (shape p mv).kind ≡ piece_code q.kind
unfolding shape
shape_kind_of p mv q s c =
    rw (is_own-Shows (nibble_at p mv.from) q p.side s, c, colour_eq_refl p.side) s.kind

pub shape_kind :
    (p n : Position) (mv : Move) (q : Piece) (k : Kind)
    → Moves p n mv q k
    → (shape p mv).kind ≡ piece_code q.kind
shape_kind p n mv q k m = shape_kind_of p mv q m.shows m.own
