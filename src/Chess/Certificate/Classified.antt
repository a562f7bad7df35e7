-- ===== src/Chess/Certificate/Classified.antt =====
-- Moves without a challenge are classified: certificate.rs against classify of rules.rs of
-- crates/apps/chess.
use ln_gap.Prelude.{
  ℕ, ◌≡◌, refl, inl, inr, Bool, true, false, not, ◌&&◌, ◌||◌, Option, none, some, arith, ◌==◌,
  if◌then◌else◌, Bool-cases, ok, err, Result, pos, abs, int_eq,
}
use ln_gap.Chess.Square.{rank, rank_diff, file_diff}
use ln_gap.Chess.Piece.{
  Colour, forward, pawn_rank, last_rank, PieceType, pawn, Piece, kind_eq, is_promotion_piece,
}
use ln_gap.Chess.Move.{Move}
use ln_gap.Chess.Position.{Position, piece_at, is_empty}
use ln_gap.Chess.Classify.{
  Violation, Kind, normal, capture, double_forward, is_some, is_ep, is_castling, is_positive,
  moves_so, pawn_kind, pawn_promotion, piece_of, piece_kind, castle, classify_pawn, classify_piece,
  classify, step_rank,
}
use ln_gap.Chess.Rules.Classify.{IsClear}

abbrev pub MovesAsPawn : Colour → ℕ → ℕ → Type 0
MovesAsPawn us a b =
    ((int_eq (file_diff a b) (pos 0) && int_eq (rank_diff a b) (forward us))
      || ((int_eq (file_diff a b) (pos 0)
            && (int_eq (rank_diff a b) (double_forward us) && (rank a == pawn_rank us)))
          || ((abs (file_diff a b) == 1) && int_eq (rank_diff a b) (forward us))))
    ≡ true

-- A pawn move of a known shape that finds what it needs is not refused.
pawn_not_refused :
    (p : Position) (a b : ℕ) (us : Colour) (occupied : Bool) (v : Violation)
    → MovesAsPawn us a b
    → (if int_eq (file_diff a b) (pos 0) then not occupied else occupied || is_ep p b) ≡ true
    → (int_eq (file_diff a b) (pos 0) ≡ true
        → int_eq (rank_diff a b) (double_forward us) ≡ true
        → is_empty p (step_rank a (forward us)) ≡ true)
    → pawn_kind p a b us occupied ≡ err v
    → ⊥
unfolding pawn_kind
pawn_not_refused p a b us occupied v s f m e = elim (Bool-cases (int_eq (file_diff a b) (pos 0))) [
  | inr z ↦ ground arith
  | inl z ↦ elim (Bool-cases (int_eq (rank_diff a b) (double_forward us))) [
    | inr w ↦ ground arith
    | inl w ↦ let t = m z w in ground arith
  ]
]

pub pawn_kind_exists :
    (p : Position) (a b : ℕ) (us : Colour) (occupied : Bool)
    → MovesAsPawn us a b
    → (if int_eq (file_diff a b) (pos 0) then not occupied else occupied || is_ep p b) ≡ true
    → (int_eq (file_diff a b) (pos 0) ≡ true
        → int_eq (rank_diff a b) (double_forward us) ≡ true
        → is_empty p (step_rank a (forward us)) ≡ true)
    → (k : Kind) × (pawn_kind p a b us occupied ≡ ok k)
pawn_kind_exists p a b us occupied s f m = by_result (pawn_kind p a b us occupied) refl
  where
    by_result :
        (r : Result Violation Kind)
        → pawn_kind p a b us occupied ≡ r
        → (k : Kind) × (pawn_kind p a b us occupied ≡ ok k)
    by_result (ok k) e = (k, e)
    by_result (err v) e = absurd (pawn_not_refused p a b us occupied v s f m e)

-- Promotions as a word can name them.
pub promotion_allowed :
    (last : Bool) (o : Option PieceType)
    → elim o [ none ↦ true | some k ↦ is_promotion_piece k ] ≡ true
    → (if last then not (is_some o) else is_some o) ≡ false
    → pawn_promotion last o ≡ ok tt
unfolding pawn_promotion
promotion_allowed true none h e = cc
promotion_allowed true (some k) h e = rw h refl
promotion_allowed false none h e = refl
promotion_allowed false (some k) h e = cc

pub pawn_classified :
    (p : Position) (mv : Move) (q : Piece) (k : Kind)
    → kind_eq q.kind pawn ≡ true
    → piece_of (piece_at p mv.to) q.colour ≡ false
    → pawn_kind p mv.from mv.to q.colour (is_some (piece_at p mv.to)) ≡ ok k
    → pawn_promotion (rank mv.to == last_rank q.colour) mv.promotion ≡ ok tt
    → classify p mv q ≡ ok k
unfolding classify classify_pawn
pawn_classified p mv q k e f g h = rw (f, e, classify, g, h, classify_pawn) refl

pub piece_classified :
    (p : Position) (mv : Move) (q : Piece)
    → kind_eq q.kind pawn ≡ false
    → piece_of (piece_at p mv.to) q.colour ≡ false
    → is_some mv.promotion ≡ false
    → is_castling q.kind mv.from mv.to ≡ false
    → moves_so q.kind (file_diff mv.from mv.to) (rank_diff mv.from mv.to) ≡ true
    → IsClear p mv.from mv.to
    → classify p mv q ≡ ok (if is_some (piece_at p mv.to) then capture else normal)
unfolding classify classify_piece piece_kind
piece_classified p mv q e f g c m h =
    rw (f, e, classify, g, c, classify_piece, m, h, piece_kind) refl

pub castle_classified :
    (p : Position) (mv : Move) (q : Piece) (k : Kind)
    → kind_eq q.kind pawn ≡ false
    → piece_of (piece_at p mv.to) q.colour ≡ false
    → is_some mv.promotion ≡ false
    → is_castling q.kind mv.from mv.to ≡ true
    → castle p mv.from mv.to q.colour (is_positive (file_diff mv.from mv.to)) ≡ ok k
    → classify p mv q ≡ ok k
unfolding classify classify_piece
castle_classified p mv q k e f g c m = rw (f, e, classify, g, c, classify_piece, m) refl
