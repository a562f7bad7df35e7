-- ===== src/Chess/Certificate/Fields.antt =====
-- The challenges to the fields of a successor: certificate.rs against rules.rs of crates/apps/chess.
use Prim.Native.Nat.{min}
use ln_gap.Prelude.{
  ℕ, ◌+◌, ◌<◌, ◌≡◌, refl, inl, inr, Bool, true, false, ◌&&◌, ◌||◌, none, some, arith, ◌==◌, ◌!=◌,
  if◌then◌else◌, Bool-cases, ok, pos, negsuc, int_eq,
}
use ln_gap.Chess.Square.{offset, rank_diff}
use ln_gap.Chess.Piece.{
  Colour, white, black, other_colour, colour_eq, colour_eq_refl, forward, pawn, king, Piece,
  piece_code, kind_eq,
}
use ln_gap.Chess.Move.{Move}
use ln_gap.Chess.Position.{Position, nibble_at, piece_at}
use ln_gap.Chess.Position.Bytes.{IsPosition}
use ln_gap.Chess.Rules.{castling_after, is_double_push, is_capture, successor}
use ln_gap.Chess.Classify.{Kind, double_forward, step_rank, is_some, pawn_kind}
use ln_gap.Chess.Rules.Legal.{IsOnBoard}
use ln_gap.Chess.Rules.Verify.{ep_eq_refl}
use ln_gap.Chess.Certificate.{cleared_bits, shape, check}
use ln_gap.Chess.Challenges.{step, side, castling_field, ep_field, clock, move_number}
use ln_gap.Chess.Certificate.Rights.{same_castling}
use ln_gap.Chess.Certificate.Castle.{castle_target_empty}
use ln_gap.Chess.Certificate.Pieces.{square-cases, nibble_at-IsNibble}
use ln_gap.Chess.Certificate.Mover.{Moves, shape_kind}

-- What a pawn's kind says of its move.
pub pawn_double :
    (p : Position) (a b : ℕ) (us : Colour) (occupied : Bool) (k : Kind)
    → pawn_kind p a b us occupied ≡ ok k
    → is_double_push k ≡ int_eq (rank_diff a b) (double_forward us)
unfolding pawn_kind
pawn_double p a b white occupied k h = ground arith
pawn_double p a b black occupied k h = ground arith

-- The square behind a double push.
pub double_step :
    (p : Position) (a b : ℕ) (us : Colour) (occupied : Bool) (k : Kind)
    → a < 64
    → pawn_kind p a b us occupied ≡ ok k
    → is_double_push k ≡ true
    → step_rank a (forward us) ≡ step a (elim us [ white ↦ pos 8 | black ↦ negsuc 7 ]) 1
unfolding pawn_kind offset
double_step p a b white occupied k lt h d = ground arith
double_step p a b black occupied k lt h d = ground arith

pub ne : (n : ℕ) → (n == 0) ≡ false → (n != 0) ≡ true
ne n h = ground arith

-- A capture is a move to a square that holds a piece, or a pawn's.
same_reset :
    (p n : Position) (mv : Move) (q : Piece) (k : Kind)
    → IsPosition p
    → IsOnBoard mv
    → Moves p n mv q k
    → (kind_eq q.kind pawn || is_capture k) ≡ ((piece_code q.kind == 1) || (nibble_at p mv.to != 0))
same_reset p n mv q k h o m = elim m.way [
  | inl a ↦ rw a.is_pawn refl
  | inr (inl c) ↦ rw (c.kind, castle_target_empty p mv o q k c) refl
  | inr (inr a) ↦ elim (square-cases p mv.to (nibble_at-IsNibble p mv.to h.nibbles)) [
    | inl (e, z) ↦ rw (a.kind, e, z) refl
    | inr (r, e, s) ↦ rw (a.not_pawn, a.kind, e, ne (nibble_at p mv.to) s.some_piece) refl
  ]
]

pub same_ne : (a b : ℕ) → a ≡ b → (a != b) ≡ false
same_ne a b e = ground arith

same_number :
    (c : Colour) (n : ℕ)
    → n < 65536
    → (if colour_eq c black then min (n + 1) 65535 else n)
      ≡ min (n + elim c [ white ↦ 0 | black ↦ 1 ]) 65535
same_number white n h = omega arith
same_number black n h = refl

module _ (p n : Position) (mv : Move) (q : Piece) (k : Kind) (h : IsPosition p) (o : IsOnBoard mv)
    (m : Moves p n mv q k) where
  -- The double pushes of the rules are those of the certificate, with the same square behind them.
  same_ep : (if is_double_push k then some (step_rank mv.from (forward q.colour)) else none) ≡ (
      if (piece_code q.kind == 1) && int_eq (rank_diff mv.from mv.to) (double_forward q.colour)
      then some (step mv.from (elim q.colour [ white ↦ pos 8 | black ↦ negsuc 7 ]) 1)
      else none)
  same_ep = elim m.way [
    | inl a ↦ elim (Bool-cases (is_double_push k)) [
      | inl e ↦
          rw
            (
              a.is_pawn,
              ← (pawn_double p mv.from mv.to q.colour _ k a.moves),
              e,
              double_step p mv.from mv.to q.colour _ k o.from a.moves e,
            )
            refl
      | inr e ↦ rw (a.is_pawn, ← (pawn_double p mv.from mv.to q.colour _ k a.moves), e) refl
    ]
    | inr (inl c) ↦ rw (c.kind, c.not_pawn) refl
    | inr (inr a) ↦ elim (Bool-cases (is_some (piece_at p mv.to))) [
      | inl e ↦ rw (a.kind, a.not_pawn, e) refl
      | inr e ↦ rw (a.kind, a.not_pawn, e) refl
    ]
  ]

  pub ep_unchallenged : check p mv n ep_field ≡ false
  unfolding check shape successor
  ep_unchallenged = rw (shape_kind p n mv q k m, m.next, ← m.own, ← same_ep, ep_eq_refl) refl

  pub clock_unchallenged : check p mv n clock ≡ false
  unfolding check successor
  clock_unchallenged =
      rw (shape_kind p n mv q k m, m.next, same_reset p n mv q k h o m) (same_ne _ _ refl)

  pub side_unchallenged : check p mv n side ≡ false
  unfolding check successor
  side_unchallenged = rw (m.next, m.own, colour_eq_refl (other_colour p.side)) refl

  pub number_unchallenged : check p mv n move_number ≡ false
  unfolding check successor
  number_unchallenged =
      rw (m.next, ← m.own) (same_ne _ _ (same_number q.colour p.fullmove h.fullmove))

  pub castling_unchallenged : check p mv n castling_field ≡ false
  unfolding check successor cleared_bits castling_after
  castling_unchallenged =
      rw (shape_kind p n mv q k m, m.next, ← m.own)
        (same_ne _ _ (same_castling p.castling q.colour (kind_eq q.kind king) mv h.castling))
