-- ===== src/Chess/Certificate/Shapes.antt =====
-- The challenges to a mover, its destination and its promotion: certificate.rs against rules.rs of
-- crates/apps/chess.
use ln_gap.Prelude.{
  ℕ, ◌≡◌, refl, sym, ap, ◌∙◌, inl, inr, Bool, true, false, not, ◌&&◌, ◌||◌, Option, none, some,
  arith, ◌==◌, ◌!=◌, if◌then◌else◌, ==_iff, ok, pos, abs, int_eq,
}
use ln_gap.Chess.Square.{from_fr, rank, rank_diff, file_diff}
use ln_gap.Chess.Piece.{
  Colour, forward, pawn_rank, home_rank, last_rank, PieceType, pawn, knight, bishop, rook, queen,
  king, Piece, piece_code, kind_eq,
}
use ln_gap.Chess.Move.{Move}
use ln_gap.Chess.Position.{Position, nibble_at, piece_at}
use ln_gap.Chess.Position.Bytes.{IsPosition}
use ln_gap.Chess.Classify.{
  Kind, double_forward, is_some, is_ep, moves_so, pawn_kind, pawn_promotion, piece_of,
}
use ln_gap.Chess.Rules.Legal.{IsOnBoard}
use ln_gap.Chess.Certificate.{Shape, shape, mover_ok, destination_ok, check}
use ln_gap.Chess.Challenges.{is_own, shape_attacks, attack_shape, mover, destination, promotion}
use ln_gap.Chess.Certificate.Castle.{castle_king}
use ln_gap.Chess.Certificate.Pieces.{square-cases, nibble_at-IsNibble, is_own-Shows}
use ln_gap.Chess.Certificate.Fields.{ne}
use ln_gap.Chess.Certificate.Mover.{Moves, shape_kind}

-- How a pawn moves, and what it finds.
pawn_shape :
    (p : Position) (a b : ℕ) (us : Colour) (occupied : Bool) (k : Kind)
    → pawn_kind p a b us occupied ≡ ok k
    → ((int_eq (file_diff a b) (pos 0) && int_eq (rank_diff a b) (forward us))
        || ((int_eq (file_diff a b) (pos 0)
              && (int_eq (rank_diff a b) (double_forward us) && (rank a == pawn_rank us)))
            || ((abs (file_diff a b) == 1) && int_eq (rank_diff a b) (forward us))))
      ≡ true
unfolding pawn_kind
pawn_shape p a b us occupied k h = ground arith

pawn_finds :
    (p : Position) (a b : ℕ) (us : Colour) (occupied : Bool) (k : Kind)
    → pawn_kind p a b us occupied ≡ ok k
    → (if int_eq (file_diff a b) (pos 0) then not occupied else occupied || is_ep p b) ≡ true
unfolding pawn_kind
pawn_finds p a b us occupied k h = ground arith

promotion_rule :
    (last : Bool) (o : Option PieceType)
    → pawn_promotion last o ≡ ok tt
    → (if last then not (is_some o) else is_some o) ≡ false
unfolding pawn_promotion
promotion_rule true none h = cc
promotion_rule true (some k) h = refl
promotion_rule false none h = refl
promotion_rule false (some k) h = cc

-- The other pieces move as they attack.
piece_shape :
    (k : PieceType) (a b : ℕ)
    → moves_so k (file_diff a b) (rank_diff a b) ≡ true
    → attack_shape (piece_code k) a b ≡ true
unfolding moves_so attack_shape shape_attacks
piece_shape pawn a b h = cc
piece_shape knight a b h = h
piece_shape bishop a b h = h
piece_shape rook a b h = h
piece_shape queen a b h = h
piece_shape king a b h = h

or_true : (a b : Bool) → a ≡ true → (a || b) ≡ true
or_true a b h = rw h refl

piece_mover :
    (k : PieceType) (p : Position) (mv : Move) (s : Shape)
    → s.kind ≡ piece_code k
    → kind_eq k pawn ≡ false
    → attack_shape (piece_code k) mv.from mv.to ≡ true
    → mover_ok p mv s ≡ true
unfolding mover_ok
piece_mover pawn p mv s e n h = cc
piece_mover knight p mv s e n h = rw e h
piece_mover bishop p mv s e n h = rw e h
piece_mover rook p mv s e n h = rw e h
piece_mover queen p mv s e n h = rw e h
piece_mover king p mv s e n h = rw e (or_true _ _ h)

pawn_mover :
    (p : Position) (mv : Move) (s : Shape)
    → s.kind ≡ 1
    → ((int_eq s.f (pos 0) && int_eq s.r (forward p.side))
        || ((int_eq s.f (pos 0)
              && (int_eq s.r (double_forward p.side) && (rank mv.from == pawn_rank p.side)))
            || ((abs s.f == 1) && int_eq s.r (forward p.side))))
      ≡ true
    → mover_ok p mv s ≡ true
unfolding mover_ok
pawn_mover p mv s e h = rw e h

castle_mover :
    (p : Position) (mv : Move) (s : Shape)
    → s.kind ≡ 6
    → s.castling ≡ true
    → (mv.from == from_fr 4 (home_rank p.side)) ≡ true
    → mover_ok p mv s ≡ true
unfolding mover_ok
castle_mover p mv s e c h = let e' = e in ground arith

pub free_target :
    (p : Position) (sq : ℕ) (c : Colour)
    → IsPosition p
    → piece_of (piece_at p sq) c ≡ false
    → (is_own (nibble_at p sq) c ≡ false) × (is_some (piece_at p sq) ≡ (nibble_at p sq != 0))
free_target p sq c h f = elim (square-cases p sq (nibble_at-IsNibble p sq h.nibbles)) [
  | inl (e, z) ↦ (rw z refl, rw (e, z) refl)
  | inr (r, e, s) ↦ (
    is_own-Shows (nibble_at p sq) r c s ∙ rw e at f,
    rw e (sym (ne (nibble_at p sq) s.some_piece)),
  )
]

pawn_destination :
    (p : Position) (mv : Move) (s : Shape)
    → s.kind ≡ 1
    → is_own (nibble_at p mv.to) p.side ≡ false
    → (if int_eq s.f (pos 0)
        then not (nibble_at p mv.to != 0)
        else (nibble_at p mv.to != 0) || is_ep p mv.to)
      ≡ true
    → destination_ok p mv s ≡ true
unfolding destination_ok
pawn_destination p mv s e f h = let t = nibble_at p mv.to in rw e (ground arith)

piece_destination :
    (p : Position) (mv : Move) (s : Shape)
    → (s.kind == 1) ≡ false
    → is_own (nibble_at p mv.to) p.side ≡ false
    → destination_ok p mv s ≡ true
unfolding destination_ok
piece_destination p mv s e f = rw (e, f) refl

module _ (p n : Position) (mv : Move) (q : Piece) (k : Kind) (h : IsPosition p) (o : IsOnBoard mv)
    (m : Moves p n mv q k) where
  pub mover_unchallenged : check p mv n mover ≡ false
  unfolding check shape mover_ok
  mover_unchallenged = elim m.way [
    | inl a ↦ ap not (
        pawn_mover p mv (shape p mv)
          (shape_kind p n mv q k m ∙ (==_iff (piece_code q.kind) 1).0 a.is_pawn)
          (rw m.own at (pawn_shape p mv.from mv.to q.colour _ k a.moves)))
    | inr (inl c) ↦ ap not (
        castle_mover p mv (shape p mv)
          (shape_kind p n mv q k m ∙ (==_iff (piece_code q.kind) 6).0 (castle_king p mv o q k c))
          (rw (shape_kind p n mv q k m) c.castles) (rw m.own at c.home))
    | inr (inr a) ↦ ap not (
        piece_mover q.kind p mv (shape p mv) (shape_kind p n mv q k m) a.not_pawn
          (piece_shape q.kind mv.from mv.to a.moves))
  ]

  pub promotion_unchallenged : check p mv n promotion ≡ false
  unfolding check
  promotion_unchallenged = elim m.way [
    | inl a ↦
        rw (shape_kind p n mv q k m, a.is_pawn, ← m.own)
          (promotion_rule (rank mv.to == last_rank q.colour) mv.promotion a.promotes)
    | inr (inl c) ↦ rw (shape_kind p n mv q k m, c.not_pawn) c.plain
    | inr (inr a) ↦ rw (shape_kind p n mv q k m, a.not_pawn) a.plain
  ]

  pub destination_unchallenged : check p mv n destination ≡ false
  unfolding check shape destination_ok
  destination_unchallenged =
      let f = rw m.own at (free_target p mv.to q.colour h m.free) in
      elim m.way [
        | inl a ↦ ap not (
            pawn_destination p mv (shape p mv)
              (shape_kind p n mv q k m ∙ (==_iff (piece_code q.kind) 1).0 a.is_pawn) f.0
              (rw f.1 at (pawn_finds p mv.from mv.to q.colour _ k a.moves)))
        | inr (inl c) ↦
            ap not
              (piece_destination p mv (shape p mv) (rw (shape_kind p n mv q k m) c.not_pawn) f.0)
        | inr (inr a) ↦
            ap not
              (piece_destination p mv (shape p mv) (rw (shape_kind p n mv q k m) a.not_pawn) f.0)
      ]
