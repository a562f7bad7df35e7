-- ===== src/Chess/Certificate/Kings.antt =====
-- The kings on the board after a move of crates/apps/chess/src/rules.rs, and where they came from.
use mathlib.Core.Path.{subst}
use ln_gap.Prelude.{
  ==_refl, &&_true, ℕ, ◌<◌, ◌≡◌, refl, sym, ◌∙◌, inl, inr, Bool, true, false, ◌&&◌, ◌||◌, Option,
  none, some, arith, ◌==◌, if◌then◌else◌, Bool-cases, ==_iff, ok,
}
use ln_gap.Chess.Square.{file_diff}
use ln_gap.Chess.Piece.{Colour, PieceType, rook, Piece, kind_of, nibble}
use ln_gap.Chess.Move.{Move}
use ln_gap.Chess.Position.{Position, nibble_at, holds_king}
use ln_gap.Chess.Position.Bytes.{IsPosition}
use ln_gap.Chess.Rules.{apply, placed_piece}
use ln_gap.Chess.Classify.{Kind, is_some, is_positive, pawn_promotion, rook_home}
use ln_gap.Chess.Rules.Legal.{IsOnBoard}
use ln_gap.Chess.Rules.Ranges.{apply-IsPosition}
use ln_gap.Chess.Certificate.{shape}
use ln_gap.Chess.Challenges.{is_own}
use ln_gap.Chess.Certificate.Pieces.{nibble_at-IsNibble}
use ln_gap.Chess.Certificate.Mover.{Moves, apply-Moves}
use ln_gap.Chess.Certificate.Board.{Shows-nibble, expected_with, expected_placed}
use ln_gap.Chess.Certificate.Squares.{board_unchallenged}
use ln_gap.Chess.Certificate.Safety.{OneKing, holds_king-nibble, castles_so, piece_is-nibble}
use ln_gap.Chess.Certificate.CastleWay.{board_read}

abbrev shows_king : ℕ → Colour → Bool
shows_king x c = is_own x c && (kind_of x == 6)

promotion_no_king :
    (last : Bool) (q : Piece) (o : Option PieceType) (c : Colour)
    → pawn_promotion last o ≡ ok tt
    → shows_king (nibble (placed_piece q o)) c ≡ true
    → placed_piece q o ≡ q
unfolding pawn_promotion nibble
promotion_no_king last q none c h k = refl
promotion_no_king true q (some x) c h k = ground arith
promotion_no_king false q (some x) c h k = cc

plain_placed : (q : Piece) (o : Option PieceType) → is_some o ≡ false → placed_piece q o ≡ q
plain_placed q none h = refl
plain_placed q (some x) h = cc

cell_cases :
    (emptied rooked : Bool) (x y : ℕ) (c : Colour)
    → shows_king (if emptied then 0 else if rooked then x else y) c ≡ true
    → (rooked ≡ true → shows_king x c ≡ false)
    → (emptied ≡ false) × (shows_king y c ≡ true)
cell_cases true rooked x y c h k = cc
cell_cases false true x y c h k = cc (h, k refl)
cell_cases false false x y c h k = (refl, h)

rook_no_king : (x : ℕ) (c : Colour) → kind_of x ≡ 4 → shows_king x c ≡ false
rook_no_king x c h = ground arith

or_left : (a b : Bool) → (a || b) ≡ false → a ≡ false
or_left a b h = ground arith

module _ (p n : Position) (mv : Move) (q : Piece) (k : Kind) (h : IsPosition p) (v : IsPosition n)
    (o : IsOnBoard mv) (m : Moves p n mv q k) (c : Colour) where
  placed_king :
      shows_king (nibble (placed_piece q mv.promotion)) c ≡ true → placed_piece q mv.promotion ≡ q
  placed_king t = elim m.way [
    | inl a ↦ promotion_no_king _ q mv.promotion c a.promotes t
    | inr (inl a) ↦ plain_placed q mv.promotion a.plain
    | inr (inr a) ↦ plain_placed q mv.promotion a.plain
  ]

  rook_kind : (shape p mv).castling ≡ true → kind_of (nibble_at p (shape p mv).rook_from) ≡ 4
  unfolding shape
  rook_kind t = elim (castles_so p n mv q k m) [
    | inl f ↦ cc (f, t)
    | inr a ↦
        let side = is_positive (file_diff mv.from mv.to) in
        subst (λ x. kind_of (nibble_at p (rook_home x side)) ≡ 4) m.own
          (piece_is-nibble p (rook_home q.colour side) q.colour rook h a.rook).1
  ]

  cell_after :
      (sq : ℕ)
      → nibble_at n sq ≡ expected_with (nibble (placed_piece q mv.promotion)) p mv (shape p mv) sq
  cell_after sq =
      board_read p n mv sq (board_unchallenged p n mv q k sq h o m)
      ∙ expected_placed p mv (shape p mv) q sq
          (Shows-nibble (nibble_at p mv.from) q (nibble_at-IsNibble p mv.from h.nibbles).0 m.shows)

  -- A king off the destination stood there before, and was not moved.
  other_cell :
      (sq : ℕ)
      → (sq == mv.to) ≡ false
      → shows_king (nibble_at n sq) c ≡ true
      → ((sq == mv.from) ≡ false) × (shows_king (nibble_at p sq) c ≡ true)
  other_cell sq e t =
      let s = shape p mv in
      let r =
        cell_cases
          ((sq == mv.from)
            || ((s.castling && (sq == s.rook_from)) || (s.ep_capture && (sq == s.ep_captured))))
          (s.castling && (sq == s.rook_to)) (nibble_at p s.rook_from) (nibble_at p sq) c
          (rw e at (rw (cell_after sq) at t))
          (λ b.
            rook_no_king (nibble_at p s.rook_from) c
              (rook_kind (&&_true s.castling (sq == s.rook_to) b).0)) in
      (or_left (sq == mv.from) _ r.0, r.1)

  cell_to : shows_king (nibble_at n mv.to) c ≡ true → shows_king (nibble_at p mv.from) c ≡ true
  cell_to t =
      let t' = rw (==_refl mv.to) at (rw (cell_after mv.to) at t) in
      let e =
        Shows-nibble (nibble_at p mv.from) q (nibble_at-IsNibble p mv.from h.nibbles).0 m.shows in
      rw (placed_king t', e) at t'

  king_shown :
      (a : Position) (sq : ℕ) → IsPosition a → holds_king a c sq ≡ shows_king (nibble_at a sq) c
  king_shown a sq x = holds_king-nibble a sq c (nibble_at-IsNibble a sq x.nibbles)

  -- A move makes no king.
  moves-OneKing : OneKing p c → OneKing n c
  moves-OneKing u a b la lb ha hb =
      let ta = sym (king_shown n a v) ∙ ha in
      let tb = sym (king_shown n b v) ∙ hb in
      elim (Bool-cases (a == mv.to)) [
        | inl x ↦ elim (Bool-cases (b == mv.to)) [
          | inl y ↦ (==_iff a mv.to).0 x ∙ sym ((==_iff b mv.to).0 y)
          | inr y ↦ absurd (moved_twice b lb y tb (cell_to (rw ((==_iff a mv.to).0 x) at ta)))
        ]
        | inr x ↦ elim (Bool-cases (b == mv.to)) [
          | inl y ↦ absurd (moved_twice a la x ta (cell_to (rw ((==_iff b mv.to).0 y) at tb)))
          | inr y ↦
              u a b la lb (king_shown p a h ∙ (other_cell a x ta).1)
                (king_shown p b h ∙ (other_cell b y tb).1)
        ]
      ]
    where
      moved_twice :
          (s : ℕ)
          → s < 64
          → (s == mv.to) ≡ false
          → shows_king (nibble_at n s) c ≡ true
          → shows_king (nibble_at p mv.from) c ≡ true
          → ⊥
      moved_twice s l e t f =
          let r = other_cell s e t in
          let same = u mv.from s o.from l (king_shown p mv.from h ∙ f) (king_shown p s h ∙ r.1) in
          ground arith

-- A legal move leaves each side at most one king, if it had at most one.
pub apply-OneKing :
    (p n : Position) (mv : Move) (c : Colour)
    → IsPosition p
    → IsOnBoard mv
    → apply p mv ≡ ok n
    → OneKing p c
    → OneKing n c
apply-OneKing p n mv c h o e u =
    let m = apply-Moves p n mv h e in
    moves-OneKing p n mv m.0 m.1 h (apply-IsPosition p n mv h o e).0 o m.2 c u
