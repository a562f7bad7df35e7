-- ===== src/Chess/Certificate/Castling.antt =====
-- Castling without a challenge: certificate.rs against castle of rules.rs of crates/apps/chess.
use ln_gap.Prelude.{
  ℕ, zero, suc, ◌+◌, ◌≤◌, ◌<◌, ◌≡◌, refl, sym, ap, ◌∙◌, inl, inr, Bool, true, false, ◌&&◌, ◌||◌,
  none, arith, ◌==◌, ==_iff, ok, All, keep, head?, [], ◌∷◌, &&_true, range_from,
}
use ln_gap.Chess.Square.{from_fr, between}
use ln_gap.Chess.Piece.{Colour, other_colour, home_rank, PieceType, rook, piece_code, kind_of}
use ln_gap.Chess.Move.{Move}
use ln_gap.Chess.Position.{Position, nibble_at, piece_at, is_empty, can_castle, holds}
use ln_gap.Chess.Position.Bytes.{IsPosition}
use ln_gap.Chess.Attack.{attacks, attackers}
use ln_gap.Chess.Classify.{
  castle_kind, is_positive, rook_home, rook_target, piece_is, unattacked, castle,
}
use ln_gap.Chess.Rules.Classify.{IsClear}
use ln_gap.Chess.Certificate.{Shape, castling_ok}
use ln_gap.Chess.Challenges.{is_own, attacks_square}
use ln_gap.Chess.Certificate.Attacks.{attacks_square-attacks}
use ln_gap.Chess.Certificate.Pieces.{square-cases, nibble_at-IsNibble, is_own-Shows}
use ln_gap.Chess.Certificate.Castle.{castle_squares, castle_between}
use ln_gap.Chess.Certificate.Lawful.{All-IsClear}

-- Nothing attacks a square that every challenge spares.
keep_none :
    (f : ℕ → Bool) (a n : ℕ)
    → ((k : ℕ) → a ≤ k → k < a + n → f k ≡ false)
    → keep f (range_from a n) ≡ []
keep_none f a zero h = refl
keep_none f a (suc n) h =
    rw (h a (omega arith) (omega arith))
      (keep_none f (suc a) n (λ k x y. h k (omega arith) (omega arith)))

pub no_attacker :
    (p : Position) (c : Colour) (sq : ℕ)
    → IsPosition p
    → sq < 64
    → ((by : ℕ) → by < 64 → attacks_square p c by sq ≡ false)
    → head? (attackers p sq (other_colour c)) ≡ none
unfolding attackers
no_attacker p c sq h l u = ap head? (
    keep_none (λ x. holds p (other_colour c) x && attacks p x sq) 0 64
      (λ k x y.
        sym
          (attacks_square-attacks p c k sq (nibble_at-IsNibble p k h.nibbles) (omega (arith, y)) l)
        ∙ u k (omega (arith, y))))

pub nibble-piece_is :
    (p : Position) (sq : ℕ) (c : Colour) (k : PieceType)
    → IsPosition p
    → is_own (nibble_at p sq) c ≡ true
    → kind_of (nibble_at p sq) ≡ piece_code k
    → piece_is (piece_at p sq) c k ≡ true
nibble-piece_is p sq c k h o e = elim (square-cases p sq (nibble_at-IsNibble p sq h.nibbles)) [
  | inl (f, z) ↦ cc (rw z at o)
  | inr (r, f, s) ↦
      rw
        (
          f,
          sym (is_own-Shows (nibble_at p sq) r c s) ∙ o,
          (==_iff (piece_code r.kind) (piece_code k)).1 (sym s.kind ∙ e),
        )
        refl
]

three_unattacked :
    (p : Position) (c : Colour) (x y z : ℕ)
    → head? (attackers p x c) ≡ none
    → head? (attackers p y c) ≡ none
    → head? (attackers p z c) ≡ none
    → unattacked p c (x ∷ (y ∷ (z ∷ []))) ≡ ok tt
unfolding unattacked
three_unattacked p c x y z e f g = rw (unattacked, e, f, g) refl

pub castle_accepts :
    (p : Position) (from to : ℕ) (us : Colour) (side : Bool)
    → (from == from_fr 4 (home_rank us)) ≡ true
    → can_castle p us side ≡ true
    → piece_is (piece_at p (rook_home us side)) us rook ≡ true
    → IsClear p from (rook_home us side)
    → head? (attackers p from (other_colour us)) ≡ none
    → head? (attackers p (rook_target us side) (other_colour us)) ≡ none
    → head? (attackers p to (other_colour us)) ≡ none
    → castle p from to us side ≡ ok (castle_kind (rook_home us side) (rook_target us side))
unfolding castle
castle_accepts p from to us side a b c d e f g =
    rw
      (a, b, c, d, three_unattacked p (other_colour us) from (rook_target us side) to e f g, castle)
      refl

pub castle_way-IsClear :
    (p : Position) (a : ℕ) (c : Colour) (side : Bool)
    → a ≡ from_fr 4 (home_rank c)
    → All (λ s. nibble_at p s ≡ 0) (castle_squares c side)
    → IsClear p a (rook_home c side)
castle_way-IsClear p a c side e h = rw e (
    All-IsClear p (between (from_fr 4 (home_rank c)) (rook_home c side))
      (rw (castle_between c side) h))

-- What the check of castling asks.
pub record Asked (p : Position) (mv : Move) (s : Shape) : Type 0 where
  pub home : (mv.from == from_fr 4 (home_rank p.side)) ≡ true
  pub right : can_castle p p.side (is_positive s.f) ≡ true
  pub own : is_own (nibble_at p s.rook_from) p.side ≡ true
  pub kind : kind_of (nibble_at p s.rook_from) ≡ 4
  pub empty : nibble_at p mv.to ≡ 0
  pub beside : (is_positive s.f || is_empty p (from_fr 1 (home_rank p.side))) ≡ true

pub castling-Asked :
    (p : Position) (mv : Move) (s : Shape) → castling_ok p mv s ≡ true → Asked p mv s
unfolding castling_ok
castling-Asked p mv s h =
    let a = &&_true _ _ h in
    let b = &&_true _ _ a.1 in
    let c = &&_true _ _ b.1 in
    let d = &&_true _ _ c.1 in
    let e = &&_true _ _ d.1 in
    record {
      home = a.0;
      right = b.0;
      own = c.0;
      kind = (==_iff _ 4).0 d.0;
      empty = (==_iff _ 0).0 e.0;
      beside = e.1;
    }
