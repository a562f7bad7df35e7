-- ===== src/Chess/Certificate/Safety.antt =====
-- The challenges to castling and to the safety of the king: certificate.rs against rules.rs of
-- crates/apps/chess.
use mathlib.Core.Path.{subst}
use ln_gap.Prelude.{
  ℕ, ◌<◌, ◌≡◌, refl, sym, ap, ◌∙◌, ◌⊎◌, inl, inr, Bool, true, false, not, ◌&&◌, ◌||◌, none, some,
  arith, ◌==◌, Bool-cases, Option-cases, ==_iff, ok, abs, signum, first-none, first-some, any-none,
  head?, &&_true,
}
use ln_gap.Chess.Square.{all_squares, from_fr, file_diff}
use ln_gap.Chess.Piece.{
  Colour, white, black, other_colour, colour_eq, home_rank, PieceType, pawn, rook, Piece,
  piece_code, kind_eq, kind_of,
}
use ln_gap.Chess.Move.{Move}
use ln_gap.Chess.Position.{
  Position, nibble_at, piece_at, is_empty, holds, holds_king, king_square, can_castle,
}
use ln_gap.Chess.Position.Bytes.{IsPosition, IsNibble}
use ln_gap.Chess.Attack.{attacks, attackers, is_attacked, in_check}
use ln_gap.Chess.Rules.{apply}
use ln_gap.Chess.Classify.{Kind, is_positive, is_castling, piece_is, rook_home, rook_target}
use ln_gap.Chess.Rules.Legal.{IsOnBoard, head?-keep, apply_leaves_no_check}
use ln_gap.Chess.Rules.Classify.{CastleMove}
use ln_gap.Chess.Certificate.{Shape, shape, castling_ok, check}
use ln_gap.Chess.Challenges.{
  is_own, step, attacks_square, castling, castling_attacked, king_attacked,
}
use ln_gap.Chess.Certificate.Attacks.{attacks_square-attacks}
use ln_gap.Chess.Certificate.Castle.{castle_shape, castle_from, castle_target_empty, castle_path}
use ln_gap.Chess.Certificate.Pieces.{Shows, square-cases, nibble_at-IsNibble, is_own-Shows}
use ln_gap.Chess.Certificate.Mover.{Moves, shape_kind_of}

-- A square without attackers is attacked from none.
unattacked_square :
    (p : Position) (c : Colour) (by sq : ℕ)
    → IsPosition p
    → by < 64
    → sq < 64
    → is_attacked p sq (other_colour c) ≡ false
    → attacks_square p c by sq ≡ false
unfolding is_attacked
unattacked_square p c by sq h l k e =
    attacks_square-attacks p c by sq (nibble_at-IsNibble p by h.nibbles) l k
    ∙ any-none (λ x. holds p (other_colour c) x && attacks p x sq) 0 64 by e (omega arith)
        (omega arith)

no_attackers :
    (p : Position) (sq : ℕ) (c : Colour)
    → head? (attackers p sq c) ≡ none
    → is_attacked p sq c ≡ false
unfolding attackers is_attacked
no_attackers p sq c h = head?-keep (λ x. holds p c x && attacks p x sq) all_squares h

-- A piece of a colour and kind, by its nibble.
pub piece_is-nibble :
    (p : Position) (sq : ℕ) (c : Colour) (k : PieceType)
    → IsPosition p
    → piece_is (piece_at p sq) c k ≡ true
    → (is_own (nibble_at p sq) c ≡ true) × (kind_of (nibble_at p sq) ≡ piece_code k)
piece_is-nibble p sq c k h e = elim (square-cases p sq (nibble_at-IsNibble p sq h.nibbles)) [
  | inl (f, z) ↦ cc (rw f at e)
  | inr (r, f, s) ↦
      let both = &&_true (colour_eq r.colour c) (kind_eq r.kind k) (rw f at e) in
      (
        is_own-Shows (nibble_at p sq) r c s ∙ both.0,
        s.kind ∙ (==_iff (piece_code r.kind) (piece_code k)).0 both.1,
      )
]

-- At most one king of a colour.
abbrev pub OneKing : Position → Colour → Type 0
OneKing p c =
    (a b : ℕ) → a < 64 → b < 64 → holds_king p c a ≡ true → holds_king p c b ≡ true → a ≡ b

pub holds_king-nibble :
    (p : Position) (sq : ℕ) (c : Colour)
    → IsNibble (nibble_at p sq)
    → holds_king p c sq ≡ (is_own (nibble_at p sq) c && (kind_of (nibble_at p sq) == 6))
unfolding holds_king
holds_king-nibble p sq c h = elim (square-cases p sq h) [
  | inl (e, z) ↦ rw (e, holds_king, z) refl
  | inr (r, e, s) ↦ rw (e, holds_king, is_own-Shows (nibble_at p sq) r c s, s.kind) refl
]

-- The one king is the king that the rules find.
king_square_of :
    (p : Position) (c : Colour) (k : ℕ)
    → OneKing p c
    → k < 64
    → holds_king p c k ≡ true
    → king_square p c ≡ some k
unfolding king_square
king_square_of p c k u l h = elim (Option-cases (king_square p c)) [
  | inl e ↦ cc (first-none (holds_king p c) 0 64 k e (omega arith) (omega arith), h)
  | inr (j, e) ↦
      let f = first-some (holds_king p c) 0 64 j e in
      e ∙ ap some (u j k (omega (arith, f.2)) l f.0 h)
]

pub shape_castling_of :
    (p : Position) (mv : Move) (q : Piece)
    → Shows (nibble_at p mv.from) q
    → q.colour ≡ p.side
    → (shape p mv).castling ≡ is_castling q.kind mv.from mv.to
unfolding shape
shape_castling_of p mv q s c = rw (shape_kind_of p mv q s c) refl

pub shape_castling :
    (p n : Position) (mv : Move) (q : Piece) (k : Kind)
    → Moves p n mv q k
    → (shape p mv).castling ≡ is_castling q.kind mv.from mv.to
shape_castling p n mv q k m = shape_castling_of p mv q m.shows m.own

pub no_king : (k : PieceType) (a b : ℕ) → kind_eq k pawn ≡ true → is_castling k a b ≡ false
no_king k a b h = ground arith

-- Only a castling move castles.
pub castles_so :
    (p n : Position) (mv : Move) (q : Piece) (k : Kind)
    → Moves p n mv q k
    → ((shape p mv).castling ≡ false) ⊎ CastleMove p mv q k
castles_so p n mv q k m = elim m.way [
  | inl a ↦ inl (shape_castling p n mv q k m ∙ no_king q.kind mv.from mv.to a.is_pawn)
  | inr (inl c) ↦ inr c
  | inr (inr a) ↦ inl (shape_castling p n mv q k m ∙ a.no_castling)
]

castle_rights :
    (p : Position) (mv : Move) (s : Shape)
    → (mv.from == from_fr 4 (home_rank p.side)) ≡ true
    → can_castle p p.side (is_positive s.f) ≡ true
    → is_own (nibble_at p s.rook_from) p.side ≡ true
    → kind_of (nibble_at p s.rook_from) ≡ 4
    → is_empty p mv.to ≡ true
    → (is_positive s.f || is_empty p (from_fr 1 (home_rank p.side))) ≡ true
    → castling_ok p mv s ≡ true
unfolding castling_ok
castle_rights p mv s a b c d e f = rw (a, b, c, d, e, f) refl

and_not : (a b : Bool) → b ≡ true → (a && not b) ≡ false
and_not a b h = ground arith

and_false : (a b : Bool) → b ≡ false → (a && b) ≡ false
and_false a b h = ground arith

-- The square that a castling king crosses.
pub crossing :
    (a b : ℕ) (c : Colour)
    → a ≡ from_fr 4 (home_rank c)
    → abs (file_diff a b) ≡ 2
    → step a (signum (file_diff a b)) 1 ≡ rook_target c (is_positive (file_diff a b))
crossing a b white e h = ground arith
crossing a b black e h = ground arith

pub rook_target-lt : (c : Colour) (kingside : Bool) → rook_target c kingside < 64
rook_target-lt white true = omega arith
rook_target-lt white false = omega arith
rook_target-lt black true = omega arith
rook_target-lt black false = omega arith

module _ (p n : Position) (mv : Move) (q : Piece) (k : Kind) (h : IsPosition p) (o : IsOnBoard mv)
    (m : Moves p n mv q k) where
  -- The square next to the rook that queen's side castling passes over.
  beside_rook :
      CastleMove p mv q k
      → (is_positive (file_diff mv.from mv.to) || is_empty p (from_fr 1 (home_rank q.colour)))
        ≡ true
  beside_rook c = elim (Bool-cases (is_positive (file_diff mv.from mv.to))) [
    | inl e ↦ rw e refl
    | inr e ↦ rw e ((==_iff _ 0).1 (rw e at (castle_path p mv o q k c)).1.1.0)
  ]

  pub rights_unchallenged : check p mv n castling ≡ false
  unfolding check shape
  rights_unchallenged = elim (castles_so p n mv q k m) [
    | inl e ↦ rw e refl
    | inr c ↦
        let r =
          piece_is-nibble p (rook_home q.colour (is_positive (file_diff mv.from mv.to))) q.colour
            rook h c.rook in
        and_not _ _ (
          castle_rights p mv (shape p mv) (rw m.own at c.home) (rw m.own at c.right)
            (rw m.own at r.0) (rw m.own at r.1) ((==_iff _ 0).1 (castle_target_empty p mv o q k c))
            (rw m.own at (beside_rook c)))
  ]

  source_unattacked :
      CastleMove p mv q k → (by : ℕ) → by < 64 → attacks_square p p.side by mv.from ≡ false
  source_unattacked c by l =
      unattacked_square p p.side by mv.from h l o.from
        (rw m.own at (no_attackers p mv.from (other_colour q.colour) c.safe_source))

  crossing_unattacked :
      CastleMove p mv q k
      → (by : ℕ) → by < 64
      → attacks_square p p.side by (step mv.from (signum (file_diff mv.from mv.to)) 1) ≡ false
  crossing_unattacked c by l =
      let e =
        crossing mv.from mv.to q.colour (castle_from p mv o q k c) (castle_shape p mv o q k c).1 in
      let t = rook_target q.colour (is_positive (file_diff mv.from mv.to)) in
      rw e (
        unattacked_square p p.side by t h l (rook_target-lt q.colour _) (
          subst (λ x. is_attacked p t (other_colour x) ≡ false) m.own
            (no_attackers p t (other_colour q.colour) c.safe_crossing)))

  pub castling_safe :
      (crossed : Bool) (by : ℕ) → by < 64 → check p mv n (castling_attacked crossed by) ≡ false
  unfolding check
  castling_safe true by l = elim (castles_so p n mv q k m) [
    | inl e ↦ rw e refl
    | inr c ↦ and_false _ _ (crossing_unattacked c by l)
  ]
  castling_safe false by l = elim (castles_so p n mv q k m) [
    | inl e ↦ rw e refl
    | inr c ↦ and_false _ _ (source_unattacked c by l)
  ]

and_third : (a b c : Bool) → ((a && b) ≡ false) ⊎ (c ≡ false) → (a && (b && c)) ≡ false
and_third a b c (inl h) = ground arith
and_third a b c (inr h) = ground arith

-- A king that the rules leave out of check is attacked from nowhere.
pub king_unchallenged :
    (p n : Position) (mv : Move) (sq by : ℕ)
    → apply p mv ≡ ok n
    → IsPosition n
    → OneKing n p.side
    → sq < 64
    → by < 64
    → check p mv n (king_attacked sq by) ≡ false
unfolding check in_check
king_unchallenged p n mv sq by e h u l b =
    let v = holds_king-nibble n sq p.side (nibble_at-IsNibble n sq h.nibbles) in
    elim (Bool-cases (holds_king n p.side sq)) [
      | inl t ↦
          let c =
            rw (king_square_of n p.side sq u l t, in_check) at (apply_leaves_no_check p n mv e) in
          and_third (is_own (nibble_at n sq) p.side) (kind_of (nibble_at n sq) == 6)
            (attacks_square n p.side by sq) (inr (unattacked_square n p.side by sq h b l c))
      | inr f ↦
          and_third (is_own (nibble_at n sq) p.side) (kind_of (nibble_at n sq) == 6)
            (attacks_square n p.side by sq) (inl (sym v ∙ f))
    ]
