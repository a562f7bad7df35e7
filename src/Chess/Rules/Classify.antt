-- ===== src/Chess/Rules/Classify.antt =====
-- What `classify` and `castle` of crates/apps/chess/src/rules.rs accept, by the piece that moves.
use ln_gap.Prelude.{
  ℕ, ◌≡◌, refl, ◌∙◌, ◌⊎◌, inl, inr, Bool, true, false, not, ◌&&◌, Option, none, some, List, [], ◌∷◌,
  arith, ◌==◌, first, head?, if◌then◌else◌, Bool-cases, Option-cases, &&_true, ok, >>=-eq-ok,
  >>-eq-ok, ensure-eq-ok,
}
use ln_gap.Chess.Square.{from_fr, rank, file_diff, rank_diff, between}
use ln_gap.Chess.Piece.{
  Colour, other_colour, home_rank, last_rank, PieceType, pawn, rook, Piece, kind_eq,
}
use ln_gap.Chess.Move.{Move}
use ln_gap.Chess.Position.{Position, piece_at, is_empty, can_castle}
use ln_gap.Chess.Attack.{attackers}
use ln_gap.Chess.Classify.{
  Violation, Kind, normal, capture, castle_kind, destination_own_piece, promotion_not_allowed,
  castling_rights, castling_path_blocked, bad_geometry, is_some, is_positive, rook_home,
  rook_target, piece_is, piece_of, moves_so, pawn_kind, pawn_promotion, unattacked, castle,
  piece_kind, unless_found, is_castling, classify_pawn, classify_piece, classify,
}

-- Nothing but empty squares strictly between two squares.
abbrev pub IsClear : Position → ℕ → ℕ → Type 0
IsClear p a b = first (λ s. not (is_empty p s)) (between a b) ≡ none

pub record PawnMove (p : Position) (mv : Move) (q : Piece) (k : Kind) : Type 0 where
  pub is_pawn : kind_eq q.kind pawn ≡ true
  pub moves : pawn_kind p mv.from mv.to q.colour (is_some (piece_at p mv.to)) ≡ ok k
  pub promotes : pawn_promotion (rank mv.to == last_rank q.colour) mv.promotion ≡ ok tt

pub record CastleMove (p : Position) (mv : Move) (q : Piece) (k : Kind) : Type 0 where
  pub not_pawn : kind_eq q.kind pawn ≡ false
  pub plain : is_some mv.promotion ≡ false
  pub castles : is_castling q.kind mv.from mv.to ≡ true
  pub home : (mv.from == from_fr 4 (home_rank q.colour)) ≡ true
  pub right : can_castle p q.colour (is_positive (file_diff mv.from mv.to)) ≡ true
  pub rook :
      piece_is
        (piece_at p (rook_home q.colour (is_positive (file_diff mv.from mv.to))))
        q.colour
        rook
      ≡ true
  pub clear : IsClear p mv.from (rook_home q.colour (is_positive (file_diff mv.from mv.to)))
  pub safe_source : head? (attackers p mv.from (other_colour q.colour)) ≡ none
  pub safe_crossing :
      head? (
        attackers p
          (rook_target q.colour (is_positive (file_diff mv.from mv.to)))
          (other_colour q.colour))
      ≡ none
  pub safe_target : head? (attackers p mv.to (other_colour q.colour)) ≡ none
  pub kind :
      k
      ≡ castle_kind
          (rook_home q.colour (is_positive (file_diff mv.from mv.to)))
          (rook_target q.colour (is_positive (file_diff mv.from mv.to)))

pub record PieceMove (p : Position) (mv : Move) (q : Piece) (k : Kind) : Type 0 where
  pub not_pawn : kind_eq q.kind pawn ≡ false
  pub plain : is_some mv.promotion ≡ false
  pub no_castling : is_castling q.kind mv.from mv.to ≡ false
  pub moves : moves_so q.kind (file_diff mv.from mv.to) (rank_diff mv.from mv.to) ≡ true
  pub clear : IsClear p mv.from mv.to
  pub kind : k ≡ (if is_some (piece_at p mv.to) then capture else normal)

not-false : (b : Bool) → not b ≡ true → b ≡ false
not-false b h = ground arith

unattacked_step :
    (p : Position) (c : Colour) (sq : ℕ) (sqs : List ℕ)
    → unattacked p c (sq ∷ sqs) ≡ ok tt
    → (head? (attackers p sq c) ≡ none) × (unattacked p c sqs ≡ ok tt)
unfolding unattacked
unattacked_step p c sq sqs h = elim (Option-cases (head? (attackers p sq c))) [
  | inl e ↦ (e, rw (e, unattacked) at h)
  | inr (by, e) ↦ cc (rw (e, unattacked) at h)
]

-- A search in a chain of checks that goes on found nothing.
clear_step : (o : Option ℕ) (why : ℕ → Violation) → unless_found o why ≡ ok tt → o ≡ none
clear_step none why h = refl
clear_step (some sq) why h = cc

module _ (p : Position) (mv : Move) (q : Piece) (k : Kind) where
  pawn_case :
      kind_eq q.kind pawn ≡ true
      → classify_pawn p mv q (is_some (piece_at p mv.to)) ≡ ok k
      → PawnMove p mv q k
  unfolding classify_pawn
  pawn_case e h =
      let a = >>=-eq-ok (pawn_kind p mv.from mv.to q.colour (is_some (piece_at p mv.to))) _ h in
      let b = >>-eq-ok (pawn_promotion (rank mv.to == last_rank q.colour) mv.promotion) _ a.2 in
      record { is_pawn = e; moves = a.1 ∙ b.1; promotes = b.0 }

  castle_case :
      kind_eq q.kind pawn ≡ false
      → is_some mv.promotion ≡ false
      → is_castling q.kind mv.from mv.to ≡ true
      → castle p mv.from mv.to q.colour (is_positive (file_diff mv.from mv.to)) ≡ ok k
      → CastleMove p mv q k
  unfolding castle
  castle_case e n c h =
      let side = is_positive (file_diff mv.from mv.to) in
      let a =
        ensure-eq-ok ((mv.from == from_fr 4 (home_rank q.colour)) && can_castle p q.colour side)
          castling_rights _ h in
      let b =
        ensure-eq-ok (piece_is (piece_at p (rook_home q.colour side)) q.colour PieceType.rook)
          castling_rights _ a.1 in
      let d =
        >>-eq-ok
          (unless_found
            (first (λ s. not (is_empty p s)) (between mv.from (rook_home q.colour side)))
            castling_path_blocked)
          _ b.1 in
      let f =
        >>-eq-ok
          (unattacked p (other_colour q.colour)
            (mv.from ∷ (rook_target q.colour side ∷ (mv.to ∷ []))))
          _ d.1 in
      let s1 =
        unattacked_step p (other_colour q.colour) mv.from (rook_target q.colour side ∷ (mv.to ∷ []))
          f.0 in
      let s2 =
        unattacked_step p (other_colour q.colour) (rook_target q.colour side) (mv.to ∷ []) s1.1 in
      let s3 = unattacked_step p (other_colour q.colour) mv.to [] s2.1 in
      let both =
        &&_true (mv.from == from_fr 4 (home_rank q.colour)) (can_castle p q.colour side) a.0 in
      record {
        not_pawn = e;
        plain = n;
        castles = c;
        home = both.0;
        right = both.1;
        rook = b.0;
        clear = clear_step _ castling_path_blocked d.0;
        safe_source = s1.0;
        safe_crossing = s2.0;
        safe_target = s3.0;
        kind = cc f.1;
      }

  piece_case :
      kind_eq q.kind pawn ≡ false
      → is_some mv.promotion ≡ false
      → is_castling q.kind mv.from mv.to ≡ false
      → piece_kind p mv.from mv.to q.kind (is_some (piece_at p mv.to)) ≡ ok k
      → PieceMove p mv q k
  unfolding piece_kind
  piece_case e n c h =
      let a =
        ensure-eq-ok (moves_so q.kind (file_diff mv.from mv.to) (rank_diff mv.from mv.to))
          (bad_geometry mv.from mv.to) _ h in
      elim (Option-cases (first (λ s. not (is_empty p s)) (between mv.from mv.to))) [
        | inr (sq, f) ↦ cc (rw f at a.1)
        | inl f ↦
            let g = rw f at a.1 in
            record { not_pawn = e; plain = n; no_castling = c; moves = a.0; clear = f; kind = cc g }
      ]

  -- A move that `classify` accepts ends on no piece of its own side, and is a pawn's, a castling
  -- king's or another piece's.
  pub classify-cases :
      classify p mv q ≡ ok k
      → (piece_of (piece_at p mv.to) q.colour ≡ false)
        × (PawnMove p mv q k ⊎ (CastleMove p mv q k ⊎ PieceMove p mv q k))
  unfolding classify classify_piece
  classify-cases h =
      let a =
        ensure-eq-ok (not (piece_of (piece_at p mv.to) q.colour)) (destination_own_piece mv.to) _
          h in
      (
        not-false (piece_of (piece_at p mv.to) q.colour) a.0,
        by_kind a.1 (Bool-cases (kind_eq q.kind pawn)),
      )
    where
      by_castling :
          kind_eq q.kind pawn ≡ false
          → is_some mv.promotion ≡ false
          → (if is_castling q.kind mv.from mv.to
              then castle p mv.from mv.to q.colour (is_positive (file_diff mv.from mv.to))
              else piece_kind p mv.from mv.to q.kind (is_some (piece_at p mv.to)))
            ≡ ok k
          → CastleMove p mv q k ⊎ PieceMove p mv q k
      by_castling e n r = elim (Bool-cases (is_castling q.kind mv.from mv.to)) [
        | inl c ↦ inl (castle_case e n c (rw c at r))
        | inr c ↦ inr (piece_case e n c (rw c at r))
      ]

      by_kind :
          (if kind_eq q.kind pawn
              then classify_pawn p mv q (is_some (piece_at p mv.to))
              else classify_piece p mv q (is_some (piece_at p mv.to)))
            ≡ ok k
          → (kind_eq q.kind pawn ≡ true) ⊎ (kind_eq q.kind pawn ≡ false)
          → PawnMove p mv q k ⊎ (CastleMove p mv q k ⊎ PieceMove p mv q k)
      by_kind r (inl e) = inl (pawn_case e (rw e at r))
      by_kind r (inr e) =
          let b =
            ensure-eq-ok (not (is_some mv.promotion)) promotion_not_allowed _
              (rw (e, classify_piece) at r) in
          inr (by_castling e (not-false (is_some mv.promotion) b.0) b.1)
