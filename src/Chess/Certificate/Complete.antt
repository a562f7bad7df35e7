-- ===== src/Chess/Certificate/Complete.antt =====
-- A move and a position without a challenge are a legal move and its successor: find of
-- crates/apps/chess/src/certificate.rs against apply of rules.rs.
use ln_gap.Prelude.{
  ℕ, ◌<◌, ◌≡◌, refl, sym, ap, ◌∙◌, inl, inr, Bool, true, false, not, ◌&&◌, Option, none, arith,
  ◌==◌, ◌!=◌, Bool-cases, Option-cases, ok, first-some, list-ext, length,
}
use ln_gap.Chess.Piece.{
  Colour, colour_eq, colour_eq→eq, colour_eq_refl, pawn, Piece, kind_eq, kind_of,
}
use ln_gap.Chess.Move.{Move}
use ln_gap.Chess.Codecs.{IsMoveWord}
use ln_gap.Chess.Position.{Position, nibble_at, piece_at, holds, holds_king, king_square}
use ln_gap.Chess.Position.Bytes.{IsPosition}
use ln_gap.Chess.Attack.{attacks, attackers}
use ln_gap.Chess.Rules.{move_board, successor, king_safe, apply, ep_eq}
use ln_gap.Chess.Classify.{Kind, is_castling, classify}
use ln_gap.Chess.Rules.Legal.{IsOnBoard, move_board-IsBoard}
use ln_gap.Chess.Rules.Verify.{Position-ext, ep_eq→eq}
use ln_gap.Chess.Rules.Classify.{classify-cases}
use ln_gap.Chess.Certificate.{check, find_challenge}
use ln_gap.Chess.Challenges.{is_own}
use ln_gap.Chess.Certificate.Pieces.{nibble_at-IsNibble}
use ln_gap.Chess.Certificate.Mover.{Moves}
use ln_gap.Chess.Certificate.Fields.{
  ep_unchallenged, clock_unchallenged, side_unchallenged, number_unchallenged,
  castling_unchallenged,
}
use ln_gap.Chess.Certificate.Safety.{holds_king-nibble}
use ln_gap.Chess.Certificate.Squares.{board_unchallenged}
use ln_gap.Chess.Certificate.Search.{FailsAll, none-FailsAll}
use ln_gap.Chess.Certificate.Lawful.{Found, mover-Found}
use ln_gap.Chess.Certificate.Ways.{pawn_way, piece_way}
use ln_gap.Chess.Certificate.Castling.{no_attacker}
use ln_gap.Chess.Certificate.CastleWay.{castle_way, board_read}

kind_exists :
    (p a : Position) (mv : Move) (q : Piece)
    → IsPosition p
    → IsPosition a
    → IsMoveWord mv
    → FailsAll (check p mv a)
    → Found p mv q
    → (k : Kind) × (classify p mv q ≡ ok k)
kind_exists p a mv q h v m u f =
    let o : IsOnBoard mv = record { from = m.from; to = m.to } in
    elim (Bool-cases (kind_eq q.kind pawn)) [
      | inl e ↦ pawn_way p a mv q h o m.promotion u f e
      | inr e ↦ elim (Bool-cases (is_castling q.kind mv.from mv.to)) [
        | inl c ↦ castle_way p a mv q h v o m.promotion u f c
        | inr c ↦ piece_way p a mv q h o m.promotion u f e c
      ]
    ]

-- No challenge to a king of the mover leaves it safe.
king_spared :
    (p a : Position) (mv : Move)
    → IsPosition a
    → FailsAll (check p mv a)
    → king_safe a p.side ≡ ok tt
unfolding king_safe check king_square
king_spared p a mv v u = elim (Option-cases (king_square a p.side)) [
  | inl e ↦ rw (e, king_safe) refl
  | inr (k, e) ↦
      let s = first-some (holds_king a p.side) 0 64 k e in
      let b = sym (holds_king-nibble a k p.side (nibble_at-IsNibble a k v.nibbles)) ∙ s.0 in
      let l : k < 64 = omega (arith, s.2) in
      let n = no_attacker a p.side k v l (λ by x.
        third (is_own (nibble_at a k) p.side) (kind_of (nibble_at a k) == 6) _ b
          (u.kings k by l x)) in
      rw (e, n, king_safe) refl
]
  where
    third : (x y z : Bool) → (x && y) ≡ true → (x && (y && z)) ≡ false → z ≡ false
    third x y z e h = ground arith

same_board-king_safe :
    (n m : Position) (c : Colour) → n.board ≡ m.board → king_safe n c ≡ king_safe m c
unfolding king_safe attackers attacks holds king_square holds_king piece_at
same_board-king_safe n m c e = rw e refl

applied_so :
    (p : Position) (mv : Move) (q : Piece) (k : Kind)
    → Found p mv q
    → classify p mv q ≡ ok k
    → king_safe (move_board p mv q k) p.side ≡ ok tt
    → apply p mv ≡ ok (successor p mv q k)
unfolding apply
applied_so p mv q k f c s =
    let e : colour_eq q.colour p.side ≡ true = rw f.own (colour_eq_refl p.side) in
    rw (f.at, apply, e, c, s) refl

same_number : (x y z : ℕ) → (x != z) ≡ false → (y != z) ≡ false → x ≡ y
same_number x y z e f = ground arith

same_ep : (x y z : Option ℕ) → not (ep_eq x z) ≡ false → not (ep_eq y z) ≡ false → x ≡ y
same_ep x y z e f = ep_eq→eq x z (yes_of _ e) ∙ sym (ep_eq→eq y z (yes_of _ f))
  where
    yes_of : (b : Bool) → not b ≡ false → b ≡ true
    yes_of b h = ground arith

same_side : (x y z : Colour) → not (colour_eq x z) ≡ false → not (colour_eq y z) ≡ false → x ≡ y
same_side x y z e f = colour_eq→eq x z (yes_of _ e) ∙ sym (colour_eq→eq y z (yes_of _ f))
  where
    yes_of : (b : Bool) → not b ≡ false → b ≡ true
    yes_of b h = ground arith

-- A position that no challenge to a field or a square tells from the successor is the successor.
same_position :
    (p a n : Position) (mv : Move) (q : Piece) (k : Kind)
    → IsPosition p
    → IsPosition a
    → IsOnBoard mv
    → length n.board ≡ 64
    → FailsAll (check p mv a)
    → Moves p n mv q k
    → a ≡ n
unfolding check
same_position p a n mv q k h v o l u m =
    Position-ext a n
      (list-ext 64 a.board n.board v.size l (λ s x.
        board_read p a mv s (u.boards s x)
        ∙ sym (board_read p n mv s (board_unchallenged p n mv q k s h o m))))
      (same_side a.side n.side _ u.side (side_unchallenged p n mv q k h o m))
      (same_number a.castling n.castling _ u.castling_field
        (castling_unchallenged p n mv q k h o m))
      (same_ep a.ep n.ep _ u.ep_field (ep_unchallenged p n mv q k h o m))
      (same_number a.halfmove n.halfmove _ u.clock (clock_unchallenged p n mv q k h o m))
      (same_number a.fullmove n.fullmove _ u.move_number (number_unchallenged p n mv q k h o m))

-- For two positions whose fields are in their ranges and a move that fits its word: if no challenge of
-- the whole challenge space succeeds, the rules accept the move and the position after it is its
-- successor.
pub unchallenged_move_legal :
    (p a : Position) (mv : Move)
    → IsPosition p
    → IsPosition a
    → IsMoveWord mv
    → find_challenge p mv a ≡ none
    → apply p mv ≡ ok a
unfolding find_challenge successor
unchallenged_move_legal p a mv h v w e =
    let o : IsOnBoard mv = record { from = w.from; to = w.to } in
    let u = none-FailsAll (check p mv a) e in
    let f = mover-Found p a mv h u.mover in
    let k = kind_exists p a mv f.0 h v w u f.1 in
    let c = classify-cases p mv f.0 k.0 k.1 in
    let n = successor p mv f.0 k.0 in
    let m : Moves p n mv f.0 k.0 = record {
      shows = f.1.shows;
      own = f.1.own;
      free = c.0;
      way = c.1;
      next = refl;
    } in
    let b = move_board-IsBoard p mv f.0 k.0 (record { size = h.size; nibbles = h.nibbles }) in
    let s = same_position p a n mv f.0 k.0 h v o b.size u m in
    let y =
      same_board-king_safe (move_board p mv f.0 k.0) a p.side
        (ap (λ (x : Position). x.board) (sym s)) in
    applied_so p mv f.0 k.0 f.1 k.1 (y ∙ king_spared p a mv v u) ∙ ap ok (sym s)
