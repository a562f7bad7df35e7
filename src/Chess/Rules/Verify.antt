-- ===== src/Chess/Rules/Verify.antt =====
-- A claimed successor: `verify` of crates/apps/chess/src/rules.rs.
use ln_gap.Prelude.{
  ap, ℕ, ◌≡◌, ◌↔◌, refl, ◌∙◌, true, Option, arith, length, list-ext, first, first-none,
  first-none_of, Option-cases, inl, inr, ok, >>=-eq-ok, ensure-eq-ok, ==_refl, ==_iff, ◌==◌, ◌!=◌,
}
use ln_gap.Chess.Square.{all_squares}
use ln_gap.Chess.Piece.{colour_eq, colour_eq→eq, colour_eq_refl}
use ln_gap.Chess.Move.{Move}
use ln_gap.Chess.Position.{Position, nibble_at}
use ln_gap.Chess.Position.Bytes.{IsPosition}
use ln_gap.Chess.Rules.Legal.{IsOnBoard}
use ln_gap.Chess.Rules.Ranges.{apply-IsPosition}
use ln_gap.Chess.Rules.{apply, verify_claim, ep_eq}
use ln_gap.Chess.Classify.{
  side_mismatch, castling_field_mismatch, ep_field_mismatch, clock_mismatch,
}

pub Position-ext :
    (p q : Position)
    → p.board ≡ q.board
    → p.side ≡ q.side
    → p.castling ≡ q.castling
    → p.ep ≡ q.ep
    → p.halfmove ≡ q.halfmove
    → p.fullmove ≡ q.fullmove
    → p ≡ q
Position-ext p q a b c d e f = rw (← a, ← b, ← c, ← d, ← e, ← f) refl

pub ep_eq→eq : (a b : Option ℕ) → ep_eq a b ≡ true → a ≡ b
ep_eq→eq a b h = ground arith

pub ep_eq_refl : (a : Option ℕ) → ep_eq a a ≡ true
ep_eq_refl a = ground arith

verify_refl : (p n : Position) (mv : Move) → apply p mv ≡ ok n → verify_claim p mv n ≡ ok tt
unfolding verify_claim
verify_refl p n mv e =
    let none_differs =
      first-none_of (λ s. nibble_at n s != nibble_at n s) 0 64 (λ k a b. ground arith) in
    rw
      (
        e,
        none_differs,
        colour_eq_refl n.side,
        ==_refl n.castling,
        ep_eq_refl n.ep,
        ==_refl n.halfmove,
        ==_refl n.fullmove,
      )
      refl

verified_fields :
    (p n c : Position) (mv : Move)
    → apply p mv ≡ ok n
    → verify_claim p mv c ≡ ok tt
    → length n.board ≡ 64
    → length c.board ≡ 64
    → n ≡ c
unfolding verify_claim
verified_fields p n c mv e h size size' =
    let h' = rw (e, verify_claim) at h in
    let differs = λ (s : ℕ). nibble_at n s != nibble_at c s in
    elim (Option-cases (first (λ s. nibble_at n s != nibble_at c s) all_squares)) [
      | inr (sq, f) ↦ cc (rw f at h')
      | inl f ↦
          let a = ensure-eq-ok (colour_eq n.side c.side) side_mismatch _ (rw f at h') in
          let b = ensure-eq-ok (n.castling == c.castling) castling_field_mismatch _ a.1 in
          let d = ensure-eq-ok (ep_eq n.ep c.ep) ep_field_mismatch _ b.1 in
          let g = ensure-eq-ok (n.halfmove == c.halfmove) clock_mismatch _ d.1 in
          Position-ext n c
            (list-ext 64 n.board c.board size size' (λ k lt.
              let t =
                first-none (λ s. nibble_at n s != nibble_at c s) 0 64 k f (omega arith)
                  (omega arith) in
              ground arith))
            (colour_eq→eq n.side c.side a.0) ((==_iff n.castling c.castling).0 b.0)
            (ep_eq→eq n.ep c.ep d.0) ((==_iff n.halfmove c.halfmove).0 g.0) (ground (arith, g.1))
    ]

-- Of a position and a move in their ranges, and a claimed board of 64 squares: `verify` accepts the
-- claim exactly if it is the successor that `apply` computes.
pub verify_iff_apply :
    (p c : Position) (mv : Move)
    → IsPosition p
    → IsOnBoard mv
    → length c.board ≡ 64
    → (verify_claim p mv c ≡ ok tt) ↔ (apply p mv ≡ ok c)
unfolding verify_claim
verify_iff_apply p c mv h o size = (accepted, λ e. verify_refl p c mv e)
  where
    accepted : verify_claim p mv c ≡ ok tt → apply p mv ≡ ok c
    accepted v =
        let a = >>=-eq-ok (apply p mv) _ v in
        let q = apply-IsPosition p a.0 mv h o a.1 in
        a.1 ∙ ap ok (verified_fields p a.0 c mv a.1 v (q.0).size size)
