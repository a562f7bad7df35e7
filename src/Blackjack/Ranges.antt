-- ===== src/Blackjack/Ranges.antt =====
-- The fields of an honest hand are in the ranges of the head of crates/apps/blackjack/src/lib.rs.
use ln_gap.Prelude.{
  ℕ, zero, suc, ◌≤◌, ◌<◌, ◌||◌, ◌!=◌, get_or, drop, ◌≡◌, refl, ◌∙◌, inl, inr, Bool, true, false,
  arith, List, [], ◌∷◌, All, any, ltb, set,
}
use ln_gap.Blackjack.{State, draw_limit, hole}
use ln_gap.Blackjack.Hand.{
  deal, hit, stand, ack, can_hit, can_ack, reveal_dealt, reveal_hit, reveal_stood, with_hole,
  showdown, draw_card,
}
use ln_gap.Blackjack.Dealer.{Draws, stay, draw, Draws-IsKept, draw_cards-Draws}
use ln_gap.Blackjack.Counters.{
  Step, dealing, hitting, standing, closing, revealing, house_reveal-cases,
}
use ln_gap.Blackjack.Cards.{IsHand}
use ln_gap.Blackjack.Head.{head, head_malformed, head_digits, digits, from_head}
use ln_gap.Blackjack.Head.Roundtrip.{IsEncodable, digits-head, from_head-head}
use ln_gap.Blackjack.Honest.{Reaches, opening, next, Reaches-IsHand}

-- The ranges that a well-formed head has.
pub record IsInRange (s : State) : Type 0 where
  pub action : s.action ≤ 5
  pub phase : s.phase ≤ 6
  pub status : s.status ≤ 3
  pub ds : s.ds ≤ 16
  pub lo : s.lo ≤ 16
  pub hi : s.hi ≤ 16
  pub ranks : All (λ c. c ≤ 12) s.cards

All-set : (cs : List ℕ) (i v : ℕ) → All (λ c. c ≤ 12) cs → v ≤ 12 → All (λ c. c ≤ 12) (set cs i v)
All-set [] i v h k = tt
All-set (c ∷ cs) zero v h k = (k, h.1)
All-set (c ∷ cs) (suc i) v h k = (h.0, All-set cs i v h.1 k)

module _ (card_of : ℕ → ℕ) (small : (k : ℕ) → card_of k ≤ 12) where
  Draws-ranks :
      (s r : State) → Draws card_of s r → All (λ c. c ≤ 12) s.cards → All (λ c. c ≤ 12) r.cards
  unfolding draw_card
  Draws-ranks s _ (stay _) h = h
  Draws-ranks s r (draw _ _ m d) h =
      Draws-ranks (draw_card card_of s) r d (All-set s.cards s.np (card_of s.np) h (small s.np))

  player-IsInRange : (p n : State) → IsHand p → IsInRange p → Step card_of true p n → IsInRange n
  unfolding deal hit stand ack can_hit can_ack
  player-IsInRange p _ h i (dealing _ e) = record {
    action = omega arith;
    phase = omega arith;
    status = omega arith;
    ds = omega arith;
    lo = omega arith;
    hi = omega arith;
    ranks = i.ranks;
  }
  player-IsInRange p _ h i (hitting _ e) =
      let l = h.limit in
      record {
        action = omega arith;
        phase = omega arith;
        status = i.status;
        ds = i.ds;
        lo = omega (arith, l);
        hi = omega (arith, l);
        ranks = i.ranks;
      }
  player-IsInRange p _ h i (standing _ e) =
      let l = h.limit in
      record {
        action = omega arith;
        phase = omega arith;
        status = i.status;
        ds = omega (arith, l);
        lo = omega (arith, l);
        hi = omega arith;
        ranks = i.ranks;
      }
  player-IsInRange p _ h i (closing _ e) = record {
    action = omega arith;
    phase = omega arith;
    status = i.status;
    ds = i.ds;
    lo = omega arith;
    hi = omega arith;
    ranks = i.ranks;
  }

  reveal_dealt-IsInRange : (p : State) → IsInRange p → IsInRange (reveal_dealt card_of p)
  unfolding reveal_dealt
  reveal_dealt-IsInRange p i = record {
    action = omega arith;
    phase = omega arith;
    status = omega arith;
    ds = i.ds;
    lo = omega arith;
    hi = omega arith;
    ranks =
        All-set _ 2 (card_of 2)
          (All-set _ 1 (card_of 1) (All-set p.cards 0 (card_of 0) i.ranks (small 0)) (small 1))
          (small 2);
  }

  reveal_hit-IsInRange : (p : State) → IsHand p → IsInRange p → IsInRange (reveal_hit card_of p)
  unfolding reveal_hit
  reveal_hit-IsInRange p h i =
      let l = h.limit in
      record {
        action = omega arith;
        phase = ground arith;
        status = ground arith;
        ds = i.ds;
        lo = omega (arith, l);
        hi = omega (arith, l);
        ranks = All-set p.cards p.np (card_of p.np) i.ranks (small p.np);
      }

  reveal_stood-IsInRange : (p : State) → IsHand p → IsInRange p → IsInRange (reveal_stood card_of p)
  unfolding reveal_stood showdown
  reveal_stood-IsInRange p h i =
      let d = draw_cards-Draws card_of draw_limit (with_hole card_of p) in
      let k = Draws-IsKept card_of (with_hole card_of p) _ d in
      let l = h.limit in
      let s = i.ds in
      record {
        action = omega (arith, k.action);
        phase = omega (arith, k.phase);
        status = ground arith;
        ds = omega (arith, k.ds, s);
        lo = omega (arith, k.lo, l);
        hi = omega (arith, k.hi);
        ranks = Draws-ranks _ _ d (All-set p.cards hole (card_of hole) i.ranks (small hole));
      }

  pub Step-IsInRange :
      (player : Bool) (p n : State) → IsHand p → IsInRange p → Step card_of player p n → IsInRange n
  Step-IsInRange true p n h i step = player-IsInRange p n h i step
  Step-IsInRange false p n h i (revealing _ _ e) = elim (house_reveal-cases card_of p n e) [
    | inl (f, q) ↦ rw q (reveal_dealt-IsInRange p i)
    | inr (inl (f, q)) ↦ rw q (reveal_hit-IsInRange p h i)
    | inr (inr (f, q)) ↦ rw q (reveal_stood-IsInRange p h i)
  ]

  pub Reaches-IsInRange : (player : Bool) (p : State) → Reaches card_of player p → IsInRange p
  Reaches-IsInRange _ _ opening = record {
    action = omega arith;
    phase = omega arith;
    status = omega arith;
    ds = omega arith;
    lo = omega arith;
    hi = omega arith;
    ranks = omega arith;
  }
  Reaches-IsInRange _ _ (next player p n r s) =
      Step-IsInRange player p n (Reaches-IsHand card_of player p r) (Reaches-IsInRange player p r) s

-- The tests of `head_malformed`, on the digits and the state that they spell.
unfoldable malformed_fields : List ℕ → State → Bool
malformed_fields d s =
    ltb 5 s.action
    || (ltb 6 s.phase
        || (ltb 3 s.status
            || ((get_or d 11 0 != 0)
                || (ltb 16 s.np
                    || (ltb 16 s.ds
                        || (ltb 16 s.lo
                            || (ltb 16 s.hi
                                || (any (ltb 12) s.cards || any (λ x. x != 0) (drop 36 d)))))))))

malformed_by_fields : (h : List ℕ) → head_malformed h ≡ malformed_fields (digits h) (from_head h)
unfolding head_malformed malformed_fields from_head
malformed_by_fields h = refl

module _ (s : State) (h : IsHand s) (i : IsInRange s) where
  below_sixteen : (cs : List ℕ) → All (λ c. c ≤ 12) cs → All (λ c. c < 16) cs
  below_sixteen [] a = tt
  below_sixteen (c ∷ cs) a = let l = a.0 in (omega (arith, l), below_sixteen cs a.1)

  no_rank_above : (cs : List ℕ) → All (λ c. c ≤ 12) cs → any (ltb 12) cs ≡ false
  no_rank_above [] a = refl
  no_rank_above (c ∷ cs) a = let l = a.0 in rw (no_rank_above cs a.1) (ground (arith, l))

  IsInRange-IsEncodable : IsEncodable s
  IsInRange-IsEncodable = record {
    action = omega (arith, i.action);
    phase = omega (arith, i.phase);
    status = omega (arith, i.status);
    np = omega (arith, h.limit);
    ds = omega (arith, i.ds);
    lo = omega (arith, i.lo);
    hi = omega (arith, i.hi);
    size = h.size;
    ranks = below_sixteen s.cards i.ranks;
  }

  fields_in_range :
      (d : List ℕ)
      → get_or d 11 0 ≡ 0
      → any (λ x. x != 0) (drop 36 d) ≡ false
      → malformed_fields d s ≡ false
  unfolding malformed_fields
  fields_in_range d pad rest =
      rw (pad, rest, no_rank_above s.cards i.ranks)
        (ground (arith, i.action, i.phase, i.status, h.limit, i.ds, i.lo, i.hi))

  pub head-well_formed :
      (game_id depth mover : ℕ) → head_malformed (head s game_id depth mover) ≡ false
  head-well_formed game_id depth mover =
      malformed_by_fields (head s game_id depth mover)
      ∙ rw
          (
            from_head-head s IsInRange-IsEncodable game_id depth mover,
            digits-head s IsInRange-IsEncodable game_id depth mover,
          )
          (fields_in_range (head_digits s game_id depth mover) (unfold head_digits in refl)
            (unfold head_digits in refl))
