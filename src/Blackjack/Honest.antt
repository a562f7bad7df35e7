-- ===== src/Blackjack/Honest.antt =====
-- The hands that honest play of crates/apps/blackjack/src/lib.rs reaches.
use ln_gap.Prelude.{
  ℕ, zero, suc, ◌≡◌, refl, ◌∙◌, inl, inr, Bool, true, false, not, arith, get_or, set, length-set,
  replicate,
}
use ln_gap.Blackjack.{State, initial, positions, hole, draw_limit, dealt, dealt_phase, hit_phase}
use ln_gap.Blackjack.Hand.{
  deal, hit, stand, ack, can_hit, can_ack, reveal_dealt, reveal_hit, reveal_stood, with_hole,
  showdown,
}
use ln_gap.Blackjack.Dealer.{IsKept, Draws-IsKept, draw_cards-Draws}
use ln_gap.Blackjack.Counters.{
  Step, dealing, hitting, standing, closing, revealing, house_reveal-cases, IsCounted,
}
use ln_gap.Blackjack.Cards.{IsHand, KeepsCards, Step-KeepsCards}

-- The hands that honest play reaches from the start, and whether the player is on turn.
pub data Reaches (card_of : ℕ → ℕ) : Bool → State → Type 0 where
  opening : Reaches card_of true initial
  next :
      (player : Bool) (p n : State)
      → Reaches card_of player p
      → Step card_of player p n
      → Reaches card_of (not player) n

pub IsHand-IsCounted : (p : State) → IsHand p → IsCounted p
IsHand-IsCounted p h = record {
  limit = h.limit;
  stood = λ e. let s = h.standing e in (s.0, s.2);
  unstood = λ e. (h.undealt (omega (arith, e))).1;
  undecided = λ e. (h.deciding e).3;
}

initial-IsHand : IsHand initial
unfolding dealt
initial-IsHand = record {
  size = refl;
  blank = λ k d. zeros positions k;
  limit = omega arith;
  undealt = λ e. (refl, refl);
  deciding = λ e. absurd (omega arith);
  asking = λ e. absurd (omega arith);
  standing = λ e. absurd (omega arith);
}
  where
    zeros : (n k : ℕ) → get_or (replicate {A = ℕ} n 0) k 0 ≡ 0
    zeros zero k = refl
    zeros (suc n) zero = refl
    zeros (suc n) (suc k) = zeros n k

module _ (card_of : ℕ → ℕ) (p : State) (h : IsHand p) where
  player-IsHand : (n : State) → Step card_of true p n → KeepsCards p n → IsHand n
  unfolding deal hit stand ack can_hit can_ack
  player-IsHand _ (dealing _ e) c = record {
    size = h.size;
    blank = λ k. (c k).1;
    limit = omega arith;
    undealt = λ e. (refl, refl);
    deciding = λ e. absurd (omega arith);
    asking = λ e. absurd (omega arith);
    standing = λ e. absurd (omega arith);
  }
  player-IsHand _ (hitting _ e) c =
      let u = h.deciding (ground arith) in
      record {
        size = h.size;
        blank = λ k. (c k).1;
        limit = h.limit;
        undealt = λ e. absurd (omega arith);
        deciding = λ e. absurd (omega arith);
        asking = λ f. (u.0, ground arith, u.2);
        standing = λ e. absurd (omega arith);
      }
  player-IsHand _ (standing _ e) c =
      let u = h.deciding e in
      record {
        size = h.size;
        blank = λ k. (c k).1;
        limit = h.limit;
        undealt = λ e. absurd (omega arith);
        deciding = λ e. absurd (omega arith);
        asking = λ f. absurd (omega arith);
        standing = λ e. (u.0, u.1, refl);
      }
  player-IsHand _ (closing _ e) c = record {
    size = h.size;
    blank = λ k. (c k).1;
    limit = h.limit;
    undealt = λ e. absurd (omega arith);
    deciding = λ e. absurd (omega arith);
    asking = λ f. absurd (omega arith);
    standing = λ e. absurd (omega arith);
  }

  reveal_dealt-IsHand :
      p.phase ≡ dealt_phase
      → KeepsCards p (reveal_dealt card_of p)
      → IsHand (reveal_dealt card_of p)
  unfolding reveal_dealt
  reveal_dealt-IsHand e c =
      let u = h.undealt (omega (arith, e)) in
      record {
        size =
            length-set (set (set p.cards 0 (card_of 0)) 1 (card_of 1)) 2 (card_of 2)
            ∙ length-set (set p.cards 0 (card_of 0)) 1 (card_of 1)
            ∙ length-set p.cards 0 (card_of 0)
            ∙ h.size;
        blank = λ k. (c k).1;
        limit = omega arith;
        undealt = λ e. absurd (omega arith);
        deciding = λ e. (omega arith, omega arith, u.1, refl);
        asking = λ f. absurd (omega arith);
        standing = λ e. absurd (omega arith);
      }

  reveal_hit-IsHand :
      p.phase ≡ hit_phase → KeepsCards p (reveal_hit card_of p) → IsHand (reveal_hit card_of p)
  unfolding reveal_hit
  reveal_hit-IsHand e c =
      let u = h.asking e in
      record {
        size = length-set p.cards p.np (card_of p.np) ∙ h.size;
        blank = λ k. (c k).1;
        limit = omega (arith, u.0, u.1);
        undealt = λ f. absurd (ground arith);
        deciding = λ f. (omega (arith, u.0, u.1), omega (arith, u.0, u.1), u.2, ground arith);
        asking = λ f. absurd (ground arith);
        standing = λ f. absurd (ground arith);
      }

  drawn-IsHand :
      (r : State)
      → IsKept (with_hole card_of p) r
      → KeepsCards p (record r { status = showdown r })
      → IsHand (record r { status = showdown r })
  drawn-IsHand r i c =
      let f = i.phase in
      record {
        size = i.size ∙ length-set p.cards hole (card_of hole) ∙ h.size;
        blank = λ k. (c k).1;
        limit = i.limit h.limit;
        undealt = λ e. absurd (omega (arith, f));
        deciding = λ e. absurd (omega (arith, f));
        asking = λ e. absurd (omega (arith, f));
        standing = λ e. absurd (omega (arith, f));
      }

  reveal_stood-IsHand : KeepsCards p (reveal_stood card_of p) → IsHand (reveal_stood card_of p)
  unfolding reveal_stood
  reveal_stood-IsHand c =
      let d = draw_cards-Draws card_of draw_limit (with_hole card_of p) in
      drawn-IsHand _ (Draws-IsKept card_of (with_hole card_of p) _ d) c

  Step-IsHand : (player : Bool) (n : State) → Step card_of player p n → IsHand n
  Step-IsHand true n step = player-IsHand n step (Step-KeepsCards card_of p h true n step)
  Step-IsHand false n (revealing _ _ e) =
      let c = Step-KeepsCards card_of p h false n (revealing p n e) in
      elim (house_reveal-cases card_of p n e) [
        | inl (f, q) ↦ rw q (reveal_dealt-IsHand f (rw (← q) c))
        | inr (inl (f, q)) ↦ rw q (reveal_hit-IsHand f (rw (← q) c))
        | inr (inr (f, q)) ↦ rw q (reveal_stood-IsHand (rw (← q) c))
      ]

pub Reaches-IsHand :
    (card_of : ℕ → ℕ) (player : Bool) (p : State) → Reaches card_of player p → IsHand p
Reaches-IsHand card_of _ _ opening = initial-IsHand
Reaches-IsHand card_of _ _ (next player p n r s) =
    Step-IsHand card_of p (Reaches-IsHand card_of player p r) player n s
