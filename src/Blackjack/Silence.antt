-- ===== src/Blackjack/Silence.antt =====
-- The player's moves on which the predicates of crates/apps/blackjack/src/lib.rs are silent.
use ln_gap.Prelude.{
  any-none, list-ext, ℕ, ◌≡◌, refl, sym, ◌∙◌, ◌⊎◌, inl, inr, Bool, true, false, ◌||◌, ◌&&◌, not,
  ◌!=◌, arith, Bool-cases, length, get_or,
}
use ln_gap.Blackjack.{
  State, positions, dealt, start_phase, decide_phase, deal_action, hit_action, stand_action,
  ack_action,
}
use ln_gap.Blackjack.Hand.{deal, hit, stand, ack, can_hit, can_ack}
use ln_gap.Blackjack.Predicates.{
  transition_fires, counters_fires, status_fires, cards_kept_fires, card_kept_fires, expected_phase,
  wanted_counters, wanted_status,
}
use ln_gap.Blackjack.Counters.{Step, dealing, hitting, standing, closing}
use ln_gap.Blackjack.Cards.{IsHand}
use ln_gap.Blackjack.Deals.{move_fires}

State-ext :
    (n m : State)
    → n.action ≡ m.action
    → n.phase ≡ m.phase
    → n.status ≡ m.status
    → n.np ≡ m.np
    → n.ds ≡ m.ds
    → n.lo ≡ m.lo
    → n.hi ≡ m.hi
    → n.cards ≡ m.cards
    → n ≡ m
State-ext n m a b c d e f g h = rw (← a, ← b, ← c, ← d, ← e, ← f, ← g, ← h) refl

kept_card :
    (d e : Bool) (x y : ℕ) → ((d && (x != y)) || (not e && (x != 0))) ≡ false → d ≡ true → x ≡ y
kept_card d e x y h t = ground arith

blank_card :
    (d e : Bool) (x y : ℕ) → ((d && (x != y)) || (not e && (x != 0))) ≡ false → e ≡ false → x ≡ 0
blank_card d e x y h t = ground arith

module _ (card_of : ℕ → ℕ) (p n : State) (h : IsHand p) (size : length n.cards ≡ positions) where
  same_cards :
      cards_kept_fires p n ≡ false
      → ((k : ℕ) → dealt p k ≡ false → dealt n k ≡ false)
      → n.cards ≡ p.cards
  unfolding cards_kept_fires card_kept_fires
  same_cards quiet undealt = list-ext positions n.cards p.cards size h.size (λ k lt.
      let b = h.blank k in
      let u = undealt k in
      let q = any-none (card_kept_fires p n) 0 positions k quiet (omega arith) lt in
      elim (Bool-cases (dealt p k)) [
        | inl d ↦ kept_card (dealt p k) (dealt n k) (get_or n.cards k 0) (get_or p.cards k 0) q d
        | inr d ↦
            blank_card (dealt p k) (dealt n k) (get_or n.cards k 0) (get_or p.cards k 0) q (u d)
            ∙ sym (b d)
      ])

  by_action :
      transition_fires p n true ≡ false
      → counters_fires p n ≡ false
      → status_fires p n ≡ false
      → cards_kept_fires p n ≡ false
      → (n.action ≡ deal_action)
        ⊎ ((n.action ≡ hit_action) ⊎ ((n.action ≡ stand_action) ⊎ (n.action ≡ ack_action)))
      → Step card_of true p n
  unfolding transition_fires expected_phase counters_fires wanted_counters status_fires
      wanted_status dealt deal hit stand ack can_hit can_ack
  by_action t c s k (inl a) =
      let f : p.phase ≡ start_phase = ground arith in
      let u = h.undealt (omega (arith, f)) in
      rw
        (State-ext n (deal p) a (ground arith) (ground arith) (ground arith) (ground arith)
          (ground arith) (ground arith) (same_cards k (λ i d. ground arith)))
        (dealing p f)
  by_action t c s k (inr (inl a)) =
      let f : can_hit p ≡ true = ground arith in
      let u = h.deciding (ground arith) in
      rw
        (State-ext n (hit p) a (ground arith) (ground (arith, u.3)) (ground arith) (ground arith)
          (ground arith) (ground (arith, u.1)) (same_cards k (λ i d. ground (arith, u.2))))
        (hitting p f)
  by_action t c s k (inr (inr (inl a))) =
      let f : p.phase ≡ decide_phase = ground arith in
      let u = h.deciding f in
      rw
        (State-ext n (stand p) a (ground arith) (ground (arith, u.3)) (ground arith) (ground arith)
          (ground arith) (ground arith) (same_cards k (λ i d. ground (arith, u.2))))
        (standing p f)
  by_action t c s k (inr (inr (inr a))) =
      let f : can_ack p ≡ true = ground arith in
      rw
        (State-ext n (ack p) a (ground arith) (ground arith) (ground arith) (ground arith)
          (ground arith) (ground arith) (same_cards k (λ i d. ground arith)))
        (closing p f)

  -- Of a hand in play, a player's entry with sixteen cards on which no predicate on the move fires is
  -- an honest move.
  pub silent_move_honest : (a b : ℕ → ℕ) → move_fires p n true a b ≡ false → Step card_of true p n
  unfolding move_fires transition_fires expected_phase
  silent_move_honest a b q =
      by_action (ground arith) (ground arith) (ground arith) (ground arith) (ground arith)
