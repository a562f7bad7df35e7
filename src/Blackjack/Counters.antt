-- ===== src/Blackjack/Counters.antt =====
-- The honest moves of crates/apps/blackjack/src/lib.rs, and the predicates on the phase, the
-- counters, the status and the dealer.
use ln_gap.Prelude.{ℕ, ◌≤◌, ◌≡◌, ◌⊎◌, inl, inr, Bool, true, false, some, arith}
use ln_gap.Blackjack.{
  State, open_status, start_phase, dealt_phase, decide_phase, hit_phase, stood_phase, draw_limit,
  player_total, player_positions, cards_at, dealer_total, dealer_positions,
}
use ln_gap.Blackjack.Hand.{
  deal, hit, stand, ack, can_hit, can_ack, house_reveal, reveal_dealt, reveal_hit, reveal_stood,
  with_hole, must_draw, showdown,
}
use ln_gap.Blackjack.Predicates.{
  dealer_fires, transition_fires, counters_fires, status_fires, expected_phase, wanted_counters,
  wanted_status,
}
use ln_gap.Blackjack.Dealer.{
  IsKept, Draws, Draws-IsKept, draw_cards-Draws, draw_cards-stops, drawn_below,
}

-- The honest moves: the player's (`true`) and the house's (`false`).
pub data Step (card_of : ℕ → ℕ) : Bool → State → State → Type 0 where
  dealing : (p : State) → p.phase ≡ start_phase → Step card_of true p (deal p)
  hitting : (p : State) → can_hit p ≡ true → Step card_of true p (hit p)
  standing : (p : State) → p.phase ≡ decide_phase → Step card_of true p (stand p)
  closing : (p : State) → can_ack p ≡ true → Step card_of true p (ack p)
  revealing : (p n : State) → house_reveal card_of p ≡ some n → Step card_of false p n

module _ (card_of : ℕ → ℕ) where
  -- What the house reveals, by the phase.
  pub house_reveal-cases :
      (p n : State)
      → house_reveal card_of p ≡ some n
      → ((p.phase ≡ dealt_phase) × (n ≡ reveal_dealt card_of p))
        ⊎ (((p.phase ≡ hit_phase) × (n ≡ reveal_hit card_of p))
            ⊎ ((p.phase ≡ stood_phase) × (n ≡ reveal_stood card_of p)))
  unfolding house_reveal
  house_reveal-cases p n h = ground arith

-- A hand whose counters agree with its phase; a hand that is decided on or asks for a card is open.
pub record IsCounted (p : State) : Type 0 where
  pub limit : p.np ≤ draw_limit
  pub stood : p.phase ≡ stood_phase → (3 ≤ p.np) × (p.ds ≡ p.np)
  pub unstood : p.phase ≡ dealt_phase → p.ds ≡ 0
  pub undecided : p.phase ≡ decide_phase → p.status ≡ open_status

module _ (card_of : ℕ → ℕ) (p : State) where
  -- The leaves on the phase, the counters, the status and the dealer.
  abbrev pub IsQuiet : Bool → State → Type 0
  IsQuiet player n =
      (transition_fires p n player ≡ false)
      × (counters_fires p n ≡ false)
      × (status_fires p n ≡ false)
      × (dealer_fires p n ≡ false)

  player-IsQuiet : (n : State) → IsCounted p → Step card_of true p n → IsQuiet true n
  unfolding transition_fires expected_phase counters_fires wanted_counters status_fires
      wanted_status dealer_fires deal hit stand ack can_hit can_ack
  player-IsQuiet _ c (dealing _ h) = (ground arith, ground arith, ground arith, ground arith)
  player-IsQuiet _ c (hitting _ h) =
      let u = c.undecided in (ground arith, ground arith, ground arith, ground arith)
  player-IsQuiet _ c (standing _ h) =
      let u = c.undecided in (ground arith, ground arith, ground arith, ground arith)
  player-IsQuiet _ c (closing _ h) = (ground arith, ground arith, ground arith, ground arith)

  reveal_dealt-IsQuiet :
      IsCounted p → p.phase ≡ dealt_phase → IsQuiet false (reveal_dealt card_of p)
  unfolding transition_fires expected_phase counters_fires wanted_counters status_fires
      wanted_status dealer_fires reveal_dealt
  reveal_dealt-IsQuiet c h =
      let u = c.unstood in (ground arith, ground arith, ground arith, ground arith)

  reveal_hit-IsQuiet : IsCounted p → p.phase ≡ hit_phase → IsQuiet false (reveal_hit card_of p)
  unfolding transition_fires expected_phase counters_fires wanted_counters status_fires
      wanted_status dealer_fires reveal_hit player_total player_positions
  reveal_hit-IsQuiet c h =
      let l = c.limit in (ground arith, ground arith, ground arith, ground arith)

  -- The leaves but the dealer's, of the showdown on any state that keeps what the rounds keep.
  showdown-IsQuiet :
      (r : State)
      → IsKept (with_hole card_of p) r
      → p.phase ≡ stood_phase
      → let n = record r { status = showdown r } in
        (transition_fires p n false ≡ false)
        × (counters_fires p n ≡ false)
        × (status_fires p n ≡ false)
  unfolding transition_fires expected_phase counters_fires wanted_counters status_fires
      wanted_status showdown player_total player_positions dealer_total dealer_positions cards_at
  showdown-IsQuiet r k h =
      let a = k.action in
      let f = k.phase in
      let d = k.ds in let l = k.lo in let i = k.hi in (ground arith, ground arith, ground arith)

  drawn-IsQuiet :
      (r : State)
      → Draws card_of (with_hole card_of p) r
      → must_draw r ≡ false
      → IsCounted p
      → p.phase ≡ stood_phase
      → dealer_fires p (record r { status = showdown r }) ≡ false
  unfolding dealer_fires dealer_total dealer_positions cards_at
  drawn-IsQuiet r d m c h =
      let k = Draws-IsKept card_of (with_hole card_of p) r d in
      let f = k.further in
      let l = k.limit c.limit in
      let s = c.stood h in
      let e = k.ds in
      let late = drawn_below card_of (with_hole card_of p) r d s.0 (omega (arith, s.1)) in
      ground (arith, f, l, s.0, s.1, e, m, late)

  reveal_stood-IsQuiet :
      IsCounted p → p.phase ≡ stood_phase → IsQuiet false (reveal_stood card_of p)
  unfolding reveal_stood
  reveal_stood-IsQuiet c h =
      let l = c.limit in
      let d = draw_cards-Draws card_of draw_limit (with_hole card_of p) in
      let q = showdown-IsQuiet _ (Draws-IsKept card_of (with_hole card_of p) _ d) h in
      let m = draw_cards-stops card_of draw_limit (with_hole card_of p) l (omega arith) in
      (q.0, q.1, q.2, drawn-IsQuiet _ d m c h)

  -- The leaves on the phase, the counters, the status and the dealer never fire on honest play.
  pub Step-IsQuiet :
      (player : Bool) (n : State) → IsCounted p → Step card_of player p n → IsQuiet player n
  Step-IsQuiet true n c step = player-IsQuiet n c step
  Step-IsQuiet false n c (revealing _ _ h) = elim (house_reveal-cases card_of p n h) [
    | inl (f, e) ↦ rw e (reveal_dealt-IsQuiet c f)
    | inr (inl (f, e)) ↦ rw e (reveal_hit-IsQuiet c f)
    | inr (inr (f, e)) ↦ rw e (reveal_stood-IsQuiet c f)
  ]
