-- ===== src/Blackjack/SoftHands.antt =====
-- The dealer's drawing rule on soft hands: `dealer_fires` of crates/apps/blackjack/src/lib.rs.
use ln_gap.Prelude.{
  length, ◌≤◌, ◌<◌, any, range_from, pos, All, zero, suc, ℕ, ◌≡◌, refl, get_or, true, false, List,
  [], ◌∷◌, arith,
}
use ln_gap.Blackjack.{
  State, player_total, dealer_total, initial, reveal_action, done_phase, stood_phase, house_status,
  positions,
}
use ln_gap.Blackjack.Predicates.{
  transition_fires, counters_fires, cards_kept_fires, status_fires, dealer_fires, newly_dealt,
}
use ln_gap.Blackjack.Head.{head, head_malformed, head_digits, read_state}
use ln_gap.Blackjack.Head.Roundtrip.{IsEncodable, digits-head}
use ln_gap.Blackjack.Hand.{showdown, deal, stand, house_reveal, reveal_dealt}
use ln_gap.Blackjack.Shares.{card, card_fires, share_fires}
use ln_gap.Blackjack.Counters.{dealing, standing, revealing}
use ln_gap.Blackjack.Honest.{Reaches, opening, next}
use ln_gap.Blackjack.Deals.{move_fires, fires_any}

-- The player has 10 and 8; the dealer shows an ace over a six, and a five and a nine would come.
abbrev ranks : List ℕ
ranks =
    9 ∷ (7 ∷ (0 ∷ (4 ∷ (8 ∷ (0 ∷ (0 ∷ (0 ∷ (0 ∷ (0 ∷ (0 ∷ (0 ∷ (0 ∷ (0 ∷ (0 ∷ (5 ∷ [])))))))))))))))

abbrev players : ℕ → ℕ
players k = get_or ranks k 0

abbrev houses : ℕ → ℕ
houses k = 0

abbrev shown : ℕ → ℕ
shown k = card (players k) (houses k)

abbrev stood : State
stood = stand (reveal_dealt shown (deal initial))

-- The dealer draws on at a soft 17, to 12 and to 21: only the total before the last card is
-- looked at.
abbrev drawn_on : State
drawn_on = record stood {
  action = reveal_action;
  phase = done_phase;
  status = house_status;
  np = 5;
  lo = 3;
  hi = positions;
  cards =
      9
      ∷ (7
          ∷ (0 ∷ (4 ∷ (8 ∷ (0 ∷ (0 ∷ (0 ∷ (0 ∷ (0 ∷ (0 ∷ (0 ∷ (0 ∷ (0 ∷ (0 ∷ (5 ∷ [])))))))))))))));
}

stood-Reaches : Reaches shown false stood
unfolding deal reveal_dealt
stood-Reaches =
    next true (reveal_dealt shown (deal initial)) stood
      (next false (deal initial) (reveal_dealt shown (deal initial))
        (next true initial (deal initial) opening (dealing initial refl))
        (revealing (deal initial) (reveal_dealt shown (deal initial))
          (unfold house_reveal in refl)))
      (standing (reveal_dealt shown (deal initial)) refl)

drawn_on_quiet : move_fires stood drawn_on false players houses ≡ false
unfolding move_fires transition_fires stand counters_fires reveal_dealt cards_kept_fires deal card
    status_fires showdown dealer_total player_total dealer_fires card_fires newly_dealt
drawn_on_quiet = refl

shares_quiet : any (λ k. share_fires drawn_on k (pos (houses k))) (range_from 0 positions) ≡ false
unfolding share_fires stand deal reveal_dealt
shares_quiet = refl

drawn_on_well_formed :
    (game_id depth mover : ℕ) → head_malformed (head drawn_on game_id depth mover) ≡ false
unfolding head_malformed stand deal reveal_dealt read_state head_digits
drawn_on_well_formed game_id depth mover = rw (digits-head drawn_on fits game_id depth mover) refl
  where
    fits : IsEncodable drawn_on
    fits = record {
      action = omega arith;
      phase = omega arith;
      status = omega arith;
      np = omega arith;
      ds = omega arith;
      lo = omega arith;
      hi = omega arith;
      size = refl;
      ranks = ground arith;
    }

drawn_on_silent :
    (game_id depth : ℕ) → fires_any stood drawn_on false players houses game_id depth ≡ false
unfolding fires_any
drawn_on_silent game_id depth =
    rw (drawn_on_well_formed game_id depth 1, shares_quiet) drawn_on_quiet

get_or-small : (cs : List ℕ) (k : ℕ) → All (λ c. c ≤ 12) cs → get_or cs k 0 ≤ 12
get_or-small [] k h = omega arith
get_or-small (c ∷ cs) zero h = h.0
get_or-small (c ∷ cs) (suc k) h = get_or-small cs k h.1

players-small : (k : ℕ) → players k ≤ 12
players-small k = get_or-small ranks k (omega arith)

-- The ace and the six that the dealer shows first.
seventeen_at_first : dealer_total (record drawn_on { np = 3 }) ≡ 17
unfolding dealer_total stand deal reveal_dealt
seventeen_at_first = refl

-- Before each draw from the prior state's position on, the dealer has less than 17.
abbrev IsDrawnBelow : State → State → Type 0
IsDrawnBelow p n = (j : ℕ) → p.np ≤ j → j < n.np → dealer_total (record n { np = j }) < 17

-- The dealer may draw at 17 or more without a predicate firing. It is not so that, whenever all
-- shares are at most 12, the house reveals after the player has stood in a hand that honest play
-- reaches, the new state has its sixteen cards and no predicate fires on it, the dealer had less than
-- 17 before each card that it drew.
pub drawing_rule_undetected : ¬ (
    (a b : ℕ → ℕ) (p n : State)
    → ((k : ℕ) → a k ≤ 12)
    → ((k : ℕ) → b k ≤ 12)
    → Reaches (λ k. card (a k) (b k)) false p
    → p.phase ≡ stood_phase
    → length n.cards ≡ positions
    → ((game_id depth : ℕ) → fires_any p n false a b game_id depth ≡ false)
    → IsDrawnBelow p n)
drawing_rule_undetected below =
    let lower =
      below players houses stood drawn_on players-small (λ k. omega arith) stood-Reaches
        (unfold stand in refl) refl drawn_on_silent 3
        (unfold stand deal reveal_dealt in omega arith) (omega arith) in
    omega (arith, lower, seventeen_at_first)
