-- ===== src/Blackjack/Examples.antt =====
-- Concrete hands and shares.
use ln_gap.Prelude.{◌%◌, ℕ, ◌≤◌, ◌≡◌, refl, replicate, true, false, List, [], ◌∷◌, some, arith}
use ln_gap.Blackjack.{State, initial, best_total}
use ln_gap.Blackjack.Hand.{deal, house_reveal, reveal_dealt, must_draw, draw_cards}
use ln_gap.Blackjack.Dealer.{draw_cards-stops}
use ln_gap.Blackjack.Totals.{IsTotal, best_total-IsBest}
use ln_gap.Blackjack.Shares.{card, encode_shares, decode_shares, decode_shares-encode_shares}
use ln_gap.Blackjack.Counters.{Step, dealing, revealing}
use ln_gap.Blackjack.Honest.{Reaches-IsHand, Reaches, opening, next}
use ln_gap.Blackjack.Silence.{silent_move_honest}
use ln_gap.Blackjack.Deals.{fires_any, move_fires, honest_move_fires_none, honest_play_fires_none}

abbrev two_shares : List (List ℕ)
two_shares = (7 ∷ (8 ∷ [])) ∷ ((9 ∷ []) ∷ [])

decode_shares-encode_shares_example : decode_shares (encode_shares two_shares) ≡ some two_shares
decode_shares-encode_shares_example =
    decode_shares-encode_shares two_shares (omega arith, (omega arith, tt))

abbrev ace_and_nine : List ℕ
ace_and_nine = 0 ∷ (8 ∷ [])

best_total-IsBest_example :
    IsTotal ace_and_nine (best_total ace_and_nine)
    × ((t : ℕ)
        → IsTotal ace_and_nine t
        → t ≤ 21
        → (t ≤ best_total ace_and_nine) × (best_total ace_and_nine ≤ 21))
best_total-IsBest_example = best_total-IsBest ace_and_nine

abbrev sixteen : List ℕ
sixteen = replicate 16 5

abbrev share : ℕ → ℕ
share k = k

draw_cards-stops_example : must_draw (draw_cards share 15 initial) ≡ false
draw_cards-stops_example = draw_cards-stops share 15 initial (omega arith) (omega arith)

abbrev shown : ℕ → ℕ
shown k = card k k

abbrev first_cards : State
first_cards = reveal_dealt shown (deal initial)

deal-Reaches : Reaches shown false (deal initial)
deal-Reaches = next true initial (deal initial) opening (dealing initial refl)

reveals : house_reveal shown (deal initial) ≡ some first_cards
unfolding house_reveal deal
reveals = refl

-- Shares of thirteen values.
abbrev few : ℕ → ℕ
few k = k % 13

abbrev few_shown : ℕ → ℕ
few_shown k = card (few k) (few k)

abbrev few_first : State
few_first = reveal_dealt few_shown (deal initial)

few_reveals : house_reveal few_shown (deal initial) ≡ some few_first
unfolding house_reveal deal
few_reveals = refl

honest_play_fires_none_example : fires_any (deal initial) few_first false few few 1 2 ≡ false
honest_play_fires_none_example =
    honest_play_fires_none few few false (deal initial) few_first 1 2 (λ k. omega arith)
      (λ k. omega arith) (next true initial (deal initial) opening (dealing initial refl))
      (revealing (deal initial) few_first few_reveals)

silent_move_honest_example : Step shown true initial (deal initial)
unfolding deal
silent_move_honest_example =
    silent_move_honest shown initial (deal initial) (Reaches-IsHand shown true initial opening) refl
      share share silent_deal
  where
    silent_deal : move_fires initial (deal initial) true share share ≡ false
    silent_deal =
        honest_move_fires_none share share true initial (deal initial) opening
          (dealing initial refl)
