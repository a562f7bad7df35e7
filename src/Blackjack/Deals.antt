-- ===== src/Blackjack/Deals.antt =====
-- The cards that the house deals, and all the predicates together:
-- crates/apps/blackjack/src/lib.rs.
use ln_gap.Prelude.{
  any, range_from, ◌&&◌, ◌||◌, ℕ, ◌≡◌, refl, ◌∙◌, inl, inr, Bool, true, false, not, arith, get_or,
  set, get_or-set_ne, get_or-set_self, length-set, ℕ_discrete, if◌then◌else◌, ◌≤◌,
}
use ln_gap.Blackjack.{State, positions, hole, draw_limit, dealt_phase, hit_phase}
use ln_gap.Blackjack.Hand.{reveal_dealt, reveal_hit, reveal_stood, with_hole}
use ln_gap.Blackjack.Predicates.{
  transition_fires, counters_fires, status_fires, dealer_fires, cards_kept_fires, newly_dealt,
}
use ln_gap.Prelude.{pos}
use ln_gap.Blackjack.Shares.{card, card_fires, share_fires}
use ln_gap.Blackjack.Head.{head, head_malformed}
use ln_gap.Blackjack.Ranges.{Reaches-IsInRange, head-well_formed}
use ln_gap.Blackjack.Dealer.{Draws, Draws-IsKept, draw_cards-Draws, drawn_card}
use ln_gap.Blackjack.Counters.{Step, revealing, house_reveal-cases, Step-IsQuiet}
use ln_gap.Blackjack.Cards.{IsHand, KeepsCards-quiet, any-false, Step-KeepsCards}
use ln_gap.Blackjack.Honest.{Reaches, next, Reaches-IsHand, IsHand-IsCounted}

module _ (card_of : ℕ → ℕ) (p : State) (h : IsHand p) (k : ℕ) where
  reveal_dealt-card :
      newly_dealt p (reveal_dealt card_of p) k ≡ true
      → p.phase ≡ dealt_phase
      → get_or (reveal_dealt card_of p).cards k 0 ≡ card_of k
  unfolding newly_dealt reveal_dealt
  reveal_dealt-card d e =
      let c0 = set p.cards 0 (card_of 0) in
      let l0 = length-set p.cards 0 (card_of 0) ∙ h.size in
      let c1 = set c0 1 (card_of 1) in
      let l1 = length-set c0 1 (card_of 1) ∙ l0 in
      elim (ℕ_discrete 2 k) [
        | yes two ↦ rw (← two) (get_or-set_self c1 2 (card_of 2) 0 (omega (arith, l1)))
        | no other ↦ get_or-set_ne c1 2 k (card_of 2) 0 other ∙ elim (ℕ_discrete 1 k) [
          | yes one ↦ rw (← one) (get_or-set_self c0 1 (card_of 1) 0 (omega (arith, l0)))
          | no first ↦
              let zeroth : 0 ≡ k = ground arith in
              get_or-set_ne c0 1 k (card_of 1) 0 first
              ∙ rw (← zeroth) (get_or-set_self p.cards 0 (card_of 0) 0 (omega (arith, h.size)))
        ]
      ]

  reveal_hit-card :
      newly_dealt p (reveal_hit card_of p) k ≡ true
      → p.phase ≡ hit_phase
      → get_or (reveal_hit card_of p).cards k 0 ≡ card_of k
  unfolding newly_dealt reveal_hit
  reveal_hit-card d e =
      let u = h.asking e in
      let same : p.np ≡ k = ground (arith, u.0, u.1) in
      rw (← same) (get_or-set_self p.cards p.np (card_of p.np) 0 (omega (arith, h.size, u.1)))

  drawn-card :
      (r : State)
      → Draws card_of (with_hole card_of p) r
      → newly_dealt p r k ≡ true
      → get_or r.cards k 0 ≡ card_of k
  unfolding newly_dealt
  drawn-card r d t =
      let i = Draws-IsKept card_of (with_hole card_of p) r d in
      elim (ℕ_discrete hole k) [
        | yes e ↦ rw (← e) (
            i.same_card hole h.limit (inr (i.limit h.limit))
            ∙ get_or-set_self p.cards hole (card_of hole) 0 (omega (arith, h.size)))
        | no ne ↦
            drawn_card card_of (with_hole card_of p) r d
              (length-set p.cards hole (card_of hole) ∙ h.size) k (ground arith) (ground arith)
      ]

  reveal_stood-card :
      newly_dealt p (reveal_stood card_of p) k ≡ true
      → get_or (reveal_stood card_of p).cards k 0 ≡ card_of k
  unfolding newly_dealt reveal_stood
  reveal_stood-card t =
      drawn-card _ (draw_cards-Draws card_of draw_limit (with_hole card_of p))
        (unfold newly_dealt in t)

  -- Each card that the house's reveal deals is the card of its position.
  house_reveal-card :
      (n : State)
      → Step card_of false p n
      → newly_dealt p n k ≡ true
      → get_or n.cards k 0 ≡ card_of k
  house_reveal-card n (revealing _ _ e) t = elim (house_reveal-cases card_of p n e) [
    | inl (f, q) ↦ rw q (reveal_dealt-card (rw (← q) t) f)
    | inr (inl (f, q)) ↦ rw q (reveal_hit-card (rw (← q) t) f)
    | inr (inr (f, q)) ↦ rw q (reveal_stood-card (rw (← q) t))
  ]

-- Whether one of the predicates on a move fires, with shares `a` and `b`; the one on cards is for the
-- house's depths only.
unfoldable pub move_fires : State → State → Bool → (ℕ → ℕ) → (ℕ → ℕ) → Bool
move_fires p n player a b =
    transition_fires p n player
    || (counters_fires p n
        || (cards_kept_fires p n
            || (status_fires p n
                || (dealer_fires p n
                    || (not player
                        && any (λ k. card_fires p n k (pos (a k)) (pos (b k)))
                            (range_from 0 positions))))))

card_fires-dealt :
    (p n : State) (k a b : ℕ)
    → (newly_dealt p n k ≡ true → get_or n.cards k 0 ≡ card a b)
    → card_fires p n k (pos a) (pos b) ≡ false
unfolding card_fires card
card_fires-dealt p n k a b h = ground arith

pub honest_move_fires_none :
    (a b : ℕ → ℕ) (player : Bool) (p n : State)
    → Reaches (λ k. card (a k) (b k)) player p
    → Step (λ k. card (a k) (b k)) player p n
    → move_fires p n player a b ≡ false
unfolding move_fires
honest_move_fires_none a b player p n r s =
    let h = Reaches-IsHand (λ k. card (a k) (b k)) player p r in
    let q = Step-IsQuiet (λ k. card (a k) (b k)) p player n (IsHand-IsCounted p h) s in
    let c = KeepsCards-quiet p n (Step-KeepsCards (λ k. card (a k) (b k)) p h player n s) in
    rw (q.0, q.1, c, q.2, q.3) (cards_quiet player r s)
  where
    cards_quiet :
        (mover : Bool)
        → Reaches (λ k. card (a k) (b k)) mover p
        → Step (λ k. card (a k) (b k)) mover p n
        → (not mover
            && any (λ k. card_fires p n k (pos (a k)) (pos (b k))) (range_from 0 positions))
          ≡ false
    cards_quiet true o t = refl
    cards_quiet false o t =
        any-false (λ k. card_fires p n k (pos (a k)) (pos (b k))) 0 positions
          (λ k. card_fires-dealt p n k (a k) (b k) (
            house_reveal-card (λ i. card (a i) (b i)) p
              (Reaches-IsHand (λ i. card (a i) (b i)) false p o) k n t))

-- Whether any predicate fires: those on the move, on the head of the new state, and on the shares
-- that its mover reveals.
unfoldable pub fires_any : State → State → Bool → (ℕ → ℕ) → (ℕ → ℕ) → ℕ → ℕ → Bool
unfolding move_fires
fires_any p n player a b game_id depth =
    head_malformed (head n game_id depth (if player then 0 else 1))
    || (any (λ k. share_fires n k (pos (if player then a k else b k))) (range_from 0 positions)
        || move_fires p n player a b)

card-rank : (a b : ℕ) → card a b ≤ 12
unfolding card
card-rank a b = omega arith

share_fires-small : (n : State) (k v : ℕ) → v ≤ 12 → share_fires n k (pos v) ≡ false
unfolding share_fires
share_fires-small n k v h = ground arith

-- If every share is at most 12, no predicate fires on an honest move from a hand that honest play
-- reaches: not those on the head, the phase, the counters, the kept cards, the status, the dealer
-- and the dealt cards, nor the one on the shares.
pub honest_play_fires_none :
    (a b : ℕ → ℕ) (player : Bool) (p n : State) (game_id depth : ℕ)
    → ((k : ℕ) → a k ≤ 12)
    → ((k : ℕ) → b k ≤ 12)
    → Reaches (λ k. card (a k) (b k)) player p
    → Step (λ k. card (a k) (b k)) player p n
    → fires_any p n player a b game_id depth ≡ false
unfolding fires_any
honest_play_fires_none a b player p n game_id depth small_a small_b r s =
    let hand = Reaches-IsHand (λ k. card (a k) (b k)) (not player) n (next player p n r s) in
    let range =
      Reaches-IsInRange (λ k. card (a k) (b k)) (λ k. card-rank (a k) (b k)) (not player) n
        (next player p n r s) in
    rw
      (
        head-well_formed n hand range game_id depth (if player then 0 else 1),
        any-false (λ k. share_fires n k (pos (if player then a k else b k))) 0 positions
            (λ k. share_fires-small n k _ (ground (arith, small_a k, small_b k))),
      )
      (honest_move_fires_none a b player p n r s)
