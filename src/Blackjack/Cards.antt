-- ===== src/Blackjack/Cards.antt =====
-- Hands in play, and the predicate on kept cards of crates/apps/blackjack/src/lib.rs.
use ln_gap.Prelude.{
  ℕ, zero, suc, ◌≤◌, ◌≡◌, ◌≢◌, refl, ◌∙◌, inl, inr, Bool, true, false, arith, length, get_or, set,
  any, range_from, get_or-set_ne,
}
use ln_gap.Blackjack.{
  State, positions, hole, draw_limit, dealt, dealt_phase, decide_phase, hit_phase, stood_phase,
}
use ln_gap.Blackjack.Hand.{
  deal, hit, stand, ack, can_hit, can_ack, reveal_dealt, reveal_hit, reveal_stood, with_hole,
  showdown,
}
use ln_gap.Blackjack.Predicates.{card_kept_fires, cards_kept_fires}
use ln_gap.Blackjack.Dealer.{IsKept, Draws-IsKept, draw_cards-Draws}
use ln_gap.Blackjack.Counters.{
  Step, dealing, hitting, standing, closing, revealing, house_reveal-cases,
}

-- A hand in play: an undealt position is zero, and the counters agree with the phase.
pub record IsHand (p : State) : Type 0 where
  pub size : length p.cards ≡ positions
  pub blank : (k : ℕ) → dealt p k ≡ false → get_or p.cards k 0 ≡ 0
  pub limit : p.np ≤ draw_limit
  pub undealt : p.phase ≤ dealt_phase → (p.np ≡ 0) × (p.ds ≡ 0)
  pub deciding : p.phase ≡ decide_phase → (3 ≤ p.np) × (p.np ≤ 11) × (p.ds ≡ 0) × (p.status ≡ 0)
  pub asking : p.phase ≡ hit_phase → (3 ≤ p.np) × (p.np ≤ 10) × (p.ds ≡ 0)
  pub standing : p.phase ≡ stood_phase → (3 ≤ p.np) × (p.np ≤ 11) × (p.ds ≡ p.np)

-- Dealt cards stay, and undealt positions are zero.
abbrev pub KeepsCards : State → State → Type 0
KeepsCards p n =
    (k : ℕ)
    → (dealt p k ≡ true → get_or n.cards k 0 ≡ get_or p.cards k 0)
      × (dealt n k ≡ false → get_or n.cards k 0 ≡ 0)

pub any-false : (f : ℕ → Bool) (a n : ℕ) → ((k : ℕ) → f k ≡ false) → any f (range_from a n) ≡ false
any-false f a zero h = refl
any-false f a (suc n) h = rw (h a) (any-false f (suc a) n h)

pub KeepsCards-quiet : (p n : State) → KeepsCards p n → cards_kept_fires p n ≡ false
unfolding cards_kept_fires card_kept_fires
KeepsCards-quiet p n h =
    any-false (card_kept_fires p n) 0 positions (λ k. let i = h k in ground (arith, i.0, i.1))

module _ (card_of : ℕ → ℕ) (p : State) (h : IsHand p) where
  player-KeepsCards : (n : State) → Step card_of true p n → KeepsCards p n
  unfolding dealt deal hit stand ack can_hit can_ack
  player-KeepsCards _ (dealing _ e) k =
      let b = h.blank k in let u = h.undealt in (ground arith, ground (arith, u, b))
  player-KeepsCards _ (hitting _ e) k =
      let b = h.blank k in let u = h.deciding in (ground arith, ground (arith, u, b))
  player-KeepsCards _ (standing _ e) k =
      let b = h.blank k in let u = h.deciding in (ground arith, ground (arith, u, b))
  player-KeepsCards _ (closing _ e) k = let b = h.blank k in (ground arith, ground (arith, b))

  reveal_dealt-KeepsCards : p.phase ≡ dealt_phase → KeepsCards p (reveal_dealt card_of p)
  unfolding dealt reveal_dealt
  reveal_dealt-KeepsCards e k =
      let u = h.undealt (omega (arith, e)) in
      let b = h.blank k in
      (ground (arith, u.0, u.1), λ d. other (ground arith) ∙ b (ground (arith, u.0, u.1)))
    where
      other :
          3 ≤ k
          → get_or (set (set (set p.cards 0 (card_of 0)) 1 (card_of 1)) 2 (card_of 2)) k 0
            ≡ get_or p.cards k 0
      other le =
          get_or-set_ne (set (set p.cards 0 (card_of 0)) 1 (card_of 1)) 2 k (card_of 2) 0
            (λ x. omega arith)
          ∙ get_or-set_ne (set p.cards 0 (card_of 0)) 1 k (card_of 1) 0 (λ x. omega arith)
          ∙ get_or-set_ne p.cards 0 k (card_of 0) 0 (λ x. omega arith)

  reveal_hit-KeepsCards : p.phase ≡ hit_phase → KeepsCards p (reveal_hit card_of p)
  unfolding dealt reveal_hit
  reveal_hit-KeepsCards e k =
      let u = h.asking e in
      let b = h.blank k in
      (
        λ d. other (λ x. ground (arith, u.0, u.2)),
        λ d. other (λ x. ground (arith, u.0, u.1, u.2)) ∙ b (ground (arith, u.0, u.1, u.2)),
      )
    where
      other : (p.np ≢ k) → get_or (set p.cards p.np (card_of p.np)) k 0 ≡ get_or p.cards k 0
      other ne = get_or-set_ne p.cards p.np k (card_of p.np) 0 ne

  drawn-KeepsCards :
      (r : State)
      → IsKept (with_hole card_of p) r
      → p.phase ≡ stood_phase
      → KeepsCards p (record r { status = showdown r })
  unfolding dealt
  drawn-KeepsCards r i e k =
      let u = h.standing e in
      let b = h.blank k in
      let d = i.ds in
      let f = i.phase in
      (
        λ t.
            i.same_card k h.limit (inl (ground (arith, u.0, u.1, u.2)))
            ∙ other (λ x. ground (arith, u.0, u.1, u.2)),
        λ t.
            i.same_card k h.limit (inr (ground arith))
            ∙ other (λ x. ground (arith, u.0, u.1, u.2, d, f))
            ∙ b (let q = i.further in ground (arith, u.0, u.1, u.2, q)),
      )
    where
      other : (hole ≢ k) → get_or (set p.cards hole (card_of hole)) k 0 ≡ get_or p.cards k 0
      other ne = get_or-set_ne p.cards hole k (card_of hole) 0 ne

  pub Step-KeepsCards : (player : Bool) (n : State) → Step card_of player p n → KeepsCards p n
  Step-KeepsCards true n step = player-KeepsCards n step
  Step-KeepsCards false n (revealing _ _ e) = elim (house_reveal-cases card_of p n e) [
    | inl (f, q) ↦ rw q (reveal_dealt-KeepsCards f)
    | inr (inl (f, q)) ↦ rw q (reveal_hit-KeepsCards f)
    | inr (inr (f, q)) ↦ rw q (reveal_stood-KeepsCards f)
  ]
    where
      reveal_stood-KeepsCards : p.phase ≡ stood_phase → KeepsCards p (reveal_stood card_of p)
      reveal_stood-KeepsCards f =
          unfold reveal_stood in
          drawn-KeepsCards _
            (Draws-IsKept card_of (with_hole card_of p) _
              (draw_cards-Draws card_of draw_limit (with_hole card_of p)))
            f
