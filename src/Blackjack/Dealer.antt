-- ===== src/Blackjack/Dealer.antt =====
-- The dealer's loop in `house_reveal` of crates/apps/blackjack/src/lib.rs.
use ln_gap.Prelude.{
  ℕ, zero, suc, ◌+◌, ◌-◌, ◌%◌, ◌≤◌, ◌<◌, ◌≡◌, refl, ◌∙◌, ap, ◌⊎◌, inl, inr, ◌≢◌, true, false, List,
  [], ◌∷◌, arith, Bool-cases, All, length, get_or, range_from, dec_lt, length-set, get_or-set_ne,
  get_or-set_self, get_or-set_self,
}
use Prim.Native.Nat.{max}
use mathlib.Core.Path.{ap₂}
use ln_gap.Blackjack.{
  State, positions, hole, draw_limit, dealer_total, dealer_positions, cards_at, best_total,
}
use ln_gap.Blackjack.Hand.{draw_card, draw_cards, must_draw}

-- What the rounds keep of a state.
pub record IsKept (s r : State) : Type 0 where
  pub action : r.action ≡ s.action
  pub phase : r.phase ≡ s.phase
  pub status : r.status ≡ s.status
  pub ds : r.ds ≡ s.ds
  pub lo : r.lo ≡ s.lo
  pub hi : r.hi ≡ s.hi
  pub size : length r.cards ≡ length s.cards
  pub further : s.np ≤ r.np
  pub limit : s.np ≤ draw_limit → r.np ≤ draw_limit
  pub same_card :
      (k : ℕ)
      → s.np ≤ draw_limit
      → (k < s.np) ⊎ (r.np ≤ k)
      → get_or r.cards k 0 ≡ get_or s.cards k 0

must_draw-lt : (s : State) → must_draw s ≡ true → (dealer_total s < 17) × (s.np < draw_limit)
must_draw-lt s h = ground arith

kept_range : (a b k : ℕ) → a < draw_limit → (k < a) ⊎ (b ≤ k) → (k < (a + 1) % 256) ⊎ (b ≤ k)
kept_range a b k h (inl e) = inl (omega (arith, e))
kept_range a b k h (inr e) = inr e

kept_apart : (a b k : ℕ) → a < draw_limit → (a + 1) % 256 ≤ b → (k < a) ⊎ (b ≤ k) → a ≢ k
kept_apart a b k h le (inl e) = λ same. omega arith
kept_apart a b k h le (inr e) = λ same. omega arith

module _ (card_of : ℕ → ℕ) where
  -- The rounds from a state to another.
  pub data Draws : State → State → Type 0 where
    stay : (s : State) → Draws s s
    draw : (s r : State) → must_draw s ≡ true → Draws (draw_card card_of s) r → Draws s r

  pub draw_cards-Draws : (rounds : ℕ) (s : State) → Draws s (draw_cards card_of rounds s)
  unfolding draw_cards
  draw_cards-Draws zero s = stay s
  draw_cards-Draws (suc rounds) s = elim (Bool-cases (must_draw s)) [
    | inl e ↦ rw e (draw s _ e (draw_cards-Draws rounds (draw_card card_of s)))
    | inr e ↦ rw e (stay s)
  ]

  -- With a round for each position up to the limit, the loop ends where nothing more is to be drawn:
  -- the dealer has 17 or more, or no position is left.
  pub draw_cards-stops :
      (rounds : ℕ) (s : State)
      → s.np ≤ draw_limit
      → draw_limit ≤ s.np + rounds
      → must_draw (draw_cards card_of rounds s) ≡ false
  unfolding draw_cards draw_card
  draw_cards-stops zero s h k = ground arith
  draw_cards-stops (suc rounds) s h k = elim (Bool-cases (must_draw s)) [
    | inl e ↦ rw e (draw_cards-stops rounds (draw_card card_of s) (ground arith) (ground arith))
    | inr e ↦ rw e e
  ]

  pub Draws-IsKept : (s r : State) → Draws s r → IsKept s r
  unfolding draw_card
  Draws-IsKept s _ (stay _) = record {
    action = refl;
    phase = refl;
    status = refl;
    ds = refl;
    lo = refl;
    hi = refl;
    size = refl;
    further = omega arith;
    limit = λ h. h;
    same_card = λ k h o. refl;
  }
  Draws-IsKept s r (draw _ _ m d) =
      let i = Draws-IsKept (draw_card card_of s) r d in
      let below = (must_draw-lt s m).1 in
      let f = i.further in
      let l = i.limit in
      record {
        action = i.action;
        phase = i.phase;
        status = i.status;
        ds = i.ds;
        lo = i.lo;
        hi = i.hi;
        size = i.size ∙ length-set s.cards s.np (card_of s.np);
        further = omega (arith, f, below);
        limit = λ h. l (omega (arith, below));
        same_card = λ k h o.
            i.same_card k (omega (arith, below)) (kept_range s.np r.np k below o)
            ∙ get_or-set_ne s.cards s.np k (card_of s.np) 0 (kept_apart s.np r.np k below f o);
      }

-- The total of a list of positions looks at those cards only.
cards_at-same :
    (s r : State) (ks : List ℕ)
    → All (λ k. get_or r.cards k 0 ≡ get_or s.cards k 0) ks
    → cards_at r ks ≡ cards_at s ks
unfolding cards_at
cards_at-same s r [] h = refl
cards_at-same s r (k ∷ ks) h = ap₂ ◌∷◌ h.0 (cards_at-same s r ks h.1)

drawn_range :
    (s r : State) (a n : ℕ)
    → ((k : ℕ) → a ≤ k → k < a + n → get_or r.cards k 0 ≡ get_or s.cards k 0)
    → All (λ k. get_or r.cards k 0 ≡ get_or s.cards k 0) (range_from a n)
drawn_range s r a zero h = tt
drawn_range s r a (suc n) h = (
  h a (omega arith) (omega arith),
  drawn_range s r (suc a) n (λ k x y. h k (omega arith) (omega arith)),
)

dealer_total-same :
    (s r : State)
    → r.ds ≡ s.ds
    → r.np ≡ s.np
    → All (λ k. get_or r.cards k 0 ≡ get_or s.cards k 0) (dealer_positions s)
    → dealer_total r ≡ dealer_total s
unfolding dealer_total dealer_positions
dealer_total-same s r d n h = rw (d, n) (ap best_total (cards_at-same s r (dealer_positions s) h))

-- One card after `s` the total without it is that of `s`.
last_card :
    (s r : State)
    → IsKept s r
    → 3 ≤ s.np
    → s.ds ≤ s.np
    → s.np < draw_limit
    → r.np ≡ s.np + 1
    → dealer_total (record r { np = r.np - 1 }) ≡ dealer_total s
unfolding dealer_positions
last_card s r k h d b e =
    let same = k.same_card in
    dealer_total-same s (record r { np = r.np - 1 }) k.ds (omega (arith, e))
      (
        same 2 (omega arith) (inl (omega arith)),
        (
          same hole (omega arith) (inr (omega (arith, e))),
          drawn_range s r s.ds (max s.np s.ds - s.ds)
              (λ i x y. same i (omega arith) (inl (omega arith))),
        ),
      )

-- Before its last card the dealer was below 17.
pub drawn_below :
    (card_of : ℕ → ℕ) (s r : State)
    → Draws card_of s r
    → 3 ≤ s.np
    → s.ds ≤ s.np
    → s.np < r.np
    → dealer_total (record r { np = r.np - 1 }) < 17
drawn_below card_of s _ (stay _) h d lt = absurd (omega arith)
drawn_below card_of s r (draw _ _ m ds) h d lt =
    let all = Draws-IsKept card_of s r (draw s r m ds) in
    let rest = Draws-IsKept card_of (draw_card card_of s) r ds in
    let lim = must_draw-lt s m in
    elim (dec_lt (s.np + 1) r.np) [
      | yes more ↦
          drawn_below card_of (draw_card card_of s) r ds (unfold draw_card in omega (arith, lim.1))
            (unfold draw_card in omega (arith, lim.1)) (unfold draw_card in omega (arith, lim.1))
      | no last ↦ rw (last_card s r all h d lim.1 (omega arith)) lim.0
    ]

-- Each position drawn shows its card.
pub drawn_card :
    (card_of : ℕ → ℕ) (s r : State)
    → Draws card_of s r
    → length s.cards ≡ positions
    → (k : ℕ) → s.np ≤ k
    → k < r.np
    → get_or r.cards k 0 ≡ card_of k
drawn_card card_of s _ (stay _) size k le lt = absurd (omega arith)
drawn_card card_of s r (draw _ _ m ds) size k le lt =
    let rest = Draws-IsKept card_of (draw_card card_of s) r ds in
    let lim = must_draw-lt s m in
    let fits : s.np < length s.cards = omega (arith, lim.1, size) in
    elim (dec_lt s.np k) [
      | yes more ↦
          drawn_card card_of (draw_card card_of s) r ds
            (unfold draw_card in length-set s.cards s.np (card_of s.np) ∙ size) k
            (unfold draw_card in omega (arith, lim.1)) lt
      | no here ↦
          let e : s.np ≡ k = omega arith in
          rw (← e) (
            rest.same_card s.np (unfold draw_card in omega (arith, lim.1))
              (inl (unfold draw_card in omega (arith, lim.1)))
            ∙ (unfold draw_card in get_or-set_self s.cards s.np (card_of s.np) 0 fits))
    ]
