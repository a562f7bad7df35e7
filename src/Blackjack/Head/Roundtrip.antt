-- ===== src/Blackjack/Head/Roundtrip.antt =====
-- The digits of a state and their packing: `State::head` of crates/apps/blackjack/src/lib.rs.
use mathlib.Core.Path.{ap₂}
use ln_gap.Prelude.{
  ℕ, zero, suc, ◌+◌, ◌-◌, ◌*◌, ◌/◌, ◌%◌, ◌^◌, ◌<◌, ◌≡◌, refl, sym, ap, ◌∙◌, List, [], ◌∷◌, ◌++◌,
  map, get_or, range_from, replicate, length, All, arith, join_nibbles,
}
use ln_gap.Blackjack.{State, positions}
use ln_gap.Blackjack.Head.{
  word0, byte_digits, head_digits, join, pack, head, digits, read_state, from_head,
}

-- The pairs of digits that a byte can hold.
abbrev IsPaired : List ℕ → Type 0
IsPaired [] = Unit
IsPaired (d ∷ []) = ⊥
IsPaired (d ∷ e ∷ ds) = (d < 16) × (e < 16) × IsPaired ds

join_digits : (d e : ℕ) → d < 16 → e < 16 → join d e ≡ d * 16 + e
join_digits d e h k =
    let hi : (d * 16 + e) / 16 ≡ d = omega arith in
    let lo : (d * 16 + e) % 16 ≡ e = omega arith in
    rw (ap (λ x. join x e) (sym hi), ap (join ((d * 16 + e) / 16)) (sym lo))
      (join_nibbles (d * 16 + e) (omega arith))

digits-pack : (ds : List ℕ) → IsPaired ds → digits (pack ds) ≡ ds
unfolding digits pack
digits-pack [] h = refl
digits-pack (d ∷ []) h = elim h [ ]
digits-pack (d ∷ e ∷ ds) h =
    let j = join_digits d e h.0 h.1 in
    ap₂ ◌∷◌ (omega (arith, j, h.0, h.1)) (ap₂ ◌∷◌ (omega (arith, j, h.0, h.1)) (digits-pack ds h.2))

map-shift :
    (f : ℕ → ℕ) (a n : ℕ) → map f (range_from (suc a) n) ≡ map (λ k. f (suc k)) (range_from a n)
map-shift f a zero = refl
map-shift f a (suc n) = ap (λ t. f (suc a) ∷ t) (map-shift f (suc a) n)

map-get_or :
    (cs : List ℕ) (n : ℕ)
    → length cs ≡ n
    → All (λ c. c < 16) cs
    → map (λ k. get_or cs k 0 % 16) (range_from 0 n) ≡ cs
map-get_or [] zero e h = refl
map-get_or [] (suc n) e h = absurd (omega (arith, e))
map-get_or (c ∷ cs) zero e h = absurd (omega (arith, e))
map-get_or (c ∷ cs) (suc n) e h =
    ap₂ ◌∷◌ (omega (arith, h.0))
      (map-shift (λ k. get_or (c ∷ cs) k 0 % 16) 0 n ∙ map-get_or cs n (omega (arith, e)) h.1)

abbrev IsEven : List ℕ → Type 0
IsEven [] = Unit
IsEven (k ∷ []) = ⊥
IsEven (k ∷ l ∷ ks) = IsEven ks

map-IsPaired : (f : ℕ → ℕ) (ks : List ℕ) → IsEven ks → ((k : ℕ) → f k < 16) → IsPaired (map f ks)
map-IsPaired f [] e h = tt
map-IsPaired f (k ∷ []) e h = e
map-IsPaired f (k ∷ l ∷ ks) e h = (h k, h l, map-IsPaired f ks e h)

append-IsPaired : (xs ys : List ℕ) → IsPaired xs → IsPaired ys → IsPaired (xs ++ ys)
append-IsPaired [] ys h k = k
append-IsPaired (x ∷ []) ys h k = absurd h
append-IsPaired (x ∷ y ∷ xs) ys h k = (h.0, h.1, append-IsPaired xs ys h.2 k)

zeros-IsPaired : (n : ℕ) → IsEven (replicate n 0) → IsPaired (replicate n 0)
zeros-IsPaired zero e = tt
zeros-IsPaired (suc zero) e = e
zeros-IsPaired (suc (suc n)) e = (omega arith, omega arith, zeros-IsPaired n e)

-- A state whose digits and bytes fit.
pub record IsEncodable (s : State) : Type 0 where
  pub action : s.action < 16
  pub phase : s.phase < 16
  pub status : s.status < 16
  pub np : s.np < 256
  pub ds : s.ds < 256
  pub lo : s.lo < 256
  pub hi : s.hi < 256
  pub size : length s.cards ≡ positions
  pub ranks : All (λ c. c < 16) s.cards

below : (x : ℕ) → x % 16 < 16
below x = omega arith

high : (x : ℕ) → x < 256 → x / 16 < 16
high x h = omega arith

module _ (s : State) (h : IsEncodable s) (game_id depth mover : ℕ) where
  head_digits-IsPaired : IsPaired (head_digits s game_id depth mover)
  unfolding head_digits
  head_digits-IsPaired =
      append-IsPaired
        (map (λ i. word0 game_id depth mover / 2 ^ (4 * (7 - i)) % 16) (range_from 0 8))
        (s.action % 16
          ∷ (s.phase % 16
              ∷ (s.status % 16
                  ∷ (0
                      ∷ (byte_digits s.np
                          ++ (byte_digits s.ds
                              ++ (byte_digits s.lo
                                  ++ (byte_digits s.hi
                                      ++ (map (λ k. get_or s.cards k 0 % 16)
                                            (range_from 0 positions)
                                          ++ replicate 60 0)))))))))
        (map-IsPaired (λ i. word0 game_id depth mover / 2 ^ (4 * (7 - i)) % 16) (range_from 0 8) tt
          (λ k. below _))
        (
          below s.action,
          below s.phase,
          (
            below s.status,
            omega arith,
            (
              high s.np h.np,
              below s.np,
              (
                high s.ds h.ds,
                below s.ds,
                (high s.lo h.lo, below s.lo, (high s.hi h.hi, below s.hi, rest)),
              ),
            ),
          ),
        )
    where
      rest :
          IsPaired (map (λ k. get_or s.cards k 0 % 16) (range_from 0 positions) ++ replicate 60 0)
      rest =
          append-IsPaired (map (λ k. get_or s.cards k 0 % 16) (range_from 0 positions))
            (replicate 60 0)
            (map-IsPaired (λ k. get_or s.cards k 0 % 16) (range_from 0 positions) tt (λ k. below _))
            (zeros-IsPaired 60 tt)

  read_state-head_digits : read_state (head_digits s game_id depth mover) ≡ s
  unfolding read_state head_digits
  read_state-head_digits =
      let a : s.action % 16 ≡ s.action = omega (arith, h.action) in
      let f : s.phase % 16 ≡ s.phase = omega (arith, h.phase) in
      let t : s.status % 16 ≡ s.status = omega (arith, h.status) in
      rw
        (
          a,
          f,
          t,
          join_nibbles s.np h.np,
          join_nibbles s.ds h.ds,
          join_nibbles s.lo h.lo,
          join_nibbles s.hi h.hi,
          map-get_or s.cards positions h.size h.ranks,
        )
        refl

  pub digits-head : digits (head s game_id depth mover) ≡ head_digits s game_id depth mover
  unfolding head
  digits-head = digits-pack (head_digits s game_id depth mover) head_digits-IsPaired

  -- A state whose fields fit in their digits and bytes is read back from its head.
  pub from_head-head : from_head (head s game_id depth mover) ≡ s
  unfolding from_head
  from_head-head = ap read_state digits-head ∙ read_state-head_digits
