-- ===== src/N4Bit/Inverse.antt =====
-- The rounds of crates/n4bit/src/lib.rs can be undone.
use ln_gap.Prelude.{
  ℕ, zero, suc, ◌+◌, ◌-◌, ◌*◌, ◌%◌, ◌<◌, ◌≡◌, refl, ap, ◌∙◌, sym, true, [], ◌∷◌, map, length,
  get_or, All, range_from, arith, every_below, every_below_lem, ◌==◌, ==_iff,
}
use ln_gap.N4Bit.{State, sbox_inv, rc, add_from, add_constants, mix, permute, apply_rounds}
use ln_gap.N4Bit.Ranges.{
  substitute, substituted, round_state, rounds_state, rounds_from-some, IsState, tabulated_state,
  round_state-IsState, substituted-nibbles, add_from-nibbles, length-mix, length-substituted,
  length-add_from,
}
use ln_gap.N4Bit.Script.{position}
use mathlib.Core.Path.{subst}

-- `SBOX_INV[n]`, of a nibble.
abbrev restore : ℕ → ℕ
unfolding sbox_inv
restore n = get_or sbox_inv n 0

restore_table : every_below 16 (λ n. restore (substitute n) == n) ≡ true
unfolding every_below sbox_inv
restore_table = refl

sbox_layer_undone : (s : State) → All (λ n. n < 16) s → map restore (substituted s) ≡ s
unfolding substituted
sbox_layer_undone [] h = refl
sbox_layer_undone (n ∷ ns) h =
    let same : restore (substitute n) ≡ n =
      (==_iff _ _).0 (every_below_lem 16 _ restore_table n h.0) in
    rw (same, sbox_layer_undone ns h.1) refl

unfoldable subtract_from : ℕ → ℕ → State → State
subtract_from round i [] = []
subtract_from round i (n ∷ ns) = (n + (16 - rc round i)) % 16 ∷ subtract_from round (suc i) ns

cancelled : (n c : ℕ) → n < 16 → ((n + c % 16) % 16 + (16 - c % 16)) % 16 ≡ n
cancelled n c h = omega arith

add_from_undone :
    (r i : ℕ) (s : State) → All (λ n. n < 16) s → subtract_from r i (add_from r i s) ≡ s
unfolding subtract_from add_from rc
add_from_undone r i [] h = refl
add_from_undone r i (n ∷ ns) h =
    rw (cancelled n (r * 7 + i * 3 + 1) h.0, add_from_undone r (suc i) ns h.1) refl

unfoldable unmix : State → State
unmix (x ∷ (y ∷ rest)) = (x + (16 - (y + (16 - x)) % 16)) % 16 ∷ ((y + (16 - x)) % 16 ∷ unmix rest)
unmix rest = rest

second_back : (a b : ℕ) → a < 16 → b < 16 → ((b + (a + b) % 16) % 16 + (16 - (a + b) % 16)) % 16 ≡ b
second_back a b h k = omega arith

first_back : (a b : ℕ) → a < 16 → b < 16 → ((a + b) % 16 + (16 - b)) % 16 ≡ a
first_back a b h k = omega arith

mix_undone : (s : State) → All (λ n. n < 16) s → unmix (mix s) ≡ s
unfolding unmix mix
mix_undone [] h = refl
mix_undone (a ∷ []) h = refl
mix_undone (a ∷ (b ∷ rest)) h =
    rw (second_back a b h.0 h.1.0, first_back a b h.0 h.1.0, mix_undone rest h.1.1) refl

-- Each nibble from the place where the permutation has put it.
unfoldable unpermute : State → State
unpermute s = map (λ i. get_or s (position i (permute (range_from 0 40))) 0) (range_from 0 40)

tabulated_undone :
    (g : ℕ → ℕ) → unpermute (permute (map g (range_from 0 40))) ≡ map g (range_from 0 40)
unfolding unpermute permute position
tabulated_undone g = refl

permute_undone : (s : State) → length s ≡ 40 → unpermute (permute s) ≡ s
permute_undone s e =
    subst (λ (t : State). unpermute (permute t) ≡ t) (tabulated_state s e)
      (tabulated_undone (λ i. get_or s i 0))

unfoldable unround : State → ℕ → State
unround s round = subtract_from round 0 (map restore (unmix (unpermute s)))

round_state_undone : (s : State) (r : ℕ) → IsState s → unround (round_state s r) r ≡ s
unfolding unround round_state add_constants
round_state_undone s r h =
    let added = add_from r 0 s in
    let boxed = substituted added in
    let small = substituted-nibbles added (add_from-nibbles r 0 s) in
    let forty = length-mix boxed ∙ length-substituted added ∙ length-add_from r 0 s ∙ h.forty in
    rw
      (
        permute_undone (mix boxed) forty,
        mix_undone boxed small,
        sbox_layer_undone added (add_from-nibbles r 0 s),
        add_from_undone r 0 s h.nibbles,
      )
      refl

pub rounds_state_injective :
    (n r : ℕ) (s t : State)
    → IsState s
    → IsState t
    → rounds_state n s r ≡ rounds_state n t r
    → s ≡ t
unfolding rounds_state
rounds_state_injective zero r s t h k e = e
rounds_state_injective (suc n) r s t h k e =
    let next =
      rounds_state_injective n (suc r) _ _ (round_state-IsState s r h) (round_state-IsState t r k)
        e in
    sym (round_state_undone s r h) ∙ ap (λ (u : State). unround u r) next ∙ round_state_undone t r k

-- The rounds of the hash lead no two states of forty nibbles to the same result.
pub apply_rounds_injective :
    (s t : State) (starting_round : ℕ)
    → IsState s
    → IsState t
    → apply_rounds s starting_round ≡ apply_rounds t starting_round
    → s ≡ t
unfolding apply_rounds
apply_rounds_injective s t r h k e =
    let a = rounds_from-some 20 s r in
    let b = rounds_from-some 20 t r in rounds_state_injective 20 r s t h k (cc)
