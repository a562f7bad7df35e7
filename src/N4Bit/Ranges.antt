-- ===== src/N4Bit/Ranges.antt =====
-- The nibbles of crates/n4bit/src/lib.rs stay nibbles, forty of them.
use ln_gap.Prelude.{
  some, get_elem?, ℕ, zero, suc, ◌+◌, ◌*◌, ◌/◌, ◌%◌, ◌<◌, ◌≡◌, refl, ap, ◌∙◌, sym, true, List, [],
  ◌∷◌, map, length, get_or, set, All, range_from, arith, length-map, length-set, every_below,
  every_below_lem, ltb, ltb→lt,
}
use ln_gap.N4Bit.{
  State, sbox, sbox_layer, add_from, add_constants, rounds_from, mix, shift_rows, rotate_columns,
  swap_places, swap_rounds, permute, spn_round,
}

-- Forty nibbles.
pub record IsState (state : State) : Type 0 where
  pub forty : length state ≡ 40
  pub nibbles : All (λ n. n < 16) state

-- The entry of the S-box for a nibble.
abbrev pub substitute : ℕ → ℕ
substitute n = get_or sbox n 0

-- The nibbles through the S-box.
unfoldable pub substituted : State → State
substituted s = map substitute s

-- The state after a round.
unfoldable pub round_state : State → ℕ → State
unfolding add_constants substituted mix permute
round_state s r = permute (mix (substituted (add_constants s r)))

-- The state after some rounds.
unfoldable pub rounds_state : ℕ → State → ℕ → State
rounds_state zero s r = s
rounds_state (suc n) s r = rounds_state n (round_state s r) (suc r)

substitute_table : every_below 16 (λ n. ltb (substitute n) 16) ≡ true
unfolding every_below
substitute_table = refl

substitute-lt : (n : ℕ) → n < 16 → substitute n < 16
substitute-lt n h = ltb→lt _ 16 (every_below_lem 16 _ substitute_table n h)

pub substituted-nibbles : (s : State) → All (λ n. n < 16) s → All (λ n. n < 16) (substituted s)
unfolding substituted
substituted-nibbles [] h = tt
substituted-nibbles (n ∷ ns) h = (substitute-lt n h.0, substituted-nibbles ns h.1)

pub length-substituted : (s : State) → length (substituted s) ≡ length s
unfolding substituted
length-substituted s = length-map substitute s

pub add_from-nibbles : (r i : ℕ) (s : State) → All (λ n. n < 16) (add_from r i s)
unfolding add_from
add_from-nibbles r i [] = tt
add_from-nibbles r i (n ∷ ns) = (omega arith, add_from-nibbles r (suc i) ns)

pub length-add_from : (r i : ℕ) (s : State) → length (add_from r i s) ≡ length s
unfolding add_from
length-add_from r i [] = refl
length-add_from r i (n ∷ ns) = ap suc (length-add_from r (suc i) ns)

pub mix-nibbles : (s : State) → All (λ n. n < 16) s → All (λ n. n < 16) (mix s)
unfolding mix
mix-nibbles [] h = tt
mix-nibbles (a ∷ []) h = h
mix-nibbles (a ∷ (b ∷ rest)) h = (omega arith, (omega arith, mix-nibbles rest h.1.1))

pub length-mix : (s : State) → length (mix s) ≡ length s
unfolding mix
length-mix [] = refl
length-mix (a ∷ []) = refl
length-mix (a ∷ (b ∷ rest)) = omega (arith, length-mix rest)

get_or-nibble : (s : State) (i : ℕ) → All (λ n. n < 16) s → get_or s i 0 < 16
get_or-nibble [] i h = omega arith
get_or-nibble (n ∷ ns) zero h = h.0
get_or-nibble (n ∷ ns) (suc i) h = get_or-nibble ns i h.1

map-nibbles :
    (f : ℕ → ℕ) (s : State) (is : List ℕ)
    → All (λ n. n < 16) s
    → All (λ n. n < 16) (map (λ i. get_or s (f i) 0) is)
map-nibbles f s [] h = tt
map-nibbles f s (i ∷ is) h = (get_or-nibble s (f i) h, map-nibbles f s is h)

set-nibbles : (s : State) (i v : ℕ) → All (λ n. n < 16) s → v < 16 → All (λ n. n < 16) (set s i v)
set-nibbles [] i v h k = tt
set-nibbles (n ∷ ns) zero v h k = (k, h.1)
set-nibbles (n ∷ ns) (suc i) v h k = (h.0, set-nibbles ns i v h.1 k)

swap_rounds-nibbles :
    (n i : ℕ) (s : State) → All (λ n. n < 16) s → All (λ n. n < 16) (swap_rounds n i s)
unfolding swap_rounds
swap_rounds-nibbles zero i s h = h
swap_rounds-nibbles (suc n) i s h = swap_rounds-nibbles n (i + 2) (swap_places i (i + 20) s) (
    set-nibbles (set s i (get_or s (i + 20) 0)) (i + 20) (get_or s i 0)
      (set-nibbles s i (get_or s (i + 20) 0) h (get_or-nibble s (i + 20) h)) (get_or-nibble s i h))

length-swap_rounds : (n i : ℕ) (s : State) → length (swap_rounds n i s) ≡ length s
unfolding swap_rounds
length-swap_rounds zero i s = refl
length-swap_rounds (suc n) i s =
    length-swap_rounds n (i + 2) (swap_places i (i + 20) s)
    ∙ length-set (set s i (get_or s (i + 20) 0)) (i + 20) (get_or s i 0)
    ∙ length-set s i (get_or s (i + 20) 0)

pub length-permute : (s : State) → length (permute s) ≡ 40
unfolding permute
length-permute s = length-swap_rounds 10 0 (rotate_columns (shift_rows s))

pub permute-IsState : (s : State) → All (λ n. n < 16) s → IsState (permute s)
unfolding permute
permute-IsState s h = record {
  forty = length-permute s;
  nibbles = swap_rounds-nibbles 10 0 (rotate_columns (shift_rows s)) (
      map-nibbles (λ x. (x / 8 + x % 8 % 5) % 5 * 8 + x % 8) (shift_rows s) (range_from 0 40)
        (map-nibbles (λ x. x / 8 * 8 + (x % 8 + x / 8) % 8) s (range_from 0 40) h));
}

-- A round leads from forty nibbles to forty nibbles.
pub round_state-IsState : (s : State) (r : ℕ) → IsState s → IsState (round_state s r)
unfolding round_state
round_state-IsState s r h =
    permute-IsState _ (mix-nibbles _ (substituted-nibbles _ (add_from-nibbles r 0 s)))

-- A list is the table of its places.
pub tabulated :
    (f : ℕ → ℕ) (a n : ℕ) (xs : List ℕ)
    → length xs ≡ n
    → ((k : ℕ) → f (a + k) ≡ get_or xs k 0)
    → map f (range_from a n) ≡ xs
tabulated f a zero [] e h = refl
tabulated f a zero (x ∷ xs) e h = absurd (omega arith)
tabulated f a (suc n) [] e h = absurd (omega arith)
tabulated f a (suc n) (x ∷ xs) e h =
    let here : a + 0 ≡ a = omega arith in
    let first : f a ≡ x = ap f (sym here) ∙ h 0 in
    let shift : (k : ℕ) → f (suc a + k) ≡ get_or xs k 0 =
      λ k. (let there : suc a + k ≡ a + suc k = omega arith in ap f there ∙ h (suc k)) in
    rw (first, tabulated f (suc a) n xs (omega arith) shift) refl

-- Forty nibbles are the table of their places.
pub tabulated_state : (s : State) → length s ≡ 40 → map (λ i. get_or s i 0) (range_from 0 40) ≡ s
tabulated_state s e =
    tabulated (λ i. get_or s i 0) 0 40 s e
      (λ k. (let z : 0 + k ≡ k = omega arith in ap (λ (i : ℕ). get_or s i 0) z))

pub rounds_state-IsState : (n : ℕ) (s : State) (r : ℕ) → IsState s → IsState (rounds_state n s r)
unfolding rounds_state
rounds_state-IsState zero s r h = h
rounds_state-IsState (suc n) s r h =
    rounds_state-IsState n (round_state s r) (suc r) (round_state-IsState s r h)

looked_up : (n : ℕ) (xs : List ℕ) → n < length xs → get_elem? xs n ≡ some (get_or xs n 0)
looked_up n [] h = absurd (omega arith)
looked_up zero (x ∷ xs) h = refl
looked_up (suc n) (x ∷ xs) h = looked_up n xs (omega arith)

-- The S-box is never read outside its table.
sbox_layer-some : (s : State) → All (λ n. n < 16) s → sbox_layer s ≡ some (substituted s)
unfolding sbox_layer substituted
sbox_layer-some [] h = refl
sbox_layer-some (n ∷ ns) h = rw (looked_up n sbox h.0, sbox_layer-some ns h.1) refl

pub spn_round-some : (s : State) (r : ℕ) → spn_round s r ≡ some (round_state s r)
unfolding spn_round round_state add_constants
spn_round-some s r = rw (sbox_layer-some (add_from r 0 s) (add_from-nibbles r 0 s)) refl

pub rounds_from-some : (n : ℕ) (s : State) (r : ℕ) → rounds_from n s r ≡ some (rounds_state n s r)
unfolding rounds_from rounds_state
rounds_from-some zero s r = refl
rounds_from-some (suc n) s r =
    rw (spn_round-some s r, rounds_from) (rounds_from-some n (round_state s r) (suc r))
