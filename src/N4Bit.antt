-- ===== src/N4Bit.antt =====
-- crates/n4bit/src/lib.rs: a sponge hash over forty nibbles. A state is a list of numbers below 16.
mod Examples
pub mod Digest
pub mod Inverse
pub mod Short
pub mod Target
pub mod Ranges
pub mod Script
use Prim.Native.Nat.{bit_or}
use mathlib.Core.Option
use ln_gap.Prelude.{
  ℕ, zero, suc, ◌+◌, ◌*◌, ◌/◌, ◌%◌, Bool, true, false, Option, some, none, List, [], ◌∷◌, ◌++◌, map,
  if◌then◌else◌, ◌==◌, ltb, length, get_or, get_elem?, set, take, drop, replicate, range_from,
  Bytes, ◌-◌, ◌^◌,
}

abbrev pub sbox : List ℕ
sbox =
    12
    ∷ (5
        ∷ (6
            ∷ (11
                ∷ (9 ∷ (0 ∷ (10 ∷ (13 ∷ (3 ∷ (14 ∷ (15 ∷ (8 ∷ (4 ∷ (7 ∷ (1 ∷ (2 ∷ [])))))))))))))))

-- The loop `inv[SBOX[i]] = i`, from place `i` on.
unfoldable pub invert_from : ℕ → List ℕ → List ℕ → List ℕ
invert_from i [] inv = inv
invert_from i (s ∷ ss) inv = invert_from (suc i) ss (set inv s i)

unfoldable pub sbox_inv : List ℕ
unfolding invert_from
sbox_inv = invert_from 0 sbox (replicate 16 0)

abbrev pub state_nibbles : ℕ
state_nibbles = 40

abbrev pub rate_nibbles : ℕ
rate_nibbles = 20

abbrev pub round_count : ℕ
round_count = 20

abbrev pub digest_bytes : ℕ
digest_bytes = 20

abbrev pub State : Type 0
State = List ℕ

unfoldable pub rc : ℕ → ℕ → ℕ
rc r i = (r * 7 + i * 3 + 1) % 16

-- A nibble outside the table panics.
unfoldable pub sbox_layer : State → Option State
sbox_layer [] = some []
sbox_layer (n ∷ ns) =
    let rest = sbox_layer ns in
    elim (get_elem? sbox n) [ none ↦ none | some x ↦ Option.map (λ (ys : State). x ∷ ys) rest ]

-- The loop over `iter_mut().enumerate()`, from place `i` on.
unfoldable pub add_from : ℕ → ℕ → State → State
add_from round i [] = []
add_from round i (n ∷ ns) = (n + rc round i) % 16 ∷ add_from round (suc i) ns

unfoldable pub add_constants : State → ℕ → State
unfolding add_from
add_constants state round = add_from round 0 state

unfoldable pub mix : State → State
mix (a ∷ (b ∷ rest)) = (a + b) % 16 ∷ ((b + (a + b) % 16) % 16 ∷ mix rest)
mix rest = rest

-- `tmp[r * COLS + c] = state[r * COLS + (c + r) % COLS]`, place by place.
unfoldable pub shift_rows : List ℕ → List ℕ
shift_rows state =
    map (λ i. get_or state (i / 8 * 8 + (i % 8 + i / 8) % 8) 0) (range_from 0 state_nibbles)

-- `state[r * COLS + c] = tmp[((r + shift) % ROWS) * COLS + c]`, place by place.
unfoldable pub rotate_columns : List ℕ → List ℕ
rotate_columns tmp =
    map (λ i. get_or tmp ((i / 8 + i % 8 % 5) % 5 * 8 + i % 8) 0) (range_from 0 state_nibbles)

-- `state.swap(i, j)`
abbrev pub swap_places : ℕ → ℕ → List ℕ → List ℕ
swap_places i j state = set (set state i (get_or state j 0)) j (get_or state i 0)

-- `for i in (0..RATE_NIBBLES).step_by(2)`, `n` rounds from `i` on.
unfoldable pub swap_rounds : ℕ → ℕ → List ℕ → List ℕ
swap_rounds zero i state = state
swap_rounds (suc n) i state = swap_rounds n (i + 2) (swap_places i (i + rate_nibbles) state)

unfoldable pub permute : State → State
unfolding shift_rows rotate_columns swap_rounds
permute state = swap_rounds 10 0 (rotate_columns (shift_rows state))

unfoldable pub spn_round : State → ℕ → Option State
unfolding add_constants sbox_layer mix permute
spn_round state round =
    Option.map (λ (boxed : State). permute (mix boxed)) (sbox_layer (add_constants state round))

unfoldable pub rounds_from : ℕ → State → ℕ → Option State
rounds_from zero state r = some state
rounds_from (suc n) state r = elim (spn_round state r) [
  | none ↦ none
  | some next ↦ rounds_from n next (suc r)
]

unfoldable pub apply_rounds : State → ℕ → Option State
unfolding rounds_from
apply_rounds state starting_round = rounds_from round_count state starting_round

-- `state[i] = (state[i] + block[i]) % 16` over the places of the block.
unfoldable pub add_block : State → List ℕ → State
add_block [] bs = []
add_block (n ∷ ns) [] = n ∷ ns
add_block (n ∷ ns) (b ∷ bs) = (n + b) % 16 ∷ add_block ns bs

unfoldable pub sponge_absorb : State → List ℕ → ℕ → Option State
unfolding add_block
sponge_absorb state block round_counter = apply_rounds (add_block state block) round_counter

unfoldable pub bytes_to_nibbles : Bytes → List ℕ
bytes_to_nibbles [] = []
bytes_to_nibbles (b ∷ bs) = b / 16 % 16 ∷ (b % 16 ∷ bytes_to_nibbles bs)

-- `chunks(2)` of an even number of nibbles.
unfoldable pub nibbles_to_bytes : List ℕ → Bytes
nibbles_to_bytes (hi ∷ (lo ∷ rest)) = bit_or (hi * 16 % 256) lo ∷ nibbles_to_bytes rest
nibbles_to_bytes rest = []

-- A block of the given width, padded with zeros.
abbrev pub padded : ℕ → List ℕ → List ℕ
padded width chunk = chunk ++ replicate (width - length chunk) 0

-- `while i < nibbles.len()`, on fuel of that length.
unfoldable pub rate_rounds : ℕ → List ℕ → List (List ℕ)
rate_rounds zero nibbles = []
rate_rounds (suc fuel) [] = []
rate_rounds (suc fuel) (n ∷ ns) =
    padded rate_nibbles (take rate_nibbles (n ∷ ns)) ∷ rate_rounds fuel (drop rate_nibbles (n ∷ ns))

unfoldable pub rate_blocks : List ℕ → List (List ℕ)
unfolding rate_rounds
rate_blocks [] = replicate rate_nibbles 0 ∷ []
rate_blocks (n ∷ ns) = rate_rounds (length (n ∷ ns)) (n ∷ ns)

-- The loop over the blocks; the state and the round counter after them.
unfoldable pub absorb_blocks : List (List ℕ) → State → ℕ → Option (State × ℕ)
absorb_blocks [] state round_counter = some (state, round_counter)
absorb_blocks (block ∷ blocks) state round_counter =
    elim (sponge_absorb state block round_counter) [
      | none ↦ none
      | some next ↦ absorb_blocks blocks next (round_counter + round_count)
    ]

abbrev pub zero_state : State
zero_state = replicate state_nibbles 0

-- `digest.copy_from_slice(&bytes)` panics on another length.
unfoldable pub to_digest : Bytes → Option Bytes
to_digest bytes = if length bytes == digest_bytes then some bytes else none

-- The padding and the two halves of the digest.
unfoldable pub squeeze : State × ℕ → Option Bytes
unfolding add_block apply_rounds
squeeze (absorbed, counter) = elim (apply_rounds (add_block absorbed (1 ∷ [])) counter) [
  | none ↦ none
  | some closed ↦ elim (apply_rounds closed (counter + round_count)) [
    | none ↦ none
    | some squeezed ↦
        to_digest (nibbles_to_bytes (take rate_nibbles closed ++ take rate_nibbles squeezed))
  ]
]

unfoldable pub hash : Bytes → Option Bytes
unfolding absorb_blocks squeeze
hash input = elim (absorb_blocks (rate_blocks (bytes_to_nibbles input)) zero_state 0) [
  | none ↦ none
  | some absorbed ↦ squeeze absorbed
]

-- The blocks of `hash_claim`: sixteen nibbles each, padded to the rate; one at least.
unfoldable pub claim_rounds : ℕ → List ℕ → List (List ℕ)
claim_rounds zero nibbles = []
claim_rounds (suc n) nibbles =
    padded rate_nibbles (take 16 nibbles) ∷ claim_rounds n (drop 16 nibbles)

-- The block of zeros at the end; the digest is the whole state.
unfoldable pub close_claim : State × ℕ → Option Bytes
unfolding sponge_absorb
close_claim (state, counter) = elim (sponge_absorb state (replicate rate_nibbles 0) counter) [
  | none ↦ none
  | some closed ↦ to_digest (nibbles_to_bytes closed)
]

unfoldable pub hash_claim : Bytes → Option Bytes
unfolding claim_rounds absorb_blocks close_claim
hash_claim input =
    let nibbles = bytes_to_nibbles input in
    let needed = (length nibbles + 15) / 16 in
    let n_blocks = if needed == 0 then 1 else needed in
    elim (absorb_blocks (claim_rounds n_blocks nibbles) zero_state 0) [
      | none ↦ none
      | some absorbed ↦ close_claim absorbed
    ]

-- `digest <= target` from the first byte on; the two have one length.
unfoldable pub meets_target : Bytes → Bytes → Bool
meets_target (d ∷ ds) (t ∷ ts) = let rest = meets_target ds ts in if d == t then rest else ltb d t
meets_target _ _ = true

-- `1u8 << amount`, of an amount up to 8: a shift by 8 panics under overflow checks and is a shift by
-- 0 without them.
abbrev pub shift_one : Bool → ℕ → Option ℕ
shift_one overflow_checks amount =
    if amount == 8 then if overflow_checks then none else some 1 else some (2 ^ amount % 256)

unfoldable pub target_from_difficulty : Bool → ℕ → Option Bytes
target_from_difficulty overflow_checks bits =
    let full_bytes = bits / 8 in
    let remaining_bits = bits % 8 in
    if ltb full_bytes 20
    then Option.map
        (λ (shifted : ℕ). replicate full_bytes 0 ++ (shifted - 1) ∷ replicate (19 - full_bytes) 255)
        (shift_one overflow_checks (8 - remaining_bits))
    else some (replicate 20 0)
