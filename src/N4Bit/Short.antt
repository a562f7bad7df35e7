-- ===== src/N4Bit/Short.antt =====
-- `hash_claim` of crates/n4bit/src/lib.rs on inputs of one block: different inputs of one length have
-- different digests.
use Prim.Native.Nat.{bit_or}
use mathlib.Core.Path.{ap₂}
use ln_gap.Prelude.{
  ℕ, zero, suc, ◌+◌, ◌*◌, ◌/◌, ◌%◌, ◌<◌, ◌≤◌, ◌≡◌, refl, ap, sym, ◌∙◌, List, [], ◌∷◌, ◌++◌, length,
  All, arith, length-append, take, take-append, Bytes, replicate, ◌==◌, ◌-◌, if◌then◌else◌,
  join_nibbles, some,
}
use ln_gap.N4Bit.{
  State, nibbles_to_bytes, bytes_to_nibbles, add_block, absorb_blocks, close_claim, claim_rounds,
  zero_state, hash_claim, padded,
}
use ln_gap.N4Bit.Ranges.{IsState, rounds_state, rounds_state-IsState}
use ln_gap.N4Bit.Inverse.{rounds_state_injective}
use ln_gap.N4Bit.Digest.{
  sponge_absorb-some, to_digest-some, add_block-IsState, zero_state-IsState,
  length-nibbles_to_bytes,
}

length-bytes_to_nibbles : (xs : Bytes) → length (bytes_to_nibbles xs) ≡ length xs * 2
unfolding bytes_to_nibbles
length-bytes_to_nibbles [] = refl
length-bytes_to_nibbles (x ∷ xs) = omega (arith, length-bytes_to_nibbles xs)

bytes_to_nibbles-nibbles : (xs : Bytes) → All (λ n. n < 16) (bytes_to_nibbles xs)
unfolding bytes_to_nibbles
bytes_to_nibbles-nibbles [] = tt
bytes_to_nibbles-nibbles (x ∷ xs) = (omega arith, (omega arith, bytes_to_nibbles-nibbles xs))

nibbles_to_bytes-bytes_to_nibbles :
    (xs : Bytes) → All (λ b. b < 256) xs → nibbles_to_bytes (bytes_to_nibbles xs) ≡ xs
unfolding nibbles_to_bytes bytes_to_nibbles
nibbles_to_bytes-bytes_to_nibbles [] h = refl
nibbles_to_bytes-bytes_to_nibbles (x ∷ xs) h =
    let small : x < 256 = h.0 in
    let high : x / 16 % 16 ≡ x / 16 = omega arith in
    rw (high, join_nibbles x small, nibbles_to_bytes-bytes_to_nibbles xs h.1) refl

low_of : (a b : ℕ) → b < 16 → (a * 16 + b) % 16 ≡ b
low_of a b k = omega arith

high_byte : (a b : ℕ) → b < 16 → (a * 16 + b) / 16 ≡ a
high_byte a b k = omega arith

high_of : (a b : ℕ) → a < 16 → b < 16 → (a * 16 + b) / 16 % 16 ≡ a
high_of a b h k = omega arith

below_same : (p q : ℕ) → p < 16 → q < 16 → (0 + p) % 16 ≡ (0 + q) % 16 → p ≡ q
below_same p q h k e = omega arith

joined_nibbles : (a b : ℕ) → a < 16 → b < 16 → bit_or (a * 16 % 256) b ≡ a * 16 + b
joined_nibbles a b h k =
    sym (ap₂ (λ (x y : ℕ). bit_or (x * 16 % 256) y) (high_byte a b k) (low_of a b k))
    ∙ join_nibbles (a * 16 + b) (omega arith)

bytes_to_nibbles-nibbles_to_bytes :
    (k : ℕ) (ns : List ℕ)
    → length ns ≡ k * 2
    → All (λ n. n < 16) ns
    → bytes_to_nibbles (nibbles_to_bytes ns) ≡ ns
unfolding nibbles_to_bytes bytes_to_nibbles
bytes_to_nibbles-nibbles_to_bytes zero [] e h = refl
bytes_to_nibbles-nibbles_to_bytes zero (a ∷ ns) e h = absurd (omega arith)
bytes_to_nibbles-nibbles_to_bytes (suc k) [] e h = absurd (omega arith)
bytes_to_nibbles-nibbles_to_bytes (suc k) (a ∷ []) e h = absurd (omega arith)
bytes_to_nibbles-nibbles_to_bytes (suc k) (a ∷ (b ∷ ns)) e h =
    let whole = joined_nibbles a b h.0 h.1.0 in
    let high : (a * 16 + b) / 16 % 16 ≡ a = high_of a b h.0 h.1.0 in
    let low : (a * 16 + b) % 16 ≡ b = low_of a b h.1.0 in
    rw (whole, high, low, bytes_to_nibbles-nibbles_to_bytes k ns (omega arith) h.1.1) refl

absorbed_zeros : (s : State) (m : ℕ) → All (λ n. n < 16) s → add_block s (replicate m 0) ≡ s
unfolding add_block
absorbed_zeros [] m h = refl
absorbed_zeros (n ∷ ns) zero h = refl
absorbed_zeros (n ∷ ns) (suc m) h =
    let small : n < 16 = h.0 in
    let same : (n + 0) % 16 ≡ n = omega arith in rw (same, absorbed_zeros ns m h.1) refl

absorbed_injective :
    (m : ℕ) (ps qs : List ℕ)
    → length ps ≡ length qs
    → length ps ≤ m
    → All (λ n. n < 16) ps
    → All (λ n. n < 16) qs
    → add_block (replicate m 0) ps ≡ add_block (replicate m 0) qs
    → ps ≡ qs
unfolding add_block
absorbed_injective m [] [] e l h k g = refl
absorbed_injective m [] (q ∷ qs) e l h k g = absurd (omega arith)
absorbed_injective m (p ∷ ps) [] e l h k g = absurd (omega arith)
absorbed_injective zero (p ∷ ps) (q ∷ qs) e l h k g = absurd (omega arith)
absorbed_injective (suc m) (p ∷ ps) (q ∷ qs) e l h k g =
    let first : (0 + p) % 16 ≡ (0 + q) % 16 = cc in
    let rest : add_block (replicate m 0) ps ≡ add_block (replicate m 0) qs = cc in
    let ih = absorbed_injective m ps qs (omega arith) (omega arith) h.1 k.1 rest in
    let same : p ≡ q = below_same p q h.0 k.0 first in rw (same, ih) refl

-- The first block of an input of at most sixteen nibbles.
abbrev block_of : Bytes → List ℕ
block_of xs = padded 20 (take 16 (bytes_to_nibbles xs))

abbrev absorbed : Bytes → State
absorbed xs = rounds_state 20 (add_block zero_state (block_of xs)) 0

-- The state at the end of `hash_claim`.
abbrev closing : Bytes → State
closing xs = rounds_state 20 (add_block (absorbed xs) (replicate 20 0)) 20

absorbed-IsState : (xs : Bytes) → IsState (absorbed xs)
absorbed-IsState xs =
    rounds_state-IsState 20 _ 0 (add_block-IsState zero_state (block_of xs) zero_state-IsState)

closing-IsState : (xs : Bytes) → IsState (closing xs)
closing-IsState xs =
    rounds_state-IsState 20 _ 20
      (add_block-IsState (absorbed xs) (replicate 20 0) (absorbed-IsState xs))

one_block : (n : ℕ) → n ≤ 16 → (if (n + 15) / 16 == 0 then 1 else (n + 15) / 16) ≡ 1
one_block n h = ground arith

take_all : (n : ℕ) (xs : List ℕ) → length xs ≤ n → take n xs ≡ xs
take_all zero [] h = refl
take_all zero (x ∷ xs) h = absurd (omega arith)
take_all (suc n) [] h = refl
take_all (suc n) (x ∷ xs) h = rw (take_all n xs (omega arith)) refl

hash_claim_short :
    (xs : Bytes) → length xs ≤ 8 → hash_claim xs ≡ some (nibbles_to_bytes (closing xs))
unfolding hash_claim
hash_claim_short xs h =
    let n = length-bytes_to_nibbles xs in
    rw
      (
        one_block (length (bytes_to_nibbles xs)) (omega (arith, n)),
        claim_rounds,
        absorb_blocks,
        sponge_absorb-some zero_state (block_of xs) 0,
        hash_claim,
        close_claim,
        sponge_absorb-some (absorbed xs) (replicate 20 0) 20,
      )
      (to_digest-some _ (length-nibbles_to_bytes 20 (closing xs) (closing-IsState xs).forty))

length-replicate : (n : ℕ) → length (replicate {A = ℕ} n 0) ≡ n
length-replicate zero = refl
length-replicate (suc n) = ap suc (length-replicate n)

padded-nibbles :
    (ns : List ℕ) (m : ℕ) → All (λ n. n < 16) ns → All (λ n. n < 16) (ns ++ replicate m 0)
padded-nibbles [] zero h = tt
padded-nibbles [] (suc m) h = (omega arith, padded-nibbles [] m h)
padded-nibbles (n ∷ ns) m h = (h.0, padded-nibbles ns m h.1)

block_of_injective :
    (xs ys : Bytes)
    → length xs ≡ length ys
    → length xs ≤ 8
    → All (λ b. b < 256) xs
    → All (λ b. b < 256) ys
    → block_of xs ≡ block_of ys
    → xs ≡ ys
block_of_injective xs ys e h k l same =
    let n = length-bytes_to_nibbles xs in
    let m = length-bytes_to_nibbles ys in
    let ns = bytes_to_nibbles xs in
    let ms = bytes_to_nibbles ys in
    let p = take_all 16 ns (omega (arith, n)) in
    let q = take_all 16 ms (omega (arith, m, e)) in
    let front : take (length ns) (padded 20 ns) ≡ ns = take-append ns _ in
    let back : take (length ms) (padded 20 ms) ≡ ms = take-append ms _ in
    let sized : length ns ≡ length ms = omega (arith, n, m, e) in
    let padded_same : padded 20 ns ≡ padded 20 ms = rw (p, q) at same in
    let nibbles : ns ≡ ms =
      sym front ∙ ap₂ (λ (t : ℕ) (zs : List ℕ). take t zs) sized padded_same ∙ back in
    sym (nibbles_to_bytes-bytes_to_nibbles xs k)
    ∙ ap nibbles_to_bytes nibbles
    ∙ nibbles_to_bytes-bytes_to_nibbles ys l

length-block_of : (xs : Bytes) → length xs ≤ 8 → length (block_of xs) ≡ 20
length-block_of xs h =
    let n = length-bytes_to_nibbles xs in
    rw (take_all 16 (bytes_to_nibbles xs) (omega (arith, n))) (
      omega (
        arith,
        length-append (bytes_to_nibbles xs) (replicate (20 - length (bytes_to_nibbles xs)) 0),
        length-replicate (20 - length (bytes_to_nibbles xs)),
        n,
      ))

block_of-nibbles : (xs : Bytes) → length xs ≤ 8 → All (λ n. n < 16) (block_of xs)
block_of-nibbles xs h =
    let n = length-bytes_to_nibbles xs in
    rw (take_all 16 (bytes_to_nibbles xs) (omega (arith, n))) (
      padded-nibbles (bytes_to_nibbles xs) (20 - length (bytes_to_nibbles xs))
        (bytes_to_nibbles-nibbles xs))

-- Inputs of one length, of at most eight bytes each, that `hash_claim` takes to the same digest are
-- the same.
pub hash_claim_injective :
    (xs ys : Bytes)
    → length xs ≡ length ys
    → length xs ≤ 8
    → All (λ b. b < 256) xs
    → All (λ b. b < 256) ys
    → hash_claim xs ≡ hash_claim ys
    → xs ≡ ys
hash_claim_injective xs ys e h k l same =
    let a = hash_claim_short xs h in
    let b = hash_claim_short ys (omega (arith, e)) in
    let digests : nibbles_to_bytes (closing xs) ≡ nibbles_to_bytes (closing ys) = cc in
    let c = closing-IsState xs in
    let d = closing-IsState ys in
    let closed : closing xs ≡ closing ys =
      sym (bytes_to_nibbles-nibbles_to_bytes 20 (closing xs) c.forty c.nibbles)
      ∙ ap bytes_to_nibbles digests
      ∙ bytes_to_nibbles-nibbles_to_bytes 20 (closing ys) d.forty d.nibbles in
    let i = absorbed-IsState xs in
    let j = absorbed-IsState ys in
    let padded_same =
      rounds_state_injective 20 20 _ _ (add_block-IsState (absorbed xs) (replicate 20 0) i)
        (add_block-IsState (absorbed ys) (replicate 20 0) j) closed in
    let first : absorbed xs ≡ absorbed ys =
      sym (absorbed_zeros (absorbed xs) 20 i.nibbles)
      ∙ padded_same
      ∙ absorbed_zeros (absorbed ys) 20 j.nibbles in
    let blocks =
      rounds_state_injective 20 0 _ _
        (add_block-IsState zero_state (block_of xs) zero_state-IsState)
        (add_block-IsState zero_state (block_of ys) zero_state-IsState) first in
    let n = length-block_of xs h in
    let m = length-block_of ys (omega (arith, e)) in
    block_of_injective xs ys e h k l (
      absorbed_injective 40 (block_of xs) (block_of ys) (n ∙ sym m) (omega (arith, n))
        (block_of-nibbles xs h) (block_of-nibbles ys (omega (arith, e))) blocks)
