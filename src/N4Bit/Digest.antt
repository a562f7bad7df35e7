-- ===== src/N4Bit/Digest.antt =====
-- What `hash` and `hash_claim` of crates/n4bit/src/lib.rs return: twenty bytes.
use Prim.Native.Nat.{bit_or}
use mathlib.Core.Path.{ap₂}
use ln_gap.Prelude.{
  Option, some, ℕ, zero, suc, ◌+◌, ◌*◌, ◌/◌, ◌%◌, ◌<◌, ◌≡◌, refl, ap, ◌∙◌, List, [], ◌∷◌, ◌++◌,
  length, All, arith, length-append, length-take, take, Bytes, replicate, ◌==◌, if◌then◌else◌, sym,
  join_nibbles,
}
use ln_gap.N4Bit.{
  State, nibbles_to_bytes, apply_rounds, add_block, sponge_absorb, absorb_blocks, zero_state, hash,
  hash_claim, to_digest, squeeze, close_claim, rate_blocks, bytes_to_nibbles, claim_rounds,
}
use ln_gap.N4Bit.Ranges.{IsState, rounds_state, rounds_from-some, rounds_state-IsState}

-- A digest: twenty bytes.
pub record IsDigest (digest : Bytes) : Type 0 where
  pub twenty : length digest ≡ 20
  pub bytes : All (λ b. b < 256) digest

pub add_block-nibbles :
    (s : State) (b : List ℕ) → All (λ n. n < 16) s → All (λ n. n < 16) (add_block s b)
unfolding add_block
add_block-nibbles [] bs h = tt
add_block-nibbles (n ∷ ns) [] h = h
add_block-nibbles (n ∷ ns) (b ∷ bs) h = (omega arith, add_block-nibbles ns bs h.1)

pub length-add_block : (s : State) (b : List ℕ) → length (add_block s b) ≡ length s
unfolding add_block
length-add_block [] bs = refl
length-add_block (n ∷ ns) [] = refl
length-add_block (n ∷ ns) (b ∷ bs) = ap suc (length-add_block ns bs)

pub add_block-IsState : (s : State) (b : List ℕ) → IsState s → IsState (add_block s b)
add_block-IsState s b h = record {
  forty = length-add_block s b ∙ h.forty;
  nibbles = add_block-nibbles s b h.nibbles;
}

-- The rounds on a state.
apply_rounds-some : (s : State) (r : ℕ) → apply_rounds s r ≡ some (rounds_state 20 s r)
unfolding apply_rounds
apply_rounds-some s r = rounds_from-some 20 s r

pub sponge_absorb-some :
    (s : State) (block : List ℕ) (r : ℕ)
    → sponge_absorb s block r ≡ some (rounds_state 20 (add_block s block) r)
unfolding sponge_absorb
sponge_absorb-some s block r = apply_rounds-some (add_block s block) r

absorb_blocks_returns :
    (blocks : List (List ℕ)) (s : State) (r : ℕ)
    → IsState s
    → (t : State × ℕ) × (absorb_blocks blocks s r ≡ some t) × IsState t.0
unfolding absorb_blocks
absorb_blocks_returns [] s r h = ((s, r), refl, h)
absorb_blocks_returns (block ∷ blocks) s r h =
    let after = rounds_state 20 (add_block s block) r in
    let (t, e, k) =
      absorb_blocks_returns blocks after (r + 20)
        (rounds_state-IsState 20 _ r (add_block-IsState s block h)) in
    (t, rw (sponge_absorb-some s block r, absorb_blocks) e, k)

pub zero_state-IsState : IsState zero_state
zero_state-IsState = record { forty = refl; nibbles = omega arith }

joined : (a b : ℕ) → a < 16 → b < 16 → bit_or (a * 16 % 256) b < 256
joined a b h k =
    let hi : (a * 16 + b) / 16 ≡ a = omega arith in
    let lo : (a * 16 + b) % 16 ≡ b = omega arith in
    let whole : bit_or (a * 16 % 256) b ≡ a * 16 + b =
      sym (ap₂ (λ (x y : ℕ). bit_or (x * 16 % 256) y) hi lo)
      ∙ join_nibbles (a * 16 + b) (omega arith) in
    omega (arith, whole)

nibbles_to_bytes-bytes :
    (ns : List ℕ) → All (λ n. n < 16) ns → All (λ b. b < 256) (nibbles_to_bytes ns)
unfolding nibbles_to_bytes
nibbles_to_bytes-bytes [] h = tt
nibbles_to_bytes-bytes (a ∷ []) h = tt
nibbles_to_bytes-bytes (a ∷ (b ∷ ns)) h = (joined a b h.0 h.1.0, nibbles_to_bytes-bytes ns h.1.1)

pub length-nibbles_to_bytes :
    (k : ℕ) (ns : List ℕ) → length ns ≡ k * 2 → length (nibbles_to_bytes ns) ≡ k
unfolding nibbles_to_bytes
length-nibbles_to_bytes zero [] e = refl
length-nibbles_to_bytes zero (a ∷ ns) e = absurd (omega arith)
length-nibbles_to_bytes (suc k) [] e = absurd (omega arith)
length-nibbles_to_bytes (suc k) (a ∷ []) e = absurd (omega arith)
length-nibbles_to_bytes (suc k) (a ∷ (b ∷ ns)) e =
    ap suc (length-nibbles_to_bytes k ns (omega arith))

All-append :
    (xs ys : List ℕ) → All (λ n. n < 16) xs → All (λ n. n < 16) ys → All (λ n. n < 16) (xs ++ ys)
All-append [] ys h k = k
All-append (x ∷ xs) ys h k = (h.0, All-append xs ys h.1 k)

All-take : (n : ℕ) (xs : List ℕ) → All (λ n. n < 16) xs → All (λ n. n < 16) (take n xs)
All-take zero [] h = tt
All-take zero (x ∷ xs) h = tt
All-take (suc n) [] h = tt
All-take (suc n) (x ∷ xs) h = (h.0, All-take n xs h.1)

-- The bytes of twice the rate of nibbles make a digest.
squeezed-IsDigest :
    (s t : State) → IsState s → IsState t → IsDigest (nibbles_to_bytes (take 20 s ++ take 20 t))
squeezed-IsDigest s t h k = record {
  twenty = length-nibbles_to_bytes 20 (take 20 s ++ take 20 t) (
      omega (
        arith,
        length-append (take 20 s) (take 20 t),
        length-take 20 s,
        length-take 20 t,
        h.forty,
        k.forty,
      ));
  bytes =
      nibbles_to_bytes-bytes _
        (All-append (take 20 s) (take 20 t) (All-take 20 s h.nibbles) (All-take 20 t k.nibbles));
}

pub whole_state-IsDigest : (s : State) → IsState s → IsDigest (nibbles_to_bytes s)
whole_state-IsDigest s h = record {
  twenty = length-nibbles_to_bytes 20 s h.forty;
  bytes = nibbles_to_bytes-bytes s h.nibbles;
}

-- Twenty bytes are copied into a digest.
pub to_digest-some : (bytes : Bytes) → length bytes ≡ 20 → to_digest bytes ≡ some bytes
unfolding to_digest
to_digest-some bytes e = rw e refl

-- What a hash returns.
abbrev Returns : Option Bytes → Type 0
Returns result = (digest : Bytes) × (result ≡ some digest) × IsDigest digest

squeeze-Returns : (absorbed : State × ℕ) → IsState absorbed.0 → Returns (squeeze absorbed)
unfolding squeeze
squeeze-Returns (s, r) h =
    let closed = rounds_state 20 (add_block s (1 ∷ [])) r in
    let there = rounds_state-IsState 20 _ r (add_block-IsState s (1 ∷ []) h) in
    let d =
      squeezed-IsDigest closed (rounds_state 20 closed (r + 20)) there
        (rounds_state-IsState 20 closed (r + 20) there) in
    (
      _,
      rw (apply_rounds-some (add_block s (1 ∷ [])) r, squeeze, apply_rounds-some closed (r + 20))
          (to_digest-some _ d.twenty),
      d,
    )

close_claim-Returns : (absorbed : State × ℕ) → IsState absorbed.0 → Returns (close_claim absorbed)
unfolding close_claim
close_claim-Returns (s, r) h =
    let d =
      whole_state-IsDigest (rounds_state 20 (add_block s (replicate 20 0)) r)
        (rounds_state-IsState 20 _ r (add_block-IsState s (replicate 20 0) h)) in
    (_, rw (sponge_absorb-some s (replicate 20 0) r, close_claim) (to_digest-some _ d.twenty), d)

hash-Returns : (input : Bytes) → Returns (hash input)
unfolding hash
hash-Returns input =
    let (t, e, h) =
      absorb_blocks_returns (rate_blocks (bytes_to_nibbles input)) zero_state 0
        zero_state-IsState in
    let (d, f, k) = squeeze-Returns t h in (d, rw (e, hash) f, k)

hash_claim-Returns : (input : Bytes) → Returns (hash_claim input)
unfolding hash_claim
hash_claim-Returns input =
    let nibbles = bytes_to_nibbles input in
    let needed = (length nibbles + 15) / 16 in
    let blocks = claim_rounds (if needed == 0 then 1 else needed) nibbles in
    let (t, e, h) = absorb_blocks_returns blocks zero_state 0 zero_state-IsState in
    let (d, f, k) = close_claim-Returns t h in (d, rw (e, hash_claim) f, k)

-- Both hashes return a digest of twenty bytes on every input: no lookup in the S-box and no copy of
-- the digest panics.
pub hashes_return :
    (input : Bytes)
    → ((digest : Bytes) × (hash input ≡ some digest) × IsDigest digest)
      × ((digest : Bytes) × (hash_claim input ≡ some digest) × IsDigest digest)
hashes_return input = (hash-Returns input, hash_claim-Returns input)
