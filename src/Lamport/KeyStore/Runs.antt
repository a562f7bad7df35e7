-- ===== src/Lamport/KeyStore/Runs.antt =====
-- Sequences of calls on the key store of crates/lamport/src/keystore.rs, and its Lamport labels.
use ln_gap.Prelude.{
  ℕ, ◌≡◌, inl, inr, Bool, some, none, List, [], ◌∷◌, ◌++◌, length, list_eq, list_eq→eq, ok,
  Bool-cases, Option-cases, arith,
}
use ln_gap.Lamport.Bits.{uint_to_bits}
use ln_gap.Lamport.Key.{Bytes, SecretKey, Reveal, Rng, reveal_bits, from_entropy}
use ln_gap.Lamport.KeyStore.{
  Entry, KeyStore, find, may_reveal, reveal_entry, reveal, reveal_value, generate, generate_wots,
  sign_wots, derive_bytes, lamport_prefix,
}
use ln_gap.Lamport.KeyStore.Commitment.{
  bits_eq→eq, bits_eq_refl, find-put_self, find-put_ne, HasRevealed, reveal-HasRevealed,
}

-- The calls that change a store.
pub data Call : Type 0 where
  generate_call : Bytes → ℕ → Call
  reveal_call : Bytes → List Bool → Call
  reveal_value_call : Bytes → ℕ → Call
  generate_wots_call : Bool → Bytes → ℕ → Call
  sign_call : Bytes → Bytes → Call

module _ (rng : Rng) (sha256 hash160 : Bytes → Bytes) where
  unfoldable pub step : KeyStore → Call → KeyStore
  step s (generate_call l n) = (generate rng sha256 hash160 s l n).0
  step s (reveal_call l bits) = (reveal s l bits).0
  step s (reveal_value_call l v) = (reveal_value s l v).0
  step s (generate_wots_call c l n) = (generate_wots sha256 hash160 c s l n).0
  step s (sign_call l msg) = (sign_wots hash160 s l msg).0

  -- A store over a sequence of calls.
  unfoldable pub run : KeyStore → List Call → KeyStore
  run s [] = s
  run s (c ∷ cs) = run (step s c) cs

  module _ (s : KeyStore) (l : Bytes) (sk : SecretKey) (old : List Bool)
      (h : HasRevealed s l sk old) where
    abbrev fresh : Bytes → ℕ → Entry
    fresh k n = record {
      sk = from_entropy rng n (derive_bytes sha256 s.seed (lamport_prefix ++ k));
      revealed = none;
    }

    generate-HasRevealed :
        (k : Bytes) (n : ℕ) → HasRevealed (generate rng sha256 hash160 s k n).0 l sk old
    unfolding generate
    generate-HasRevealed k n = elim (Bool-cases (list_eq k l)) [
      | inr ne ↦ ground (arith, h, find-put_ne k l (fresh k n) s.keys ne)
      | inl e ↦ ground (arith, h, list_eq→eq k l e)
    ]

    reveal_value-HasRevealed : (k : Bytes) (v : ℕ) → HasRevealed (reveal_value s k v).0 l sk old
    unfolding reveal_value
    reveal_value-HasRevealed k v = elim (Option-cases (find k s.keys)) [
      | inl e ↦ rw (e, reveal_value) h
      | inr p ↦
          rw (p.1, reveal_value)
            (reveal-HasRevealed s l sk old h k (uint_to_bits v (length p.0.sk.bits)))
    ]

    generate_wots-HasRevealed :
        (c : Bool) (k : Bytes) (n : ℕ)
        → HasRevealed (generate_wots sha256 hash160 c s k n).0 l sk old
    unfolding generate_wots
    generate_wots-HasRevealed c k n = ground (arith, h)

    sign_wots-HasRevealed : (k msg : Bytes) → HasRevealed (sign_wots hash160 s k msg).0 l sk old
    unfolding sign_wots
    sign_wots-HasRevealed k msg = ground (arith, h)

    step-HasRevealed : (c : Call) → HasRevealed (step s c) l sk old
    unfolding step
    step-HasRevealed (generate_call k n) = generate-HasRevealed k n
    step-HasRevealed (reveal_call k bits) = reveal-HasRevealed s l sk old h k bits
    step-HasRevealed (reveal_value_call k v) = reveal_value-HasRevealed k v
    step-HasRevealed (generate_wots_call c k n) = generate_wots-HasRevealed c k n
    step-HasRevealed (sign_call k msg) = sign_wots-HasRevealed k msg

  run-HasRevealed :
      (s : KeyStore) (cs : List Call) (l : Bytes) (sk : SecretKey) (old : List Bool)
      → HasRevealed s l sk old
      → HasRevealed (run s cs) l sk old
  unfolding run
  run-HasRevealed s [] l sk old h = h
  run-HasRevealed s (c ∷ cs) l sk old h =
      run-HasRevealed (step s c) cs l sk old (step-HasRevealed s l sk old h c)

-- A reveal that succeeded has been written down.
reveal_entry_written :
    (s : KeyStore) (l : Bytes) (x : Entry) (bits : List Bool) (r : Reveal)
    → (reveal_entry s l x bits).1 ≡ ok r
    → HasRevealed (reveal_entry s l x bits).0 l x.sk bits × (reveal_bits x.sk bits ≡ ok r)
unfolding reveal_entry
reveal_entry_written s l x bits r h =
    ground (arith, find-put_self l (record x { revealed = some bits }) s.keys)

reveal_written :
    (s : KeyStore) (l : Bytes) (bits : List Bool) (r : Reveal)
    → (reveal s l bits).1 ≡ ok r
    → (sk : SecretKey) × HasRevealed (reveal s l bits).0 l sk bits × (reveal_bits sk bits ≡ ok r)
unfolding reveal
reveal_written s l bits r h = elim (Option-cases (find l s.keys)) [
  | inl e ↦ absurd (cc (rw (e, reveal) at h))
  | inr p ↦
      let (kept, made) = reveal_entry_written s l p.0 bits r (rw (p.1, reveal) at h) in
      (p.0.sk, rw (p.1, reveal) kept, made)
]

-- What a label has revealed decides what it reveals.
reveal_after :
    (s : KeyStore) (l : Bytes) (sk : SecretKey) (old bits : List Bool) (r : Reveal)
    → HasRevealed s l sk old
    → (reveal s l bits).1 ≡ ok r
    → old ≡ bits
unfolding reveal reveal_entry may_reveal
reveal_after s l sk old bits r h k = ground (arith, bits_eq→eq old bits)

reveal_same :
    (s : KeyStore) (l : Bytes) (sk : SecretKey) (bits : List Bool) (r : Reveal)
    → HasRevealed s l sk bits
    → reveal_bits sk bits ≡ ok r
    → (reveal s l bits).1 ≡ ok r
unfolding reveal reveal_entry may_reveal
reveal_same s l sk bits r h k = ground (arith, bits_eq_refl bits)

module _ (rng : Rng) (sha256 hash160 : Bytes → Bytes) where
  -- Once a label has revealed a value, a reveal that succeeds after any further calls reveals the
  -- same value.
  pub reveal_never_differs :
      (s : KeyStore) (l : Bytes) (bits bits' : List Bool) (r r' : Reveal) (cs : List Call)
      → (reveal s l bits).1 ≡ ok r
      → (reveal (run rng sha256 hash160 (reveal s l bits).0 cs) l bits').1 ≡ ok r'
      → bits ≡ bits'
  reveal_never_differs s l bits bits' r r' cs h k =
      let (sk, kept, made) = reveal_written s l bits r h in
      reveal_after (run rng sha256 hash160 (reveal s l bits).0 cs) l sk bits bits' r'
        (run-HasRevealed rng sha256 hash160 (reveal s l bits).0 cs l sk bits kept) k

  -- Once a label has revealed a value, revealing that value again after any further calls succeeds
  -- with the same preimages.
  pub reveal_again :
      (s : KeyStore) (l : Bytes) (bits : List Bool) (r : Reveal) (cs : List Call)
      → (reveal s l bits).1 ≡ ok r
      → (reveal (run rng sha256 hash160 (reveal s l bits).0 cs) l bits).1 ≡ ok r
  reveal_again s l bits r cs h =
      let (sk, kept, made) = reveal_written s l bits r h in
      reveal_same (run rng sha256 hash160 (reveal s l bits).0 cs) l sk bits r
        (run-HasRevealed rng sha256 hash160 (reveal s l bits).0 cs l sk bits kept) made
