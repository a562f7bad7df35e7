-- ===== src/Lamport/Winternitz/Gadget/Step.antt =====
-- `wots_step` of crates/lamport/src/winternitz.rs, run by the interpreter.
use Prim.Native.Nat.{min}
use ln_gap.Prelude.{
  ℕ, zero, suc, ◌+◌, ◌-◌, ◌≤◌, ◌<◌, ◌≡◌, refl, Bool, true, false, List, [], ◌∷◌, if◌then◌else◌,
  Bytes, pos, length, get_or, ltb, lt→ltb, ltb_ge, list_eq, list_eq_refl, ok, err, inl, inr,
  Bool-cases, arith, ◌∙◌, int_min, dec_lt, ◌-ℤ◌,
}
use ln_gap.Script.Number.{encode, truthy}
use ln_gap.Script.Stack.{Elements, equal_verify}
use ln_gap.Script.Stack.Reads.{length-encode_small, number_of-encode_small}
use ln_gap.Script.Machine.{machine, skipping, step, execute, on_main, op}
use ln_gap.Script.Runs.{exec, exec-append}
use ln_gap.Script.Builder.{IntPush, step-push_int}
use ln_gap.Lamport.Winternitz.{hash_times}
use ln_gap.Lamport.Winternitz.Chains.{hash_times-add}
use ln_gap.Lamport.Winternitz.Gadget.{
  ChainKind, hash160_chain, sha256_chain, chain_op, chain_size, chain_hash, wots_prepare,
  wots_compare, wots_step,
}

less_eight : (d : ℕ) → 8 ≤ d → pos d -ℤ pos 8 ≡ pos (d - 8)
less_eight d h = ground arith

encode_one : encode (pos 1) ≡ 1 ∷ []
unfolding encode
encode_one = refl

encode_zero : encode (pos 0) ≡ []
unfolding encode
encode_zero = refl

module _ (hash160 sha256 : Bytes → Bytes) (ip : IntPush) (skip : List Bool)
    (live : skipping skip ≡ false) where
  -- The opcode of a chain hashes the top element, or is skipped.
  step-chain_op :
      (kind : ChainKind) (v : Bytes) (s alt : Elements)
      → step hash160 sha256 (op (chain_op kind)) (machine (v ∷ s) alt skip)
        ≡ ok (machine (chain_hash hash160 sha256 kind v ∷ s) alt skip)
  unfolding step execute on_main
  step-chain_op hash160_chain v s alt = rw live refl
  step-chain_op sha256_chain v s alt = rw live refl

  step-chain_op_inner :
      (kind : ChainKind) (v : Bytes) (s alt : Elements)
      → step hash160 sha256 (op (chain_op kind)) (machine (v ∷ s) alt (false ∷ skip))
        ≡ ok (machine (chain_hash hash160 sha256 kind v ∷ s) alt (false ∷ skip))
  unfolding step execute on_main
  step-chain_op_inner hash160_chain v s alt = rw live refl
  step-chain_op_inner sha256_chain v s alt = rw live refl

  skip-chain_op :
      (kind : ChainKind) (s alt : Elements)
      → step hash160 sha256 (op (chain_op kind)) (machine s alt (true ∷ skip))
        ≡ ok (machine s alt (true ∷ skip))
  unfolding step
  skip-chain_op hash160_chain s alt = refl
  skip-chain_op sha256_chain s alt = refl

  -- A low digit: the element is hashed eight times, and the digit says how deep it will lie.
  prepare_low :
      (kind : ChainKind) (d : ℕ) (h : Bytes) (s alt : Elements)
      → d < 8
      → length h ≡ chain_size kind
      → exec hash160 sha256 (wots_prepare ip kind) (machine (encode (pos d) ∷ (h ∷ s)) alt skip)
        ≡ ok (
            machine
              (hash_times (chain_hash hash160 sha256 kind) h 8 ∷ s)
              (encode (pos d) ∷ (encode (pos d) ∷ alt))
              skip)
  unfolding exec wots_prepare step execute on_main hash_times truthy
  prepare_low kind d h s alt lt e = simp (
    live,
    step-push_int,
    step-chain_op_inner,
    e,
    list_eq_refl,
    length-encode_small (pos d) (omega arith),
    number_of-encode_small (pos d) (omega arith),
    length-encode_small (pos 15) (omega arith),
    number_of-encode_small (pos 15) (omega arith),
    length-encode_small (pos 8) (omega arith),
    number_of-encode_small (pos 8) (omega arith),
    ltb_ge 15 d (omega arith),
    lt→ltb d 8 lt,
    encode_one,
  )

  min-digit : (d : ℕ) → int_min (pos d) (pos 15) ≡ pos (min d 15)
  min-digit d = ground arith

  -- A high digit: the element stays, and the digit less eight says how deep it will lie.
  prepare_high :
      (kind : ChainKind) (d : ℕ) (h : Bytes) (s alt : Elements)
      → 8 ≤ d
      → d < 128
      → length h ≡ chain_size kind
      → exec hash160 sha256 (wots_prepare ip kind) (machine (encode (pos d) ∷ (h ∷ s)) alt skip)
        ≡ ok (machine (h ∷ s) (encode (pos (min d 15 - 8)) ∷ (encode (pos (min d 15)) ∷ alt)) skip)
  unfolding exec wots_prepare step execute on_main truthy
  prepare_high kind d h s alt le lt e = simp (
    live,
    step-push_int,
    skip-chain_op,
    e,
    list_eq_refl,
    min-digit d,
    length-encode_small (pos d) (omega arith),
    number_of-encode_small (pos d) (omega arith),
    length-encode_small (pos (min d 15)) (omega arith),
    number_of-encode_small (pos (min d 15)) (omega arith),
    length-encode_small (pos 15) (omega arith),
    number_of-encode_small (pos 15) (omega arith),
    length-encode_small (pos 8) (omega arith),
    number_of-encode_small (pos 8) (omega arith),
    ltb_ge (min d 15) 8 (omega arith),
    less_eight (min d 15) (omega arith),
    encode_zero,
  )

  -- The element that a digit picks among the eight of a chain.
  pick_hash :
      (f : Bytes → Bytes) (x : Bytes) (s : Elements) (v : ℕ)
      → v < 8
      → get_or
          ((f (f (f (f (f (f (f x)))))))
            ∷ ((f (f (f (f (f (f x))))))
                ∷ ((f (f (f (f (f x)))))
                    ∷ ((f (f (f (f x)))) ∷ ((f (f (f x))) ∷ ((f (f x)) ∷ ((f x) ∷ (x ∷ s))))))))
          v
          []
        ≡ hash_times f x (7 - v)
  unfolding hash_times
  pick_hash f x s zero h = refl
  pick_hash f x s (suc zero) h = refl
  pick_hash f x s (suc (suc zero)) h = refl
  pick_hash f x s (suc (suc (suc zero))) h = refl
  pick_hash f x s (suc (suc (suc (suc zero)))) h = refl
  pick_hash f x s (suc (suc (suc (suc (suc zero))))) h = refl
  pick_hash f x s (suc (suc (suc (suc (suc (suc zero)))))) h = refl
  pick_hash f x s (suc (suc (suc (suc (suc (suc (suc zero))))))) h = refl
  pick_hash f x s (suc (suc (suc (suc (suc (suc (suc (suc v)))))))) h = absurd (omega arith)

  deep_enough :
      (s : Elements) (v : ℕ)
      → v < 8
      → ltb v (suc (suc (suc (suc (suc (suc (suc (suc (length s))))))))) ≡ true
  deep_enough s v h = lt→ltb v _ (omega arith)

  -- The element at the depth on the alt stack is compared with the public key's.
  compare_hash :
      (kind : ChainKind) (v : ℕ) (x p : Bytes) (s alt : Elements)
      → v < 8
      → exec hash160 sha256 (wots_compare ip kind p) (machine (x ∷ s) (encode (pos v) ∷ alt) skip)
        ≡ (let got = hash_times (chain_hash hash160 sha256 kind) x (7 - v) in
            if list_eq got p then ok (machine s alt skip) else err (equal_verify got p))
  unfolding exec wots_compare step execute on_main
  compare_hash kind v x p s alt lt =
      elim (Bool-cases (list_eq (hash_times (chain_hash hash160 sha256 kind) x (7 - v)) p)) [
        | inl e ↦ simp (
          live,
          step-chain_op,
          length-encode_small (pos v) (omega arith),
          number_of-encode_small (pos v) (omega arith),
          deep_enough s v lt,
          pick_hash (chain_hash hash160 sha256 kind) x s v lt,
          e,
        )
        | inr e ↦ simp (
          live,
          step-chain_op,
          length-encode_small (pos v) (omega arith),
          number_of-encode_small (pos v) (omega arith),
          deep_enough s v lt,
          pick_hash (chain_hash hash160 sha256 kind) x s v lt,
          e,
        )
      ]

  -- A digit's element, as many hashes up its chain as the digit leaves, is compared with the public
  -- key's; the clamped digit goes to the alt stack.
  pub exec-wots_step :
      (kind : ChainKind) (d : ℕ) (h p : Bytes) (s alt : Elements)
      → d < 128
      → length h ≡ chain_size kind
      → exec hash160 sha256 (wots_step ip kind p) (machine (encode (pos d) ∷ (h ∷ s)) alt skip) ≡ (
          let top = hash_times (chain_hash hash160 sha256 kind) h (15 - min d 15) in
          if list_eq top p
          then ok (machine s (encode (pos (min d 15)) ∷ alt) skip)
          else err (equal_verify top p))
  unfolding wots_step
  exec-wots_step kind d h p s alt lt e = elim (dec_lt d 8) [
    | yes low ↦
        exec-append hash160 sha256 (wots_prepare ip kind) _ _
        ∙ rw (prepare_low kind d h s alt low e) (
            compare_hash kind d _ p s (encode (pos d) ∷ alt) low
            ∙ (let small : min d 15 ≡ d = omega arith in
                let height : 8 + (7 - d) ≡ 15 - d = omega arith in
                rw (hash_times-add (chain_hash hash160 sha256 kind) 8 h (7 - d), small, height)
                  refl))
    | no high ↦
        exec-append hash160 sha256 (wots_prepare ip kind) _ _
        ∙ rw (prepare_high kind d h s alt (omega arith) lt e) (
            compare_hash kind (min d 15 - 8) h p s (encode (pos (min d 15)) ∷ alt) (omega arith)
            ∙ (let height : 7 - (min d 15 - 8) ≡ 15 - min d 15 = omega arith in rw height refl))
  ]
