-- ===== src/Lamport/Gadgets/Expect.antt =====
-- `expect_uint` and `equivocation` of crates/lamport/src/gadgets.rs, run by the interpreter, against
-- the native decoding of crates/lamport/src/lib.rs.
use ln_gap.Prelude.{
  reverse_cons, ℕ, suc, ◌/◌, ◌%◌, ◌^◌, ◌≤◌, ◌<◌, ◌≡◌, ◌≢◌, ◌↔◌, refl, Bool, true, false, ◌&&◌, List,
  [], ◌∷◌, ◌++◌, reverse, map, if◌then◌else◌, Bytes, length, le→leb, ◌==◌, ==_refl, list_eq,
  list_eq→eq, list_eq_refl, ok, err, ◌>>=◌, inl, inr, Bool-cases, arith, ap, sym, some, none,
  to_option, to_option-some, to_option-none, >>=-eq-ok, All, &&_true, range_from,
}
use ln_gap.Script.Stack.{Elements, equal_verify}
use ln_gap.Script.Machine.{machine, skipping, step, execute, on_main}
use ln_gap.Script.Runs.{exec, exec-append}
use ln_gap.Script.Builder.{hash160_verify}
use ln_gap.Lamport.Bits.{
  uint_to_bits, bits_to_uint, uint_to_bits-bits_to_uint, bits_to_uint-uint_to_bits,
}
use ln_gap.Lamport.Key
use ln_gap.Lamport.Key.{
  BitCommit, PublicKey, Reveal, KeyError, decode_bit, decode_from, decode_bits, consumption_order,
}
use ln_gap.Lamport.Gadgets.{expect_from, expect_uint, equivocation}
use ln_gap.Lamport.Gadgets.Decode.{length-decode_from}

-- The two hashes of a bit differ.
abbrev pub IsDistinct : BitCommit → Type 0
IsDistinct c = c.h0 ≢ c.h1

-- The bit at place `i` of a value.
abbrev bit_at : ℕ → ℕ → Bool
bit_at value i = value / 2 ^ i % 2 == 1

-- The hash that a bit of the commitment has.
abbrev side : BitCommit → Bool → Bytes
side c b = if b then c.h1 else c.h0

module _ (hash160 : Bytes → Bytes) where
  decode_bit_iff :
      (i : ℕ) (c : BitCommit) (p : Bytes) (b : Bool)
      → IsDistinct c
      → (decode_bit hash160 i c p ≡ ok b) ↔ (list_eq (hash160 p) (side c b) ≡ true)
  unfolding decode_bit
  decode_bit_iff i c p true d = ground (arith)
  decode_bit_iff i c p false d =
      ground (arith, list_eq→eq (hash160 p) c.h1, list_eq→eq (hash160 p) c.h0, list_eq_refl c.h1)

  -- Every preimage has the hash of its bit of the value.
  expected : ℕ → List BitCommit → List Bytes → ℕ → Bool
  expected i [] ps value = true
  expected i (c ∷ cs) [] value = true
  expected i (c ∷ cs) (p ∷ ps) value =
      expected (suc i) cs ps value && list_eq (hash160 p) (side c (bit_at value i))

  expected_iff :
      (i : ℕ) (cs : List BitCommit) (ps : List Bytes) (value : ℕ)
      → length ps ≡ length cs
      → All IsDistinct cs
      → (expected i cs ps value ≡ true)
        ↔ (decode_from hash160 i cs ps ≡ ok (map (bit_at value) (range_from i (length cs))))
  unfolding expected decode_from
  expected_iff i [] ps value n d = ((λ e. refl), (λ e. refl))
  expected_iff i (c ∷ cs) [] value n d = absurd (omega arith)
  expected_iff i (c ∷ cs) (p ∷ ps) value n (d, ds) =
      let ih = expected_iff (suc i) cs ps value (omega arith) ds in
      let one = decode_bit_iff i c p (bit_at value i) d in
      (
        (λ e. let (l, r) = &&_true _ _ e in rw (one.1 r, ih.0 l) refl),
        (λ e.
            let (b, f, g) = >>=-eq-ok (decode_bit hash160 i c p) _ e in
            let (rest, h, k) = >>=-eq-ok (decode_from hash160 (suc i) cs ps) _ g in
            let x : decode_bit hash160 i c p ≡ ok (bit_at value i) = cc in
            let y : decode_from hash160 (suc i) cs ps
                ≡ ok (map (bit_at value) (range_from (suc i) (length cs))) =
              cc in
            rw (ih.1 y, one.0 x) refl),
      )

  -- What the bits of a value pack to, and the bits of what they were packed into.
  packed :
      (cs : List BitCommit) (ps : List Bytes) (value : ℕ)
      → length cs ≤ 32
      → value < 2 ^ length cs
      → length ps ≡ length cs
      → (decode_from hash160 0 cs ps ≡ ok (map (bit_at value) (range_from 0 (length cs))))
        ↔ ((decode_from hash160 0 cs ps >>= λ bits. ok (bits_to_uint bits)) ≡ ok value)
  unfolding uint_to_bits
  packed cs ps value h fits n = (
    (λ e. rw e (ap ok (bits_to_uint-uint_to_bits value (length cs) h fits))),
    (λ e.
        let (bs, f, g) = >>=-eq-ok (decode_from hash160 0 cs ps) _ e in
        let v : bits_to_uint bs ≡ value = cc in
        let l : length bs ≡ length cs = length-decode_from hash160 0 cs ps bs n f in
        let u = uint_to_bits-bits_to_uint bs (omega arith) in rw f (ap ok (sym (rw (v, l) at u)))),
  )

module _ (hash160 sha256 : Bytes → Bytes) (alt : Elements) (skip : List Bool)
    (live : skipping skip ≡ false) where
  pub exec-hash160_verify :
      (h p : Bytes) (s : Elements)
      → exec hash160 sha256 (hash160_verify h) (machine (p ∷ s) alt skip) ≡ (
          if list_eq (hash160 p) h
          then ok (machine s alt skip)
          else err (equal_verify (hash160 p) h))
  unfolding exec hash160_verify step execute on_main
  exec-hash160_verify h p s = elim (Bool-cases (list_eq (hash160 p) h)) [
    | inl e ↦ simp (live, e)
    | inr e ↦ simp (live, e)
  ]

  expect_from_runs :
      (i : ℕ) (cs : List BitCommit) (ps : List Bytes) (s : Elements) (value : ℕ)
      → length ps ≡ length cs
      → to_option
          (exec hash160 sha256 (expect_from i cs value) (machine (reverse ps ++ s) alt skip))
        ≡ (if expected hash160 i cs ps value then some (machine s alt skip) else none)
  unfolding expect_from expected
  expect_from_runs i [] [] s value n = unfold exec in refl
  expect_from_runs i [] (p ∷ ps) s value n = absurd (omega arith)
  expect_from_runs i (c ∷ cs) [] s value n = absurd (omega arith)
  expect_from_runs i (c ∷ cs) (p ∷ ps) s value n =
      let ih = expect_from_runs (suc i) cs ps (p ∷ s) value (omega arith) in
      rw (reverse_cons p ps s, exec-append)
        (elim (Bool-cases (expected hash160 (suc i) cs ps value)) [
          | inl e ↦
              rw (to_option-some _ _ (rw e at ih), exec-hash160_verify, e)
                (elim (Bool-cases (list_eq (hash160 p) (side c (bit_at value i)))) [
                  | inl f ↦ rw f refl
                  | inr f ↦ rw f refl
                ])
          | inr e ↦ rw ((to_option-none _ (rw e at ih)).1, e) refl
        ])

  -- In a branch that is taken, for a key of at most 32 bits whose two hashes differ at every bit, a
  -- reveal with a preimage for each bit and a value that fits, the script that expects the value takes
  -- the reveal from the stack and succeeds exactly when the native decoding of the reveal gives the
  -- value.
  pub exec-expect_uint_iff :
      (pk : PublicKey) (r : Reveal) (s : Elements) (value : ℕ)
      → length r.preimages ≡ length pk.bits
      → length pk.bits ≤ 32
      → value < 2 ^ length pk.bits
      → All IsDistinct pk.bits
      → (exec hash160 sha256 (expect_uint pk value) (machine (consumption_order r ++ s) alt skip)
          ≡ ok (machine s alt skip))
        ↔ (Key.decode_uint hash160 pk r ≡ ok value)
  unfolding expect_uint Key.decode_uint decode_bits consumption_order
  exec-expect_uint_iff pk r s value n h fits d =
      let run = expect_from_runs 0 pk.bits r.preimages s value n in
      let all = expected_iff hash160 0 pk.bits r.preimages value n d in
      let (there, back) = packed hash160 pk.bits r.preimages value h fits n in
      rw (le→leb (length pk.bits) 32 h, n, ==_refl (length pk.bits))
        (elim (Bool-cases (expected hash160 0 pk.bits r.preimages value)) [
          | inl e ↦ ((λ g. there (all.0 e)), (λ g. to_option-some _ _ (rw e at run)))
          | inr e ↦
              let (w, f) = to_option-none _ (rw e at run) in ((λ g. cc), (λ g. cc (all.1 (back g))))
        ])

  -- In a branch that is taken, for a commitment whose two hashes differ, the slashing script accepts
  -- two preimages exactly when the top one decodes to one and the other to zero.
  pub exec-equivocation_iff :
      (i : ℕ) (c : BitCommit) (p q : Bytes) (s : Elements)
      → IsDistinct c
      → (exec hash160 sha256 (equivocation c) (machine (p ∷ (q ∷ s)) alt skip)
          ≡ ok (machine s alt skip))
        ↔ ((decode_bit hash160 i c p ≡ ok true) × (decode_bit hash160 i c q ≡ ok false))
  unfolding equivocation
  exec-equivocation_iff i c p q s d =
      let one = decode_bit_iff hash160 i c p true d in
      let two = decode_bit_iff hash160 i c q false d in
      rw (exec-append, exec-hash160_verify)
        (elim (Bool-cases (list_eq (hash160 p) c.h1)) [
          | inl e ↦
              rw (e, exec-hash160_verify)
                (elim (Bool-cases (list_eq (hash160 q) c.h0)) [
                  | inl f ↦ rw f ((λ g. (one.1 e, two.1 f)), (λ g. refl))
                  | inr f ↦ rw f ((λ g. cc), (λ g. cc (two.0 g.1)))
                ])
          | inr e ↦ rw e ((λ g. cc), (λ g. cc (one.0 g.0)))
        ])
