-- ===== src/Lamport/Gadgets/Decode.antt =====
-- `decode_uint` of crates/lamport/src/gadgets.rs, run by the interpreter, against the native
-- decoding of crates/lamport/src/lib.rs.
use mathlib.Core.Option
use native.Mathlib.Nat.{pow-le-pow_right}
use ln_gap.Prelude.{
  reverse_cons, ℕ, suc, ◌+◌, ◌*◌, ◌^◌, ◌≤◌, ◌<◌, ◌≡◌, refl, Bool, false, List, [], ◌∷◌, ◌++◌,
  reverse, Bytes, pos, length, le→leb, ==_refl, list_eq, ok, err, ◌>>=◌, inl, inr, Bool-cases,
  arith, ◌∙◌, none, Result, to_option, to_option-some, to_option-none, >>=-eq-ok,
}
use ln_gap.Script.Number.{encode}
use ln_gap.Script.Stack.{Elements}
use ln_gap.Script.Machine.{Machine, machine, skipping}
use ln_gap.Script.Runs.{exec, exec-append}
use ln_gap.Script.Builder.{IntPush, step-push_int}
use ln_gap.Lamport.Bits.{uint_of, uint_of-lt, bits_to_uint, bits_to_uint-uint_of}
use ln_gap.Lamport.Key
use ln_gap.Lamport.Key.{
  BitCommit, PublicKey, Reveal, KeyError, decode_bit, decode_from, decode_bits, consumption_order,
}
use ln_gap.Lamport.Gadgets.{decode_round, decode_rounds, decode_uint}
use ln_gap.Lamport.Gadgets.Round.{exec-decode_round}

uint_of_small : (k : ℕ) (bs : List Bool) → length bs ≤ k → uint_of bs < 2 ^ k
uint_of_small k bs h = omega (arith, uint_of-lt bs, pow-le-pow_right {n = 2} (omega arith) h)

with_one : (a : ℕ) → a + a + 1 ≡ 1 + 2 * a
with_one a = omega arith

with_zero : (a : ℕ) → a + a ≡ 0 + 2 * a
with_zero a = omega arith

keep_rest :
    (f : List Bool → Machine) (bs : List Bool) (r : Result KeyError Bool)
    → Option.map (λ (b : Bool). f (b ∷ bs)) (to_option r)
      ≡ Option.map f (to_option (r >>= λ b. ok (b ∷ bs)))
keep_rest f bs (ok b) = refl
keep_rest f bs (err e) = refl

no_rest :
    (f : List Bool → Machine) (w : KeyError) (r : Result KeyError Bool)
    → none ≡ Option.map f (to_option (r >>= λ b. err w))
no_rest f w (ok b) = refl
no_rest f w (err e) = refl

pub length-decode_from :
    (hash160 : Bytes → Bytes) (i : ℕ) (cs : List BitCommit) (ps : List Bytes) (bs : List Bool)
    → length ps ≡ length cs
    → decode_from hash160 i cs ps ≡ ok bs
    → length bs ≡ length cs
unfolding decode_from
length-decode_from hash160 i [] ps bs n e = ground arith
length-decode_from hash160 i (c ∷ cs) [] bs n e = absurd (omega arith)
length-decode_from hash160 i (c ∷ cs) (p ∷ ps) bs n e =
    let (b, f, g) = >>=-eq-ok (decode_bit hash160 i c p) _ e in
    let (rest, h, k) = >>=-eq-ok (decode_from hash160 (suc i) cs ps) _ g in
    let l : b ∷ rest ≡ bs = cc in
    rw (← l) (omega (arith, length-decode_from hash160 (suc i) cs ps rest (omega arith) h))

module _ (hash160 sha256 : Bytes → Bytes) (ip : IntPush) (alt : Elements) (skip : List Bool)
    (live : skipping skip ≡ false) where
  -- A machine that holds the number of some bits.
  abbrev holding : Elements → List Bool → Machine
  holding s bs = machine (encode (pos (uint_of bs)) ∷ s) alt skip

  -- A last round adds the lowest bit.
  last_round :
      (i : ℕ) (c : BitCommit) (p : Bytes) (s : Elements) (bs : List Bool)
      → length bs ≤ 30
      → to_option (exec hash160 sha256 (decode_round ip c) (holding (p ∷ s) bs))
        ≡ Option.map (λ b. holding s (b ∷ bs)) (to_option (decode_bit hash160 i c p))
  unfolding decode_bit
  last_round i c p s bs h =
      rw
        (
          exec-decode_round hash160 sha256 alt skip live ip c (uint_of bs) p s
              (uint_of_small 30 bs h),
          with_one,
          with_zero,
        )
        (elim (Bool-cases (list_eq (hash160 p) c.h1)) [
          | inl e ↦ rw e refl
          | inr e ↦ elim (Bool-cases (list_eq (hash160 p) c.h0)) [
            | inl f ↦ rw (e, f) refl
            | inr f ↦ rw (e, f) refl
          ]
        ])

  -- The rounds decode the bits that the native loop decodes, or neither succeeds.
  rounds_decode :
      (i : ℕ) (cs : List BitCommit) (ps : List Bytes) (s : Elements)
      → length ps ≡ length cs
      → length cs ≤ 31
      → to_option (exec hash160 sha256 (decode_rounds ip cs) (holding (reverse ps ++ s) []))
        ≡ Option.map (holding s) (to_option (decode_from hash160 i cs ps))
  unfolding decode_rounds decode_from
  rounds_decode i [] [] s n h = unfold exec in refl
  rounds_decode i [] (p ∷ ps) s n h = absurd (omega arith)
  rounds_decode i (c ∷ cs) [] s n h = absurd (omega arith)
  rounds_decode i (c ∷ cs) (p ∷ ps) s n h =
      rw (reverse_cons p ps s, exec-append)
        (after (decode_from hash160 (suc i) cs ps) refl
          (rounds_decode (suc i) cs ps (p ∷ s) (omega arith) (omega arith)))
    where
      after :
          (r : Result KeyError (List Bool))
          → decode_from hash160 (suc i) cs ps ≡ r
          → to_option (exec hash160 sha256 (decode_rounds ip cs) (holding (reverse ps ++ p ∷ s) []))
            ≡ Option.map (holding (p ∷ s)) (to_option r)
          → to_option (
              exec hash160 sha256 (decode_rounds ip cs) (holding (reverse ps ++ p ∷ s) [])
              >>= exec hash160 sha256 (decode_round ip c))
            ≡ Option.map
                (holding s)
                (to_option (decode_bit hash160 i c p >>= λ b. r >>= λ rest. ok (b ∷ rest)))
      after (ok bs) e g = rw (to_option-some _ _ g) (
          last_round i c p s bs
            (omega (arith, length-decode_from hash160 (suc i) cs ps bs (omega arith) e))
          ∙ keep_rest (holding s) bs (decode_bit hash160 i c p))
      after (err w) e g =
          rw ((to_option-none _ g).1) (no_rest (holding s) w (decode_bit hash160 i c p))

  -- At most 32 bits stand for the number that the native code makes of them.
  as_number :
      (s : Elements) (r : Result KeyError (List Bool))
      → ((bs : List Bool) → r ≡ ok bs → length bs ≤ 32)
      → Option.map (holding s) (to_option r)
        ≡ Option.map
            (λ (v : ℕ). machine (encode (pos v) ∷ s) alt skip)
            (to_option (r >>= λ bits. ok (bits_to_uint bits)))
  as_number s (ok bs) h = rw (bits_to_uint-uint_of bs (h bs refl)) refl
  as_number s (err e) h = refl

  -- Where nothing is skipped, the script of a key of 31 bits at most succeeds exactly when the
  -- native decoding does, takes the reveal from the stack and leaves the same number.
  pub exec-decode_uint :
      (pk : PublicKey) (r : Reveal) (s : Elements)
      → length r.preimages ≡ length pk.bits
      → length pk.bits ≤ 31
      → to_option
          (exec hash160 sha256 (decode_uint ip pk) (machine (consumption_order r ++ s) alt skip))
        ≡ Option.map
            (λ (v : ℕ). machine (encode (pos v) ∷ s) alt skip)
            (to_option (Key.decode_uint hash160 pk r))
  unfolding exec decode_uint Key.decode_uint decode_bits consumption_order
  exec-decode_uint pk r s n h =
      rw
        (step-push_int, live, le→leb (length pk.bits) 32 (omega arith), n, ==_refl (length pk.bits))
        (rounds_decode 0 pk.bits r.preimages s n h
          ∙ as_number s (decode_from hash160 0 pk.bits r.preimages)
              (λ bs e. omega (arith, length-decode_from hash160 0 pk.bits r.preimages bs n e)))
