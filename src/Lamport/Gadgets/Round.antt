-- ===== src/Lamport/Gadgets/Round.antt =====
-- One round of `decode_uint` of crates/lamport/src/gadgets.rs: the number so far doubled, and the
-- next bit added to it.
use native.Mathlib.Nat.{add-zero}
use ln_gap.Prelude.{
  ℕ, ◌+◌, ◌^◌, ◌<◌, ◌≡◌, refl, Bool, false, List, [], ◌∷◌, if◌then◌else◌, Bytes, pos, list_eq, ok,
  err, inl, inr, Bool-cases, arith, ◌∙◌,
}
use ln_gap.Script.Number.{encode}
use ln_gap.Script.Stack.{Elements, equal_verify}
use ln_gap.Script.Stack.Reads.{length-encode_small, number_of-encode_small}
use ln_gap.Script.Machine.{
  Script, machine, skipping, step, execute, on_main, op, op_dup, op_add, op_swap,
}
use ln_gap.Script.Runs.{exec, exec-append}
use ln_gap.Script.Builder.{IntPush}
use ln_gap.Lamport.Key.{BitCommit}
use ln_gap.Lamport.Gadgets.{bit_decode, decode_round}
use ln_gap.Lamport.Gadgets.Bit.{exec-bit_decode}

module _ (hash160 sha256 : Bytes → Bytes) (alt : Elements) (skip : List Bool)
    (live : skipping skip ≡ false) where
  exec-double :
      (a : ℕ) (p : Bytes) (s : Elements) (rest : Script)
      → a < 2 ^ 31
      → exec hash160 sha256
          (op op_dup ∷ (op op_add ∷ (op op_swap ∷ rest)))
          (machine (encode (pos a) ∷ (p ∷ s)) alt skip)
        ≡ exec hash160 sha256 rest (machine (p ∷ (encode (pos (a + a)) ∷ s)) alt skip)
  unfolding exec step execute on_main
  exec-double a p s rest h =
      simp (live, length-encode_small (pos a) h, number_of-encode_small (pos a) h)

  exec-add :
      (a b : ℕ) (s : Elements)
      → a < 2 ^ 31
      → b < 2 ^ 31
      → exec hash160 sha256
          (op op_add ∷ [])
          (machine (encode (pos b) ∷ (encode (pos a) ∷ s)) alt skip)
        ≡ ok (machine (encode (pos (a + b)) ∷ s) alt skip)
  unfolding exec step execute on_main
  exec-add a b s h k = simp (
    live,
    length-encode_small (pos a) h,
    number_of-encode_small (pos a) h,
    length-encode_small (pos b) k,
    number_of-encode_small (pos b) k,
  )

  -- The number so far is doubled and the bit that the preimage commits to is added.
  pub exec-decode_round :
      (ip : IntPush) (c : BitCommit) (a : ℕ) (p : Bytes) (s : Elements)
      → a < 2 ^ 30
      → exec hash160 sha256 (decode_round ip c) (machine (encode (pos a) ∷ (p ∷ s)) alt skip) ≡ (
          if list_eq (hash160 p) c.h1
          then ok (machine (encode (pos (a + a + 1)) ∷ s) alt skip)
          else if list_eq (hash160 p) c.h0
          then ok (machine (encode (pos (a + a)) ∷ s) alt skip)
          else err (equal_verify (hash160 p) c.h0))
  unfolding decode_round
  exec-decode_round ip c a p s h =
      exec-double a p s _ (omega arith)
      ∙ exec-append hash160 sha256 (bit_decode ip c) (op op_add ∷ []) _
      ∙ rw (exec-bit_decode hash160 sha256 ip alt skip c p (encode (pos (a + a)) ∷ s) live)
          (elim (Bool-cases (list_eq (hash160 p) c.h1)) [
            | inl e ↦ rw e (exec-add (a + a) 1 s (omega arith) (omega arith))
            | inr e ↦ elim (Bool-cases (list_eq (hash160 p) c.h0)) [
              | inl f ↦
                  rw (e, f) (exec-add (a + a) 0 s (omega arith) (omega arith) ∙ rw add-zero refl)
              | inr f ↦ rw (e, f) refl
            ]
          ])
