-- ===== src/Lamport/Gadgets/Bit.antt =====
-- One bit of crates/lamport/src/gadgets.rs, run by the interpreter.
use ln_gap.Prelude.{
  ◌≡◌, Bool, false, List, ◌∷◌, if◌then◌else◌, Bytes, pos, list_eq, ok, err, inl, inr, Bool-cases,
}
use ln_gap.Script.Number.{encode, truthy}
use ln_gap.Script.Stack.{Elements, equal_verify}
use ln_gap.Script.Machine.{machine, skipping, step, execute, on_main}
use ln_gap.Script.Runs.{exec}
use ln_gap.Script.Builder.{IntPush, step-push_int}
use ln_gap.Lamport.Key.{BitCommit}
use ln_gap.Lamport.Gadgets.{bit_decode}

module _ (hash160 sha256 : Bytes → Bytes) (ip : IntPush) (alt : Elements) (skip : List Bool) where
  -- The script of one bit leaves the bit that its preimage commits to, or stops.
  pub exec-bit_decode :
      (c : BitCommit) (p : Bytes) (s : Elements)
      → skipping skip ≡ false
      → exec hash160 sha256 (bit_decode ip c) (machine (p ∷ s) alt skip) ≡ (
          if list_eq (hash160 p) c.h1
          then ok (machine (encode (pos 1) ∷ s) alt skip)
          else if list_eq (hash160 p) c.h0
          then ok (machine (encode (pos 0) ∷ s) alt skip)
          else err (equal_verify (hash160 p) c.h0))
  unfolding exec bit_decode step execute on_main encode truthy
  exec-bit_decode c p s live = elim (Bool-cases (list_eq (hash160 p) c.h1)) [
    | inl e ↦ simp (live, e, step-push_int)
    | inr e ↦ elim (Bool-cases (list_eq (hash160 p) c.h0)) [
      | inl f ↦ simp (live, e, f, step-push_int)
      | inr f ↦ simp (live, e, f, step-push_int)
    ]
  ]
