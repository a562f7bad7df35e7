-- ===== src/Script/Builder.antt =====
-- The fragments of crates/btc/src/script.rs on rust-bitcoin's `Builder`: a builder is the list of
-- the instructions pushed so far, and a fragment is what it pushes.
use ln_gap.Prelude.{ℕ, suc, ◌≡◌, ◌⊎◌, refl, inl, inr, [], ◌∷◌, if◌then◌else◌, Bytes, pos, ok}
use ln_gap.Script.Number.{encode}
use ln_gap.Script.Machine.{
  Instruction, push_bytes, op, op_pushnum, op_hash160, op_equalverify, Script, Machine, skipping,
  step, execute, on_main,
}

-- `Builder::push_int` of rust-bitcoin, of a number that is not negative: one instruction, which is
-- the opcode of a small number or pushes the bytes of the script number.
pub record IntPush : Type 0 where
  pub push_int : ℕ → Instruction
  pub push_int_form :
      (n : ℕ)
      → (push_int n ≡ push_bytes (encode (pos n)))
        ⊎ ((k : ℕ) × (n ≡ suc k) × (push_int n ≡ op (op_pushnum k)))

-- `OP_HASH160 <h> OP_EQUALVERIFY`
unfoldable pub hash160_verify : Bytes → Script
hash160_verify h = op op_hash160 ∷ (push_bytes h ∷ (op op_equalverify ∷ []))

-- A pushed number is on top of the stack where nothing is skipped, and is skipped elsewhere.
pub step-push_int :
    (hash160 sha256 : Bytes → Bytes) (ip : IntPush) (n : ℕ) (m : Machine)
    → step hash160 sha256 (ip.push_int n) m
      ≡ (if skipping m.skip then ok m else ok (record m { main = encode (pos n) ∷ m.main }))
unfolding step execute on_main
step-push_int hash160 sha256 ip n m = elim (ip.push_int_form n) [
  | inl e ↦ rw e refl
  | inr (k, e, f) ↦ rw (f, e) refl
]
