-- ===== src/Lamport/Gadgets.antt =====
-- crates/lamport/src/gadgets.rs: script gadgets over bit commitments. A gadget is the instructions
-- that it pushes on a builder.
pub mod Bit
pub mod Round
pub mod Decode
pub mod Expect
mod Examples
use ln_gap.Prelude.{
  ℕ, zero, suc, ◌-◌, ◌/◌, ◌%◌, ◌^◌, Bool, true, false, List, [], ◌∷◌, ◌++◌, ◌==◌, if◌then◌else◌,
  Bytes, length,
}
use ln_gap.Script.Machine.{
  Instruction, push_bytes, op, Script, op_hash160, op_dup, op_equal, op_if, op_drop, op_else,
  op_equalverify, op_endif, op_add, op_swap,
}
use ln_gap.Script.Builder.{IntPush, hash160_verify}
use ln_gap.Lamport.Key.{BitCommit, PublicKey}

unfoldable pub expect_bit : Bytes → Script
unfolding hash160_verify
expect_bit h = hash160_verify h

-- `for i in (0..n)`, from bit `i` on: the commitments in order, the last of them pushed first.
unfoldable pub expect_from : ℕ → List BitCommit → ℕ → Script
unfolding expect_bit
expect_from i [] value = []
expect_from i (c ∷ cs) value =
    expect_from (suc i) cs value ++ expect_bit (if value / 2 ^ i % 2 == 1 then c.h1 else c.h0)

-- The caller has checked that the value fits the key.
unfoldable pub expect_uint : PublicKey → ℕ → Script
unfolding expect_from
expect_uint pk value = expect_from 0 pk.bits value

unfoldable pub equivocation : BitCommit → Script
unfolding hash160_verify
equivocation c = hash160_verify c.h1 ++ hash160_verify c.h0

module _ (ip : IntPush) where
  open ip use {push_int}

  unfoldable pub bit_decode : BitCommit → Script
  bit_decode c =
      op op_hash160
      ∷ (op op_dup
          ∷ (push_bytes c.h1
              ∷ (op op_equal
                  ∷ (op op_if
                      ∷ (op op_drop
                          ∷ (push_int 1
                              ∷ (op op_else
                                  ∷ (push_bytes c.h0
                                      ∷ (op op_equalverify
                                          ∷ (push_int 0 ∷ (op op_endif ∷ [])))))))))))

  -- The body of the loop of `decode_uint`.
  unfoldable pub decode_round : BitCommit → Script
  unfolding bit_decode
  decode_round c = op op_dup ∷ (op op_add ∷ (op op_swap ∷ (bit_decode c ++ op op_add ∷ [])))

  -- `for i in (0..n).rev()`: the last bit is the first one decoded.
  unfoldable pub decode_rounds : List BitCommit → Script
  unfolding decode_round
  decode_rounds [] = []
  decode_rounds (c ∷ cs) = decode_rounds cs ++ decode_round c

  unfoldable pub decode_uint : PublicKey → Script
  unfolding decode_rounds
  decode_uint pk = push_int 0 ∷ decode_rounds pk.bits
