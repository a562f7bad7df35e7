-- ===== src/Lamport/Winternitz/Gadget.antt =====
-- The script gadget of crates/lamport/src/winternitz.rs. A gadget is the instructions that it pushes
-- on a builder; a chain is one of the two hashes that the trait `Chain` is implemented for.
pub mod Step
pub mod Finale
pub mod Native
pub mod Verify
pub mod Accepts
mod Examples
use ln_gap.Prelude.{ℕ, zero, suc, ◌+◌, ◌-◌, ◌*◌, ◌/◌, List, [], ◌∷◌, ◌++◌, Bytes}
use ln_gap.Script.Machine.{
  Instruction, push_bytes, op, Opcode, Script, op_hash160, op_sha256, op_dup, op_if, op_drop,
  op_else, op_equalverify, op_endif, op_add, op_sub, op_swap, op_size, op_min, op_2dup, op_lessthan,
  op_2drop, op_toaltstack, op_fromaltstack, op_pick, op_tuck, op_negate,
}
use ln_gap.Script.Builder.{IntPush}
use ln_gap.Lamport.Winternitz.{WotsParams, WotsPublic, max_digit}

-- The implementations of `Chain`: `Hash160` and `[u8; 32]`.
pub data ChainKind : Type 0 where
  hash160_chain sha256_chain : ChainKind

-- `H::OP`
abbrev pub chain_op : ChainKind → Opcode
chain_op hash160_chain = op_hash160
chain_op sha256_chain = op_sha256

-- `size_of::<H>()`
abbrev pub chain_size : ChainKind → ℕ
chain_size hash160_chain = 20
chain_size sha256_chain = 32

-- `H::hash`, of the two third-party hashes.
abbrev pub chain_hash : (hash160 sha256 : Bytes → Bytes) → ChainKind → Bytes → Bytes
chain_hash hash160 sha256 hash160_chain = hash160
chain_hash hash160 sha256 sha256_chain = sha256

-- `for _ in 0..n`
abbrev pub times : ℕ → Script → Script
times zero s = []
times (suc n) s = s ++ times n s

-- The body of the loop over the message digits.
unfoldable pub subtract_round : Script
subtract_round = op op_fromaltstack ∷ (op op_tuck ∷ (op op_sub ∷ []))

-- The body of the loop over the checksum digits: four doublings, then the digit.
unfoldable pub horner_round : Script
horner_round = times 4 (op op_dup ∷ (op op_add ∷ [])) ++ (op op_fromaltstack ∷ (op op_add ∷ []))

module _ (ip : IntPush) where
  open ip use {push_int}

  module _ (kind : ChainKind) where
    -- Up to `OP_ENDIF`: a copy of the clamped digit goes to the alt stack, then how deep the element
    -- to compare will lie; a low digit hashes eight times more.
    unfoldable pub wots_prepare : Script
    wots_prepare =
        op op_swap
        ∷ (op op_size
            ∷ (push_int (chain_size kind)
                ∷ (op op_equalverify
                    ∷ (op op_swap
                        ∷ (push_int max_digit
                            ∷ (op op_min
                                ∷ (op op_dup
                                    ∷ (op op_toaltstack
                                        ∷ (push_int 8
                                            ∷ (op op_2dup
                                                ∷ (op op_lessthan
                                                    ∷ (op op_if
                                                        ∷ (op op_drop
                                                            ∷ (op op_toaltstack
                                                            ∷ (times 8 (op (chain_op kind) ∷ [])
                                                            ++ (op op_else
                                                            ∷ (op op_sub
                                                            ∷ (op op_toaltstack
                                                            ∷ (op op_endif ∷ [])))))))))))))))))))

    -- The chain of seven more hashes, and the comparison of the element that the digit picks.
    unfoldable pub wots_compare : Bytes → Script
    wots_compare pk_digit =
        times 7 (op op_dup ∷ (op (chain_op kind) ∷ []))
        ++ (op op_fromaltstack
            ∷ (op op_pick
                ∷ (push_bytes pk_digit ∷ (op op_equalverify ∷ times 4 (op op_2drop ∷ [])))))

    unfoldable pub wots_step : Bytes → Script
    unfolding wots_prepare wots_compare
    wots_step pk_digit = wots_prepare ++ wots_compare pk_digit

    -- The loop of `wots_verify`: the last digit first.
    unfoldable pub wots_steps : List Bytes → Script
    wots_steps [] = []
    wots_steps (p ∷ ps) = wots_steps ps ++ wots_step p

  unfoldable pub wots_checksum_finale : WotsParams → Script
  unfolding subtract_round horner_round
  wots_checksum_finale ps =
      (op op_fromaltstack ∷ (op op_dup ∷ (op op_negate ∷ [])))
      ++ (times (ps.message_digits - 1) subtract_round
          ++ ((push_int (max_digit * ps.message_digits) ∷ (op op_add ∷ (op op_fromaltstack ∷ [])))
              ++ (times (ps.checksum_digits - 1) horner_round ++ (op op_equalverify ∷ []))))

  unfoldable pub wots_verify : ChainKind → WotsPublic → Script
  wots_verify kind pk = wots_steps kind pk.digits ++ wots_checksum_finale pk.params
