-- ===== src/N4Bit/Script.antt =====
-- crates/n4bit/src/script.rs: a round of the hash as the instructions that it pushes on a builder.
pub mod Nibble
pub mod Phases
pub mod Permute
use ln_gap.Prelude.{
  ℕ, zero, suc, ◌+◌, ◌-◌, List, [], ◌∷◌, ◌++◌, map, reverse, length, take, drop, ◌==◌,
  if◌then◌else◌, range_from,
}
use ln_gap.Script.Machine.{
  Instruction, op, Script, op_dup, op_greaterthanorequal, op_if, op_sub, op_endif, op_add, op_pick,
  op_roll, op_swap, op_rot, op_over, op_toaltstack, op_fromaltstack,
}
use ln_gap.Script.Builder.{IntPush}
use ln_gap.N4Bit.{sbox, rc, state_nibbles, shift_rows, rotate_columns, swap_rounds}

-- `for _ in 0..n`
abbrev pub times : ℕ → Script → Script
times zero s = []
times (suc n) s = s ++ times n s

-- `for _ in 0..n { OP_FROMALTSTACK }`
abbrev pub unpark : ℕ → Script
unpark n = times n (op op_fromaltstack ∷ [])

-- The places of the nibbles after the permutation.
unfoldable pub compute_permutation : List ℕ
unfolding shift_rows rotate_columns swap_rounds
compute_permutation = swap_rounds 10 0 (rotate_columns (shift_rows (range_from 0 state_nibbles)))

-- `remaining.iter().position(|&x| x == src)`
unfoldable pub position : ℕ → List ℕ → ℕ
position src [] = 0
position src (x ∷ xs) = let rest = position src xs in if x == src then 0 else suc rest

module _ (ip : IntPush) where
  open ip use {push_int}

  unfoldable pub push_sbox_table : Script
  push_sbox_table = map push_int (reverse sbox)

  unfoldable pub mod16 : Script
  mod16 =
      op op_dup
      ∷ (push_int 16
          ∷ (op op_greaterthanorequal
              ∷ (op op_if ∷ (push_int 16 ∷ (op op_sub ∷ (op op_endif ∷ []))))))

  unfoldable pub add_constant : ℕ → Script
  add_constant rc_val = push_int rc_val ∷ (op op_add ∷ mod16)

  unfoldable pub sbox_lookup : ℕ → Script
  sbox_lookup table_base = push_int (table_base - 1) ∷ (op op_add ∷ (op op_pick ∷ []))

  unfoldable pub feistel_add : Script
  feistel_add =
      op op_swap
      ∷ (op op_toaltstack
          ∷ (op op_dup
              ∷ (op op_fromaltstack
                  ∷ (op op_add
                      ∷ (mod16
                          ++ (op op_swap
                              ∷ (op op_over ∷ (op op_add ∷ (mod16 ++ op op_swap ∷ [])))))))))

  -- One nibble of `sbox_phase_script`.
  unfoldable pub sbox_phase_round : ℕ → ℕ → Script
  sbox_phase_round round i =
      add_constant (rc round i) ++ (sbox_lookup (i + 1) ++ op op_toaltstack ∷ [])

  -- `for i in (0..n).rev()`: the last place first.
  unfoldable pub sbox_phase_rounds : ℕ → ℕ → Script
  sbox_phase_rounds round zero = []
  sbox_phase_rounds round (suc n) = sbox_phase_round round n ++ sbox_phase_rounds round n

  unfoldable pub sbox_phase_script : ℕ → Script
  sbox_phase_script round = sbox_phase_rounds round state_nibbles ++ unpark state_nibbles

  -- One pair of `mix_script`.
  unfoldable pub mix_pair : Script
  mix_pair = feistel_add ++ op op_swap ∷ (op op_toaltstack ∷ (op op_toaltstack ∷ []))

  unfoldable pub mix_script : Script
  mix_script = times 20 mix_pair ++ unpark state_nibbles

  unfoldable pub roll_to_top : ℕ → Script
  roll_to_top zero = []
  roll_to_top (suc zero) = op op_swap ∷ []
  roll_to_top (suc (suc zero)) = op op_rot ∷ []
  roll_to_top (suc (suc (suc d))) = push_int (suc (suc (suc d))) ∷ (op op_roll ∷ [])

  -- The loop that parks the sources, the last place first.
  unfoldable pub park_rounds : List ℕ → List ℕ → Script
  unfolding position
  park_rounds [] remaining = []
  park_rounds (src ∷ srcs) remaining =
      let pos = position src remaining in
      (roll_to_top (length remaining - 1 - pos) ++ op op_toaltstack ∷ [])
      ++ park_rounds srcs (take pos remaining ++ drop (suc pos) remaining)

  unfoldable pub permute_script : Script
  unfolding compute_permutation
  permute_script =
      park_rounds (reverse compute_permutation) (range_from 0 state_nibbles) ++ unpark state_nibbles

  unfoldable pub spn_round_script : ℕ → Script
  spn_round_script round = sbox_phase_script round ++ (mix_script ++ permute_script)
