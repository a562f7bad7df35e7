-- ===== src/Script/Machine.antt =====
-- `run_inner` of crates/script32/src/sim.rs: the instructions, the two stacks and the stack of open
-- conditions. An instruction is what the bitcoin crate's parser yields; the hash functions are
-- third-party code and are parameters. The printing of `trace` is left out.
use ln_gap.Prelude.{
  ℕ, suc, ◌+◌, Bool, true, false, not, ◌&&◌, ◌||◌, List, [], ◌∷◌, if◌then◌else◌, Bytes, ℤ, pos,
  negsuc, abs, negate, ◌+ℤ◌, ◌-ℤ◌, int_lt, int_le, int_eq, int_max, int_min, length, any, list_eq,
  ok, err, ◌>>=◌, ◌>>◌, ensure, map,
}
use Prim.Native.Nat.{max}
use ln_gap.Script.Number.{encode, truthy}
use ln_gap.Script.Stack.{
  read_numbers, malformed_script, alt_underflow, minimal_if, else_without_if, endif_without_if,
  unsupported, Elements, Outcome, pop, flag, unary, binary, dup, two_dup, swap, rot, tuck, over,
  nip, two_swap, two_over, three_dup, pick_or_roll, within, equal, equalverify, numequalverify,
  size, drop_two, check_verify,
}

-- `op_pushnum k` is OP_PUSHNUM_(k + 1).
pub data Opcode : Type 0 where
  op_if op_notif op_else op_endif : Opcode
  op_pushnum : ℕ → Opcode
  op_pushnum_neg1 : Opcode
  op_dup op_drop op_2drop op_2dup op_swap op_rot op_tuck op_over op_nip op_pick op_roll : Opcode
  op_2swap op_2over op_3dup op_depth op_size : Opcode
  op_add op_1add op_1sub op_sub op_negate op_abs op_max op_min : Opcode
  op_greaterthan op_greaterthanorequal op_lessthan op_lessthanorequal op_within : Opcode
  op_0notequal op_not op_numequal op_numnotequal op_numequalverify op_booland op_boolor : Opcode
  op_equal op_equalverify op_verify : Opcode
  op_hash160 op_sha256 op_checksig op_checksigverify : Opcode
  op_toaltstack op_fromaltstack : Opcode
  op_other : ℕ → Opcode

pub data Instruction : Type 0 where
  push_bytes : Bytes → Instruction
  op : Opcode → Instruction
  malformed : Instruction

abbrev pub Script : Type 0
Script = List Instruction

pub record Machine : Type 0 where
  pub main : Elements
  pub alt : Elements
  pub skip : List Bool

abbrev pub machine : Elements → Elements → List Bool → Machine
machine main alt skip = record { main = main; alt = alt; skip = skip }

-- `skip.iter().any(|s| *s)`
abbrev pub skipping : List Bool → Bool
skipping skip = any (λ s. s) skip

-- A new main stack, the rest as it was.
abbrev pub with_main : Machine → Outcome Elements → Outcome Machine
with_main m r = r >>= λ s. ok (record m { main = s })

unfoldable pub to_alt : Machine → Outcome Machine
unfolding pop
to_alt m = do (v, s) ← pop m.main; ok (record m { main = s; alt = v ∷ m.alt })

from_alt_with : Elements → Machine → Outcome Machine
from_alt_with [] m = err alt_underflow
from_alt_with (v ∷ s) m = ok (record m { main = v ∷ m.main; alt = s })

unfoldable pub from_alt : Machine → Outcome Machine
unfolding from_alt_with
from_alt m = from_alt_with m.alt m

-- OP_IF (`on`) and OP_NOTIF: the condition is exactly empty or 0x01.
unfoldable pub branch : Bool → Machine → Outcome Machine
unfolding pop
branch on m = if skipping m.skip then ok (record m { skip = true ∷ m.skip }) else do
  (v, s) ← pop m.main
  ensure (list_eq v [] || list_eq v (1 ∷ [])) (minimal_if v)
  ok (record m { main = s; skip = (if on then not (truthy v) else truthy v) ∷ m.skip })

otherwise_with : List Bool → Machine → Outcome Machine
otherwise_with [] m = err else_without_if
otherwise_with (b ∷ bs) m = ok (record m { skip = not b ∷ bs })

unfoldable pub otherwise : Machine → Outcome Machine
unfolding otherwise_with
otherwise m = otherwise_with m.skip m

end_if_with : List Bool → Machine → Outcome Machine
end_if_with [] m = err endif_without_if
end_if_with (b ∷ bs) m = ok (record m { skip = bs })

unfoldable pub end_if : Machine → Outcome Machine
unfolding end_if_with
end_if m = end_if_with m.skip m

-- `peak.max(stack.len() + alt.len())`
abbrev pub raise_peak : ℕ → Machine → ℕ
raise_peak peak m = max peak (length m.main + length m.alt)

module _ (hash160 sha256 : Bytes → Bytes) where
  -- The opcodes that change the main stack alone.
  unfoldable pub on_main : Opcode → Elements → Outcome Elements
  unfolding dup two_dup swap rot tuck over nip two_swap two_over three_dup pick_or_roll within equal
      equalverify numequalverify size drop_two check_verify unary binary pop
  on_main (op_pushnum k) s = ok (encode (pos (suc k)) ∷ s)
  on_main op_pushnum_neg1 s = ok (encode (negsuc 0) ∷ s)
  on_main op_dup s = dup s
  on_main op_drop s = pop s >>= λ r. ok r.1
  on_main op_2drop s = drop_two s
  on_main op_2dup s = two_dup s
  on_main op_swap s = swap s
  on_main op_rot s = rot s
  on_main op_tuck s = tuck s
  on_main op_over s = over s
  on_main op_nip s = nip s
  on_main op_pick s = pick_or_roll false s
  on_main op_roll s = pick_or_roll true s
  on_main op_2swap s = two_swap s
  on_main op_2over s = two_over s
  on_main op_3dup s = three_dup s
  on_main op_depth s = ok (encode (pos (length s)) ∷ s)
  on_main op_size s = size s
  on_main op_add s = binary (λ a b. a +ℤ b) s
  on_main op_1add s = unary (λ a. a +ℤ pos 1) s
  on_main op_1sub s = unary (λ a. a -ℤ pos 1) s
  on_main op_sub s = binary (λ a b. a -ℤ b) s
  on_main op_negate s = unary negate s
  on_main op_abs s = unary (λ a. pos (abs a)) s
  on_main op_max s = binary int_max s
  on_main op_min s = binary int_min s
  on_main op_greaterthan s = binary (λ a b. flag (int_lt b a)) s
  on_main op_greaterthanorequal s = binary (λ a b. flag (int_le b a)) s
  on_main op_lessthan s = binary (λ a b. flag (int_lt a b)) s
  on_main op_lessthanorequal s = binary (λ a b. flag (int_le a b)) s
  on_main op_within s = within s
  on_main op_0notequal s = unary (λ a. flag (not (int_eq a (pos 0)))) s
  on_main op_not s = unary (λ a. flag (int_eq a (pos 0))) s
  on_main op_numequal s = binary (λ a b. flag (int_eq a b)) s
  on_main op_numnotequal s = binary (λ a b. flag (not (int_eq a b))) s
  on_main op_numequalverify s = numequalverify s
  on_main op_booland s = binary (λ a b. flag (not (int_eq a (pos 0)) && not (int_eq b (pos 0)))) s
  on_main op_boolor s = binary (λ a b. flag (not (int_eq a (pos 0)) || not (int_eq b (pos 0)))) s
  on_main op_equal s = equal s
  on_main op_equalverify s = equalverify s
  on_main op_verify s = check_verify s
  on_main op_hash160 s = pop s >>= λ r. ok (hash160 r.0 ∷ r.1)
  on_main op_sha256 s = pop s >>= λ r. ok (sha256 r.0 ∷ r.1)
  on_main op_checksigverify s = drop_two s
  on_main op_checksig s = drop_two s >>= λ r. ok (encode (pos 1) ∷ r)
  on_main (op_other code) s = err (unsupported code)
  -- These are taken before.
  on_main op_if s = err (unsupported 99)
  on_main op_notif s = err (unsupported 100)
  on_main op_else s = err (unsupported 103)
  on_main op_endif s = err (unsupported 104)
  on_main op_toaltstack s = err (unsupported 107)
  on_main op_fromaltstack s = err (unsupported 108)

  -- An opcode that is not skipped.
  unfoldable pub execute : Opcode → Machine → Outcome Machine
  unfolding on_main to_alt from_alt
  execute op_toaltstack m = to_alt m
  execute op_fromaltstack m = from_alt m
  execute o m = with_main m (on_main o m.main)

  -- The body of the loop.
  unfoldable pub step : Instruction → Machine → Outcome Machine
  unfolding execute branch otherwise end_if
  step (push_bytes b) m = if skipping m.skip then ok m else ok (record m { main = b ∷ m.main })
  step malformed m = err malformed_script
  step (op op_if) m = branch true m
  step (op op_notif) m = branch false m
  step (op op_else) m = otherwise m
  step (op op_endif) m = end_if m
  step (op o) m = if skipping m.skip then ok m else execute o m

  -- The loop, with the peak seen so far.
  unfoldable pub rounds : Script → ℕ → Machine → Outcome (Machine × ℕ)
  unfolding step
  rounds [] peak m = ok (m, peak)
  rounds (i ∷ is) peak m = step i m >>= λ m'. rounds is (raise_peak peak m) m'

  unfoldable pub run_inner : Script → Elements → Outcome (Elements × ℕ)
  unfolding rounds
  run_inner script stack = do
    (m, peak) ← rounds script (length stack) (machine stack [] [])
    ok (m.main, raise_peak peak m)

  unfoldable pub run : Script → Elements → Outcome Elements
  unfolding run_inner
  run script stack = run_inner script stack >>= λ r. ok r.0

  unfoldable pub run_peak : Script → Elements → Outcome (Elements × ℕ)
  unfolding run_inner
  run_peak script stack = run_inner script stack

  unfoldable pub run_nums : Script → List ℤ → Outcome (List ℤ)
  unfolding run
  run_nums script stack = run script (map encode stack) >>= read_numbers
