-- ===== src/Script/Stack.antt =====
-- The stacks of crates/script32/src/sim.rs, the top element first: pops, and the opcodes that work
-- on the main stack alone.
pub mod Reads
use ln_gap.Prelude.{
  none, some, ℕ, zero, suc, Bool, true, false, not, ◌&&◌, ◌||◌, List, [], ◌∷◌, ◌++◌, ltb, leb,
  if◌then◌else◌, Bytes, ℤ, pos, negsuc, abs, negate, ◌+ℤ◌, ◌-ℤ◌, int_lt, int_le, int_eq, int_max,
  int_min, length, get_or, take, drop, list_eq, Result, ok, err, ◌>>=◌, ◌>>◌, ensure,
}
use ln_gap.Script.Number.{number_of, decode, encode, truthy}

-- The error strings, with the values that they show. The place in the script is left out.
-- `shift_overflow` is the panic of `decode`.
pub data ScriptError : Type 0 where
  stack_underflow : ScriptError
  underflow : ScriptError
  alt_underflow : ScriptError
  number_overflow : ℕ → ScriptError
  malformed_script : ScriptError
  minimal_if : Bytes → ScriptError
  else_without_if : ScriptError
  endif_without_if : ScriptError
  depth_out_of_range : ℤ → ℕ → ScriptError
  num_equal_verify : ℤ → ℤ → ScriptError
  equal_verify : Bytes → Bytes → ScriptError
  verify_failed : ScriptError
  unsupported : ℕ → ScriptError
  shift_overflow : ScriptError

abbrev pub Elements : Type 0
Elements = List Bytes

abbrev pub Outcome : Type 0 → Type 0
Outcome A = Result ScriptError A

unfoldable pub pop : Elements → Outcome (Bytes × Elements)
pop [] = err stack_underflow
pop (v ∷ s) = ok (v, s)

-- At most four bytes are read as a number, which `decode` gives for them.
unfoldable pub popn : Elements → Outcome (ℤ × Elements)
unfolding pop
popn s = do
  (v, s') ← pop s
  ensure (leb (length v) 4) (number_overflow (length v))
  ok (number_of v, s')

-- `.iter().map(|v| decode(v)).collect()`
unfoldable pub read_numbers : Elements → Outcome (List ℤ)
read_numbers [] = ok []
read_numbers (v ∷ s) =
    let rest = read_numbers s in
    elim (decode v) [ none ↦ err shift_overflow | some n ↦ rest >>= λ ns. ok (n ∷ ns) ]

-- `i64::from` of a test
abbrev pub flag : Bool → ℤ
flag true = pos 1
flag false = pos 0

-- `let a = popn(..)?; stack.push(encode(f(a)))`
unfoldable pub unary : (ℤ → ℤ) → Elements → Outcome Elements
unfolding popn
unary f s = do (a, s') ← popn s; ok (encode (f a) ∷ s')

-- `let b = popn(..)?; let a = popn(..)?; stack.push(encode(f(a, b)))`
unfoldable pub binary : (ℤ → ℤ → ℤ) → Elements → Outcome Elements
unfolding popn
binary f s = do (b, s') ← popn s; (a, s'') ← popn s'; ok (encode (f a b) ∷ s'')

unfoldable pub dup : Elements → Outcome Elements
dup [] = err underflow
dup (a ∷ s) = ok (a ∷ (a ∷ s))

unfoldable pub two_dup : Elements → Outcome Elements
two_dup (b ∷ (a ∷ s)) = ok (b ∷ (a ∷ (b ∷ (a ∷ s))))
two_dup _ = err underflow

unfoldable pub swap : Elements → Outcome Elements
swap (b ∷ (a ∷ s)) = ok (a ∷ (b ∷ s))
swap _ = err underflow

unfoldable pub rot : Elements → Outcome Elements
rot (c ∷ (b ∷ (a ∷ s))) = ok (a ∷ (c ∷ (b ∷ s)))
rot _ = err underflow

unfoldable pub tuck : Elements → Outcome Elements
tuck (b ∷ (a ∷ s)) = ok (b ∷ (a ∷ (b ∷ s)))
tuck _ = err underflow

unfoldable pub over : Elements → Outcome Elements
over (b ∷ (a ∷ s)) = ok (a ∷ (b ∷ (a ∷ s)))
over _ = err underflow

unfoldable pub nip : Elements → Outcome Elements
nip (b ∷ (a ∷ s)) = ok (b ∷ s)
nip _ = err underflow

unfoldable pub two_swap : Elements → Outcome Elements
two_swap (d ∷ (c ∷ (b ∷ (a ∷ s)))) = ok (b ∷ (a ∷ (d ∷ (c ∷ s))))
two_swap _ = err underflow

unfoldable pub two_over : Elements → Outcome Elements
two_over (d ∷ (c ∷ (b ∷ (a ∷ s)))) = ok (b ∷ (a ∷ (d ∷ (c ∷ (b ∷ (a ∷ s))))))
two_over _ = err underflow

unfoldable pub three_dup : Elements → Outcome Elements
three_dup (c ∷ (b ∷ (a ∷ s))) = ok (c ∷ (b ∷ (a ∷ (c ∷ (b ∷ (a ∷ s))))))
three_dup _ = err underflow

-- An element of the depth that a number gives, its place left empty by `OP_ROLL`.
unfoldable pub reach : Bool → ℤ → Elements → Outcome Elements
reach roll (negsuc d) s = err (depth_out_of_range (negsuc d) (length s))
reach roll (pos d) s = do
  ensure (ltb d (length s)) (depth_out_of_range (pos d) (length s))
  ok (get_or s d [] ∷ (if roll then take d s ++ drop (suc d) s else s))

unfoldable pub pick_or_roll : Bool → Elements → Outcome Elements
unfolding popn reach
pick_or_roll roll s = do (d, s') ← popn s; reach roll d s'

unfoldable pub within : Elements → Outcome Elements
unfolding popn
within s = do
  (max, s') ← popn s
  (min, s'') ← popn s'
  (x, s''') ← popn s''
  ok (encode (flag (int_le min x && int_lt x max)) ∷ s''')

unfoldable pub equal : Elements → Outcome Elements
unfolding pop
equal s = do (b, s') ← pop s; (a, s'') ← pop s'; ok (encode (flag (list_eq a b)) ∷ s'')

unfoldable pub equalverify : Elements → Outcome Elements
unfolding pop
equalverify s = do
  (b, s') ← pop s
  (a, s'') ← pop s'
  ensure (list_eq a b) (equal_verify a b)
  ok s''

unfoldable pub numequalverify : Elements → Outcome Elements
unfolding popn
numequalverify s = do
  (b, s') ← popn s
  (a, s'') ← popn s'
  ensure (int_eq a b) (num_equal_verify a b)
  ok s''

unfoldable pub size : Elements → Outcome Elements
size [] = err underflow
size (v ∷ s) = ok (encode (pos (length v)) ∷ (v ∷ s))

-- `pop(&mut stack)?; pop(&mut stack)?;`
unfoldable pub drop_two : Elements → Outcome Elements
unfolding pop
drop_two s = do (_, s') ← pop s; (_, s'') ← pop s'; ok s''

unfoldable pub check_verify : Elements → Outcome Elements
unfolding pop
check_verify s = do (v, s') ← pop s; ensure (truthy v) verify_failed; ok s'
