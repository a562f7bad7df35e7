-- ===== src/Script/Examples.antt =====
-- Small scripts: tests of crates/script32/src/sim.rs, and the theorems at them.
use ln_gap.Prelude.{
  some, ◌≤◌, ◌^◌, ◌≡◌, refl, [], ◌∷◌, ◌++◌, Bytes, pos, negsuc, ltb, if◌then◌else◌, ok, err, length,
  arith,
}
use ln_gap.Script.Number.{encode, number_of, decode, truthy}
use ln_gap.Script.Stack.{read_numbers, popn, number_overflow, ScriptError}
use ln_gap.Script.Stack.Reads.{popn-encode}
use ln_gap.Script.Machine.{
  Script, Machine, machine, op, op_pushnum, op_dup, op_add, op_if, op_else, op_endif, op_roll, run,
  run_peak, step, run_nums,
}
use ln_gap.Script.Runs.{exec, height, run_peak-greatest}

abbrev toy_hash : Bytes → Bytes
toy_hash b = 7 ∷ b

encode_examples :
    (encode (pos 0) ≡ [])
    × (encode (pos 255) ≡ 255 ∷ (0 ∷ []))
    × (encode (negsuc 127) ≡ 128 ∷ (128 ∷ []))
    × (decode (1 ∷ (128 ∷ [])) ≡ some (negsuc 0))
unfolding encode decode
encode_examples = (refl, refl, refl, refl)

abbrev choose : Script
choose = op op_if ∷ (op (op_pushnum 1) ∷ (op op_else ∷ (op (op_pushnum 2) ∷ (op op_endif ∷ []))))

choose_runs :
    (run toy_hash toy_hash choose ((1 ∷ []) ∷ []) ≡ ok ((2 ∷ []) ∷ []))
    × (run toy_hash toy_hash choose ([] ∷ []) ≡ ok ((3 ∷ []) ∷ []))
    × (run toy_hash toy_hash choose ((2 ∷ []) ∷ []) ≡ err (ScriptError.minimal_if (2 ∷ [])))
unfolding run encode truthy
choose_runs = (refl, refl, refl)

roll_runs :
    run_nums toy_hash toy_hash
      (op (op_pushnum 1) ∷ (op op_roll ∷ []))
      (pos 5 ∷ (pos 6 ∷ (pos 7 ∷ [])))
    ≡ ok (pos 7 ∷ (pos 5 ∷ (pos 6 ∷ [])))
unfolding run_nums encode number_of decode read_numbers
roll_runs = refl

popn-encode_example : popn (encode (negsuc 299) ∷ []) ≡ (
    if ltb 300 (2 ^ 31)
    then ok (negsuc 299, [])
    else err (number_overflow (length (encode (negsuc 299)))))
popn-encode_example = popn-encode (negsuc 299) [] (omega arith)

abbrev grow : Script
grow = op (op_pushnum 4) ∷ (op op_dup ∷ [])

abbrev shrink : Script
shrink = op op_add ∷ []

run_peak-greatest_example :
    (height (machine ((5 ∷ []) ∷ ((5 ∷ []) ∷ [])) [] []) ≤ 2)
    × ((us : Script) × (vs : Script) × (top : Machine) × (grow ++ shrink ≡ us ++ vs)
        × (exec toy_hash toy_hash us (machine [] [] []) ≡ ok top)
        × (height top ≡ 2))
run_peak-greatest_example =
    run_peak-greatest toy_hash toy_hash grow shrink [] ((10 ∷ []) ∷ []) 2
      (machine ((5 ∷ []) ∷ ((5 ∷ []) ∷ [])) [] []) (unfold run_peak encode number_of in refl)
      (unfold exec step encode in refl)
