-- ===== src/N4Bit/Examples.antt =====
-- Runs of the hash of crates/n4bit and of its round in Script.
use mathlib.Core.Option
use ln_gap.Prelude.{
  ◌≡◌, refl, map, get_or, range_from, [], ◌∷◌, true, false, none, some, ltb, ◌^◌, ◌++◌, replicate,
  arith, length, ok, Bytes,
}
use ln_gap.Script.Runs.{exec}
use ln_gap.Script.Sample.{rust_push}
use ln_gap.N4Bit.{
  State, sbox, sbox_inv, hash, hash_claim, meets_target, target_from_difficulty, apply_rounds,
  nibbles_to_bytes, spn_round, rate_blocks, bytes_to_nibbles, sponge_absorb, rc, to_digest,
}
use ln_gap.N4Bit.Ranges.{IsState}
use ln_gap.N4Bit.Digest.{IsDigest, hashes_return}
use ln_gap.N4Bit.Inverse.{apply_rounds_injective}
use ln_gap.N4Bit.Short.{hash_claim_injective}
use ln_gap.N4Bit.Target.{be_from, meets_target-target_from_difficulty, meets_target-target_wrapped}
use ln_gap.N4Bit.Script.{spn_round_script}
use ln_gap.N4Bit.Script.Nibble.{table}
use ln_gap.N4Bit.Script.Phases.{holding}
use ln_gap.N4Bit.Script.Permute.{exec-spn_round_script}

abbrev threes : State
threes = replicate 40 3

threes-IsState : IsState threes
threes-IsState = record { forty = refl; nibbles = omega arith }

exec-spn_round_script_example :
    (after : State) × (spn_round threes 5 ≡ some after)
    × (exec
          (λ x. x)
          (λ x. x)
          (spn_round_script rust_push 5)
          (holding (λ x. x) (λ x. x) rust_push [] refl threes (table ++ []) [])
        ≡ ok (holding (λ x. x) (λ x. x) rust_push [] refl after (table ++ []) []))
exec-spn_round_script_example =
    exec-spn_round_script (λ x. x) (λ x. x) rust_push [] refl 5 threes [] [] threes-IsState

hash_size : Option.map (λ (d : Bytes). length d) (hash []) ≡ some 20
unfolding hash apply_rounds nibbles_to_bytes spn_round rate_blocks bytes_to_nibbles sponge_absorb rc
    to_digest
hash_size = refl

zeros : IsDigest (replicate 20 0)
zeros = record { twenty = refl; bytes = omega arith }

hashes_return_example :
    ((d : Bytes) × (hash (1 ∷ (2 ∷ [])) ≡ some d) × IsDigest d)
    × ((d : Bytes) × (hash_claim (1 ∷ (2 ∷ [])) ≡ some d) × IsDigest d)
hashes_return_example = hashes_return (1 ∷ (2 ∷ []))

abbrev preimage : Bytes
preimage = 1 ∷ (2 ∷ [])

hash_claim_injective_example : preimage ≡ preimage
hash_claim_injective_example =
    hash_claim_injective preimage preimage refl (omega arith) (omega arith) (omega arith) refl

meets_target-target_from_difficulty_example :
    Option.map (meets_target (replicate 20 0)) (target_from_difficulty true 5)
    ≡ some (ltb (be_from 0 (replicate 20 0)) (2 ^ 155))
meets_target-target_from_difficulty_example =
    meets_target-target_from_difficulty true 5 (replicate 20 0) (omega arith) (omega arith) zeros

meets_target-target_wrapped_example :
    (target_from_difficulty true 8 ≡ none)
    × (Option.map (meets_target (replicate 20 0)) (target_from_difficulty false 8)
        ≡ some (ltb (be_from 0 (replicate 20 0)) (2 ^ 144)))
meets_target-target_wrapped_example =
    meets_target-target_wrapped 8 (replicate 20 0) (omega arith) refl zeros

apply_rounds_injective_example : threes ≡ threes
apply_rounds_injective_example =
    apply_rounds_injective threes threes 0 threes-IsState threes-IsState refl

-- `sbox_inv_is_correct`
restored : map (λ x. get_or sbox_inv x 0) sbox ≡ range_from 0 16
unfolding sbox_inv
restored = refl
