-- ===== src/Lamport/Gadgets/Examples.antt =====
-- The gadgets on a key of two bits with a toy hash: tests of crates/lamport/src/gadgets.rs, and the
-- theorems at them.
use mathlib.Core.Option
use ln_gap.Prelude.{
  ℕ, ◌≡◌, ◌↔◌, refl, true, false, [], ◌∷◌, ◌++◌, Bytes, pos, ok, arith, some, to_option,
}
use ln_gap.Script.Number.{encode}
use ln_gap.Script.Machine.{machine}
use ln_gap.Script.Runs.{exec}
use ln_gap.Script.Sample.{rust_push}
use ln_gap.Lamport.Key
use ln_gap.Lamport.Key.{
  PublicKey, Reveal, BitCommit, consumption_order, decode_bit, decode_bits, decode_from,
}
use ln_gap.Lamport.Bits.{bits_to_uint}
use ln_gap.Lamport.Gadgets.{decode_uint, expect_uint, equivocation}
use ln_gap.Lamport.Gadgets.Decode.{exec-decode_uint}
use ln_gap.Lamport.Gadgets.Expect.{exec-expect_uint_iff, exec-equivocation_iff}

abbrev toy_hash : Bytes → Bytes
toy_hash b = 7 ∷ b

abbrev low : BitCommit
low = record { h0 = 7 ∷ (1 ∷ []); h1 = 7 ∷ (2 ∷ []) }

abbrev high : BitCommit
high = record { h0 = 7 ∷ (3 ∷ []); h1 = 7 ∷ (4 ∷ []) }

abbrev key : PublicKey
key = record { bits = low ∷ (high ∷ []) }

-- The reveal of 2.
abbrev two : Reveal
two = record { preimages = (1 ∷ []) ∷ ((4 ∷ []) ∷ []) }

exec-decode_uint_example :
    to_option (
      exec toy_hash toy_hash
        (decode_uint rust_push key)
        (machine (consumption_order two ++ (9 ∷ []) ∷ []) [] (false ∷ [])))
    ≡ Option.map
        (λ (v : ℕ). machine (encode (pos v) ∷ ((9 ∷ []) ∷ [])) [] (false ∷ []))
        (to_option (Key.decode_uint toy_hash key two))
exec-decode_uint_example =
    exec-decode_uint toy_hash toy_hash rust_push [] (false ∷ []) refl key two ((9 ∷ []) ∷ []) refl
      (omega arith)

decode_two : to_option (Key.decode_uint toy_hash key two) ≡ some 2
unfolding Key.decode_uint decode_bits decode_from decode_bit bits_to_uint
decode_two = refl

exec-expect_uint_iff_example :
    (exec toy_hash toy_hash (expect_uint key 2) (machine (consumption_order two ++ []) [] [])
      ≡ ok (machine [] [] []))
    ↔ (Key.decode_uint toy_hash key two ≡ ok 2)
exec-expect_uint_iff_example =
    exec-expect_uint_iff toy_hash toy_hash [] [] refl key two [] 2 refl (omega arith) (omega arith)
      ((λ e. cc), ((λ e. cc), tt))

exec-equivocation_iff_example :
    (exec toy_hash toy_hash (equivocation low) (machine ((2 ∷ []) ∷ ((1 ∷ []) ∷ [])) [] [])
      ≡ ok (machine [] [] []))
    ↔ ((decode_bit toy_hash 0 low (2 ∷ []) ≡ ok true)
        × (decode_bit toy_hash 0 low (1 ∷ []) ≡ ok false))
exec-equivocation_iff_example =
    exec-equivocation_iff toy_hash toy_hash [] [] refl 0 low (2 ∷ []) (1 ∷ []) [] (λ e. cc)
