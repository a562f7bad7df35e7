-- ===== src/Lamport/Winternitz/Gadget/Examples.antt =====
-- The script of a key for one byte with a toy hash: a test of crates/lamport/src/winternitz.rs, and
-- the theorem at it.
use mathlib.Core.Option
use ln_gap.Prelude.{
  true, ◌≡◌, refl, [], ◌∷◌, ◌++◌, Bytes, arith, replicate, map, reverse, take, some, to_option,
}
use ln_gap.Script.Machine.{machine}
use ln_gap.Script.Runs.{exec}
use ln_gap.Script.Sample.{rust_push}
use ln_gap.Lamport.Winternitz.{
  WotsParams, WotsPublic, WotsSig, for_bytes, params_for, checksum_bound, to_u32, checksum_width,
  hash_times, consumption_order, verify, check_chains, checksum_digits, base16, message,
  join_digits,
}
use ln_gap.Lamport.Winternitz.Gadget.{wots_verify, hash160_chain}
use ln_gap.Lamport.Winternitz.Gadget.Native.{clamp, clamped}
use ln_gap.Lamport.Winternitz.Gadget.Finale.{element}
use ln_gap.Lamport.Winternitz.Gadget.Accepts.{exec-wots_verify}

abbrev toy_hash : Bytes → Bytes
toy_hash b = 7 ∷ b

abbrev params : WotsParams
params = record { message_digits = 2; checksum_digits = 2 }

abbrev start : Bytes
start = replicate 20 1

abbrev key : WotsPublic
key = record {
  params = params;
  digits =
      hash_times toy_hash start 13
      ∷ (hash_times toy_hash start 14
          ∷ (hash_times toy_hash start 14 ∷ (hash_times toy_hash start 4 ∷ [])));
}

-- The byte 0x21, whose checksum is 27.
abbrev signed : WotsSig
signed = record {
  params = params;
  hashes = start ∷ (start ∷ (start ∷ (start ∷ [])));
  digits = 2 ∷ (1 ∷ (1 ∷ (11 ∷ [])));
}

exec-wots_verify_example :
    to_option (
      exec toy_hash toy_hash
        (wots_verify rust_push hash160_chain key)
        (machine (consumption_order signed ++ []) [] []))
    ≡ Option.map
        (λ (msg : Bytes).
          machine (reverse (map element (take 2 (map clamp signed.digits))) ++ []) [] [])
        (to_option (verify toy_hash key (clamped signed)))
exec-wots_verify_example =
    exec-wots_verify toy_hash toy_hash rust_push [] [] refl true hash160_chain 1 key signed []
      (omega arith) (omega arith)
      (unfold for_bytes params_for checksum_bound to_u32 checksum_width in refl) refl refl refl refl
      (omega arith) (refl, (refl, (refl, (refl, tt))))

verify_signed : to_option (verify toy_hash key signed) ≡ some (33 ∷ [])
unfolding verify check_chains hash_times checksum_digits base16 message join_digits
verify_signed = refl
