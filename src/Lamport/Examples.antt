-- ===== src/Lamport/Examples.antt =====
-- Keys with toy hashes: the tests of crates/lamport, and the theorems at them.
use ln_gap.Prelude.{
  none, ℕ, ◌+◌, ◌^◌, ◌≡◌, ◌⊎◌, refl, Bool, true, false, List, [], ◌∷◌, length, some, ok, err, ◌>>=◌,
  arith, replicate, length-replicate,
}
use ln_gap.Lamport.Key.{
  Bytes, Rng, SecretKey, PublicKey, Reveal, reveal_uint, reveal_bits, decode_uint, decode_bits,
  public, pick_preimages, decode_from, decode_bit, from_entropy, generate_bits, generate_bit,
}
use ln_gap.Lamport.Key.Reveals.{decode_uint-reveal_uint}
use ln_gap.Lamport.Key.Binding.{Equivocates, decode_bits_binds}
use ln_gap.Lamport.Winternitz
use ln_gap.Lamport.Winternitz.{
  WotsParams, WotsPublic, WotsSecret, WotsSig, for_bytes, params_for, checksum_bound, to_u32,
  checksum_width, max_digit, message_digits, checksum_digits, base16, sign, verify, sign_digits,
  hash_times, digit_secret, secret_input, index_bytes, check_chains, message, join_digits,
  from_hashes, total_digits,
}
use ln_gap.Lamport.Winternitz.Params.{IsWidth, for_bytes-IsWidth}
use ln_gap.Lamport.Winternitz.Binding.{Descends, verify_binds}
use ln_gap.Lamport.Winternitz.Roundtrip.{verify-sign}
use ln_gap.Lamport.KeyStore.{KeyStore, generate, reveal, sign_wots, generate_wots, new}
use ln_gap.Lamport.KeyStore.Runs.{
  Call, reveal_call, sign_call, generate_call, run, step, reveal_never_differs, reveal_again,
}
use ln_gap.Lamport.KeyStore.Signatures.{sign_never_differs}

abbrev five : List Bool
five = true ∷ (false ∷ (true ∷ []))

abbrev toy_hash : Bytes → Bytes
toy_hash b = 7 ∷ b

abbrev key : SecretKey
key = record {
  bits =
      record { p0 = replicate 20 1; p1 = replicate 20 2 }
      ∷ (record { p0 = replicate 20 3; p1 = replicate 20 4 } ∷ []);
}

decode_uint-reveal_uint_example :
    (reveal_uint key 2 >>= decode_uint toy_hash (public toy_hash key)) ≡ ok 2
decode_uint-reveal_uint_example =
    decode_uint-reveal_uint toy_hash key 2 (omega arith) (omega arith) ((λ e. cc), ((λ e. cc), tt))

abbrev revealed_two : Reveal
revealed_two = record { preimages = replicate 20 1 ∷ (replicate 20 4 ∷ []) }

abbrev revealed_three : Reveal
revealed_three = record { preimages = replicate 20 2 ∷ (replicate 20 4 ∷ []) }

abbrev public_key : PublicKey
public_key = record {
  bits =
      record { h0 = 7 ∷ replicate 20 1; h1 = 7 ∷ replicate 20 2 }
      ∷ (record { h0 = 7 ∷ replicate 20 3; h1 = 7 ∷ replicate 20 4 } ∷ []);
}

decode_bits_binds_example :
    (◌≡◌ {A = List Bool} (false ∷ (true ∷ [])) (true ∷ (true ∷ [])))
    ⊎ Equivocates toy_hash public_key.bits revealed_two.preimages revealed_three.preimages
unfolding decode_bits decode_from decode_bit
decode_bits_binds_example =
    decode_bits_binds toy_hash public_key revealed_two revealed_three (false ∷ (true ∷ []))
      (true ∷ (true ∷ [])) refl refl

-- One-byte messages: two digits and two of checksum.
abbrev params : WotsParams
params = record { message_digits = 2; checksum_digits = 2 }

for_bytes-IsWidth_example :
    (ps : WotsParams) × (for_bytes true 32 ≡ some ps)
    × (ps.message_digits ≡ 64)
    × IsWidth 961 ps.checksum_digits
for_bytes-IsWidth_example = for_bytes-IsWidth true 32 (omega arith)

-- The parameters that the source's test expects.
for_bytes_32 : for_bytes true 32 ≡ some (record { message_digits = 64; checksum_digits = 3 })
unfolding for_bytes params_for checksum_bound to_u32 checksum_width
for_bytes_32 = refl

-- Past 32 bits.
for_bytes_wraps :
    (for_bytes true (2 ^ 31) ≡ none)
    × (for_bytes false (2 ^ 31) ≡ some (record { message_digits = 0; checksum_digits = 0 }))
unfolding for_bytes params_for checksum_bound to_u32 checksum_width
for_bytes_wraps = (refl, refl)

abbrev wots_key : WotsSecret
wots_key = record { params = params; secret = 9 ∷ (9 ∷ []) }

verify-sign_example :
    (sign toy_hash wots_key (0x5a ∷ []) >>= verify toy_hash (Winternitz.public toy_hash wots_key))
    ≡ ok (0x5a ∷ [])
unfolding message_digits
verify-sign_example = verify-sign toy_hash wots_key (0x5a ∷ []) refl (omega arith)

-- What `sign` returns for a message.
signature : Bytes → WotsSig
unfolding sign message_digits checksum_digits base16 sign_digits hash_times digit_secret
    secret_input index_bytes
signature msg = elim (sign toy_hash wots_key msg) [
  | ok sig ↦ sig
  | err _ ↦ record { params = params; hashes = []; digits = [] }
]

verify_binds_example :
    (◌≡◌ {A = Bytes} (0x5a ∷ []) (0x3c ∷ []))
    ⊎ Descends toy_hash
        (signature (0x5a ∷ [])).digits
        (signature (0x5a ∷ [])).hashes
        (signature (0x3c ∷ [])).digits
        (signature (0x3c ∷ [])).hashes
unfolding signature verify Winternitz.public check_chains message join_digits for_bytes params_for
    checksum_bound to_u32 checksum_width
verify_binds_example =
    verify_binds toy_hash true 1 (Winternitz.public toy_hash wots_key) (signature (0x5a ∷ []))
      (signature (0x3c ∷ [])) (0x5a ∷ []) (0x3c ∷ []) (omega arith) refl refl refl

-- A generator that counts, for keys made from entropy.
abbrev counting : Rng
counting = record {
  State = ℕ;
  fill_bytes = λ n s. (replicate n s, s + 1);
  from_seed = λ b. length b;
  length-fill_bytes = λ n s. length-replicate n s;
}

abbrev label : Bytes
label = 1 ∷ []

abbrev later : List Call
later = reveal_call label (true ∷ (true ∷ [])) ∷ (generate_call label 3 ∷ [])

-- A store with a key of two bits and a Winternitz key under one label.
store : KeyStore
unfolding generate generate_wots new from_entropy generate_bits generate_bit for_bytes params_for
    checksum_bound to_u32 checksum_width
store =
    (generate_wots toy_hash toy_hash true
      (generate counting toy_hash toy_hash (new (5 ∷ [])) label 2).0 label 1).0

reveal_result : Bytes → List Bool → Reveal
unfolding store reveal reveal_bits pick_preimages
reveal_result l bits = elim (reveal store l bits).1 [ ok r ↦ r | err _ ↦ record { preimages = [] } ]

reveal_never_differs_example : ◌≡◌ {A = List Bool} (true ∷ (false ∷ [])) (true ∷ (false ∷ []))
unfolding reveal_result run step
reveal_never_differs_example =
    reveal_never_differs counting toy_hash toy_hash store label (true ∷ (false ∷ []))
      (true ∷ (false ∷ [])) (reveal_result label (true ∷ (false ∷ [])))
      (reveal_result label (true ∷ (false ∷ []))) later refl refl

reveal_again_example :
    (reveal
      (run counting toy_hash toy_hash (reveal store label (true ∷ (false ∷ []))).0 later)
      label
      (true ∷ (false ∷ []))).1
    ≡ ok (reveal_result label (true ∷ (false ∷ [])))
unfolding reveal_result
reveal_again_example =
    reveal_again counting toy_hash toy_hash store label (true ∷ (false ∷ []))
      (reveal_result label (true ∷ (false ∷ []))) later refl

sign_result : Bytes → Bytes → WotsSig
unfolding store sign_wots sign message_digits checksum_digits base16 sign_digits hash_times
    digit_secret secret_input index_bytes
sign_result l msg = elim (sign_wots toy_hash store l msg).1 [
  | ok sig ↦ sig
  | err _ ↦ record { params = params; hashes = []; digits = [] }
]

sign_never_differs_example : ◌≡◌ {A = Bytes} (0x5a ∷ []) (0x5a ∷ [])
unfolding sign_result run step
sign_never_differs_example =
    sign_never_differs counting toy_hash toy_hash store label (0x5a ∷ []) (0x5a ∷ [])
      (sign_result label (0x5a ∷ [])) (sign_result label (0x5a ∷ []))
      (sign_call label (0x3c ∷ []) ∷ []) refl refl
