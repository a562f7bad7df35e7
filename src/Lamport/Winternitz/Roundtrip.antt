-- ===== src/Lamport/Winternitz/Roundtrip.antt =====
-- Signing, verifying and rebuilding a signature: crates/lamport/src/winternitz.rs.
use ln_gap.Lamport.Winternitz.Chains.{hash_times-add}
use ln_gap.Prelude.{
  join_nibbles, ltb_ge, ℕ, zero, suc, ◌+◌, ◌-◌, ◌/◌, ◌%◌, ◌≤◌, ◌<◌, ◌≡◌, refl, ap, some, List, [],
  ◌∷◌, ◌++◌, map, ==_refl, length, range_from, All, list_eq_refl, ok, ◌>>=◌, arith, le→leb,
  length-append, take_prefix, drop_prefix,
}
use ln_gap.Lamport.Key.{Bytes}
use ln_gap.Lamport.Winternitz.{
  WotsParams, WotsSecret, WotsSig, base16, checksum_digits, max_digit, total_digits, hash_times,
  digit_secret, check_chains, verify, message, join_digits, message_digits, sign, sign_digits,
  public, from_hashes,
}
use ln_gap.Lamport.Winternitz.Checksum.{length-checksum_digits}

join_digits-message_digits :
    (msg : Bytes) → All (λ b. b < 256) msg → join_digits (message_digits msg) ≡ some msg
unfolding join_digits message_digits
join_digits-message_digits [] h = refl
join_digits-message_digits (b ∷ bs) h = rw (join_digits-message_digits bs h.1, join_nibbles b h.0)

message_digits-small :
    (msg : Bytes) → All (λ b. b < 256) msg → All (λ d. d ≤ max_digit) (message_digits msg)
unfolding message_digits
message_digits-small [] h = tt
message_digits-small (b ∷ bs) h = (omega arith, (omega arith, message_digits-small bs h.1))

base16-small :
    (n c : ℕ) (out : List ℕ)
    → All (λ d. d ≤ max_digit) out
    → All (λ d. d ≤ max_digit) (base16 n c out)
unfolding base16
base16-small zero c out h = h
base16-small (suc n) c out h = base16-small n (c / 16) (c % 16 ∷ out) (omega arith, h)

checksum_digits-small :
    (ps : WotsParams) (ds : List ℕ) → All (λ d. d ≤ max_digit) (checksum_digits ps ds)
unfolding checksum_digits
checksum_digits-small ps ds = base16-small ps.checksum_digits _ [] tt

All-append :
    (xs ys : List ℕ)
    → All (λ d. d ≤ max_digit) xs
    → All (λ d. d ≤ max_digit) ys
    → All (λ d. d ≤ max_digit) (xs ++ ys)
All-append [] ys h k = k
All-append (x ∷ xs) ys h k = (h.0, All-append xs ys h.1 k)

module _ (hash : Bytes → Bytes) where
  length-sign_digits :
      (secret : Bytes) (i : ℕ) (ds : List ℕ) → length (sign_digits hash secret i ds) ≡ length ds
  unfolding sign_digits
  length-sign_digits secret i [] = refl
  length-sign_digits secret i (d ∷ ds) = ap suc (length-sign_digits secret (suc i) ds)

  check_chains-sign :
      (secret : Bytes) (i n : ℕ) (ds : List ℕ)
      → length ds ≡ n
      → All (λ d. d ≤ max_digit) ds
      → check_chains hash i n ds
          (sign_digits hash secret i ds)
          (map (λ j. hash_times hash (digit_secret hash secret j) max_digit) (range_from i n))
        ≡ ok tt
  unfolding check_chains sign_digits
  check_chains-sign secret i zero ds e h = refl
  check_chains-sign secret i (suc n) [] e h = absurd (omega arith)
  check_chains-sign secret i (suc n) (d ∷ ds) e h =
      let top : d + (max_digit - d) ≡ max_digit = omega (arith, h.0) in
      rw
        (
          le→leb d max_digit h.0,
          hash_times-add hash d (digit_secret hash secret i) (max_digit - d),
          top,
          list_eq_refl (hash_times hash (digit_secret hash secret i) max_digit),
        )
        (check_chains-sign secret (suc i) n ds (omega arith) h.1)

  module _ (sk : WotsSecret) (msg : Bytes)
      (fits : length (message_digits msg) ≡ sk.params.message_digits) where
    -- The signature that `sign` makes.
    signed : WotsSig
    signed =
        let full = message_digits msg ++ checksum_digits sk.params (message_digits msg) in
        record { params = sk.params; hashes = sign_digits hash sk.secret 0 full; digits = full }

    sign-signed : sign hash sk msg ≡ ok signed
    unfolding sign signed
    sign-signed = rw (fits, ==_refl sk.params.message_digits)

    length-signed : length signed.digits ≡ total_digits sk.params
    unfolding signed
    length-signed = omega (
      arith,
      fits,
      length-append (message_digits msg) (checksum_digits sk.params (message_digits msg)),
      length-checksum_digits sk.params (message_digits msg),
    )

    verify-signed : All (λ b. b < 256) msg → verify hash (public hash sk) signed ≡ ok msg
    unfolding verify public signed message
    verify-signed small =
        let ds = message_digits msg in
        let cs = checksum_digits sk.params ds in
        rw
          (
            ==_refl sk.params.message_digits,
            ==_refl sk.params.checksum_digits,
            check_chains-sign sk.secret 0 (total_digits sk.params) (ds ++ cs) length-signed
                all_small,
            take_prefix sk.params.message_digits ds cs fits,
            drop_prefix sk.params.message_digits ds cs fits,
            list_eq_refl cs,
            ltb_ge (length (ds ++ cs)) sk.params.message_digits
                (omega (arith, fits, length-append ds cs)),
          )
          (rw (join_digits-message_digits msg small))
      where
        all_small :
            All
              (λ d. d ≤ max_digit)
              (message_digits msg ++ checksum_digits sk.params (message_digits msg))
        all_small =
            All-append (message_digits msg) _ (message_digits-small msg small)
              (checksum_digits-small sk.params (message_digits msg))

    from_hashes-signed : from_hashes sk.params msg signed.hashes ≡ ok signed
    unfolding from_hashes signed
    from_hashes-signed =
        let full = message_digits msg ++ checksum_digits sk.params (message_digits msg) in
        rw (
          fits,
          ==_refl sk.params.message_digits,
          length-sign_digits sk.secret 0 full,
          length-signed,
          ==_refl (total_digits sk.params),
        )

  -- A message of bytes, of the key's size, is signed, and the signature is accepted and gives the
  -- message back.
  pub verify-sign :
      (sk : WotsSecret) (msg : Bytes)
      → length (message_digits msg) ≡ sk.params.message_digits
      → All (λ b. b < 256) msg
      → (sign hash sk msg >>= verify hash (public hash sk)) ≡ ok msg
  verify-sign sk msg fits small = rw (sign-signed sk msg fits) (verify-signed sk msg fits small)

  -- A signature of a message of the key's size is rebuilt from the message and its reveal hashes
  -- alone.
  pub from_hashes-sign :
      (sk : WotsSecret) (msg : Bytes)
      → length (message_digits msg) ≡ sk.params.message_digits
      → (sign hash sk msg >>= λ sig. from_hashes sk.params msg sig.hashes) ≡ sign hash sk msg
  from_hashes-sign sk msg fits = rw (sign-signed sk msg fits) (from_hashes-signed sk msg fits)
