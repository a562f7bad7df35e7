-- ===== src/Lamport/Winternitz/Binding.antt =====
-- Two signatures under one key: `WotsPublicOf::verify` of crates/lamport/src/winternitz.rs.
use mathlib.Core.Path.{ap₂}
use ln_gap.Lamport.Winternitz.Chains.{hash_times-add}
use ln_gap.Prelude.{
  Bool, ltb_ge, ℕ, zero, suc, ◌+◌, ◌-◌, ◌*◌, ◌^◌, ◌≤◌, ◌<◌, ◌≡◌, sym, ap, ◌∙◌, ◌⊎◌, inl, inr, true,
  false, some, none, List, [], ◌∷◌, ◌++◌, ltb, leb, leb→le, ltb→lt, length, take, drop, All,
  list_eq, list_eq→eq, ok, ensure, Bool-cases, arith, length-append, length-take, take-append-drop,
  Option, ensure-eq-ok, >>-eq-ok, ◌>>◌,
}
use ln_gap.Lamport.Key.{Bytes}
use ln_gap.Lamport.Winternitz.{
  WotsPublic, WotsSig, checksum_digits, max_digit, total_digits, hash_times, check_chains, verify,
  params_eq, message, join_digits, for_bytes, or_panic, params_mismatch, checksum_mismatch,
}
use ln_gap.Lamport.Winternitz.Checksum.{AllLe, checksum_pins, length-checksum_digits}
use ln_gap.Lamport.Winternitz.Params.{checksum_fits}

gap : (d e : ℕ) → e < d → d ≤ max_digit → d - e + (max_digit - d) ≡ max_digit - e
gap d e lt le = omega arith

or_panic-eq-ok : (o : Option Bytes) (b : Bytes) → or_panic o ≡ ok b → o ≡ some b
or_panic-eq-ok none b h = cc
or_panic-eq-ok (some a) b h = cc

some_inj : {a b : Bytes} → some a ≡ some b → a ≡ b
some_inj h = cc

All-take :
    (n : ℕ) (xs : List ℕ) → All (λ d. d ≤ max_digit) xs → All (λ d. d ≤ max_digit) (take n xs)
All-take zero xs h = tt
All-take (suc n) [] h = tt
All-take (suc n) (x ∷ xs) h = (h.0, All-take n xs h.1)

module _ (hash : Bytes → Bytes) where
  -- The second digit is below the first, and hashing its element up to the first digit's height
  -- gives an element of the same chain.
  abbrev pub IsBelow : ℕ → Bytes → ℕ → Bytes → Type 0
  IsBelow d h e g =
      (e < d)
      × (hash_times hash (hash_times hash g (d - e)) (max_digit - d)
          ≡ hash_times hash h (max_digit - d))

  -- Somewhere the second signature shows an element below the first's.
  abbrev pub Descends : List ℕ → List Bytes → List ℕ → List Bytes → Type 0
  Descends (d ∷ ds) (h ∷ hs) (e ∷ es) (g ∷ gs) = IsBelow d h e g ⊎ Descends ds hs es gs
  Descends _ _ _ _ = ⊥

  abbrev IsChain : ℕ → Bytes → Bytes → Type 0
  IsChain d h p = (d ≤ max_digit) × (hash_times hash h (max_digit - d) ≡ p)

  check_chains-eq-ok :
      (i n d : ℕ) (ds : List ℕ) (h : Bytes) (hs : List Bytes) (p : Bytes) (ps : List Bytes)
      → check_chains hash i (suc n) (d ∷ ds) (h ∷ hs) (p ∷ ps) ≡ ok tt
      → IsChain d h p × (check_chains hash (suc i) n ds hs ps ≡ ok tt)
  unfolding check_chains
  check_chains-eq-ok i n d ds h hs p ps k = elim (Bool-cases (leb d max_digit)) [
    | inr e ↦ absurd (cc (rw e at k))
    | inl e ↦ elim (Bool-cases (list_eq (hash_times hash h (max_digit - d)) p)) [
      | inr e' ↦ absurd (cc (rw (e, e') at k))
      | inl e' ↦ ((leb→le d max_digit e, list_eq→eq _ p e'), rw (e, e') at k)
    ]
  ]

  check_chains-digits :
      (i n : ℕ) (ds : List ℕ) (hs ps : List Bytes)
      → length ds ≡ n
      → check_chains hash i n ds hs ps ≡ ok tt
      → All (λ d. d ≤ max_digit) ds
  unfolding check_chains
  check_chains-digits i n [] hs ps e k = tt
  check_chains-digits i zero (d ∷ ds) hs ps e k = absurd (omega arith)
  check_chains-digits i (suc n) (d ∷ ds) [] ps e k = absurd (cc)
  check_chains-digits i (suc n) (d ∷ ds) (h ∷ hs) [] e k = absurd (cc)
  check_chains-digits i (suc n) (d ∷ ds) (h ∷ hs) (p ∷ ps) e k =
      let (chain, rest) = check_chains-eq-ok i n d ds h hs p ps k in
      (chain.0, check_chains-digits (suc i) n ds hs ps (omega arith) rest)

  compare_chains :
      (i n : ℕ) (ds : List ℕ) (hs : List Bytes) (es : List ℕ) (gs ps : List Bytes)
      → length ds ≡ n
      → length es ≡ n
      → check_chains hash i n ds hs ps ≡ ok tt
      → check_chains hash i n es gs ps ≡ ok tt
      → AllLe ds es ⊎ Descends ds hs es gs
  unfolding check_chains
  compare_chains i zero [] hs es gs ps e f k l = inl tt
  compare_chains i zero (d ∷ ds) hs es gs ps e f k l = absurd (omega arith)
  compare_chains i (suc n) [] hs es gs ps e f k l = absurd (omega arith)
  compare_chains i (suc n) (d ∷ ds) hs [] gs ps e f k l = absurd (omega arith)
  compare_chains i (suc n) (d ∷ ds) [] (e ∷ es) gs ps p f k l = cc
  compare_chains i (suc n) (d ∷ ds) (h ∷ hs) (e ∷ es) [] ps p f k l = cc
  compare_chains i (suc n) (d ∷ ds) (h ∷ hs) (e ∷ es) (g ∷ gs) [] x y k l = cc
  compare_chains i (suc n) (d ∷ ds) (h ∷ hs) (e ∷ es) (g ∷ gs) (p ∷ ps) x y k l =
      let (first, rest) = check_chains-eq-ok i n d ds h hs p ps k in
      let (second, rest') = check_chains-eq-ok i n e es g gs p ps l in
      let later = compare_chains (suc i) n ds hs es gs ps (omega arith) (omega arith) rest rest' in
      decide (Bool-cases (ltb e d)) first second later
    where
      decide :
          (ltb e d ≡ true) ⊎ (ltb e d ≡ false)
          → IsChain d h p
          → IsChain e g p
          → AllLe ds es ⊎ Descends ds hs es gs
          → ((d ≤ e) × AllLe ds es) ⊎ (IsBelow d h e g ⊎ Descends ds hs es gs)
      decide (inl lt) a b later = inr (
          inl (
            ltb→lt e d lt,
            hash_times-add hash (d - e) g (max_digit - d)
                ∙ ap (hash_times hash g) (gap d e (ltb→lt e d lt) a.0)
                ∙ b.1
                ∙ sym a.1,
          ))
      decide (inr ge) a b (inl le) = inl (ground arith, le)
      decide (inr ge) a b (inr o) = inr (inr o)

  -- What an accepted signature has passed.
  record IsAccepted (pk : WotsPublic) (sig : WotsSig) (msg : Bytes) : Type 0 where
    chains : check_chains hash 0 (total_digits pk.params) sig.digits sig.hashes pk.digits ≡ ok tt
    checksum :
        drop pk.params.message_digits sig.digits
        ≡ checksum_digits pk.params (take pk.params.message_digits sig.digits)
    spelled : message sig ≡ some msg
    width : sig.params.message_digits ≡ pk.params.message_digits

  verify-IsAccepted :
      (pk : WotsPublic) (sig : WotsSig) (msg : Bytes)
      → verify hash pk sig ≡ ok msg
      → IsAccepted pk sig msg
  unfolding verify
  verify-IsAccepted pk sig msg h =
      let m = pk.params.message_digits in
      let sums = checksum_digits pk.params (take m sig.digits) in
      let chains = check_chains hash 0 (total_digits pk.params) sig.digits sig.hashes pk.digits in
      let last = or_panic (message sig) in
      let tested = ensure (list_eq (drop m sig.digits) sums) checksum_mismatch >> last in
      let (same, h1) =
        ensure-eq-ok (params_eq sig.params pk.params) params_mismatch (chains >> tested) h in
      let (linked, h2) = >>-eq-ok chains tested h1 in
      let (summed, h3) =
        ensure-eq-ok (list_eq (drop m sig.digits) sums) checksum_mismatch last h2 in
      record {
        chains = linked;
        checksum = list_eq→eq (drop m sig.digits) sums summed;
        spelled = or_panic-eq-ok (message sig) msg h3;
        width = ground arith;
      }

  check_chains-length :
      (i n : ℕ) (ds : List ℕ) (hs ps : List Bytes)
      → check_chains hash i n ds hs ps ≡ ok tt
      → n ≤ length ds
  unfolding check_chains
  check_chains-length i zero ds hs ps k = omega arith
  check_chains-length i (suc n) [] hs ps k = cc
  check_chains-length i (suc n) (d ∷ ds) [] ps k = cc
  check_chains-length i (suc n) (d ∷ ds) (h ∷ hs) [] k = cc
  check_chains-length i (suc n) (d ∷ ds) (h ∷ hs) (p ∷ ps) k =
      let (chain, rest) = check_chains-eq-ok i n d ds h hs p ps k in
      omega (arith, check_chains-length (suc i) n ds hs ps rest)

  module _ (pk : WotsPublic) (sig : WotsSig) {msg : Bytes} (a : IsAccepted pk sig msg) where
    length-prefix : length (take pk.params.message_digits sig.digits) ≡ pk.params.message_digits
    length-prefix = omega (
      arith,
      length-take pk.params.message_digits sig.digits,
      check_chains-length 0 (total_digits pk.params) sig.digits sig.hashes pk.digits a.chains,
    )

    digits_split :
        sig.digits
        ≡ take pk.params.message_digits sig.digits
          ++ checksum_digits pk.params (take pk.params.message_digits sig.digits)
    digits_split =
        sym (take-append-drop pk.params.message_digits sig.digits)
        ∙ ap (λ t. take pk.params.message_digits sig.digits ++ t) a.checksum

    length-digits : length sig.digits ≡ total_digits pk.params
    length-digits =
        ap length digits_split
        ∙ length-append (take pk.params.message_digits sig.digits)
            (checksum_digits pk.params (take pk.params.message_digits sig.digits))
        ∙ ap₂ ◌+◌ length-prefix
            (length-checksum_digits pk.params (take pk.params.message_digits sig.digits))

    take_digits-small : All (λ d. d ≤ max_digit) (take pk.params.message_digits sig.digits)
    take_digits-small = All-take pk.params.message_digits sig.digits (
        check_chains-digits 0 (total_digits pk.params) sig.digits sig.hashes pk.digits length-digits
          a.chains)

    message_lem : message sig ≡ join_digits (take pk.params.message_digits sig.digits)
    unfolding message
    message_lem =
        rw a.width
          (rw (ltb_ge (length sig.digits) pk.params.message_digits (omega (arith, length-digits))))

  -- Of two signatures that a key accepts, both sign one message, or the second shows in one chain
  -- an element below the first's: making it takes a preimage of an element that the first shows,
  -- or a collision above it. The key's parameters are those that `for_bytes` makes, for a size
  -- whose greatest checksum is below 2 ^ 32.
  pub verify_binds :
      (overflow_checks : Bool) (n_bytes : ℕ) (pk : WotsPublic) (sig sig' : WotsSig)
      (msg msg' : Bytes)
      → 15 * (n_bytes * 2) + 1 ≤ 2 ^ 32
      → for_bytes overflow_checks n_bytes ≡ some pk.params
      → verify hash pk sig ≡ ok msg
      → verify hash pk sig' ≡ ok msg'
      → (msg ≡ msg') ⊎ Descends sig.digits sig.hashes sig'.digits sig'.hashes
  verify_binds overflow_checks n_bytes pk sig sig' msg msg' small made v v' =
      let a = verify-IsAccepted pk sig msg v in
      let a' = verify-IsAccepted pk sig' msg' v' in
      let m = pk.params.message_digits in
      let fits = checksum_fits overflow_checks n_bytes pk.params small made in
      elim (compare_chains 0 (total_digits pk.params) sig.digits sig.hashes sig'.digits sig'.hashes
        pk.digits (length-digits pk sig a) (length-digits pk sig' a') a.chains a'.chains) [
          | inr below ↦ inr below
          | inl le ↦
              let same =
                checksum_pins pk.params (take m sig.digits) (take m sig'.digits) fits
                  (length-prefix pk sig a) (length-prefix pk sig' a') (take_digits-small pk sig' a')
                  (rw (← digits_split pk sig a, ← digits_split pk sig' a') le) in
              inl (
                some_inj (
                  sym a.spelled
                  ∙ message_lem pk sig a
                  ∙ ap join_digits same
                  ∙ sym (message_lem pk sig' a')
                  ∙ a'.spelled))
        ]
