-- ===== src/Lamport/KeyStore/Signatures.antt =====
-- The Winternitz labels of the key store of crates/lamport/src/keystore.rs, over sequences of
-- calls.
use ln_gap.Prelude.{
  Bool, ℕ, ◌≡◌, inl, inr, some, none, List, [], ◌∷◌, ◌++◌, list_eq, list_eq→eq, ok, Bool-cases,
  Option-cases, arith,
}
use ln_gap.Lamport.Key.{Bytes, Rng}
use ln_gap.Lamport.Winternitz.{WotsParams, WotsSecret, WotsSig, for_bytes}
use ln_gap.Lamport.KeyStore.{
  WotsEntry, KeyStore, find, may_sign, reveal_entry, reveal, reveal_value, generate,
  generate_params, generate_wots, sign_entry, sign_wots, derive_bytes, wots_prefix,
}
use ln_gap.Lamport.KeyStore.Commitment.{find-put_self, find-put_ne, HasSigned, sign_entry-HasSigned}
use ln_gap.Lamport.KeyStore.Runs.{
  Call, generate_call, reveal_call, reveal_value_call, generate_wots_call, sign_call, step, run,
}

module _ (rng : Rng) (sha256 hash160 : Bytes → Bytes) where
  module _ (s : KeyStore) (l : Bytes) (sk : WotsSecret) (old : Bytes)
      (h : HasSigned s l sk old) where
    generate_params-HasSigned :
        (k : Bytes) (ps : WotsParams) → HasSigned (generate_params sha256 hash160 s k ps).0 l sk old
    unfolding generate_params
    generate_params-HasSigned k ps =
        let fresh : WotsEntry = record {
          sk = record { params = ps; secret = derive_bytes sha256 s.seed (wots_prefix ++ k) };
          signed = none;
        } in
        elim (Bool-cases (list_eq k l)) [
          | inr ne ↦ ground (arith, h, find-put_ne k l fresh s.wots ne)
          | inl e ↦ ground (arith, h, list_eq→eq k l e)
        ]

    generate_wots-HasSigned :
        (c : Bool) (k : Bytes) (n : ℕ) → HasSigned (generate_wots sha256 hash160 c s k n).0 l sk old
    unfolding generate_wots
    generate_wots-HasSigned c k n = elim (Option-cases (for_bytes c n)) [
      | inl e ↦ rw (e, generate_wots) h
      | inr p ↦ rw (p.1, generate_wots) (generate_params-HasSigned k p.0)
    ]

    sign_wots-HasSigned : (k msg : Bytes) → HasSigned (sign_wots hash160 s k msg).0 l sk old
    unfolding sign_wots
    sign_wots-HasSigned k msg = elim (Option-cases (find k s.wots)) [
      | inl e ↦ rw (e, sign_wots) h
      | inr p ↦ rw (p.1, sign_wots) (sign_entry-HasSigned s l sk old h hash160 k p.0 msg p.1)
    ]

    step-HasSigned : (c : Call) → HasSigned (step rng sha256 hash160 s c) l sk old
    unfolding step generate reveal reveal_value reveal_entry
    step-HasSigned (generate_call k n) = ground (arith, h)
    step-HasSigned (reveal_call k bits) = ground (arith, h)
    step-HasSigned (reveal_value_call k v) = ground (arith, h)
    step-HasSigned (generate_wots_call c k n) = generate_wots-HasSigned c k n
    step-HasSigned (sign_call k msg) = sign_wots-HasSigned k msg

  run-HasSigned :
      (s : KeyStore) (cs : List Call) (l : Bytes) (sk : WotsSecret) (old : Bytes)
      → HasSigned s l sk old
      → HasSigned (run rng sha256 hash160 s cs) l sk old
  unfolding run
  run-HasSigned s [] l sk old h = h
  run-HasSigned s (c ∷ cs) l sk old h =
      run-HasSigned (step rng sha256 hash160 s c) cs l sk old (step-HasSigned s l sk old h c)

  -- A signature that was made has been written down.
  sign_entry_written :
      (s : KeyStore) (l : Bytes) (x : WotsEntry) (msg : Bytes) (sig : WotsSig)
      → (sign_entry hash160 s l x msg).1 ≡ ok sig
      → HasSigned (sign_entry hash160 s l x msg).0 l x.sk msg
  unfolding sign_entry
  sign_entry_written s l x msg sig h =
      ground (arith, find-put_self l (record x { signed = some msg }) s.wots)

  sign_written :
      (s : KeyStore) (l msg : Bytes) (sig : WotsSig)
      → (sign_wots hash160 s l msg).1 ≡ ok sig
      → (sk : WotsSecret) × HasSigned (sign_wots hash160 s l msg).0 l sk msg
  unfolding sign_wots
  sign_written s l msg sig h = elim (Option-cases (find l s.wots)) [
    | inl e ↦ absurd (cc (rw (e, sign_wots) at h))
    | inr p ↦ (
      p.0.sk,
      rw (p.1, sign_wots) (sign_entry_written s l p.0 msg sig (rw (p.1, sign_wots) at h)),
    )
  ]

  sign_after :
      (s : KeyStore) (l : Bytes) (sk : WotsSecret) (old msg : Bytes) (sig : WotsSig)
      → HasSigned s l sk old
      → (sign_wots hash160 s l msg).1 ≡ ok sig
      → old ≡ msg
  unfolding sign_wots sign_entry may_sign
  sign_after s l sk old msg sig h k = ground (arith, list_eq→eq old msg)

  -- Once a Winternitz key has signed a message, a signature that it makes after any further calls
  -- is of the same message.
  pub sign_never_differs :
      (s : KeyStore) (l msg msg' : Bytes) (sig sig' : WotsSig) (cs : List Call)
      → (sign_wots hash160 s l msg).1 ≡ ok sig
      → (sign_wots hash160 (run rng sha256 hash160 (sign_wots hash160 s l msg).0 cs) l msg').1
        ≡ ok sig'
      → msg ≡ msg'
  sign_never_differs s l msg msg' sig sig' cs h k =
      let (sk, kept) = sign_written s l msg sig h in
      let after = run rng sha256 hash160 (sign_wots hash160 s l msg).0 cs in
      sign_after after l sk msg msg' sig'
        (run-HasSigned (sign_wots hash160 s l msg).0 cs l sk msg kept) k
