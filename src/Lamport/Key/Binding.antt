-- ===== src/Lamport/Key/Binding.antt =====
-- Two reveals under one public key: `PublicKey::decode_bits` of crates/lamport/src/lib.rs.
use ln_gap.Prelude.{
  ℕ, suc, ◌≡◌, refl, ◌⊎◌, inl, inr, Bool, true, false, List, [], ◌∷◌, length, ==_iff, list_eq→eq,
  Result, ok, ◌>>=◌, >>=-eq-ok, Bool-cases, arith, ◌==◌,
}
use ln_gap.Lamport.Key.{
  Bytes, KeyError, BitCommit, PublicKey, Reveal, decode_bit, decode_from, decode_bits,
}

module _ (hash160 : Bytes → Bytes) where
  -- The preimages `p` and `q` open the commitment `c`, one to 0 and one to 1.
  abbrev pub OpensBoth : BitCommit → Bytes → Bytes → Type 0
  OpensBoth c p q =
      (hash160 p ≡ c.h0) × (hash160 q ≡ c.h1) ⊎ (hash160 p ≡ c.h1) × (hash160 q ≡ c.h0)

  -- Somewhere in the two reveals one commitment is opened both ways.
  abbrev pub Equivocates : List BitCommit → List Bytes → List Bytes → Type 0
  Equivocates [] ps qs = ⊥
  Equivocates (c ∷ cs) [] qs = ⊥
  Equivocates (c ∷ cs) (p ∷ ps) [] = ⊥
  Equivocates (c ∷ cs) (p ∷ ps) (q ∷ qs) = OpensBoth c p q ⊎ Equivocates cs ps qs

  decode_bit-true :
      (i : ℕ) (c : BitCommit) (p : Bytes) → decode_bit hash160 i c p ≡ ok true → hash160 p ≡ c.h1
  unfolding decode_bit
  decode_bit-true i c p h = ground (arith, list_eq→eq (hash160 p) c.h1)

  decode_bit-false :
      (i : ℕ) (c : BitCommit) (p : Bytes) → decode_bit hash160 i c p ≡ ok false → hash160 p ≡ c.h0
  unfolding decode_bit
  decode_bit-false i c p h = ground (arith, list_eq→eq (hash160 p) c.h0)

  decode_bit_binds :
      (i : ℕ) (c : BitCommit) (p q : Bytes) (a b : Bool)
      → decode_bit hash160 i c p ≡ ok a
      → decode_bit hash160 i c q ≡ ok b
      → (a ≡ b) ⊎ OpensBoth c p q
  decode_bit_binds i c p q true true h k = inl refl
  decode_bit_binds i c p q false false h k = inl refl
  decode_bit_binds i c p q true false h k =
      inr (inr (decode_bit-true i c p h, decode_bit-false i c q k))
  decode_bit_binds i c p q false true h k =
      inr (inl (decode_bit-false i c p h, decode_bit-true i c q k))

  decode_from_binds :
      (i : ℕ) (cs : List BitCommit) (ps qs : List Bytes) (us bs : List Bool)
      → length ps ≡ length cs
      → length qs ≡ length cs
      → decode_from hash160 i cs ps ≡ ok us
      → decode_from hash160 i cs qs ≡ ok bs
      → (us ≡ bs) ⊎ Equivocates cs ps qs
  unfolding decode_from
  decode_from_binds i [] ps qs us bs m n h k = inl (cc)
  decode_from_binds i (c ∷ cs) [] qs us bs m n h k = absurd (omega arith)
  decode_from_binds i (c ∷ cs) (p ∷ ps) [] us bs m n h k = absurd (omega arith)
  decode_from_binds i (c ∷ cs) (p ∷ ps) (q ∷ qs) us bs m n h k =
      let (a, pa, ha) =
        >>=-eq-ok (decode_bit hash160 i c p)
          (λ x. decode_from hash160 (suc i) cs ps >>= λ r. ok (x ∷ r)) h in
      let (b, qb, kb) =
        >>=-eq-ok (decode_bit hash160 i c q)
          (λ x. decode_from hash160 (suc i) cs qs >>= λ r. ok (x ∷ r)) k in
      let (us', pas, has) = >>=-eq-ok (decode_from hash160 (suc i) cs ps) (λ r. ok (a ∷ r)) ha in
      let (bs', qbs, kbs) = >>=-eq-ok (decode_from hash160 (suc i) cs qs) (λ r. ok (b ∷ r)) kb in
      combine (decode_bit_binds i c p q a b pa qb)
        (decode_from_binds (suc i) cs ps qs us' bs' (omega arith) (omega arith) pas qbs) has kbs
    where
      combine :
          {a b : Bool} {xs ys : List Bool}
          → (a ≡ b) ⊎ OpensBoth c p q
          → (xs ≡ ys) ⊎ Equivocates cs ps qs
          → ◌≡◌ {A = Result KeyError (List Bool)} (ok (a ∷ xs)) (ok us)
          → ◌≡◌ {A = Result KeyError (List Bool)} (ok (b ∷ ys)) (ok bs)
          → (us ≡ bs) ⊎ (OpensBoth c p q ⊎ Equivocates cs ps qs)
      combine (inr o) _ x y = inr (inl o)
      combine (inl e) (inr o) x y = inr (inr o)
      combine (inl e) (inl f) x y = inl (cc)

  decode_bits-eq-ok :
      (pk : PublicKey) (r : Reveal) (us : List Bool)
      → decode_bits hash160 pk r ≡ ok us
      → (length r.preimages ≡ length pk.bits) × (decode_from hash160 0 pk.bits r.preimages ≡ ok us)
  unfolding decode_bits
  decode_bits-eq-ok pk r us h = elim (Bool-cases (length r.preimages == length pk.bits)) [
    | inl e ↦ ((==_iff _ _).0 e, rw e at h)
    | inr e ↦ absurd (cc (rw e at h))
  ]

  -- Two reveals that one public key decodes give the same bits, or open one of its commitments
  -- both ways.
  pub decode_bits_binds :
      (pk : PublicKey) (r s : Reveal) (us bs : List Bool)
      → decode_bits hash160 pk r ≡ ok us
      → decode_bits hash160 pk s ≡ ok bs
      → (us ≡ bs) ⊎ Equivocates pk.bits r.preimages s.preimages
  decode_bits_binds pk r s us bs h k =
      let (m, got) = decode_bits-eq-ok pk r us h in
      let (n, got') = decode_bits-eq-ok pk s bs k in
      decode_from_binds 0 pk.bits r.preimages s.preimages us bs m n got got'
