-- ===== src/Lamport/Key/Reveals.antt =====
-- Reveals, their decoding and their witness order: crates/lamport/src/lib.rs.
use mathlib.Core.List.{reverse-reverse}
use native.Mathlib.Nat.{div-eq_of_lt}
use ln_gap.Prelude.{
  ℕ, suc, ◌^◌, ◌≤◌, ◌<◌, ◌≡◌, ◌≢◌, refl, ap, inl, inr, Bool, true, false, List, [], ◌∷◌, map, ◌==◌,
  le→leb, ==_refl, length, length-map, All, list_eq_refl, list_eq→eq, ok, ◌>>=◌, Bool-cases, arith,
  >>=-eq-ok, ==_iff,
}
use ln_gap.Lamport.Bits.{uint_to_bits, bits_to_uint, length-uint_to_bits, bits_to_uint-uint_to_bits}
use ln_gap.Lamport.Key.{
  Bytes, SecretKey, BitSecret, Reveal, preimage_len, preimage, pick_preimages, reveal_bits,
  reveal_uint, public, commit, decode_bit, decode_from, decode_bits, decode_uint, take_preimages,
  consumption_order, from_consumption_order,
}

module _ (hash160 : Bytes → Bytes) where
  -- The two commitments of a bit differ, as those of random preimages do.
  abbrev pub IsTellable : BitSecret → Type 0
  IsTellable s = hash160 s.p0 ≢ hash160 s.p1

  decode_bit-preimage :
      (i : ℕ) (s : BitSecret) (b : Bool)
      → IsTellable s
      → decode_bit hash160 i (commit hash160 s) (preimage s b) ≡ ok b
  unfolding decode_bit commit preimage
  decode_bit-preimage i s true h = rw (list_eq_refl (hash160 s.p1))
  decode_bit-preimage i s false h =
      ground (arith, list_eq→eq (hash160 s.p0) (hash160 s.p1), list_eq_refl (hash160 s.p0))

  decode_from-pick_preimages :
      (i : ℕ) (ss : List BitSecret) (bs : List Bool)
      → length bs ≡ length ss
      → All IsTellable ss
      → decode_from hash160 i (map (commit hash160) ss) (pick_preimages ss bs) ≡ ok bs
  unfolding decode_from pick_preimages
  decode_from-pick_preimages i [] [] e h = refl
  decode_from-pick_preimages i [] (b ∷ bs) e h = absurd (omega arith)
  decode_from-pick_preimages i (s ∷ ss) [] e h = absurd (omega arith)
  decode_from-pick_preimages i (s ∷ ss) (b ∷ bs) e h =
      rw (decode_bit-preimage i s b h.0, decode_from-pick_preimages (suc i) ss bs (omega arith) h.1)

length-pick_preimages :
    (ss : List BitSecret) (bs : List Bool)
    → length bs ≡ length ss
    → length (pick_preimages ss bs) ≡ length ss
unfolding pick_preimages
length-pick_preimages [] bs e = refl
length-pick_preimages (s ∷ ss) [] e = absurd (omega arith)
length-pick_preimages (s ∷ ss) (b ∷ bs) e = omega (arith, length-pick_preimages ss bs (omega arith))

module _ (hash160 : Bytes → Bytes) (sk : SecretKey) where
  -- The bits that a key reveals are the bits that its public key decodes.
  pub decode_bits-reveal_bits :
      (bs : List Bool)
      → length bs ≡ length sk.bits
      → All (IsTellable hash160) sk.bits
      → (reveal_bits sk bs >>= decode_bits hash160 (public hash160 sk)) ≡ ok bs
  unfolding reveal_bits decode_bits public
  decode_bits-reveal_bits bs e h =
      rw
        (
          e,
          ==_refl (length sk.bits),
          length-pick_preimages sk.bits bs e,
          length-map (commit hash160) sk.bits,
          ==_refl (length sk.bits),
        )
        (decode_from-pick_preimages hash160 0 sk.bits bs e h)

  length-public : length (public hash160 sk).bits ≡ length sk.bits
  unfolding public
  length-public = length-map (commit hash160) sk.bits

  reveal_uint_fits :
      (v : ℕ)
      → length sk.bits ≤ 32
      → v < 2 ^ length sk.bits
      → reveal_uint sk v ≡ reveal_bits sk (uint_to_bits v (length sk.bits))
  unfolding reveal_uint
  reveal_uint_fits v small fits = ground (arith, div-eq_of_lt fits)

  decode_uint_of_bits :
      (r : Reveal) (bs : List Bool)
      → length sk.bits ≤ 32
      → decode_bits hash160 (public hash160 sk) r ≡ ok bs
      → decode_uint hash160 (public hash160 sk) r ≡ ok (bits_to_uint bs)
  unfolding decode_uint
  decode_uint_of_bits r bs small e = rw (length-public, le→leb _ _ small, e)

  -- Under a key of at most 32 bits, whose two preimages of each bit hash differently, a value that
  -- fits is read back from its reveal.
  pub decode_uint-reveal_uint :
      (v : ℕ)
      → length sk.bits ≤ 32
      → v < 2 ^ length sk.bits
      → All (IsTellable hash160) sk.bits
      → (reveal_uint sk v >>= decode_uint hash160 (public hash160 sk)) ≡ ok v
  decode_uint-reveal_uint v small fits h =
      let n = length sk.bits in
      let bits = uint_to_bits v n in
      let (r, revealed, decoded) =
        >>=-eq-ok (reveal_bits sk bits) (decode_bits hash160 (public hash160 sk))
          (decode_bits-reveal_bits bits (length-uint_to_bits v n) h) in
      rw (reveal_uint_fits v small fits, revealed, decode_uint_of_bits r bits small decoded)
        (ap ok (bits_to_uint-uint_to_bits v n small fits))

-- Preimages of 20 bytes are all taken.
take_preimages-ok :
    (ps : List Bytes) → All (λ p. length p ≡ preimage_len) ps → take_preimages ps ≡ ok ps
unfolding take_preimages
take_preimages-ok [] h = refl
take_preimages-ok (p ∷ ps) h = rw (h.0, take_preimages-ok ps h.1)

-- A reveal whose preimages have 20 bytes each is rebuilt from its witness elements.
pub from_consumption_order-consumption_order :
    (r : Reveal)
    → All (λ p. length p ≡ preimage_len) r.preimages
    → from_consumption_order (consumption_order r) ≡ ok r
unfolding from_consumption_order consumption_order
from_consumption_order-consumption_order r h =
    rw (reverse-reverse r.preimages, take_preimages-ok r.preimages h)

-- The elements of an accepted witness are preimages of 20 bytes, and are the reveal's.
take_preimages-eq-ok :
    (items : List Bytes) {ps : List Bytes}
    → take_preimages items ≡ ok ps
    → (ps ≡ items) × All (λ p. length p ≡ preimage_len) items
unfolding take_preimages
take_preimages-eq-ok [] h = (cc, tt)
take_preimages-eq-ok (it ∷ items) {ps} h = elim (Bool-cases (length it == preimage_len)) [
  | inl e ↦
      let (rest, got, made) = >>=-eq-ok (take_preimages items) (λ r. ok (it ∷ r)) (rw e at h) in
      let (same, sized) = take_preimages-eq-ok items got in (cc, ((==_iff _ _).0 e, sized))
  | inr e ↦ absurd (cc (rw e at h))
]
