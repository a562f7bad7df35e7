-- ===== src/Lamport/KeyStore/Commitment.antt =====
-- The key store of crates/lamport/src/keystore.rs: what one reveal or signature does to the
-- entries.
use ln_gap.Prelude.{
  ◌≡◌, refl, inl, inr, Bool, true, false, some, List, [], ◌∷◌, list_eq, list_eq→eq, list_eq_refl,
  Bool-cases, Option-cases, arith,
}
use ln_gap.Lamport.Key.{Bytes, SecretKey}
use ln_gap.Lamport.Winternitz.{WotsSecret}
use ln_gap.Lamport.KeyStore.{
  Entry, WotsEntry, KeyStore, bits_eq, find, put, may_reveal, may_sign, reveal_entry, reveal,
  sign_entry,
}

pub bits_eq→eq : (as' bs : List Bool) → bits_eq as' bs ≡ true → as' ≡ bs
bits_eq→eq [] [] h = refl
bits_eq→eq [] (b ∷ bs) h = cc
bits_eq→eq (a ∷ as') [] h = cc
bits_eq→eq (a ∷ as') (b ∷ bs) h = ground (arith, bits_eq→eq as' bs)

pub bits_eq_refl : (bs : List Bool) → bits_eq bs bs ≡ true
bits_eq_refl [] = refl
bits_eq_refl (b ∷ bs) = ground (arith, bits_eq_refl bs)

module _ {ℓ} {V : Type ℓ} where
  pub find-put_self : (k : Bytes) (v : V) (m : List (Bytes × V)) → find k (put k v m) ≡ some v
  unfolding find put
  find-put_self k v [] = rw (list_eq_refl k)
  find-put_self k v ((j, w) ∷ m) = ground (arith, list_eq_refl k, find-put_self k v m)

  pub find-put_ne :
      (k l : Bytes) (v : V) (m : List (Bytes × V))
      → list_eq k l ≡ false
      → find l (put k v m) ≡ find l m
  unfolding find put
  find-put_ne k l v [] h = rw h
  find-put_ne k l v ((j, w) ∷ m) h = ground (arith, list_eq→eq j k, find-put_ne k l v m)

-- The key under a label, and the value revealed or signed with it.
abbrev pub HasRevealed : KeyStore → Bytes → SecretKey → List Bool → Type 0
HasRevealed s l sk bits = find l s.keys ≡ some (record { sk = sk; revealed = some bits })

abbrev pub HasSigned : KeyStore → Bytes → WotsSecret → Bytes → Type 0
HasSigned s l sk msg = find l s.wots ≡ some (record { sk = sk; signed = some msg })

module _ (s : KeyStore) (l : Bytes) (sk : SecretKey) (old : List Bool)
    (h : HasRevealed s l sk old) where
  own_label :
      (bits : List Bool)
      → may_reveal (some old) bits ≡ true
      → find l (put l (record { sk = sk; revealed = some bits }) s.keys)
        ≡ some (record { sk = sk; revealed = some old })
  unfolding may_reveal
  own_label bits allowed = rw (bits_eq→eq old bits allowed) (find-put_self l _ s.keys)

  -- Another label's entry is written, or the label's own, with the same value.
  reveal_entry-HasRevealed :
      (k : Bytes) (x : Entry) (bits : List Bool)
      → find k s.keys ≡ some x
      → HasRevealed (reveal_entry s k x bits).0 l sk old
  unfolding reveal_entry
  reveal_entry-HasRevealed k x bits at_k = elim (Bool-cases (list_eq k l)) [
    | inr ne ↦ ground (arith, h, find-put_ne k l (record x { revealed = some bits }) s.keys ne)
    | inl e ↦ ground (arith, h, list_eq→eq k l e, own_label bits)
  ]

  pub reveal-HasRevealed : (k : Bytes) (bits : List Bool) → HasRevealed (reveal s k bits).0 l sk old
  unfolding reveal
  reveal-HasRevealed k bits = elim (Option-cases (find k s.keys)) [
    | inl e ↦ rw (e, reveal) h
    | inr p ↦ rw (p.1, reveal) (reveal_entry-HasRevealed k p.0 bits p.1)
  ]

module _ (s : KeyStore) (l : Bytes) (sk : WotsSecret) (old : Bytes) (h : HasSigned s l sk old) where
  own_message :
      (msg : Bytes)
      → may_sign (some old) msg ≡ true
      → find l (put l (record { sk = sk; signed = some msg }) s.wots)
        ≡ some (record { sk = sk; signed = some old })
  unfolding may_sign
  own_message msg allowed = rw (list_eq→eq old msg allowed) (find-put_self l _ s.wots)

  pub sign_entry-HasSigned :
      (hash160 : Bytes → Bytes) (k : Bytes) (x : WotsEntry) (msg : Bytes)
      → find k s.wots ≡ some x
      → HasSigned (sign_entry hash160 s k x msg).0 l sk old
  unfolding sign_entry
  sign_entry-HasSigned hash160 k x msg at_k = elim (Bool-cases (list_eq k l)) [
    | inr ne ↦ ground (arith, h, find-put_ne k l (record x { signed = some msg }) s.wots ne)
    | inl e ↦ ground (arith, h, list_eq→eq k l e, own_message msg)
  ]
