-- ===== src/Lamport/Key.antt =====
-- crates/lamport/src/lib.rs: bit commitments, keys and reveals. The hash function and the random
-- number generator are third-party code, and are parameters here.
pub mod Reveals
pub mod Binding
pub use ln_gap.Prelude.{Bytes}
use ln_gap.Prelude.{
  ℕ, zero, suc, ◌/◌, ◌^◌, ◌≡◌, Bool, true, false, ◌||◌, List, [], ◌∷◌, map, reverse, ◌==◌, leb,
  if◌then◌else◌, length, list_eq, take, drop, ◌-◌, Result, ok, err, ◌>>=◌, ◌>>◌, ensure,
}
use ln_gap.Lamport.Bits.{uint_to_bits, bits_to_uint}

abbrev pub preimage_len : ℕ
preimage_len = 20

pub record BitCommit : Type 0 where
  pub h0 : Bytes
  pub h1 : Bytes

pub record BitSecret : Type 0 where
  pub p0 : Bytes
  pub p1 : Bytes

pub record PublicKey : Type 0 where
  pub bits : List BitCommit

pub record SecretKey : Type 0 where
  pub bits : List BitSecret

pub record Reveal : Type 0 where
  pub preimages : List Bytes

-- The `ensure!` and `bail!` exits, with the numbers that their messages show.
pub data KeyError : Type 0 where
  reveal_len : ℕ → ℕ → KeyError
  too_many_bits : ℕ → KeyError
  does_not_fit : ℕ → ℕ → KeyError
  preimage_count : ℕ → ℕ → KeyError
  matches_neither : ℕ → KeyError
  not_a_preimage : ℕ → KeyError

-- `rand::RngCore` and `StdRng`, as the keys use them.
pub record Rng : Type 1 where
  pub State : Type 0
  pub fill_bytes : ℕ → State → Bytes × State
  pub from_seed : Bytes → State
  pub length-fill_bytes : (n : ℕ) (s : State) → length (fill_bytes n s).0 ≡ n

unfoldable pub preimage : BitSecret → Bool → Bytes
preimage s b = if b then s.p1 else s.p0

module _ (rng : Rng) where
  open rng use {State, fill_bytes, from_seed}

  unfoldable pub generate_bit : State → BitSecret × State
  generate_bit s =
      let (p0, s') = fill_bytes preimage_len s in
      let (p1, s'') = fill_bytes preimage_len s' in (record { p0 = p0; p1 = p1 }, s'')

  unfoldable pub generate_bits : ℕ → State → List BitSecret
  generate_bits zero s = []
  generate_bits (suc n) s = let (b, s') = generate_bit s in b ∷ generate_bits n s'

  unfoldable pub from_entropy : ℕ → Bytes → SecretKey
  from_entropy n_bits entropy = record { bits = generate_bits n_bits (from_seed entropy) }

-- `self.bits.iter().zip(bits)`, of one length where it is called
unfoldable pub pick_preimages : List BitSecret → List Bool → List Bytes
unfolding preimage
pick_preimages [] bs = []
pick_preimages (s ∷ ss) [] = []
pick_preimages (s ∷ ss) (b ∷ bs) = preimage s b ∷ pick_preimages ss bs

unfoldable pub reveal_bits : SecretKey → List Bool → Result KeyError Reveal
reveal_bits sk bits = do
  ensure (length bits == length sk.bits) (reveal_len (length bits) (length sk.bits))
  ok (record { preimages = pick_preimages sk.bits bits })

unfoldable pub reveal_uint : SecretKey → ℕ → Result KeyError Reveal
reveal_uint sk value = do
  let n = length sk.bits
  ensure (leb n 32) (too_many_bits n)
  ensure (n == 32 || value / 2 ^ n == 0) (does_not_fit value n)
  reveal_bits sk (uint_to_bits value n)

-- `bits[start..end]`
unfoldable pub slice : ℕ → ℕ → PublicKey → PublicKey
slice start end pk = record { bits = take (end - start) (drop start pk.bits) }

unfoldable pub slice_reveal : ℕ → ℕ → Reveal → Reveal
slice_reveal start end r = record { preimages = take (end - start) (drop start r.preimages) }

unfoldable pub consumption_order : Reveal → List Bytes
consumption_order r = reverse r.preimages

-- The loop of `from_consumption_order`, over the items in reverse.
unfoldable pub take_preimages : List Bytes → Result KeyError (List Bytes)
take_preimages [] = ok []
take_preimages (it ∷ items) = do
  ensure (length it == preimage_len) (not_a_preimage (length it))
  rest ← take_preimages items
  ok (it ∷ rest)

unfoldable pub from_consumption_order : List Bytes → Result KeyError Reveal
from_consumption_order items = do
  preimages ← take_preimages (reverse items)
  ok (record { preimages = preimages })

module _ (hash160 : Bytes → Bytes) where
  unfoldable pub commit : BitSecret → BitCommit
  commit s = record { h0 = hash160 s.p0; h1 = hash160 s.p1 }

  unfoldable pub public : SecretKey → PublicKey
  unfolding commit
  public sk = record { bits = map commit sk.bits }

  -- One round of `decode_bits`: the bit that a preimage commits to.
  unfoldable pub decode_bit : ℕ → BitCommit → Bytes → Result KeyError Bool
  decode_bit i c p =
      let h = hash160 p in
      if list_eq h c.h1
      then ok true
      else if list_eq h c.h0
      then ok false
      else err (matches_neither i)

  -- The loop of `decode_bits`, from bit `i` on.
  unfoldable pub decode_from : ℕ → List BitCommit → List Bytes → Result KeyError (List Bool)
  decode_from i [] ps = ok []
  decode_from i (c ∷ cs) [] = ok []
  decode_from i (c ∷ cs) (p ∷ ps) = do
    b ← decode_bit i c p
    rest ← decode_from (suc i) cs ps
    ok (b ∷ rest)

  unfoldable pub decode_bits : PublicKey → Reveal → Result KeyError (List Bool)
  decode_bits pk r = do
    let n = length pk.bits
    ensure (length r.preimages == n) (preimage_count (length r.preimages) n)
    decode_from 0 pk.bits r.preimages

  unfoldable pub decode_uint : PublicKey → Reveal → Result KeyError ℕ
  decode_uint pk r = do
    ensure (leb (length pk.bits) 32) (too_many_bits (length pk.bits))
    bits ← decode_bits pk r
    ok (bits_to_uint bits)
