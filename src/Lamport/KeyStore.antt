-- ===== src/Lamport/KeyStore.antt =====
-- crates/lamport/src/keystore.rs, and `Seed::derive_bytes` of crates/btc/src/keys.rs. A method
-- returns the new store and its result; labels are byte strings.
pub mod Commitment
pub mod Runs
pub mod Signatures
use ln_gap.Prelude.{
  ℕ, suc, ◌≡◌, refl, Bool, true, false, not, ◌&&◌, Option, some, none, List, [], ◌∷◌, ◌++◌, ◌==◌,
  if◌then◌else◌, length, list_eq, Result, ok, err,
}
use ln_gap.Lamport.Bits.{uint_to_bits}
use ln_gap.Lamport.Key.{
  Bytes, SecretKey, PublicKey, Reveal, KeyError, Rng, from_entropy, public, reveal_bits,
}
use ln_gap.Lamport.Winternitz
use ln_gap.Lamport.Winternitz.{
  WotsParams, WotsPublic, WotsSecret, WotsSig, WotsError, for_bytes, params_eq,
}

abbrev pub bits_eq : List Bool → List Bool → Bool
bits_eq [] [] = true
bits_eq [] (b ∷ bs) = false
bits_eq (a ∷ as') [] = false
bits_eq (a ∷ as') (b ∷ bs) = (if a then b else not b) && bits_eq as' bs

-- A `HashMap` keyed by labels.
module _ {ℓ} {V : Type ℓ} where
  pub find : Bytes → List (Bytes × V) → Option V
  find k [] = none
  find k ((j, v) ∷ m) = if list_eq j k then some v else find k m

  pub put : Bytes → V → List (Bytes × V) → List (Bytes × V)
  put k v [] = (k, v) ∷ []
  put k v ((j, w) ∷ m) = if list_eq j k then (k, v) ∷ m else (j, w) ∷ put k v m

pub record Entry : Type 0 where
  pub sk : SecretKey
  pub revealed : Option (List Bool)

pub record WotsEntry : Type 0 where
  pub sk : WotsSecret
  pub signed : Option Bytes

pub record KeyStore : Type 0 where
  pub seed : Bytes
  pub keys : List (Bytes × Entry)
  pub wots : List (Bytes × WotsEntry)

-- The `bail!` exits, and the errors that `?` passes on.
pub data StoreError : Type 0 where
  no_key : Bytes → StoreError
  used_with_bits : ℕ → StoreError
  already_revealed : StoreError
  used_with_params : StoreError
  already_signed : StoreError
  overflow : StoreError
  key_error : KeyError → StoreError
  wots_error : WotsError → StoreError

-- "lamport/"
abbrev pub lamport_prefix : Bytes
lamport_prefix = b'l' ∷ b'a' ∷ b'm' ∷ b'p' ∷ b'o' ∷ b'r' ∷ b't' ∷ b'/' ∷ []

-- "wots/"
abbrev pub wots_prefix : Bytes
wots_prefix = b'w' ∷ b'o' ∷ b't' ∷ b's' ∷ b'/' ∷ []

unfoldable pub new : Bytes → KeyStore
new seed = record { seed = seed; keys = []; wots = [] }

-- `match &e.revealed`: whether a value may be shown after what was shown before.
unfoldable pub may_reveal : Option (List Bool) → List Bool → Bool
may_reveal none bits = true
may_reveal (some prev) bits = bits_eq prev bits

unfoldable pub may_sign : Option Bytes → Bytes → Bool
may_sign none msg = true
may_sign (some prev) msg = list_eq prev msg

-- The end of `reveal_bits` for the entry under `label`: the store keeps what was revealed.
unfoldable pub reveal_entry :
    KeyStore → Bytes → Entry → List Bool → KeyStore × Result StoreError Reveal
unfolding may_reveal put
reveal_entry s label e bits =
    if may_reveal e.revealed bits
    then elim (reveal_bits e.sk bits) [
      | ok r ↦ (record s { keys = put label (record e { revealed = some bits }) s.keys }, ok r)
      | err x ↦ (s, err (key_error x))
    ]
    else (s, err already_revealed)

unfoldable pub reveal : KeyStore → Bytes → List Bool → KeyStore × Result StoreError Reveal
unfolding find reveal_entry
reveal s label bits = elim (find label s.keys) [
  | none ↦ (s, err (no_key label))
  | some e ↦ reveal_entry s label e bits
]

unfoldable pub reveal_value : KeyStore → Bytes → ℕ → KeyStore × Result StoreError Reveal
unfolding find
reveal_value s label value = elim (find label s.keys) [
  | none ↦ (s, err (no_key label))
  | some e ↦ reveal s label (uint_to_bits value (length e.sk.bits))
]

unfoldable pub is_revealed : KeyStore → Bytes → Bool
unfolding find
is_revealed s label = elim (find label s.keys) [
  | none ↦ false
  | some e ↦ elim e.revealed [ none ↦ false | some _ ↦ true ]
]

module _ (sha256 : Bytes → Bytes) where
  unfoldable pub derive_bytes : Bytes → Bytes → Bytes
  derive_bytes seed label = sha256 (seed ++ (b'/' ∷ label))

module _ (rng : Rng) (sha256 hash160 : Bytes → Bytes) where
  unfoldable pub generate : KeyStore → Bytes → ℕ → KeyStore × Result StoreError PublicKey
  unfolding find put derive_bytes
  generate s label n_bits = elim (find label s.keys) [
    | some e ↦
        if length e.sk.bits == n_bits
        then (s, ok (public hash160 e.sk))
        else (s, err (used_with_bits (length e.sk.bits)))
    | none ↦
        let sk = from_entropy rng n_bits (derive_bytes sha256 s.seed (lamport_prefix ++ label)) in
        (
          record s { keys = put label (record { sk = sk; revealed = none }) s.keys },
          ok (public hash160 sk),
        )
  ]

  unfoldable pub public_key : KeyStore → Bytes → Result StoreError PublicKey
  unfolding find
  public_key s label = elim (find label s.keys) [
    | none ↦ err (no_key label)
    | some e ↦ ok (public hash160 e.sk)
  ]

-- The Winternitz keys of the store.
module _ (sha256 hash160 : Bytes → Bytes) where
  -- The end of `generate_wots`, once the parameters are found.
  unfoldable pub generate_params :
      KeyStore → Bytes → WotsParams → KeyStore × Result StoreError WotsPublic
  unfolding find put derive_bytes
  generate_params s label params = elim (find label s.wots) [
    | some e ↦
        if params_eq e.sk.params params
        then (s, ok (Winternitz.public hash160 e.sk))
        else (s, err used_with_params)
    | none ↦
        let sk : WotsSecret = record {
          params = params;
          secret = derive_bytes sha256 s.seed (wots_prefix ++ label);
        } in
        (
          record s { wots = put label (record { sk = sk; signed = none }) s.wots },
          ok (Winternitz.public hash160 sk),
        )
  ]

  unfoldable pub generate_wots :
      Bool → KeyStore → Bytes → ℕ → KeyStore × Result StoreError WotsPublic
  unfolding generate_params
  generate_wots overflow_checks s label n_bytes = elim (for_bytes overflow_checks n_bytes) [
    | none ↦ (s, err overflow)
    | some params ↦ generate_params s label params
  ]

module _ (hash160 : Bytes → Bytes) where
  unfoldable pub sign_entry :
      KeyStore → Bytes → WotsEntry → Bytes → KeyStore × Result StoreError WotsSig
  unfolding may_sign put
  sign_entry s label e msg =
      if may_sign e.signed msg
      then elim (Winternitz.sign hash160 e.sk msg) [
        | ok sig ↦ (record s { wots = put label (record e { signed = some msg }) s.wots }, ok sig)
        | err x ↦ (s, err (wots_error x))
      ]
      else (s, err already_signed)

  unfoldable pub sign_wots : KeyStore → Bytes → Bytes → KeyStore × Result StoreError WotsSig
  unfolding find sign_entry
  sign_wots s label msg = elim (find label s.wots) [
    | none ↦ (s, err (no_key label))
    | some e ↦ sign_entry s label e msg
  ]

  unfoldable pub wots_public : KeyStore → Bytes → Result StoreError WotsPublic
  unfolding find
  wots_public s label = elim (find label s.wots) [
    | none ↦ err (no_key label)
    | some e ↦ ok (Winternitz.public hash160 e.sk)
  ]
