-- ===== src/Lamport/Winternitz.antt =====
-- crates/lamport/src/winternitz.rs: Winternitz one-time signatures with digits of four bits. The
-- chain's hash (HASH160 or SHA-256, third-party code) and the size of its digests are parameters.
pub mod Params
mod Chains
pub mod Checksum
pub mod Binding
pub mod Roundtrip
pub mod Wire
pub mod Gadget
use Prim.Native.Nat.{bit_or}
use ln_gap.Prelude.{
  ℕ, zero, suc, ◌+◌, ◌-◌, ◌*◌, ◌/◌, ◌%◌, Bool, true, false, Option, some, none, List, [], ◌∷◌, ◌++◌,
  map, ◌==◌, ltb, leb, if◌then◌else◌, length, take, drop, sum, range_from, list_eq, ◌&&◌, get_elem?,
  ◌^◌, ◌<◌, Result, ok, err, ◌>>=◌, ◌>>◌, ensure,
}
use ln_gap.Lamport.Key.{Bytes}

abbrev pub max_digit : ℕ
max_digit = 15

pub record WotsParams : Type 0 where
  pub message_digits : ℕ
  pub checksum_digits : ℕ

-- The loop of `for_bytes`: `none` if the fuel runs out.
unfoldable pub checksum_width : ℕ → ℕ → ℕ → ℕ → Option ℕ
checksum_width zero bound cur count = none
checksum_width (suc fuel) bound cur count =
    let rest = checksum_width fuel bound (cur * 16) (count + 1) in
    if ltb cur bound then rest else some count

-- The value of `u32` arithmetic: past 32 bits it panics under overflow checks and wraps without them.
unfoldable pub to_u32 : Bool → ℕ → Option ℕ
to_u32 overflow_checks n =
    if ltb n (2 ^ 32) then some n else (if overflow_checks then none else some (n % 2 ^ 32))

-- Nine rounds reach every bound that fits in a `u32`.
unfoldable pub params_for : ℕ → ℕ → Option WotsParams
unfolding checksum_width
params_for digits bound = elim (checksum_width 9 bound 1 0) [
  | none ↦ none
  | some c ↦ some (record { message_digits = digits; checksum_digits = c })
]

-- `MAX_DIGIT * message_digits + 1`
unfoldable pub checksum_bound : Bool → ℕ → Option ℕ
unfolding to_u32
checksum_bound overflow_checks digits = elim (to_u32 overflow_checks (max_digit * digits)) [
  | none ↦ none
  | some most ↦ to_u32 overflow_checks (most + 1)
]

unfoldable pub for_bytes : Bool → ℕ → Option WotsParams
unfolding to_u32 checksum_bound params_for
for_bytes overflow_checks n_bytes = elim (to_u32 overflow_checks (n_bytes * 2)) [
  | none ↦ none
  | some digits ↦ elim (checksum_bound overflow_checks digits) [
    | none ↦ none
    | some bound ↦ params_for digits bound
  ]
]

abbrev pub total_digits : WotsParams → ℕ
total_digits ps = ps.message_digits + ps.checksum_digits

pub record WotsPublic : Type 0 where
  pub params : WotsParams
  pub digits : List Bytes

pub record WotsSecret : Type 0 where
  pub params : WotsParams
  pub secret : Bytes

pub record WotsSig : Type 0 where
  pub params : WotsParams
  pub hashes : List Bytes
  pub digits : List ℕ

-- The `ensure!` and `bail!` exits; `panic` is an index out of range.
pub data WotsError : Type 0 where
  message_length : ℕ → ℕ → WotsError
  hash_count : ℕ → ℕ → WotsError
  params_mismatch : WotsError
  digit_out_of_range : ℕ → WotsError
  chain_mismatch : ℕ → WotsError
  checksum_mismatch : WotsError
  digit_too_long : WotsError
  hash_size : WotsError
  panic : WotsError

-- The little-endian bytes of a digit's index, none for 0; a `u32` has four.
unfoldable pub index_bytes : ℕ → ℕ → Bytes
index_bytes zero i = []
index_bytes (suc fuel) i =
    let rest = index_bytes fuel (i / 256) in if i == 0 then [] else i % 256 ∷ rest

unfoldable pub secret_input : Bytes → ℕ → Bytes
secret_input secret index = secret ++ index_bytes 4 index

unfoldable pub message_digits : Bytes → List ℕ
message_digits [] = []
message_digits (b ∷ bs) = b / 16 ∷ (b % 16 ∷ message_digits bs)

-- The loop over `out.iter_mut().rev()`: the lowest digit is written last.
unfoldable pub base16 : ℕ → ℕ → List ℕ → List ℕ
base16 zero c out = out
base16 (suc n) c out = base16 n (c / 16) (c % 16 ∷ out)

-- The digits are nibbles, so the subtraction is exact.
unfoldable pub checksum_digits : WotsParams → List ℕ → List ℕ
checksum_digits ps digits =
    base16 ps.checksum_digits (max_digit * ps.message_digits - sum digits) []

-- `chunks(2)`; `p[1]` is out of range at a last odd digit.
unfoldable pub join_digits : List ℕ → Option Bytes
join_digits [] = some []
join_digits (hi ∷ []) = none
join_digits (hi ∷ lo ∷ ds) = elim (join_digits ds) [
  | none ↦ none
  | some rest ↦ some (bit_or (hi * 16 % 256) lo ∷ rest)
]

unfoldable pub message : WotsSig → Option Bytes
message sig =
    if ltb (length sig.digits) sig.params.message_digits
    then none
    else join_digits (take sig.params.message_digits sig.digits)

abbrev pub or_panic {ℓ} : {A : Type ℓ} → Option A → Result WotsError A
or_panic none = err panic
or_panic (some a) = ok a

abbrev pub params_eq : WotsParams → WotsParams → Bool
params_eq p q = p.message_digits == q.message_digits && p.checksum_digits == q.checksum_digits

unfoldable pub from_hashes : WotsParams → Bytes → List Bytes → Result WotsError WotsSig
unfolding message_digits
from_hashes ps msg hashes = do
  let digits = message_digits msg
  ensure (length digits == ps.message_digits) (message_length (length digits) ps.message_digits)
  ensure (length hashes == total_digits ps) (hash_count (total_digits ps) (length hashes))
  ok (record { params = ps; hashes = hashes; digits = digits ++ checksum_digits ps digits })

abbrev pub scriptnum : ℕ → Bytes
scriptnum d = if d == 0 then [] else d ∷ []

-- The pairs are pushed from the last digit to the first.
unfoldable pub order_pairs : List ℕ → List Bytes → List Bytes
order_pairs [] hs = []
order_pairs (d ∷ ds) [] = []
order_pairs (d ∷ ds) (h ∷ hs) = order_pairs ds hs ++ (scriptnum d ∷ (h ∷ []))

unfoldable pub consumption_order : WotsSig → List Bytes
consumption_order sig = order_pairs sig.digits sig.hashes

-- `match d.len()`
unfoldable pub read_digit : Bytes → Result WotsError ℕ
read_digit [] = ok 0
read_digit (d ∷ []) = ok d
read_digit (d ∷ e ∷ ds) = err digit_too_long

-- The loop of `from_consumption_order` with `k` digits to go: the next pair stands at `2 * (k - 1)`.
unfoldable pub read_pairs : ℕ → ℕ → List Bytes → Result WotsError (List ℕ × List Bytes)
unfolding read_digit
read_pairs size zero items = ok ([], [])
read_pairs size (suc k) items = do
  d ← or_panic (get_elem? items (2 * k))
  h ← or_panic (get_elem? items (2 * k + 1))
  digit ← read_digit d
  ensure (length h == size) hash_size
  rest ← read_pairs size k items
  ok (digit ∷ rest.0, h ∷ rest.1)

unfoldable pub from_consumption_order : ℕ → WotsParams → List Bytes → Result WotsError WotsSig
unfolding read_pairs
from_consumption_order size ps items = do
  pairs ← read_pairs size (total_digits ps) items
  ok (record { params = ps; hashes = pairs.1; digits = pairs.0 })

module _ (hash : Bytes → Bytes) where
  unfoldable pub digit_secret : Bytes → ℕ → Bytes
  digit_secret secret index = hash (secret_input secret index)

  unfoldable pub hash_times : Bytes → ℕ → Bytes
  hash_times h zero = h
  hash_times h (suc n) = hash_times (hash h) n

  unfoldable pub public : WotsSecret → WotsPublic
  public sk = record {
    params = sk.params;
    digits =
        map (λ i. hash_times (digit_secret sk.secret i) max_digit)
          (range_from 0 (total_digits sk.params));
  }

  -- `digits.iter().enumerate()`, from index `i` on
  unfoldable pub sign_digits : Bytes → ℕ → List ℕ → List Bytes
  sign_digits secret i [] = []
  sign_digits secret i (d ∷ ds) =
      hash_times (digit_secret secret i) d ∷ sign_digits secret (suc i) ds

  unfoldable pub sign : WotsSecret → Bytes → Result WotsError WotsSig
  sign sk msg = do
    let ps = sk.params
    let digits = message_digits msg
    ensure (length digits == ps.message_digits) (message_length (length digits) ps.message_digits)
    let full = digits ++ checksum_digits ps digits
    ok (record { params = ps; hashes = sign_digits sk.secret 0 full; digits = full })

  -- The loop of `verify`, with `n` digits to go from digit `i` on.
  unfoldable pub check_chains :
      ℕ → ℕ → List ℕ → List Bytes → List Bytes → Result WotsError (Unit {0})
  check_chains i zero ds hs pks = ok tt
  check_chains i (suc n) (d ∷ ds) (h ∷ hs) (p ∷ pks) = do
    ensure (leb d max_digit) (digit_out_of_range i)
    ensure (list_eq (hash_times h (max_digit - d)) p) (chain_mismatch i)
    check_chains (suc i) n ds hs pks
  check_chains i (suc n) _ _ _ = err panic

  unfoldable pub verify : WotsPublic → WotsSig → Result WotsError Bytes
  verify pk sig = do
    ensure (params_eq sig.params pk.params) params_mismatch
    check_chains 0 (total_digits pk.params) sig.digits sig.hashes pk.digits
    let m = pk.params.message_digits
    ensure (list_eq (drop m sig.digits) (checksum_digits pk.params (take m sig.digits)))
        checksum_mismatch
    or_panic (message sig)
