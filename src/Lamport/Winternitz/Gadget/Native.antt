-- ===== src/Lamport/Winternitz/Gadget/Native.antt =====
-- The native `verify` of crates/lamport/src/winternitz.rs as two tests, for comparison with the
-- script.
use Prim.Native.Nat.{min, bit_or}
use ln_gap.Prelude.{
  ℕ, zero, suc, ◌-◌, ◌*◌, ◌^◌, ◌%◌, ◌≤◌, ◌<◌, ◌≡◌, refl, Bool, true, ◌&&◌, List, [], ◌∷◌,
  if◌then◌else◌, Bytes, length, list_eq, ◌==◌, ==_refl, le→leb, ltb_ge, inl, inr, Bool-cases, arith,
  map, sum, some, none, to_option, to_option-some, to_option-none, All, take, drop, length-take,
  length-drop,
}
use ln_gap.Lamport.Winternitz.{
  WotsPublic, WotsSig, max_digit, total_digits, hash_times, check_chains, verify, message,
  join_digits,
}
use ln_gap.Lamport.Winternitz.Checksum.{value, checksum_digits-value}

-- What `OP_MIN` leaves of a digit.
abbrev pub clamp : ℕ → ℕ
clamp d = min d 15

-- The signature whose digits are clamped.
abbrev pub clamped : WotsSig → WotsSig
clamped sig = record sig { digits = map clamp sig.digits }

-- Every element reaches the public key by as many hashes as its digit leaves.
unfoldable pub chains_hold : (Bytes → Bytes) → List ℕ → List Bytes → List Bytes → Bool
chains_hold f (d ∷ ds) (h ∷ hs) (p ∷ ps) =
    chains_hold f ds hs ps && list_eq (hash_times f h (15 - d)) p
chains_hold f _ _ _ = true

check_chains-hold :
    (f : Bytes → Bytes) (i n : ℕ) (ds : List ℕ) (hs ps : List Bytes)
    → length ds ≡ n
    → length hs ≡ n
    → length ps ≡ n
    → All (λ d. d ≤ max_digit) ds
    → to_option (check_chains f i n ds hs ps) ≡ (if chains_hold f ds hs ps then some tt else none)
unfolding check_chains chains_hold
check_chains-hold f i zero [] hs ps a b c small = refl
check_chains-hold f i zero (d ∷ ds) hs ps a b c small = absurd (omega arith)
check_chains-hold f i (suc n) [] hs ps a b c small = absurd (omega arith)
check_chains-hold f i (suc n) (d ∷ ds) [] ps a b c small = absurd (omega arith)
check_chains-hold f i (suc n) (d ∷ ds) (h ∷ hs) [] a b c small = absurd (omega arith)
check_chains-hold f i (suc n) (d ∷ ds) (h ∷ hs) (p ∷ ps) a b c small =
    let ih =
      check_chains-hold f (suc i) n ds hs ps (omega arith) (omega arith) (omega arith) small.1 in
    rw (le→leb d max_digit small.0) (elim (Bool-cases (list_eq (hash_times f h (15 - d)) p)) [
      | inl g ↦
          rw (g, ih)
            (elim (Bool-cases (chains_hold f ds hs ps)) [ inl e ↦ rw e refl | inr e ↦ rw e refl ])
      | inr g ↦
          rw g
            (elim (Bool-cases (chains_hold f ds hs ps)) [ inl e ↦ rw e refl | inr e ↦ rw e refl ])
    ])

join_digits-total :
    (n : ℕ) (ds : List ℕ) → length ds ≡ n * 2 → (b : Bytes) × (join_digits ds ≡ some b)
unfolding join_digits
join_digits-total zero [] e = ([], refl)
join_digits-total zero (d ∷ ds) e = absurd (omega arith)
join_digits-total (suc n) [] e = absurd (omega arith)
join_digits-total (suc n) (d ∷ []) e = absurd (omega arith)
join_digits-total (suc n) (d ∷ (c ∷ ds)) e =
    let (b, got) = join_digits-total n ds (omega arith) in
    (bit_or (d * 16 % 256) c ∷ b, rw got refl)

pub clamp-small : (ds : List ℕ) → All (λ d. d ≤ max_digit) (map clamp ds)
clamp-small [] = tt
clamp-small (d ∷ ds) = (omega arith, clamp-small ds)

pub All-take :
    (n : ℕ) (xs : List ℕ) → All (λ d. d ≤ max_digit) xs → All (λ d. d ≤ max_digit) (take n xs)
All-take zero xs h = tt
All-take (suc n) [] h = tt
All-take (suc n) (x ∷ xs) h = (h.0, All-take n xs h.1)

pub All-drop :
    (n : ℕ) (xs : List ℕ) → All (λ d. d ≤ max_digit) xs → All (λ d. d ≤ max_digit) (drop n xs)
All-drop zero xs h = h
All-drop (suc n) [] h = tt
All-drop (suc n) (x ∷ xs) h = All-drop n xs h.1

-- The native verification, its tests gathered.
pub verify-tests :
    (f : Bytes → Bytes) (n : ℕ) (pk : WotsPublic) (sig : WotsSig)
    → sig.params ≡ pk.params
    → pk.params.message_digits ≡ n * 2
    → max_digit * pk.params.message_digits < 16 ^ pk.params.checksum_digits
    → length pk.digits ≡ total_digits pk.params
    → length sig.digits ≡ total_digits pk.params
    → length sig.hashes ≡ total_digits pk.params
    → All (λ d. d ≤ max_digit) sig.digits
    → (msg : Bytes) × (to_option (verify f pk sig) ≡ (
        if chains_hold f sig.digits sig.hashes pk.digits
        then (if max_digit * pk.params.message_digits
                - sum (take pk.params.message_digits sig.digits)
              == value (drop pk.params.message_digits sig.digits)
            then some msg
            else none)
        else none))
unfolding verify message
verify-tests f n pk sig e m fits a b c small =
    let k = pk.params.message_digits in
    let (msg, got) =
      join_digits-total n (take k sig.digits) (omega (arith, length-take k sig.digits)) in
    let chains =
      check_chains-hold f 0 (total_digits pk.params) sig.digits sig.hashes pk.digits b c a small in
    let sums =
      checksum_digits-value pk.params (take k sig.digits) (drop k sig.digits) fits
        (omega (arith, length-drop k sig.digits)) (All-drop k sig.digits small) in
    (
      msg,
      rw
          (
            e,
            ==_refl k,
            ==_refl pk.params.checksum_digits,
            ltb_ge (length sig.digits) k (omega arith),
            got,
            sums,
          )
          (elim (Bool-cases (chains_hold f sig.digits sig.hashes pk.digits)) [
            | inr x ↦ rw ((to_option-none _ (rw x at chains)).1, x) refl
            | inl x ↦
                rw (to_option-some _ _ (rw x at chains), x)
                  (elim (Bool-cases
                    (max_digit * k - sum (take k sig.digits) == value (drop k sig.digits))) [
                      | inl y ↦ rw y refl
                      | inr y ↦ rw y refl
                    ])
          ]),
    )
