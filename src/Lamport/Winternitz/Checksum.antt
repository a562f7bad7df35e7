-- ===== src/Lamport/Winternitz/Checksum.antt =====
-- `checksum_digits` of crates/lamport/src/winternitz.rs as the digits of a number.
use native.Mathlib.Nat.{pow-suc, div-add-mod}
use ln_gap.Prelude.{
  ℕ, zero, suc, ◌+◌, ◌-◌, ◌*◌, ◌/◌, ◌%◌, ◌^◌, ◌≤◌, ◌<◌, ◌≡◌, refl, sym, ap, ◌∙◌, List, [], ◌∷◌,
  ◌++◌, length, sum, All, arith, list_eq, list_eq→eq, list_eq_refl, ◌==◌, ==_iff, Bool-cases,
  dec_lt, inl, inr,
}
use ln_gap.Lamport.Winternitz.{WotsParams, base16, checksum_digits, max_digit}

-- Every digit of the first list is at most the second's at the same place.
abbrev pub AllLe : List ℕ → List ℕ → Type 0
AllLe [] ys = Unit
AllLe (x ∷ xs) [] = Unit
AllLe (x ∷ xs) (y ∷ ys) = (x ≤ y) × AllLe xs ys

-- The number that base-16 digits spell, the highest first.
abbrev pub value : List ℕ → ℕ
value [] = 0
value (x ∷ xs) = x * 16 ^ length xs + value xs

length-base16 : (n c : ℕ) (out : List ℕ) → length (base16 n c out) ≡ n + length out
unfolding base16
length-base16 zero c out = omega arith
length-base16 (suc n) c out = omega (arith, length-base16 n (c / 16) (c % 16 ∷ out))

pub length-checksum_digits :
    (ps : WotsParams) (ds : List ℕ) → length (checksum_digits ps ds) ≡ ps.checksum_digits
unfolding checksum_digits
length-checksum_digits ps ds =
    omega (arith, length-base16 ps.checksum_digits (max_digit * ps.message_digits - sum ds) [])

value-base16 :
    (n c : ℕ) (out : List ℕ) → c < 16 ^ n → value (base16 n c out) ≡ c * 16 ^ length out + value out
unfolding base16
value-base16 zero c out h = let e : c ≡ 0 = omega arith in rw e (omega arith)
value-base16 (suc n) c out h =
    let p = 16 ^ length out in
    let small : c / 16 < 16 ^ n = omega (arith, pow-suc 16 n) in
    omega (
      arith,
      value-base16 n (c / 16) (c % 16 ∷ out) small,
      pow-suc 16 (length out),
      ap (λ (t : ℕ). c / 16 * t) (pow-suc 16 (length out)),
      ap (λ (t : ℕ). t * p) (div-add-mod c 16),
    )

value_mono : (xs ys : List ℕ) → length xs ≡ length ys → AllLe xs ys → value xs ≤ value ys
value_mono [] ys e h = omega arith
value_mono (x ∷ xs) [] e h = absurd (omega arith)
value_mono (x ∷ xs) (y ∷ ys) e h =
    let same : length xs ≡ length ys = omega arith in
    rw same (grind (arith, value_mono xs ys same h.1))

sum_mono : (xs ys : List ℕ) → length xs ≡ length ys → AllLe xs ys → sum xs ≤ sum ys
sum_mono [] ys e h = omega arith
sum_mono (x ∷ xs) [] e h = absurd (omega arith)
sum_mono (x ∷ xs) (y ∷ ys) e h = omega (arith, sum_mono xs ys (omega arith) h.1)

-- Digits that grow nowhere down and keep their sum are the same.
eq_of_sum : (xs ys : List ℕ) → length xs ≡ length ys → AllLe xs ys → sum ys ≤ sum xs → xs ≡ ys
eq_of_sum [] [] e h s = refl
eq_of_sum [] (y ∷ ys) e h s = absurd (omega arith)
eq_of_sum (x ∷ xs) [] e h s = absurd (omega arith)
eq_of_sum (x ∷ xs) (y ∷ ys) e h s =
    let same : length xs ≡ length ys = omega arith in
    let below = sum_mono xs ys same h.1 in
    let head : x ≡ y = omega arith in
    rw head (ap (λ t. y ∷ t) (eq_of_sum xs ys same h.1 (omega arith)))

AllLe-append :
    (xs ys cs ds : List ℕ)
    → length xs ≡ length ys
    → AllLe (xs ++ cs) (ys ++ ds)
    → AllLe xs ys × AllLe cs ds
AllLe-append [] [] cs ds e h = (tt, h)
AllLe-append [] (y ∷ ys) cs ds e h = absurd (omega arith)
AllLe-append (x ∷ xs) [] cs ds e h = absurd (omega arith)
AllLe-append (x ∷ xs) (y ∷ ys) cs ds e h =
    let (rest, tail) = AllLe-append xs ys cs ds (omega arith) h.1 in ((h.0, rest), tail)

pub sum-le : (xs : List ℕ) → All (λ x. x ≤ max_digit) xs → sum xs ≤ max_digit * length xs
sum-le [] h = omega arith
sum-le (x ∷ xs) h = omega (arith, sum-le xs h.1)

-- The checksum falls when a digit rises, so digits and checksum cannot all grow.
pub checksum_pins :
    (ps : WotsParams) (xs ys : List ℕ)
    → max_digit * ps.message_digits < 16 ^ ps.checksum_digits
    → length xs ≡ ps.message_digits
    → length ys ≡ ps.message_digits
    → All (λ x. x ≤ max_digit) ys
    → AllLe (xs ++ checksum_digits ps xs) (ys ++ checksum_digits ps ys)
    → xs ≡ ys
unfolding checksum_digits
checksum_pins ps xs ys fits ex ey small h =
    let m = max_digit * ps.message_digits in
    let n = ps.checksum_digits in
    let (le, le') =
      AllLe-append xs ys (base16 n (m - sum xs) []) (base16 n (m - sum ys) []) (ex ∙ sym ey) h in
    let sums = sum_mono xs ys (ex ∙ sym ey) le in
    let bound = sum-le ys small in
    let values =
      value_mono (base16 n (m - sum xs) []) (base16 n (m - sum ys) [])
        (length-base16 n (m - sum xs) [] ∙ sym (length-base16 n (m - sum ys) [])) le' in
    eq_of_sum xs ys (ex ∙ sym ey) le (
      omega (
        arith,
        value-base16 n (m - sum xs) [] (omega arith),
        value-base16 n (m - sum ys) [] (omega arith),
        ap (λ (t : ℕ). 15 * t) ey,
      ))

pub value-lt : (xs : List ℕ) → All (λ x. x ≤ max_digit) xs → value xs < 16 ^ length xs
value-lt [] h = omega arith
value-lt (x ∷ xs) h =
    let p = 16 ^ length xs in grind (arith, value-lt xs h.1, pow-suc 16 (length xs))

row_lt : (x y p v : ℕ) → x < y → v < p → x * p + v < y * p
row_lt x y p v h k = grind arith

same_head : (x y p v w : ℕ) → v < p → w < p → x * p + v ≡ y * p + w → (x ≡ y) × (v ≡ w)
same_head x y p v w h k e = elim (dec_lt x y) [
  | yes l ↦ absurd (omega (arith, row_lt x y p v l h))
  | no a ↦ elim (dec_lt y x) [
    | yes l ↦ absurd (omega (arith, row_lt y x p w l k))
    | no b ↦ let same : x ≡ y = omega arith in (same, omega (arith, ap (λ (t : ℕ). t * p) same))
  ]
]

-- Base-16 digits are determined by their number.
value_inj :
    (xs ys : List ℕ)
    → length xs ≡ length ys
    → All (λ x. x ≤ max_digit) xs
    → All (λ x. x ≤ max_digit) ys
    → value xs ≡ value ys
    → xs ≡ ys
value_inj [] [] e h k v = refl
value_inj [] (y ∷ ys) e h k v = absurd (omega arith)
value_inj (x ∷ xs) [] e h k v = absurd (omega arith)
value_inj (x ∷ xs) (y ∷ ys) e h k v =
    let same : length xs ≡ length ys = omega arith in
    let (a, b) =
      same_head x y (16 ^ length ys) (value xs) (value ys) (rw same at (value-lt xs h.1))
        (value-lt ys k.1) (rw same at v) in
    rw a (ap (λ t. y ∷ t) (value_inj xs ys same h.1 k.1 b))

base16-small :
    (n c : ℕ) (out : List ℕ)
    → All (λ x. x ≤ max_digit) out
    → All (λ x. x ≤ max_digit) (base16 n c out)
unfolding base16
base16-small zero c out h = h
base16-small (suc n) c out h = base16-small n (c / 16) (c % 16 ∷ out) (omega arith, h)

-- Checksum digits are the right ones exactly when their number is the checksum.
pub checksum_digits-value :
    (ps : WotsParams) (xs ys : List ℕ)
    → max_digit * ps.message_digits < 16 ^ ps.checksum_digits
    → length ys ≡ ps.checksum_digits
    → All (λ x. x ≤ max_digit) ys
    → list_eq ys (checksum_digits ps xs) ≡ (max_digit * ps.message_digits - sum xs == value ys)
unfolding checksum_digits
checksum_digits-value ps xs ys fits n small =
    let m = max_digit * ps.message_digits - sum xs in
    let right = value-base16 ps.checksum_digits m [] (omega arith) in
    elim (Bool-cases (list_eq ys (base16 ps.checksum_digits m []))) [
      | inl e ↦
          let same = list_eq→eq ys (base16 ps.checksum_digits m []) e in
          rw e (sym ((==_iff m (value ys)).1 (omega (arith, right, ap value same))))
      | inr e ↦ elim (Bool-cases (m == value ys)) [
        | inr f ↦ rw (e, f) refl
        | inl f ↦
            let same : value ys ≡ value (base16 ps.checksum_digits m []) =
              omega (arith, right, (==_iff m (value ys)).0 f) in
            let eq =
              value_inj ys (base16 ps.checksum_digits m [])
                (omega (arith, length-base16 ps.checksum_digits m [])) small
                (base16-small ps.checksum_digits m [] tt) same in
            absurd (cc (rw (← eq, list_eq_refl ys) at e))
      ]
    ]
