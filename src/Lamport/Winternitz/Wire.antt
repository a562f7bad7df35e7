-- ===== src/Lamport/Winternitz/Wire.antt =====
-- A signature's witness elements: `consumption_order` of crates/lamport/src/winternitz.rs.
use ln_gap.Prelude.{
  ℕ, zero, suc, ◌+◌, ◌*◌, ◌≤◌, ◌<◌, ◌≡◌, refl, ap, ◌∙◌, sym, List, [], ◌∷◌, ◌++◌, ==_refl, ◌==◌,
  length, length-append, get_elem?, All, ok, arith, inl, inr, Bool-cases, ==_iff,
}
use ln_gap.Lamport.Key.{Bytes}
use ln_gap.Lamport.Winternitz.{
  WotsSig, total_digits, scriptnum, order_pairs, consumption_order, read_digit, read_pairs,
  from_consumption_order,
}

get_elem?-append_left :
    (xs ys : List Bytes) (i : ℕ) → i < length xs → get_elem? (xs ++ ys) i ≡ get_elem? xs i
get_elem?-append_left [] ys i h = absurd (omega arith)
get_elem?-append_left (x ∷ xs) ys zero h = refl
get_elem?-append_left (x ∷ xs) ys (suc i) h = get_elem?-append_left xs ys i (omega arith)

get_elem?-append_right :
    (xs ys : List Bytes) (i j : ℕ) → i ≡ length xs + j → get_elem? (xs ++ ys) i ≡ get_elem? ys j
get_elem?-append_right [] ys i j e = let same : i ≡ j = omega arith in rw same
get_elem?-append_right (x ∷ xs) ys zero j e = absurd (omega arith)
get_elem?-append_right (x ∷ xs) ys (suc i) j e = get_elem?-append_right xs ys i j (omega arith)

read_digit-scriptnum : (d : ℕ) → read_digit (scriptnum d) ≡ ok d
unfolding read_digit
read_digit-scriptnum d = elim (Bool-cases (d == 0)) [
  | inl e ↦ rw e (ap ok (sym ((==_iff d 0).0 e)))
  | inr e ↦ rw e
]

-- The pairs read do not depend on what stands behind them.
read_pairs-append :
    (size k : ℕ) (xs ys : List Bytes)
    → 2 * k ≤ length xs
    → read_pairs size k (xs ++ ys) ≡ read_pairs size k xs
unfolding read_pairs
read_pairs-append size zero xs ys h = refl
read_pairs-append size (suc k) xs ys h = rw (
  get_elem?-append_left xs ys (2 * k) (omega arith),
  get_elem?-append_left xs ys (2 * k + 1) (omega arith),
  read_pairs-append size k xs ys (omega arith),
)

length-order_pairs :
    (ds : List ℕ) (hs : List Bytes)
    → length hs ≡ length ds
    → length (order_pairs ds hs) ≡ 2 * length ds
unfolding order_pairs
length-order_pairs [] hs e = refl
length-order_pairs (d ∷ ds) [] e = absurd (omega arith)
length-order_pairs (d ∷ ds) (h ∷ hs) e = omega (
  arith,
  length-append (order_pairs ds hs) (scriptnum d ∷ (h ∷ [])),
  length-order_pairs ds hs (omega arith),
)

read_pairs-order_pairs :
    (size : ℕ) (ds : List ℕ) (hs : List Bytes)
    → length hs ≡ length ds
    → All (λ h. length h ≡ size) hs
    → read_pairs size (length ds) (order_pairs ds hs) ≡ ok (ds, hs)
unfolding order_pairs read_pairs
read_pairs-order_pairs size [] [] e h = refl
read_pairs-order_pairs size [] (g ∷ gs) e h = absurd (omega arith)
read_pairs-order_pairs size (d ∷ ds) [] e h = absurd (omega arith)
read_pairs-order_pairs size (d ∷ ds) (g ∷ gs) e h =
    let k = length ds in
    let before = order_pairs ds gs in
    let last = scriptnum d ∷ (g ∷ []) in
    let n = length-order_pairs ds gs (omega arith) in
    rw (
      get_elem?-append_right before last (2 * k) 0 (omega (arith, n)),
      get_elem?-append_right before last (2 * k + 1) 1 (omega (arith, n)),
      read_digit-scriptnum d,
      h.0,
      ==_refl size,
      read_pairs-append size k before last (omega (arith, n)),
      read_pairs-order_pairs size ds gs (omega arith) h.1,
    )

-- A signature with an element of the hash's size for each of the key's digits is rebuilt from its
-- witness elements.
pub from_consumption_order_inverts :
    (size : ℕ) (sig : WotsSig)
    → length sig.digits ≡ total_digits sig.params
    → length sig.hashes ≡ total_digits sig.params
    → All (λ h. length h ≡ size) sig.hashes
    → from_consumption_order size sig.params (consumption_order sig) ≡ ok sig
unfolding from_consumption_order consumption_order
from_consumption_order_inverts size sig nd nh sized =
    rw (← nd) (rw (read_pairs-order_pairs size sig.digits sig.hashes (nh ∙ sym nd) sized))
