-- ===== src/Blackjack/Shares.antt =====
-- The shares of crates/apps/blackjack/src/lib.rs: a string opens to its length less the base, and
-- an entry's body holds strings with their lengths. SHA-256 is a parameter.
use ln_gap.Prelude.{
  ℤ, pos, negsuc, ℕ, zero, suc, ◌+◌, ◌-◌, ◌%◌, ◌≤◌, ◌<◌, ◌≡◌, refl, Bool, false, not, ◌&&◌, Option,
  some, none, List, [], ◌∷◌, ◌++◌, ltb, leb, ◌!=◌, if◌then◌else◌, get_or, length, take, drop,
  list_eq, All, arith, ltb_ge, length-append, take-append, drop-append,
}
use ln_gap.Blackjack.{State}
use ln_gap.Blackjack.Predicates.{newly_dealt}

abbrev pub share_base : ℕ
share_base = 32

unfoldable pub opened : List ℕ → ℤ
opened s =
    if leb share_base (length s)
    then pos (length s - share_base)
    else negsuc (share_base - length s - 1)

-- `(0..=12).contains(&v)`
abbrev pub in_range : ℤ → Bool
in_range (pos v) = leb v 12
in_range (negsuc v) = false

unfoldable pub card : ℕ → ℕ → ℕ
card a b = (a + b) % 256 % 13

unfoldable pub card_fires : State → State → ℕ → ℤ → ℤ → Bool
card_fires p n k (pos a) (pos b) =
    in_range (pos a)
    && (in_range (pos b) && (newly_dealt p n k && (get_or n.cards k 0 != (a + b) % 13)))
card_fires p n k _ _ = false

unfoldable pub share_fires : State → ℕ → ℤ → Bool
share_fires n k v = (leb n.lo k && ltb k n.hi) && not (in_range v)

unfoldable pub opens : (List ℕ → List ℕ) → List ℕ → List ℕ → Option ℕ
unfolding opened
opens sha256 c s = elim (opened s) [
  | pos v ↦ if list_eq (sha256 s) c && leb v 12 then some (v % 256) else none
  | negsuc v ↦ none
]

unfoldable pub encode_shares : List (List ℕ) → List ℕ
encode_shares [] = []
encode_shares (s ∷ ss) = (length s % 256) ∷ (s ++ encode_shares ss)

-- The loop of `decode_shares`; each round takes at least the length byte.
unfoldable pub decode_rounds : ℕ → List ℕ → Option (List (List ℕ))
decode_rounds rounds [] = some []
decode_rounds zero (len ∷ rest) = none
decode_rounds (suc rounds) (len ∷ rest) =
    let tail = decode_rounds rounds (drop len rest) in
    if ltb (length rest) len
    then none
    else elim tail [ none ↦ none | some out ↦ some (take len rest ∷ out) ]

unfoldable pub decode_shares : List ℕ → Option (List (List ℕ))
unfolding decode_rounds
decode_shares b = decode_rounds (length b) b

-- Each round takes at least a byte, so rounds beyond the body's length change nothing.
decode_rounds-encode_shares :
    (ss : List (List ℕ)) (rounds : ℕ)
    → All (λ s. length s < 256) ss
    → length (encode_shares ss) ≤ rounds
    → decode_rounds rounds (encode_shares ss) ≡ some ss
unfolding encode_shares decode_rounds
decode_rounds-encode_shares [] rounds small enough = refl
decode_rounds-encode_shares (s ∷ ss) zero small enough = absurd (omega arith)
decode_rounds-encode_shares (s ∷ ss) (suc rounds) small enough =
    let e : length s % 256 ≡ length s = omega (arith, small.0) in
    let l = length-append s (encode_shares ss) in
    rw
      (
        e,
        ltb_ge (length (s ++ encode_shares ss)) (length s) (omega (arith, l)),
        drop-append s (encode_shares ss),
        decode_rounds-encode_shares ss rounds small.1 (omega (arith, l, enough)),
        e,
        take-append s (encode_shares ss),
      )
      refl

-- Strings of less than 256 bytes are read back from an entry's body.
pub decode_shares-encode_shares :
    (ss : List (List ℕ)) → All (λ s. length s < 256) ss → decode_shares (encode_shares ss) ≡ some ss
unfolding decode_shares
decode_shares-encode_shares ss small =
    decode_rounds-encode_shares ss (length (encode_shares ss)) small (omega arith)
