-- ===== src/TicTacToe/Leaves.antt =====
-- The disprove leaves of crates/apps/tictactoe/src/lib.rs one by one, as conditions on a claim.
use native.Mathlib.Nat.{zero-add}
use ln_gap.Prelude.{
  ltb_ge, ℕ, zero, suc, ◌+◌, ◌-◌, ◌≤◌, ◌<◌, ◌≡◌, refl, ap, ◌∙◌, sym, Bool, true, false, not, ◌&&◌,
  ◌||◌, List, [], ◌∷◌, ◌++◌, map, ◌==◌, ◌!=◌, ==_ne, length, get_or, arith, if◌then◌else◌,
  range_from, ℕ_discrete,
}
use ln_gap.Lamport.Bits.{bits_to_uint}
use ln_gap.Contract.{Role, user, hub, Claim, Leaf, disproved}
use ln_gap.TicTacToe.{
  mark, next_status, is_hub, cell_at, status_at, turn_bit, prior_closed, prover_off_turn,
  cell_out_of_range, cell_occupied, board_mismatch, bool_eq, turn_not_flipped, status_mismatch,
  code_mismatch, disprove_leaves,
}

||_false : (a b : Bool) → (a || b) ≡ false → (a ≡ false) × (b ≡ false)
||_false a b h = ground arith

disproved-append :
    (xs ys : List Leaf) (c : Claim)
    → disproved (xs ++ ys) c ≡ false
    → (disproved xs c ≡ false) × (disproved ys c ≡ false)
disproved-append [] ys c h = (refl, h)
disproved-append (x ∷ xs) ys c h = ground (arith, disproved-append xs ys c)

disproved-append_false :
    (xs ys : List Leaf) (c : Claim)
    → disproved xs c ≡ false
    → disproved ys c ≡ false
    → disproved (xs ++ ys) c ≡ false
disproved-append_false [] ys c h k = k
disproved-append_false (x ∷ xs) ys c h k = ground (arith, disproved-append_false xs ys c)

module _ (f : ℕ → Leaf) (c : Claim) where
  disproved-range :
      (a n i : ℕ) → disproved (map f (range_from a n)) c ≡ false → i < n → f (a + i) c ≡ false
  disproved-range a zero i h k = absurd (omega arith)
  disproved-range a (suc n) zero h k =
      let e : a + 0 ≡ a = omega arith in rw e (||_false (f a c) _ h).0
  disproved-range a (suc n) (suc i) h k =
      let e : a + suc i ≡ suc a + i = omega arith in
      rw e (disproved-range (suc a) n i (||_false (f a c) _ h).1 (omega arith))

  disproved-range_false :
      (a n : ℕ)
      → ((i : ℕ) → i < n → f (a + i) c ≡ false)
      → disproved (map f (range_from a n)) c ≡ false
  disproved-range_false a zero h = refl
  disproved-range_false a (suc n) h =
      let here : f a c ≡ false = ap (λ j. f j c) (plus_zero a) ∙ h 0 (omega arith) in
      rw here (
        disproved-range_false (suc a) n
          (λ i k. ap (λ j. f j c) (shift a i) ∙ h (suc i) (omega arith)))
    where
      plus_zero : (x : ℕ) → x ≡ x + 0
      plus_zero x = omega arith

      shift : (x y : ℕ) → suc x + y ≡ x + suc y
      shift x y = omega arith

pub map-range :
    (f : ℕ → ℕ) (a n : ℕ) (cs : List ℕ)
    → length cs ≡ n
    → ((j : ℕ) → j < n → f (a + j) ≡ get_or cs j 0)
    → map f (range_from a n) ≡ cs
map-range f a zero [] e h = refl
map-range f a zero (c ∷ cs) e h = absurd (omega arith)
map-range f a (suc n) [] e h = absurd (omega arith)
map-range f a (suc n) (c ∷ cs) e h =
    let here : f a ≡ c = ap f (plus_zero a) ∙ h 0 (omega arith) in
    rw (
      here,
      map-range f (suc a) n cs (omega arith) (λ i k. ap f (shift a i) ∙ h (suc i) (omega arith)),
    )
  where
    plus_zero : (x : ℕ) → x ≡ x + 0
    plus_zero x = omega arith

    shift : (x y : ℕ) → suc x + y ≡ x + suc y
    shift x y = omega arith

-- What a claim that no leaf disproves says of its bits.
pub record IsClean (r : Role) (c : Claim) : Type 0 where
  pub open_prior : status_at c.prior ≡ 0
  pub on_turn : turn_bit c.prior ≡ is_hub r
  pub in_range : bits_to_uint c.mv ≤ 8
  pub free : cell_at c.prior (bits_to_uint c.mv) ≡ 0
  pub board :
      (i : ℕ)
      → i < 9
      → cell_at c.new i ≡ (if bits_to_uint c.mv == i then mark r else cell_at c.prior i)
  pub flipped : turn_bit c.new ≡ not (turn_bit c.prior)
  pub status : status_at c.new ≡ next_status (map (cell_at c.new) (range_from 0 9)) r
  pub code :
      (if status_at c.new != 0 then status_at c.new - 1 else (if turn_bit c.new then 0 else 1))
      ≡ c.code

!=_false : (a b : ℕ) → (a != b) ≡ false → a ≡ b
!=_false a b h = ground arith

!=_refl : (a b : ℕ) → a ≡ b → (a != b) ≡ false
!=_refl a b h = ground arith

bool_eq-false : (a b : Bool) → bool_eq a b ≡ false → b ≡ not a
bool_eq-false true true h = cc
bool_eq-false true false h = refl
bool_eq-false false true h = refl
bool_eq-false false false h = cc

prover_off_turn-false :
    (r : Role) (c : Claim) → prover_off_turn r c ≡ false → turn_bit c.prior ≡ is_hub r
unfolding prover_off_turn
prover_off_turn-false user c h = h
prover_off_turn-false hub c h = ground arith

cell_occupied-false :
    (c : Claim)
    → cell_occupied (bits_to_uint c.mv) c ≡ false
    → cell_at c.prior (bits_to_uint c.mv) ≡ 0
unfolding cell_occupied
cell_occupied-false c h = ground arith

-- A claim on which no leaf fires is clean.
pub disproved-IsClean :
    (r : Role) (c : Claim) → disproved (disprove_leaves r) c ≡ false → IsClean r c
unfolding disprove_leaves prior_closed cell_out_of_range board_mismatch turn_not_flipped
    status_mismatch code_mismatch
disproved-IsClean r c h =
    let tail = turn_not_flipped ∷ (status_mismatch r ∷ (code_mismatch ∷ [])) in
    let occupied = map cell_occupied (range_from 0 9) in
    let boards = map (board_mismatch r) (range_from 0 9) in
    let (closed, h1) = ||_false (prior_closed c) _ h in
    let (turn, h2) = ||_false (prover_off_turn r c) _ h1 in
    let (range, h3) = ||_false (cell_out_of_range c) _ h2 in
    let (taken, h4) = disproved-append occupied (boards ++ tail) c h3 in
    let (same, h5) = disproved-append boards tail c h4 in
    let (flip, h6) = ||_false (turn_not_flipped c) _ h5 in
    let (stat, h7) = ||_false (status_mismatch r c) _ h6 in
    let (coded, h8) = ||_false (code_mismatch c) _ h7 in
    let small : bits_to_uint c.mv ≤ 8 = ground (arith, range) in
    let m = bits_to_uint c.mv in
    record {
      open_prior = !=_false _ _ closed;
      on_turn = prover_off_turn-false r c turn;
      in_range = small;
      free =
          cell_occupied-false c
            (rw (zero-add m) at (disproved-range cell_occupied c 0 9 m taken (omega arith)));
      board = λ i k.
          !=_false _ _ (rw (zero-add i) at (disproved-range (board_mismatch r) c 0 9 i same k));
      flipped = bool_eq-false _ _ flip;
      status = !=_false _ _ stat;
      code = !=_false _ _ coded;
    }

bool_eq-not : (a b : Bool) → b ≡ not a → bool_eq a b ≡ false
bool_eq-not true true h = cc
bool_eq-not true false h = refl
bool_eq-not false true h = refl
bool_eq-not false false h = cc

prover_off_turn_clean :
    (r : Role) (c : Claim) → turn_bit c.prior ≡ is_hub r → prover_off_turn r c ≡ false
unfolding prover_off_turn
prover_off_turn_clean user c h = h
prover_off_turn_clean hub c h = ground arith

cell_occupied_clean :
    (c : Claim) (i : ℕ) → cell_at c.prior (bits_to_uint c.mv) ≡ 0 → cell_occupied i c ≡ false
unfolding cell_occupied
cell_occupied_clean c i h = elim (ℕ_discrete (bits_to_uint c.mv) i) [
  | no ne ↦ rw (==_ne _ i ne)
  | yes e ↦
      let zero_cell : cell_at c.prior i ≡ 0 = ap (cell_at c.prior) (sym e) ∙ h in
      rw (!=_refl _ 0 zero_cell) (and_false (bits_to_uint c.mv == i))
]
  where
    and_false : (b : Bool) → (b && false) ≡ false
    and_false true = refl
    and_false false = refl

-- On a clean claim no leaf fires.
pub IsClean-disproved :
    (r : Role) (c : Claim) → IsClean r c → disproved (disprove_leaves r) c ≡ false
unfolding disprove_leaves prior_closed cell_out_of_range board_mismatch turn_not_flipped
    status_mismatch code_mismatch
IsClean-disproved r c k =
    let tail = turn_not_flipped ∷ (status_mismatch r ∷ (code_mismatch ∷ [])) in
    let occupied = map cell_occupied (range_from 0 9) in
    let boards = map (board_mismatch r) (range_from 0 9) in
    let rest : disproved tail c ≡ false =
      rw (bool_eq-not _ _ k.flipped, !=_refl _ _ k.status, !=_refl _ _ k.code) in
    let on_board : disproved boards c ≡ false =
      disproved-range_false (board_mismatch r) c 0 9
        (λ i h. rw (zero-add i) (!=_refl _ _ (k.board i h))) in
    let not_taken : disproved occupied c ≡ false =
      disproved-range_false cell_occupied c 0 9 (λ i h. cell_occupied_clean c (0 + i) k.free) in
    rw
      (
        !=_refl _ 0 k.open_prior,
        prover_off_turn_clean r c k.on_turn,
        ltb_ge 8 (bits_to_uint c.mv) k.in_range,
      )
      (disproved-append_false occupied (boards ++ tail) c not_taken
        (disproved-append_false boards tail c on_board rest))
