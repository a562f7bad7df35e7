-- ===== src/TicTacToe/Codec.antt =====
-- The 21 bits of a board and the four of a move: crates/apps/tictactoe/src/lib.rs.
use mathlib.Core.List.{flat_map}
use native.Mathlib.Nat.{add-zero, zero-add}
use ln_gap.Prelude.{
  ℕ, zero, suc, ◌+◌, ◌-◌, ◌*◌, ◌≤◌, ◌<◌, ◌≡◌, refl, ap, ◌∙◌, sym, Bool, false, List, [], ◌∷◌, ◌++◌,
  length, get_or, take, drop, All, ok, arith, le→leb, if◌then◌else◌,
}
use ln_gap.Lamport.Bits.{uint_to_bits, length-uint_to_bits, bits_to_uint-uint_to_bits}
use ln_gap.Contract.{Role, user, hub}
use ln_gap.TicTacToe.{
  Board, is_hub, state_bits, state_from_bits, cell_at, read_cells, status_at, turn_bit, move_bits,
  move_from_bits,
}

-- Nine cells and a status that fit in their bits.
pub record IsBoard (s : Board) : Type 0 where
  pub nine : length s.cells ≡ 9
  pub marks : All (λ c. c ≤ 2) s.cells
  pub known : s.status ≤ 3

two : ℕ → List Bool
two c = uint_to_bits c 2

abbrev cells_bits : List ℕ → List Bool → List Bool
cells_bits cs rest = flat_map (λ c. uint_to_bits c 2) cs ++ rest

double : ℕ → ℕ
double zero = zero
double (suc i) = suc (suc (double i))

double_lem : (i : ℕ) → 2 * i ≡ double i
unfolding double
double_lem zero = refl
double_lem (suc i) = omega (arith, double_lem i)

-- Two elements are passed for each cell.
drop-cells_bits :
    (cs : List ℕ) (rest : List Bool) → drop (double (length cs)) (cells_bits cs rest) ≡ rest
unfolding double uint_to_bits flat_map
drop-cells_bits [] rest = refl
drop-cells_bits (c ∷ cs) rest = drop-cells_bits cs rest

take-cells_bits :
    (cs : List ℕ) (rest : List Bool) (i : ℕ)
    → i < length cs
    → take 2 (drop (double i) (cells_bits cs rest)) ≡ uint_to_bits (get_or cs i 0) 2
unfolding double uint_to_bits flat_map
take-cells_bits [] rest i h = absurd (omega arith)
take-cells_bits (c ∷ cs) rest zero h = refl
take-cells_bits (c ∷ cs) rest (suc i) h = take-cells_bits cs rest i (omega arith)

length-cells_bits :
    (cs : List ℕ) (rest : List Bool)
    → length (cells_bits cs rest) ≡ double (length cs) + length rest
unfolding double uint_to_bits flat_map
length-cells_bits [] rest = omega arith
length-cells_bits (c ∷ cs) rest = omega (arith, length-cells_bits cs rest)

get-All : (cs : List ℕ) (i : ℕ) → All (λ c. c ≤ 2) cs → get_or cs i 0 ≤ 2
get-All [] i h = omega arith
get-All (c ∷ cs) zero h = h.0
get-All (c ∷ cs) (suc i) h = get-All cs i h.1

get_or-drop : (n : ℕ) (b : List Bool) → get_or b n false ≡ get_or (drop n b) 0 false
get_or-drop zero b = refl
get_or-drop (suc n) [] = refl
get_or-drop (suc n) (x ∷ b) = get_or-drop n b

drop-suc : (n : ℕ) (b : List Bool) → drop (suc n) b ≡ drop 1 (drop n b)
drop-suc zero b = refl
drop-suc (suc n) [] = refl
drop-suc (suc n) (x ∷ b) = drop-suc n b

suc_shift : (i j : ℕ) → suc i + j ≡ i + suc j
suc_shift i j = omega arith

-- Cells that the bits spell are read in order.
pub read_cells-ok :
    (b : List Bool) (i n : ℕ) (cs : List ℕ)
    → length cs ≡ n
    → ((j : ℕ) → j < n → cell_at b (i + j) ≡ get_or cs j 0)
    → All (λ c. c ≤ 2) cs
    → read_cells b i n ≡ ok cs
unfolding read_cells
read_cells-ok b i zero [] e at small = refl
read_cells-ok b i zero (c ∷ cs) e at small = absurd (omega arith)
read_cells-ok b i (suc n) [] e at small = absurd (omega arith)
read_cells-ok b i (suc n) (c ∷ cs) e at small =
    let here : cell_at b i ≡ c = ap (cell_at b) (sym (add-zero i)) ∙ at 0 (omega arith) in
    rw (
      here,
      le→leb c 2 small.0,
      read_cells-ok b (suc i) n cs (omega arith)
          (λ j h. ap (cell_at b) (suc_shift i j) ∙ at (suc j) (omega arith)) small.1,
    )

module _ (s : Board) (b : IsBoard s) where
  pub cell_at-state_bits : (i : ℕ) → i < 9 → cell_at (state_bits s) i ≡ get_or s.cells i 0
  unfolding cell_at state_bits
  cell_at-state_bits i h =
      let two_long : 2 * i + 2 - 2 * i ≡ 2 = omega arith in
      rw
        (
          two_long,
          double_lem i,
          take-cells_bits s.cells (is_hub s.turn ∷ uint_to_bits s.status 2) i
              (omega (arith, b.nine)),
        )
        (bits_to_uint-uint_to_bits (get_or s.cells i 0) 2 (omega arith)
          (omega (arith, get-All s.cells i b.marks)))

  drop-state_bits : drop 18 (state_bits s) ≡ is_hub s.turn ∷ uint_to_bits s.status 2
  unfolding state_bits double
  drop-state_bits =
      let rest = is_hub s.turn ∷ uint_to_bits s.status 2 in
      let all_cells : double (length s.cells) ≡ 18 = ap double b.nine in
      ap (λ n. drop n (cells_bits s.cells rest)) (sym all_cells) ∙ drop-cells_bits s.cells rest

  pub turn_bit-state_bits : turn_bit (state_bits s) ≡ is_hub s.turn
  turn_bit-state_bits = get_or-drop 18 (state_bits s) ∙ ap (λ t. get_or t 0 false) drop-state_bits

  pub status_at-state_bits : status_at (state_bits s) ≡ s.status
  unfolding status_at uint_to_bits
  status_at-state_bits =
      rw (drop-suc 18 (state_bits s), drop-state_bits)
        (bits_to_uint-uint_to_bits s.status 2 (omega arith) (omega (arith, b.known)))

  pub length-state_bits : length (state_bits s) ≡ 21
  unfolding state_bits double uint_to_bits
  length-state_bits =
      length-cells_bits s.cells (is_hub s.turn ∷ uint_to_bits s.status 2)
      ∙ ap (λ n. double n + 3) b.nine

  -- A well-formed board is read back from its bits.
  pub state_from_bits-state_bits : state_from_bits (state_bits s) ≡ ok s
  unfolding state_from_bits
  state_from_bits-state_bits =
      rw
        (
          length-state_bits,
          read_cells-ok (state_bits s) 0 9 s.cells b.nine
              (λ j h. ap (cell_at (state_bits s)) (zero-add j) ∙ cell_at-state_bits j h) b.marks,
          turn_bit-state_bits,
          status_at-state_bits,
        )
        (ap (λ r. ok (record s { turn = r })) (role_of s.turn))
    where
      role_of : (r : Role) → (if is_hub r then hub else user) ≡ r
      role_of user = refl
      role_of hub = refl

-- A move of at most 15 is read back from its bits.
pub move_from_bits-move_bits : (m : ℕ) → m < 16 → move_from_bits (move_bits m) ≡ ok m
unfolding move_from_bits move_bits
move_from_bits-move_bits m h =
    rw (length-uint_to_bits m 4, bits_to_uint-uint_to_bits m 4 (omega arith) h)
