-- ===== src/TicTacToe.antt =====
-- crates/apps/tictactoe/src/lib.rs: the game as a contract, its encoding in 21 bits, and the native
-- checks of its disprove leaves.
pub mod Codec
pub mod Rules
pub mod Legal
pub mod Games
pub mod Leaves
pub mod Disproof
mod Examples
use ln_gap.Prelude.{
  ℕ, zero, suc, ◌+◌, ◌-◌, ◌*◌, ◌≡◌, Bool, true, false, not, ◌&&◌, Option, some, none, List, [], ◌∷◌,
  ◌++◌, map, ◌==◌, ◌!=◌, leb, ltb, if◌then◌else◌, length, get_or, set, take, drop, any, all,
  range_from, replicate, Result, ok, err, ◌>>=◌, ◌>>◌, ensure,
}
use mathlib.Core.List.{flat_map}
use ln_gap.Lamport.Bits.{uint_to_bits, bits_to_uint}
use ln_gap.Contract.{
  Role, user, hub, other, role_eq, Payout, user_all, hub_all, even, Outcome, Claim, Leaf, Contract,
}

-- 21 bits in all: nine cells of two bits, the turn, the status.
pub record Board : Type 0 where
  pub cells : List ℕ
  pub turn : Role
  pub status : ℕ

abbrev pub open_game : ℕ
open_game = 0

abbrev pub x_won : ℕ
x_won = 1

abbrev pub o_won : ℕ
o_won = 2

abbrev pub draw : ℕ
draw = 3

abbrev pub lines : List (List ℕ)
lines =
    (0 ∷ (1 ∷ (2 ∷ [])))
    ∷ ((3 ∷ (4 ∷ (5 ∷ [])))
        ∷ ((6 ∷ (7 ∷ (8 ∷ [])))
            ∷ ((0 ∷ (3 ∷ (6 ∷ [])))
                ∷ ((1 ∷ (4 ∷ (7 ∷ [])))
                    ∷ ((2 ∷ (5 ∷ (8 ∷ [])))
                        ∷ ((0 ∷ (4 ∷ (8 ∷ []))) ∷ ((2 ∷ (4 ∷ (6 ∷ []))) ∷ [])))))))

abbrev pub mark : Role → ℕ
mark user = 1
mark hub = 2

unfoldable pub empty : Board
empty = record { cells = replicate 9 0; turn = user; status = open_game }

unfoldable pub wins : List ℕ → ℕ → Bool
wins cells m = any (λ l. all (λ i. get_or cells i 0 == m) l) lines

unfoldable pub full : List ℕ → Bool
full cells = all (λ c. c != 0) cells

abbrev pub user_wins_code : ℕ
user_wins_code = 0

abbrev pub hub_wins_code : ℕ
hub_wins_code = 1

abbrev pub draw_code : ℕ
draw_code = 2

abbrev pub outcomes : List Outcome
outcomes =
    record { code = user_wins_code; payout = user_all }
    ∷ (record { code = hub_wins_code; payout = hub_all }
        ∷ (record { code = draw_code; payout = even } ∷ []))

unfoldable pub turn_of : Board → Option Role
turn_of s = if s.status == open_game then some s.turn else none

-- `Invalid`, with what its messages show.
pub data Invalid : Type 0 where
  game_over : Invalid
  not_on_turn : Role → Invalid
  out_of_range : ℕ → Invalid
  occupied : ℕ → Invalid

abbrev pub won_status : Role → ℕ
won_status user = x_won
won_status hub = o_won

-- The status after the mover's mark has been set.
unfoldable pub next_status : List ℕ → Role → ℕ
next_status cells mover =
    if wins cells (mark mover) then won_status mover else if full cells then draw else open_game

unfoldable pub transition : Board → ℕ → Role → Result Invalid Board
unfolding next_status
transition s m mover = do
  ensure (s.status == open_game) game_over
  ensure (role_eq s.turn mover) (not_on_turn mover)
  ensure (leb m 8) (out_of_range m)
  ensure (get_or s.cells m 0 == 0) (occupied m)
  let cells = set s.cells m (mark mover)
  ok (record { cells = cells; turn = other mover; status = next_status cells mover })

-- The code of `resolution`: the user's forfeit is the hub's win, and the other way round.
unfoldable pub resolution_code : Board → ℕ
resolution_code s =
    if s.status == x_won
    then user_wins_code
    else if s.status == o_won
    then hub_wins_code
    else if s.status == draw
    then draw_code
    else elim s.turn [ user ↦ hub_wins_code | hub ↦ user_wins_code ]

-- `outcomes().into_iter().find(|o| o.code == code).unwrap()`: the codes are the places.
unfoldable pub resolution : Board → Outcome
unfolding resolution_code
resolution s = get_or outcomes (resolution_code s) (record { code = 0; payout = user_all })

abbrev pub count_free : List ℕ → ℕ
count_free [] = 0
count_free (c ∷ cs) = (if c == 0 then 1 else 0) + count_free cs

unfoldable pub max_depth_from : Board → ℕ
max_depth_from s = if s.status != open_game then 0 else count_free s.cells

-- `bits[lo..hi]`
abbrev pub slice : ℕ → ℕ → List Bool → List Bool
slice lo hi b = take (hi - lo) (drop lo b)

abbrev pub is_hub : Role → Bool
is_hub user = false
is_hub hub = true

unfoldable pub state_bits : Board → List Bool
unfolding flat_map
state_bits s = flat_map (λ c. uint_to_bits c 2) s.cells ++ (is_hub s.turn ∷ uint_to_bits s.status 2)

pub data DecodeError : Type 0 where
  bad_length : ℕ → DecodeError
  bad_cell : ℕ → ℕ → DecodeError

-- The two bits of cell `i`.
unfoldable pub cell_at : List Bool → ℕ → ℕ
cell_at b i = bits_to_uint (slice (2 * i) (2 * i + 2) b)

-- The loop of `state_from_bits`, with `n` cells to go from cell `i` on.
unfoldable pub read_cells : List Bool → ℕ → ℕ → Result DecodeError (List ℕ)
unfolding cell_at
read_cells b i zero = ok []
read_cells b i (suc n) = do
  ensure (leb (cell_at b i) 2) (bad_cell i (cell_at b i))
  rest ← read_cells b (suc i) n
  ok (cell_at b i ∷ rest)

abbrev pub turn_bit : List Bool → Bool
turn_bit b = get_or b 18 false

unfoldable pub status_at : List Bool → ℕ
status_at b = bits_to_uint (slice 19 21 b)

unfoldable pub state_from_bits : List Bool → Result DecodeError Board
unfolding status_at read_cells
state_from_bits b = do
  ensure (length b == 21) (bad_length (length b))
  cells ← read_cells b 0 9
  ok (record { cells = cells; turn = if turn_bit b then hub else user; status = status_at b })

unfoldable pub move_bits : ℕ → List Bool
move_bits m = uint_to_bits m 4

unfoldable pub move_from_bits : List Bool → Result DecodeError ℕ
move_from_bits b = do ensure (length b == 4) (bad_length (length b)); ok (bits_to_uint b)

unfoldable pub tictactoe : Contract Board ℕ Invalid DecodeError
tictactoe = record {
  outcomes = outcomes;
  initial = empty;
  transition = transition;
  resolution = resolution;
  turn = turn_of;
  max_depth_from = max_depth_from;
  state_bits = state_bits;
  state_from_bits = state_from_bits;
  move_bits = move_bits;
  move_from_bits = move_from_bits;
}

-- The native checks of `disprove_leaves`, for the prover (the mover of the claim) `p`.
unfoldable pub prior_closed : Leaf
prior_closed c = status_at c.prior != 0

unfoldable pub prover_off_turn : Role → Leaf
prover_off_turn user c = turn_bit c.prior
prover_off_turn hub c = not (turn_bit c.prior)

unfoldable pub cell_out_of_range : Leaf
cell_out_of_range c = ltb 8 (bits_to_uint c.mv)

unfoldable pub cell_occupied : ℕ → Leaf
cell_occupied i c = bits_to_uint c.mv == i && cell_at c.prior i != 0

unfoldable pub board_mismatch : Role → ℕ → Leaf
board_mismatch p i c =
    cell_at c.new i != (if bits_to_uint c.mv == i then mark p else cell_at c.prior i)

abbrev pub bool_eq : Bool → Bool → Bool
bool_eq true b = b
bool_eq false b = not b

unfoldable pub turn_not_flipped : Leaf
turn_not_flipped c = bool_eq (turn_bit c.prior) (turn_bit c.new)

unfoldable pub status_mismatch : Role → Leaf
unfolding next_status
status_mismatch p c =
    let cells = map (cell_at c.new) (range_from 0 9) in status_at c.new != next_status cells p

unfoldable pub code_mismatch : Leaf
code_mismatch c =
    let status = status_at c.new in
    let expected = if status != 0 then status - 1 else (if turn_bit c.new then 0 else 1) in
    expected != c.code

unfoldable pub disprove_leaves : Role → List Leaf
disprove_leaves p =
    prior_closed
    ∷ (prover_off_turn p
        ∷ (cell_out_of_range
            ∷ (map cell_occupied (range_from 0 9)
                ++ (map (board_mismatch p) (range_from 0 9)
                    ++ (turn_not_flipped ∷ (status_mismatch p ∷ (code_mismatch ∷ [])))))))
