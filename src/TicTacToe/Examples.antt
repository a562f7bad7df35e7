-- ===== src/TicTacToe/Examples.antt =====
-- The reference game of the source's tests, and the theorems at it.
use ln_gap.Prelude.{
  ◌⊎◌, ◌%◌, ℕ, ◌+◌, ◌≤◌, ◌≡◌, ◌↔◌, refl, Bool, true, false, List, [], ◌∷◌, ok, err, arith, ◌<◌,
}
use ln_gap.Lamport.Bits.{uint_to_bits, bits_to_uint}
use ln_gap.Contract.{even, Role, user, hub, disproved, dist, favours, initial_bits, transition_bits}
use ln_gap.Contract.Shares.{favours_iff, share_of, share_against}
use ln_gap.Contract.Plays.{play_bits}
use ln_gap.TicTacToe.{
  Board, empty, transition, wins, full, state_bits, state_from_bits, move_bits, max_depth_from,
  tictactoe, disprove_leaves, open_game, move_from_bits, resolution_code, prior_closed,
  prover_off_turn, cell_out_of_range, cell_occupied, board_mismatch, turn_not_flipped,
  status_mismatch, code_mismatch, status_at, cell_at,
}
use ln_gap.TicTacToe.Codec.{IsBoard}
use ln_gap.TicTacToe.Legal.{IsLegal, transition-IsLegal, empty-IsLegal}
use ln_gap.TicTacToe.Games.{play_within_nine, open_has_move}
use ln_gap.TicTacToe.Disproof.{honest_claim, honest_undisproved, undisproved_true}

favours_iff_example :
    (share_against hub (dist even 9) < share_of hub (dist even 9))
    ↔ ((favours even hub ≡ true) ⊎ ((even ≡ even) × (hub ≡ hub) × (9 % 2 ≡ 1)))
favours_iff_example = favours_iff even hub 9 (omega arith)

-- X in the centre.
abbrev opened : Board
opened = record {
  cells = 0 ∷ (0 ∷ (0 ∷ (0 ∷ (1 ∷ (0 ∷ (0 ∷ (0 ∷ (0 ∷ []))))))));
  turn = hub;
  status = open_game;
}

first_move : transition empty 4 user ≡ ok opened
unfolding transition empty wins full
first_move = refl

transition-IsLegal_example : IsLegal opened
transition-IsLegal_example = transition-IsLegal empty opened 4 user empty-IsLegal first_move

open_has_move_example : (m : ℕ) × (s' : Board) × (m ≤ 8) × (transition opened m hub ≡ ok s')
open_has_move_example = open_has_move opened transition-IsLegal_example refl

abbrev moves : List (List Bool × Role)
moves = (true ∷ (false ∷ (false ∷ (false ∷ []))), user) ∷ []

bits_after : List Bool
unfolding tictactoe play_bits transition_bits initial_bits move_from_bits transition state_from_bits
    state_bits uint_to_bits bits_to_uint empty wins full
bits_after = elim (play_bits tictactoe (initial_bits tictactoe) moves) [ ok b ↦ b | err _ ↦ [] ]

play_within_nine_example :
    (s : Board) × IsLegal s × (bits_after ≡ state_bits s) × (1 + max_depth_from s ≤ 9)
unfolding bits_after
play_within_nine_example = play_within_nine moves bits_after refl

empty-IsBoard : IsBoard empty
empty-IsBoard = empty-IsLegal.board

honest_undisproved_example :
    disproved (disprove_leaves user) (honest_claim empty 4 user opened) ≡ false
honest_undisproved_example = honest_undisproved empty opened 4 user empty-IsBoard first_move

-- A mover that leaves the turn to itself is caught.
unflipped_caught :
    disproved (disprove_leaves user) (honest_claim empty 4 user (record opened { turn = user }))
    ≡ true
unfolding disprove_leaves prior_closed prover_off_turn cell_out_of_range cell_occupied
    board_mismatch turn_not_flipped status_mismatch code_mismatch move_bits state_bits uint_to_bits
    bits_to_uint empty resolution_code status_at cell_at wins full
unflipped_caught = refl

undisproved_true_example :
    (s' : Board) × (transition empty (bits_to_uint (move_bits 4)) user ≡ ok s')
    × (state_from_bits (state_bits opened) ≡ ok s')
    × (resolution_code opened ≡ resolution_code s')
unfolding state_bits uint_to_bits
undisproved_true_example =
    undisproved_true empty user (honest_claim empty 4 user opened) empty-IsBoard refl refl
      honest_undisproved_example
