-- ===== src/TicTacToe/Games.antt =====
-- Whole games on bits: crates/apps/tictactoe/src/lib.rs as a contract of
-- crates/contract/src/lib.rs.
use ln_gap.Prelude.{
  ℕ, suc, ◌+◌, ◌≤◌, ◌<◌, ◌≡◌, refl, ◌∙◌, sym, inl, inr, Bool, false, List, [], ◌∷◌, ◌!=◌, length,
  get_or, set, ok, arith, Bool-cases,
}
use ln_gap.Contract.{Role, other}
use ln_gap.Contract.Plays.{IsLawful, play_bits, play_bits_bounded}
use ln_gap.TicTacToe.{
  Board, mark, full, next_status, transition, max_depth_from, empty, open_game, tictactoe,
}
use ln_gap.TicTacToe.Codec.{state_from_bits-state_bits}
use ln_gap.Contract.{initial_bits}
use ln_gap.TicTacToe.{state_bits}
use ln_gap.TicTacToe.Rules.{IsMove-transition}
use ln_gap.TicTacToe.Legal.{
  IsLegal, status_of, transition-IsLegal, transition_deepens, empty-IsLegal, turn_of-transition,
}

-- The game is lawful for the framework.
pub tictactoe-IsLawful : IsLawful tictactoe
unfolding tictactoe
tictactoe-IsLawful = record {
  Valid = IsLegal;
  initial_valid = empty-IsLegal;
  transition_valid = transition-IsLegal;
  decodes = λ s l. state_from_bits-state_bits s l.board;
  deeper = transition_deepens;
  on_turn = λ s s' m r l h. turn_of-transition s s' m r h;
}

-- Whatever moves are played on bits from the empty board, the result spells a legal board, and the
-- moves played and the moves to go are nine at most.
pub play_within_nine :
    (ms : List (List Bool × Role)) (b : List Bool)
    → play_bits tictactoe (initial_bits tictactoe) ms ≡ ok b
    → (s : Board) × IsLegal s × (b ≡ state_bits s) × (length ms + max_depth_from s ≤ 9)
unfolding tictactoe tictactoe-IsLawful empty max_depth_from
play_within_nine ms b h = play_bits_bounded tictactoe tictactoe-IsLawful ms b h

free_cell : (cs : List ℕ) → full cs ≡ false → (i : ℕ) × (i < length cs) × (get_or cs i 0 ≡ 0)
unfolding full
free_cell [] h = cc
free_cell (c ∷ cs) h = elim (Bool-cases (c != 0)) [
  | inr e ↦ (0, omega arith, ground arith)
  | inl e ↦ let (i, inside, free) = free_cell cs (rw e at h) in (suc i, omega arith, free)
]

-- On a legal board that is open, the side on turn has a move.
pub open_has_move :
    (s : Board)
    → IsLegal s
    → s.status ≡ open_game
    → (m : ℕ) × (s' : Board) × (m ≤ 8) × (transition s m s.turn ≡ ok s')
open_has_move s l e =
    let room : full s.cells ≡ false = not_full (sym l.judged ∙ e) in
    let (m, inside, free) = free_cell s.cells room in
    let s' : Board = record {
      cells = set s.cells m (mark s.turn);
      turn = other s.turn;
      status = next_status (set s.cells m (mark s.turn)) s.turn;
    } in
    let small : m ≤ 8 = omega (arith, l.board.nine) in
    (
      m,
      s',
      small,
      IsMove-transition s s' m s.turn
          (record { is_open = e; on_turn = refl; in_range = small; free = free; result = refl }),
    )
  where
    not_full : status_of s.cells ≡ open_game → full s.cells ≡ false
    not_full h = ground arith
