-- ===== src/TicTacToe/Rules.antt =====
-- What `transition` of crates/apps/tictactoe/src/lib.rs accepts, as a relation.
use ln_gap.Prelude.{ℕ, ◌≤◌, ◌≡◌, refl, true, get_or, set, ok, arith}
use ln_gap.Contract.{Role, user, hub, other, role_eq}
use ln_gap.TicTacToe.{Board, mark, next_status, transition, open_game}

-- What a successful transition went through.
pub record IsMove (s : Board) (m : ℕ) (r : Role) (s' : Board) : Type 0 where
  pub is_open : s.status ≡ open_game
  pub on_turn : s.turn ≡ r
  pub in_range : m ≤ 8
  pub free : get_or s.cells m 0 ≡ 0
  pub result : s' ≡ record {
    cells = set s.cells m (mark r);
    turn = other r;
    status = next_status (set s.cells m (mark r)) r;
  }

role_eq→eq : (a b : Role) → role_eq a b ≡ true → a ≡ b
role_eq→eq user user h = refl
role_eq→eq user hub h = cc
role_eq→eq hub user h = cc
role_eq→eq hub hub h = refl

pub role_eq_refl : (r : Role) → role_eq r r ≡ true
role_eq_refl user = refl
role_eq_refl hub = refl

-- `transition` accepts exactly a move to a free cell of an open board, by the side on turn.
pub transition-IsMove :
    (s s' : Board) (m : ℕ) (r : Role) → transition s m r ≡ ok s' → IsMove s m r s'
unfolding transition
transition-IsMove s s' m r h = ground (arith, role_eq→eq s.turn r)

pub IsMove-transition :
    (s s' : Board) (m : ℕ) (r : Role) → IsMove s m r s' → transition s m r ≡ ok s'
unfolding transition
IsMove-transition s s' m r h = ground (arith, role_eq_refl r)
