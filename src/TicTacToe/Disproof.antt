-- ===== src/TicTacToe/Disproof.antt =====
-- All the disprove leaves of crates/apps/tictactoe/src/lib.rs together, on honest and on any
-- claims.
use native.Mathlib.Nat.{zero-add}
use ln_gap.Prelude.{
  ℕ, ◌-◌, ◌≤◌, ◌<◌, ◌≡◌, refl, ap, ◌∙◌, sym, Bool, false, not, List, ◌==◌, ◌!=◌, ==_refl, ==_ne,
  length, length-set, get_or, set, get_or-set_self, get_or-set_ne, ok, arith, if◌then◌else◌,
  ℕ_discrete,
}
use ln_gap.Lamport.Bits.{uint_to_bits, bits_to_uint, bits_to_uint-uint_to_bits}
use ln_gap.Contract.{Role, user, hub, other, Claim, disproved}
use ln_gap.TicTacToe.{
  Board, mark, next_status, transition, resolution_code, is_hub, state_bits, state_from_bits,
  cell_at, status_at, turn_bit, move_bits, disprove_leaves,
}
use ln_gap.TicTacToe.Codec.{
  IsBoard, cell_at-state_bits, turn_bit-state_bits, status_at-state_bits, read_cells-ok,
}
use ln_gap.TicTacToe.Rules.{IsMove, transition-IsMove, IsMove-transition}
use ln_gap.TicTacToe.Legal.{All-set, mark-le, next_status-le}
use ln_gap.TicTacToe.Leaves.{IsClean, disproved-IsClean, IsClean-disproved, map-range}

-- The board after a move, as the code writes it.
abbrev after : Board → ℕ → Role → Board
after s m r = record {
  cells = set s.cells m (mark r);
  turn = other r;
  status = next_status (set s.cells m (mark r)) r;
}

-- The code that the leaf expects of a board is its resolution's.
expected_code :
    (s : Board)
    → s.status ≤ 3
    → (if s.status != 0 then s.status - 1 else (if is_hub s.turn then 0 else 1)) ≡ resolution_code s
unfolding resolution_code
expected_code s h = ground arith

is_hub-other : (r : Role) → is_hub (other r) ≡ not (is_hub r)
is_hub-other user = refl
is_hub-other hub = refl

is_hub-injective : (a b : Role) → is_hub a ≡ is_hub b → a ≡ b
is_hub-injective user user h = refl
is_hub-injective user hub h = cc
is_hub-injective hub user h = cc
is_hub-injective hub hub h = refl

role_of_bit : (t : Bool) (r : Role) → t ≡ not (is_hub r) → (if t then hub else user) ≡ other r
role_of_bit t user h = rw h
role_of_bit t hub h = rw h

get_or-set :
    (cs : List ℕ) (m i v : ℕ)
    → m < length cs
    → get_or (set cs m v) i 0 ≡ (if m == i then v else get_or cs i 0)
get_or-set cs m i v h = elim (ℕ_discrete m i) [
  | yes e ↦ rw (← e) (rw (==_refl m) (get_or-set_self cs m v 0 h))
  | no ne ↦ rw (==_ne m i ne) (get_or-set_ne cs m i v 0 ne)
]

module _ (s : Board) (b : IsBoard s) (m : ℕ) (r : Role) where
  after-IsBoard : IsBoard (after s m r)
  after-IsBoard = record {
    nine = length-set s.cells m (mark r) ∙ b.nine;
    marks = All-set s.cells m (mark r) (mark-le r).0 b.marks;
    known = next_status-le (set s.cells m (mark r)) r;
  }

-- The claim that an honest mover makes.
abbrev pub honest_claim : Board → ℕ → Role → Board → Claim
honest_claim s m r s' = record {
  prior = state_bits s;
  mv = move_bits m;
  new = state_bits s';
  code = resolution_code s';
  mover = r;
}

honest-IsClean :
    (s : Board) (m : ℕ) (r : Role)
    → IsBoard s
    → IsMove s m r (after s m r)
    → IsClean r (honest_claim s m r (after s m r))
unfolding move_bits
honest-IsClean s m r b mv =
    let n = after s m r in
    let nb = after-IsBoard s b m r in
    let inside : m < length s.cells = omega (arith, b.nine, mv.in_range) in
    let moved : bits_to_uint (uint_to_bits m 4) ≡ m =
      bits_to_uint-uint_to_bits m 4 (omega arith) (omega (arith, mv.in_range)) in
    record {
      open_prior = status_at-state_bits s b ∙ mv.is_open;
      on_turn = turn_bit-state_bits s b ∙ ap is_hub mv.on_turn;
      in_range = rw moved mv.in_range;
      free = rw moved (cell_at-state_bits s b m (omega (arith, mv.in_range)) ∙ mv.free);
      board = λ i h.
          rw (moved, cell_at-state_bits n nb i h, cell_at-state_bits s b i h)
            (get_or-set s.cells m i (mark r) inside);
      flipped =
          turn_bit-state_bits n nb
          ∙ is_hub-other r
          ∙ ap not (ap is_hub (sym mv.on_turn) ∙ sym (turn_bit-state_bits s b));
      status = rw (
        status_at-state_bits n nb,
        map-range (cell_at (state_bits n)) 0 9 n.cells nb.nine
            (λ j h. ap (cell_at (state_bits n)) (zero-add j) ∙ cell_at-state_bits n nb j h),
      );
      code = rw (status_at-state_bits n nb, turn_bit-state_bits n nb) (expected_code n nb.known);
    }

-- The claim of an honest move is disproved by no leaf: on a well-formed board, the bits of the
-- board, of a move that the rules accept, of the board after it and of its resolution's code.
pub honest_undisproved :
    (s s' : Board) (m : ℕ) (r : Role)
    → IsBoard s
    → transition s m r ≡ ok s'
    → disproved (disprove_leaves r) (honest_claim s m r s') ≡ false
honest_undisproved s s' m r b h =
    let mv = transition-IsMove s s' m r h in
    let mv' : IsMove s m r (after s m r) = record {
      is_open = mv.is_open;
      on_turn = mv.on_turn;
      in_range = mv.in_range;
      free = mv.free;
      result = refl;
    } in
    rw mv.result
      (IsClean-disproved r (honest_claim s m r (after s m r)) (honest-IsClean s m r b mv'))

module _ (s : Board) (b : IsBoard s) (r : Role) (c : Claim) (prior : c.prior ≡ state_bits s)
    (k : IsClean r c) where
  abbrev claimed : ℕ
  claimed = bits_to_uint c.mv

  clean-IsMove : IsMove s claimed r (after s claimed r)
  clean-IsMove = record {
    is_open = sym (status_at-state_bits s b) ∙ ap status_at (sym prior) ∙ k.open_prior;
    on_turn =
        is_hub-injective s.turn r
          (sym (turn_bit-state_bits s b) ∙ ap turn_bit (sym prior) ∙ k.on_turn);
    in_range = k.in_range;
    free =
        sym (cell_at-state_bits s b claimed (omega (arith, k.in_range)))
        ∙ ap (λ p. cell_at p claimed) (sym prior)
        ∙ k.free;
    result = refl;
  }

  clean_cells : (i : ℕ) → i < 9 → cell_at c.new i ≡ get_or (set s.cells claimed (mark r)) i 0
  clean_cells i h =
      k.board i h
      ∙ ap (λ t. if claimed == i then mark r else t)
          (ap (λ p. cell_at p i) prior ∙ cell_at-state_bits s b i h)
      ∙ sym (get_or-set s.cells claimed i (mark r) (omega (arith, b.nine, k.in_range)))

  clean_status : status_at c.new ≡ (after s claimed r).status
  clean_status =
      k.status
      ∙ ap (λ cs. next_status cs r)
          (map-range (cell_at c.new) 0 9 (set s.cells claimed (mark r))
            (after-IsBoard s b claimed r).nine
            (λ j h. ap (cell_at c.new) (zero-add j) ∙ clean_cells j h))

  clean_turn : turn_bit c.new ≡ not (is_hub r)
  clean_turn = k.flipped ∙ ap not k.on_turn

  clean_decodes : length c.new ≡ 21 → state_from_bits c.new ≡ ok (after s claimed r)
  unfolding state_from_bits
  clean_decodes long = rw (
    long,
    read_cells-ok c.new 0 9 (set s.cells claimed (mark r)) (after-IsBoard s b claimed r).nine
        (λ j h. ap (cell_at c.new) (zero-add j) ∙ clean_cells j h)
        (after-IsBoard s b claimed r).marks,
    clean_status,
    role_of_bit (turn_bit c.new) r clean_turn,
  )

  clean_code : c.code ≡ resolution_code (after s claimed r)
  clean_code =
      sym k.code
      ∙ ap (λ t. if t != 0 then t - 1 else (if turn_bit c.new then 0 else 1)) clean_status
      ∙ ap
          (λ t.
            if (after s claimed r).status != 0
            then (after s claimed r).status - 1
            else (if t then 0 else 1))
          (clean_turn ∙ sym (is_hub-other r))
      ∙ expected_code (after s claimed r) (after-IsBoard s b claimed r).known

-- A claim from a well-formed board's bits, with 21 new bits, that no leaf disproves is true: the
-- rules accept its move, its new bits decode to the board after the move, and its code is that
-- board's resolution.
pub undisproved_true :
    (s : Board) (r : Role) (c : Claim)
    → IsBoard s
    → c.prior ≡ state_bits s
    → length c.new ≡ 21
    → disproved (disprove_leaves r) c ≡ false
    → (s' : Board) × (transition s (bits_to_uint c.mv) r ≡ ok s')
      × (state_from_bits c.new ≡ ok s')
      × (c.code ≡ resolution_code s')
undisproved_true s r c b prior long h =
    let k = disproved-IsClean r c h in
    let m = bits_to_uint c.mv in
    (
      after s m r,
      IsMove-transition s (after s m r) m r (clean-IsMove s b r c prior k),
      clean_decodes s b r c prior k long,
      clean_code s b r c prior k,
    )
