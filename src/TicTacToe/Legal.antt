-- ===== src/TicTacToe/Legal.antt =====
-- Legal boards and the rules of crates/apps/tictactoe/src/lib.rs.
use ln_gap.Prelude.{
  ℕ, zero, suc, ◌+◌, ◌≤◌, ◌<◌, ◌≡◌, ◌≢◌, refl, ap, ◌∙◌, sym, Bool, true, some, List, [], ◌∷◌, ◌==◌,
  length, length-set, get_or, set, get_or-set_self, get_or-set_ne, any, all, All, ok, arith,
  if◌then◌else◌, ==_iff, ℕ_discrete,
}
use ln_gap.Contract.{Role, user, hub, other}
use ln_gap.TicTacToe.{
  Board, mark, lines, wins, full, next_status, transition, turn_of, max_depth_from, count_free,
  empty, open_game, x_won, o_won, draw,
}
use ln_gap.TicTacToe.Codec.{IsBoard}
use ln_gap.TicTacToe.Rules.{transition-IsMove}

-- How many cells hold a mark.
abbrev pub count : ℕ → List ℕ → ℕ
count m [] = 0
count m (c ∷ cs) = (if c == m then 1 else 0) + count m cs

-- The status that the cells alone decide.
abbrev pub status_of : List ℕ → ℕ
status_of cells =
    if wins cells 1
    then x_won
    else if wins cells 2
    then o_won
    else if full cells
    then draw
    else open_game

-- The user has as many marks as the hub, or one more when the hub is on turn.
abbrev pub lead : Role → ℕ
lead user = 0
lead hub = 1

-- A board that play can reach keeps this.
pub record IsLegal (s : Board) : Type 0 where
  pub board : IsBoard s
  pub alternates : count 1 s.cells ≡ count 2 s.cells + lead s.turn
  pub judged : s.status ≡ status_of s.cells

count-set :
    (cs : List ℕ) (i a b : ℕ)
    → i < length cs
    → get_or cs i 0 ≡ 0
    → 0 < b
    → count b (set cs i a) ≡ count b cs + (if a == b then 1 else 0)
count-set [] i a b h z p = absurd (omega arith)
count-set (c ∷ cs) zero a b h z p = ground arith
count-set (c ∷ cs) (suc i) a b h z p = omega (arith, count-set cs i a b (omega arith) z p)

pub count_free-set :
    (cs : List ℕ) (i a : ℕ)
    → i < length cs
    → get_or cs i 0 ≡ 0
    → 0 < a
    → count_free (set cs i a) + 1 ≡ count_free cs
count_free-set [] i a h z p = absurd (omega arith)
count_free-set (c ∷ cs) zero a h z p = ground arith
count_free-set (c ∷ cs) (suc i) a h z p = omega (arith, count_free-set cs i a (omega arith) z p)

pub All-set : (cs : List ℕ) (i a : ℕ) → a ≤ 2 → All (λ c. c ≤ 2) cs → All (λ c. c ≤ 2) (set cs i a)
All-set [] i a h k = tt
All-set (c ∷ cs) zero a h k = (h, k.1)
All-set (c ∷ cs) (suc i) a h k = (k.0, All-set cs i a h k.1)

module _ (p q : ℕ → Bool) (imp : (i : ℕ) → p i ≡ true → q i ≡ true) where
  all_imp : (l : List ℕ) → all p l ≡ true → all q l ≡ true
  all_imp [] h = refl
  all_imp (i ∷ l) h = ground (arith, imp i, all_imp l)

  any_imp : (ls : List (List ℕ)) → any (λ l. all p l) ls ≡ true → any (λ l. all q l) ls ≡ true
  any_imp [] h = cc
  any_imp (l ∷ ls) h = ground (arith, all_imp l, any_imp ls)

-- A mark completes no line of the other mark.
wins-set_ne :
    (cs : List ℕ) (i a b : ℕ)
    → i < length cs
    → a ≢ b
    → wins (set cs i a) b ≡ true
    → wins cs b ≡ true
unfolding wins
wins-set_ne cs i a b h n =
    any_imp (λ j. get_or (set cs i a) j 0 == b) (λ j. get_or cs j 0 == b) kept lines
  where
    kept : (j : ℕ) → (get_or (set cs i a) j 0 == b) ≡ true → (get_or cs j 0 == b) ≡ true
    kept j e = elim (ℕ_discrete i j) [
      | yes same ↦ absurd (
          n (
            sym (get_or-set_self cs i a 0 h)
            ∙ ap (λ k. get_or (set cs i a) k 0) same
            ∙ (==_iff _ b).0 e))
      | no other_cell ↦ rw (sym (get_or-set_ne cs i j a 0 other_cell)) e
    ]

pub mark-le : (r : Role) → (mark r ≤ 2) × (0 < mark r)
mark-le user = omega arith
mark-le hub = omega arith

next_status-status_of :
    (cs : List ℕ) (i : ℕ) (r : Role)
    → i < length cs
    → status_of cs ≡ open_game
    → next_status (set cs i (mark r)) r ≡ status_of (set cs i (mark r))
unfolding next_status
next_status-status_of cs i user h e = ground (arith, wins-set_ne cs i 1 2 h)
next_status-status_of cs i hub h e = ground (arith, wins-set_ne cs i 2 1 h)

pub next_status-le : (cs : List ℕ) (r : Role) → next_status cs r ≤ 3
unfolding next_status
next_status-le cs user = ground arith
next_status-le cs hub = ground arith

-- A move keeps the board legal: marks alternate, and the status is the one that the cells show.
pub transition-IsLegal :
    (s s' : Board) (m : ℕ) (r : Role) → IsLegal s → transition s m r ≡ ok s' → IsLegal s'
transition-IsLegal s s' m r l h =
    let mv = transition-IsMove s s' m r h in
    let inside : m < length s.cells = omega (arith, l.board.nine, mv.in_range) in
    let cells = set s.cells m (mark r) in
    rw mv.result (record {
      board = record {
        nine = length-set s.cells m (mark r) ∙ l.board.nine;
        marks = All-set s.cells m (mark r) (mark-le r).0 l.board.marks;
        known = next_status-le cells r;
      };
      alternates = counted r mv.on_turn inside mv.free;
      judged = next_status-status_of s.cells m r inside (sym l.judged ∙ mv.is_open);
    })
  where
    counted :
        (t : Role)
        → s.turn ≡ t
        → m < length s.cells
        → get_or s.cells m 0 ≡ 0
        → count 1 (set s.cells m (mark t)) ≡ count 2 (set s.cells m (mark t)) + lead (other t)
    counted user e i f =
        omega
          (arith, count-set s.cells m 1 1 i f, count-set s.cells m 1 2 i f, l.alternates, ap lead e)
    counted hub e i f =
        omega
          (arith, count-set s.cells m 2 1 i f, count-set s.cells m 2 2 i f, l.alternates, ap lead e)

-- Every move leaves fewer moves to go.
pub transition_deepens :
    (s s' : Board) (m : ℕ) (r : Role)
    → IsLegal s
    → transition s m r ≡ ok s'
    → max_depth_from s' < max_depth_from s
unfolding max_depth_from
transition_deepens s s' m r l h =
    let mv = transition-IsMove s s' m r h in
    let inside : m < length s.cells = omega (arith, l.board.nine, mv.in_range) in
    rw (mv.result, mv.is_open)
      (ground (arith, count_free-set s.cells m (mark r) inside mv.free (mark-le r).1))

pub empty-IsLegal : IsLegal empty
unfolding empty wins full
empty-IsLegal = record {
  board = record { nine = refl; marks = omega arith; known = omega arith };
  alternates = refl;
  judged = refl;
}

pub turn_of-transition :
    (s s' : Board) (m : ℕ) (r : Role) → transition s m r ≡ ok s' → turn_of s ≡ some r
unfolding turn_of
turn_of-transition s s' m r h = let mv = transition-IsMove s s' m r h in rw (mv.is_open, mv.on_turn)
