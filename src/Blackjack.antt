-- ===== src/Blackjack.antt =====
-- crates/apps/blackjack/src/lib.rs: the state of a hand, the positions of its cards and its totals.
-- A `u8` is a natural number below 256. Rust panics on a card position above 15; here such a
-- position reads 0, and only a state with a counter above 16 has one.
pub mod Head
pub mod Hand
pub mod Predicates
pub mod Shares
pub mod Totals
pub mod Counters
pub mod Dealer
pub mod Cards
pub mod Honest
pub mod Ranges
pub mod Deals
pub mod Silence
pub mod SoftHands
mod Examples
use Prim.Native.Nat.{max, min}
use ln_gap.Prelude.{
  ℕ, ◌+◌, ◌-◌, Bool, true, false, ◌&&◌, ◌||◌, Option, some, none, List, [], ◌∷◌, map, ltb, leb,
  ◌==◌, ◌!=◌, if◌then◌else◌, get_or, replicate, range_from,
}

abbrev pub positions : ℕ
positions = 16

abbrev pub up : ℕ
up = 2

abbrev pub hole : ℕ
hole = 15

abbrev pub first_hit : ℕ
first_hit = 3

abbrev pub max_hit_np : ℕ
max_hit_np = 10

abbrev pub draw_limit : ℕ
draw_limit = 15

abbrev pub deal_action : ℕ
deal_action = 1

abbrev pub reveal_action : ℕ
reveal_action = 2

abbrev pub hit_action : ℕ
hit_action = 3

abbrev pub stand_action : ℕ
stand_action = 4

abbrev pub ack_action : ℕ
ack_action = 5

abbrev pub start_phase : ℕ
start_phase = 0

abbrev pub dealt_phase : ℕ
dealt_phase = 1

abbrev pub decide_phase : ℕ
decide_phase = 2

abbrev pub hit_phase : ℕ
hit_phase = 3

abbrev pub stood_phase : ℕ
stood_phase = 4

abbrev pub done_phase : ℕ
done_phase = 5

abbrev pub closed_phase : ℕ
closed_phase = 6

abbrev pub open_status : ℕ
open_status = 0

abbrev pub player_status : ℕ
player_status = 1

abbrev pub house_status : ℕ
house_status = 2

abbrev pub push_status : ℕ
push_status = 3

pub record State : Type 0 where
  pub action : ℕ
  pub phase : ℕ
  pub status : ℕ
  pub np : ℕ
  pub ds : ℕ
  pub lo : ℕ
  pub hi : ℕ
  pub cards : List ℕ

-- `State::default()`
abbrev pub initial : State
initial = record {
  action = 0;
  phase = 0;
  status = 0;
  np = 0;
  ds = 0;
  lo = 0;
  hi = 0;
  cards = replicate positions 0;
}

unfoldable pub dealt : State → ℕ → Bool
dealt s k = ltb k s.np || ((k == hole) && (ltb 0 s.ds && leb done_phase s.phase))

-- The end of the player's positions: where the player stood, or the next position.
abbrev pub player_limit : State → ℕ
player_limit s = if ltb 0 s.ds then s.ds else s.np

unfoldable pub player_positions : State → List ℕ
player_positions s = 0 ∷ (1 ∷ range_from first_hit (max (player_limit s) first_hit - first_hit))

unfoldable pub dealer_positions : State → List ℕ
dealer_positions s = up ∷ (hole ∷ range_from s.ds (max s.np s.ds - s.ds))

-- An ace counts 1, a ten-valued card 10.
unfoldable pub value : ℕ → ℕ
value rank = min (rank + 1) 10

-- The loop of `best_total`: the sum, and whether there is an ace.
unfoldable pub hard_total : List ℕ → ℕ × Bool
unfolding value
hard_total [] = (0, false)
hard_total (r ∷ rs) = (value r + (hard_total rs).0, (r == 0) || (hard_total rs).1)

unfoldable pub best_total : List ℕ → ℕ
unfolding hard_total
best_total ranks =
    let sum : ℕ = (hard_total ranks).0 in
    if (hard_total ranks).1 && leb (sum + 10) 21 then sum + 10 else sum

unfoldable pub cards_at : State → List ℕ → List ℕ
cards_at s ks = map (λ k. get_or s.cards k 0) ks

unfoldable pub player_total : State → ℕ
unfolding best_total player_positions cards_at
player_total s = best_total (cards_at s (player_positions s))

unfoldable pub dealer_total : State → ℕ
unfolding best_total dealer_positions cards_at
dealer_total s = best_total (cards_at s (dealer_positions s))

unfoldable pub outcome_code : ℕ → Option ℕ
outcome_code st =
    if st == player_status
    then some 0
    else if st == house_status
    then some 1
    else if st == push_status
    then some 2
    else none

-- At a parked state whose mover was `mover`, the side to move forfeits unless the hand is decided.
unfoldable pub resolution : State → ℕ → ℕ
unfolding outcome_code
resolution s mover = elim (outcome_code s.status) [ some code ↦ code | none ↦ mover ]
