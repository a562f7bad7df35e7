-- ===== src/Blackjack/Predicates.antt =====
-- The disprove predicates of crates/apps/blackjack/src/lib.rs: what the venue's leaves detect of a
-- prior state `p` and a new state `n`.
use ln_gap.Prelude.{
  ℕ, ◌+◌, ◌-◌, Bool, true, false, not, ◌&&◌, ◌||◌, Option, some, none, ltb, leb, ◌==◌, ◌!=◌,
  if◌then◌else◌, get_or, any, range_from,
}
use ln_gap.Blackjack.{
  State, positions, hole, max_hit_np, draw_limit, deal_action, reveal_action, hit_action,
  stand_action, ack_action, start_phase, dealt_phase, decide_phase, hit_phase, stood_phase,
  done_phase, closed_phase, open_status, player_status, house_status, push_status, dealt,
  player_total, dealer_total,
}
use ln_gap.Blackjack.Hand.{showdown}

-- `expect`: the phase that the mover's action leads to, if it is allowed.
unfoldable pub expected_phase : State → State → Bool → Option ℕ
expected_phase p n true =
    if (p.phase == start_phase) && (n.action == deal_action)
    then some dealt_phase
    else if (p.phase == decide_phase) && ((n.action == hit_action) && leb p.np max_hit_np)
    then some hit_phase
    else if (p.phase == decide_phase) && (n.action == stand_action)
    then some stood_phase
    else if (p.phase == done_phase)
        && ((n.action == ack_action) && ((p.status == player_status) || (p.status == push_status)))
    then some closed_phase
    else none
expected_phase p n false =
    if (p.phase == dealt_phase) && (n.action == reveal_action)
    then some decide_phase
    else if (p.phase == hit_phase) && (n.action == reveal_action)
    then some (if n.status != open_status then done_phase else decide_phase)
    else if (p.phase == stood_phase) && (n.action == reveal_action)
    then some done_phase
    else none

-- `want.is_some_and(|w| w != x)`, and its negation with the test for none.
abbrev pub is_some_other : Option ℕ → ℕ → Bool
is_some_other none x = false
is_some_other (some w) x = w != x

abbrev pub is_not_some : Option ℕ → ℕ → Bool
is_not_some none x = true
is_not_some (some w) x = w != x

unfoldable pub transition_fires : State → State → Bool → Bool
unfolding expected_phase
transition_fires p n player = is_not_some (expected_phase p n player) n.phase

pub record Counters : Type 0 where
  pub np : Option ℕ
  pub ds : ℕ
  pub lo : ℕ
  pub hi : ℕ

abbrev counters : Option ℕ → ℕ → ℕ → ℕ → Option Counters
counters a b c d = some (record { np = a; ds = b; lo = c; hi = d })

-- `want`, computed in `u16`, where nothing wraps.
unfoldable pub wanted_counters : State → State → Option Counters
wanted_counters p n =
    if n.action == deal_action
    then counters (some 0) 0 0 3
    else if (n.action == reveal_action) && (p.phase == dealt_phase)
    then counters (some 3) 0 0 3
    else if n.action == hit_action
    then counters (some p.np) p.ds p.np (p.np + 1)
    else if (n.action == reveal_action) && (p.phase == hit_phase)
    then counters (some (p.np + 1)) p.ds p.np (p.np + 1)
    else if n.action == stand_action
    then counters (some p.np) p.np p.np positions
    else if (n.action == reveal_action) && (p.phase == stood_phase)
    then counters none p.ds p.np positions
    else if n.action == ack_action
    then counters (some p.np) p.ds 0 0
    else none

unfoldable pub counters_fires : State → State → Bool
unfolding wanted_counters
counters_fires p n = elim (wanted_counters p n) [
  | none ↦ false
  | some w ↦ is_some_other w.np n.np || ((n.ds != w.ds) || ((n.lo != w.lo) || (n.hi != w.hi)))
]

-- At position `k`: a dealt card changed, or an undealt position is not zero.
unfoldable pub card_kept_fires : State → State → ℕ → Bool
unfolding dealt
card_kept_fires p n k =
    (dealt p k && (get_or n.cards k 0 != get_or p.cards k 0))
    || (not (dealt n k) && (get_or n.cards k 0 != 0))

unfoldable pub cards_kept_fires : State → State → Bool
unfolding card_kept_fires
cards_kept_fires p n = any (card_kept_fires p n) (range_from 0 positions)

unfoldable pub wanted_status : State → State → Option ℕ
wanted_status p n =
    if (n.action == deal_action) || ((n.action == hit_action) || (n.action == stand_action))
    then some open_status
    else if (n.action == reveal_action) && (p.phase == dealt_phase)
    then some open_status
    else if (n.action == reveal_action) && (p.phase == hit_phase)
    then some (if ltb 21 (player_total n) then house_status else open_status)
    else if (n.action == reveal_action) && (p.phase == stood_phase)
    then some (showdown n)
    else if n.action == ack_action
    then some p.status
    else none

unfoldable pub status_fires : State → State → Bool
unfolding wanted_status
status_fires p n = is_some_other (wanted_status p n) n.status

unfoldable pub dealer_fires : State → State → Bool
dealer_fires p n =
    if not ((n.action == reveal_action) && (p.phase == stood_phase))
    then false
    else if ltb n.np p.np || (ltb draw_limit n.np || ltb n.np n.ds)
    then true
    else let stopped_early = ltb (dealer_total n) 17 && ltb n.np draw_limit in
      let before = record n { np = n.np - 1 } in
      let drew_late = ltb n.ds n.np && leb 17 (dealer_total before) in stopped_early || drew_late

unfoldable pub newly_dealt : State → State → ℕ → Bool
newly_dealt p n k = if k == hole then p.phase == stood_phase else (leb p.np k && ltb k n.np)
