-- ===== src/Blackjack/Hand.antt =====
-- Honest play of crates/apps/blackjack/src/lib.rs: the player's moves and the house's reveals.
-- `np + 1` is a `u8` sum, which wraps at 256.
use ln_gap.Prelude.{
  ℕ, zero, suc, ◌+◌, ◌%◌, Bool, ◌&&◌, ◌||◌, Option, some, none, ltb, leb, ◌==◌, ◌!=◌, if◌then◌else◌,
  set,
}
use ln_gap.Blackjack.{
  State, positions, hole, max_hit_np, draw_limit, deal_action, reveal_action, hit_action,
  stand_action, ack_action, dealt_phase, decide_phase, hit_phase, stood_phase, done_phase,
  closed_phase, open_status, player_status, house_status, push_status, player_total, dealer_total,
}

unfoldable pub deal : State → State
deal p = record {
  action = deal_action;
  phase = dealt_phase;
  status = open_status;
  np = 0;
  ds = 0;
  lo = 0;
  hi = 3;
  cards = p.cards;
}

unfoldable pub can_hit : State → Bool
can_hit p = (p.phase == decide_phase) && leb p.np max_hit_np

unfoldable pub hit : State → State
hit p = record p { action = hit_action; phase = hit_phase; lo = p.np; hi = (p.np + 1) % 256 }

unfoldable pub stand : State → State
stand p = record p {
  action = stand_action;
  phase = stood_phase;
  ds = p.np;
  lo = p.np;
  hi = positions;
}

unfoldable pub ack : State → State
ack p = record p { action = ack_action; phase = closed_phase; lo = 0; hi = 0 }

unfoldable pub can_ack : State → Bool
can_ack p = (p.phase == done_phase) && ((p.status == player_status) || (p.status == push_status))

unfoldable pub showdown : State → ℕ
showdown n =
    let pt = player_total n in
    let dt = dealer_total n in
    if ltb 21 dt || ltb dt pt
    then player_status
    else if ltb pt dt
    then house_status
    else push_status

abbrev pub must_draw : State → Bool
must_draw n = ltb (dealer_total n) 17 && ltb n.np draw_limit

module _ (card_of : ℕ → ℕ) where
  -- One round of the dealer's loop: the next card is drawn.
  unfoldable pub draw_card : State → State
  draw_card n = record n { cards = set n.cards n.np (card_of n.np); np = (n.np + 1) % 256 }

  -- The dealer's loop, for at most the given number of rounds.
  unfoldable pub draw_cards : ℕ → State → State
  unfolding draw_card
  draw_cards zero n = n
  draw_cards (suc rounds) n =
      let rest = draw_cards rounds (draw_card n) in if must_draw n then rest else n

  unfoldable pub reveal_dealt : State → State
  reveal_dealt p = record p {
    action = reveal_action;
    cards = set (set (set p.cards 0 (card_of 0)) 1 (card_of 1)) 2 (card_of 2);
    np = 3;
    lo = 0;
    hi = 3;
    phase = decide_phase;
    status = open_status;
  }

  -- The state after a hit's card, before its status is known.
  abbrev pub with_hit : State → State
  with_hit p = record p {
    action = reveal_action;
    cards = set p.cards p.np (card_of p.np);
    np = (p.np + 1) % 256;
    lo = p.np;
    hi = (p.np + 1) % 256;
  }

  unfoldable pub reveal_hit : State → State
  reveal_hit p =
      let n = with_hit p in
      let status : ℕ = if ltb 21 (player_total n) then house_status else open_status in
      record n {
        status = status;
        phase = if status != open_status then done_phase else decide_phase;
      }

  -- The state with the hole card open, before the dealer draws.
  abbrev pub with_hole : State → State
  with_hole p = record p {
    action = reveal_action;
    cards = set p.cards hole (card_of hole);
    phase = done_phase;
    lo = p.np;
    hi = positions;
  }

  -- The loop ends within `draw_limit` rounds.
  unfoldable pub reveal_stood : State → State
  unfolding draw_cards showdown
  reveal_stood p = let n = draw_cards draw_limit (with_hole p) in record n { status = showdown n }

  unfoldable pub house_reveal : State → Option State
  unfolding reveal_dealt reveal_hit reveal_stood
  house_reveal p =
      if p.phase == dealt_phase
      then some (reveal_dealt p)
      else if p.phase == hit_phase
      then some (reveal_hit p)
      else if p.phase == stood_phase
      then some (reveal_stood p)
      else none
