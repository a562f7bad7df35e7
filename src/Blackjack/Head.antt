-- ===== src/Blackjack/Head.antt =====
-- The head of a hand's state in crates/apps/blackjack/src/lib.rs: 48 bytes of two digits each.
pub mod Roundtrip
use Prim.Native.Nat.{bit_or}
use ln_gap.Prelude.{
  ℕ, zero, suc, ◌+◌, ◌-◌, ◌*◌, ◌/◌, ◌%◌, ◌^◌, ◌≤◌, ◌<◌, ◌≡◌, refl, Bool, true, false, ◌&&◌, ◌||◌,
  List, [], ◌∷◌, ◌++◌, map, ltb, ◌!=◌, get_or, take, drop, any, replicate, range_from, length,
  arith,
}
use ln_gap.Blackjack.{State, positions}

abbrev pub head_bytes : ℕ
head_bytes = 48

-- `(u32::from(game_id) << 16) | ((depth & 0xff) << 8) | u32::from(mover)`
unfoldable pub word0 : ℕ → ℕ → ℕ → ℕ
word0 game_id depth mover = bit_or (bit_or (game_id * 2 ^ 16 % 2 ^ 32) (depth % 256 * 2 ^ 8)) mover

-- The two digits of a byte, the high one first.
abbrev pub byte_digits : ℕ → List ℕ
byte_digits b = b / 16 ∷ (b % 16 ∷ [])

-- The digits that `head` packs.
unfoldable pub head_digits : State → ℕ → ℕ → ℕ → List ℕ
unfolding word0
head_digits s game_id depth mover =
    map (λ i. word0 game_id depth mover / 2 ^ (4 * (7 - i)) % 16) (range_from 0 8)
    ++ (s.action % 16
        ∷ (s.phase % 16
            ∷ (s.status % 16
                ∷ (0
                    ∷ (byte_digits s.np
                        ++ (byte_digits s.ds
                            ++ (byte_digits s.lo
                                ++ (byte_digits s.hi
                                    ++ (map (λ k. get_or s.cards k 0 % 16) (range_from 0 positions)
                                        ++ replicate 60 0)))))))))

-- A byte of two digits: `(hi << 4) | lo` in a `u8`.
abbrev pub join : ℕ → ℕ → ℕ
join hi lo = bit_or (hi * 16 % 256) lo

unfoldable pub pack : List ℕ → List ℕ
pack [] = []
pack (d ∷ []) = []
pack (d ∷ e ∷ ds) = join d e ∷ pack ds

unfoldable pub head : State → ℕ → ℕ → ℕ → List ℕ
unfolding head_digits pack
head s game_id depth mover = pack (head_digits s game_id depth mover)

unfoldable pub digits : List ℕ → List ℕ
digits [] = []
digits (b ∷ bs) = b / 16 ∷ (b % 16 ∷ digits bs)

-- The state in a head's digits.
unfoldable pub read_state : List ℕ → State
read_state d = record {
  action = get_or d 8 0;
  phase = get_or d 9 0;
  status = get_or d 10 0;
  np = join (get_or d 12 0) (get_or d 13 0);
  ds = join (get_or d 14 0) (get_or d 15 0);
  lo = join (get_or d 16 0) (get_or d 17 0);
  hi = join (get_or d 18 0) (get_or d 19 0);
  cards = map (λ k. get_or d (20 + k) 0) (range_from 0 positions);
}

unfoldable pub from_head : List ℕ → State
unfolding digits read_state
from_head h = read_state (digits h)

-- `s.cards.iter().any(|&c| c > 12)` and `d[PAD_FROM..].iter().any(|&x| x != 0)` among the tests
unfoldable pub head_malformed : List ℕ → Bool
unfolding digits read_state
head_malformed h =
    let d = digits h in
    let s = read_state d in
    ltb 5 s.action
    || (ltb 6 s.phase
        || (ltb 3 s.status
            || ((get_or d 11 0 != 0)
                || (ltb 16 s.np
                    || (ltb 16 s.ds
                        || (ltb 16 s.lo
                            || (ltb 16 s.hi
                                || (any (ltb 12) s.cards || any (λ x. x != 0) (drop 36 d)))))))))
