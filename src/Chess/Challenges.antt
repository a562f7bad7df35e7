-- ===== src/Chess/Challenges.antt =====
-- crates/apps/chess/src/certificate.rs: the challenge space, and the reads of a board that a check
-- is made of.
use Prim.Native.Nat.{max}
use ln_gap.Prelude.{
  ℕ, suc, ◌+◌, ◌-◌, ◌*◌, Bool, true, false, not, ◌&&◌, ◌||◌, Option, none, some, List, [], ◌∷◌,
  ◌++◌, map, leb, ◌==◌, ◌!=◌, if◌then◌else◌, all, range_from, ℤ, pos, negsuc, abs, int_eq,
}
use ln_gap.Chess.Square.{file_diff, rank_diff, aligned, all_squares}
use ln_gap.Chess.Piece.{Colour, colour_eq, forward, colour_of, kind_of}
use ln_gap.Chess.Position.{Position, nibble_at, is_empty}

pub data Challenge : Type 0 where
  mover destination promotion castling side castling_field ep_field clock move_number : Challenge
  ray : ℕ → Challenge
  castling_attacked : Bool → ℕ → Challenge
  king_attacked : ℕ → ℕ → Challenge
  board : ℕ → Challenge

abbrev pub pairs : List ℕ → List ℕ → List Challenge
pairs [] bys = []
pairs (k ∷ ks) bys = map (king_attacked k) bys ++ pairs ks bys

abbrev pub castling_pairs : List ℕ → List Challenge
castling_pairs [] = []
castling_pairs (by ∷ bys) =
    castling_attacked false by ∷ (castling_attacked true by ∷ castling_pairs bys)

-- `Challenge::all`
unfoldable pub all_challenges : List Challenge
all_challenges =
    (mover
      ∷ (destination
          ∷ (promotion
              ∷ (castling
                  ∷ (side ∷ (castling_field ∷ (ep_field ∷ (clock ∷ (move_number ∷ [])))))))))
    ++ (map ray (range_from 1 6)
        ++ (map board all_squares ++ (castling_pairs all_squares ++ pairs all_squares all_squares)))

abbrev pub is_own : ℕ → Colour → Bool
is_own n c = (n != 0) && colour_eq (colour_of n) c

abbrev pub is_enemy : ℕ → Colour → Bool
is_enemy n c = (n != 0) && not (colour_eq (colour_of n) c)

-- `f.signum() + 8 * r.signum()`, for the eight directions of a line.
abbrev pub line_delta : ℤ → ℤ → ℤ
line_delta (pos f) (pos r) = pos ((if f == 0 then 0 else 1) + (if r == 0 then 0 else 8))
line_delta (pos f) (negsuc r) = if f == 0 then negsuc 7 else negsuc 6
line_delta (negsuc f) (pos r) = if r == 0 then negsuc 0 else pos 7
line_delta (negsuc f) (negsuc r) = negsuc 8

unfoldable pub line : ℕ → ℕ → Option (ℤ × ℕ)
line a b =
    let f = file_diff a b in
    let r = rank_diff a b in
    if aligned a b then some (line_delta f r, max (abs f) (abs r)) else none

-- The square `j` steps of `delta` from `a`; off the board, where the source panics, its number
-- stops at 0.
abbrev pub step : ℕ → ℤ → ℕ → ℕ
step a (pos d) j = a + d * j
step a (negsuc d) j = a - suc d * j

-- The shape of an attack, for the difference of files without its sign and that of ranks.
unfoldable pub shape_attacks : ℕ → ℕ → ℤ → Bool
shape_attacks n f r =
    let k = kind_of n in
    let a = abs r in
    if k == 1
    then (f == 1) && int_eq r (forward (colour_of n))
    else if k == 2
    then ((f == 1) && (a == 2)) || ((f == 2) && (a == 1))
    else if k == 3
    then (f != 0) && (f == a)
    else if k == 4
    then (if f == 0 then not (a == 0) else (a == 0))
    else if k == 5
    then ((f != 0) || (a != 0)) && ((f == 0) || ((a == 0) || (f == a)))
    else if k == 6
    then ((f != 0) || (a != 0)) && (leb f 1 && leb a 1)
    else false

unfoldable pub attack_shape : ℕ → ℕ → ℕ → Bool
unfolding shape_attacks
attack_shape n from to = shape_attacks n (abs (file_diff from to)) (rank_diff from to)

-- `(1..dist)` of a line from `a` is empty.
unfoldable pub ray_empty : Position → ℕ → ℕ → Bool
unfolding line
ray_empty p a b = elim (line a b) [
  | none ↦ false
  | some (delta, dist) ↦ all (λ j. is_empty p (step a delta j)) (range_from 1 (dist - 1))
]

unfoldable pub attacks_square : Position → Colour → ℕ → ℕ → Bool
unfolding attack_shape ray_empty
attacks_square p c by sq =
    let n = nibble_at p by in
    if not (is_enemy n c) || not (attack_shape n by sq)
    then false
    else if leb 3 (kind_of n) && leb (kind_of n) 5
    then ray_empty p by sq
    else true
