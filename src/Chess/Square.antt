-- ===== src/Chess/Square.antt =====
-- crates/apps/chess/src/square.rs: squares, numbered 0 to 63, and the lines between them. An `i8`
-- difference of files or ranks is an integer.
use ln_gap.Prelude.{
  ℕ, zero, suc, ◌+◌, ◌-◌, ◌*◌, ◌/◌, ◌%◌, Bool, not, ◌&&◌, ◌||◌, Option, none, some, List, [], ◌∷◌,
  ltb, ◌==◌, if◌then◌else◌, range_from, ℤ, pos, negsuc, sub_ℕ, abs, signum,
}

abbrev pub squares : ℕ
squares = 64

unfoldable pub new_square : ℕ → Option ℕ
new_square i = if ltb i squares then some i else none

-- `file + 8 * rank`, in a `u8`
abbrev pub from_fr : ℕ → ℕ → ℕ
from_fr file rank = (file + 8 * rank) % 256

-- `self.0 & 7` and `self.0 >> 3`
abbrev pub file : ℕ → ℕ
file s = s % 8

abbrev pub rank : ℕ → ℕ
rank s = s / 8

-- A coordinate moved by `d`, if it stays in `0..8`.
abbrev pub shift : ℕ → ℤ → Option ℕ
shift c (pos d) = if ltb (c + d) 8 then some (c + d) else none
shift c (negsuc d) = if ltb d c && ltb (c - suc d) 8 then some (c - suc d) else none

unfoldable pub offset : ℕ → ℤ → ℤ → Option ℕ
offset s df dr = elim (shift (file s) df) [
  | none ↦ none
  | some f ↦ elim (shift (rank s) dr) [ none ↦ none | some r ↦ some (from_fr f r) ]
]

abbrev pub all_squares : List ℕ
all_squares = range_from 0 squares

abbrev pub file_diff : ℕ → ℕ → ℤ
file_diff a b = sub_ℕ (file b) (file a)

abbrev pub rank_diff : ℕ → ℕ → ℤ
rank_diff a b = sub_ℕ (rank b) (rank a)

-- Two squares that differ and share a rank, a file or a diagonal.
abbrev pub aligned_by : ℤ → ℤ → Bool
aligned_by f r =
    not ((abs f == 0) && (abs r == 0)) && ((abs f == 0) || ((abs r == 0) || (abs f == abs r)))

unfoldable pub aligned : ℕ → ℕ → Bool
aligned a b = aligned_by (file_diff a b) (rank_diff a b)

unfoldable pub direction : ℕ → ℕ → Option (ℤ × ℤ)
unfolding aligned
direction a b = if aligned a b then some (signum (file_diff a b), signum (rank_diff a b)) else none

-- The loop of `between`, from `s` on: `none` where a step leaves the board, which panics, or where
-- the rounds run out.
unfoldable pub between_from : ℕ → ℕ → ℕ → ℤ → ℤ → Option (List ℕ)
unfolding offset
between_from zero s b df dr = none
between_from (suc rounds) s b df dr = elim (offset s df dr) [
  | none ↦ none
  | some t ↦
      let rest = between_from rounds t b df dr in
      if t == b then some [] else elim rest [ none ↦ none | some v ↦ some (t ∷ v) ]
]

-- Eight rounds reach every square of a line.
unfoldable pub between_rounds : ℕ → ℕ → Option (List ℕ)
unfolding direction between_from
between_rounds a b = elim (direction a b) [
  | none ↦ some []
  | some (df, dr) ↦ between_from 8 a b df dr
]

unfoldable pub between : ℕ → ℕ → List ℕ
unfolding between_rounds
between a b = elim (between_rounds a b) [ none ↦ [] | some v ↦ v ]
