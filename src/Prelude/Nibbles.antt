-- ===== src/Prelude/Nibbles.antt =====
-- A byte and its two nibbles.
use Prim.Native.Nat.{ℕ, ◌*◌, ◌/◌, ◌%◌, ◌<◌, bit_or}
use mathlib.Core.Path.{◌≡◌, refl}
use mathlib.Core.Bool.{true}
use ln_gap.Prelude.Tests.{◌==◌, ==_iff, every_below, every_below_lem}

byte_table : every_below 256 (λ b. bit_or (b / 16 * 16 % 256) (b % 16) == b) ≡ true
unfolding every_below
byte_table = refl

pub join_nibbles : (b : ℕ) → b < 256 → bit_or (b / 16 * 16 % 256) (b % 16) ≡ b
join_nibbles b h = (==_iff _ b).0 (every_below_lem 256 _ byte_table b h)
