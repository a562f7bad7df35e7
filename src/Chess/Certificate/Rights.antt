-- ===== src/Chess/Certificate/Rights.antt =====
-- Castling rights cleared by the rules and by the certificate of crates/apps/chess.
use Prim.Native.Nat.{bit_and, bit_or}
use ln_gap.Prelude.{
  ℕ, ◌+◌, ◌-◌, ◌*◌, ◌/◌, ◌%◌, ◌≤◌, ◌<◌, ◌≡◌, refl, Bool, true, false, arith, ◌==◌, if◌then◌else◌,
  ==_iff, every_below, every_below_lem,
}
use ln_gap.Chess.Piece.{Colour, white, black, other_colour}
use ln_gap.Chess.Move.{Move}
use ln_gap.Chess.Position.{castle_bit}
use ln_gap.Chess.Rules.{clear_bits, castling_after}
use ln_gap.Chess.Classify.{rook_home}
use ln_gap.Chess.Certificate.{cleared_bits}

-- Over all four corners and both sides, clearing the rights one by one is clearing them at once.
abbrev one_by_one : Bool → Bool → Bool → Bool → Bool → Bool → ℕ → ℕ
one_by_one w k a b c d castling =
    let us = if w then white else black in
    let c0 =
      if k
      then clear_bits castling (bit_or (castle_bit us true) (castle_bit us false))
      else castling in
    let c1 = if a then clear_bits c0 (castle_bit us true) else c0 in
    let c2 = if b then clear_bits c1 (castle_bit us false) else c1 in
    let c3 = if c then clear_bits c2 (castle_bit (other_colour us) true) else c2 in
    if d then clear_bits c3 (castle_bit (other_colour us) false) else c3

abbrev at_once : Bool → Bool → Bool → Bool → Bool → Bool → ℕ
at_once w k a b c d =
    let us = if w then white else black in
    let c0 = if k then bit_or (castle_bit us true) (castle_bit us false) else 0 in
    let c1 = if a then bit_or c0 (castle_bit us true) else c0 in
    let c2 = if b then bit_or c1 (castle_bit us false) else c1 in
    let c3 = if c then bit_or c2 (castle_bit (other_colour us) true) else c2 in
    if d then bit_or c3 (castle_bit (other_colour us) false) else c3

abbrev bit_of : ℕ → ℕ → Bool
bit_of n i = n / i % 2 == 1

abbrev same_rights : ℕ → Bool
same_rights n =
    let cs = n % 16 in
    one_by_one (bit_of n 16) (bit_of n 32) (bit_of n 64) (bit_of n 128) (bit_of n 256)
      (bit_of n 512) cs
    == bit_and cs (
        255
        - at_once (bit_of n 16) (bit_of n 32) (bit_of n 64) (bit_of n 128) (bit_of n 256)
            (bit_of n 512))

rights_table : every_below 1024 same_rights ≡ true
unfolding every_below
rights_table = refl

abbrev bit_num : Bool → ℕ
bit_num true = 1
bit_num false = 0

abbrev case_num : Bool → Bool → Bool → Bool → Bool → Bool → ℕ → ℕ
case_num w k a b c d castling =
    castling
    + bit_num w * 16
    + bit_num k * 32
    + bit_num a * 64
    + bit_num b * 128
    + bit_num c * 256
    + bit_num d * 512

bit_num-le : (b : Bool) → bit_num b ≤ 1
bit_num-le true = omega arith
bit_num-le false = omega arith

bit_num_test : (b : Bool) (n : ℕ) → n ≡ bit_num b → (n == 1) ≡ b
bit_num_test true n h = rw h refl
bit_num_test false n h = rw h refl

case_num_lem :
    (w k a b c d : Bool) (castling : ℕ)
    → castling < 16
    → one_by_one w k a b c d castling ≡ bit_and castling (255 - at_once w k a b c d)
case_num_lem w k a b c d castling h =
    let n = case_num w k a b c d castling in
    let lw = bit_num-le w in
    let lk = bit_num-le k in
    let la = bit_num-le a in
    let lb = bit_num-le b in
    let lc = bit_num-le c in
    let ld = bit_num-le d in
    let t = every_below_lem 1024 same_rights rights_table n (omega arith) in
    let e0 : n % 16 ≡ castling = omega arith in
    let e1 = bit_num_test w (n / 16 % 2) (omega arith) in
    let e2 = bit_num_test k (n / 32 % 2) (omega arith) in
    let e3 = bit_num_test a (n / 64 % 2) (omega arith) in
    let e4 = bit_num_test b (n / 128 % 2) (omega arith) in
    let e5 = bit_num_test c (n / 256 % 2) (omega arith) in
    let e6 = bit_num_test d (n / 512 % 2) (omega arith) in
    (==_iff _ _).0 (rw (e0, e1, e2, e3, e4, e5, e6) at t)

-- Rights lost one after another, as the rules do, or all at once, as the certificate does.
pub same_castling :
    (castling : ℕ) (us : Colour) (k : Bool) (mv : Move)
    → castling < 16
    → castling_after castling us k mv ≡ bit_and castling (255 - cleared_bits us k mv)
unfolding castling_after cleared_bits
same_castling castling white k mv h =
    case_num_lem true k (mv.from == rook_home white true) (mv.from == rook_home white false)
      (mv.to == rook_home black true) (mv.to == rook_home black false) castling h
same_castling castling black k mv h =
    case_num_lem false k (mv.from == rook_home black true) (mv.from == rook_home black false)
      (mv.to == rook_home white true) (mv.to == rook_home white false) castling h
