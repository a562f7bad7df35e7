-- ===== src/Chess/Certificate/Attacks.antt =====
-- Attacks: `attacks` of crates/apps/chess/src/attack.rs against that of certificate.rs.
use ln_gap.Prelude.{
  ℕ, ◌-◌, ◌<◌, ◌≡◌, refl, sym, ap, ◌⊎◌, inl, inr, Bool, true, false, not, ◌&&◌, ◌||◌, List, [], ◌∷◌,
  map, all, range_from, arith, ◌==◌, leb, if◌then◌else◌, Bool-cases, ==_iff, ℤ, abs,
}
use Prim.Native.Nat.{max}
use ln_gap.Chess.Square.{file_diff, rank_diff, aligned, aligned_by}
use ln_gap.Chess.Piece.{
  Colour, other_colour, PieceType, pawn, knight, bishop, rook, queen, king, Piece, piece_code,
  colour_of, kind_of,
}
use ln_gap.Chess.Position.{Position, nibble_at, is_empty, holds}
use ln_gap.Chess.Position.Bytes.{IsNibble}
use ln_gap.Chess.Attack.{kind_attacks, attacks_geometrically, attacks}
use ln_gap.Chess.Challenges.{
  is_own, line, line_delta, step, shape_attacks, attack_shape, ray_empty, attacks_square,
}
use ln_gap.Chess.Certificate.Rays.{ray_squares, between-ray_squares}
use ln_gap.Chess.Certificate.Pieces.{Shows, square-cases, enemy-own, holds-is_own}

pub same_square : (a b : ℕ) → abs (file_diff a b) ≡ 0 → abs (rank_diff a b) ≡ 0 → a ≡ b
same_square a b f r = ground arith

-- Off the square itself the two geometries agree.
geometry :
    (k : PieceType) (c : Colour) (n f : ℕ) (r : ℤ)
    → kind_of n ≡ piece_code k
    → colour_of n ≡ c
    → (f ≡ 0 → abs r ≡ 0 → ⊥)
    → kind_attacks k c f r ≡ shape_attacks n f r
unfolding kind_attacks shape_attacks
geometry pawn c n f r k e ne = rw (k, e) refl
geometry knight c n f r k e ne = rw k refl
geometry bishop c n f r k e ne = rw k (ground arith)
geometry rook c n f r k e ne = rw k (ground arith)
geometry queen c n f r k e ne = rw k (ground arith)
geometry king c n f r k e ne = rw k (ground arith)

no_shape_self : (n a : ℕ) → attack_shape n a a ≡ false
unfolding attack_shape shape_attacks
no_shape_self n a = ground arith

pub attacks_geometrically-attack_shape :
    (q : Piece) (n a b : ℕ) → Shows n q → attacks_geometrically q a b ≡ attack_shape n a b
unfolding attacks_geometrically attack_shape
attacks_geometrically-attack_shape q n a b s = elim (Bool-cases (a == b)) [
  | inl e ↦ rw e (rw (← ((==_iff a b).0 e)) (sym (no_shape_self n a)))
  | inr e ↦ rw e (
      geometry q.kind q.colour n (abs (file_diff a b)) (rank_diff a b) s.kind s.colour
        (λ f r. let same = same_square a b f r in ground arith))
]

all-map : (f : ℕ → Bool) (g : ℕ → ℕ) (xs : List ℕ) → all f (map g xs) ≡ all (λ x. f (g x)) xs
all-map f g [] = refl
all-map f g (x ∷ xs) = ap (λ t. f (g x) && t) (all-map f g xs)

-- An attack of a slider is along a line, and no other piece that attacks passes a square.
slider_aligned :
    (n : ℕ) (f r : ℤ)
    → shape_attacks n (abs f) r ≡ true
    → (leb 3 (kind_of n) && leb (kind_of n) 5) ≡ true
    → aligned_by f r ≡ true
unfolding shape_attacks
slider_aligned n f r h k = ground arith

adjacent :
    (n : ℕ) (f r : ℤ)
    → shape_attacks n (abs f) r ≡ true
    → (leb 3 (kind_of n) && leb (kind_of n) 5) ≡ false
    → (aligned_by f r ≡ false) ⊎ (max (abs f) (abs r) - 1 ≡ 0)
unfolding shape_attacks
adjacent n f r h k = elim (Bool-cases (aligned_by f r)) [
  | inr e ↦ inl e
  | inl e ↦ inr (ground arith)
]

pub short_ray :
    (n a b : ℕ)
    → attack_shape n a b ≡ true
    → (leb 3 (kind_of n) && leb (kind_of n) 5) ≡ false
    → ray_squares a b ≡ []
unfolding attack_shape ray_squares aligned
short_ray n a b h k = elim (adjacent n (file_diff a b) (rank_diff a b) h k) [
  | inl e ↦ rw (e, ray_squares) refl
  | inr e ↦ elim (Bool-cases (aligned_by (file_diff a b) (rank_diff a b))) [
    | inl t ↦ rw (t, e, ray_squares) refl
    | inr t ↦ rw (t, ray_squares) refl
  ]
]

pub slider_ray :
    (p : Position) (n a b : ℕ)
    → attack_shape n a b ≡ true
    → (leb 3 (kind_of n) && leb (kind_of n) 5) ≡ true
    → ray_empty p a b ≡ all (is_empty p) (ray_squares a b)
unfolding attack_shape ray_squares ray_empty line aligned
slider_ray p n a b h k =
    let e = slider_aligned n (file_diff a b) (rank_diff a b) h k in
    rw (e, ray_squares, ray_empty)
      (sym (
        all-map (is_empty p) (step a (line_delta (file_diff a b) (rank_diff a b)))
          (range_from 1 (max (abs (file_diff a b)) (abs (rank_diff a b)) - 1))))

attack_test :
    (own shape slider ray clear : Bool)
    → (shape ≡ true → slider ≡ true → ray ≡ clear)
    → (shape ≡ true → slider ≡ false → clear ≡ true)
    → (if not own || not shape then false else (if slider then ray else true))
      ≡ (own && (if shape then clear else false))
attack_test false s l r c h k = refl
attack_test true false l r c h k = refl
attack_test true true true r c h k = h refl refl
attack_test true true false r c h k = sym (k refl refl)

-- On the board, an attack by the certificate's check is an attack by the rules of a piece of the
-- other side.
pub attacks_square-attacks :
    (p : Position) (c : Colour) (a b : ℕ)
    → IsNibble (nibble_at p a)
    → a < 64
    → b < 64
    → attacks_square p c a b ≡ (holds p (other_colour c) a && attacks p a b)
unfolding attacks_square attacks
attacks_square-attacks p c a b v h k = elim (square-cases p a v) [
  | inl (e, z) ↦ rw (holds-is_own p (other_colour c) a v, z) refl
  | inr (q, e, s) ↦
      rw
        (
          holds-is_own p (other_colour c) a v,
          enemy-own (nibble_at p a) c,
          e,
          attacks,
          attacks_geometrically-attack_shape q (nibble_at p a) a b s,
          between-ray_squares a b h k,
        )
        (attack_test (is_own (nibble_at p a) (other_colour c)) (attack_shape (nibble_at p a) a b)
          (leb 3 (kind_of (nibble_at p a)) && leb (kind_of (nibble_at p a)) 5) (ray_empty p a b)
          (all (is_empty p) (ray_squares a b)) (slider_ray p (nibble_at p a) a b)
          (λ x y. rw (short_ray (nibble_at p a) a b x y) refl))
]
