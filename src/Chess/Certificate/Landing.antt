-- ===== src/Chess/Certificate/Landing.antt =====
-- The square that a castling king lands on, attacked before the move or after it: certificate.rs
-- reads the one, rules.rs of crates/apps/chess the other.
use ln_gap.Prelude.{
  ℕ, ◌<◌, ◌≡◌, ◌≢◌, refl, sym, ◌∙◌, inl, inr, Bool, true, false, ◌&&◌, ◌||◌, arith, ◌==◌, ◌!=◌,
  if◌then◌else◌, Bool-cases, ==_iff, ltb, ltb→lt, leb, all, any, List, [], ◌∷◌, &&_true,
  every_below, every_below_lem, ℕ_discrete,
}
use ln_gap.Chess.Square.{from_fr, aligned}
use ln_gap.Chess.Piece.{Colour, white, black, home_rank, kind_of}
use ln_gap.Chess.Position.{Position, nibble_at, is_empty}
use ln_gap.Chess.Classify.{rook_home, rook_target}
use ln_gap.Chess.Challenges.{is_own, is_enemy, attack_shape, attacks_square}
use ln_gap.Chess.Certificate.Rays.{ray_squares}
use ln_gap.Chess.Certificate.Attacks.{slider_ray}

abbrev pub landing : Colour → Bool → ℕ
landing c side = from_fr (if side then 6 else 2) (home_rank c)

-- A line to the landing square keeps off it and off the rook's new square, unless it starts at the
-- king or passes it.
abbrev line_fits : Colour → Bool → ℕ → Bool
line_fits c side by =
    all (λ s. ltb s 64 && ((s != landing c side) && (s != rook_target c side)))
      (ray_squares by (landing c side))
    || ((by == from_fr 4 (home_rank c))
        || any (λ s. s == from_fr 4 (home_rank c)) (ray_squares by (landing c side)))

lines_fit : (c : Colour) (side : Bool) → every_below 64 (line_fits c side) ≡ true
unfolding every_below ray_squares aligned
lines_fit white true = refl
lines_fit white false = refl
lines_fit black true = refl
lines_fit black false = refl

-- Two boards that agree but on the squares of castling.
pub record Agree (p a : Position) (c : Colour) (side : Bool) : Type 0 where
  pub elsewhere :
      (s : ℕ)
      → s < 64
      → s ≢ from_fr 4 (home_rank c)
      → s ≢ landing c side
      → s ≢ rook_home c side
      → s ≢ rook_target c side
      → nibble_at a s ≡ nibble_at p s
  pub left : nibble_at a (from_fr 4 (home_rank c)) ≡ 0
  pub rook_left : nibble_at a (rook_home c side) ≡ 0

module _ (p a : Position) (c : Colour) (side : Bool) (g : Agree p a c side) where
  still_empty :
      (s : ℕ)
      → s < 64
      → s ≢ landing c side
      → s ≢ rook_target c side
      → nibble_at p s ≡ 0
      → nibble_at a s ≡ 0
  still_empty s l m n e = elim (ℕ_discrete s (from_fr 4 (home_rank c))) [
    | yes x ↦ rw x g.left
    | no x ↦ elim (ℕ_discrete s (rook_home c side)) [
      | yes y ↦ rw y g.rook_left
      | no y ↦ g.elsewhere s l x m y n ∙ e
    ]
  ]

  still_clear :
      (xs : List ℕ)
      → all (λ s. ltb s 64 && ((s != landing c side) && (s != rook_target c side))) xs ≡ true
      → all (is_empty p) xs ≡ true
      → all (is_empty a) xs ≡ true
  still_clear [] h k = refl
  still_clear (x ∷ xs) h k =
      let u = &&_true (ltb x 64 && ((x != landing c side) && (x != rook_target c side))) _ h in
      let v = &&_true (ltb x 64) _ u.0 in
      let w = &&_true (x != landing c side) (x != rook_target c side) v.1 in
      let t = &&_true (is_empty p x) (all (is_empty p) xs) k in
      let z =
        still_empty x (ltb→lt x 64 v.0) (apart x _ w.0) (apart x _ w.1) ((==_iff _ 0).0 t.0) in
      rw ((==_iff (nibble_at a x) 0).1 z) (still_clear xs u.1 t.1)
    where
      apart : (x y : ℕ) → (x != y) ≡ true → x ≢ y
      apart x y h e = ground arith

not_through :
    (p : Position) (k : ℕ) (xs : List ℕ)
    → all (is_empty p) xs ≡ true
    → any (λ s. s == k) xs ≡ true
    → nibble_at p k ≡ 0
not_through p k [] h t = cc
not_through p k (x ∷ xs) h t =
    let u = &&_true (is_empty p x) (all (is_empty p) xs) h in
    elim (Bool-cases (x == k)) [
      | inl e ↦ rw (← ((==_iff x k).0 e)) ((==_iff _ 0).0 u.0)
      | inr e ↦ not_through p k xs u.1 (rw e at t)
    ]

-- A clear line to the landing square from elsewhere stays clear.
line_stays :
    (p a : Position) (c : Colour) (side : Bool) (by : ℕ)
    → Agree p a c side
    → by < 64
    → nibble_at p (from_fr 4 (home_rank c)) ≢ 0
    → by ≢ from_fr 4 (home_rank c)
    → all (is_empty p) (ray_squares by (landing c side)) ≡ true
    → all (is_empty a) (ray_squares by (landing c side)) ≡ true
line_stays p a c side by g l k n h =
    let t = every_below_lem 64 (line_fits c side) (lines_fit c side) by l in
    elim (Bool-cases (
      all (λ s. ltb s 64 && ((s != landing c side) && (s != rook_target c side)))
        (ray_squares by (landing c side)))) [
          | inl e ↦ still_clear p a c side g (ray_squares by (landing c side)) e h
          | inr e ↦ elim (Bool-cases (by == from_fr 4 (home_rank c))) [
            | inl f ↦ absurd (n ((==_iff by _).0 f))
            | inr f ↦
                absurd (k (not_through p _ (ray_squares by (landing c side)) h (rw (e, f) at t)))
          ]
        ]

abbrev slides : ℕ → Bool
slides n = leb 3 (kind_of n) && leb (kind_of n) 5

not_both : (n : ℕ) (c : Colour) → is_own n c ≡ true → is_enemy n c ≡ true → ⊥
not_both n c h k = ground arith

not_empty : (n : ℕ) (c : Colour) → is_enemy n c ≡ true → n ≢ 0
not_empty n c h e = ground arith

own_not_empty : (n : ℕ) (c : Colour) → is_own n c ≡ true → n ≢ 0
own_not_empty n c h e = ground arith

attack_cases :
    (p : Position) (c : Colour) (by sq : ℕ)
    → is_enemy (nibble_at p by) c ≡ true
    → attack_shape (nibble_at p by) by sq ≡ true
    → attacks_square p c by sq
      ≡ (if slides (nibble_at p by) then all (is_empty p) (ray_squares by sq) else true)
unfolding attacks_square
attack_cases p c by sq e s = elim (Bool-cases (slides (nibble_at p by))) [
  | inl t ↦ rw (e, s, attacks_square, t) (slider_ray p (nibble_at p by) by sq s t)
  | inr t ↦ rw (e, s, attacks_square, t) refl
]

-- The landing square is attacked after the move if it was before.
pub landing_unattacked :
    (p a : Position) (c : Colour) (side : Bool) (by : ℕ)
    → Agree p a c side
    → by < 64
    → is_own (nibble_at p (from_fr 4 (home_rank c))) c ≡ true
    → is_own (nibble_at p (rook_home c side)) c ≡ true
    → nibble_at p (landing c side) ≡ 0
    → nibble_at p (rook_target c side) ≡ 0
    → attacks_square a c by (landing c side) ≡ false
    → attacks_square p c by (landing c side) ≡ false
unfolding attacks_square
landing_unattacked p a c side by g l k r t u h = elim (Bool-cases (is_enemy (nibble_at p by) c)) [
  | inr e ↦ rw (e, attacks_square) refl
  | inl e ↦ elim (Bool-cases (attack_shape (nibble_at p by) by (landing c side))) [
    | inr s ↦ rw (e, s, attacks_square) refl
    | inl s ↦
        let n1 : by ≢ from_fr 4 (home_rank c) =
          λ x. not_both (nibble_at p by) c (rw (← x) at k) e in
        let n2 : by ≢ landing c side = λ x. not_empty (nibble_at p by) c e (rw (← x) at t) in
        let n3 : by ≢ rook_home c side = λ x. not_both (nibble_at p by) c (rw (← x) at r) e in
        let n4 : by ≢ rook_target c side = λ x. not_empty (nibble_at p by) c e (rw (← x) at u) in
        let same = g.elsewhere by l n1 n2 n3 n4 in
        let after = attack_cases a c by (landing c side) (rw same e) (rw same s) in
        attack_cases p c by (landing c side) e s ∙ by_slide n1 (rw same at (sym after ∙ h))
  ]
]
  where
    by_slide :
        by ≢ from_fr 4 (home_rank c)
        → (if slides (nibble_at p by)
            then all (is_empty a) (ray_squares by (landing c side))
            else true)
          ≡ false
        → (if slides (nibble_at p by)
            then all (is_empty p) (ray_squares by (landing c side))
            else true)
          ≡ false
    by_slide n x = elim (Bool-cases (slides (nibble_at p by))) [
      | inr y ↦ cc (rw y at x)
      | inl y ↦ elim (Bool-cases (all (is_empty p) (ray_squares by (landing c side)))) [
        | inr z ↦ rw (y, z) refl
        | inl z ↦ cc (line_stays p a c side by g l (own_not_empty _ c k) n z, rw y at x)
      ]
    ]
