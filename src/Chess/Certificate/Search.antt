-- ===== src/Chess/Certificate/Search.antt =====
-- The search over the challenge space: `find` of crates/apps/chess/src/certificate.rs.
use ln_gap.Prelude.{
  ℕ, zero, suc, ◌+◌, ◌≤◌, ◌<◌, ◌≡◌, refl, Bool, true, false, none, arith, List, [], ◌∷◌, ◌++◌, map,
  first, range_from, Bool-cases, inl, inr, ℕ_discrete,
}
use ln_gap.Chess.Square.{all_squares}
use ln_gap.Chess.Challenges.{
  Challenge, mover, destination, promotion, castling, side, castling_field, ep_field, clock,
  move_number, ray, castling_attacked, king_attacked, board, pairs, castling_pairs, all_challenges,
}

module _ (f : Challenge → Bool) where
  first-append :
      (xs ys : List Challenge) → first f xs ≡ none → first f ys ≡ none → first f (xs ++ ys) ≡ none
  first-append [] ys h k = k
  first-append (x ∷ xs) ys h k = elim (Bool-cases (f x)) [
    | inl e ↦ cc (rw e at h)
    | inr e ↦ rw e (first-append xs ys (rw e at h) k)
  ]

  first-map :
      (g : ℕ → Challenge) (a n : ℕ)
      → ((k : ℕ) → a ≤ k → k < a + n → f (g k) ≡ false)
      → first f (map g (range_from a n)) ≡ none
  first-map g a zero h = refl
  first-map g a (suc n) h =
      rw (h a (omega arith) (omega arith))
        (first-map g (suc a) n (λ k x y. h k (omega arith) (omega arith)))

  first-castling_pairs :
      (a n : ℕ)
      → ((c : Bool) (k : ℕ) → a ≤ k → k < a + n → f (castling_attacked c k) ≡ false)
      → first f (castling_pairs (range_from a n)) ≡ none
  first-castling_pairs a zero h = refl
  first-castling_pairs a (suc n) h =
      rw (h false a (omega arith) (omega arith), h true a (omega arith) (omega arith))
        (first-castling_pairs (suc a) n (λ c k x y. h c k (omega arith) (omega arith)))

  first-pairs :
      (a n b m : ℕ)
      → ((k j : ℕ) → a ≤ k → k < a + n → b ≤ j → j < b + m → f (king_attacked k j) ≡ false)
      → first f (pairs (range_from a n) (range_from b m)) ≡ none
  first-pairs a zero b m h = refl
  first-pairs a (suc n) b m h =
      first-append (map (king_attacked a) (range_from b m)) _
        (first-map (king_attacked a) b m (λ j x y. h a j (omega arith) (omega arith) x y))
        (first-pairs (suc a) n b m (λ k j x y z w. h k j (omega arith) (omega arith) z w))

-- A test that fails on every challenge.
pub record FailsAll (f : Challenge → Bool) : Type 0 where
  pub mover : f mover ≡ false
  pub destination : f destination ≡ false
  pub promotion : f promotion ≡ false
  pub castling : f castling ≡ false
  pub side : f side ≡ false
  pub castling_field : f castling_field ≡ false
  pub ep_field : f ep_field ≡ false
  pub clock : f clock ≡ false
  pub move_number : f move_number ≡ false
  pub rays : (j : ℕ) → 1 ≤ j → j < 7 → f (ray j) ≡ false
  pub boards : (sq : ℕ) → sq < 64 → f (board sq) ≡ false
  pub attacks : (c : Bool) (by : ℕ) → by < 64 → f (castling_attacked c by) ≡ false
  pub kings : (k by : ℕ) → k < 64 → by < 64 → f (king_attacked k by) ≡ false

pub FailsAll-none : (f : Challenge → Bool) → FailsAll f → first f all_challenges ≡ none
unfolding all_challenges
FailsAll-none f h =
    let d = pairs all_squares all_squares in
    let c = castling_pairs all_squares ++ d in
    let b = map board all_squares ++ c in
    let kings = first-pairs f 0 64 0 64 (λ k b x y z w. h.kings k b y w) in
    let attacks =
      first-append f (castling_pairs all_squares) d
        (first-castling_pairs f 0 64 (λ c b x y. h.attacks c b y)) kings in
    let boards =
      first-append f (map board all_squares) c (first-map f board 0 64 (λ s x y. h.boards s y))
        attacks in
    let k =
      first-append f (map ray (range_from 1 6)) b (first-map f ray 1 6 (λ j x y. h.rays j x y))
        boards in
    rw
      (
        h.mover, h.destination, h.promotion, h.castling, h.side, h.castling_field, h.ep_field,
        h.clock, h.move_number,
      )
      k

-- The converse: a search that finds nothing has tried everything.
module _ (f : Challenge → Bool) where
  append_parts :
      (xs ys : List Challenge)
      → first f (xs ++ ys) ≡ none
      → (first f xs ≡ none) × (first f ys ≡ none)
  append_parts [] ys h = (refl, h)
  append_parts (x ∷ xs) ys h = elim (Bool-cases (f x)) [
    | inl e ↦ cc (rw e at h)
    | inr e ↦ let r = append_parts xs ys (rw e at h) in (rw e r.0, r.1)
  ]

  tried :
      (x : Challenge) (xs : List Challenge)
      → first f (x ∷ xs) ≡ none
      → (f x ≡ false) × (first f xs ≡ none)
  tried x xs h = elim (Bool-cases (f x)) [ inl e ↦ cc (rw e at h) | inr e ↦ (e, rw e at h) ]

  map_tried :
      (g : ℕ → Challenge) (a n k : ℕ)
      → first f (map g (range_from a n)) ≡ none
      → a ≤ k
      → k < a + n
      → f (g k) ≡ false
  map_tried g a zero k h le lt = absurd (omega arith)
  map_tried g a (suc n) k h le lt =
      let r = tried (g a) (map g (range_from (suc a) n)) h in
      elim (ℕ_discrete a k) [
        | yes e ↦ rw (← e) r.0
        | no ne ↦ map_tried g (suc a) n k r.1 (omega arith) (omega arith)
      ]

  castling_tried :
      (a n : ℕ) (c : Bool) (k : ℕ)
      → first f (castling_pairs (range_from a n)) ≡ none
      → a ≤ k
      → k < a + n
      → f (castling_attacked c k) ≡ false
  castling_tried a zero c k h le lt = absurd (omega arith)
  castling_tried a (suc n) c k h le lt =
      let r =
        tried (castling_attacked false a)
          (castling_attacked true a ∷ castling_pairs (range_from (suc a) n)) h in
      let s = tried (castling_attacked true a) (castling_pairs (range_from (suc a) n)) r.1 in
      elim (ℕ_discrete a k) [
        | yes e ↦ rw (← e) (either c r.0 s.0)
        | no ne ↦ castling_tried (suc a) n c k s.1 (omega arith) (omega arith)
      ]
    where
      either :
          (c : Bool)
          → f (castling_attacked false a) ≡ false
          → f (castling_attacked true a) ≡ false
          → f (castling_attacked c a) ≡ false
      either true x y = y
      either false x y = x

  pairs_tried :
      (a n b m k j : ℕ)
      → first f (pairs (range_from a n) (range_from b m)) ≡ none
      → (a ≤ k) × (k < a + n)
      → (b ≤ j) × (j < b + m)
      → f (king_attacked k j) ≡ false
  pairs_tried a zero b m k j h x y = absurd (omega (arith, x.0, x.1))
  pairs_tried a (suc n) b m k j h x y =
      let r =
        append_parts (map (king_attacked a) (range_from b m))
          (pairs (range_from (suc a) n) (range_from b m)) h in
      elim (ℕ_discrete a k) [
        | yes e ↦ rw (← e) (map_tried (king_attacked a) b m j r.0 y.0 y.1)
        | no ne ↦
            pairs_tried (suc a) n b m k j r.1
              (let l = x.0 in omega arith, let u = x.1 in omega arith) y
      ]

  pub none-FailsAll : first f all_challenges ≡ none → FailsAll f
  unfolding all_challenges
  none-FailsAll h =
      let d = pairs all_squares all_squares in
      let c = castling_pairs all_squares ++ d in
      let b = map board all_squares ++ c in
      let l8 = map ray (range_from 1 6) ++ b in
      let l7 = move_number ∷ l8 in
      let l6 = clock ∷ l7 in
      let l5 = ep_field ∷ l6 in
      let l4 = castling_field ∷ l5 in
      let l3 = side ∷ l4 in
      let l2 = castling ∷ l3 in
      let l1 = promotion ∷ l2 in
      let r0 = tried mover (destination ∷ l1) h in
      let r1 = tried destination l1 r0.1 in
      let r2 = tried promotion l2 r1.1 in
      let r3 = tried castling l3 r2.1 in
      let r4 = tried side l4 r3.1 in
      let r5 = tried castling_field l5 r4.1 in
      let r6 = tried ep_field l6 r5.1 in
      let r7 = tried clock l7 r6.1 in
      let r8 = tried move_number l8 r7.1 in
      let p0 = append_parts (map ray (range_from 1 6)) b r8.1 in
      let p1 = append_parts (map board all_squares) c p0.1 in
      let p2 = append_parts (castling_pairs all_squares) d p1.1 in
      record {
        mover = r0.0;
        destination = r1.0;
        promotion = r2.0;
        castling = r3.0;
        side = r4.0;
        castling_field = r5.0;
        ep_field = r6.0;
        clock = r7.0;
        move_number = r8.0;
        rays = λ j x y. map_tried ray 1 6 j p0.0 x y;
        boards = λ s x. map_tried board 0 64 s p1.0 (omega arith) x;
        attacks = λ c by x. castling_tried 0 64 c by p2.0 (omega arith) x;
        kings = λ k by x y. pairs_tried 0 64 0 64 k by p2.1 (omega arith, x) (omega arith, y);
      }
