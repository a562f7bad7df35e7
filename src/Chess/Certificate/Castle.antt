-- ===== src/Chess/Certificate/Castle.antt =====
-- The squares of a castling move: `castle` of crates/apps/chess/src/rules.rs.
use ln_gap.Prelude.{
  ℕ, ◌<◌, ◌≡◌, refl, inl, inr, Bool, true, false, not, none, arith, ◌==◌, List, [], ◌∷◌, first, All,
  if◌then◌else◌, Bool-cases, ==_iff, &&_true, abs,
}
use ln_gap.Chess.Square.{
  from_fr, rank_diff, file_diff, between, between_rounds, between_from, direction, aligned, offset,
}
use ln_gap.Chess.Piece.{Colour, white, black, home_rank, king, Piece, kind_eq}
use ln_gap.Chess.Move.{Move}
use ln_gap.Chess.Position.{Position, nibble_at, is_empty}
use ln_gap.Chess.Classify.{Kind, rook_home, is_positive}
use ln_gap.Chess.Rules.Legal.{IsOnBoard}
use ln_gap.Chess.Rules.Classify.{CastleMove, IsClear}

pub first-none-All :
    (p : Position) (xs : List ℕ)
    → first (λ s. not (is_empty p s)) xs ≡ none
    → All (λ s. nibble_at p s ≡ 0) xs
first-none-All p [] h = tt
first-none-All p (x ∷ xs) h = elim (Bool-cases (is_empty p x)) [
  | inl e ↦ ((==_iff (nibble_at p x) 0).0 e, first-none-All p xs (rw (e, first) at h))
  | inr e ↦ cc (rw (e, first) at h)
]

-- The squares between a king at home and its rook.
abbrev pub castle_squares : Colour → Bool → List ℕ
castle_squares c true = from_fr 5 (home_rank c) ∷ (from_fr 6 (home_rank c) ∷ [])
castle_squares c false =
    from_fr 3 (home_rank c) ∷ (from_fr 2 (home_rank c) ∷ (from_fr 1 (home_rank c) ∷ []))

pub castle_between :
    (c : Colour) (kingside : Bool)
    → between (from_fr 4 (home_rank c)) (rook_home c kingside) ≡ castle_squares c kingside
unfolding between between_rounds between_from direction aligned offset
castle_between white true = refl
castle_between white false = refl
castle_between black true = refl
castle_between black false = refl

path_empty :
    (p : Position) (a : ℕ) (c : Colour) (kingside : Bool)
    → a ≡ from_fr 4 (home_rank c)
    → IsClear p a (rook_home c kingside)
    → All (λ s. nibble_at p s ≡ 0) (castle_squares c kingside)
path_empty p a c kingside e h =
    let f = first-none-All p (between a (rook_home c kingside)) h in
    rw (e, castle_between c kingside) at f

pub castle_to :
    (a b : ℕ) (c : Colour)
    → a ≡ from_fr 4 (home_rank c)
    → b < 64
    → abs (rank_diff a b) ≡ 0
    → abs (file_diff a b) ≡ 2
    → b ≡ from_fr (if is_positive (file_diff a b) then 6 else 2) (home_rank c)
castle_to a b white e h r f = ground arith
castle_to a b black e h r f = ground arith

module _ (p : Position) (mv : Move) (o : IsOnBoard mv) (q : Piece) (k : Kind)
    (m : CastleMove p mv q k) where
  abbrev kingside : Bool
  kingside = is_positive (file_diff mv.from mv.to)

  pub castle_from : mv.from ≡ from_fr 4 (home_rank q.colour)
  castle_from = (==_iff mv.from (from_fr 4 (home_rank q.colour))).0 m.home

  pub castle_shape : (abs (rank_diff mv.from mv.to) ≡ 0) × (abs (file_diff mv.from mv.to) ≡ 2)
  castle_shape =
      let a = &&_true (kind_eq q.kind king) _ m.castles in
      let b =
        &&_true (abs (rank_diff mv.from mv.to) == 0) (abs (file_diff mv.from mv.to) == 2) a.1 in
      ((==_iff _ 0).0 b.0, (==_iff _ 2).0 b.1)

  pub castle_king : kind_eq q.kind king ≡ true
  castle_king = (&&_true (kind_eq q.kind king) _ m.castles).0

  pub castle_target : mv.to ≡ from_fr (if kingside then 6 else 2) (home_rank q.colour)
  castle_target = castle_to mv.from mv.to q.colour castle_from o.to castle_shape.0 castle_shape.1

  pub castle_path : All (λ s. nibble_at p s ≡ 0) (castle_squares q.colour kingside)
  castle_path = path_empty p mv.from q.colour kingside castle_from m.clear

  -- The square that a castling king moves to is empty.
  pub castle_target_empty : nibble_at p mv.to ≡ 0
  castle_target_empty = elim (Bool-cases kingside) [
    | inl e ↦ rw castle_target (rw e (rw e at castle_path).1.0)
    | inr e ↦ rw castle_target (rw e (rw e at castle_path).1.0)
  ]
