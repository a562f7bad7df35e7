-- ===== src/Chess/Movegen.antt =====
-- crates/apps/chess/src/movegen.rs: the legal moves of a position.
use ln_gap.Prelude.{
  ℕ, zero, suc, ◌+◌, Bool, true, false, Option, none, some, List, [], ◌∷◌, ◌++◌, map, length, ◌==◌,
  if◌then◌else◌, ok, err, ℤ, pos, negsuc,
}
use ln_gap.Chess.Square.{rank, offset, all_squares}
use ln_gap.Chess.Piece.{
  Colour, forward, pawn_rank, last_rank, PieceType, pawn, knight, bishop, rook, queen, king, Piece,
}
use ln_gap.Chess.Move.{Move}
use ln_gap.Chess.Position.{Position, piece_at, is_empty, holds}
use ln_gap.Chess.Attack.{in_check}
use ln_gap.Chess.Rules.{apply}
use ln_gap.Chess.Classify.{double_forward, step_rank}

abbrev pub knight_steps : List (ℤ × ℤ)
knight_steps =
    (pos 1, pos 2)
    ∷ ((pos 2, pos 1)
        ∷ ((pos 2, negsuc 0)
            ∷ ((pos 1, negsuc 1)
                ∷ ((negsuc 0, negsuc 1)
                    ∷ ((negsuc 1, negsuc 0) ∷ ((negsuc 1, pos 1) ∷ ((negsuc 0, pos 2) ∷ [])))))))

abbrev pub king_steps : List (ℤ × ℤ)
king_steps =
    (pos 0, pos 1)
    ∷ ((pos 1, pos 1)
        ∷ ((pos 1, pos 0)
            ∷ ((pos 1, negsuc 0)
                ∷ ((pos 0, negsuc 0)
                    ∷ ((negsuc 0, negsuc 0) ∷ ((negsuc 0, pos 0) ∷ ((negsuc 0, pos 1) ∷ [])))))))

abbrev pub bishop_steps : List (ℤ × ℤ)
bishop_steps =
    (pos 1, pos 1) ∷ ((pos 1, negsuc 0) ∷ ((negsuc 0, negsuc 0) ∷ ((negsuc 0, pos 1) ∷ [])))

abbrev pub rook_steps : List (ℤ × ℤ)
rook_steps = (pos 0, pos 1) ∷ ((pos 1, pos 0) ∷ ((pos 0, negsuc 0) ∷ ((negsuc 0, pos 0) ∷ [])))

abbrev pub promotions : List PieceType
promotions = queen ∷ (rook ∷ (bishop ∷ (knight ∷ [])))

abbrev pub plain : ℕ → ℕ → Move
plain from to = record { from = from; to = to; promotion = none }

abbrev pub option_list {ℓ} : {A : Type ℓ} → Option A → List A
option_list none = []
option_list (some a) = a ∷ []

-- The `while` of `slide`, from `s` on; a line leaves the board within eight rounds.
unfoldable pub slide_from : ℕ → Position → ℕ → ℕ → ℤ → ℤ → List Move
slide_from zero p from s df dr = []
slide_from (suc rounds) p from s df dr = elim (offset s df dr) [
  | none ↦ []
  | some t ↦
      let rest = slide_from rounds p from t df dr in
      plain from t ∷ (if is_empty p t then rest else [])
]

unfoldable pub slide : Position → ℕ → List (ℤ × ℤ) → List Move
unfolding slide_from
slide p from [] = []
slide p from ((df, dr) ∷ dirs) = slide_from 8 p from from df dr ++ slide p from dirs

unfoldable pub steps : ℕ → List (ℤ × ℤ) → List Move
steps from [] = []
steps from ((df, dr) ∷ dirs) = map (plain from) (option_list (offset from df dr)) ++ steps from dirs

unfoldable pub pawn_targets : Colour → ℕ → List ℕ
pawn_targets us from =
    elim (offset from (pos 0) (forward us)) [
      | none ↦ []
      | some t ↦
          t ∷ (if rank from == pawn_rank us then step_rank from (double_forward us) ∷ [] else [])
    ]
    ++ (option_list (offset from (negsuc 0) (forward us))
        ++ option_list (offset from (pos 1) (forward us)))

unfoldable pub pawn_moves : Colour → ℕ → List ℕ → List Move
pawn_moves us from [] = []
pawn_moves us from (t ∷ ts) =
    (if rank t == last_rank us
      then map (λ k. record { from = from; to = t; promotion = some k }) promotions
      else plain from t ∷ [])
    ++ pawn_moves us from ts

unfoldable pub piece_moves : Position → ℕ → Piece → List Move
unfolding slide steps pawn_targets pawn_moves
piece_moves p from piece = elim piece.kind [
  | pawn ↦ pawn_moves p.side from (pawn_targets p.side from)
  | knight ↦ steps from knight_steps
  | bishop ↦ slide p from bishop_steps
  | rook ↦ slide p from rook_steps
  | queen ↦ slide p from bishop_steps ++ slide p from rook_steps
  | king ↦ steps from king_steps ++ steps from ((pos 2, pos 0) ∷ ((negsuc 1, pos 0) ∷ []))
]

-- `pieces_of` the side to move, on the squares given.
unfoldable pub candidates_on : Position → List ℕ → List Move
unfolding piece_moves
candidates_on p [] = []
candidates_on p (sq ∷ sqs) =
    let rest = candidates_on p sqs in
    elim (piece_at p sq) [
      | none ↦ rest
      | some piece ↦ if holds p p.side sq then piece_moves p sq piece ++ rest else rest
    ]

unfoldable pub candidates : Position → List Move
unfolding candidates_on
candidates p = candidates_on p all_squares

-- The `filter_map` of `legal_moves_with`.
unfoldable pub applied : Position → List Move → List (Move × Position)
applied p [] = []
applied p (m ∷ ms) =
    let rest = applied p ms in elim (apply p m) [ ok n ↦ (m, n) ∷ rest | err v ↦ rest ]

unfoldable pub legal_moves_with : Position → List (Move × Position)
unfolding candidates applied
legal_moves_with p = applied p (candidates p)

unfoldable pub legal_moves : Position → List Move
unfolding legal_moves_with
legal_moves p = map (λ m. m.0) (legal_moves_with p)

unfoldable pub total_of : (Position → ℕ) → List (Move × Position) → ℕ
total_of count [] = 0
total_of count ((m, n) ∷ ms) = count n + total_of count ms

-- A `u64` count, which no game reaches.
unfoldable pub perft : ℕ → Position → ℕ
unfolding legal_moves_with total_of
perft zero p = 1
perft (suc zero) p = length (legal_moves_with p)
perft (suc (suc depth)) p = total_of (perft (suc depth)) (legal_moves_with p)

pub data Terminal : Type 0 where
  checkmate stalemate : Terminal

abbrev pub is_nil {ℓ} : {A : Type ℓ} → List A → Bool
is_nil [] = true
is_nil (x ∷ xs) = false

-- `terminal` of crates/apps/chess/src/rules.rs
unfoldable pub terminal : Position → Option Terminal
unfolding legal_moves
terminal p =
    if is_nil (legal_moves p)
    then (if in_check p p.side then some checkmate else some stalemate)
    else none
