-- ===== src/Chess/Certificate/Squares.antt =====
-- The board after a legal move is the one the certificate expects: certificate.rs against rules.rs of
-- crates/apps/chess.
use ln_gap.Prelude.{
  ℕ, ◌<◌, ◌≡◌, ◌≢◌, refl, sym, ap, ◌∙◌, inl, inr, Bool, true, false, not, ◌&&◌, none, some, arith,
  ◌==◌, ◌!=◌, if◌then◌else◌, Bool-cases, ok, abs, length,
}
use ln_gap.Chess.Square.{from_fr, file_diff}
use ln_gap.Chess.Piece.{
  Colour, white, black, home_rank, PieceType, pawn, rook, Piece, piece_code, kind_eq, kind_of,
  nibble,
}
use ln_gap.Chess.Move.{Move}
use ln_gap.Chess.Position.{Position, nibble_at, piece_at, is_empty, put_piece}
use ln_gap.Chess.Position.Bytes.{IsPosition}
use ln_gap.Chess.Rules.{move_board, placed_piece, successor}
use ln_gap.Chess.Classify.{
  Kind, normal, capture, double_push, en_passant, castle_kind, is_some, pawn_kind, rook_home,
  rook_target, is_positive, backward, step_rank,
}
use ln_gap.Chess.Rules.Legal.{IsOnBoard}
use ln_gap.Chess.Rules.Ranges.{step_rank-lt}
use ln_gap.Chess.Rules.Classify.{PawnMove, CastleMove, PieceMove}
use ln_gap.Chess.Certificate.{Shape, shape, expected_nibble, check}
use ln_gap.Chess.Challenges.{is_own, board}
use ln_gap.Chess.Certificate.Pieces.{Shows, nibble_at-IsNibble}
use ln_gap.Chess.Certificate.Mover.{Moves, shape_kind_of}
use ln_gap.Chess.Certificate.Fields.{same_ne}
use ln_gap.Chess.Certificate.Shapes.{free_target}
use ln_gap.Chess.Certificate.Castle.{castle_from, castle_target}
use ln_gap.Chess.Certificate.Safety.{no_king, shape_castling, piece_is-nibble, rook_target-lt}
use ln_gap.Chess.Certificate.Board.{
  is_en_passant, put_piece-nibble_at, put_piece-size, Shows-nibble, moved_cell, moved_size,
  expected_plain, expected_en_passant, expected_castle, pawn_plain, pawn_passing, passed_elsewhere,
}

pub shape_ep_of :
    (p : Position) (mv : Move) (q : Piece)
    → Shows (nibble_at p mv.from) q
    → q.colour ≡ p.side
    → (shape p mv).ep_capture
      ≡ (kind_eq q.kind pawn && ((abs (file_diff mv.from mv.to) != 0) && is_empty p mv.to))
unfolding shape
shape_ep_of p mv q s c = rw (shape_kind_of p mv q s c) refl

shape_ep :
    (p n : Position) (mv : Move) (q : Piece) (k : Kind)
    → Moves p n mv q k
    → (shape p mv).ep_capture
      ≡ (kind_eq q.kind pawn && ((abs (file_diff mv.from mv.to) != 0) && is_empty p mv.to))
shape_ep p n mv q k m = shape_ep_of p mv q m.shows m.own

no_pawn_castle :
    (p : Position) (a b f t : ℕ) (us : Colour) (occupied : Bool)
    → pawn_kind p a b us occupied ≡ ok (castle_kind f t)
    → ⊥
unfolding pawn_kind
no_pawn_castle p a b f t us occupied h = ground arith

pub not_ne : (n : ℕ) → not (n != 0) ≡ (n == 0)
not_ne n = ground arith

-- En passant and castling, after the two steps that every move makes.
passing_cells :
    (p : Position) (mv : Move) (s : Shape) (q : Piece) (sq c : ℕ)
    → length p.board ≡ 64
    → IsOnBoard mv
    → c < 64
    → nibble q ≡ nibble_at p mv.from
    → s.castling ≡ false
    → s.ep_capture ≡ true
    → s.ep_captured ≡ c
    → mv.to ≢ c
    → nibble_at (move_board p mv q (en_passant c)) sq ≡ expected_nibble p mv s sq
unfolding move_board
passing_cells p mv s q sq c h o l e f g i ne =
    put_piece-nibble_at _ c sq none (moved_size p mv q h) l
    ∙ ap (λ x. if sq == c then 0 else x) (moved_cell p mv q sq h o)
    ∙ sym (expected_en_passant p mv s q sq c e f g i ne)

castle_cells :
    (p : Position) (mv : Move) (s : Shape) (q : Piece) (sq a b : ℕ)
    → length p.board ≡ 64
    → IsOnBoard mv
    → (a < 64) × (b < 64)
    → nibble q ≡ nibble_at p mv.from
    → (s.castling ≡ true) × (s.ep_capture ≡ false)
    → s.rook_from ≡ a
    → s.rook_to ≡ b
    → (mv.to ≢ a) × (mv.to ≢ b) × (mv.from ≢ b) × (a ≢ b)
    → nibble (record { colour = q.colour; kind = rook }) ≡ nibble_at p a
    → nibble_at (move_board p mv q (castle_kind a b)) sq ≡ expected_nibble p mv s sq
unfolding move_board
castle_cells p mv s q sq a b h o l e f i j ne r =
    put_piece-nibble_at _ b sq (some (record { colour = q.colour; kind = rook }))
      (put_piece-size _ a none ∙ moved_size p mv q h) l.1
    ∙ ap (λ x. if sq == b then nibble (record { colour = q.colour; kind = rook }) else x)
        (put_piece-nibble_at _ a sq none (moved_size p mv q h) l.0
          ∙ ap (λ x. if sq == a then 0 else x) (moved_cell p mv q sq h o))
    ∙ rw r (sym (expected_castle p mv s q sq a b e f i j ne))

-- The squares of castling differ from each other.
pub castle_apart :
    (c : Colour) (kingside : Bool) (a b : ℕ)
    → a ≡ from_fr 4 (home_rank c)
    → b ≡ from_fr (if kingside then 6 else 2) (home_rank c)
    → (b ≢ rook_home c kingside)
      × (b ≢ rook_target c kingside)
      × (a ≢ rook_target c kingside)
      × (rook_home c kingside ≢ rook_target c kingside)
castle_apart white true a b e f = ground arith
castle_apart white false a b e f = ground arith
castle_apart black true a b e f = ground arith
castle_apart black false a b e f = ground arith

pub rook_home-lt : (c : Colour) (kingside : Bool) → rook_home c kingside < 64
rook_home-lt white true = omega arith
rook_home-lt white false = omega arith
rook_home-lt black true = omega arith
rook_home-lt black false = omega arith

own_nibble :
    (n : ℕ) (c : Colour) (k : PieceType)
    → n < 16
    → is_own n c ≡ true
    → kind_of n ≡ piece_code k
    → nibble (record { colour = c; kind = k }) ≡ n
unfolding nibble
own_nibble n c k l h e = ground arith

module _ (p n : Position) (mv : Move) (q : Piece) (h : IsPosition p) (o : IsOnBoard mv)
    (sq : ℕ) where
  mover_nibble : (k : Kind) → Moves p n mv q k → nibble q ≡ nibble_at p mv.from
  mover_nibble k m =
      Shows-nibble (nibble_at p mv.from) q (nibble_at-IsNibble p mv.from h.nibbles).0 m.shows

  plain_board :
      (k : Kind)
      → Moves p n mv q k
      → (shape p mv).castling ≡ false
      → (shape p mv).ep_capture ≡ false
      → nibble_at
          (put_piece (put_piece p mv.from none) mv.to (some (placed_piece q mv.promotion)))
          sq
        ≡ expected_nibble p mv (shape p mv) sq
  plain_board k m c e =
      moved_cell p mv q sq h.size o
      ∙ sym (expected_plain p mv (shape p mv) q sq (mover_nibble k m) c e)

  pawn_ep :
      (k : Kind)
      → Moves p n mv q k
      → PawnMove p mv q k
      → is_en_passant k ≡ false
      → (shape p mv).ep_capture ≡ false
  pawn_ep k m a e =
      shape_ep p n mv q k m
      ∙ rw a.is_pawn (
          rw ((free_target p mv.to q.colour h m.free).1, not_ne (nibble_at p mv.to)) at
            (pawn_plain p mv.from mv.to q.colour _ k a.moves e))

  pawn_stays : (k : Kind) → Moves p n mv q k → PawnMove p mv q k → (shape p mv).castling ≡ false
  pawn_stays k m a = shape_castling p n mv q k m ∙ no_king q.kind mv.from mv.to a.is_pawn

  pawn_board :
      (k : Kind)
      → Moves p n mv q k
      → PawnMove p mv q k
      → nibble_at (move_board p mv q k) sq ≡ expected_nibble p mv (shape p mv) sq
  unfolding move_board shape
  pawn_board normal m a = plain_board normal m (pawn_stays normal m a) (pawn_ep normal m a refl)
  pawn_board capture m a = plain_board capture m (pawn_stays capture m a) (pawn_ep capture m a refl)
  pawn_board double_push m a =
      plain_board double_push m (pawn_stays double_push m a) (pawn_ep double_push m a refl)
  pawn_board (castle_kind f t) m a = absurd (no_pawn_castle p mv.from mv.to f t q.colour _ a.moves)
  pawn_board (en_passant c) m a =
      let z = pawn_passing p mv.from mv.to c q.colour _ a.moves in
      let y = rw ((free_target p mv.to q.colour h m.free).1, not_ne (nibble_at p mv.to)) at z.0 in
      let l : c < 64 = rw z.1 (step_rank-lt mv.to (backward q.colour) o.to) in
      passing_cells p mv (shape p mv) q sq c h.size o l (mover_nibble (en_passant c) m)
        (pawn_stays (en_passant c) m a) (shape_ep p n mv q (en_passant c) m ∙ rw a.is_pawn y)
        (ap (λ x. step_rank mv.to (backward x)) (sym m.own) ∙ sym z.1)
        (passed_elsewhere p mv.from mv.to c q.colour _ o.from o.to a.moves)

  piece_board :
      (k : Kind)
      → Moves p n mv q k
      → PieceMove p mv q k
      → nibble_at (move_board p mv q k) sq ≡ expected_nibble p mv (shape p mv) sq
  unfolding move_board
  piece_board k m a =
      let c = shape_castling p n mv q k m ∙ a.no_castling in
      let e = shape_ep p n mv q k m ∙ rw a.not_pawn refl in
      let b = plain_board k m c e in
      elim (Bool-cases (is_some (piece_at p mv.to))) [
        | inl t ↦ rw (a.kind, t, move_board) b
        | inr t ↦ rw (a.kind, t, move_board) b
      ]

  castle_board :
      (k : Kind)
      → Moves p n mv q k
      → CastleMove p mv q k
      → nibble_at (move_board p mv q k) sq ≡ expected_nibble p mv (shape p mv) sq
  unfolding move_board shape
  castle_board k m c =
      let side = is_positive (file_diff mv.from mv.to) in
      let r = piece_is-nibble p (rook_home q.colour side) q.colour rook h c.rook in
      let v = nibble_at-IsNibble p (rook_home q.colour side) h.nibbles in
      rw c.kind (
        castle_cells p mv (shape p mv) q sq (rook_home q.colour side) (rook_target q.colour side)
          h.size o (rook_home-lt q.colour side, rook_target-lt q.colour side) (mover_nibble k m)
          (shape_castling p n mv q k m ∙ c.castles, shape_ep p n mv q k m ∙ rw c.not_pawn refl)
          (ap (λ x. rook_home x side) (sym m.own)) (ap (λ x. rook_target x side) (sym m.own))
          (castle_apart q.colour side mv.from mv.to (castle_from p mv o q k c)
            (castle_target p mv o q k c))
          (own_nibble (nibble_at p (rook_home q.colour side)) q.colour rook v.0 r.0 r.1))

-- The board after a legal move is the expected one.
pub board_unchallenged :
    (p n : Position) (mv : Move) (q : Piece) (k : Kind) (sq : ℕ)
    → IsPosition p
    → IsOnBoard mv
    → Moves p n mv q k
    → check p mv n (board sq) ≡ false
unfolding check successor
board_unchallenged p n mv q k sq h o m = same_ne _ _ (
    rw m.next (elim m.way [
      | inl a ↦ pawn_board p n mv q h o sq k m a
      | inr (inl c) ↦ castle_board p n mv q h o sq k m c
      | inr (inr a) ↦ piece_board p n mv q h o sq k m a
    ]))
