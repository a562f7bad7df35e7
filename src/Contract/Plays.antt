-- ===== src/Contract/Plays.antt =====
-- Plays of a lawful contract on its bits: the trait Program of crates/contract/src/lib.rs.
use ln_gap.Prelude.{
  ℕ, ◌+◌, ◌≤◌, ◌<◌, ◌≡◌, refl, some, List, [], ◌∷◌, Bool, length, Result, ok, err, ◌>>=◌, >>=-eq-ok,
  arith,
}
use ln_gap.Contract.{Role, Contract, ProgramError, initial_bits, transition_bits, decode, judge}

-- What a contract promises the framework of its well-formed states.
pub record IsLawful {S M I E : Type 0} (c : Contract S M I E) : Type 1 where
  pub Valid : S → Type 0
  pub initial_valid : Valid c.initial
  pub transition_valid :
      (s s' : S) (m : M) (r : Role) → Valid s → c.transition s m r ≡ ok s' → Valid s'
  pub decodes : (s : S) → Valid s → c.state_from_bits (c.state_bits s) ≡ ok s
  pub deeper :
      (s s' : S) (m : M) (r : Role)
      → Valid s
      → c.transition s m r ≡ ok s'
      → c.max_depth_from s' < c.max_depth_from s
  pub on_turn :
      (s s' : S) (m : M) (r : Role) → Valid s → c.transition s m r ≡ ok s' → c.turn s ≡ some r

module _ {S M I E : Type 0} (c : Contract S M I E) where
  -- A sequence of moves on bits, each with its mover.
  unfoldable pub play_bits :
      List Bool → List (List Bool × Role) → Result (ProgramError I E) (List Bool)
  play_bits s [] = ok s
  play_bits s ((m, r) ∷ ms) = do next ← transition_bits c s m r; play_bits next ms

  -- The bits spell a well-formed state with at least `n` moves less to go than the bound.
  abbrev pub Spells : IsLawful c → List Bool → ℕ → ℕ → Type 0
  Spells law b bound n =
      (s : S) × law.Valid s × (b ≡ c.state_bits s) × (n + c.max_depth_from s ≤ bound)

  module _ (law : IsLawful c) where
    transition_bits_step :
        (s : S) (m : List Bool) (r : Role) (b : List Bool)
        → law.Valid s
        → transition_bits c (c.state_bits s) m r ≡ ok b
        → (s' : S) × law.Valid s'
          × (b ≡ c.state_bits s')
          × (c.max_depth_from s' < c.max_depth_from s)
          × (c.turn s ≡ some r)
    unfolding transition_bits
    transition_bits_step s m r b v h = moved (c.move_from_bits m) (rw (law.decodes s v) at h)
      where
        finish :
            (mv : M) (t : Result I S)
            → c.transition s mv r ≡ t
            → (judge c t >>= λ next. ok (c.state_bits next)) ≡ ok b
            → (s' : S) × law.Valid s'
              × (b ≡ c.state_bits s')
              × (c.max_depth_from s' < c.max_depth_from s)
              × (c.turn s ≡ some r)
        finish mv (ok s') e k = (
          s',
          law.transition_valid s s' mv r v e,
          cc,
          law.deeper s s' mv r v e,
          law.on_turn s s' mv r v e,
        )
        finish mv (err i) e k = cc

        moved :
            (m' : Result E M)
            → (decode c m' >>= λ mv.
                judge c (c.transition s mv r) >>= λ next. ok (c.state_bits next))
              ≡ ok b
            → (s' : S) × law.Valid s'
              × (b ≡ c.state_bits s')
              × (c.max_depth_from s' < c.max_depth_from s)
              × (c.turn s ≡ some r)
        moved (ok mv) k = finish mv (c.transition s mv r) refl k
        moved (err e) k = cc

    play_from :
        (s : S) (ms : List (List Bool × Role)) (b : List Bool)
        → law.Valid s
        → play_bits (c.state_bits s) ms ≡ ok b
        → Spells law b (c.max_depth_from s) (length ms)
    unfolding play_bits
    play_from s [] b v h = (s, v, cc, omega arith)
    play_from s ((m, r) ∷ ms) b v h =
        let (bits, stepped, rest) =
          >>=-eq-ok (transition_bits c (c.state_bits s) m r) (λ next. play_bits next ms) h in
        let (s', v', spelled, less, turn) = transition_bits_step s m r bits v stepped in
        let (s'', v'', last, bound) = play_from s' ms b v' (rw spelled at rest) in
        (s'', v'', last, omega arith)

    -- Whatever moves are played on bits from the initial state, the result spells a well-formed
    -- state, and there are no more moves than the contract's depth bound.
    pub play_bits_bounded :
        (ms : List (List Bool × Role)) (b : List Bool)
        → play_bits (initial_bits c) ms ≡ ok b
        → Spells law b (c.max_depth_from c.initial) (length ms)
    unfolding initial_bits
    play_bits_bounded ms b h = play_from c.initial ms b law.initial_valid h
