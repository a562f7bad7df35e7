-- ===== src/Contract.antt =====
-- crates/contract/src/lib.rs, with `Role` of crates/channel/src/lib.rs and `Claim` of
-- crates/contract/src/leaves.rs: what a contract is to the framework. The trait is a record over
-- its state and move types; `Program` is its view on bits.
pub mod Plays
pub mod Shares
use ln_gap.Prelude.{
  ℕ, ◌-◌, ◌/◌, Bool, true, false, Option, some, none, List, [], ◌∷◌, ◌==◌, if◌then◌else◌, any,
  Result, ok, err, ◌>>=◌,
}

pub data Role : Type 0 where
  user hub : Role

abbrev pub other : Role → Role
other user = hub
other hub = user

abbrev pub role_eq : Role → Role → Bool
role_eq user user = true
role_eq user hub = false
role_eq hub user = false
role_eq hub hub = true

pub data Payout : Type 0 where
  user_all hub_all even : Payout

-- `(user, hub)` shares of `v`.
unfoldable pub dist : Payout → ℕ → ℕ × ℕ
dist user_all v = (v, 0)
dist hub_all v = (0, v)
dist even v = let half : ℕ = v / 2 in (half, v - half)

unfoldable pub favours : Payout → Role → Bool
favours user_all user = true
favours hub_all hub = true
favours _ _ = false

-- An outcome without its name.
pub record Outcome : Type 0 where
  pub code : ℕ
  pub payout : Payout

-- What a Move claimed, decoded.
pub record Claim : Type 0 where
  pub prior : List Bool
  pub mv : List Bool
  pub new : List Bool
  pub code : ℕ
  pub mover : Role

-- A disprove leaf by its native check: true iff the claim is inconsistent in this way.
abbrev pub Leaf : Type 0
Leaf = Claim → Bool

abbrev pub disproved : List Leaf → Claim → Bool
disproved leaves c = any (λ leaf. leaf c) leaves

-- `Contract`, as far as the bit-level view uses it; `I` is the type of its invalid moves and `E`
-- of its decoding errors.
pub record Contract (S M I E : Type 0) : Type 0 where
  pub outcomes : List Outcome
  pub initial : S
  pub transition : S → M → Role → Result I S
  pub resolution : S → Outcome
  pub turn : S → Option Role
  pub max_depth_from : S → ℕ
  pub state_bits : S → List Bool
  pub state_from_bits : List Bool → Result E S
  pub move_bits : M → List Bool
  pub move_from_bits : List Bool → Result E M

-- The errors that the bit-level view passes on.
pub data ProgramError (I E : Type 0) : Type 0 where
  undecodable : E → ProgramError I E
  invalid : I → ProgramError I E

module _ {S M I E : Type 0} (c : Contract S M I E) where
  abbrev pub decode : {A : Type 0} → Result E A → Result (ProgramError I E) A
  decode (ok a) = ok a
  decode (err e) = err (undecodable e)

  abbrev pub judge : Result I S → Result (ProgramError I E) S
  judge (ok s) = ok s
  judge (err i) = err (invalid i)

  unfoldable pub initial_bits : List Bool
  initial_bits = c.state_bits c.initial

  unfoldable pub transition_bits :
      List Bool → List Bool → Role → Result (ProgramError I E) (List Bool)
  transition_bits s m mover = do
    state ← decode (c.state_from_bits s)
    mv ← decode (c.move_from_bits m)
    next ← judge (c.transition state mv mover)
    ok (c.state_bits next)

  unfoldable pub resolution_bits : List Bool → Result (ProgramError I E) Outcome
  resolution_bits s = do state ← decode (c.state_from_bits s); ok (c.resolution state)

  unfoldable pub turn_bits : List Bool → Result (ProgramError I E) (Option Role)
  turn_bits s = do state ← decode (c.state_from_bits s); ok (c.turn state)

  unfoldable pub max_depth_from_bits : List Bool → Result (ProgramError I E) ℕ
  max_depth_from_bits s = do state ← decode (c.state_from_bits s); ok (c.max_depth_from state)

abbrev pub outcome_by_code : List Outcome → ℕ → Option Outcome
outcome_by_code [] code = none
outcome_by_code (o ∷ os) code = if o.code == code then some o else outcome_by_code os code
