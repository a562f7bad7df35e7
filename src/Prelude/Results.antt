-- ===== src/Prelude/Results.antt =====
-- Fallible code: a result or an error value, with `do`.
use mathlib.Core.Path.{◌≡◌, refl}
use mathlib.Core.Bool.{Bool, true, false}
use mathlib.Core.Option.{Option, none, some}

-- Rust's `Result<A, E>`.
pub data Result {ℓ κ} (E : Type ℓ) (A : Type κ) : Type (ℓ ⊔ κ) where
  ok : A → Result E A
  err : E → Result E A

infixl 5 ◌>>=◌ ◌>>◌
abbrev pub ◌>>=◌ {ℓ κ μ} :
    {E : Type ℓ} {A : Type κ} {B : Type μ} → Result E A → (A → Result E B) → Result E B
err why >>= next = err why
ok value >>= next = next value

abbrev pub ◌>>◌ {ℓ κ} : {E : Type ℓ} {B : Type κ} → Result E (Unit {0}) → Result E B → Result E B
check >> rest = check >>= λ passed. rest

-- `ensure!` of anyhow: the error unless the test holds.
abbrev pub ensure {ℓ} : {E : Type ℓ} → Bool → E → Result E (Unit {0})
ensure false why = err why
ensure true why = ok tt

-- A chain that succeeds went through a first result.
pub >>=-eq-ok {ℓ κ μ} :
    {E : Type ℓ} {A : Type κ} {B : Type μ} (first : Result E A) (next : A → Result E B) {last : B}
    → (first >>= next) ≡ ok last
    → (mid : A) × (first ≡ ok mid) × (next mid ≡ ok last)
>>=-eq-ok (err why) next eq = cc
>>=-eq-ok (ok mid) next eq = (mid, refl, eq)

-- What an `ensure` that passed shows.
pub ensure-eq-ok {ℓ κ} :
    {E : Type ℓ} {B : Type κ} (t : Bool) (e : E) (m : Result E B) {b : B}
    → (ensure t e >> m) ≡ ok b
    → (t ≡ true) × (m ≡ ok b)
ensure-eq-ok true e m h = (refl, h)
ensure-eq-ok false e m h = cc

pub >>-eq-ok {ℓ κ} :
    {E : Type ℓ} {B : Type κ} (u : Result E (Unit {0})) (m : Result E B) {b : B}
    → (u >> m) ≡ ok b
    → (u ≡ ok tt) × (m ≡ ok b)
>>-eq-ok (ok tt) m h = (refl, h)
>>-eq-ok (err e) m h = cc

-- `Result::ok` of Rust: the value, if there is one.
abbrev pub to_option {ℓ κ} : {E : Type ℓ} {A : Type κ} → Result E A → Option A
to_option (ok value) = some value
to_option (err why) = none

pub to_option-some {ℓ κ} :
    {E : Type ℓ} {A : Type κ} (r : Result E A) (a : A) → to_option r ≡ some a → r ≡ ok a
to_option-some (ok b) a h = cc
to_option-some (err e) a h = cc

pub to_option-none {ℓ κ} :
    {E : Type ℓ} {A : Type κ} (r : Result E A) → to_option r ≡ none → (e : E) × (r ≡ err e)
to_option-none (ok b) h = cc
to_option-none (err e) h = (e, refl)
