-- ===== src/Script/Runs.antt =====
-- Runs of crates/script32/src/sim.rs instruction by instruction, scripts one after another, and the
-- peak of the stacks.
use native.Mathlib.Omega.{arith}
use mathlib.Core.List.{append-nil}
use ln_gap.Prelude.{
  ℕ, ◌+◌, ◌≤◌, ◌≡◌, ◌⊎◌, refl, ap, ◌∙◌, inl, inr, [], ◌∷◌, ◌++◌, Bytes, length, Result, ok, err,
  ◌>>=◌, >>=-eq-ok, sym, dec_lt,
}
use ln_gap.Script.Stack.{Elements, Outcome}
use ln_gap.Script.Machine.{
  Script, Machine, machine, step, raise_peak, rounds, run_inner, run, run_peak,
}

module _ {ℓ κ μ} {E : Type 0} {A : Type ℓ} {B : Type κ} {C : Type μ} where
  pub bind_assoc :
      (r : Result E A) (f : A → Result E B) (g : B → Result E C)
      → (r >>= f >>= g) ≡ (r >>= λ a. f a >>= g)
  bind_assoc (ok a) f g = refl
  bind_assoc (err e) f g = refl

pub bind_congr {ℓ κ} :
    {E : Type 0} {A : Type ℓ} {B : Type κ} (r : Result E A) {f g : A → Result E B}
    → ((a : A) → f a ≡ g a)
    → (r >>= f) ≡ (r >>= g)
bind_congr r p = λ i. r >>= λ a. p a i

-- The elements on both stacks.
abbrev pub height : Machine → ℕ
height m = length m.main + length m.alt

abbrev measured : Machine × ℕ → Outcome (Elements × ℕ)
measured (m, peak) = ok (m.main, raise_peak peak m)

abbrev first_of : Machine × ℕ → Outcome Machine
first_of (m, peak) = ok m

forget_peak :
    (r : Outcome (Machine × ℕ))
    → (r >>= measured >>= λ y. ok y.0) ≡ (r >>= first_of >>= λ m. ok m.main)
forget_peak (ok x) = refl
forget_peak (err e) = refl

module _ (hash160 sha256 : Bytes → Bytes) where
  -- The machine that a script leaves, peaks aside.
  unfoldable pub exec : Script → Machine → Outcome Machine
  exec [] m = ok m
  exec (i ∷ is) m = step hash160 sha256 i m >>= λ m'. exec is m'

  -- A script runs as its parts do one after the other.
  pub exec-append :
      (xs ys : Script) (m : Machine) → exec (xs ++ ys) m ≡ (exec xs m >>= λ m'. exec ys m')
  unfolding exec
  exec-append [] ys m = refl
  exec-append (x ∷ xs) ys m =
      bind_congr (step hash160 sha256 x m) (λ m'. exec-append xs ys m')
      ∙ sym (bind_assoc (step hash160 sha256 x m) (exec xs) (exec ys))

  rounds-exec :
      (s : Script) (p : ℕ) (m : Machine) → (rounds hash160 sha256 s p m >>= λ r. ok r.0) ≡ exec s m
  unfolding exec rounds
  rounds-exec [] p m = refl
  rounds-exec (x ∷ xs) p m =
      bind_assoc (step hash160 sha256 x m) _ _
      ∙ bind_congr (step hash160 sha256 x m) (λ m'. rounds-exec xs (raise_peak p m) m')

  pub run-exec :
      (s : Script) (stack : Elements)
      → run hash160 sha256 s stack ≡ (exec s (machine stack [] []) >>= λ m. ok m.main)
  unfolding run run_inner
  run-exec s stack =
      forget_peak (rounds hash160 sha256 s (length stack) (machine stack [] []))
      ∙ ap (λ r. r >>= λ m. ok m.main) (rounds-exec s (length stack) (machine stack [] []))

  rounds_grow :
      (s : Script) (p q : ℕ) (m m' : Machine) → rounds hash160 sha256 s p m ≡ ok (m', q) → p ≤ q
  unfolding rounds
  rounds_grow [] p q m m' e = ground arith
  rounds_grow (x ∷ xs) p q m m' e =
      let (n, a, b) = >>=-eq-ok (step hash160 sha256 x m) _ e in
      omega (arith, rounds_grow xs _ q n m' b)

  -- No prefix of the script leaves more elements than the peak.
  rounds_cover :
      (xs ys : Script) (p q : ℕ) (m mid m' : Machine)
      → rounds hash160 sha256 (xs ++ ys) p m ≡ ok (m', q)
      → exec xs m ≡ ok mid
      → height mid ≤ raise_peak q m'
  unfolding rounds exec
  rounds_cover [] [] p q m mid m' e f = ground arith
  rounds_cover [] (y ∷ ys) p q m mid m' e f =
      let (n, a, b) = >>=-eq-ok (step hash160 sha256 y m) _ e in
      let g : m ≡ mid = cc in rw (← g) (omega (arith, rounds_grow ys _ q n m' b))
  rounds_cover (x ∷ xs) ys p q m mid m' e f =
      let (n, a, b) = >>=-eq-ok (step hash160 sha256 x m) _ e in
      let f' : exec xs n ≡ ok mid = rw a at f in rounds_cover xs ys _ q n mid m' b f'

  -- The peak is the number seen before or is reached after a prefix.
  rounds_attain :
      (s : Script) (p q : ℕ) (m m' : Machine)
      → rounds hash160 sha256 s p m ≡ ok (m', q)
      → (q ≡ p)
        ⊎ ((xs : Script) × (ys : Script) × (mid : Machine) × (s ≡ xs ++ ys)
            × (exec xs m ≡ ok mid)
            × (height mid ≡ q))
  unfolding rounds exec
  rounds_attain [] p q m m' e = inl (ground arith)
  rounds_attain (x ∷ xs) p q m m' e =
      let (n, a, b) = >>=-eq-ok (step hash160 sha256 x m) _ e in
      elim (rounds_attain xs (raise_peak p m) q n m' b) [
        | inl g ↦ elim (dec_lt p (height m)) [
          | no h ↦ inl (omega arith)
          | yes h ↦ inr ([], x ∷ xs, m, refl, refl, omega arith)
        ]
        | inr (us, vs, mid, g, h, k) ↦ inr (x ∷ us, vs, mid, rw g refl, rw a h, k)
      ]

  -- The peak of a whole run is reached: at the start, at an instruction or at the end.
  peak_reached :
      (s : Script) (stack : Elements) (p : ℕ) (m : Machine)
      → rounds hash160 sha256 s (length stack) (machine stack [] []) ≡ ok (m, p)
      → (us : Script) × (vs : Script) × (top : Machine) × (s ≡ us ++ vs)
        × (exec us (machine stack [] []) ≡ ok top)
        × (height top ≡ raise_peak p m)
  peak_reached s stack p m e = elim (dec_lt p (height m)) [
    | yes h ↦ (
      s,
      [],
      m,
      sym (append-nil s),
      sym (rounds-exec s (length stack) (machine stack [] [])) ∙ ap (λ r. r >>= first_of) e,
      omega arith,
    )
    | no h ↦ elim (rounds_attain s (length stack) p (machine stack [] []) m e) [
      | inl g ↦ ([], s, machine stack [] [], refl, unfold exec in refl, omega arith)
      | inr (us, vs, mid, g, k, l) ↦ (us, vs, mid, g, k, omega arith)
    ]
  ]

  -- The peak that a run reports is reached after a prefix of the script and no prefix exceeds it.
  pub run_peak-greatest :
      (xs ys : Script) (stack s : Elements) (q : ℕ) (mid : Machine)
      → run_peak hash160 sha256 (xs ++ ys) stack ≡ ok (s, q)
      → exec xs (machine stack [] []) ≡ ok mid
      → (height mid ≤ q)
        × ((us : Script) × (vs : Script) × (top : Machine) × (xs ++ ys ≡ us ++ vs)
            × (exec us (machine stack [] []) ≡ ok top)
            × (height top ≡ q))
  unfolding run_peak run_inner
  run_peak-greatest xs ys stack s q mid e f =
      let ((m, p), a, b) =
        >>=-eq-ok (rounds hash160 sha256 (xs ++ ys) (length stack) (machine stack [] [])) _ e in
      let g : raise_peak p m ≡ q = cc in
      (
        rw (← g) (rounds_cover xs ys (length stack) p _ mid m a f),
        rw (← g) (peak_reached (xs ++ ys) stack p m a),
      )
