-- ===== src/N4Bit/Script/Phases.antt =====
-- The first two passes of crates/n4bit/src/script.rs over the forty nibbles, against the native
-- layers of crates/n4bit/src/lib.rs.
use mathlib.Core.List.{reverse-append, append_assoc, map-append}
use ln_gap.Prelude.{
  ℕ, zero, suc, ◌+◌, ◌*◌, ◌%◌, ◌<◌, ◌≤◌, ◌≡◌, refl, Bool, false, List, [], ◌∷◌, ◌++◌, map, reverse,
  reverse_cons, Bytes, length, length-append, length-map, All, ok, arith, ◌∙◌, ap,
}
use ln_gap.Script.Stack.{Elements}
use ln_gap.Script.Machine.{Machine, machine, skipping, step, execute, op, op_fromaltstack}
use ln_gap.Script.Runs.{exec, exec-append}
use ln_gap.Script.Builder.{IntPush}
use ln_gap.N4Bit.Ranges.{substitute, substituted, length-substituted, length-add_from, length-mix}
use ln_gap.N4Bit.{add_constants, rc, mix, add_from}
use ln_gap.N4Bit.Script.{
  times, unpark, sbox_phase_round, sbox_phase_rounds, sbox_phase_script, mix_pair, mix_script,
}
use ln_gap.N4Bit.Script.Nibble.{element, table, exec-sbox_phase_round, exec-mix_pair}

-- What the first pass parks, the last nibble first; the places count from `off`.
sbox_parked : ℕ → ℕ → List ℕ → Elements → Elements
sbox_parked r off [] alt = alt
sbox_parked r off (z ∷ zs) alt =
    sbox_parked r off zs (element (substitute ((z + rc r (off + length zs)) % 16)) ∷ alt)

sbox_parked-snoc :
    (r off x : ℕ) (ws : List ℕ) (alt : Elements)
    → sbox_parked r off (ws ++ x ∷ []) alt
      ≡ element (substitute ((x + rc r off) % 16)) ∷ sbox_parked r (suc off) ws alt
unfolding sbox_parked
sbox_parked-snoc r off x [] alt = let z : off + 0 ≡ off = omega arith in rw z refl
sbox_parked-snoc r off x (w ∷ ws) alt =
    let z : off + length (ws ++ x ∷ []) ≡ suc off + length ws =
      omega (arith, length-append ws (x ∷ [])) in
    ap
      (λ (t : ℕ). sbox_parked r off (ws ++ x ∷ []) (element (substitute ((w + rc r t) % 16)) ∷ alt))
      z
    ∙ sbox_parked-snoc r off x ws _

sbox_parked-reverse :
    (r off : ℕ) (xs : List ℕ) (alt : Elements)
    → sbox_parked r off (reverse xs) alt ≡ map element (substituted (add_from r off xs)) ++ alt
unfolding add_from substituted
sbox_parked-reverse r off [] alt = unfold sbox_parked in refl
sbox_parked-reverse r off (x ∷ xs) alt =
    rw (reverse-append (x ∷ []) xs, sbox_parked-snoc, sbox_parked-reverse r (suc off) xs alt) refl

-- What the second pass parks, the last pair first.
mix_parked : List ℕ → Elements → Elements
mix_parked (b ∷ (a ∷ zs)) alt =
    mix_parked zs (element ((a + b) % 16) ∷ (element ((b + (a + b) % 16) % 16) ∷ alt))
mix_parked _ alt = alt

-- Twice as long as the number.
abbrev IsPairs : ℕ → List ℕ → Type 0
IsPairs n zs = length zs ≡ n * 2

mix_parked-snoc :
    (n a b : ℕ) (ws : List ℕ) (alt : Elements)
    → IsPairs n ws
    → mix_parked (ws ++ b ∷ (a ∷ [])) alt
      ≡ element ((a + b) % 16) ∷ (element ((b + (a + b) % 16) % 16) ∷ mix_parked ws alt)
unfolding mix_parked
mix_parked-snoc zero a b [] alt e = refl
mix_parked-snoc zero a b (w ∷ ws) alt e = absurd (omega arith)
mix_parked-snoc (suc n) a b [] alt e = absurd (omega arith)
mix_parked-snoc (suc n) a b (w ∷ []) alt e = absurd (omega arith)
mix_parked-snoc (suc n) a b (w ∷ (v ∷ ws)) alt e = mix_parked-snoc n a b ws _ (omega arith)

reverse_two : (a b : ℕ) (xs : List ℕ) → reverse (a ∷ (b ∷ xs)) ≡ reverse xs ++ b ∷ (a ∷ [])
reverse_two a b xs =
    reverse-append (a ∷ []) (b ∷ xs) ∙ rw (reverse-append (b ∷ []) xs, append_assoc) refl

pub length-reversed {ℓ} : {A : Type ℓ} → (xs : List A) → length (reverse xs) ≡ length xs
length-reversed [] = refl
length-reversed (x ∷ xs) =
    rw (reverse-append (x ∷ []) xs)
      (omega (arith, length-append (reverse xs) (x ∷ []), length-reversed xs))

mix_parked-reverse :
    (n : ℕ) (xs : List ℕ) (alt : Elements)
    → IsPairs n xs
    → mix_parked (reverse xs) alt ≡ map element (mix xs) ++ alt
unfolding mix
mix_parked-reverse zero [] alt e = unfold mix_parked in refl
mix_parked-reverse zero (x ∷ xs) alt e = absurd (omega arith)
mix_parked-reverse (suc n) [] alt e = absurd (omega arith)
mix_parked-reverse (suc n) (a ∷ []) alt e = absurd (omega arith)
mix_parked-reverse (suc n) (a ∷ (b ∷ xs)) alt e =
    rw
      (
        reverse_two a b xs,
        mix_parked-snoc n a b (reverse xs) alt (length-reversed xs ∙ omega arith),
        mix_parked-reverse n xs alt (omega arith),
      )
      refl

map-reversed : (xs : List ℕ) → map element (reverse xs) ≡ reverse (map element xs)
map-reversed [] = refl
map-reversed (x ∷ xs) =
    rw
      (
        reverse-append (x ∷ []) xs,
        reverse-append {A = Bytes} (element x ∷ []) (map element xs),
        map-append element (reverse xs) (x ∷ []),
        map-reversed xs,
      )
      refl

All-reversed : (xs : List ℕ) → All (λ z. z < 16) xs → All (λ z. z < 16) (reverse xs)
All-reversed [] h = tt
All-reversed (x ∷ xs) h = rw (reverse-append (x ∷ []) xs) (snoc (reverse xs) (All-reversed xs h.1))
  where
    snoc : (ys : List ℕ) → All (λ z. z < 16) ys → All (λ z. z < 16) (ys ++ x ∷ [])
    snoc [] k = (h.0, tt)
    snoc (y ∷ ys) k = (k.0, snoc ys k.1)

module _ (hash160 sha256 : Bytes → Bytes) (ip : IntPush) (skip : List Bool)
    (live : skipping skip ≡ false) where
  unpark_one :
      (x : Bytes) (s alt : Elements)
      → exec hash160 sha256 (op op_fromaltstack ∷ []) (machine s (x ∷ alt) skip)
        ≡ ok (machine (x ∷ s) alt skip)
  unfolding exec step execute
  unpark_one x s alt = rw live refl

  -- Unparking turns what was parked around.
  pub exec-unpark :
      (n : ℕ) (xs s alt : Elements)
      → length xs ≡ n
      → exec hash160 sha256 (unpark n) (machine s (xs ++ alt) skip)
        ≡ ok (machine (reverse xs ++ s) alt skip)
  exec-unpark zero [] s alt e = unfold exec in refl
  exec-unpark zero (x ∷ xs) s alt e = absurd (omega arith)
  exec-unpark (suc n) [] s alt e = absurd (omega arith)
  exec-unpark (suc n) (x ∷ xs) s alt e =
      exec-append hash160 sha256 (op op_fromaltstack ∷ []) (unpark n) _
      ∙ rw (unpark_one x s (xs ++ alt), reverse_cons x xs s)
          (exec-unpark n xs (x ∷ s) alt (omega arith))

  sbox_rounds_run :
      (r n : ℕ) (zs : List ℕ) (s alt : Elements)
      → length zs ≡ n
      → n ≤ 40
      → All (λ z. z < 16) zs
      → exec hash160 sha256
          (sbox_phase_rounds ip r n)
          (machine (map element zs ++ (table ++ s)) alt skip)
        ≡ ok (machine (table ++ s) (sbox_parked r 0 zs alt) skip)
  unfolding sbox_phase_rounds sbox_parked
  sbox_rounds_run r zero [] s alt e h k = unfold exec in refl
  sbox_rounds_run r zero (z ∷ zs) s alt e h k = absurd (omega arith)
  sbox_rounds_run r (suc n) [] s alt e h k = absurd (omega arith)
  sbox_rounds_run r (suc n) (z ∷ zs) s alt e h k =
      let place : 0 + length zs ≡ n = omega arith in
      exec-append hash160 sha256 (sbox_phase_round ip r n) _ _
      ∙ rw
          (
            exec-sbox_phase_round hash160 sha256 ip skip live r n z (map element zs) s alt
                (length-map element zs ∙ omega arith) (omega arith) k.0,
            place,
          )
          (sbox_rounds_run r n zs s _ (omega arith) (omega arith) k.1)

  mix_rounds_run :
      (n : ℕ) (zs : List ℕ) (s alt : Elements)
      → IsPairs n zs
      → All (λ z. z < 16) zs
      → exec hash160 sha256 (times n (mix_pair ip)) (machine (map element zs ++ s) alt skip)
        ≡ ok (machine s (mix_parked zs alt) skip)
  unfolding mix_parked
  mix_rounds_run zero [] s alt e k = unfold exec in refl
  mix_rounds_run zero (z ∷ zs) s alt e k = absurd (omega arith)
  mix_rounds_run (suc n) [] s alt e k = absurd (omega arith)
  mix_rounds_run (suc n) (z ∷ []) s alt e k = absurd (omega arith)
  mix_rounds_run (suc n) (b ∷ (a ∷ zs)) s alt e k =
      exec-append hash160 sha256 (mix_pair ip) _ _
      ∙ rw (exec-mix_pair hash160 sha256 ip skip live a b (map element zs ++ s) alt k.1.0 k.0)
          (mix_rounds_run n zs s _ (omega arith) k.1.1)

  -- A state on the stack, its last nibble on top.
  abbrev pub holding : List ℕ → Elements → Elements → Machine
  holding state s alt = machine (reverse (map element state) ++ s) alt skip

  -- The first pass adds the constants and applies the S-box, over the table of the S-box.
  pub exec-sbox_phase_script :
      (r : ℕ) (state : List ℕ) (s alt : Elements)
      → length state ≡ 40
      → All (λ z. z < 16) state
      → exec hash160 sha256 (sbox_phase_script ip r) (holding state (table ++ s) alt)
        ≡ ok (holding (substituted (add_constants state r)) (table ++ s) alt)
  unfolding sbox_phase_script add_constants
  exec-sbox_phase_script r state s alt e h =
      exec-append hash160 sha256 (sbox_phase_rounds ip r 40) (unpark 40) _
      ∙ rw
          (
            ← map-reversed state,
            sbox_rounds_run r 40 (reverse state) s alt (length-reversed state ∙ e) (omega arith)
                (All-reversed state h),
            sbox_parked-reverse r 0 state alt,
          )
          (exec-unpark 40 (map element (substituted (add_from r 0 state))) (table ++ s) alt (
            length-map element (substituted (add_from r 0 state))
            ∙ length-substituted (add_from r 0 state)
            ∙ length-add_from r 0 state
            ∙ e))

  -- The second pass mixes the pairs.
  pub exec-mix_script :
      (state : List ℕ) (s alt : Elements)
      → length state ≡ 40
      → All (λ z. z < 16) state
      → exec hash160 sha256 (mix_script ip) (holding state s alt) ≡ ok (holding (mix state) s alt)
  unfolding mix_script
  exec-mix_script state s alt e h =
      exec-append hash160 sha256 (times 20 (mix_pair ip)) (unpark 40) _
      ∙ rw
          (
            ← map-reversed state,
            mix_rounds_run 20 (reverse state) s alt (length-reversed state ∙ e)
                (All-reversed state h),
            mix_parked-reverse 20 state alt e,
          )
          (exec-unpark 40 (map element (mix state)) s alt
            (length-map element (mix state) ∙ length-mix state ∙ e))
