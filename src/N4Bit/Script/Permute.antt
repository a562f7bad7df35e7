-- ===== src/N4Bit/Script/Permute.antt =====
-- The last pass of crates/n4bit/src/script.rs, the permutation of the forty nibbles, and the whole
-- round, against the native round of crates/n4bit/src/lib.rs.
use ln_gap.Prelude.{
  some, ℕ, zero, suc, ◌-◌, ◌<◌, ◌≤◌, ◌≡◌, refl, Bool, true, false, ◌&&◌, &&_true, List, [], ◌∷◌,
  ◌++◌, map, reverse, Bytes, pos, length, length-append, length-map, length-take, length-drop, take,
  drop, get_or, range_from, length-range_from, ltb, ltb→lt, lt→ltb, ok, arith, ◌∙◌,
}
use ln_gap.Script.Stack.{Elements}
use ln_gap.Script.Stack.Reads.{length-encode_small, number_of-encode_small}
use ln_gap.Script.Machine.{machine, skipping, step, execute, on_main, op, op_toaltstack}
use ln_gap.Script.Runs.{exec, exec-append}
use ln_gap.Script.Builder.{IntPush, step-push_int}
use ln_gap.N4Bit.{permute, spn_round, mix, add_constants}
use ln_gap.N4Bit.Ranges.{
  substituted, round_state, spn_round-some, IsState, tabulated_state, substituted-nibbles,
  add_from-nibbles, length-substituted, length-add_from, length-mix, length-permute,
  add_from-nibbles,
}
use ln_gap.N4Bit.Script.{
  position, roll_to_top, park_rounds, permute_script, compute_permutation, spn_round_script, unpark,
  sbox_phase_script, mix_script,
}
use ln_gap.N4Bit.Script.Nibble.{element, table}
use mathlib.Core.Path.{subst}
use ln_gap.N4Bit.Script.Phases.{
  length-reversed, holding, exec-unpark, exec-sbox_phase_script, exec-mix_script,
}

-- A stack without the element at a depth.
abbrev without : ℕ → Elements → Elements
without d st = take d st ++ drop (suc d) st

-- The depths at which the sources lie, one after another.
depths : List ℕ → List ℕ → List ℕ
depths [] remaining = []
depths (src ∷ srcs) remaining =
    let pos = position src remaining in
    (length remaining - 1 - pos) ∷ depths srcs (take pos remaining ++ drop (suc pos) remaining)

-- What rolling and parking leaves: the stack and the alt stack.
park : List ℕ → Elements → Elements → Elements × Elements
park [] st alt = (st, alt)
park (d ∷ ds) st alt = park ds (without d st) (get_or st d [] ∷ alt)

-- Every depth lies within what is left of `k` elements.
reachable : List ℕ → ℕ → Bool
reachable [] k = true
reachable (d ∷ ds) k = ltb d k && (ltb d 40 && reachable ds (k - 1))

length-without : (d : ℕ) (st : Elements) → d < length st → suc (length (without d st)) ≡ length st
length-without d st h =
    omega
      (arith, length-append (take d st) (drop (suc d) st), length-take d st, length-drop (suc d) st)

near : (d k n : ℕ) → d < k → k ≤ n → d < n
near d k n h l = omega arith

module _ (hash160 sha256 : Bytes → Bytes) (ip : IntPush) (skip : List Bool)
    (live : skipping skip ≡ false) where
  exec-roll_to_top :
      (d : ℕ) (st alt : Elements)
      → d < length st
      → d < 40
      → exec hash160 sha256 (roll_to_top ip d ++ op op_toaltstack ∷ []) (machine st alt skip)
        ≡ ok (machine (without d st) (get_or st d [] ∷ alt) skip)
  unfolding exec roll_to_top step execute on_main
  exec-roll_to_top d [] alt h k = absurd (omega arith)
  exec-roll_to_top zero (x ∷ st) alt h k = simp live
  exec-roll_to_top (suc zero) (x ∷ []) alt h k = absurd (omega arith)
  exec-roll_to_top (suc zero) (x ∷ (y ∷ st)) alt h k = simp live
  exec-roll_to_top (suc (suc zero)) (x ∷ []) alt h k = absurd (omega arith)
  exec-roll_to_top (suc (suc zero)) (x ∷ (y ∷ [])) alt h k = absurd (omega arith)
  exec-roll_to_top (suc (suc zero)) (x ∷ (y ∷ (z ∷ st))) alt h k = simp live
  exec-roll_to_top (suc (suc (suc d))) (x ∷ st) alt h k = simp (
    live,
    step-push_int,
    length-encode_small (pos (suc (suc (suc d)))) (omega arith),
    number_of-encode_small (pos (suc (suc (suc d)))) (omega arith),
    lt→ltb (suc (suc (suc d))) (suc (length st)) h,
  )

  exec-park_rounds :
      (srcs remaining : List ℕ) (k : ℕ) (st alt : Elements)
      → reachable (depths srcs remaining) k ≡ true
      → k ≤ length st
      → exec hash160 sha256 (park_rounds ip srcs remaining) (machine st alt skip)
        ≡ ok (
            machine
              (park (depths srcs remaining) st alt).0
              (park (depths srcs remaining) st alt).1
              skip)
  unfolding park_rounds depths park reachable
  exec-park_rounds [] remaining k st alt e h = unfold exec in refl
  exec-park_rounds (src ∷ srcs) remaining k st alt e h =
      let p = position src remaining in
      let d = length remaining - 1 - p in
      let (a, rest) = &&_true _ _ e in
      let (b, c) = &&_true _ _ rest in
      let low = near d k (length st) (ltb→lt d k a) h in
      exec-append hash160 sha256 (roll_to_top ip d ++ op op_toaltstack ∷ []) _ _
      ∙ rw (exec-roll_to_top d st alt low (ltb→lt d 40 b)) (
          exec-park_rounds srcs (take p remaining ++ drop (suc p) remaining) (k - 1) (without d st)
            _ c (omega (arith, length-without d st low)))

-- Forty nibbles are parked as the permutation orders them.
parked_forty :
    (g : ℕ → ℕ) (s alt : Elements)
    → park
        (depths (reverse compute_permutation) (range_from 0 40))
        (reverse (map element (map g (range_from 0 40))) ++ s)
        alt
      ≡ (s, map element (permute (map g (range_from 0 40))) ++ alt)
unfolding park depths compute_permutation permute position
parked_forty g s alt = refl

all_reachable : reachable (depths (reverse compute_permutation) (range_from 0 40)) 40 ≡ true
unfolding reachable depths compute_permutation position
all_reachable = refl

module _ (hash160 sha256 : Bytes → Bytes) (ip : IntPush) (skip : List Bool)
    (live : skipping skip ≡ false) where
  exec-permute_tabulated :
      (g : ℕ → ℕ) (s alt : Elements)
      → exec hash160 sha256
          (permute_script ip)
          (holding hash160 sha256 ip skip live (map g (range_from 0 40)) s alt)
        ≡ ok (holding hash160 sha256 ip skip live (permute (map g (range_from 0 40))) s alt)
  unfolding permute_script
  exec-permute_tabulated g s alt =
      let xs = map g (range_from 0 40) in
      let full : 40 ≤ length (reverse (map element xs) ++ s) = omega (
        arith,
        length-append (reverse (map element xs)) s,
        length-reversed (map element xs),
        length-map element xs,
        length-map g (range_from 0 40),
        length-range_from 0 40,
      ) in
      exec-append hash160 sha256 (park_rounds ip (reverse compute_permutation) (range_from 0 40))
        (unpark 40) _
      ∙ rw
          (
            exec-park_rounds hash160 sha256 ip skip live (reverse compute_permutation)
                (range_from 0 40) 40 (reverse (map element xs) ++ s) alt all_reachable full,
            parked_forty g s alt,
          )
          (exec-unpark hash160 sha256 ip skip live 40 (map element (permute xs)) s alt
            (length-map element (permute xs) ∙ length-permute xs))

  -- The last pass permutes the nibbles.
  exec-permute_script :
      (state : List ℕ) (s alt : Elements)
      → length state ≡ 40
      → exec hash160 sha256 (permute_script ip) (holding hash160 sha256 ip skip live state s alt)
        ≡ ok (holding hash160 sha256 ip skip live (permute state) s alt)
  exec-permute_script state s alt e =
      let Runs : List ℕ → Type 0 = λ xs.
        exec hash160 sha256 (permute_script ip) (holding hash160 sha256 ip skip live xs s alt)
        ≡ ok (holding hash160 sha256 ip skip live (permute xs) s alt) in
      subst Runs (tabulated_state state e) (exec-permute_tabulated (λ i. get_or state i 0) s alt)

  round_runs :
      (r : ℕ) (state : List ℕ) (s alt : Elements)
      → IsState state
      → exec hash160 sha256
          (spn_round_script ip r)
          (holding hash160 sha256 ip skip live state (table ++ s) alt)
        ≡ ok (holding hash160 sha256 ip skip live (round_state state r) (table ++ s) alt)
  unfolding spn_round_script round_state add_constants
  round_runs r state s alt h =
      let added = add_constants state r in
      let boxed = substituted added in
      let small = substituted-nibbles added (add_from-nibbles r 0 state) in
      let same = length-substituted added ∙ length-add_from r 0 state ∙ h.forty in
      exec-append hash160 sha256 (sbox_phase_script ip r) _ _
      ∙ rw (exec-sbox_phase_script hash160 sha256 ip skip live r state s alt h.forty h.nibbles) (
          exec-append hash160 sha256 (mix_script ip) _ _
          ∙ rw (exec-mix_script hash160 sha256 ip skip live boxed (table ++ s) alt same small)
              (exec-permute_script (mix boxed) (table ++ s) alt (length-mix boxed ∙ same)))

  -- The native round of forty nibbles never reads outside the S-box, and the script of the round, run
  -- by the interpreter in a branch that is taken over the nibbles and the table of the S-box, leaves
  -- the nibbles that the native round gives over the same table.
  pub exec-spn_round_script :
      (r : ℕ) (state : List ℕ) (s alt : Elements)
      → IsState state
      → (after : List ℕ) × (spn_round state r ≡ some after)
        × (exec hash160 sha256
              (spn_round_script ip r)
              (holding hash160 sha256 ip skip live state (table ++ s) alt)
            ≡ ok (holding hash160 sha256 ip skip live after (table ++ s) alt))
  exec-spn_round_script r state s alt h =
      (round_state state r, spn_round-some state r, round_runs r state s alt h)
