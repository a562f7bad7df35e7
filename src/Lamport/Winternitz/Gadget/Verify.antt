-- ===== src/Lamport/Winternitz/Gadget/Verify.antt =====
-- `wots_verify` of crates/lamport/src/winternitz.rs, run by the interpreter, step by
-- step.
use mathlib.Core.List.{append_assoc, map-append}
use ln_gap.Prelude.{
  ℕ, ◌-◌, ◌*◌, ◌^◌, ◌≤◌, ◌<◌, ◌≡◌, refl, Bool, true, false, List, [], ◌∷◌, ◌++◌, if◌then◌else◌,
  Bytes, pos, length, list_eq, ◌==◌, every_below, every_below_lem, list_eq→eq, inl, inr, Bool-cases,
  arith, sym, map, reverse, sum, some, none, to_option, to_option-some, to_option-none, All,
}
use ln_gap.Script.Number.{encode}
use ln_gap.Script.Stack.{Elements}
use ln_gap.Script.Machine.{machine, skipping}
use ln_gap.Script.Runs.{exec, exec-append}
use ln_gap.Script.Builder.{IntPush}
use ln_gap.Lamport.Winternitz.{WotsParams, max_digit, scriptnum, order_pairs, hash_times}
use ln_gap.Lamport.Winternitz.Checksum.{value}
use ln_gap.Lamport.Winternitz.Gadget.{
  ChainKind, chain_size, chain_hash, wots_steps, wots_checksum_finale,
}
use ln_gap.Lamport.Winternitz.Gadget.Native.{clamp, chains_hold}
use ln_gap.Lamport.Winternitz.Gadget.Step.{exec-wots_step}
use ln_gap.Lamport.Winternitz.Gadget.Finale.{element, exec-wots_checksum_finale}

small_digits : every_below 128 (λ d. list_eq (scriptnum d) (encode (pos d))) ≡ true
unfolding every_below encode
small_digits = refl

scriptnum-element : (d : ℕ) → d < 128 → scriptnum d ≡ element d
scriptnum-element d h = list_eq→eq _ _ (every_below_lem 128 _ small_digits d h)

pair_in_front :
    (d : ℕ) (h : Bytes) (ds : List ℕ) (hs s : Elements)
    → d < 128
    → order_pairs (d ∷ ds) (h ∷ hs) ++ s ≡ order_pairs ds hs ++ element d ∷ (h ∷ s)
unfolding order_pairs
pair_in_front d h ds hs s lt = rw (append_assoc, scriptnum-element d lt) refl

module _ (hash160 sha256 : Bytes → Bytes) (ip : IntPush) (skip : List Bool)
    (live : skipping skip ≡ false) where
  pub steps_run :
      (kind : ChainKind) (ps : List Bytes) (ds : List ℕ) (hs : List Bytes) (s alt : Elements)
      → length ds ≡ length ps
      → length hs ≡ length ps
      → All (λ d. d < 128) ds
      → All (λ h. length h ≡ chain_size kind) hs
      → to_option
          (exec hash160 sha256 (wots_steps ip kind ps) (machine (order_pairs ds hs ++ s) alt skip))
        ≡ (if chains_hold (chain_hash hash160 sha256 kind) (map clamp ds) hs ps
            then some (machine s (map element (map clamp ds) ++ alt) skip)
            else none)
  unfolding wots_steps chains_hold
  steps_run kind [] [] [] s alt a b small sized = unfold exec order_pairs in refl
  steps_run kind [] (d ∷ ds) hs s alt a b small sized = absurd (omega arith)
  steps_run kind [] [] (h ∷ hs) s alt a b small sized = absurd (omega arith)
  steps_run kind (p ∷ ps) [] hs s alt a b small sized = absurd (omega arith)
  steps_run kind (p ∷ ps) (d ∷ ds) [] s alt a b small sized = absurd (omega arith)
  steps_run kind (p ∷ ps) (d ∷ ds) (h ∷ hs) s alt a b small sized =
      let f = chain_hash hash160 sha256 kind in
      let ih =
        steps_run kind ps ds hs (element d ∷ (h ∷ s)) alt (omega arith) (omega arith) small.1
          sized.1 in
      rw (pair_in_front d h ds hs s small.0, exec-append)
        (elim (Bool-cases (chains_hold f (map clamp ds) hs ps)) [
          | inr e ↦ rw ((to_option-none _ (rw e at ih)).1, e) refl
          | inl e ↦
              rw
                (
                  to_option-some _ _ (rw e at ih),
                  exec-wots_step hash160 sha256 ip skip live kind d h p s
                      (map element (map clamp ds) ++ alt) small.0 sized.0,
                  e,
                )
                (elim (Bool-cases (list_eq (hash_times f h (15 - clamp d)) p)) [
                  | inl g ↦ rw g refl
                  | inr g ↦ rw g refl
                ])
        ])

  -- The finale on the two halves of the digits.
  pub finale_run :
      (ps : WotsParams) (xs ys : List ℕ) (s alt : Elements)
      → length xs ≡ ps.message_digits
      → length ys ≡ ps.checksum_digits
      → 0 < ps.message_digits
      → 0 < ps.checksum_digits
      → max_digit * ps.message_digits < 2 ^ 31
      → sum xs ≤ max_digit * ps.message_digits
      → value ys < 2 ^ 31
      → to_option (
          exec hash160 sha256
            (wots_checksum_finale ip ps)
            (machine s (map element (xs ++ ys) ++ alt) skip))
        ≡ (if max_digit * ps.message_digits - sum xs == value ys
            then some (machine (reverse (map element xs) ++ s) alt skip)
            else none)
  finale_run ps [] ys s alt a b p q m n v = absurd (omega (arith, a))
  finale_run ps (x ∷ xs) [] s alt a b p q m n v = absurd (omega (arith, b))
  finale_run ps (x ∷ xs) (y ∷ ys) s alt a b p q m n v =
      rw (map-append element xs (y ∷ ys), append_assoc)
        (exec-wots_checksum_finale hash160 sha256 skip live ip ps x xs y ys s alt (sym a) (sym b) m
          n v)
