-- ===== src/Lamport/Winternitz/Gadget/Finale.antt =====
-- `wots_checksum_finale` of crates/lamport/src/winternitz.rs, run by the interpreter.
use native.Mathlib.Nat.{pow-suc}
use ln_gap.Prelude.{
  reverse_cons, ℕ, zero, suc, ◌+◌, ◌-◌, ◌*◌, ◌^◌, ◌≤◌, ◌<◌, ◌≡◌, refl, Bool, false, List, [], ◌∷◌,
  ◌++◌, if◌then◌else◌, Bytes, pos, abs, negate, ◌-ℤ◌, ◌+ℤ◌, length, list_eq, ◌==◌, ==_ne, ==_refl,
  list_eq→eq, list_eq_refl, ok, inl, inr, Bool-cases, arith, ap, map, reverse, sum, some, none,
  to_option, ℕ_discrete,
}
use ln_gap.Script.Number.{encode, number_of}
use ln_gap.Script.Number.Roundtrip.{number_of-encode}
use ln_gap.Script.Stack.{Elements}
use ln_gap.Script.Stack.Reads.{length-encode_small, number_of-encode_small}
use ln_gap.Script.Machine.{
  Script, machine, skipping, step, execute, on_main, op, op_dup, op_add, op_equalverify,
  op_fromaltstack, op_negate,
}
use ln_gap.Script.Runs.{exec, exec-append}
use ln_gap.Script.Builder.{IntPush, step-push_int}
use ln_gap.Lamport.Winternitz.{WotsParams, max_digit}
use ln_gap.Lamport.Winternitz.Checksum.{value}
use ln_gap.Lamport.Winternitz.Gadget.{times, subtract_round, horner_round, wots_checksum_finale}

-- A digit as the script holds it.
abbrev pub element : ℕ → Bytes
element d = encode (pos d)

sub_pos : (a x : ℕ) → negate (pos a) -ℤ pos x ≡ negate (pos (a + x))
sub_pos a x = ground arith

abs-negate : (a : ℕ) → abs (negate (pos a)) ≡ a
abs-negate a = ground arith

add_back : (a b : ℕ) → a ≤ b → negate (pos a) +ℤ pos b ≡ pos (b - a)
add_back a b h = ground arith

-- The number that digits spell, the highest first, behind a number so far.
horner : ℕ → List ℕ → ℕ
horner a [] = a
horner a (x ∷ xs) = horner (16 * a + x) xs

le-horner : (a : ℕ) (xs : List ℕ) → a ≤ horner a xs
unfolding horner
le-horner a [] = omega arith
le-horner a (x ∷ xs) = omega (arith, le-horner (16 * a + x) xs)

horner-value : (a : ℕ) (xs : List ℕ) → horner a xs ≡ a * 16 ^ length xs + value xs
unfolding horner
horner-value a [] = omega arith
horner-value a (x ∷ xs) =
    omega (arith, horner-value (16 * a + x) xs, ap (λ (t : ℕ). a * t) (pow-suc 16 (length xs)))

element_inj : (a b : ℕ) → a < 2 ^ 63 → b < 2 ^ 63 → element a ≡ element b → a ≡ b
element_inj a b h k e =
    ground (arith, number_of-encode (pos a) h, number_of-encode (pos b) k, ap number_of e)

same_bytes : (a b : ℕ) → a < 2 ^ 63 → b < 2 ^ 63 → list_eq (element a) (element b) ≡ (a == b)
same_bytes a b h k = elim (ℕ_discrete a b) [
  | yes e ↦ rw (e, list_eq_refl, ==_refl b) refl
  | no ne ↦ elim (Bool-cases (list_eq (element a) (element b))) [
    | inl t ↦ absurd (ne (element_inj a b h k (list_eq→eq _ _ t)))
    | inr f ↦ rw (f, ==_ne a b ne) refl
  ]
]

module _ (hash160 sha256 : Bytes → Bytes) (skip : List Bool) (live : skipping skip ≡ false) where
  exec-subtract_round :
      (a x : ℕ) (s alt : Elements)
      → a + x < 2 ^ 31
      → exec hash160 sha256 subtract_round
          (machine (encode (negate (pos a)) ∷ s) (element x ∷ alt) skip)
        ≡ ok (machine (encode (negate (pos (a + x))) ∷ (element x ∷ s)) alt skip)
  unfolding exec subtract_round step execute on_main
  exec-subtract_round a x s alt h = simp (
    live,
    length-encode_small (pos x) (omega arith),
    number_of-encode_small (pos x) (omega arith),
    length-encode_small (negate (pos a)) (omega (arith, abs-negate a)),
    number_of-encode_small (negate (pos a)) (omega (arith, abs-negate a)),
    sub_pos a x,
  )

  subtract_digits :
      (n a : ℕ) (xs : List ℕ) (s alt : Elements)
      → length xs ≡ n
      → a + sum xs < 2 ^ 31
      → exec hash160 sha256
          (times n subtract_round)
          (machine (encode (negate (pos a)) ∷ s) (map element xs ++ alt) skip)
        ≡ ok (
            machine (encode (negate (pos (a + sum xs))) ∷ (reverse (map element xs) ++ s)) alt skip)
  subtract_digits zero a [] s alt e h =
      unfold exec in (let z : a + 0 ≡ a = omega arith in rw z refl)
  subtract_digits zero a (x ∷ xs) s alt e h = absurd (omega arith)
  subtract_digits (suc n) a [] s alt e h = absurd (omega arith)
  subtract_digits (suc n) a (x ∷ xs) s alt e h =
      let z : a + (x + sum xs) ≡ a + x + sum xs = omega arith in
      rw
        (
          exec-append,
          exec-subtract_round a x s (map element xs ++ alt) (omega arith),
          z,
          reverse_cons (element x) (map element xs) s,
        )
        (subtract_digits n (a + x) xs (element x ∷ s) alt (omega arith) (omega arith))

  doubled :
      (a : ℕ) → a + a + (a + a) + (a + a + (a + a)) + (a + a + (a + a) + (a + a + (a + a))) ≡ 16 * a
  doubled a = omega arith

  exec-horner_round :
      (a x : ℕ) (s alt : Elements)
      → 16 * a + x < 2 ^ 31
      → exec hash160 sha256 horner_round (machine (element a ∷ s) (element x ∷ alt) skip)
        ≡ ok (machine (element (16 * a + x) ∷ s) alt skip)
  unfolding exec horner_round step execute on_main
  exec-horner_round a x s alt h = simp (
    live,
    length-encode_small (pos a) (omega arith),
    number_of-encode_small (pos a) (omega arith),
    length-encode_small (pos (a + a)) (omega arith),
    number_of-encode_small (pos (a + a)) (omega arith),
    length-encode_small (pos (a + a + (a + a))) (omega arith),
    number_of-encode_small (pos (a + a + (a + a))) (omega arith),
    length-encode_small (pos (a + a + (a + a) + (a + a + (a + a)))) (omega arith),
    number_of-encode_small (pos (a + a + (a + a) + (a + a + (a + a)))) (omega arith),
    doubled a,
    length-encode_small (pos (16 * a)) (omega arith),
    number_of-encode_small (pos (16 * a)) (omega arith),
    length-encode_small (pos x) (omega arith),
    number_of-encode_small (pos x) (omega arith),
  )

  horner_digits :
      (n a : ℕ) (xs : List ℕ) (s alt : Elements)
      → length xs ≡ n
      → horner a xs < 2 ^ 31
      → exec hash160 sha256
          (times n horner_round)
          (machine (element a ∷ s) (map element xs ++ alt) skip)
        ≡ ok (machine (element (horner a xs) ∷ s) alt skip)
  unfolding horner
  horner_digits zero a [] s alt e h = unfold exec in refl
  horner_digits zero a (x ∷ xs) s alt e h = absurd (omega arith)
  horner_digits (suc n) a [] s alt e h = absurd (omega arith)
  horner_digits (suc n) a (x ∷ xs) s alt e h =
      rw
        (
          exec-append,
          exec-horner_round a x s (map element xs ++ alt)
              (omega (arith, le-horner (16 * a + x) xs)),
        )
        (horner_digits n (16 * a + x) xs s alt (omega arith) h)

  open_digits :
      (m : ℕ) (s alt : Elements) (rest : Script)
      → m < 2 ^ 31
      → exec hash160 sha256
          (op op_fromaltstack ∷ (op op_dup ∷ (op op_negate ∷ rest)))
          (machine s (element m ∷ alt) skip)
        ≡ exec hash160 sha256 rest (machine (encode (negate (pos m)) ∷ (element m ∷ s)) alt skip)
  unfolding exec step execute on_main
  open_digits m s alt rest h = simp (
    live,
    length-encode_small (pos m) (omega arith),
    number_of-encode_small (pos m) (omega arith),
  )

  complement :
      (ip : IntPush) (n a c : ℕ) (s alt : Elements) (rest : Script)
      → a ≤ n
      → n < 2 ^ 31
      → exec hash160 sha256
          (ip.push_int n ∷ (op op_add ∷ (op op_fromaltstack ∷ rest)))
          (machine (encode (negate (pos a)) ∷ s) (element c ∷ alt) skip)
        ≡ exec hash160 sha256 rest (machine (element c ∷ (element (n - a) ∷ s)) alt skip)
  unfolding exec step execute on_main
  complement ip n a c s alt rest le h = simp (
    live,
    step-push_int,
    length-encode_small (pos n) (omega arith),
    number_of-encode_small (pos n) (omega arith),
    length-encode_small (negate (pos a)) (omega (arith, abs-negate a)),
    number_of-encode_small (negate (pos a)) (omega (arith, abs-negate a)),
    add_back a n le,
  )

  equal_numbers :
      (a b : ℕ) (s alt : Elements)
      → a < 2 ^ 31
      → b < 2 ^ 31
      → to_option (
          exec hash160 sha256
            (op op_equalverify ∷ [])
            (machine (element b ∷ (element a ∷ s)) alt skip))
        ≡ (if a == b then some (machine s alt skip) else none)
  unfolding exec step execute on_main
  equal_numbers a b s alt h k = elim (Bool-cases (a == b)) [
    | inl e ↦ simp (live, same_bytes a b (omega arith) (omega arith), e)
    | inr e ↦ simp (live, same_bytes a b (omega arith) (omega arith), e)
  ]

  -- The finale compares the checksum of the message digits with the checksum digits, and leaves the
  -- message digits.
  pub exec-wots_checksum_finale :
      (ip : IntPush) (ps : WotsParams) (m : ℕ) (ms : List ℕ) (c : ℕ) (cs : List ℕ)
      (s alt : Elements)
      → ps.message_digits ≡ suc (length ms)
      → ps.checksum_digits ≡ suc (length cs)
      → max_digit * ps.message_digits < 2 ^ 31
      → m + sum ms ≤ max_digit * ps.message_digits
      → value (c ∷ cs) < 2 ^ 31
      → to_option (
          exec hash160 sha256
            (wots_checksum_finale ip ps)
            (machine s (map element (m ∷ ms) ++ (map element (c ∷ cs) ++ alt)) skip))
        ≡ (if max_digit * ps.message_digits - (m + sum ms) == value (c ∷ cs)
            then some (machine (reverse (map element (m ∷ ms)) ++ s) alt skip)
            else none)
  unfolding wots_checksum_finale
  exec-wots_checksum_finale ip ps m ms c cs s alt em ec small le fits =
      let n = max_digit * ps.message_digits in
      let spelled : horner c cs ≡ value (c ∷ cs) = horner-value c cs in
      rw
        (
          open_digits m s (map element ms ++ (map element (c ∷ cs) ++ alt)) _ (omega arith),
          exec-append,
          subtract_digits (ps.message_digits - 1) m ms (element m ∷ s) (map element (c ∷ cs) ++ alt)
              (omega arith) (omega arith),
          complement ip n (m + sum ms) c (reverse (map element ms) ++ element m ∷ s)
              (map element cs ++ alt) _ le small,
          exec-append,
          horner_digits (ps.checksum_digits - 1) c cs
              (element (n - (m + sum ms)) ∷ (reverse (map element ms) ++ element m ∷ s)) alt
              (omega arith) (omega (arith, spelled)),
          spelled,
          reverse_cons (element m) (map element ms) s,
        )
        (equal_numbers (n - (m + sum ms)) (value (c ∷ cs))
          (reverse (map element ms) ++ element m ∷ s) alt (omega arith) fits)
