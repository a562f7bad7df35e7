-- ===== src/N4Bit/Script/Nibble.antt =====
-- One nibble and one pair of crates/n4bit/src/script.rs, run by the interpreter.
use mathlib.Core.List.{append_assoc}
use ln_gap.Prelude.{
  get_or-append_left, get_or-map, le→leb, ℕ, ◌+◌, ◌-◌, ◌%◌, ◌<◌, ◌≡◌, refl, Bool, true, false, List,
  [], ◌∷◌, ◌++◌, map, Bytes, pos, length, get_or, get_or_suffix, ltb, lt→ltb, ltb_ge, ok, arith,
  ◌∙◌, dec_lt, length-append,
}
use ln_gap.Script.Number.{encode, truthy}
use ln_gap.Script.Stack.{Elements}
use ln_gap.Script.Stack.Reads.{length-encode_small, number_of-encode_small}
use ln_gap.Script.Machine.{
  Script, machine, skipping, step, execute, on_main, op, Instruction, op_swap, op_dup,
  op_fromaltstack, op_add, op_over, op_toaltstack,
}
use ln_gap.Script.Runs.{exec, exec-append}
use ln_gap.Script.Builder.{IntPush, step-push_int}
use ln_gap.N4Bit.{sbox, rc}
use ln_gap.N4Bit.Ranges.{substitute}
use ln_gap.N4Bit.Script.{mod16, add_constant, sbox_lookup, feistel_add, sbox_phase_round, mix_pair}

-- A nibble as the script holds it.
abbrev pub element : ℕ → Bytes
element n = encode (pos n)

encode_one : encode (pos 1) ≡ 1 ∷ []
unfolding encode
encode_one = refl

encode_zero : encode (pos 0) ≡ []
unfolding encode
encode_zero = refl

-- The table of the S-box on the stack, its first entry on top.
abbrev pub table : Elements
table = map element sbox

-- Below the nibbles `pre`, the table holds what a nibble is replaced by.
table_entry :
    (pre s : Elements) (i m : ℕ)
    → length pre ≡ i
    → m < 16
    → get_or (pre ++ (table ++ s)) (m + i) [] ≡ element (substitute m)
table_entry pre s i m e h =
    let swapped : m + i ≡ i + m = omega arith in
    rw (swapped, get_or_suffix i pre (table ++ s) m [] e)
      (get_or-append_left table s m [] h ∙ get_or-map element sbox m 0 [] h)

table_reached :
    (pre s : Elements) (i m : ℕ)
    → length pre ≡ i
    → m < 16
    → ltb (m + i) (length (pre ++ (table ++ s))) ≡ true
table_reached pre s i m e h =
    lt→ltb (m + i) _ (omega (arith, length-append pre (table ++ s), length-append table s))

one_less : (i : ℕ) → i + 1 - 1 ≡ i
one_less i = omega arith

module _ (hash160 sha256 : Bytes → Bytes) (ip : IntPush) (skip : List Bool)
    (live : skipping skip ≡ false) where
  -- Below 32 the correction is the remainder by 16.
  exec-mod16 :
      (n : ℕ) (s alt : Elements)
      → n < 32
      → exec hash160 sha256 (mod16 ip) (machine (element n ∷ s) alt skip)
        ≡ ok (machine (element (n % 16) ∷ s) alt skip)
  unfolding exec mod16 step execute on_main truthy
  exec-mod16 n s alt h = elim (dec_lt n 16) [
    | yes low ↦
        let same : n % 16 ≡ n = omega arith in
        simp (
          live,
          step-push_int,
          length-encode_small (pos n) (omega arith),
          number_of-encode_small (pos n) (omega arith),
          length-encode_small (pos 16) (omega arith),
          number_of-encode_small (pos 16) (omega arith),
          lt→ltb n 16 low,
          encode_zero,
          same,
        )
    | no high ↦
        let same : n - 16 ≡ n % 16 = omega arith in
        simp (
          live,
          step-push_int,
          length-encode_small (pos n) (omega arith),
          number_of-encode_small (pos n) (omega arith),
          length-encode_small (pos 16) (omega arith),
          number_of-encode_small (pos 16) (omega arith),
          ltb_ge n 16 (omega arith),
          le→leb 16 n (omega arith),
          encode_one,
          same,
        )
  ]

  add_number :
      (n c : ℕ) (s alt : Elements) (rest : Script)
      → n < 16
      → c < 16
      → exec hash160 sha256 (ip.push_int c ∷ (op op_add ∷ rest)) (machine (element n ∷ s) alt skip)
        ≡ exec hash160 sha256 rest (machine (element (n + c) ∷ s) alt skip)
  unfolding exec step execute on_main
  add_number n c s alt rest h k = simp (
    live,
    step-push_int,
    length-encode_small (pos n) (omega arith),
    number_of-encode_small (pos n) (omega arith),
    length-encode_small (pos c) (omega arith),
    number_of-encode_small (pos c) (omega arith),
  )

  exec-add_constant :
      (n c : ℕ) (s alt : Elements)
      → n < 16
      → c < 16
      → exec hash160 sha256 (add_constant ip c) (machine (element n ∷ s) alt skip)
        ≡ ok (machine (element ((n + c) % 16) ∷ s) alt skip)
  unfolding add_constant
  exec-add_constant n c s alt h k =
      add_number n c s alt (mod16 ip) h k ∙ exec-mod16 (n + c) s alt (omega arith)

  exec-sbox_lookup :
      (i m : ℕ) (pre s alt : Elements)
      → length pre ≡ i
      → i < 40
      → m < 16
      → exec hash160 sha256
          (sbox_lookup ip (i + 1) ++ op op_toaltstack ∷ [])
          (machine (element m ∷ (pre ++ (table ++ s))) alt skip)
        ≡ ok (machine (pre ++ (table ++ s)) (element (substitute m) ∷ alt) skip)
  unfolding exec sbox_lookup step execute on_main
  exec-sbox_lookup i m pre s alt e h k = simp (
    live,
    step-push_int,
    one_less i,
    length-encode_small (pos m) (omega arith),
    number_of-encode_small (pos m) (omega arith),
    length-encode_small (pos i) (omega arith),
    number_of-encode_small (pos i) (omega arith),
    length-encode_small (pos (m + i)) (omega arith),
    number_of-encode_small (pos (m + i)) (omega arith),
    table_reached pre s i m e k,
    table_entry pre s i m e k,
  )

  -- A nibble at place `i` gets its constant, is replaced, and is parked.
  pub exec-sbox_phase_round :
      (r i n : ℕ) (pre s alt : Elements)
      → length pre ≡ i
      → i < 40
      → n < 16
      → exec hash160 sha256
          (sbox_phase_round ip r i)
          (machine (element n ∷ (pre ++ (table ++ s))) alt skip)
        ≡ ok (machine (pre ++ (table ++ s)) (element (substitute ((n + rc r i) % 16)) ∷ alt) skip)
  unfolding sbox_phase_round
  exec-sbox_phase_round r i n pre s alt e h k =
      exec-append hash160 sha256 (add_constant ip (rc r i)) _ _
      ∙ rw (exec-add_constant n (rc r i) (pre ++ (table ++ s)) alt k (unfold rc in omega arith))
          (exec-sbox_lookup i ((n + rc r i) % 16) pre s alt e h (omega arith))

  add_under :
      (a b : ℕ) (s alt : Elements) (rest : Script)
      → a < 16
      → b < 16
      → exec hash160 sha256
          (op op_swap
            ∷ (op op_toaltstack ∷ (op op_dup ∷ (op op_fromaltstack ∷ (op op_add ∷ rest)))))
          (machine (element b ∷ (element a ∷ s)) alt skip)
        ≡ exec hash160 sha256 rest (machine (element (b + a) ∷ (element b ∷ s)) alt skip)
  unfolding exec step execute on_main
  add_under a b s alt rest h k = simp (
    live,
    length-encode_small (pos a) (omega arith),
    number_of-encode_small (pos a) (omega arith),
    length-encode_small (pos b) (omega arith),
    number_of-encode_small (pos b) (omega arith),
  )

  add_over :
      (x b : ℕ) (s alt : Elements) (rest : Script)
      → x < 16
      → b < 16
      → exec hash160 sha256
          (op op_swap ∷ (op op_over ∷ (op op_add ∷ rest)))
          (machine (element x ∷ (element b ∷ s)) alt skip)
        ≡ exec hash160 sha256 rest (machine (element (b + x) ∷ (element x ∷ s)) alt skip)
  unfolding exec step execute on_main
  add_over x b s alt rest h k = simp (
    live,
    length-encode_small (pos x) (omega arith),
    number_of-encode_small (pos x) (omega arith),
    length-encode_small (pos b) (omega arith),
    number_of-encode_small (pos b) (omega arith),
  )

  park_pair :
      (x y : Bytes) (s alt : Elements)
      → exec hash160 sha256
          (op op_swap ∷ (op op_swap ∷ (op op_toaltstack ∷ (op op_toaltstack ∷ []))))
          (machine (y ∷ (x ∷ s)) alt skip)
        ≡ ok (machine s (x ∷ (y ∷ alt)) skip)
  unfolding exec step execute on_main
  park_pair x y s alt = simp live

  -- A pair is mixed and parked.
  pub exec-mix_pair :
      (a b : ℕ) (s alt : Elements)
      → a < 16
      → b < 16
      → exec hash160 sha256 (mix_pair ip) (machine (element b ∷ (element a ∷ s)) alt skip)
        ≡ ok (machine s (element ((a + b) % 16) ∷ (element ((b + (a + b) % 16) % 16) ∷ alt)) skip)
  unfolding mix_pair feistel_add
  exec-mix_pair a b s alt h k =
      let x = (b + a) % 16 in
      let comm : b + a ≡ a + b = omega arith in
      rw (← comm) (
        add_under a b s alt _ h k
        ∙ rw
            (
              append_assoc {A = Instruction} (mod16 ip) _ _,
              exec-append hash160 sha256 (mod16 ip),
              exec-mod16 (b + a) (element b ∷ s) alt (omega arith),
            )
            (add_over x b s alt _ (omega arith) k
              ∙ rw
                  (
                    append_assoc {A = Instruction} (mod16 ip) _ _,
                    exec-append hash160 sha256 (mod16 ip),
                    exec-mod16 (b + x) (element x ∷ s) alt (omega arith),
                  )
                  (park_pair (element x) (element ((b + x) % 16)) s alt)))
