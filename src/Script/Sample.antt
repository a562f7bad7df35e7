-- ===== src/Script/Sample.antt =====
-- `Builder::push_int` of rust-bitcoin as a function, for the examples.
use ln_gap.Prelude.{ℕ, zero, suc, ◌≡◌, ◌⊎◌, refl, inl, inr, [], ltb, if◌then◌else◌, Bool-cases, pos}
use ln_gap.Script.Number.{encode}
use ln_gap.Script.Machine.{Instruction, push_bytes, op, op_pushnum}
use ln_gap.Script.Builder.{IntPush}

abbrev pub push_number : ℕ → Instruction
push_number zero = push_bytes []
push_number (suc k) = if ltb k 16 then op (op_pushnum k) else push_bytes (encode (pos (suc k)))

pub push_number_form :
    (n : ℕ)
    → (push_number n ≡ push_bytes (encode (pos n)))
      ⊎ ((k : ℕ) × (n ≡ suc k) × (push_number n ≡ op (op_pushnum k)))
unfolding encode
push_number_form zero = inl refl
push_number_form (suc k) = elim (Bool-cases (ltb k 16)) [
  | inl e ↦ inr (k, refl, rw e refl)
  | inr e ↦ inl (rw e refl)
]

abbrev pub rust_push : IntPush
rust_push = record { push_int = push_number; push_int_form = push_number_form }
