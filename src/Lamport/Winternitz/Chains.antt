-- ===== src/Lamport/Winternitz/Chains.antt =====
-- Hash chains: `hash_times` of crates/lamport/src/winternitz.rs.
use ln_gap.Prelude.{ℕ, zero, suc, ◌+◌, ◌≡◌}
use native.Mathlib.Nat.{zero-add, suc-add}
use ln_gap.Lamport.Key.{Bytes}
use ln_gap.Lamport.Winternitz.{hash_times}

module _ (hash : Bytes → Bytes) where
  pub hash_times-add :
      (a : ℕ) (h : Bytes) (b : ℕ)
      → hash_times hash (hash_times hash h a) b ≡ hash_times hash h (a + b)
  unfolding hash_times
  hash_times-add zero h b = rw zero-add
  hash_times-add (suc a) h b = rw suc-add (hash_times-add a (hash h) b)
