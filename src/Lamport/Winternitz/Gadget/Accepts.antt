-- ===== src/Lamport/Winternitz/Gadget/Accepts.antt =====
-- `wots_verify` of crates/lamport/src/winternitz.rs, run by the interpreter, against the native
-- `verify`.
use mathlib.Core.Option
use native.Mathlib.Nat.{pow-le-pow_right}
use ln_gap.Prelude.{
  ◌⊎◌, ℕ, zero, suc, ◌+◌, ◌-◌, ◌*◌, ◌^◌, ◌≤◌, ◌<◌, ◌≡◌, refl, Bool, false, List, ◌++◌, sym, Bytes,
  length, inl, inr, Bool-cases, arith, ◌∙◌, map, reverse, sum, some, to_option, to_option-some,
  to_option-none, All, take, drop, ◌==◌, take-append-drop, length-take, length-drop, length-map,
  dec_lt,
}
use ln_gap.Script.Stack.{Elements}
use ln_gap.Script.Machine.{machine, skipping}
use ln_gap.Script.Runs.{exec, exec-append}
use ln_gap.Script.Builder.{IntPush}
use ln_gap.Lamport.Winternitz.{
  WotsParams, WotsPublic, WotsSig, max_digit, total_digits, consumption_order, verify, for_bytes,
}
use ln_gap.Lamport.Winternitz.Checksum.{value, value-lt, sum-le}
use ln_gap.Lamport.Winternitz.Params.{for_bytes-IsWidth}
use ln_gap.Lamport.Winternitz.Gadget.{ChainKind, chain_size, chain_hash, wots_verify}
use ln_gap.Lamport.Winternitz.Gadget.Finale.{element}
use ln_gap.Lamport.Winternitz.Gadget.Native.{
  clamp, clamped, clamp-small, All-take, All-drop, chains_hold, verify-tests,
}
use ln_gap.Lamport.Winternitz.Gadget.Verify.{steps_run, finale_run}

-- What a message of at least a byte and of less than 2 ^ 23 bytes makes of the parameters.
record IsSized (n : ℕ) (ps : WotsParams) : Type 0 where
  pub even : ps.message_digits ≡ n * 2
  pub some_checksum : 0 < ps.checksum_digits
  pub small_checksum : 16 ^ ps.checksum_digits ≤ 2 ^ 28
  pub fits : max_digit * ps.message_digits < 16 ^ ps.checksum_digits

small_width : (bound c : ℕ) → bound ≤ 2 ^ 28 → 16 ^ (c - 1) < bound → 16 ^ c ≤ 2 ^ 28
small_width bound c h k = elim (dec_lt 7 c) [
  | yes l ↦
      absurd
        (omega (arith, pow-le-pow_right {n = 16} (omega arith) {i = 7} {j = c - 1} (omega arith)))
  | no l ↦ pow-le-pow_right {n = 16} (omega arith) {i = c} {j = 7} (omega arith)
]

for_bytes-IsSized :
    (overflow_checks : Bool) (n : ℕ) (ps : WotsParams)
    → 0 < n
    → 15 * (n * 2) + 1 ≤ 2 ^ 28
    → for_bytes overflow_checks n ≡ some ps
    → IsSized n ps
for_bytes-IsSized overflow_checks n ps pos bound e =
    let (qs, got, digits, width) = for_bytes-IsWidth overflow_checks n (omega arith) in
    let same : qs ≡ ps = cc in
    let w : 1 ≤ qs.checksum_digits =
      wide (15 * (n * 2) + 1) qs.checksum_digits (omega arith) width.0 in
    let sized : IsSized n qs = record {
      even = digits;
      some_checksum = w;
      small_checksum = least (15 * (n * 2) + 1) qs.checksum_digits bound w width.1;
      fits = omega (arith, digits, width.0);
    } in
    rw same at sized
  where
    wide : (bound c : ℕ) → 1 < bound → bound ≤ 16 ^ c → 1 ≤ c
    wide bound zero h k = absurd (omega arith)
    wide bound (suc c) h k = omega arith

    least :
        (bound c : ℕ) → bound ≤ 2 ^ 28 → 1 ≤ c → (c ≡ 0) ⊎ (16 ^ (c - 1) < bound) → 16 ^ c ≤ 2 ^ 28
    least bound c h k (inl z) = absurd (omega arith)
    least bound c h k (inr l) = small_width bound c h l

width_of :
    (xs : List ℕ) (ps : WotsParams)
    → length xs ≡ ps.checksum_digits
    → 16 ^ length xs ≡ 16 ^ ps.checksum_digits
width_of xs ps e = rw e refl

module _ (hash160 sha256 : Bytes → Bytes) (ip : IntPush) (alt : Elements) (skip : List Bool)
    (live : skipping skip ≡ false) where
  -- Where nothing is skipped, on a signature whose digits are below 128, the script accepts exactly
  -- when the native verification accepts the signature with its digits clamped to 15; it takes the
  -- signature from the stack and leaves the clamped message digits, the last on top.
  pub exec-wots_verify :
      (overflow_checks : Bool) (kind : ChainKind) (n : ℕ) (pk : WotsPublic) (sig : WotsSig)
      (s : Elements)
      → 0 < n
      → 15 * (n * 2) + 1 ≤ 2 ^ 28
      → for_bytes overflow_checks n ≡ some pk.params
      → sig.params ≡ pk.params
      → length pk.digits ≡ total_digits pk.params
      → length sig.digits ≡ total_digits pk.params
      → length sig.hashes ≡ total_digits pk.params
      → All (λ d. d < 128) sig.digits
      → All (λ h. length h ≡ chain_size kind) sig.hashes
      → to_option (
          exec hash160 sha256
            (wots_verify ip kind pk)
            (machine (consumption_order sig ++ s) alt skip))
        ≡ Option.map
            (λ (msg : Bytes).
              machine
                (reverse (map element (take pk.params.message_digits (map clamp sig.digits))) ++ s)
                alt
                skip)
            (to_option (verify (chain_hash hash160 sha256 kind) pk (clamped sig)))
  unfolding wots_verify consumption_order
  exec-wots_verify overflow_checks kind n pk sig s pos bound made e a b c small sized =
      let f = chain_hash hash160 sha256 kind in
      let k = pk.params.message_digits in
      let ds = map clamp sig.digits in
      let z = for_bytes-IsSized overflow_checks n pk.params pos bound made in
      let lds : length ds ≡ total_digits pk.params = length-map clamp sig.digits ∙ b in
      let (msg, native) =
        verify-tests f n pk (clamped sig) e z.even z.fits a lds c (clamp-small sig.digits) in
      let steps =
        steps_run hash160 sha256 ip skip live kind pk.digits sig.digits sig.hashes s alt (b ∙ sym a)
          (c ∙ sym a) small sized in
      let finale = rw (take-append-drop k ds) at (
        finale_run hash160 sha256 ip skip live pk.params (take k ds) (drop k ds) s alt
          (omega (arith, length-take k ds)) (omega (arith, length-drop k ds))
          (omega (arith, z.even)) z.some_checksum (omega (arith, z.fits, z.small_checksum))
          (omega
            (arith, sum-le (take k ds) (All-take k ds (clamp-small sig.digits)), length-take k ds))
          (omega (
            arith,
            value-lt (drop k ds) (All-drop k ds (clamp-small sig.digits)),
            z.small_checksum,
            width_of (drop k ds) pk.params (omega (arith, length-drop k ds)),
          ))) in
      elim (Bool-cases (chains_hold f ds sig.hashes pk.digits)) [
        | inr x ↦ rw (exec-append, (to_option-none _ (rw x at steps)).1, native, x) refl
        | inl x ↦
            rw (exec-append, to_option-some _ _ (rw x at steps), finale, native, x)
              (elim (Bool-cases (max_digit * k - sum (take k ds) == value (drop k ds))) [
                | inl y ↦ rw y refl
                | inr y ↦ rw y refl
              ])
      ]
