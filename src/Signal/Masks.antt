-- ===== src/Signal/Masks.antt =====
-- Signal masks of aether-kernel/src/signal/core.rs, signal by signal: signal `s` is digit `s - 1`.
use aether_kernel.Prelude.{ℕ, ◌-◌, ◌<◌, ◌≡◌, false, ◌&&◌, ◌||◌, not, ltb, ◌==◌, arith}
use native.Mathlib.Nat.{one-le-pow}
use aether_kernel.Prelude.Bits.{
  test_bit, test_bit-bit_and, test_bit-bit_or, test_bit-two_pow, test_bit-bit_not64,
  bit_and-two_pow, bit_and-zero,
}
use aether_kernel.Signal.Abi.{SigSet, sigbit, sigkill, sigstop, signal_max}
use aether_kernel.Signal.Core.{sanitize_mask, is_blocked}

-- A mask that holds neither SIGKILL nor SIGSTOP.
abbrev pub IsClean : SigSet → Type 0
IsClean mask = (test_bit mask 8 ≡ false) × (test_bit mask 18 ≡ false)

-- `sanitize_mask` takes SIGKILL and SIGSTOP out of a mask and keeps every other signal as it was.
pub sanitize_mask_lem :
    (mask i : ℕ)
    → i < 64
    → test_bit (sanitize_mask mask) i ≡ test_bit mask i && not (i == 8 || i == 18)
unfolding sanitize_mask sigbit
sanitize_mask_lem mask i h =
    rw (test_bit-bit_and, test_bit-bit_not64, h, test_bit-bit_or)
      (ground (arith, test_bit-two_pow 8 i, test_bit-two_pow 18 i))

pub sanitize_mask-IsClean : (mask : SigSet) → IsClean (sanitize_mask mask)
sanitize_mask-IsClean mask = (
  ground (arith, sanitize_mask_lem mask 8 (omega arith)),
  ground (arith, sanitize_mask_lem mask 18 (omega arith)),
)

-- A signal is blocked exactly when it is one of 1 to 64 but not SIGKILL or SIGSTOP, and is set in
-- the mask.
pub is_blocked_lem :
    (mask s : ℕ)
    → is_blocked mask s
      ≡ not (s == 0)
        && not (ltb signal_max s)
        && test_bit mask (s - 1)
        && not (s == sigkill)
        && not (s == sigstop)
unfolding is_blocked sigbit
is_blocked_lem mask s =
    ground (arith, bit_and-two_pow mask (s - 1), one-le-pow (s - 1) 2, bit_and-zero mask)
