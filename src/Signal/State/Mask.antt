-- ===== src/Signal/State/Mask.antt =====
-- The mask operations of state.rs, signal by signal: signal `i + 1` is digit `i` of a mask.
use aether_kernel.Prelude.{
  ℕ, ◌<◌, ◌≡◌, refl, Bool, ◌&&◌, ◌||◌, not, none, ◌==◌, if◌then◌else◌, arith,
}
use aether_kernel.Prelude.Bits.{
  test_bit, test_bit-bit_or, test_bit-bit_and, bit_not64, test_bit-bit_not64,
}
use aether_kernel.Signal.Abi.{SigSet, sig_block, sig_unblock, sig_setmask}
use aether_kernel.Signal.Core.{sanitize_mask}
use aether_kernel.Signal.Masks.{sanitize_mask_lem}
use aether_kernel.Signal.State.{SignalState, set_mask, enter_sigsuspend, leave_sigsuspend}

-- A signal of the set, other than SIGKILL and SIGSTOP.
abbrev pub chosen : SigSet → ℕ → Bool
chosen set i = test_bit set i && not (i == 8 || i == 18)

-- `set_mask` adds the chosen signals of the set to the mask, takes them out of it, or makes them the
-- mask, by `how`; any other `how` leaves the mask as it was. Nothing but the mask changes.
pub set_mask_lem :
    (s : SignalState) (how set i : ℕ)
    → i < 64
    → (test_bit (set_mask s how set).inner.blocked i ≡ (
        if how == sig_block
        then test_bit s.inner.blocked i || chosen set i
        else if how == sig_unblock
        then test_bit s.inner.blocked i && not (chosen set i)
        else if how == sig_setmask
        then chosen set i
        else test_bit s.inner.blocked i))
      × (set_mask s how set
          ≡ record s { inner = record (s.inner) { blocked = (set_mask s how set).inner.blocked } })
unfolding set_mask
set_mask_lem s how set i h = (
  ground (
    arith,
    sanitize_mask_lem set i h,
    test_bit-bit_or s.inner.blocked (sanitize_mask set) i,
    test_bit-bit_and s.inner.blocked (bit_not64 (sanitize_mask set)) i,
    test_bit-bit_not64 (sanitize_mask set) i h,
  ),
  refl,
)

-- Leaving a sigsuspend restores the mask from before it, and leaves no mask put aside. During it
-- the mask is the one that was asked for, without SIGKILL and SIGSTOP.
pub leave-enter_sigsuspend :
    (s : SignalState) (mask i : ℕ)
    → i < 64
    → (leave_sigsuspend (enter_sigsuspend s mask)
        ≡ record s { inner = record (s.inner) { suspend_mask = none } })
      × (test_bit (enter_sigsuspend s mask).inner.blocked i ≡ chosen mask i)
unfolding enter_sigsuspend leave_sigsuspend
leave-enter_sigsuspend s mask i h = (refl, sanitize_mask_lem mask i h)
