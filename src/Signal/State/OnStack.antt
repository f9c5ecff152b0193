-- ===== src/Signal/State/OnStack.antt =====
-- aether-kernel/src/signal/state.rs: the alternate stack of a thread.
use Prim.Native.Nat.{bit_and}
use aether_kernel.Prelude.{ℕ, Bool, ◌&&◌, not, Option, some, none, ◌==◌, if◌then◌else◌}
use aether_kernel.Signal.Abi.{SigSet, SignalStack}
use aether_kernel.Signal.Altstack
use aether_kernel.Signal.Altstack.{SysErr, perm, ss_onstack, ss_autodisarm, checked_add}
use aether_kernel.Signal.Core.{sanitize_mask}
use aether_kernel.Signal.State.{SignalState, with_inner, sa_onstack}

unfoldable pub altstack : SignalState → ℕ → SignalStack
altstack s user_sp = Altstack.format_old s.inner.altstack user_sp

abbrev store_altstack : SignalState → SignalStack → SignalState
store_altstack s stack = with_inner s (record (s.inner) { altstack = Altstack.store stack })

pub data StackResult : Type 0 where
  ok : SignalStack → StackResult
  err : SysErr → StackResult

-- `set_altstack` at a new stack, by the result of its validation.
change_altstack :
    SignalState → SignalStack → SignalStack → Option SysErr → StackResult × SignalState
change_altstack s old_stack new_stack (some error) = (err error, s)
change_altstack s old_stack new_stack none =
    if not (bit_and old_stack.ss_flags ss_onstack == 0)
    then (err perm, s)
    else (ok old_stack, store_altstack s new_stack)

unfoldable pub set_altstack : SignalState → Option SignalStack → ℕ → StackResult × SignalState
unfolding change_altstack
set_altstack s none user_sp = (ok (Altstack.format_old s.inner.altstack user_sp), s)
set_altstack s (some new_stack) user_sp =
    change_altstack s (Altstack.format_old s.inner.altstack user_sp) new_stack
      (Altstack.validate_new new_stack)

unfoldable pub restore_after_sigreturn : SignalState → SigSet → SignalStack → SignalState
restore_after_sigreturn s mask stack =
    with_inner s
      (record (s.inner) { blocked = sanitize_mask mask; altstack = Altstack.store stack })

unfoldable pub should_use_altstack_for_signal : SignalState → ℕ → ℕ → Bool
should_use_altstack_for_signal s action_flags user_sp =
    not (bit_and action_flags sa_onstack == 0)
    && Altstack.config_enabled s.inner.altstack
    && not (Altstack.contains_sp s.inner.altstack user_sp)

unfoldable pub altstack_top_for_signal : SignalState → Option ℕ
altstack_top_for_signal s = checked_add s.inner.altstack.ss_sp s.inner.altstack.ss_size

unfoldable pub arm_altstack_for_signal : SignalState → SignalState
unfolding Altstack.disabled
arm_altstack_for_signal s =
    if not (bit_and s.inner.altstack.ss_flags ss_autodisarm == 0)
    then with_inner s (record (s.inner) { altstack = Altstack.disabled })
    else s
