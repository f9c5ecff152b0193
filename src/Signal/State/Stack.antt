-- ===== src/Signal/State/Stack.antt =====
-- The alternate stack of a thread in state.rs.
use Prim.Native.Nat.{bit_and}
use aether_kernel.Prelude.{
  ℕ, ◌+◌, ◌≡◌, ◌^◌, refl, Bool, false, ◌&&◌, ◌||◌, not, Option, some, none, ltb, leb, ◌==◌,
  if◌then◌else◌, arith, Option-cases, inl, inr,
}
use aether_kernel.Prelude.Bits.{test_bit, test_bit-bit_or, test_bit-bit_and, bit_and-two_pow}
use aether_kernel.Signal.Abi.{SignalStack}
use aether_kernel.Signal.Altstack.{
  SysErr, perm, ss_disable, ss_onstack, ss_autodisarm, not32, config_enabled, contains_sp,
  status_flags, format_old, validate_new, store, disabled,
}
use aether_kernel.Signal.State.{SignalState}
use aether_kernel.Signal.State.OnStack.{StackResult, ok, err, set_altstack, altstack}

-- The thread runs on its alternate stack: SS_DISABLE (digit 1) is not set, the stack does not reach
-- the end of the address space, and the stack pointer lies in it.
abbrev pub on_stack : SignalStack → ℕ → Bool
on_stack s sp =
    not (test_bit s.ss_flags 1)
    && ltb 0 s.ss_size
    && ltb (s.ss_sp + s.ss_size) (2 ^ 64)
    && leb s.ss_sp sp
    && ltb sp (s.ss_sp + s.ss_size)

-- What is stored for a stack: of its flags only SS_AUTODISARM (digit 31).
abbrev pub stored : SignalStack → SignalStack
stored s =
    if test_bit s.ss_flags 1
    then record { ss_sp = 0; ss_flags = 2; pad = 0; ss_size = 0 }
    else record s { ss_flags = if test_bit s.ss_flags 31 then 2 ^ 31 else 0 }

disable_flag : (flags : ℕ) → (bit_and flags ss_disable == 0) ≡ not (test_bit flags 1)
disable_flag flags = ground (arith, bit_and-two_pow flags 1)

contains_sp_lem : (s : SignalStack) (sp : ℕ) → contains_sp s sp ≡ on_stack s sp
unfolding contains_sp config_enabled
contains_sp_lem s sp = ground (arith, disable_flag s.ss_flags)

store_lem : (s : SignalStack) → store s ≡ stored s
unfolding store disabled
store_lem s = ground (
  arith,
  disable_flag s.ss_flags,
  bit_and-two_pow (bit_and s.ss_flags (not32 ss_onstack)) 31,
  test_bit-bit_and s.ss_flags (not32 ss_onstack) 31,
)

-- The status of the old stack tells whether the thread runs on it.
status_onstack :
    (s : SignalStack) (sp : ℕ)
    → (bit_and (format_old s sp).ss_flags ss_onstack == 0) ≡ not (on_stack s sp)
unfolding format_old status_flags config_enabled
status_onstack s sp = rw (bit_and-two_pow _ 0) (
    ground (
      arith,
      contains_sp_lem s sp,
      disable_flag s.ss_flags,
      test_bit-bit_or (bit_and s.ss_flags ss_autodisarm) ss_onstack 0,
      test_bit-bit_and s.ss_flags ss_autodisarm 0,
    ))

-- What is reported of a stack that the thread does not run on: SS_DISABLE (digit 1) when it is disabled
-- or empty, else of its flags only SS_AUTODISARM (digit 31).
abbrev pub reported : SignalStack → SignalStack
reported s = record s {
  ss_flags =
      if test_bit s.ss_flags 1 || (s.ss_size == 0)
      then 2
      else if test_bit s.ss_flags 31
      then 2 ^ 31
      else 0;
}

format_old-reported :
    (s : SignalStack) (sp : ℕ) → on_stack s sp ≡ false → format_old s sp ≡ reported s
unfolding format_old status_flags config_enabled
format_old-reported s sp h =
    ground (arith, h, contains_sp_lem s sp, disable_flag s.ss_flags, bit_and-two_pow s.ss_flags 31)

-- What `set_altstack` does with a new stack, by the result of its validation.
abbrev pub expected : SignalState → SignalStack → ℕ → Option SysErr → StackResult × SignalState
expected s stack sp (some error) = (err error, s)
expected s stack sp none = if on_stack s.inner.altstack sp then (err perm, s) else (
  ok (reported s.inner.altstack),
  record s { inner = record (s.inner) { altstack = stored stack } },
)

-- A new alternate stack is refused with the error of its validation, or else with EPERM while the
-- thread runs on the old one, and then nothing changes. Otherwise the address and the size of the old
-- stack are returned, with SS_DISABLE when it is disabled or empty and else no flag but SS_AUTODISARM,
-- and the new one is stored: a disabled one as the empty stack, another with no flag but
-- SS_AUTODISARM.
pub set_altstack_lem :
    (s : SignalState) (stack : SignalStack) (sp : ℕ)
    → set_altstack s (some stack) sp ≡ expected s stack sp (validate_new stack)
unfolding set_altstack altstack
set_altstack_lem s stack sp = elim (Option-cases (validate_new stack)) [
  | inl e ↦ rw e (
      ground (
        arith,
        status_onstack s.inner.altstack sp,
        format_old-reported s.inner.altstack sp,
        store_lem stack,
      ))
  | inr (error, e) ↦ rw e refl
]
