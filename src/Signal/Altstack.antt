-- ===== src/Signal/Altstack.antt =====
-- aether-kernel/src/signal/abi.rs: the alternate signal stack.
use Prim.Native.Nat.{bit_and, bit_or, bit_xor}
use aether_kernel.Prelude.{
  ℕ, ◌+◌, ◌-◌, ◌^◌, Bool, false, ◌&&◌, not, Option, some, none, ltb, leb, ◌==◌, if◌then◌else◌,
}
use aether_kernel.Signal.Abi.{SignalStack}

abbrev pub ss_onstack : ℕ
ss_onstack = 1

abbrev pub ss_disable : ℕ
ss_disable = 2

abbrev pub ss_autodisarm : ℕ
ss_autodisarm = 0x8000_0000

abbrev pub minsigstksz : ℕ
minsigstksz = 2048

-- The errors of `SysErr` that the signal code returns.
pub data SysErr : Type 0 where
  inval no_mem perm : SysErr

unfoldable pub disabled : SignalStack
disabled = record { ss_sp = 0; ss_flags = ss_disable; pad = 0; ss_size = 0 }

-- `!flags` on an i32.
abbrev pub not32 : ℕ → ℕ
not32 flags = bit_xor flags (2 ^ 32 - 1)

unfoldable pub config_enabled : SignalStack → Bool
config_enabled stack = (bit_and stack.ss_flags ss_disable == 0) && ltb 0 stack.ss_size

-- `checked_add` of u64
abbrev pub checked_add : ℕ → ℕ → Option ℕ
checked_add a b = if ltb (a + b) (2 ^ 64) then some (a + b) else none

abbrev in_range : ℕ → ℕ → Option ℕ → Bool
in_range sp base none = false
in_range sp base (some end) = leb base sp && ltb sp end

unfoldable pub contains_sp : SignalStack → ℕ → Bool
contains_sp stack sp =
    if not (config_enabled stack)
    then false
    else in_range sp stack.ss_sp (checked_add stack.ss_sp stack.ss_size)

unfoldable pub status_flags : SignalStack → ℕ → ℕ
status_flags stack sp =
    if not (config_enabled stack)
    then ss_disable
    else (let flags = bit_and stack.ss_flags ss_autodisarm in
        if contains_sp stack sp then bit_or flags ss_onstack else flags)

unfoldable pub format_old : SignalStack → ℕ → SignalStack
format_old stack sp = record stack { ss_flags = status_flags stack sp }

unfoldable pub validate_new : SignalStack → Option SysErr
validate_new stack =
    if not (bit_and stack.ss_flags ss_disable == 0)
    then none
    else if not (bit_and stack.ss_flags (not32 (bit_or ss_onstack ss_autodisarm)) == 0)
    then some inval
    else if ltb stack.ss_size minsigstksz
    then some no_mem
    else none

-- What `signal_altstack_store` leaves in its destination, which it overwrites whole.
unfoldable pub store : SignalStack → SignalStack
store src =
    if not (bit_and src.ss_flags ss_disable == 0)
    then disabled
    else record src { ss_flags = bit_and (bit_and src.ss_flags (not32 ss_onstack)) ss_autodisarm }
