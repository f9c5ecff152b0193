-- ===== src/Vfs/Types.antt =====
-- aether-vfs/src/node.rs (FsError, FsResult) and aether-vfs/src/file.rs (PollEvents).
-- `PollEvents` is a struct around one u32, its bits.
use Prim.Native.Nat.{bit_and, bit_or}
use native.Mathlib.Nat.{one-le-pow}
use aether_kernel.Prelude.{ℕ, ◌^◌, ◌≡◌, Bool, arith, ◌==◌}
use aether_kernel.Prelude.Bits.{test_bit, bit_and-two_pow}

pub data FsError : Type 0 where
  not_found not_directory not_file already_exists unsupported io permission_denied : FsError
  invalid_input root_not_mounted would_block broken_pipe : FsError

pub data FsResult {ℓ} (A : Type ℓ) : Type ℓ where
  ok : A → FsResult A
  err : FsError → FsResult A

abbrev pub PollEvents : Type 0
PollEvents = ℕ

abbrev pub poll_read : PollEvents
poll_read = 2 ^ 0

abbrev pub poll_write : PollEvents
poll_write = 2 ^ 1

abbrev pub poll_error : PollEvents
poll_error = 2 ^ 2

abbrev pub poll_hup : PollEvents
poll_hup = 2 ^ 3

abbrev pub empty : PollEvents
empty = 0

unfoldable pub contains : PollEvents → PollEvents → Bool
contains self other = bit_and self other == other

unfoldable pub intersection : PollEvents → PollEvents → PollEvents
intersection self other = bit_and self other

abbrev pub union : PollEvents → PollEvents → PollEvents
union = bit_or

-- A single flag is contained when its digit is set.
pub contains-flag : (e i : ℕ) → contains e (2 ^ i) ≡ test_bit e i
unfolding contains
contains-flag e i = ground (arith, bit_and-two_pow e i, one-le-pow i 2)
