-- ===== src/Vfs/Open.antt =====
-- aether-kernel/libs/aether-vfs/src/file.rs: `OpenFlags`, a struct around one u32, its bits.
use Prim.Native.Nat.{bit_and}
use aether_kernel.Prelude.{ℕ, ◌^◌, Bool, ◌||◌, not, ◌==◌}

abbrev pub OpenFlags : Type 0
OpenFlags = ℕ

abbrev pub open_read : OpenFlags
open_read = 2 ^ 0

abbrev pub open_write : OpenFlags
open_write = 2 ^ 1

abbrev pub open_append : OpenFlags
open_append = 2 ^ 2

abbrev pub open_nonblock : OpenFlags
open_nonblock = 2 ^ 3

abbrev pub open_directory : OpenFlags
open_directory = 2 ^ 4

unfoldable pub has_bit : OpenFlags → ℕ → Bool
has_bit flags bit = not (bit_and flags bit == 0)

abbrev pub can_read : OpenFlags → Bool
can_read flags = has_bit flags open_read || not (has_bit flags open_write)

abbrev pub can_write : OpenFlags → Bool
can_write flags = has_bit flags open_write

abbrev pub is_append : OpenFlags → Bool
is_append flags = has_bit flags open_append

abbrev pub is_nonblock : OpenFlags → Bool
is_nonblock flags = has_bit flags open_nonblock

abbrev pub is_directory : OpenFlags → Bool
is_directory flags = has_bit flags open_directory
