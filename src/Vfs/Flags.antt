-- ===== src/Vfs/Flags.antt =====
-- Sets of poll events of aether-vfs/src/file.rs that are built flag by flag, as `poll` builds them.
use aether_kernel.Prelude.{ℕ, ◌^◌, ◌≡◌, Bool, ◌&&◌, ◌||◌, arith, ◌==◌, if◌then◌else◌}
use aether_kernel.Prelude.Bits.{test_bit-bit_or, test_bit-two_pow, test_bit_zero}
use aether_kernel.Vfs.Types.{contains, contains-flag, union, empty}

-- A flag of a union of two optional flags.
pub flag_of_union :
    (a b : Bool) (i j k : ℕ)
    → contains (union (if a then 2 ^ i else empty) (if b then 2 ^ j else empty)) (2 ^ k)
      ≡ (a && i == k) || (b && j == k)
flag_of_union a b i j k =
    rw (contains-flag, test_bit-bit_or)
      (ground (arith, test_bit-two_pow i k, test_bit-two_pow j k, test_bit_zero k))
