-- ===== src/Fd/Flags.antt =====
-- The flags of open(2) and fcntl(2) in fd.rs, and the `OpenFlags` that they stand for.
use Prim.Native.Nat.{bit_and, bit_or}
use native.Mathlib.Nat.{one-le-pow}
use aether_kernel.Prelude.{
  ℕ, zero, suc, ◌+◌, ◌^◌, ◌≡◌, refl, ◌∙◌, Bool, true, false, ◌&&◌, ◌||◌, not, arith, ◌==◌,
  if◌then◌else◌,
}
use aether_kernel.Prelude.Bits.{
  test_bit, test_bit-bit_or, test_bit-bit_and, test_bit-two_pow, test_bit_zero, test_bit-ext,
  bit_and-two_pow,
}
use aether_kernel.Vfs.Open.{
  OpenFlags, open_read, open_write, open_append, open_nonblock, open_directory, has_bit, can_read,
  can_write, is_append, is_nonblock, is_directory,
}

abbrev pub o_accmode : ℕ
o_accmode = 3

abbrev pub o_wronly : ℕ
o_wronly = 2 ^ 0

abbrev pub o_rdwr : ℕ
o_rdwr = 2 ^ 1

abbrev pub o_append : ℕ
o_append = 2 ^ 10

abbrev pub o_nonblock : ℕ
o_nonblock = 2 ^ 11

abbrev pub o_directory : ℕ
o_directory = 2 ^ 16

-- `if test { bits |= bit; }`
unfoldable pub or_if : Bool → ℕ → ℕ → ℕ
or_if test bit bits = if test then bit_or bits bit else bits

abbrev pub access_bits : ℕ → OpenFlags
access_bits raw =
    if bit_and raw o_accmode == o_wronly
    then open_write
    else if bit_and raw o_accmode == o_rdwr
    then bit_or open_read open_write
    else open_read

unfoldable pub linux_open_flags : ℕ → OpenFlags
linux_open_flags raw = or_if (not (bit_and raw o_directory == 0)) open_directory (
    or_if (not (bit_and raw o_nonblock == 0)) open_nonblock
      (or_if (not (bit_and raw o_append == 0)) open_append (access_bits raw)))

unfoldable pub linux_status_flags : OpenFlags → ℕ
linux_status_flags flags = or_if (is_directory flags) o_directory (
    or_if (is_nonblock flags) o_nonblock (
      or_if (is_append flags) o_append
        (if can_write flags then (if can_read flags then o_rdwr else o_wronly) else 0)))

test_bit-or_if :
    (c : Bool) (k b i : ℕ) → test_bit (or_if c (2 ^ k) b) i ≡ test_bit b i || (c && k == i)
unfolding or_if
test_bit-or_if true k b i = rw (test_bit-bit_or, test_bit-two_pow) refl
test_bit-or_if false k b i = ground arith

has-digit : (a k : ℕ) → not (bit_and a (2 ^ k) == 0) ≡ test_bit a k
has-digit a k = ground (arith, bit_and-two_pow a k, one-le-pow k 2)

-- The last two digits as a number.
abbrev low_digits : Bool → Bool → ℕ
low_digits a b = (if a then 1 else 0) + (if b then 2 else 0)

low_digits-digit :
    (a b : Bool) (i : ℕ) → test_bit (low_digits a b) i ≡ (a && i == 0) || (b && i == 1)
low_digits-digit true true zero = refl
low_digits-digit true true (suc zero) = refl
low_digits-digit true true (suc (suc i)) = rw test_bit_zero (ground arith)
low_digits-digit true false zero = refl
low_digits-digit true false (suc zero) = refl
low_digits-digit true false (suc (suc i)) = rw test_bit_zero (ground arith)
low_digits-digit false true zero = refl
low_digits-digit false true (suc zero) = refl
low_digits-digit false true (suc (suc i)) = rw test_bit_zero (ground arith)
low_digits-digit false false i = rw test_bit_zero (ground arith)

bit_and-o_accmode : (raw : ℕ) → bit_and raw o_accmode ≡ low_digits (test_bit raw 0) (test_bit raw 1)
bit_and-o_accmode raw = test_bit-ext _ _ λ i. rw (test_bit-bit_and) (
    ground (
      arith,
      low_digits-digit true true i,
      low_digits-digit (test_bit raw 0) (test_bit raw 1) i,
      digit i,
    ))
  where
    digit :
        (i : ℕ)
        → test_bit raw i && ((true && i == 0) || (true && i == 1))
          ≡ (test_bit raw 0 && i == 0) || (test_bit raw 1 && i == 1)
    digit zero = ground arith
    digit (suc zero) = ground arith
    digit (suc (suc i)) = ground arith

access_bits-digit :
    (raw i : ℕ)
    → test_bit raw 0 && test_bit raw 1 ≡ false
    → test_bit (access_bits raw) i
      ≡ (not (test_bit raw 0) && i == 0) || ((test_bit raw 0 || test_bit raw 1) && i == 1)
access_bits-digit raw i h =
    rw (bit_and-o_accmode raw)
      (ground (arith, test_bit-two_pow 0 i, test_bit-two_pow 1 i, test_bit-bit_or 1 2 i, h))

-- The digits of the flags that a call of open(2) stands for.
linux_open_flags-digit :
    (raw i : ℕ)
    → test_bit raw 0 && test_bit raw 1 ≡ false
    → test_bit (linux_open_flags raw) i ≡ (
        ((((not (test_bit raw 0) && i == 0) || ((test_bit raw 0 || test_bit raw 1) && i == 1))
            || (test_bit raw 10 && 2 == i))
          || (test_bit raw 11 && 3 == i))
        || (test_bit raw 16 && 4 == i))
unfolding linux_open_flags
linux_open_flags-digit raw i h = ground (
  arith,
  test_bit-or_if (not (bit_and raw o_directory == 0)) 4
      (or_if (not (bit_and raw o_nonblock == 0)) open_nonblock
        (or_if (not (bit_and raw o_append == 0)) open_append (access_bits raw)))
      i,
  test_bit-or_if (not (bit_and raw o_nonblock == 0)) 3
      (or_if (not (bit_and raw o_append == 0)) open_append (access_bits raw)) i,
  test_bit-or_if (not (bit_and raw o_append == 0)) 2 (access_bits raw) i,
  access_bits-digit raw i h,
  has-digit raw 10,
  has-digit raw 11,
  has-digit raw 16,
)

-- The access mode that is read back, by whether there is write and read access.
abbrev mode : Bool → Bool → ℕ
mode w r = if w then (if r then o_rdwr else o_wronly) else 0

mode-digit :
    (w r : Bool) (i : ℕ) → test_bit (mode w r) i ≡ (w && not r && i == 0) || (w && r && i == 1)
mode-digit true true i = ground (arith, test_bit-two_pow 1 i)
mode-digit true false i = ground (arith, test_bit-two_pow 0 i)
mode-digit false r i = rw test_bit_zero (ground arith)

status-digit :
    (flags i : ℕ)
    → test_bit (linux_status_flags flags) i ≡ (
        ((test_bit (mode (test_bit flags 1) (test_bit flags 0 || not (test_bit flags 1))) i
            || (test_bit flags 2 && 10 == i))
          || (test_bit flags 3 && 11 == i))
        || (test_bit flags 4 && 16 == i))
unfolding linux_status_flags has_bit
status-digit flags i =
    rw
      (
        test_bit-or_if (is_directory flags) 16
            (or_if (is_nonblock flags) o_nonblock
              (or_if (is_append flags) o_append (mode (can_write flags) (can_read flags))))
            i,
        test_bit-or_if (is_nonblock flags) 11
            (or_if (is_append flags) o_append (mode (can_write flags) (can_read flags))) i,
        test_bit-or_if (is_append flags) 10 (mode (can_write flags) (can_read flags)) i,
        has-digit flags 0,
        has-digit flags 1,
        has-digit flags 2,
        has-digit flags 3,
        has-digit flags 4,
      )
      refl

-- The five flags of an open file.
open-digits :
    (raw : ℕ)
    → test_bit raw 0 && test_bit raw 1 ≡ false
    → (test_bit (linux_open_flags raw) 0 ≡ not (test_bit raw 0))
      × (test_bit (linux_open_flags raw) 1 ≡ test_bit raw 0 || test_bit raw 1)
      × (test_bit (linux_open_flags raw) 2 ≡ test_bit raw 10)
      × (test_bit (linux_open_flags raw) 3 ≡ test_bit raw 11)
      × (test_bit (linux_open_flags raw) 4 ≡ test_bit raw 16)
open-digits raw h = (
  linux_open_flags-digit raw 0 h ∙ ground arith,
  linux_open_flags-digit raw 1 h ∙ ground arith,
  linux_open_flags-digit raw 2 h ∙ ground arith,
  linux_open_flags-digit raw 3 h ∙ ground arith,
  linux_open_flags-digit raw 4 h ∙ ground arith,
)

mode-of_open :
    (a b : Bool) (i : ℕ)
    → a && b ≡ false
    → test_bit (mode (a || b) (not a || not (a || b))) i ≡ (a && i == 0) || (b && i == 1)
mode-of_open true true i h = ground (arith, h)
mode-of_open true false i h = mode-digit true false i ∙ ground arith
mode-of_open false true i h = mode-digit true true i ∙ ground arith
mode-of_open false false i h = mode-digit false true i ∙ ground arith

-- The status flags read back from a file that was opened with `raw`, in which the access mode is
-- not 3: exactly the access mode, O_APPEND, O_NONBLOCK and O_DIRECTORY of `raw`, and no other flag.
pub linux_status_flags-linux_open_flags :
    (raw i : ℕ)
    → test_bit raw 0 && test_bit raw 1 ≡ false
    → test_bit (linux_status_flags (linux_open_flags raw)) i
      ≡ test_bit raw i && (i == 0 || i == 1 || i == 10 || i == 11 || i == 16)
linux_status_flags-linux_open_flags raw i h =
    let (o0, o1, o2, o3, o4) = open-digits raw h in
    rw
      (
        status-digit (linux_open_flags raw) i,
        o0,
        o1,
        o2,
        o3,
        o4,
        mode-of_open (test_bit raw 0) (test_bit raw 1) i h,
      )
      (ground arith)
