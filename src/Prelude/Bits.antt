-- ===== src/Prelude/Bits.antt =====
-- Bit masks: the value of one binary digit, and what `&`, `|` and `^` do to it, at every width.
use Prim.Native.Nat.{
  ℕ, zero, suc, ◌+◌, ◌-◌, ◌*◌, ◌/◌, ◌%◌, ◌^◌, ◌≤◌, ◌<◌, min, max, digits, differ, bit_and, bit_or,
  bit_xor, bit_and-bitwise, bit_or-bitwise, bit_xor-bitwise,
}
use mathlib.Core.Path.{◌≡◌, refl, ◌∙◌}
use mathlib.Core.Logic.{inl, inr}
use mathlib.Core.Bool.{Bool, true, false, ◌&&◌, ◌||◌, not}
use native.Mathlib.Nat.{pow-suc, one-le-pow}
use native.Mathlib.Omega.{arith}
use aether_kernel.Prelude.Tests.{Bool-cases, ◌==◌, if◌then◌else◌}

-- Digit `i` of `a`, the lowest being digit 0.
abbrev pub test_bit : ℕ → ℕ → Bool
test_bit a zero = a % 2 == 1
test_bit a (suc i) = test_bit (a / 2) i

pub test_bit_zero : (i : ℕ) → test_bit 0 i ≡ false
test_bit_zero zero = refl
test_bit_zero (suc i) = test_bit_zero i

module _ (z : ℕ → ℕ) (f : ℕ → ℕ → ℕ) (op : Bool → Bool → Bool)
    (rest : (b i : ℕ) → test_bit (z b) i ≡ op false (test_bit b i))
    (digit : (x y : ℕ) → x < 2 → y < 2 → (f x y < 2) × ((f x y == 1) ≡ op (x == 1) (y == 1))) where
  test_bit-digits :
      (n a b i : ℕ) → a ≤ n → test_bit (digits z f n a b) i ≡ op (test_bit a i) (test_bit b i)
  test_bit-digits zero zero b i h = rw (test_bit_zero, rest b i)
  test_bit-digits zero (suc a) b i h = absurd (omega arith)
  test_bit-digits (suc n) zero b i h = rw (test_bit_zero, rest b i)
  test_bit-digits (suc n) (suc a) b zero h =
      rw low (digit (suc a % 2) (b % 2) (omega arith) (omega arith)).1
    where
      low :
          (digits z f n (suc a / 2) (b / 2) * 2 + f (suc a % 2) (b % 2)) % 2 ≡ f (suc a % 2) (b % 2)
      low = omega (arith, (digit (suc a % 2) (b % 2) (omega arith) (omega arith)).0)
  test_bit-digits (suc n) (suc a) b (suc i) h =
      rw high (test_bit-digits n (suc a / 2) (b / 2) i (omega arith))
    where
      high :
          (digits z f n (suc a / 2) (b / 2) * 2 + f (suc a % 2) (b % 2)) / 2
          ≡ digits z f n (suc a / 2) (b / 2)
      high = omega (arith, (digit (suc a % 2) (b % 2) (omega arith) (omega arith)).0)

min_digit : (x y : ℕ) → x < 2 → y < 2 → (min x y < 2) × ((min x y == 1) ≡ (x == 1) && (y == 1))
min_digit x y h k = (omega arith, ground arith)

max_digit : (x y : ℕ) → x < 2 → y < 2 → (max x y < 2) × ((max x y == 1) ≡ (x == 1) || (y == 1))
max_digit x y h k = (omega arith, ground arith)

-- Exclusive or.
abbrev pub differs : Bool → Bool → Bool
differs a b = if a then not b else b

differ_digit :
    (x y : ℕ) → x < 2 → y < 2 → (differ x y < 2) × ((differ x y == 1) ≡ differs (x == 1) (y == 1))
differ_digit zero y h k = (k, refl)
differ_digit (suc zero) zero h k = (omega arith, refl)
differ_digit (suc zero) (suc zero) h k = (omega arith, refl)
differ_digit (suc x) (suc (suc y)) h k = absurd (omega arith)
differ_digit (suc (suc x)) y h k = absurd (omega arith)

pub test_bit-bit_and : (a b i : ℕ) → test_bit (bit_and a b) i ≡ test_bit a i && test_bit b i
test_bit-bit_and a b i =
    rw bit_and-bitwise
      (test_bit-digits (λ y. 0) min ◌&&◌ (λ y j. rw test_bit_zero) min_digit a a b i (omega arith))

pub test_bit-bit_or : (a b i : ℕ) → test_bit (bit_or a b) i ≡ test_bit a i || test_bit b i
test_bit-bit_or a b i =
    rw bit_or-bitwise
      (test_bit-digits (λ y. y) max ◌||◌ (λ y j. refl) max_digit a a b i (omega arith))

pub test_bit-bit_xor :
    (a b i : ℕ) → test_bit (bit_xor a b) i ≡ differs (test_bit a i) (test_bit b i)
test_bit-bit_xor a b i =
    rw bit_xor-bitwise
      (test_bit-digits (λ y. y) differ differs (λ y j. refl) differ_digit a a b i (omega arith))

-- Numbers with the same digits are equal.
test_bit-ext_below : (n a b : ℕ) → a ≤ n → b ≤ n → ((i : ℕ) → test_bit a i ≡ test_bit b i) → a ≡ b
test_bit-ext_below zero a b p q h = omega arith
test_bit-ext_below (suc n) a b p q h =
    ground (
      arith,
      h 0,
      test_bit-ext_below n (a / 2) (b / 2) (omega arith) (omega arith) (λ i. h (suc i)),
    )

pub test_bit-ext : (a b : ℕ) → ((i : ℕ) → test_bit a i ≡ test_bit b i) → a ≡ b
test_bit-ext a b h = test_bit-ext_below (max a b) a b (omega arith) (omega arith) h

two_pow-half : (k : ℕ) → (2 ^ suc k / 2 ≡ 2 ^ k) × (2 ^ suc k % 2 ≡ 0)
two_pow-half k = omega (arith, pow-suc 2 k)

pub test_bit-two_pow : (k i : ℕ) → test_bit (2 ^ k) i ≡ (k == i)
test_bit-two_pow zero zero = refl
test_bit-two_pow zero (suc i) = rw test_bit_zero (ground arith)
test_bit-two_pow (suc k) zero = rw (two_pow-half k).1 (ground arith)
test_bit-two_pow (suc k) (suc i) = rw (two_pow-half k).0 (test_bit-two_pow k i ∙ ground arith)

-- `(a & (1 << i)) != 0` reads digit `i`.
pub bit_and-two_pow : (a i : ℕ) → bit_and a (2 ^ i) ≡ (if test_bit a i then 2 ^ i else 0)
bit_and-two_pow a i = test_bit-ext _ _ digit
  where
    digit :
        (j : ℕ) → test_bit (bit_and a (2 ^ i)) j ≡ test_bit (if test_bit a i then 2 ^ i else 0) j
    digit j = elim (Bool-cases (test_bit a i)) [
      | inl e ↦ rw (e, test_bit-bit_and, test_bit-two_pow) (ground (arith, test_bit-two_pow i j))
      | inr e ↦ rw (e, test_bit-bit_and, test_bit-two_pow, test_bit_zero) (ground arith)
    ]

-- A mask of `w` ones, in which each digit below `w` is set.
pub test_bit_ones : (w i : ℕ) → i < w → test_bit (2 ^ w - 1) i ≡ true
test_bit_ones zero i h = elim h [ ]
test_bit_ones (suc w) zero h =
    let e : (2 ^ suc w - 1) % 2 ≡ 1 = omega (arith, pow-suc 2 w, one-le-pow w 2 (omega arith)) in
    rw e
test_bit_ones (suc w) (suc i) h =
    let e : (2 ^ suc w - 1) / 2 ≡ 2 ^ w - 1 =
      omega (arith, pow-suc 2 w, one-le-pow w 2 (omega arith)) in
    rw e (test_bit_ones w i (omega arith))

-- `!a` on a u64.
unfoldable pub bit_not64 : ℕ → ℕ
bit_not64 a = bit_xor a (2 ^ 64 - 1)

pub test_bit-bit_not64 : (a i : ℕ) → i < 64 → test_bit (bit_not64 a) i ≡ not (test_bit a i)
unfolding bit_not64
test_bit-bit_not64 a i h =
    let ones : test_bit (2 ^ 64 - 1) i ≡ true = test_bit_ones 64 i h in
    test_bit-bit_xor a (2 ^ 64 - 1) i ∙ ground (arith, ones)

pub bit_and-zero : (a : ℕ) → bit_and a 0 ≡ 0
bit_and-zero a =
    test_bit-ext (bit_and a 0) 0 λ i. rw (test_bit-bit_and, test_bit_zero) (ground arith)
