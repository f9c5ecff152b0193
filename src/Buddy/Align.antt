-- ===== src/Buddy/Align.antt =====
-- Starts of blocks of buddy.rs that are multiples of their size, and the buddies of such blocks.
use Prim.Native.Nat.{bit_xor}
use native.Mathlib.Nat.{pow-suc}
use aether_kernel.Prelude.{
  ℕ, zero, suc, ◌+◌, ◌-◌, ◌*◌, ◌/◌, ◌%◌, ◌^◌, ◌≡◌, sym, ◌∙◌, ◌⊎◌, inl, inr, arith, ◌==◌,
  if◌then◌else◌,
}
use aether_kernel.Prelude.Bits.{test_bit, test_bit-ext, test_bit-bit_xor, test_bit-two_pow}

-- `a` is a multiple of 2 ^ `k`: its `k` lowest digits are 0.
abbrev pub IsAligned : ℕ → ℕ → Type 0
IsAligned zero a = Unit
IsAligned (suc k) a = (a % 2 ≡ 0) × IsAligned k (a / 2)

pub IsAligned-pred : (k a : ℕ) → IsAligned (suc k) a → IsAligned k a
IsAligned-pred zero a h = tt
IsAligned-pred (suc k) a h = (h.0, IsAligned-pred k (a / 2) h.1)

pub IsAligned-add : (k a : ℕ) → IsAligned (suc k) a → IsAligned k (a + 2 ^ k)
IsAligned-add zero a h = tt
IsAligned-add (suc k) a h =
    let half : (a + 2 ^ suc k) / 2 ≡ a / 2 + 2 ^ k = omega (arith, pow-suc 2 k, h.0) in
    (omega (arith, pow-suc 2 k, h.0), rw half (IsAligned-add k (a / 2) h.1))

xor_one : (a : ℕ) → bit_xor a (2 ^ 0) ≡ (if a % 2 == 0 then a + 1 else a - 1)
xor_one a = test_bit-ext _ _ digit
  where
    digit :
        (i : ℕ) → test_bit (bit_xor a (2 ^ 0)) i ≡ test_bit (if a % 2 == 0 then a + 1 else a - 1) i
    digit zero = test_bit-bit_xor a (2 ^ 0) 0 ∙ ground arith
    digit (suc i) =
        let half : (if a % 2 == 0 then a + 1 else a - 1) / 2 ≡ a / 2 = ground arith in
        test_bit-bit_xor a (2 ^ 0) (suc i) ∙ rw half (ground (arith, test_bit-two_pow 0 (suc i)))

xor_suc : (a k : ℕ) → bit_xor a (2 ^ suc k) ≡ bit_xor (a / 2) (2 ^ k) * 2 + a % 2
xor_suc a k = test_bit-ext _ _ digit
  where
    digit :
        (i : ℕ)
        → test_bit (bit_xor a (2 ^ suc k)) i ≡ test_bit (bit_xor (a / 2) (2 ^ k) * 2 + a % 2) i
    digit zero = test_bit-bit_xor a (2 ^ suc k) 0 ∙ ground (arith, test_bit-two_pow (suc k) 0)
    digit (suc i) =
        let half : (bit_xor (a / 2) (2 ^ k) * 2 + a % 2) / 2 ≡ bit_xor (a / 2) (2 ^ k) =
          omega arith in
        test_bit-bit_xor a (2 ^ suc k) (suc i)
        ∙ rw half (
            sym (
              test_bit-bit_xor (a / 2) (2 ^ k) i
              ∙ ground (arith, test_bit-two_pow (suc k) (suc i), test_bit-two_pow k i)))

-- The buddy of an aligned block is the other half of an aligned block of the next order.
pub xor-buddy :
    (k a : ℕ)
    → IsAligned k a
    → (IsAligned (suc k) a × (bit_xor a (2 ^ k) ≡ a + 2 ^ k))
      ⊎ (IsAligned (suc k) (bit_xor a (2 ^ k)) × (a ≡ bit_xor a (2 ^ k) + 2 ^ k))
xor-buddy zero a h = ground (arith, xor_one a)
xor-buddy (suc k) a h = double (xor-buddy k (a / 2) h.1)
  where
    x : ℕ
    x = bit_xor (a / 2) (2 ^ k)

    double :
        (IsAligned (suc k) (a / 2) × (bit_xor (a / 2) (2 ^ k) ≡ a / 2 + 2 ^ k))
          ⊎ (IsAligned (suc k) (bit_xor (a / 2) (2 ^ k))
              × (a / 2 ≡ bit_xor (a / 2) (2 ^ k) + 2 ^ k))
        → (IsAligned (suc (suc k)) a × (bit_xor a (2 ^ suc k) ≡ a + 2 ^ suc k))
          ⊎ (IsAligned (suc (suc k)) (bit_xor a (2 ^ suc k))
              × (a ≡ bit_xor a (2 ^ suc k) + 2 ^ suc k))
    double (inl p) = inl ((h.0, p.0), omega (arith, xor_suc a k, p.1, pow-suc 2 k, h.0))
    double (inr p) =
        let half : bit_xor a (2 ^ suc k) / 2 ≡ bit_xor (a / 2) (2 ^ k) =
          omega (arith, xor_suc a k, h.0) in
        inr (
          (omega (arith, xor_suc a k, h.0), rw half p.0),
          omega (arith, xor_suc a k, p.1, pow-suc 2 k, h.0),
        )
