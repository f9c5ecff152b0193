-- ===== src/Buddy/Orders.antt =====
-- aether-frame/src/mm/buddy.rs: the orders of blocks, powers of two of frames, on a 64-bit usize.
use aether_kernel.Prelude.{
  ℕ, zero, suc, ◌+◌, ◌-◌, ◌*◌, ◌/◌, ◌%◌, ◌^◌, ◌≤◌, ◌<◌, ◌≡◌, refl, min, Bool, false, arith, ltb,
  leb, ◌==◌, if◌then◌else◌,
}
use aether_kernel.Buddy.{FrameResult, ok, err, invalid_count, block_size, per_cpu_cache_max_order}
use native.Mathlib.Nat.{pow-suc}

abbrev pub usize_bits : ℕ
usize_bits = 64

-- The number of binary digits of a value below 2 ^ `n`.
unfoldable pub digits_of : ℕ → ℕ → ℕ
digits_of zero a = 0
digits_of (suc n) a = let rest = digits_of n (a / 2) in if a == 0 then 0 else suc rest

abbrev pub leading_zeros : ℕ → ℕ
leading_zeros a = usize_bits - digits_of usize_bits a

unfoldable pub ceil_log2 : ℕ → ℕ
ceil_log2 value = if leb value 1 then 0 else usize_bits - leading_zeros (value - 1)

unfoldable pub floor_log2 : ℕ → ℕ
floor_log2 value = usize_bits - 1 - leading_zeros value

unfoldable pub order_for_count : ℕ → ℕ → FrameResult ℕ
order_for_count count max_order =
    if count == 0
    then err invalid_count
    else if ltb max_order (ceil_log2 count)
    then err invalid_count
    else ok (ceil_log2 count)

abbrev pub refill_batch : ℕ → ℕ
refill_batch order = 2 ^ (per_cpu_cache_max_order - order)

abbrev pub high_watermark : ℕ → ℕ
high_watermark order = refill_batch order * 2

abbrev pub is_multiple_of : ℕ → ℕ → Bool
is_multiple_of a b = a % b == 0

-- The loop that lowers an order until the start is a multiple of its blocks.
unfoldable pub lower_order : ℕ → ℕ → ℕ
lower_order start zero = zero
lower_order start (suc order) =
    let rest = lower_order start order in
    if is_multiple_of start (block_size (suc order)) then suc order else rest

unfoldable pub max_fit_order : ℕ → ℕ → ℕ → ℕ
max_fit_order start remaining max_order = lower_order start (min (floor_log2 remaining) max_order)

digits_of-zero : (n : ℕ) → digits_of n 0 ≡ 0
unfolding digits_of
digits_of-zero zero = refl
digits_of-zero (suc n) = refl

-- A number has `digits_of` digits: it is below that power of two, and not below half of it.
digits_of-bounds :
    (n a : ℕ)
    → a < 2 ^ n
    → (a < 2 ^ digits_of n a) × (0 < a → 2 ^ digits_of n a ≤ a + a) × (digits_of n a ≤ n)
unfolding digits_of
digits_of-bounds zero a h = ground arith
digits_of-bounds (suc n) a h =
    ground
      (arith, none_left, digits_of-bounds n (a / 2), pow-suc 2 n, pow-suc 2 (digits_of n (a / 2)))
  where
    none_left : a / 2 ≡ 0 → 2 ^ digits_of n (a / 2) ≡ 1
    none_left e = rw (e, digits_of-zero n) refl

pub floor_log2-bounds :
    (a : ℕ) → 0 < a → a < 2 ^ 64 → (2 ^ floor_log2 a ≤ a) × (a < 2 ^ suc (floor_log2 a))
unfolding floor_log2
floor_log2-bounds a p h =
    let d = digits_of-bounds 64 a h in
    let e : usize_bits - 1 - (usize_bits - digits_of 64 a) ≡ digits_of 64 a - 1 =
      omega (arith, d) in
    rw e (half (digits_of 64 a) d.0 (d.1 p))
  where
    half : (d : ℕ) → a < 2 ^ d → 2 ^ d ≤ a + a → (2 ^ (d - 1) ≤ a) × (a < 2 ^ suc (d - 1))
    half zero q r = absurd (omega (arith, q, p))
    half (suc d) q r = let e : suc d - 1 ≡ d = omega arith in rw e (omega (arith, pow-suc 2 d), q)

ceil_log2-bounds : (a : ℕ) → 0 < a → a < 2 ^ 64 → (a ≤ 2 ^ ceil_log2 a) × (2 ^ ceil_log2 a < a + a)
unfolding ceil_log2
ceil_log2-bounds zero p h = absurd (omega arith)
ceil_log2-bounds (suc zero) p h = (omega arith, omega arith)
ceil_log2-bounds (suc (suc a)) p h =
    let one : leb (suc (suc a)) 1 ≡ false = ground arith in
    let pred : suc (suc a) - 1 ≡ suc a = omega arith in
    let d = digits_of-bounds 64 (suc a) (omega arith) in
    let e : 64 - (64 - digits_of 64 (suc a)) ≡ digits_of 64 (suc a) = omega (arith, d.2) in
    rw (one, pred, e) (omega (arith, d.0), omega (arith, d.1 (omega arith)))

-- The order for a number of frames below 2^64 is the lowest whose blocks hold as many, so that less
-- than half of such a block is left over; an error if that exceeds the highest order, and for none.
pub order_for_count_lem :
    (count max_order : ℕ)
    → 0 < count
    → count < 2 ^ 64
    → (order_for_count 0 max_order ≡ err invalid_count)
      × (k : ℕ) × (count ≤ 2 ^ k)
      × (2 ^ k < count + count)
      × (order_for_count count max_order ≡ (if ltb max_order k then err invalid_count else ok k))
unfolding order_for_count
order_for_count_lem count max_order p h =
    let b = ceil_log2-bounds count p h in
    let z : (count == 0) ≡ false = ground arith in (refl, ceil_log2 count, b.0, b.1, rw z refl)
