-- ===== src/Partition/Gpt/Reads.antt =====
-- Reads of `read_lba` and `read_lba_range` of partition.rs from a disk.
use native.Mathlib.Nat.{
  mod-add-div', lt-div-mul-add, div-mul-le_self, mod-lt, mul-le-mul_right, add-mul,
}
use aether_kernel.Prelude.{
  ℕ, zero, suc, ◌+◌, ◌-◌, ◌*◌, ◌/◌, ◌%◌, ◌^◌, ◌≤◌, ◌<◌, ◌≡◌, refl, ap, ◌∙◌, false, Bool-cases, List,
  Option, none, some, arith, ltb, leb, ◌==◌, if◌then◌else◌, length, replicate, length-replicate,
  inl, inr,
}
use aether_kernel.Partition.{
  u64_max, saturating_add, saturating_mul, filled, read_lba, read_lba_span, read_lba_range,
}
use aether_kernel.Partition.Gpt.{window, IsDisk, slice-window}

positive : (n m : ℕ) → 0 < n * m → 0 < n
positive zero m h = absurd (omega (arith, h))
positive (suc n) m h = omega arith

-- The bytes of a run that begins in the middle of a block lie within as many blocks as hold it, and
-- these within the disk just when the run does.
span_within :
    (block_size block_count first r len blocks : ℕ)
    → r + len ≤ blocks * block_size
    → blocks * block_size < r + len + block_size
    → leb (first + blocks) block_count
      ≡ leb (first * block_size + (r + len)) (block_count * block_size)
span_within block_size block_count first r len blocks low high =
    elim (Bool-cases (leb (first + blocks) block_count)) [
      | inl e ↦
          (let fits : first + blocks ≤ block_count = ground (arith, e) in
            let all : (first + blocks) * block_size ≤ block_count * block_size =
              mul-le-mul_right block_size fits in
            let within : first * block_size + (r + len) ≤ block_count * block_size =
              omega (arith, all, low, add-mul first blocks block_size) in
            rw e (ground (arith, within)))
      | inr e ↦
          (let over : block_count + 1 ≤ first + blocks = ground (arith, e) in
            let all : (block_count + 1) * block_size ≤ (first + blocks) * block_size =
              mul-le-mul_right block_size over in
            let past : block_count * block_size < first * block_size + (r + len) =
              omega (arith, all, high, add-mul first blocks block_size) in
            rw e (ground (arith, past)))
    ]

module _ (read_blocks : ℕ → List ℕ → Option (ℕ × List ℕ)) (image : ℕ → ℕ)
    (block_size block_count : ℕ) (disk : IsDisk read_blocks image block_size block_count)
    (some_bytes : 0 < block_size) (small : block_size < 2 ^ 32)
    (few_blocks : block_count ≤ u64_max) where
  filled-window :
      (lba n len : ℕ)
      → 0 < n
      → len ≡ n * block_size
      → filled len (read_blocks lba (replicate len 0))
        ≡ (if leb (lba + n) block_count then some (window image (lba * block_size) len) else none)
  filled-window lba n len p e =
      let full : ltb len len ≡ false = ground arith in
      let size : length (replicate len 0) ≡ len = length-replicate {A = ℕ} len 0 in
      let given : length (replicate len 0) ≡ n * block_size = size ∙ e in
      let block_read : read_blocks lba (replicate len 0) ≡ (
          if leb (lba + n) block_count
          then some (len, window image (lba * block_size) len)
          else none) =
        disk lba n (replicate len 0) p given ∙ rw size refl in
      rw block_read (
        (elim (Bool-cases (leb (lba + n) block_count)) [
          | inl h ↦ rw (h, full) refl
          | inr h ↦ rw h refl
        ]))

  pub read_lba-window :
      (lba : ℕ)
      → read_lba read_blocks lba block_size ≡ (
          if leb (lba + 1) block_count
          then some (window image (lba * block_size) block_size)
          else none)
  unfolding read_lba
  read_lba-window lba = filled-window lba 1 block_size (omega arith) (omega arith)

  -- The blocks that a run of bytes lies in hold it, and their size is no overflow.
  span-bounds :
      (t : ℕ)
      → t < 2 ^ 40
      → (t ≤ (t + block_size - 1) / block_size * block_size)
        × ((t + block_size - 1) / block_size * block_size ≤ u64_max)
        × ((t + block_size - 1) / block_size * block_size < t + block_size)
  span-bounds t h =
      let above : t + block_size - 1 < (t + block_size - 1) / block_size * block_size + block_size =
        lt-div-mul-add some_bytes in
      let below = div-mul-le_self (t + block_size - 1) block_size in
      (
        omega (arith, above, some_bytes),
        omega (arith, below, h, small),
        omega (arith, below, some_bytes),
      )

  pub read_lba_range-window :
      (lba offset len : ℕ)
      → 0 < len
      → len < 2 ^ 32
      → read_lba_range read_blocks lba offset len block_size ≡ (
          if leb (lba * block_size + offset + len) (block_count * block_size)
          then some (window image (lba * block_size + offset) len)
          else none)
  unfolding read_lba_range read_lba_span
  read_lba_range-window lba offset len p h =
      let q = offset / block_size in
      let r = offset % block_size in
      let blocks = (r + len + block_size - 1) / block_size in
      let low = mod-lt offset some_bytes in
      let b = span-bounds (r + len) (omega (arith, low, h, small)) in
      let some_len : (len == 0) ≡ false = ground arith in
      let no_overflow : ltb u64_max (r + len) ≡ false = ground (arith, low, h, small) in
      let some_blocks : 0 < blocks = positive blocks block_size (omega (arith, b.0, p)) in
      let len_fits : saturating_mul blocks block_size ≡ blocks * block_size = omega (arith, b.1) in
      let place : (lba + q) * block_size + r ≡ lba * block_size + offset =
        omega (arith, mod-add-div' offset block_size, add-mul lba q block_size) in
      let end : (lba + q) * block_size + (r + len) ≡ lba * block_size + offset + len =
        omega (arith, place) in
      let within : leb (lba + q + blocks) block_count
          ≡ leb (lba * block_size + offset + len) (block_count * block_size) =
        span_within block_size block_count (lba + q) r len blocks b.0 b.2
        ∙ ap (λ a. leb a (block_count * block_size)) end in
      rw
        (
          some_len,
          no_overflow,
          len_fits,
          filled-window (saturating_add lba q) blocks (blocks * block_size) some_blocks refl,
        )
        (elim (Bool-cases (leb (lba + q + blocks) block_count)) [
          | inl e ↦
              (let lba_fits : saturating_add lba q ≡ lba + q = ground (arith, e, few_blocks) in
                rw (lba_fits, e, ← within)
                  (rw e (
                    slice-window image ((lba + q) * block_size) (blocks * block_size) r len b.0
                    ∙ ap (λ s. some (window image s len)) place)))
          | inr e ↦
              (let past : leb (saturating_add lba q + blocks) block_count ≡ false =
                  ground (arith, e, few_blocks, some_blocks) in
                rw (past, ← within) (rw e refl))
        ])
