-- ===== src/Partition/Gpt.antt =====
-- The table of the GUID kind, of partition.rs, on a disk that is seen as one run of bytes.
pub mod Reads
pub mod Table
use native.Mathlib.Nat.{
  mod-add-div', lt-div-mul-add, div-mul-le_self, mod-lt, mul-le-mul, mul-le-mul_right, add-mul,
}
use aether_kernel.Prelude.{
  ℕ, zero, suc, ◌+◌, ◌-◌, ◌*◌, ◌/◌, ◌%◌, ◌^◌, ◌≤◌, ◌<◌, ◌≡◌, refl, ap, ap₂, ◌∙◌, min, max, true,
  false, Bool-cases, not, ◌||◌, List, [], ◌∷◌, ◌++◌, Option, none, some, arith, ltb, leb, ◌==◌,
  if◌then◌else◌, length, take, drop, replicate, length-replicate, inl, inr,
}
use aether_kernel.Prelude.Bytes.{from_ne_bytes}
use aether_kernel.Partition.{
  PartitionEntry, u64_max, saturating_add, saturating_mul, slice, read_u32, read_u64, same_bytes,
  gpt_signature, all_zero, gpt_entry, prepend, gpt_chunk, filled, read_lba, read_lba_span,
  read_lba_range, gpt_table, parse_gpt,
}

-- The bytes of a disk from a place on, and the number that some of them make.
abbrev pub window : (ℕ → ℕ) → ℕ → ℕ → List ℕ
window image start zero = []
window image start (suc n) = image start ∷ window image (start + 1) n

abbrev pub number : (ℕ → ℕ) → ℕ → ℕ → ℕ
number image start n = from_ne_bytes (window image start n)

-- The partition that an entry at a place describes, if any.
abbrev pub entry_at : (ℕ → ℕ) → ℕ → ℕ → Option PartitionEntry
entry_at image place index =
    if all_zero (window image place 16)
      || ((number image (place + 32) 8 == 0)
          || ltb (number image (place + 40) 8) (number image (place + 32) 8))
    then none
    else some (record {
      index = index;
      first_lba = number image (place + 32) 8;
      block_count = saturating_add (number image (place + 40) 8 - number image (place + 32) 8) 1;
    })

-- The partitions of `n` entries of a size, numbered from behind `k`.
abbrev pub entries : (ℕ → ℕ) → ℕ → ℕ → ℕ → ℕ → List PartitionEntry
entries image place size zero k = []
entries image place size (suc n) k =
    prepend (entry_at image place (k + 1)) (entries image (place + size) size n (k + 1))

-- A disk of `block_count` blocks: reading into a buffer of one block or more gives the bytes of the
-- blocks, and fails when one of them lies past the end. Nothing is said of a buffer that is empty or
-- ends within a block, which the driver in block/nvme/mod.rs refuses.
abbrev pub IsDisk : (ℕ → List ℕ → Option (ℕ × List ℕ)) → (ℕ → ℕ) → ℕ → ℕ → Type 0
IsDisk read_blocks image block_size block_count =
    (lba n : ℕ) (buffer : List ℕ)
    → 0 < n
    → length buffer ≡ n * block_size
    → read_blocks lba buffer ≡ (
        if leb (lba + n) block_count
        then some (length buffer, window image (lba * block_size) (length buffer))
        else none)

prepend-append :
    (p : Option PartitionEntry) (xs ys : List PartitionEntry)
    → prepend p xs ++ ys ≡ prepend p (xs ++ ys)
prepend-append none xs ys = refl
prepend-append (some p) xs ys = refl

module _ (image : ℕ → ℕ) where
  pub length-window : (s n : ℕ) → length (window image s n) ≡ n
  length-window s zero = refl
  length-window s (suc n) = ap suc (length-window (s + 1) n)

  pub take-window : (s n k : ℕ) → k ≤ n → take k (window image s n) ≡ window image s k
  take-window s n zero h = refl
  take-window s zero (suc k) h = absurd (omega arith)
  take-window s (suc n) (suc k) h = ap (λ l. image s ∷ l) (take-window (s + 1) n k (omega arith))

  drop-window : (s n k : ℕ) → k ≤ n → drop k (window image s n) ≡ window image (s + k) (n - k)
  drop-window s n zero h = ap₂ (window image) (omega arith) (omega arith)
  drop-window s zero (suc k) h = absurd (omega arith)
  drop-window s (suc n) (suc k) h =
      drop-window (s + 1) n k (omega arith) ∙ ap₂ (window image) (omega arith) (omega arith)

  pub slice-window :
      (s n k m : ℕ) → k + m ≤ n → slice (window image s n) k m ≡ some (window image (s + k) m)
  unfolding slice
  slice-window s n k m h =
      let fits : ltb n (k + m) ≡ false = ground arith in
      rw (length-window s n, fits, drop-window s n k (omega arith))
        (ap some (take-window (s + k) (n - k) m (omega arith)))

  gpt_entry-window :
      (s size index : ℕ)
      → 128 ≤ size
      → gpt_entry (window image s size) index ≡ some (entry_at image s index)
  unfolding gpt_entry read_u64
  gpt_entry-window s size index h =
      rw
        (
          take-window s size 16 (omega arith),
          slice-window s size 32 8 (omega arith),
          slice-window s size 40 8 (omega arith),
        )
        (elim (Bool-cases (all_zero (window image s 16))) [ inl z ↦ rw z refl | inr z ↦ rw z refl ])

  pub gpt_chunk-window :
      (n s m size ci index : ℕ)
      → 128 ≤ size
      → (ci + n) * size ≤ m
      → gpt_chunk n (window image s m) size ci index
        ≡ some (entries image (s + ci * size) size n (index + ci))
  unfolding gpt_chunk
  gpt_chunk-window zero s m size ci index h fits = refl
  gpt_chunk-window (suc n) s m size ci index h fits =
      let here : ci * size + size ≤ m = omega (arith, fits) in
      rw
        (
          slice-window s m (ci * size) size here,
          gpt_entry-window (s + ci * size) size (index + ci + 1) h,
          gpt_chunk-window n s m size (ci + 1) index h (omega (arith, fits)),
        )
        (ap₂
          (λ a k.
            some (
              prepend (entry_at image (s + ci * size) (index + ci + 1)) (entries image a size n k)))
          (omega arith) (omega arith))

  pub entries-append :
      (n m place size k : ℕ)
      → entries image place size n k ++ entries image (place + n * size) size m (k + n)
        ≡ entries image place size (n + m) k
  entries-append zero m place size k =
      let here : place + 0 * size ≡ place = omega arith in
      let first : k + 0 ≡ k = omega arith in
      let all : 0 + m ≡ m = omega arith in rw (here, first, all) refl
  entries-append (suc n) m place size k =
      let here : place + suc n * size ≡ place + size + n * size = omega arith in
      let first : k + suc n ≡ k + 1 + n = omega arith in
      let all : suc n + m ≡ suc (n + m) = omega arith in
      rw (here, first, all)
        (prepend-append (entry_at image place (k + 1)) (entries image (place + size) size n (k + 1))
            (entries image (place + size + n * size) size m (k + 1 + n))
          ∙ ap (prepend (entry_at image place (k + 1)))
              (entries-append n m (place + size) size (k + 1)))
