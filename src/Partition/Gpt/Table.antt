-- ===== src/Partition/Gpt/Table.antt =====
-- Reading the table of the GUID kind off a disk, a chunk at a time.
use native.Mathlib.Nat.{mul-le-mul, mul-le-mul_right, add-mul}
use aether_kernel.Prelude.{
  ℕ, zero, suc, ◌+◌, ◌-◌, ◌*◌, ◌/◌, ◌^◌, ◌≤◌, ◌<◌, ◌≡◌, refl, ap, ap₂, ◌∙◌, min, max, true, false,
  Bool-cases, not, ◌||◌, List, Option, none, some, arith, ltb, leb, ◌==◌, if◌then◌else◌, inl, inr,
}
use aether_kernel.Partition.{
  u64_max, saturating_mul, read_u32, read_u64, same_bytes, gpt_signature, read_lba_range, gpt_table,
  parse_gpt,
}
use aether_kernel.Partition.Gpt.{
  window, number, entries, IsDisk, take-window, slice-window, gpt_chunk-window, entries-append,
}
use aether_kernel.Partition.Gpt.Reads.{read_lba-window, read_lba_range-window}

module _ (read_blocks : ℕ → List ℕ → Option (ℕ × List ℕ)) (image : ℕ → ℕ)
    (block_size block_count : ℕ) (disk : IsDisk read_blocks image block_size block_count)
    (some_bytes : 0 < block_size) (small : block_size < 2 ^ 32)
    (few_blocks : block_count ≤ u64_max) where
  -- A round of the loop over the table, of `c` entries.
  gpt_round :
      (lba size index c : ℕ)
      → 0 < c
      → c ≤ 1024
      → index ≤ 1024
      → 128 ≤ size
      → size ≤ 4096
      → read_lba_range read_blocks lba
          (saturating_mul index size)
          (saturating_mul c size)
          block_size
        ≡ (if leb (lba * block_size + index * size + c * size) (block_count * block_size)
            then some (window image (lba * block_size + index * size) (c * size))
            else none)
  gpt_round lba size index c p h l low high =
      let before : index * size ≤ 1024 * 4096 = mul-le-mul l high in
      let len : c * size ≤ 1024 * 4096 = mul-le-mul h high in
      let some_len : 1 * 128 ≤ c * size = mul-le-mul p low in
      let a : saturating_mul index size ≡ index * size = omega (arith, before) in
      let b : saturating_mul c size ≡ c * size = omega (arith, len) in
      rw (a, b)
        (read_lba_range-window read_blocks image block_size block_count disk some_bytes small
          few_blocks lba (index * size) (c * size) (omega (arith, some_len)) (omega (arith, len)))

  gpt_table-window :
      (n lba count size index : ℕ)
      → count - index ≤ n
      → count ≤ 1024
      → 128 ≤ size
      → size ≤ 4096
      → lba * block_size + count * size ≤ block_count * block_size
      → gpt_table read_blocks n block_size lba count size index
        ≡ some (entries image (lba * block_size + index * size) size (count - index) index)
  unfolding gpt_table
  gpt_table-window zero lba count size index l h low high room =
      let over : count - index ≡ 0 = omega (arith, l) in rw over refl
  gpt_table-window (suc n) lba count size index l h low high room =
      elim (Bool-cases (leb count index)) [
        | inl e ↦ (let over : count - index ≡ 0 = ground (arith, e) in rw (e, over) refl)
        | inr e ↦
            (let c = min (count - index) (max (65536 / size) 1) in
              let left : index < count = ground (arith, e) in
              let p : 0 < c = omega (arith, left) in
              let place = lba * block_size + index * size in
              let fits : (0 + c) * size ≤ c * size = omega arith in
              let same : place + 0 * size ≡ place = omega arith in
              let first : index + 0 ≡ index = omega arith in
              let next : lba * block_size + (index + c) * size ≡ place + c * size = omega arith in
              let all : c + (count - (index + c)) ≡ count - index = omega (arith, left) in
              let few : (index + c) * size ≤ count * size =
                mul-le-mul_right size (omega (arith, left)) in
              let held : leb (place + c * size) (block_count * block_size) ≡ true =
                ground (arith, few, next, room) in
              let here =
                gpt_chunk-window image c place (c * size) size 0 index low fits
                ∙ ap₂ (λ a k. some (entries image a size c k)) same first in
              let rest =
                gpt_table-window n lba count size (index + c) (omega (arith, p, l)) h low high room
                ∙ ap (λ a. some (entries image a size (count - (index + c)) (index + c))) next in
              rw
                (
                  e,
                  gpt_round lba size index c p (omega (arith, h)) (omega (arith, h, left)) low high,
                  held,
                  here,
                  rest,
                )
                (ap some (entries-append image c (count - (index + c)) place size index)
                  ∙ ap (λ m. some (entries image place size m index)) all))
      ]

  -- A table that goes past the end of the disk is an error, in whichever chunk that shows.
  gpt_table_past :
      (n lba count size index : ℕ)
      → count - index ≤ n
      → index < count
      → count ≤ 1024
      → 128 ≤ size
      → size ≤ 4096
      → block_count * block_size < lba * block_size + count * size
      → gpt_table read_blocks n block_size lba count size index ≡ none
  unfolding gpt_table
  gpt_table_past zero lba count size index l left h low high past = absurd (omega (arith, l, left))
  gpt_table_past (suc n) lba count size index l left h low high past =
      let e : leb count index ≡ false = ground (arith, left) in
      let c = min (count - index) (max (65536 / size) 1) in
      let p : 0 < c = omega (arith, left) in
      let place = lba * block_size + index * size in
      let round =
        gpt_round lba size index c p (omega (arith, h)) (omega (arith, h, left)) low high in
      elim (Bool-cases (leb (place + c * size) (block_count * block_size))) [
        | inr o ↦ rw (e, round, o) refl
        | inl o ↦
            (let fits : (0 + c) * size ≤ c * size = omega arith in
              let next : lba * block_size + (index + c) * size ≡ place + c * size = omega arith in
              let more : index + c < count =
                remains lba count size index c o past (omega (arith, left)) in
              rw
                (
                  e,
                  round,
                  o,
                  gpt_chunk-window image c place (c * size) size 0 index low fits,
                  gpt_table_past n lba count size (index + c) (omega (arith, p, l)) more h low high
                      past,
                )
                refl)
      ]
    where
      remains :
          (lba count size index c : ℕ)
          → leb (lba * block_size + index * size + c * size) (block_count * block_size) ≡ true
          → block_count * block_size < lba * block_size + count * size
          → index + c ≤ count
          → index + c < count
      remains lba count size index c o past h = elim (Bool-cases (index + c == count)) [
        | inl e ↦
            (let same : (index + c) * size ≡ count * size =
                ap (λ k. k * size) (ground (arith, e)) in
              absurd (ground (arith, o, past, same, add-mul index c size)))
        | inr e ↦ ground (arith, e, h)
      ]

  -- The last steps of `parse_gpt`, by the numbers of the header.
  gpt_table_checked :
      (lba count size : ℕ)
      → let bad = (ltb size 128 || ltb 4096 size) || ((count == 0) || ltb 1024 count) in
        (if bad then none else gpt_table read_blocks count block_size lba count size 0) ≡ (
          if bad || ltb (block_count * block_size) (lba * block_size + count * size)
          then none
          else some (entries image (lba * block_size) size count 0))
  gpt_table_checked lba count size =
      elim (Bool-cases ((ltb size 128 || ltb 4096 size) || ((count == 0) || ltb 1024 count))) [
        | inl bad ↦ rw bad refl
        | inr good ↦
            (let few : count ≤ 1024 = ground (arith, good) in
              let some_entries : 0 < count = ground (arith, good) in
              let low : 128 ≤ size = ground (arith, good) in
              let high : size ≤ 4096 = ground (arith, good) in
              let start : lba * block_size + 0 * size ≡ lba * block_size = omega arith in
              let all : count - 0 ≡ count = omega arith in
              rw good
                (elim (Bool-cases
                  (ltb (block_count * block_size) (lba * block_size + count * size))) [
                    | inl past ↦ rw past (
                        gpt_table_past count lba count size 0 (omega arith) some_entries few low
                          high (ground (arith, past)))
                    | inr whole ↦ rw whole (
                        gpt_table-window count lba count size 0 (omega arith) few low high
                          (ground (arith, whole))
                        ∙ ap₂ (λ a n. some (entries image a size n 0)) start all)
                  ]))
      ]

  -- On a disk of at most u64::MAX blocks that have 128 bytes or more and less than 2^32, reading the
  -- table in chunks gives what reading its entries one by one off the bytes of the disk gives: an error
  -- unless there are two blocks, the signature stands in the header, the sizes of an entry and of the
  -- table are within their limits, and the whole table lies on the disk; else every entry that is in
  -- use, at its number, that does not begin at block 0 and does not end before it begins. It is asked of
  -- the disk that a read of one block or more fills the buffer when all of the blocks lie on the disk,
  -- and fails when one lies past its end; nothing is asked of a read of no block or of a part of one.
  pub parse_gpt_lem :
      128 ≤ block_size
      → let entry_lba = number image (block_size + 72) 8 in
        let entry_count = number image (block_size + 80) 4 in
        let entry_size = number image (block_size + 84) 4 in
        parse_gpt read_blocks block_size ≡ (
          if ltb block_count 2
            || (not (same_bytes (window image block_size 8) gpt_signature)
                || (((ltb entry_size 128 || ltb 4096 entry_size)
                      || ((entry_count == 0) || ltb 1024 entry_count))
                    || ltb
                        (block_count * block_size)
                        (entry_lba * block_size + entry_count * entry_size)))
          then none
          else some (entries image (entry_lba * block_size) entry_size entry_count 0))
  unfolding parse_gpt read_u64 read_u32
  parse_gpt_lem h =
      let at = slice-window image block_size block_size in
      elim (Bool-cases (ltb block_count 2)) [
        | inl short ↦
            (let gone : leb (1 + 1) block_count ≡ false = ground (arith, short) in
              rw
                (
                  read_lba-window read_blocks image block_size block_count disk some_bytes small
                      few_blocks 1,
                  gone,
                  short,
                )
                refl)
        | inr long ↦
            (let there : leb (1 + 1) block_count ≡ true = ground (arith, long) in
              let one : 1 * block_size ≡ block_size = omega arith in
              rw
                (
                  read_lba-window read_blocks image block_size block_count disk some_bytes small
                      few_blocks 1,
                  there,
                  one,
                  long,
                  take-window image block_size block_size 8 (omega (arith, h)),
                  at 72 8 (omega (arith, h)),
                  at 80 4 (omega (arith, h)),
                  at 84 4 (omega (arith, h)),
                )
                (elim (Bool-cases (same_bytes (window image block_size 8) gpt_signature)) [
                  | inr e ↦ rw e refl
                  | inl e ↦ rw e (
                      gpt_table_checked (number image (block_size + 72) 8)
                        (number image (block_size + 80) 4) (number image (block_size + 84) 4))
                ]))
      ]
