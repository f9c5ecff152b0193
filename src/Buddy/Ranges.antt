-- ===== src/Buddy/Ranges.antt =====
-- aether-frame/src/mm/buddy.rs: the ranges of usable frames, gathered from the memory map. A
-- `RangeList` is the list of its entries. What an insertion leaves behind an error is not kept, since
-- every caller gives the list up.
pub mod Insert
pub mod Pages
use Prim.Native.Nat.{bit_and}
use aether_kernel.Prelude.{
  ℕ, zero, suc, ◌+◌, ◌-◌, ◌*◌, ◌/◌, ◌%◌, ◌^◌, Bool, true, false, not, ◌&&◌, List, [], ◌∷◌, Option,
  none, some, ltb, leb, ◌==◌, if◌then◌else◌, length,
}
use aether_kernel.Prelude.Bits.{bit_not64}
use aether_kernel.Buddy.{FrameResult, ok, err, invalid_memory_map, metadata_exhausted}
use aether_kernel.Buddy.Api.{page_size}

-- A start and a number of frames.
abbrev pub Range : Type 0
Range = ℕ × ℕ

abbrev pub usize_end : ℕ
usize_end = 2 ^ 64

-- `checked_add` on a usize.
abbrev pub checked_add {ℓ} : {A : Type ℓ} → ℕ → ℕ → (ℕ → FrameResult A) → FrameResult A
checked_add a b f = if ltb (a + b) usize_end then f (a + b) else err invalid_memory_map

unfoldable pub total_frames : ℕ → List Range → FrameResult ℕ
total_frames total [] = ok total
total_frames total ((start, len) ∷ ranges) = checked_add total len λ t. total_frames t ranges

-- The second loop of `insert_merged_sorted`, over the ranges that do not start before the new one;
-- one that starts at its end is made part of it.
unfoldable pub absorb : ℕ → ℕ → List Range → FrameResult (List Range)
absorb start len [] = ok ((start, len) ∷ [])
absorb start len ((next_start, next_len) ∷ ranges) = checked_add start len λ end.
    if ltb next_start end
    then err invalid_memory_map
    else if not (next_start == end)
    then ok ((start, len) ∷ (next_start, next_len) ∷ ranges)
    else checked_add len next_len λ l. absorb start l ranges

abbrev pub cons_ok : Range → FrameResult (List Range) → FrameResult (List Range)
cons_ok r (ok ranges) = ok (r ∷ ranges)
cons_ok r (err e) = err e

-- What it does between its loops with the last range that starts before the new one.
unfoldable pub join_prev : Range → ℕ → ℕ → List Range → FrameResult (List Range)
join_prev (prev_start, prev_len) start len ranges = checked_add prev_start prev_len λ prev_end.
    if ltb start prev_end
    then err invalid_memory_map
    else if start == prev_end
    then (checked_add prev_len len λ l. absorb prev_start l ranges)
    else cons_ok (prev_start, prev_len) (absorb start len ranges)

-- Its first loop, past the ranges that start before the new one.
unfoldable pub seek : Range → ℕ → ℕ → List Range → FrameResult (List Range)
seek prev start len [] = join_prev prev start len []
seek prev start len (next ∷ ranges) =
    let rest = seek next start len ranges in
    if ltb next.0 start then cons_ok prev rest else join_prev prev start len (next ∷ ranges)

abbrev pub from_first : ℕ → ℕ → List Range → FrameResult (List Range)
from_first start len [] = absorb start len []
from_first start len (next ∷ ranges) =
    if ltb next.0 start then seek next start len ranges else absorb start len (next ∷ ranges)

-- `insert_at`, which refuses another entry in a full list, seen from the list it would make.
abbrev pub insert_at : ℕ → FrameResult (List Range) → FrameResult (List Range)
insert_at capacity (err e) = err e
insert_at capacity (ok ranges) =
    if length ranges - 1 == capacity then err metadata_exhausted else ok ranges

unfoldable pub insert_merged_sorted : ℕ → List Range → ℕ → ℕ → FrameResult (List Range)
insert_merged_sorted capacity ranges start len =
    if len == 0 then ok ranges else insert_at capacity (from_first start len ranges)

-- A region of the memory map: addresses, not frames.
pub record MemoryRegion : Type 0 where
  pub start : ℕ
  pub len : ℕ
  pub usable : Bool

abbrev pub align_up : ℕ → ℕ → ℕ
align_up value align = bit_and ((value + align - 1) % usize_end) (bit_not64 (align - 1))

abbrev pub align_down : ℕ → ℕ → ℕ
align_down value align = bit_and value (bit_not64 (align - 1))

-- The range of the whole pages of a region, put among the others.
unfoldable pub insert_region : ℕ → List Range → ℕ → ℕ → FrameResult (List Range)
insert_region capacity ranges start end =
    if leb end start
    then ok ranges
    else insert_merged_sorted capacity ranges (start / page_size) ((end - start) / page_size)

abbrev pub then_ranges :
    FrameResult (List Range) → (List Range → FrameResult (List Range)) → FrameResult (List Range)
then_ranges (ok ranges) f = f ranges
then_ranges (err e) f = err e

-- The whole pages of a usable region, put among the ranges; `try_from` never fails on 64 bits.
unfoldable pub collect_region : ℕ → List Range → MemoryRegion → FrameResult (List Range)
collect_region capacity ranges region =
    if not region.usable
    then ok ranges
    else (checked_add region.start region.len λ end.
        insert_region capacity ranges (align_up region.start page_size) (align_down end page_size))

unfoldable pub collect_usable_ranges : ℕ → List Range → List MemoryRegion → FrameResult (List Range)
collect_usable_ranges capacity ranges [] = ok ranges
collect_usable_ranges capacity ranges (region ∷ mem_map) =
    then_ranges (collect_region capacity ranges region)
      λ after. collect_usable_ranges capacity after mem_map
