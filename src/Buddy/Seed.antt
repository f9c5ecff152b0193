-- ===== src/Buddy/Seed.antt =====
-- aether-frame/src/mm/buddy.rs: the start of the allocator on the usable frames.
pub mod Region
pub mod Boot
use aether_kernel.Prelude.{
  ℕ, zero, suc, ◌+◌, ◌-◌, ◌||◌, List, [], ◌∷◌, ltb, leb, ◌==◌, if◌then◌else◌,
}
use aether_kernel.Buddy.{
  BuddyAllocator, FrameResult, ok, err, invalid_count, invalid_memory_map, block_size, no_nodes,
  max_order_slots,
}
use aether_kernel.Buddy.Orders.{floor_log2, max_fit_order}
use aether_kernel.Buddy.Global.{and_then, add_free}
use aether_kernel.Buddy.Ranges.{
  Range, MemoryRegion, total_frames, collect_usable_ranges, then_ranges,
}

-- At most `n` rounds of the loop of `seed_global_free_region`, each of which uses up a frame or more.
-- The start is an unbounded number: the ranges of a memory map end below 2^64, where `start +=` does
-- not wrap.
unfoldable pub seed_loop : ℕ → BuddyAllocator → ℕ → ℕ → FrameResult {0} Unit × BuddyAllocator
seed_loop zero s start remaining = (ok tt, s)
seed_loop (suc n) s start remaining =
    if remaining == 0
    then (ok tt, s)
    else (let order = max_fit_order start remaining s.max_order in
        and_then (add_free s start order)
          λ u s'. seed_loop n s' (start + block_size order) (remaining - block_size order))

unfoldable pub seed_global_free_region :
    BuddyAllocator → ℕ → ℕ → FrameResult {0} Unit × BuddyAllocator
seed_global_free_region s start remaining = seed_loop remaining s start remaining

unfoldable pub seed_ranges : BuddyAllocator → List Range → FrameResult {0} Unit × BuddyAllocator
seed_ranges s [] = (ok tt, s)
seed_ranges s ((start, len) ∷ ranges) =
    and_then (seed_global_free_region s start len) λ u s'. seed_ranges s' ranges

-- A state without blocks.
abbrev pub fresh : (total max_order cpu_count nodes : ℕ) → BuddyAllocator
fresh total max_order cpu_count nodes = record {
  total_frames = total;
  max_order = max_order;
  cpu_count = cpu_count;
  global_free = λ order. no_nodes;
  allocations = no_nodes;
  per_cpu = λ cpu_id order. no_nodes;
  unused_len = nodes;
}

abbrev pub made : FrameResult {0} Unit × BuddyAllocator → FrameResult BuddyAllocator
made (ok u, s) = ok s
made (err e, s) = err e

abbrev pub with_total :
    FrameResult ℕ → (ℕ → FrameResult BuddyAllocator) → FrameResult BuddyAllocator
with_total (ok total) f = f total
with_total (err e) f = err e

-- The limits of an allocator, its constant parameters: of ranges, processors and nodes.
pub record Limits : Type 0 where
  pub max_usable_ranges : ℕ
  pub max_cpus : ℕ
  pub max_block_nodes : ℕ

unfoldable pub init_from_usable_ranges : Limits → List Range → ℕ → FrameResult BuddyAllocator
init_from_usable_ranges limits ranges cpu_count =
    if cpu_count == 0 || ltb limits.max_cpus cpu_count
    then err invalid_count
    else (with_total (total_frames 0 ranges) λ total.
        if total == 0
        then err invalid_memory_map
        else if leb max_order_slots (floor_log2 total)
        then err invalid_count
        else made
            (seed_ranges (fresh total (floor_log2 total) cpu_count limits.max_block_nodes) ranges))

abbrev pub with_ranges :
    FrameResult (List Range)
    → (List Range → FrameResult BuddyAllocator)
    → FrameResult BuddyAllocator
with_ranges (ok ranges) f = f ranges
with_ranges (err e) f = err e

unfoldable pub bootstrap : Limits → List MemoryRegion → ℕ → FrameResult BuddyAllocator
bootstrap limits mem_map cpu_count =
    if cpu_count == 0 || ltb limits.max_cpus cpu_count
    then err invalid_count
    else (with_ranges (collect_usable_ranges limits.max_usable_ranges [] mem_map)
        λ ranges. init_from_usable_ranges limits ranges cpu_count)
