-- ===== src/Buddy/Tests.antt =====
-- Runs of buddy.rs on eight frames, and the theorems on them.
use aether_kernel.Prelude.{
  ℕ, ◌+◌, ◌*◌, ◌^◌, ◌≤◌, ◌<◌, ◌≡◌, refl, true, false, List, [], ◌∷◌, some, arith, length, All, ◌%◌,
  ◌⊎◌, ltb, if◌then◌else◌,
}
use aether_kernel.Prelude.Bits.{bit_not64}
use aether_kernel.Buddy.{
  BlockNode, BuddyAllocator, FrameResult, FrameAllocError, ok, err, push_node, invalid_memory_map,
  metadata_exhausted, invalid_count, alloc_unused, pop_node, insert_sorted, global_insert_sorted,
  cpu_push, cpu_pop, global_pop_first,
}
use aether_kernel.Buddy.Orders.{
  digits_of, ceil_log2, floor_log2, order_for_count, lower_order, max_fit_order,
  order_for_count_lem,
}
use aether_kernel.Buddy.Global.{first_order, add_free, split_loop, alloc_from_global}
use aether_kernel.Buddy.Api.{
  refill_loop, refill_per_cpu_cache, alloc_block, mark_allocated, alloc_frame_4k_on_cpu,
  frame_number_from_addr, find_start, remove_allocation, retain_frame, free_frame_on_cpu,
}
use aether_kernel.Buddy.Ranges.{
  Range, MemoryRegion, absorb, join_prev, seek, insert_merged_sorted, insert_region, collect_region,
  collect_usable_ranges, total_frames,
}
use aether_kernel.Buddy.Ranges.Insert.{IsSorted, within, frames_at, insert_merged_sorted_lem}
use aether_kernel.Buddy.Ranges.Pages.{IsInBounds, pages_at, collect_usable_ranges_lem}
use aether_kernel.Buddy.Seed.{
  seed_loop, seed_global_free_region, seed_ranges, init_from_usable_ranges, bootstrap, Limits,
  fresh,
}
use aether_kernel.Buddy.Seed.Region.{IsSeeded, seed_global_free_region_lem}
use aether_kernel.Buddy.Seed.Boot.{frames, total-fresh, fresh-IsValid, bootstrap_lem, bootstrap-run}
use aether_kernel.Buddy.Weight.{cover, total, weigh_own}
use aether_kernel.Buddy.Align.{IsAligned}
use aether_kernel.Buddy.Valid.{IsValid}
use aether_kernel.Buddy.Split.{IsWhole}
use aether_kernel.Buddy.Calls.Alloc.{IsConserved, new_allocation, alloc_frame_4k_on_cpu_lem}
use aether_kernel.Buddy.Calls.Free.{free_frame_on_cpu_lem}
use aether_kernel.Buddy.Calls.Retain.{free_frame_on_cpu-retain_frame}
use aether_kernel.Buddy.Calls.Runs.{Call, alloc, retain, free, apply, run}

-- Two regions with eight usable pages that meet, and one that is reserved.
abbrev mem_map : List MemoryRegion
mem_map =
    record { start = 20000; len = 12800; usable = true }
    ∷ record { start = 65536; len = 4096; usable = false }
    ∷ record { start = 0; len = 20480; usable = true }
    ∷ []

abbrev limits : Limits
limits = record { max_usable_ranges = 4; max_cpus = 2; max_block_nodes = 16 }

ranges_found : collect_usable_ranges 4 [] mem_map ≡ ok ((0, 8) ∷ [])
unfolding collect_usable_ranges collect_region insert_region insert_merged_sorted seek join_prev
    absorb bit_not64
ranges_found = refl

abbrev started : FrameResult BuddyAllocator → BuddyAllocator
started (ok s) = s
started (err e) = fresh 0 0 0 0

unfoldable booted : BuddyAllocator
booted = started (bootstrap limits mem_map 2)

bootstrap-booted : bootstrap limits mem_map 2 ≡ ok booted
unfolding booted bootstrap collect_usable_ranges collect_region insert_region insert_merged_sorted
    seek join_prev absorb bit_not64 init_from_usable_ranges total_frames floor_log2 digits_of
    seed_ranges seed_global_free_region seed_loop max_fit_order lower_order add_free alloc_unused
    global_insert_sorted insert_sorted
bootstrap-booted = refl

map-IsInBounds : All IsInBounds mem_map
map-IsInBounds =
    ((omega arith, omega arith), ((omega arith, omega arith), ((omega arith, omega arith), tt)))

pages_apart : (f : ℕ) → pages_at f mem_map ≤ 1
pages_apart f = ground arith

-- The cache gets all eight frames, of which the last is given out; a block of eight is refused then.
abbrev some_calls : List Call
some_calls = alloc 0 1 ∷ alloc 1 8 ∷ retain 28672 ∷ free 1 28672 ∷ free 1 28672 ∷ free 1 28672 ∷ []

unfoldable one_taken : BuddyAllocator
one_taken = run booted (alloc 0 1 ∷ [])

abbrev last_frame : BlockNode
last_frame = record { start = 7; order = 0; refcount = 1 }

last_taken : one_taken.allocations ≡ record { blocks = last_frame ∷ []; len = 1 }
unfolding one_taken run apply booted bootstrap collect_usable_ranges collect_region insert_region
    insert_merged_sorted seek join_prev absorb bit_not64 init_from_usable_ranges total_frames
    floor_log2 digits_of seed_ranges seed_global_free_region seed_loop max_fit_order lower_order
    add_free alloc_unused global_insert_sorted insert_sorted alloc_frame_4k_on_cpu order_for_count
    ceil_log2 alloc_block mark_allocated refill_per_cpu_cache refill_loop alloc_from_global
    first_order split_loop cpu_pop cpu_push pop_node global_pop_first
last_taken = refl

booted-IsValid : IsValid booted × ((f : ℕ) → total (cover f) booted ≡ pages_at f mem_map)
unfolding run
booted-IsValid =
    bootstrap-run limits mem_map 2 booted [] (omega arith) (omega arith) (omega arith)
      map-IsInBounds pages_apart bootstrap-booted

taken-IsValid : IsValid one_taken × ((f : ℕ) → total (cover f) one_taken ≡ pages_at f mem_map)
unfolding one_taken
taken-IsValid =
    bootstrap-run limits mem_map 2 booted (alloc 0 1 ∷ []) (omega arith) (omega arith) (omega arith)
      map-IsInBounds pages_apart bootstrap-booted

booted-IsWhole : IsWhole booted
booted-IsWhole f = omega (arith, booted-IsValid.1 f, pages_apart f)

taken-IsWhole : IsWhole one_taken
taken-IsWhole f = omega (arith, taken-IsValid.1 f, pages_apart f)

cpus_taken : one_taken.cpu_count ≡ 2
unfolding one_taken run apply booted bootstrap collect_usable_ranges collect_region insert_region
    insert_merged_sorted seek join_prev absorb bit_not64 init_from_usable_ranges total_frames
    floor_log2 digits_of seed_ranges seed_global_free_region seed_loop max_fit_order lower_order
    add_free alloc_unused global_insert_sorted insert_sorted alloc_frame_4k_on_cpu order_for_count
    ceil_log2 alloc_block mark_allocated refill_per_cpu_cache refill_loop alloc_from_global
    first_order split_loop cpu_pop cpu_push pop_node global_pop_first
cpus_taken = refl

frame_seven : frame_number_from_addr 28672 ≡ ok 7
unfolding frame_number_from_addr
frame_seven = refl

seven_found : find_start 7 one_taken.allocations.blocks ≡ some last_frame
unfolding find_start
seven_found = rw last_taken refl

bootstrap-run_example :
    IsValid (run booted some_calls)
    × ((f : ℕ) → total (cover f) (run booted some_calls) ≡ pages_at f mem_map)
bootstrap-run_example =
    bootstrap-run limits mem_map 2 booted some_calls (omega arith) (omega arith) (omega arith)
      map-IsInBounds pages_apart bootstrap-booted

alloc_frame_4k_on_cpu_lem_example :
    ((e : FrameAllocError) × (s' : BuddyAllocator) × (alloc_frame_4k_on_cpu booted 0 2
        ≡ (err e, s'))
      × IsConserved booted s'
      × (s'.allocations ≡ booted.allocations))
    ⊎ ((frame : ℕ) × (order : ℕ) × (s' : BuddyAllocator) × (alloc_frame_4k_on_cpu booted 0 2
          ≡ (ok (frame * 4096 % 2 ^ 64), s'))
        × IsConserved booted s'
        × (order_for_count 2 booted.max_order ≡ ok order)
        × IsAligned order frame
        × (s'.allocations ≡ push_node (new_allocation frame order) booted.allocations)
        × ((f : ℕ) → cover f frame order + weigh_own (cover f) booted.allocations.blocks ≤ 1))
alloc_frame_4k_on_cpu_lem_example =
    alloc_frame_4k_on_cpu_lem booted 0 2 booted-IsValid.0 booted-IsWhole

free_frame_on_cpu_lem_example :
    (s' : BuddyAllocator) × (free_frame_on_cpu one_taken 1 28672 ≡ (ok tt, s'))
    × IsConserved one_taken s'
    × (s'.allocations.blocks ≡ remove_allocation 7 one_taken.allocations.blocks)
free_frame_on_cpu_lem_example =
    free_frame_on_cpu_lem one_taken 1 28672 7 last_frame taken-IsValid.0 taken-IsWhole
      (omega (arith, cpus_taken)) frame_seven seven_found

free_frame_on_cpu-retain_frame_example :
    ((retain_frame one_taken 28672).0 ≡ ok 2)
    × (free_frame_on_cpu (retain_frame one_taken 28672).1 1 28672 ≡ (ok tt, one_taken))
free_frame_on_cpu-retain_frame_example =
    free_frame_on_cpu-retain_frame one_taken 1 28672 7 last_frame (omega (arith, cpus_taken))
      frame_seven seven_found (omega arith) (omega arith)

order_for_count_lem_example :
    (order_for_count 0 3 ≡ err invalid_count)
    × (k : ℕ) × (5 ≤ 2 ^ k)
    × (2 ^ k < 10)
    × (order_for_count 5 3 ≡ (if ltb 3 k then err invalid_count else ok k))
order_for_count_lem_example = order_for_count_lem 5 3 (omega arith) (omega arith)

abbrev two_ranges : List Range
two_ranges = (0, 2) ∷ (6, 3) ∷ []

insert_merged_sorted_lem_example :
    ((insert_merged_sorted 4 two_ranges 2 4 ≡ err invalid_memory_map)
      × (f : ℕ) × (0 < frames_at f two_ranges)
      × (within f 2 4 ≡ 1))
    ⊎ (((insert_merged_sorted 4 two_ranges 2 4 ≡ err metadata_exhausted) × (length two_ranges ≡ 4))
        ⊎ ((after : List Range) × (insert_merged_sorted 4 two_ranges 2 4 ≡ ok after)
            × IsSorted 0 after
            × (length after ≤ 4)
            × (length after ≤ 3)
            × ((f : ℕ) → frames_at f after ≡ frames_at f two_ranges + within f 2 4)))
insert_merged_sorted_lem_example =
    insert_merged_sorted_lem 4 two_ranges 2 4
      (omega arith, omega arith, omega arith, (omega arith, omega arith, omega arith, tt))
      (omega arith) (omega arith) (omega arith)

collect_usable_ranges_lem_example :
    (after : List Range) × (collect_usable_ranges 4 [] mem_map ≡ ok after)
    × IsSorted 0 after
    × (length after ≤ 4)
    × ((f : ℕ) → frames_at f after ≡ 0 + pages_at f mem_map)
collect_usable_ranges_lem_example =
    collect_usable_ranges_lem 4 [] mem_map tt (omega arith) map-IsInBounds
      (λ f. omega (arith, pages_apart f))

seed_global_free_region_lem_example :
    IsSeeded (fresh 7 2 1 4) 7 (λ f. within f 1 7) (seed_global_free_region (fresh 7 2 1 4) 1 7)
seed_global_free_region_lem_example =
    seed_global_free_region_lem (fresh 7 2 1 4) 1 7 (omega arith)
      (fresh-IsValid 7 2 1 4 (omega arith)) (λ f. ground (arith, total-fresh (cover f) 7 2 1 4))

bootstrap_lem_example :
    ((bootstrap limits mem_map 2 ≡ err invalid_memory_map) × ((f : ℕ) → pages_at f mem_map ≡ 0))
    ⊎ (((bootstrap limits mem_map 2 ≡ err metadata_exhausted)
          × (ranges : List Range) × (collect_usable_ranges 4 [] mem_map ≡ ok ranges)
          × (16 < frames ranges))
        ⊎ ((s : BuddyAllocator) × (bootstrap limits mem_map 2 ≡ ok s)
            × IsValid s
            × (s.cpu_count ≡ 2)
            × ((f : ℕ) → total (cover f) s ≡ pages_at f mem_map)
            × (f : ℕ) × (0 < pages_at f mem_map)))
bootstrap_lem_example =
    bootstrap_lem limits mem_map 2 (omega arith) (omega arith) (omega arith) map-IsInBounds
      pages_apart
