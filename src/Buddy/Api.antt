-- ===== src/Buddy/Api.antt =====
-- aether-frame/src/mm/buddy.rs: the caches of the processors and the calls of the allocator.
use Prim.Native.Nat.{bit_and}
use aether_kernel.Prelude.{
  ℕ, zero, suc, ◌+◌, ◌-◌, ◌*◌, ◌/◌, ◌%◌, ◌^◌, Bool, not, List, [], ◌∷◌, Option, none, some, ltb,
  leb, ◌==◌, if◌then◌else◌,
}
use aether_kernel.Buddy.{
  BlockNode, BuddyAllocator, FrameResult, ok, err, invalid_cpu, invalid_frame, out_of_memory,
  ref_count_overflow, ref_count_underflow, per_cpu_cache_max_order, push_node, cpu_push, cpu_pop,
}
use aether_kernel.Buddy.Orders.{refill_batch, high_watermark, order_for_count}
use aether_kernel.Buddy.Global.{and_then, alloc_from_global, free_global_block}

abbrev pub page_shift : ℕ
page_shift = 12

abbrev pub page_size : ℕ
page_size = 2 ^ page_shift

abbrev pub cache_len : BuddyAllocator → ℕ → ℕ → ℕ
cache_len s cpu_id order = (s.per_cpu cpu_id order).len

abbrev pub is_cpu : BuddyAllocator → ℕ → Bool
is_cpu s cpu_id = ltb cpu_id s.cpu_count

-- What a refill does after an allocation: only an exhausted memory ends it without an error.
abbrev pub or_stop :
    FrameResult BlockNode × BuddyAllocator
    → (BlockNode → BuddyAllocator → FrameResult {0} Unit × BuddyAllocator)
    → FrameResult {0} Unit × BuddyAllocator
or_stop (ok b, s) f = f b s
or_stop (err out_of_memory, s) f = (ok tt, s)
or_stop (err e, s) f = (err e, s)

unfoldable pub refill_loop : ℕ → BuddyAllocator → ℕ → ℕ → FrameResult {0} Unit × BuddyAllocator
refill_loop zero s cpu_id order = (ok tt, s)
refill_loop (suc n) s cpu_id order =
    or_stop (alloc_from_global s order)
      λ b s'. refill_loop n (cpu_push s' cpu_id order b) cpu_id order

unfoldable pub refill_per_cpu_cache : BuddyAllocator → ℕ → ℕ → FrameResult {0} Unit × BuddyAllocator
refill_per_cpu_cache s cpu_id order =
    and_then (refill_loop (refill_batch order) s cpu_id order)
      λ u s'. (if cache_len s' cpu_id order == 0 then err out_of_memory else ok tt, s')

abbrev pub drain_popped :
    Option (BlockNode × BuddyAllocator)
    → BuddyAllocator
    → (BuddyAllocator → FrameResult {0} Unit × BuddyAllocator)
    → FrameResult {0} Unit × BuddyAllocator
drain_popped none s f = (ok tt, s)
drain_popped (some (b, s')) s f = and_then (free_global_block s' b) λ u. f

-- The loop of a drain, for the blocks that are too many. An empty cache, at which the source panics,
-- holds none.
unfoldable pub drain_loop : ℕ → BuddyAllocator → ℕ → ℕ → FrameResult {0} Unit × BuddyAllocator
drain_loop zero s cpu_id order = (ok tt, s)
drain_loop (suc n) s cpu_id order =
    drain_popped (cpu_pop s cpu_id order) s λ s'. drain_loop n s' cpu_id order

unfoldable pub drain_per_cpu_cache : BuddyAllocator → ℕ → ℕ → FrameResult {0} Unit × BuddyAllocator
drain_per_cpu_cache s cpu_id order =
    if leb (cache_len s cpu_id order) (high_watermark order)
    then (ok tt, s)
    else drain_loop (cache_len s cpu_id order - refill_batch order) s cpu_id order

abbrev pub popped_or :
    Option (BlockNode × BuddyAllocator)
    → FrameResult BlockNode × BuddyAllocator
    → FrameResult BlockNode × BuddyAllocator
popped_or none otherwise = otherwise
popped_or (some (b, s)) otherwise = (ok b, s)

unfoldable pub alloc_block : BuddyAllocator → ℕ → ℕ → FrameResult BlockNode × BuddyAllocator
alloc_block s cpu_id order =
    if not (is_cpu s cpu_id)
    then (err invalid_cpu, s)
    else if leb order per_cpu_cache_max_order
    then popped_or (cpu_pop s cpu_id order) (
        and_then (refill_per_cpu_cache s cpu_id order)
          λ u s'. popped_or (cpu_pop s' cpu_id order) (alloc_from_global s' order))
    else alloc_from_global s order

unfoldable pub mark_allocated : BuddyAllocator → BlockNode → ℕ → FrameResult ℕ × BuddyAllocator
mark_allocated s b order = if not (b.refcount == 0) then (err invalid_frame, s) else (
  ok b.start,
  record s { allocations = push_node (record b { order = order; refcount = 1 }) s.allocations },
)

-- The physical address of a frame.
abbrev pub to_address : FrameResult ℕ × BuddyAllocator → FrameResult ℕ × BuddyAllocator
to_address r = and_then r λ frame s. (ok (frame * page_size % 2 ^ 64), s)

abbrev pub with_order :
    FrameResult ℕ
    → BuddyAllocator
    → (ℕ → FrameResult ℕ × BuddyAllocator)
    → FrameResult ℕ × BuddyAllocator
with_order (ok order) s f = f order
with_order (err e) s f = (err e, s)

unfoldable pub alloc_frame_4k_on_cpu : BuddyAllocator → ℕ → ℕ → FrameResult ℕ × BuddyAllocator
alloc_frame_4k_on_cpu s cpu_id count =
    with_order (order_for_count count s.max_order) s
      λ order. to_address (and_then (alloc_block s cpu_id order) λ b s'. mark_allocated s' b order)

-- The frame of an address, which must be that of a page.
unfoldable pub frame_number_from_addr : ℕ → FrameResult ℕ
frame_number_from_addr block =
    if bit_and block (page_size - 1) == 0 then ok (block / page_size) else err invalid_frame

-- The first allocation at a frame, as `find_allocation_index` finds it.
unfoldable pub find_start : ℕ → List BlockNode → Option BlockNode
find_start start [] = none
find_start start (b ∷ blocks) = if b.start == start then some b else find_start start blocks

-- Its reference count written, and its removal by `remove_allocation_node`.
unfoldable pub set_refcount : ℕ → ℕ → List BlockNode → List BlockNode
set_refcount start n [] = []
set_refcount start n (b ∷ blocks) =
    let rest = set_refcount start n blocks in
    if b.start == start then record b { refcount = n } ∷ blocks else b ∷ rest

unfoldable pub remove_allocation : ℕ → List BlockNode → List BlockNode
remove_allocation start [] = []
remove_allocation start (b ∷ blocks) =
    let rest = remove_allocation start blocks in if b.start == start then blocks else b ∷ rest

abbrev pub with_allocations : BuddyAllocator → List BlockNode → BuddyAllocator
with_allocations s blocks = record s {
  allocations = record { blocks = blocks; len = s.allocations.len };
}

abbrev pub on_frame {ℓ} :
    {A : Type ℓ}
    → FrameResult ℕ
    → BuddyAllocator
    → (ℕ → BlockNode → FrameResult A × BuddyAllocator)
    → FrameResult A × BuddyAllocator
on_frame {A = A} (err e) s f = (err e, s)
on_frame {A = A} (ok frame) s f = found (find_start frame s.allocations.blocks)
  where
    found : Option BlockNode → FrameResult A × BuddyAllocator
    found none = (err invalid_frame, s)
    found (some b) = f frame b

abbrev pub u32_max : ℕ
u32_max = 2 ^ 32 - 1

unfoldable pub retain_frame : BuddyAllocator → ℕ → FrameResult ℕ × BuddyAllocator
retain_frame s block = on_frame (frame_number_from_addr block) s λ frame b.
    if b.refcount == u32_max then (err ref_count_overflow, s) else (
      ok (b.refcount + 1),
      with_allocations s (set_refcount frame (b.refcount + 1) s.allocations.blocks),
    )

-- A block whose last reference is gone, given back.
unfoldable pub give_back : BuddyAllocator → ℕ → BlockNode → FrameResult {0} Unit × BuddyAllocator
give_back s cpu_id b =
    if leb b.order per_cpu_cache_max_order
    then drain_per_cpu_cache (cpu_push s cpu_id b.order b) cpu_id b.order
    else free_global_block s b

unfoldable pub free_frame_on_cpu : BuddyAllocator → ℕ → ℕ → FrameResult {0} Unit × BuddyAllocator
free_frame_on_cpu s cpu_id block =
    if not (is_cpu s cpu_id)
    then (err invalid_cpu, s)
    else on_frame (frame_number_from_addr block) s λ frame b.
      if b.refcount == 0
      then (err ref_count_underflow, s)
      else if not (b.refcount - 1 == 0)
      then (ok tt, with_allocations s (set_refcount frame (b.refcount - 1) s.allocations.blocks))
      else give_back
          (record s {
            allocations = record {
              blocks = remove_allocation frame s.allocations.blocks;
              len = s.allocations.len - 1;
            };
          })
          cpu_id b
