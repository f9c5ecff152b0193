-- ===== src/Buddy/Global.antt =====
-- aether-frame/src/mm/buddy.rs: blocks taken from the global free lists by splitting, and given back
-- to them by merging with their buddies.
use Prim.Native.Nat.{bit_xor}
use aether_kernel.Prelude.{
  ℕ, zero, suc, ◌+◌, ◌-◌, min, Bool, true, false, List, [], ◌∷◌, Option, none, some, if◌then◌else◌,
}
use aether_kernel.Buddy.{
  BlockNode, BuddyAllocator, FrameResult, ok, err, out_of_memory, metadata_exhausted, block_size,
  alloc_unused, release_unused, has_unused, global_insert_sorted, global_remove_by_start,
  global_pop_first,
}

abbrev pub is_empty : List BlockNode → Bool
is_empty [] = true
is_empty (b ∷ blocks) = false

-- The search for a list that is not empty, over `n` orders from `order` on.
unfoldable pub first_order : ℕ → BuddyAllocator → ℕ → Option ℕ
first_order zero s order = none
first_order (suc n) s order =
    let rest = first_order n s (order + 1) in
    if is_empty (s.global_free order).blocks then rest else some order

-- A call behind another, which an error of the first cuts off.
abbrev pub and_then {ℓ κ} :
    {A : Type ℓ} {B : Type κ}
    → FrameResult A × BuddyAllocator
    → (A → BuddyAllocator → FrameResult B × BuddyAllocator)
    → FrameResult B × BuddyAllocator
and_then (ok a, s) f = f a s
and_then (err e, s) f = (err e, s)

abbrev pub free_node : ℕ → ℕ → BlockNode
free_node start order = record { start = start; order = order; refcount = 0 }

abbrev pub taken_unused :
    Option BuddyAllocator → BuddyAllocator → FrameResult {0} Unit × BuddyAllocator
taken_unused none s = (err metadata_exhausted, s)
taken_unused (some s') s = (ok tt, s')

-- A node taken from the unused ones that describes a free block, put in the list of its order.
unfoldable pub add_free : BuddyAllocator → ℕ → ℕ → FrameResult {0} Unit × BuddyAllocator
unfolding alloc_unused global_insert_sorted
add_free s start order =
    and_then (taken_unused (alloc_unused s) s)
      λ u s'. global_insert_sorted s' order (free_node start order)

-- The loop that halves a block `n` times, down to `order`; the upper halves become free.
unfoldable pub split_loop :
    ℕ → BuddyAllocator → BlockNode → ℕ → FrameResult BlockNode × BuddyAllocator
unfolding add_free
split_loop zero s b order = (ok b, s)
split_loop (suc n) s b order =
    and_then (add_free s (b.start + block_size (order + n)) (order + n))
      λ u s'. split_loop n s' (record b { order = order + n }) order

abbrev pub split_popped :
    Option (BlockNode × BuddyAllocator)
    → BuddyAllocator
    → ℕ
    → ℕ
    → FrameResult BlockNode × BuddyAllocator
split_popped none s current order = (err out_of_memory, s)
split_popped (some (b, s')) s current order =
    split_loop (current - order) s' (record b { order = current }) order

abbrev pub take_order : Option ℕ → BuddyAllocator → ℕ → FrameResult BlockNode × BuddyAllocator
take_order none s order = (err out_of_memory, s)
take_order (some current) s order =
    if has_unused s (current - order)
    then split_popped (global_pop_first s current) s current order
    else (err metadata_exhausted, s)

unfoldable pub alloc_from_global : BuddyAllocator → ℕ → FrameResult BlockNode × BuddyAllocator
unfolding first_order split_loop global_pop_first
alloc_from_global s order = take_order (first_order (s.max_order + 1 - order) s order) s order

abbrev pub buddy_of : ℕ → ℕ → ℕ
buddy_of block order = bit_xor block (block_size order)

-- The loop that merges a block with its buddy as long as that is free, at most `n` times: the start
-- and the order of what it becomes.
unfoldable pub coalesce : ℕ → BuddyAllocator → ℕ → ℕ → (ℕ × ℕ) × BuddyAllocator
unfolding global_remove_by_start
coalesce zero s block order = ((block, order), s)
coalesce (suc n) s block order = elim (global_remove_by_start s order (buddy_of block order)) [
  | none ↦ ((block, order), s)
  | some s' ↦ coalesce n (release_unused s') (min block (buddy_of block order)) (order + 1)
]

unfoldable pub free_global_block :
    BuddyAllocator → BlockNode → FrameResult {0} Unit × BuddyAllocator
unfolding coalesce global_insert_sorted
free_global_block s b =
    let ((block, order), s') = coalesce (s.max_order - b.order) s b.start b.order in
    global_insert_sorted s' order (free_node block order)
