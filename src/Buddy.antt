-- ===== src/Buddy.antt =====
-- aether-frame/src/mm/buddy.rs: the allocator of physical frames. A list that the source links through
-- the nodes of its pool (the free lists of each order, the caches of each processor, the allocations)
-- is the list of the blocks that its nodes describe, in the same order, with its length beside it. Of
-- the unused nodes, which hold nothing, the number is kept. A step that the source does on a node in
-- no list is done on its block.
pub mod Orders
pub mod Global
pub mod Api
pub mod Align
pub mod Weight
pub mod Valid
pub mod Lists
pub mod Split
pub mod Merge
pub mod Caches
pub mod Calls
pub mod Ranges
pub mod Seed
mod Tests
use aether_kernel.Prelude.{
  ℕ, zero, suc, ◌+◌, ◌-◌, ◌*◌, ◌^◌, Bool, true, false, List, [], ◌∷◌, Option, none, some, ltb, ◌==◌,
  if◌then◌else◌,
}

pub data FrameAllocError : Type 0 where
  invalid_count invalid_cpu invalid_memory_map invalid_frame : FrameAllocError
  out_of_memory metadata_exhausted ref_count_overflow ref_count_underflow : FrameAllocError

pub data FrameResult {ℓ} (A : Type ℓ) : Type ℓ where
  ok : A → FrameResult A
  err : FrameAllocError → FrameResult A

abbrev pub max_order_slots : ℕ
max_order_slots = 64

abbrev pub per_cpu_cache_max_order : ℕ
per_cpu_cache_max_order = 4

pub record BlockNode : Type 0 where
  pub start : ℕ
  pub order : ℕ
  pub refcount : ℕ

pub record NodeList : Type 0 where
  pub blocks : List BlockNode
  pub len : ℕ

abbrev pub no_nodes : NodeList
no_nodes = record { blocks = []; len = 0 }

pub record BuddyAllocator : Type 0 where
  pub total_frames : ℕ
  pub max_order : ℕ
  pub cpu_count : ℕ
  pub global_free : ℕ → NodeList
  pub allocations : NodeList
  pub per_cpu : ℕ → ℕ → NodeList
  pub unused_len : ℕ

abbrev pub block_size : ℕ → ℕ
block_size order = 2 ^ order

-- An array with one entry written.
abbrev pub put_at {ℓ} : {A : Type ℓ} → (ℕ → A) → ℕ → A → ℕ → A
put_at array i value j = if i == j then value else array j

abbrev pub with_global : BuddyAllocator → ℕ → NodeList → BuddyAllocator
with_global s order l = record s { global_free = put_at s.global_free order l }

abbrev pub with_cache : BuddyAllocator → ℕ → ℕ → NodeList → BuddyAllocator
with_cache s cpu_id order l = record s {
  per_cpu = put_at s.per_cpu cpu_id (put_at (s.per_cpu cpu_id) order l);
}

-- `NodePool::alloc_unused`, whose node the caller fills in.
unfoldable pub alloc_unused : BuddyAllocator → Option BuddyAllocator
alloc_unused s =
    if s.unused_len == 0 then none else some (record s { unused_len = s.unused_len - 1 })

abbrev pub release_unused : BuddyAllocator → BuddyAllocator
release_unused s = record s { unused_len = s.unused_len + 1 }

abbrev pub has_unused : BuddyAllocator → ℕ → Bool
has_unused s need = if ltb s.unused_len need then false else true

abbrev pub push_node : BlockNode → NodeList → NodeList
push_node b l = record { blocks = b ∷ l.blocks; len = l.len + 1 }

abbrev pub pop_from : List BlockNode → ℕ → Option (BlockNode × NodeList)
pop_from [] len = none
pop_from (b ∷ blocks) len = some (b, record { blocks = blocks; len = len - 1 })

-- The first node of a list, and the list without it.
unfoldable pub pop_node : NodeList → Option (BlockNode × NodeList)
pop_node l = pop_from l.blocks l.len

abbrev pub cons_some : BlockNode → Option (List BlockNode) → Option (List BlockNode)
cons_some c none = none
cons_some c (some blocks) = some (c ∷ blocks)

-- A walk to the place of a block among those of higher starts; `none` if its start is there.
unfoldable pub insert_sorted : BlockNode → List BlockNode → Option (List BlockNode)
insert_sorted b [] = some (b ∷ [])
insert_sorted b (c ∷ blocks) =
    let rest = insert_sorted b blocks in
    if c.start == b.start
    then none
    else if ltb b.start c.start
    then some (b ∷ c ∷ blocks)
    else cons_some c rest

abbrev pub inserted :
    BuddyAllocator → ℕ → ℕ → Option (List BlockNode) → FrameResult {0} Unit × BuddyAllocator
inserted s order len none = (err invalid_frame, s)
inserted s order len (some blocks) =
    (ok tt, with_global s order (record { blocks = blocks; len = len + 1 }))

unfoldable pub global_insert_sorted :
    BuddyAllocator → ℕ → BlockNode → FrameResult {0} Unit × BuddyAllocator
unfolding insert_sorted
global_insert_sorted s order b =
    let l = s.global_free order in inserted s order l.len (insert_sorted b l.blocks)

-- A walk to the block of a start, given up at a higher one: the blocks without it.
unfoldable pub remove_start : ℕ → List BlockNode → Option (List BlockNode)
remove_start start [] = none
remove_start start (c ∷ blocks) =
    let rest = remove_start start blocks in
    if c.start == start then some blocks else if ltb start c.start then none else cons_some c rest

abbrev pub removed : BuddyAllocator → ℕ → ℕ → Option (List BlockNode) → Option BuddyAllocator
removed s order len none = none
removed s order len (some blocks) =
    some (with_global s order (record { blocks = blocks; len = len - 1 }))

unfoldable pub global_remove_by_start : BuddyAllocator → ℕ → ℕ → Option BuddyAllocator
unfolding remove_start
global_remove_by_start s order start =
    let l = s.global_free order in removed s order l.len (remove_start start l.blocks)

unfoldable pub cpu_push : BuddyAllocator → ℕ → ℕ → BlockNode → BuddyAllocator
cpu_push s cpu_id order b =
    with_cache s cpu_id order
      (push_node (record b { order = order; refcount = 0 }) (s.per_cpu cpu_id order))

abbrev pub popped_cache :
    BuddyAllocator → ℕ → ℕ → Option (BlockNode × NodeList) → Option (BlockNode × BuddyAllocator)
popped_cache s cpu_id order none = none
popped_cache s cpu_id order (some (b, l)) = some (b, with_cache s cpu_id order l)

unfoldable pub cpu_pop : BuddyAllocator → ℕ → ℕ → Option (BlockNode × BuddyAllocator)
unfolding pop_node
cpu_pop s cpu_id order = popped_cache s cpu_id order (pop_node (s.per_cpu cpu_id order))

abbrev pub popped_global :
    BuddyAllocator → ℕ → Option (BlockNode × NodeList) → Option (BlockNode × BuddyAllocator)
popped_global s order none = none
popped_global s order (some (b, l)) = some (b, with_global s order l)

unfoldable pub global_pop_first : BuddyAllocator → ℕ → Option (BlockNode × BuddyAllocator)
unfolding pop_node
global_pop_first s order = popped_global s order (pop_node (s.global_free order))
