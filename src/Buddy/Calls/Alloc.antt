-- ===== src/Buddy/Calls/Alloc.antt =====
-- An allocation of frames by buddy.rs.
use mathlib.Core.Path.{subst}
use aether_kernel.Prelude.{
  ℕ, ◌+◌, ◌*◌, ◌%◌, ◌^◌, ◌≤◌, ◌≡◌, refl, sym, ap, true, arith, ltb, ◌==◌, if◌then◌else◌, ◌⊎◌, inl,
  inr,
}
use aether_kernel.Buddy.{
  BlockNode, BuddyAllocator, FrameResult, FrameAllocError, ok, err, invalid_count, push_node,
}
use aether_kernel.Buddy.Orders.{order_for_count, ceil_log2}
use aether_kernel.Buddy.Global.{and_then}
use aether_kernel.Buddy.Api.{
  alloc_frame_4k_on_cpu, alloc_block, mark_allocated, to_address, with_order, page_size,
}
use aether_kernel.Buddy.Align.{IsAligned}
use aether_kernel.Buddy.Weight.{
  Weight, IsSplit, cover, cover-IsSplit, weigh_own, total, weigh_free, weigh_cached,
}
use aether_kernel.Buddy.Valid.{IsValid}
use aether_kernel.Buddy.Split.{IsWhole}
use aether_kernel.Buddy.Caches.{Gives, alloc_block-Gives}
use aether_kernel.Buddy.Calls.{total-allocations, with_allocations-IsValid}

-- The state is well-formed, and every frame lies in as many blocks as before.
abbrev pub IsConserved : BuddyAllocator → BuddyAllocator → Type 0
IsConserved s s' =
    IsValid s'
    × (s'.max_order ≡ s.max_order)
    × (s'.cpu_count ≡ s.cpu_count)
    × ((w : Weight) → IsSplit w → total w s' ≡ total w s)

abbrev pub new_allocation : ℕ → ℕ → BlockNode
new_allocation frame order = record { start = frame; order = order; refcount = 1 }

-- The outcome of an allocation of a number of frames.
abbrev pub IsAllocation : BuddyAllocator → ℕ → FrameResult ℕ × BuddyAllocator → Type 0
IsAllocation s count r =
    ((e : FrameAllocError) × (s' : BuddyAllocator) × (r ≡ (err e, s'))
      × IsConserved s s'
      × (s'.allocations ≡ s.allocations))
    ⊎ ((frame : ℕ) × (order : ℕ) × (s' : BuddyAllocator) × (r
          ≡ (ok (frame * page_size % 2 ^ 64), s'))
        × IsConserved s s'
        × (order_for_count count s.max_order ≡ ok order)
        × IsAligned order frame
        × (s'.allocations ≡ push_node (new_allocation frame order) s.allocations))

order_for_count-le : (count m k : ℕ) → order_for_count count m ≡ ok k → k ≤ m
unfolding order_for_count
order_for_count-le count m k h = bound (ceil_log2 count) h
  where
    bound :
        (o : ℕ)
        → (if count == 0 then err invalid_count else if ltb m o then err invalid_count else ok o)
          ≡ ok k
        → k ≤ m
    bound o h = ground (arith, h)

order-cases : (r : FrameResult ℕ) → ((e : FrameAllocError) × (r ≡ err e)) ⊎ ((k : ℕ) × (r ≡ ok k))
order-cases (ok k) = inr (k, refl)
order-cases (err e) = inl (e, refl)

alloc_frame_4k_on_cpu-cases :
    (s : BuddyAllocator) (cpu count : ℕ)
    → IsValid s
    → IsWhole s
    → IsAllocation s count (alloc_frame_4k_on_cpu s cpu count)
unfolding alloc_frame_4k_on_cpu mark_allocated
alloc_frame_4k_on_cpu-cases s cpu count v whole =
    elim (order-cases (order_for_count count s.max_order)) [
      | inl (e, q) ↦ rw q (inl (e, s, refl, (v, refl, refl, (λ w p. refl)), refl))
      | inr (k, q) ↦
          subst (λ x. IsAllocation s count (with_order x s after)) (sym q)
            (given k q (alloc_block-Gives s cpu k v whole))
    ]
  where
    after : ℕ → FrameResult ℕ × BuddyAllocator
    after order = to_address (and_then (alloc_block s cpu order) λ b s'. mark_allocated s' b order)

    given :
        (k : ℕ)
        → order_for_count count s.max_order ≡ ok k
        → Gives s k (alloc_block s cpu k)
        → IsAllocation s count
            (to_address (and_then (alloc_block s cpu k) λ b s'. mark_allocated s' b k))
    given k q (inl (e, t, r, same)) =
        rw r (inl (e, t, refl, (same.0, same.1.0, same.1.1, same.2), same.1.2))
    given k q (inr (b, t, r, v', kept, f, keeps)) =
        let l = push_node (new_allocation b.start k) t.allocations in
        let u : BuddyAllocator = record t { allocations = l } in
        let unused : (b.refcount == 0) ≡ true = ground (arith, f.2) in
        let le : k ≤ t.max_order = rw (kept.0) (order_for_count-le count s.max_order k q) in
        rw (r, unused)
          (inr (
            b.start,
            k,
            u,
            refl,
            (
              with_allocations-IsValid t l v' ((f.0, le, omega arith), v'.allocated)
                  (rw v'.counted (omega arith)),
              kept.0,
              kept.1,
              (λ w p. omega (arith, total-allocations w t l, keeps w p)),
            ),
            q,
            f.0,
            ap (push_node (new_allocation b.start k)) kept.2,
          ))

allocated-le-total :
    (w : Weight) (s : BuddyAllocator) → weigh_own w s.allocations.blocks ≤ total w s
unfolding total weigh_free weigh_cached
allocated-le-total w s = omega arith

-- An allocation in a well-formed state either fails and changes no allocation, or returns the address
-- of a block: one of the order for the count, aligned to its size, no frame of which belongs to any
-- allocation before. It is the new allocation, held once. In both cases the state stays well-formed,
-- and every frame lies in as many blocks, free, cached or allocated, as before.
pub alloc_frame_4k_on_cpu_lem :
    (s : BuddyAllocator) (cpu count : ℕ)
    → IsValid s
    → IsWhole s
    → ((e : FrameAllocError) × (s' : BuddyAllocator) × (alloc_frame_4k_on_cpu s cpu count
          ≡ (err e, s'))
        × IsConserved s s'
        × (s'.allocations ≡ s.allocations))
      ⊎ ((frame : ℕ) × (order : ℕ) × (s' : BuddyAllocator) × (alloc_frame_4k_on_cpu s cpu count
            ≡ (ok (frame * page_size % 2 ^ 64), s'))
          × IsConserved s s'
          × (order_for_count count s.max_order ≡ ok order)
          × IsAligned order frame
          × (s'.allocations ≡ push_node (new_allocation frame order) s.allocations)
          × ((f : ℕ) → cover f frame order + weigh_own (cover f) s.allocations.blocks ≤ 1))
alloc_frame_4k_on_cpu_lem s cpu count v whole =
    elim (alloc_frame_4k_on_cpu-cases s cpu count v whole) [
      | inl failed ↦ inl failed
      | inr (frame, order, t, r, keeps, q, al, pushed) ↦ inr (
        frame,
        order,
        t,
        r,
        keeps,
        q,
        al,
        pushed,
        λ f.
            let mine = ap (λ l. weigh_own (cover f) l.blocks) pushed in
            omega (
              arith,
              mine,
              allocated-le-total (cover f) t,
              whole f,
              keeps.3 (cover f) (cover-IsSplit f),
            ),
      )
    ]
