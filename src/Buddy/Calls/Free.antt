-- ===== src/Buddy/Calls/Free.antt =====
-- References to frames taken and given back in buddy.rs, and sequences of calls.
use aether_kernel.Prelude.{
  ℕ, ◌+◌, ◌-◌, ◌≤◌, ◌<◌, ◌≡◌, refl, ap, true, false, some, arith, leb, ◌==◌, if◌then◌else◌,
  Bool-cases, inl, inr,
}
use aether_kernel.Buddy.{
  BlockNode, NodeList, BuddyAllocator, ok, per_cpu_cache_max_order, max_order_slots, cpu_push,
}
use aether_kernel.Buddy.Api.{
  give_back, free_frame_on_cpu, frame_number_from_addr, find_start, set_refcount, remove_allocation,
  with_allocations, is_cpu,
}
use aether_kernel.Buddy.Align.{IsAligned}
use aether_kernel.Buddy.Weight.{Weight, IsSplit, cover, total}
use aether_kernel.Buddy.Valid.{IsValid, IsKept}
use aether_kernel.Buddy.Lists.{cpu_push-IsGrown}
use aether_kernel.Buddy.Split.{IsWhole, IsApart, IsKept-trans}
use aether_kernel.Buddy.Merge.{free_global_block-grows}
use aether_kernel.Buddy.Caches.{drain_per_cpu_cache-Keeps}
use aether_kernel.Buddy.Calls.{
  total-allocations, with_allocations-IsValid, find_start-takes, set_refcount-keeps,
}
use aether_kernel.Buddy.Calls.Alloc.{IsConserved}

-- A block that is no longer allocated is free or cached afterwards.
give_back-grows :
    (s : BuddyAllocator) (cpu : ℕ) (b : BlockNode)
    → IsValid s
    → cpu < s.cpu_count
    → b.order < max_order_slots
    → IsAligned b.order b.start
    → IsApart s b.start b.order
    → (s' : BuddyAllocator) × (give_back s cpu b ≡ (ok tt, s'))
      × IsValid s'
      × IsKept s s'
      × ((w : Weight) → IsSplit w → total w s' ≡ total w s + w b.start b.order)
unfolding give_back
give_back-grows s cpu b v h o al apart = elim (Bool-cases (leb b.order per_cpu_cache_max_order)) [
  | inr e ↦ rw e (free_global_block-grows s b v o al apart)
  | inl e ↦
      (let p : b.order ≤ per_cpu_cache_max_order = ground (arith, e) in
        let t = cpu_push s cpu b.order b in
        let g = cpu_push-IsGrown s cpu b.order b v h p al in
        let (s', q, same) =
          drain_per_cpu_cache-Keeps cpu b.order p t g.0 (λ f. omega (arith, apart f, g.2 (cover f)))
            (rw (g.1.1) h) in
        (
          s',
          rw e q,
          same.0,
          IsKept-trans s t s' g.1 same.1,
          (λ w i. omega (arith, same.2 w i, g.2 w)),
        ))
]

-- An address with an allocation of any number of references.
module _ (s : BuddyAllocator) (frame : ℕ) (b : BlockNode) (v : IsValid s)
    (found : find_start frame s.allocations.blocks ≡ some b) where
  pub recounted-IsConserved :
      (n : ℕ)
      → 0 < n
      → IsConserved s (with_allocations s (set_refcount frame n s.allocations.blocks))
  recounted-IsConserved n h =
      let k = set_refcount-keeps s.max_order frame n s.allocations.blocks h v.allocated in
      let l : NodeList = record {
        blocks = set_refcount frame n s.allocations.blocks;
        len = s.allocations.len;
      } in
      (
        with_allocations-IsValid s l v k.0 (rw k.1 v.counted),
        refl,
        refl,
        (λ w i. omega (arith, total-allocations w s l, k.2 w)),
      )

  released-IsConserved :
      (cpu : ℕ)
      → IsWhole s
      → cpu < s.cpu_count
      → let t = record s {
        allocations = record {
          blocks = remove_allocation frame s.allocations.blocks;
          len = s.allocations.len - 1;
        };
      } in
        (s' : BuddyAllocator) × (give_back t cpu b ≡ (ok tt, s'))
        × IsConserved s s'
        × (s'.allocations.blocks ≡ remove_allocation frame s.allocations.blocks)
  released-IsConserved cpu whole h =
      let k = find_start-takes s.max_order frame s.allocations.blocks b found v.allocated in
      let l : NodeList = record {
        blocks = remove_allocation frame s.allocations.blocks;
        len = s.allocations.len - 1;
      } in
      let t : BuddyAllocator = record s { allocations = l } in
      let less : (w : Weight) → total w t + w b.start b.order ≡ total w s =
        λ w. omega (arith, total-allocations w s l, k.4 w) in
      let (s', q, v', kept, grown) =
        give_back-grows t cpu b
          (with_allocations-IsValid s l v k.2 (rw (v.counted) (omega (arith, k.3)))) h
          (omega (arith, k.1.1, v.slots)) k.1.0 (λ f. omega (arith, whole f, less (cover f))) in
      (
        s',
        q,
        (v', kept.0, kept.1, (λ w i. omega (arith, grown w i, less w))),
        ap (λ l. l.blocks) kept.2,
      )

-- Giving back a reference to an allocated frame succeeds on every processor. The last reference makes
-- the block free or cached, and it is no longer allocated; else the count goes down by one. The state
-- stays well-formed, and every frame lies in as many blocks as before.
pub free_frame_on_cpu_lem :
    (s : BuddyAllocator) (cpu block frame : ℕ) (b : BlockNode)
    → IsValid s
    → IsWhole s
    → cpu < s.cpu_count
    → frame_number_from_addr block ≡ ok frame
    → find_start frame s.allocations.blocks ≡ some b
    → (s' : BuddyAllocator) × (free_frame_on_cpu s cpu block ≡ (ok tt, s'))
      × IsConserved s s'
      × (s'.allocations.blocks ≡ (
          if b.refcount == 1
          then remove_allocation frame s.allocations.blocks
          else set_refcount frame (b.refcount - 1) s.allocations.blocks))
unfolding free_frame_on_cpu
free_frame_on_cpu_lem s cpu block frame b v whole h p q =
    let k = find_start-takes s.max_order frame s.allocations.blocks b q v.allocated in
    let here : is_cpu s cpu ≡ true = ground arith in
    let held : (b.refcount == 0) ≡ false = ground (arith, k.1.2) in
    elim (Bool-cases (b.refcount - 1 == 0)) [
      | inl e ↦
          (let once : (b.refcount == 1) ≡ true = ground (arith, e, k.1.2) in
            let (s', r, c, a) = released-IsConserved s frame b v q cpu whole h in
            (s', rw (here, p, q, held, e) r, c, rw once a))
      | inr e ↦
          (let more : (b.refcount == 1) ≡ false = ground (arith, e) in
            (
              with_allocations s (set_refcount frame (b.refcount - 1) s.allocations.blocks),
              rw (here, p, q, held, e) refl,
              recounted-IsConserved s frame b v q (b.refcount - 1) (ground (arith, e)),
              rw more refl,
            ))
    ]
