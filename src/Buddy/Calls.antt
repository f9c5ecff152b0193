-- ===== src/Buddy/Calls.antt =====
-- The calls of buddy.rs on whole states: which frames belong to whom, before and after.
pub mod Alloc
pub mod Free
pub mod Runs
pub mod Retain
use mathlib.Core.Path.{subst}
use aether_kernel.Prelude.{
  ℕ, zero, suc, ◌+◌, ◌-◌, ◌*◌, ◌^◌, ◌≤◌, ◌<◌, ◌≡◌, refl, sym, ap, ◌∙◌, Bool, true, false, not, ◌&&◌,
  List, [], ◌∷◌, Option, none, some, arith, ltb, leb, ◌==◌, if◌then◌else◌, Option-cases, Bool-cases,
  ◌⊎◌, inl, inr, length, All,
}
use aether_kernel.Buddy.{BlockNode, NodeList, BuddyAllocator, FrameResult, ok, err, max_order_slots}
use aether_kernel.Buddy.Api.{find_start, set_refcount, remove_allocation, with_allocations}
use aether_kernel.Buddy.Weight.{Weight, IsSplit, weigh_own, total, weigh_free, weigh_cached}
use aether_kernel.Buddy.Valid.{IsAllocated, IsValid}

-- The weight of what is free, in the lists or in a cache.
pub total-allocations :
    (w : Weight) (s : BuddyAllocator) (l : NodeList)
    → total w (record s { allocations = l }) + weigh_own w s.allocations.blocks
      ≡ total w s + weigh_own w l.blocks
unfolding total weigh_free weigh_cached
total-allocations w s l = omega arith

pub with_allocations-IsValid :
    (s : BuddyAllocator) (l : NodeList)
    → IsValid s
    → All (IsAllocated s.max_order) l.blocks
    → l.len ≡ length l.blocks
    → IsValid (record s { allocations = l })
with_allocations-IsValid s l v a c = record {
  slots = v.slots;
  filed = v.filed;
  cached = v.cached;
  allocated = a;
  counted = c;
}

-- The allocation at a frame, and the others.
pub find_start-takes :
    (m frame : ℕ) (blocks : List BlockNode) (b : BlockNode)
    → find_start frame blocks ≡ some b
    → All (IsAllocated m) blocks
    → (b.start ≡ frame)
      × IsAllocated m b
      × All (IsAllocated m) (remove_allocation frame blocks)
      × (length blocks ≡ suc (length (remove_allocation frame blocks)))
      × ((w : Weight)
          → weigh_own w blocks ≡ weigh_own w (remove_allocation frame blocks) + w b.start b.order)
unfolding find_start remove_allocation
find_start-takes m frame [] b h all = ground (arith, h)
find_start-takes m frame (c ∷ blocks) b h all = elim (Bool-cases (c.start == frame)) [
  | inl e ↦
      (let q : c ≡ b = ground (arith, e, h) in
        let at : c.start ≡ frame = ground (arith, e) in
        rw e (
          subst
            (λ d.
              (d.start ≡ frame)
              × IsAllocated m d
              × All (IsAllocated m) blocks
              × (suc (length blocks) ≡ suc (length blocks))
              × ((w : Weight)
                  → w c.start c.order + weigh_own w blocks
                    ≡ weigh_own w blocks + w d.start d.order))
            q (at, all.0, all.1, refl, (λ w. omega arith))))
  | inr e ↦
      (let q : find_start frame blocks ≡ some b = ground (arith, e, h) in
        let r = find_start-takes m frame blocks b q all.1 in
        rw e (r.0, r.1, (all.0, r.2), ap suc r.3, (λ w. omega (arith, r.4 w))))
]

-- Another count of references changes nothing else.
pub set_refcount-keeps :
    (m frame n : ℕ) (blocks : List BlockNode)
    → 0 < n
    → All (IsAllocated m) blocks
    → All (IsAllocated m) (set_refcount frame n blocks)
      × (length (set_refcount frame n blocks) ≡ length blocks)
      × ((w : Weight) → weigh_own w (set_refcount frame n blocks) ≡ weigh_own w blocks)
unfolding set_refcount
set_refcount-keeps m frame n [] h all = (tt, refl, (λ w. refl))
set_refcount-keeps m frame n (c ∷ blocks) h all =
    let r = set_refcount-keeps m frame n blocks h all.1 in
    elim (Bool-cases (c.start == frame)) [
      | inl e ↦ rw e (((all.0.0, all.0.1, h), all.1), refl, (λ w. refl))
      | inr e ↦ rw e ((all.0, r.0), ap suc r.1, (λ w. ap (λ x. w c.start c.order + x) (r.2 w)))
    ]
