-- ===== src/Buddy/Lists.antt =====
-- The lists of the allocator of buddy.rs in a well-formed state: a block put in one, or taken out.
use mathlib.Core.Path.{subst}
use aether_kernel.Prelude.{
  ℕ, ◌+◌, ◌-◌, ◌≤◌, ◌<◌, ◌≡◌, refl, List, [], ◌∷◌, none, some, arith, ◌==◌, Option-cases,
  Bool-cases, ◌⊎◌, inl, inr, All, length,
}
use aether_kernel.Buddy.{
  BlockNode, NodeList, BuddyAllocator, ok, put_at, with_global, with_cache, max_order_slots,
  remove_start, global_insert_sorted, global_remove_by_start, per_cpu_cache_max_order, no_nodes,
  global_pop_first, cpu_pop, cpu_push, pop_node, pop_from, push_node,
}
use aether_kernel.Buddy.Align.{IsAligned}
use aether_kernel.Buddy.Weight.{
  Weight, weigh, total, cover, total-with_global, total-with_cache, weigh_free, weigh_cached,
}
use aether_kernel.Buddy.Valid.{
  IsFree, IsFiled, IsValid, IsGrown, IsShrunk, insert_sorted-fits, remove_start-takes,
}

put_at-all {ℓ} :
    {A : Type 0} (P : ℕ → A → Type ℓ) (array : ℕ → A) (k : ℕ) (v : A)
    → P k v
    → ((j : ℕ) → P j (array j))
    → (j : ℕ) → P j (put_at array k v j)
put_at-all P array k v h all j = elim (Bool-cases (k == j)) [
  | inl e ↦ rw e (let q : k ≡ j = ground (arith, e) in subst (λ i. P i v) q h)
  | inr e ↦ rw e (all j)
]

pub with_global-IsValid :
    (s : BuddyAllocator) (k : ℕ) (l : NodeList)
    → IsValid s
    → IsFiled k l
    → IsValid (with_global s k l)
with_global-IsValid s k l v f = record {
  slots = v.slots;
  filed = put_at-all IsFiled s.global_free k l f v.filed;
  cached = v.cached;
  allocated = v.allocated;
  counted = v.counted;
}

pub with_cache-IsValid :
    (s : BuddyAllocator) (c k : ℕ) (l : NodeList)
    → IsValid s
    → IsFiled k l
    → IsValid (with_cache s c k l)
with_cache-IsValid s c k l v f = record {
  slots = v.slots;
  filed = v.filed;
  cached =
      put_at-all (λ c cache. (j : ℕ) → IsFiled j (cache j)) s.per_cpu c (put_at (s.per_cpu c) k l)
        (put_at-all IsFiled (s.per_cpu c) k l f (v.cached c)) v.cached;
  allocated = v.allocated;
  counted = v.counted;
}

pub with_unused-IsValid :
    (s : BuddyAllocator) (n : ℕ) → IsValid s → IsValid (record s { unused_len = n })
with_unused-IsValid s n v = record {
  slots = v.slots;
  filed = v.filed;
  cached = v.cached;
  allocated = v.allocated;
  counted = v.counted;
}

pub total-unused :
    (w : Weight) (s : BuddyAllocator) (n : ℕ) → total w (record s { unused_len = n }) ≡ total w s
unfolding total weigh_free weigh_cached
total-unused w s n = refl

-- A list weighs no more than the whole.
pub weigh-le-total :
    (w : Weight) (s : BuddyAllocator) (k : ℕ)
    → k < max_order_slots
    → weigh w k (s.global_free k).blocks ≤ total w s
weigh-le-total w s k h = omega (arith, total-with_global w s k no_nodes h)

-- A block whose start no block of the list covers goes in the list of its order.
pub global_insert_sorted-IsGrown :
    (s : BuddyAllocator) (k : ℕ) (b : BlockNode)
    → IsValid s
    → k < max_order_slots
    → total (cover b.start) s ≡ 0
    → IsFree k b
    → (s' : BuddyAllocator) × (global_insert_sorted s k b ≡ (ok tt, s'))
      × IsGrown s s' b.start k
      × (s'.unused_len ≡ s.unused_len)
unfolding global_insert_sorted
global_insert_sorted-IsGrown s k b v h z f =
    let l = s.global_free k in
    let none_here = weigh-le-total (cover b.start) s k h in
    let (after, p, q, g, n) =
      insert_sorted-fits k b l.blocks (omega (arith, z, none_here)) f (v.filed k).0 in
    let m : NodeList = record { blocks = after; len = l.len + 1 } in
    (
      with_global s k m,
      rw p refl,
      (
        with_global-IsValid s k m v (g, rw (v.filed k).1 (omega (arith, n))),
        (refl, refl, refl),
        (λ w. omega (arith, total-with_global w s k m h, q w)),
      ),
      refl,
    )

-- A buddy that is found leaves the list of its order.
pub global_remove_by_start-cases :
    (s : BuddyAllocator) (k start : ℕ)
    → IsValid s
    → k < max_order_slots
    → (global_remove_by_start s k start ≡ none)
      ⊎ ((s' : BuddyAllocator) × (global_remove_by_start s k start ≡ some s')
          × IsShrunk s s' start k
          × (s'.unused_len ≡ s.unused_len))
unfolding global_remove_by_start
global_remove_by_start-cases s k start v h =
    let l = s.global_free k in
    elim (Option-cases (remove_start start l.blocks)) [
      | inl e ↦ inl (rw e refl)
      | inr (after, e) ↦
          (let r = remove_start-takes k start l.blocks after e in
            let m : NodeList = record { blocks = after; len = l.len - 1 } in
            inr (
              with_global s k m,
              rw e refl,
              (
                with_global-IsValid s k m v
                    (r.1 (v.filed k).0, rw (v.filed k).1 (omega (arith, r.2))),
                (refl, refl, refl),
                (λ w. omega (arith, total-with_global w s k m h, r.0 w)),
              ),
              refl,
            ))
    ]

-- The first block of a filed list, and the list behind it.
pop_node-cases :
    (k : ℕ) (l : NodeList)
    → IsFiled k l
    → ((pop_node l ≡ none) × (l.blocks ≡ []))
      ⊎ ((b : BlockNode) × (m : NodeList) × (pop_node l ≡ some (b, m))
          × IsFree k b
          × IsFiled k m
          × ((w : Weight) → weigh w k l.blocks ≡ weigh w k m.blocks + w b.start k))
unfolding pop_node
pop_node-cases k l f = cases l.blocks l.len f
  where
    cases :
        (blocks : List BlockNode) (len : ℕ)
        → (All (IsFree k) blocks × (len ≡ length blocks))
        → ((pop_from blocks len ≡ none) × (blocks ≡ []))
          ⊎ ((b : BlockNode) × (m : NodeList) × (pop_from blocks len ≡ some (b, m))
              × IsFree k b
              × IsFiled k m
              × ((w : Weight) → weigh w k blocks ≡ weigh w k m.blocks + w b.start k))
    cases [] len f = inl (refl, refl)
    cases (b ∷ blocks) len f = inr (
      b,
      record { blocks = blocks; len = len - 1 },
      refl,
      f.0.0,
      (f.0.1, rw f.1 (omega arith)),
      (λ w. omega arith),
    )

pub global_pop_first-cases :
    (s : BuddyAllocator) (k : ℕ)
    → IsValid s
    → k < max_order_slots
    → ((global_pop_first s k ≡ none) × ((s.global_free k).blocks ≡ []))
      ⊎ ((b : BlockNode) × (s' : BuddyAllocator) × (global_pop_first s k ≡ some (b, s'))
          × IsFree k b
          × IsShrunk s s' b.start k
          × (s'.unused_len ≡ s.unused_len))
unfolding global_pop_first
global_pop_first-cases s k v h = elim (pop_node-cases k (s.global_free k) (v.filed k)) [
  | inl (e, n) ↦ inl (rw e refl, n)
  | inr (b, m, e, f, g, q) ↦ inr (
    b,
    with_global s k m,
    rw e refl,
    f,
    (
      with_global-IsValid s k m v g,
      (refl, refl, refl),
      (λ w. omega (arith, total-with_global w s k m h, q w)),
    ),
    refl,
  )
]

pub cpu_pop-cases :
    (s : BuddyAllocator) (c k : ℕ)
    → IsValid s
    → c < s.cpu_count
    → k ≤ per_cpu_cache_max_order
    → (cpu_pop s c k ≡ none)
      ⊎ ((b : BlockNode) × (s' : BuddyAllocator) × (cpu_pop s c k ≡ some (b, s'))
          × IsFree k b
          × IsShrunk s s' b.start k)
unfolding cpu_pop
cpu_pop-cases s c k v h p = elim (pop_node-cases k (s.per_cpu c k) (v.cached c k)) [
  | inl (e, n) ↦ inl (rw e refl)
  | inr (b, m, e, f, g, q) ↦ inr (
    b,
    with_cache s c k m,
    rw e refl,
    f,
    (
      with_cache-IsValid s c k m v g,
      (refl, refl, refl),
      (λ w. omega (arith, total-with_cache w s c k m h p, q w)),
    ),
  )
]

pub cpu_push-IsGrown :
    (s : BuddyAllocator) (c k : ℕ) (b : BlockNode)
    → IsValid s
    → c < s.cpu_count
    → k ≤ per_cpu_cache_max_order
    → IsAligned k b.start
    → IsGrown s (cpu_push s c k b) b.start k
unfolding cpu_push
cpu_push-IsGrown s c k b v h p a =
    let l = s.per_cpu c k in
    let m = push_node (record b { order = k; refcount = 0 }) l in
    (
      with_cache-IsValid s c k m v
          (((a, refl, refl), (v.cached c k).0), rw (v.cached c k).1 (omega arith)),
      (refl, refl, refl),
      (λ w. omega (arith, total-with_cache w s c k m h p)),
    )
