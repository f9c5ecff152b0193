-- ===== src/Buddy/Merge.antt =====
-- Blocks given back to the free lists of buddy.rs, merged with their buddies.
use aether_kernel.Prelude.{
  ℕ, zero, suc, ◌+◌, ◌-◌, ◌<◌, ◌≡◌, refl, sym, ap, ◌∙◌, min, none, some, arith, inl, inr,
}
use aether_kernel.Buddy.{
  BlockNode, BuddyAllocator, ok, max_order_slots, global_remove_by_start, release_unused,
}
use aether_kernel.Buddy.Global.{coalesce, free_global_block, buddy_of, free_node}
use aether_kernel.Buddy.Align.{IsAligned, xor-buddy}
use aether_kernel.Buddy.Weight.{Weight, IsSplit, cover, cover-IsSplit, cover_self, total}
use aether_kernel.Buddy.Valid.{IsValid, IsKept}
use aether_kernel.Buddy.Lists.{
  global_insert_sorted-IsGrown, global_remove_by_start-cases, with_unused-IsValid, total-unused,
}
use aether_kernel.Buddy.Split.{IsKept-trans, IsApart}

-- A block and its buddy make one of the next order.
merged :
    (a k : ℕ)
    → IsAligned k a
    → IsAligned (suc k) (min a (buddy_of a k))
      × ((w : Weight) → IsSplit w → w (min a (buddy_of a k)) (suc k) ≡ w a k + w (buddy_of a k) k)
merged a k h = elim (xor-buddy k a h) [
  | inl (al, e) ↦
      (let first : min a (buddy_of a k) ≡ a = omega (arith, e) in
        (rw first al, (λ w p. rw first (rw e (p a k)))))
  | inr (al, e) ↦
      (let first : min a (buddy_of a k) ≡ buddy_of a k = omega (arith, e) in
        (
          rw first al,
          (λ w p.
              omega
                (arith, ap (λ x. w x (suc k)) first, p (buddy_of a k) k, ap (λ x. w x k) (sym e))),
        ))
]

-- A block that is not in the lists becomes another, and both weigh the same with what is in them.
abbrev pub IsMoved : BuddyAllocator → BuddyAllocator → (a k a' k' : ℕ) → Type 0
IsMoved s s' a k a' k' =
    IsValid s' × IsKept s s' × ((w : Weight) → IsSplit w → total w s' + w a' k' ≡ total w s + w a k)

IsMoved-refl : (s : BuddyAllocator) (a k : ℕ) → IsValid s → IsMoved s s a k a k
IsMoved-refl s a k v = (v, (refl, refl, refl), (λ w p. refl))

coalesce_stops :
    (n k a : ℕ) (s : BuddyAllocator)
    → global_remove_by_start s k (buddy_of a k) ≡ none
    → coalesce (suc n) s a k ≡ ((a, k), s)
unfolding coalesce
coalesce_stops n k a s e = rw (coalesce, e) refl

coalesce_goes :
    (n k a : ℕ) (s t : BuddyAllocator)
    → global_remove_by_start s k (buddy_of a k) ≡ some t
    → coalesce (suc n) s a k ≡ coalesce n (release_unused t) (min a (buddy_of a k)) (k + 1)
unfolding coalesce
coalesce_goes n k a s t e = rw (coalesce, e) refl

coalesce-IsMoved :
    (n k a : ℕ) (s : BuddyAllocator)
    → k + n < max_order_slots
    → IsValid s
    → IsAligned k a
    → (a' : ℕ) × (k' : ℕ) × (s' : BuddyAllocator) × (coalesce n s a k ≡ ((a', k'), s'))
      × IsAligned k' a'
      × (k' < max_order_slots)
      × IsMoved s s' a k a' k'
unfolding coalesce
coalesce-IsMoved zero k a s h v al = (a, k, s, refl, al, omega (arith, h), IsMoved-refl s a k v)
coalesce-IsMoved (suc n) k a s h v al =
    elim (global_remove_by_start-cases s k (buddy_of a k) v (omega arith)) [
      | inl e ↦ (a, k, s, coalesce_stops n k a s e, al, omega arith, IsMoved-refl s a k v)
      | inr (t, e, (v', kept, less), same) ↦
          (let m = merged a k al in
            let next : k + 1 ≡ suc k = omega arith in
            let (a', k', s', q, al', h', (v'', kept', keeps)) =
              coalesce-IsMoved n (k + 1) (min a (buddy_of a k)) (release_unused t) (omega arith)
                (with_unused-IsValid t (t.unused_len + 1) v') (rw next m.0) in
            (
              a',
              k',
              s',
              coalesce_goes n k a s t e ∙ q,
              al',
              h',
              (
                v'',
                IsKept-trans s (release_unused t) s' kept kept',
                (λ w p. omega (
                  arith,
                  keeps w p,
                  less w,
                  m.1 w p,
                  total-unused w t (t.unused_len + 1),
                  ap (λ j. w (min a (buddy_of a k)) j) next,
                )),
              ),
            ))
    ]

-- A free block given back to the lists is in them afterwards, alone or merged: the whole weighs as
-- much more as the block. No error is met, as no other block holds its frames.
pub free_global_block-grows :
    (s : BuddyAllocator) (b : BlockNode)
    → IsValid s
    → b.order < max_order_slots
    → IsAligned b.order b.start
    → IsApart s b.start b.order
    → (s' : BuddyAllocator) × (free_global_block s b ≡ (ok tt, s'))
      × IsValid s'
      × IsKept s s'
      × ((w : Weight) → IsSplit w → total w s' ≡ total w s + w b.start b.order)
unfolding free_global_block
free_global_block-grows s b v h al apart =
    let (a', k', t, e, al', h', (v', kept, keeps)) =
      coalesce-IsMoved (s.max_order - b.order) b.order b.start s (omega (arith, v.slots)) v al in
    let z : total (cover a') t ≡ 0 =
      omega (arith, apart a', keeps (cover a') (cover-IsSplit a'), cover_self a' k') in
    let (s', q, (v'', kept', grown), same) =
      global_insert_sorted-IsGrown t k' (free_node a' k') v' h' z (al', refl, refl) in
    (s', rw e q, v'', IsKept-trans s t s' kept kept', (λ w p. omega (arith, grown w, keeps w p)))
