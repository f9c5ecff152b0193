-- ===== src/Buddy/Split.antt =====
-- Blocks taken from the free lists of buddy.rs, and the halves that are left of those that are split.
use mathlib.Core.Path.{subst}
use aether_kernel.Prelude.{
  ℕ, zero, suc, ◌+◌, ◌-◌, ◌^◌, ◌≤◌, ◌<◌, ◌≡◌, refl, sym, ap, ◌∙◌, true, false, some, arith, ◌==◌,
  Option-cases, Bool-cases, ◌⊎◌, inl, inr,
}
use aether_kernel.Buddy.{
  BlockNode, BuddyAllocator, FrameResult, ok, err, out_of_memory, metadata_exhausted,
  max_order_slots, alloc_unused, global_pop_first, has_unused,
}
use aether_kernel.Buddy.Global.{
  first_order, free_node, add_free, split_loop, split_popped, take_order, alloc_from_global,
  is_empty,
}
use aether_kernel.Buddy.Align.{IsAligned, IsAligned-pred, IsAligned-add}
use aether_kernel.Buddy.Weight.{Weight, IsSplit, cover, cover-IsSplit, cover_self, total}
use aether_kernel.Buddy.Valid.{IsFree, IsValid, IsKept, IsGrown, IsShrunk}
use aether_kernel.Buddy.Lists.{
  global_insert_sorted-IsGrown, global_pop_first-cases, with_unused-IsValid, total-unused,
}

pub IsKept-trans : (s t u : BuddyAllocator) → IsKept s t → IsKept t u → IsKept s u
IsKept-trans s t u k l = (l.0 ∙ k.0, l.1 ∙ k.1, l.2 ∙ k.2)

-- No frame lies in two of the blocks, one outside the lists counted in.
abbrev pub IsApart : BuddyAllocator → ℕ → ℕ → Type 0
IsApart s a k = (f : ℕ) → total (cover f) s + cover f a k ≤ 1

pub add_free-IsGrown :
    (s : BuddyAllocator) (a k : ℕ)
    → IsValid s
    → k < max_order_slots
    → 0 < s.unused_len
    → total (cover a) s ≡ 0
    → IsAligned k a
    → (s' : BuddyAllocator) × (add_free s a k ≡ (ok tt, s'))
      × IsGrown s s' a k
      × (s'.unused_len + 1 ≡ s.unused_len)
unfolding add_free alloc_unused
add_free-IsGrown s a k v h u z al =
    let t : BuddyAllocator = record s { unused_len = s.unused_len - 1 } in
    let some_left : (s.unused_len == 0) ≡ false = ground arith in
    let (s', e, (v', kept, grown), n) =
      global_insert_sorted-IsGrown t k (free_node a k) (with_unused-IsValid s (s.unused_len - 1) v)
        h (total-unused (cover a) s (s.unused_len - 1) ∙ z) (al, refl, refl) in
    (
      s',
      rw some_left e,
      (v', kept, (λ w. grown w ∙ ap (λ t. t + w a k) (total-unused w s (s.unused_len - 1)))),
      rw n (omega arith),
    )

-- The upper half of a block apart from the others starts at a frame that none of them holds.
upper_free : (s : BuddyAllocator) (a k : ℕ) → IsApart s a (suc k) → total (cover (a + 2 ^ k)) s ≡ 0
upper_free s a k h =
    omega (arith, h (a + 2 ^ k), cover-IsSplit (a + 2 ^ k) a k, cover_self (a + 2 ^ k) k)

split_loop-halves :
    (n m : ℕ) (s : BuddyAllocator) (b : BlockNode) (order : ℕ)
    → m ≡ order + n
    → m < max_order_slots
    → n ≤ s.unused_len
    → IsValid s
    → IsFree m b
    → IsApart s b.start m
    → (b' : BlockNode) × (s' : BuddyAllocator) × (split_loop n s b order ≡ (ok b', s'))
      × IsValid s'
      × IsKept s s'
      × IsFree order b'
      × ((w : Weight) → IsSplit w → total w s' + w b'.start order ≡ total w s + w b.start m)
unfolding split_loop
split_loop-halves zero m s b order e h u v f apart =
    let same : m ≡ order = omega (arith, e) in
    (
      b,
      s,
      refl,
      v,
      (refl, refl, refl),
      subst (λ k. IsFree k b) same f,
      (λ w p. ap (λ k. total w s + w b.start k) (sym same)),
    )
split_loop-halves (suc n) m s b order e h u v f apart =
    let k = order + n in
    let next : m ≡ suc k = omega (arith, e) in
    let al : IsAligned (suc k) b.start = subst (λ j. IsAligned j b.start) next f.0 in
    let z = upper_free s b.start k (subst (λ j. IsApart s b.start j) next apart) in
    let (t, q, (v', kept, grown), left) =
      add_free-IsGrown s (b.start + 2 ^ k) k v (omega arith) (omega arith) z
        (IsAligned-add k b.start al) in
    let (b', s', r, v'', kept', f', keeps) =
      split_loop-halves n k t (record b { order = k }) order refl (omega arith) (omega arith) v'
        (IsAligned-pred k b.start al, refl, f.2)
        (λ g. halves g t (grown (cover g)) next (apart g)) in
    (
      b',
      s',
      rw q r,
      v'',
      IsKept-trans s t s' kept kept',
      f',
      (λ w p. omega (arith, keeps w p, grown w, p b.start k, ap (λ j. w b.start j) next)),
    )
  where
    halves :
        {k : ℕ} (g : ℕ) (t : BuddyAllocator)
        → total (cover g) t ≡ total (cover g) s + cover g (b.start + 2 ^ k) k
        → m ≡ suc k
        → total (cover g) s + cover g b.start m ≤ 1
        → total (cover g) t + cover g b.start k ≤ 1
    halves {k} g t q next h =
        let h' : total (cover g) s + cover g b.start (suc k) ≤ 1 =
          subst (λ j. total (cover g) s + cover g b.start j ≤ 1) next h in
        omega (arith, q, h', cover-IsSplit g b.start k)

first_order-found :
    (n k order : ℕ) (s : BuddyAllocator)
    → first_order n s order ≡ some k
    → (order ≤ k) × (k < order + n) × (is_empty (s.global_free k).blocks ≡ false)
unfolding first_order
first_order-found zero k order s h = ground (arith, h)
first_order-found (suc n) k order s h = elim (Bool-cases (is_empty (s.global_free order).blocks)) [
  | inl e ↦
      (let q : first_order n s (order + 1) ≡ some k = ground (arith, e, h) in
        let r = first_order-found n k (order + 1) s q in
        (omega (arith, r.0), omega (arith, r.1), r.2))
  | inr e ↦
      (let q : order ≡ k = ground (arith, e, h) in
        (
          omega (arith, q),
          omega (arith, q),
          subst (λ j. is_empty (s.global_free j).blocks ≡ false) q e,
        ))
]

-- No frame lies in two blocks.
abbrev pub IsWhole : BuddyAllocator → Type 0
IsWhole s = (f : ℕ) → total (cover f) s ≤ 1

-- A block of an order taken out of the lists: it and what is left weigh as much as before.
abbrev pub IsTaken : BuddyAllocator → ℕ → FrameResult BlockNode × BuddyAllocator → Type 0
IsTaken s order r =
    (b : BlockNode) × (s' : BuddyAllocator) × (r ≡ (ok b, s'))
    × IsValid s'
    × IsKept s s'
    × IsFree order b
    × ((w : Weight) → IsSplit w → total w s' + w b.start order ≡ total w s)

-- Nothing has changed, for want of memory or of nodes.
abbrev pub IsRefused : BuddyAllocator → FrameResult BlockNode × BuddyAllocator → Type 0
IsRefused s r = (r ≡ (err out_of_memory, s)) ⊎ (r ≡ (err metadata_exhausted, s))

split_popped-IsTaken :
    (k order : ℕ) (s s' : BuddyAllocator) (b : BlockNode)
    → order ≤ k
    → k < max_order_slots
    → k - order ≤ s'.unused_len
    → IsWhole s
    → IsFree k b
    → IsShrunk s s' b.start k
    → IsTaken s order (split_loop (k - order) s' (record b { order = k }) order)
split_popped-IsTaken k order s s' b l h u whole f (v', kept, less) =
    let (b', t, e, v'', kept', f', keeps) =
      split_loop-halves (k - order) k s' (record b { order = k }) order (omega arith) h u v'
        (f.0, refl, f.2) (λ g. omega (arith, whole g, less (cover g))) in
    (b', t, e, v'', IsKept-trans s s' t kept kept', f', (λ w p. omega (arith, keeps w p, less w)))

-- A block is taken from the free lists, or nothing changes.
pub alloc_from_global-cases :
    (s : BuddyAllocator) (order : ℕ)
    → IsValid s
    → IsWhole s
    → IsRefused s (alloc_from_global s order) ⊎ IsTaken s order (alloc_from_global s order)
unfolding alloc_from_global
alloc_from_global-cases s order v whole =
    elim (Option-cases (first_order (s.max_order + 1 - order) s order)) [
      | inl e ↦ inl (inl (rw e refl))
      | inr (k, e) ↦ rw e (found k (first_order-found (s.max_order + 1 - order) k order s e))
    ]
  where
    popped :
        (k : ℕ)
        → order ≤ k
        → k < max_order_slots
        → is_empty (s.global_free k).blocks ≡ false
        → has_unused s (k - order) ≡ true
        → IsTaken s order (split_popped (global_pop_first s k) s k order)
    popped k l h n u = elim (global_pop_first-cases s k v h) [
      | inl (e, none_there) ↦ absurd (cc (n, ap is_empty none_there))
      | inr (b, s', e, f, less, same) ↦
          rw e (split_popped-IsTaken k order s s' b l h (rw same (ground (arith, u))) whole f less)
    ]

    found :
        (k : ℕ)
        → ((order ≤ k)
            × (k < order + (s.max_order + 1 - order))
            × (is_empty (s.global_free k).blocks ≡ false))
        → IsRefused s (take_order (some k) s order) ⊎ IsTaken s order (take_order (some k) s order)
    found k r = elim (Bool-cases (has_unused s (k - order))) [
      | inl e ↦ rw e (inr (popped k r.0 (omega (arith, r.1, v.slots)) r.2 e))
      | inr e ↦ rw e (inl (inr refl))
    ]
