-- ===== src/Buddy/Weight.antt =====
-- What the blocks of buddy.rs amount to: the sum of a weight over all of them, wherever they are.
use aether_kernel.Prelude.{
  ℕ, zero, suc, ◌+◌, ◌^◌, ◌≤◌, ◌<◌, ◌≡◌, refl, true, false, ◌&&◌, List, [], ◌∷◌, arith, ltb, leb,
  ◌==◌, if◌then◌else◌, ◌⊎◌, inl, inr,
}
use native.Mathlib.Nat.{pow-suc, one-le-pow}
use aether_kernel.Buddy.{
  BlockNode, NodeList, BuddyAllocator, put_at, with_global, with_cache, max_order_slots,
  per_cpu_cache_max_order,
}

-- A weight of the block of a start and an order.
abbrev pub Weight : Type 0
Weight = ℕ → ℕ → ℕ

-- The two halves of a block weigh as much as it.
abbrev pub IsSplit : Weight → Type 0
IsSplit w = (a k : ℕ) → w a (suc k) ≡ w a k + w (a + 2 ^ k) k

-- Whether a frame lies in a block, as a number.
abbrev pub cover : ℕ → Weight
cover f a k = if leb a f && ltb f (a + 2 ^ k) then 1 else 0

pub cover-IsSplit : (f : ℕ) → IsSplit (cover f)
cover-IsSplit f a k = ground (arith, pow-suc 2 k, one-le-pow k 2)

pub cover_self : (a k : ℕ) → cover a a k ≡ 1
cover_self a k = ground (arith, one-le-pow k 2)

module _ (w : Weight) where
  -- A list of blocks of one order.
  abbrev pub weigh : ℕ → List BlockNode → ℕ
  weigh k [] = 0
  weigh k (b ∷ blocks) = w b.start k + weigh k blocks

  -- A list of blocks of their own orders.
  abbrev pub weigh_own : List BlockNode → ℕ
  weigh_own [] = 0
  weigh_own (b ∷ blocks) = w b.start b.order + weigh_own blocks

unfoldable pub sum : ℕ → (ℕ → ℕ) → ℕ
sum zero f = 0
sum (suc n) f = f n + sum n f

module _ {A : Type 0} (g : ℕ → A → ℕ) (array : ℕ → A) where
  sum-put_at_above :
      (i n : ℕ) (v : A) → n ≤ i → sum n (λ j. g j (put_at array i v j)) ≡ sum n (λ j. g j (array j))
  unfolding sum
  sum-put_at_above i zero v h = refl
  sum-put_at_above i (suc n) v h =
      let e : (i == n) ≡ false = ground arith in rw (e, sum-put_at_above i n v (omega arith)) refl

  sum-put_at_last :
      (n : ℕ) (v : A)
      → sum (suc n) (λ j. g j (put_at array n v j)) + g n (array n)
        ≡ sum (suc n) (λ j. g j (array j)) + g n v
  unfolding sum
  sum-put_at_last n v =
      let e : (n == n) ≡ true = ground arith in
      rw (e, sum-put_at_above n n v (omega arith)) (omega arith)

  -- One entry written changes a sum over an array by that entry.
  pub sum-put_at :
      (i n : ℕ) (v : A)
      → i < n
      → sum n (λ j. g j (put_at array i v j)) + g i (array i) ≡ sum n (λ j. g j (array j)) + g i v
  unfolding sum
  sum-put_at i zero v h = absurd (omega arith)
  sum-put_at i (suc n) v h = elim (last i n (omega arith)) [
    | inl e ↦ rw e (sum-put_at_last n v)
    | inr l ↦ (let e : (i == n) ≡ false = ground arith in rw e (omega (arith, sum-put_at i n v l)))
  ]
    where
      last : (i n : ℕ) → i ≤ n → (i ≡ n) ⊎ (i < n)
      last i n h = ground arith

-- All blocks of the allocator: free, cached and allocated.
module _ (w : Weight) where
  unfoldable pub weigh_free : BuddyAllocator → ℕ
  weigh_free s = sum max_order_slots (λ k. weigh w k (s.global_free k).blocks)

  unfoldable pub weigh_cache : (ℕ → NodeList) → ℕ
  weigh_cache cache = sum (suc per_cpu_cache_max_order) (λ k. weigh w k (cache k).blocks)

  unfoldable pub weigh_cached : BuddyAllocator → ℕ
  weigh_cached s = sum s.cpu_count (λ c. weigh_cache (s.per_cpu c))

  unfoldable pub total : BuddyAllocator → ℕ
  total s = weigh_free s + weigh_cached s + weigh_own w s.allocations.blocks

  weigh_free-with_global :
      (s : BuddyAllocator) (k : ℕ) (l : NodeList)
      → k < max_order_slots
      → weigh_free (with_global s k l) + weigh w k (s.global_free k).blocks
        ≡ weigh_free s + weigh w k l.blocks
  unfolding weigh_free
  weigh_free-with_global s k l h =
      sum-put_at (λ j (m : NodeList). weigh w j m.blocks) s.global_free k max_order_slots l h

  weigh_cached-with_cache :
      (s : BuddyAllocator) (c k : ℕ) (l : NodeList)
      → c < s.cpu_count
      → k ≤ per_cpu_cache_max_order
      → weigh_cached (with_cache s c k l) + weigh w k (s.per_cpu c k).blocks
        ≡ weigh_cached s + weigh w k l.blocks
  unfolding weigh_cached weigh_cache
  weigh_cached-with_cache s c k l h p = omega (
    arith,
    sum-put_at (λ j (m : NodeList). weigh w j m.blocks) (s.per_cpu c) k
        (suc per_cpu_cache_max_order) l (omega arith),
    sum-put_at (λ j cache. weigh_cache cache) s.per_cpu c s.cpu_count (put_at (s.per_cpu c) k l) h,
  )

  -- Writing a free list or a cache changes the whole by what that list changes.
  pub total-with_global :
      (s : BuddyAllocator) (k : ℕ) (l : NodeList)
      → k < max_order_slots
      → total (with_global s k l) + weigh w k (s.global_free k).blocks
        ≡ total s + weigh w k l.blocks
  unfolding total weigh_cached
  total-with_global s k l h = omega (arith, weigh_free-with_global s k l h)

  pub total-with_cache :
      (s : BuddyAllocator) (c k : ℕ) (l : NodeList)
      → c < s.cpu_count
      → k ≤ per_cpu_cache_max_order
      → total (with_cache s c k l) + weigh w k (s.per_cpu c k).blocks ≡ total s + weigh w k l.blocks
  unfolding total weigh_free
  total-with_cache s c k l h p = omega (arith, weigh_cached-with_cache s c k l h p)
