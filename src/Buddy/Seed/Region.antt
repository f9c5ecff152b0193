-- ===== src/Buddy/Seed/Region.antt =====
-- A region of frames of buddy.rs put in the free lists.
use mathlib.Core.Path.{subst}
use native.Mathlib.Nat.{pow-suc, one-le-pow, mod-eq-sub-div-mul, div-mul-le_self, pow-le-pow_right}
use aether_kernel.Prelude.{
  ℕ, zero, suc, ◌+◌, ◌-◌, ◌*◌, ◌/◌, ◌^◌, ◌≤◌, ◌<◌, ◌≡◌, refl, min, true, arith, ◌==◌, Bool-cases,
  ◌⊎◌, inl, inr,
}
use aether_kernel.Buddy.{
  BuddyAllocator, FrameResult, ok, err, metadata_exhausted, block_size, alloc_unused,
}
use aether_kernel.Buddy.Orders.{
  floor_log2, floor_log2-bounds, is_multiple_of, lower_order, max_fit_order,
}
use aether_kernel.Buddy.Global.{and_then, add_free}
use aether_kernel.Buddy.Align.{IsAligned}
use aether_kernel.Buddy.Weight.{cover, cover_self, total}
use aether_kernel.Buddy.Valid.{IsValid, IsKept}
use aether_kernel.Buddy.Split.{add_free-IsGrown, IsKept-trans}
use aether_kernel.Buddy.Ranges.{usize_end}
use aether_kernel.Buddy.Ranges.Insert.{within}
use aether_kernel.Buddy.Seed.{seed_loop, seed_global_free_region}

multiple-IsAligned : (k q : ℕ) → IsAligned k (q * 2 ^ k)
multiple-IsAligned zero q = tt
multiple-IsAligned (suc k) q =
    let twice : q * 2 ^ suc k ≡ q * 2 ^ k + q * 2 ^ k = rw (pow-suc 2 k) (omega arith) in
    let half : q * 2 ^ suc k / 2 ≡ q * 2 ^ k = omega (arith, twice) in
    (omega (arith, twice), rw half (multiple-IsAligned k q))

is_multiple_of-IsAligned : (k a : ℕ) → is_multiple_of a (block_size k) ≡ true → IsAligned k a
is_multiple_of-IsAligned k a h =
    let same : a / 2 ^ k * 2 ^ k ≡ a =
      ground (arith, h, mod-eq-sub-div-mul a (2 ^ k), div-mul-le_self a (2 ^ k)) in
    subst (IsAligned k) same (multiple-IsAligned k (a / 2 ^ k))

lower_order-IsAligned :
    (start order : ℕ)
    → IsAligned (lower_order start order) start
      × (2 ^ lower_order start order ≤ 2 ^ order)
      × (lower_order start order ≤ order)
unfolding lower_order
lower_order-IsAligned start zero = (tt, omega arith, omega arith)
lower_order-IsAligned start (suc order) =
    elim (Bool-cases (is_multiple_of start (block_size (suc order)))) [
      | inl e ↦ rw e (is_multiple_of-IsAligned (suc order) start e, omega arith, omega arith)
      | inr e ↦
          (let r = lower_order-IsAligned start order in
            rw e (r.0, omega (arith, r.1, pow-suc 2 order), omega (arith, r.2)))
    ]

-- The order that a region starts with: a block of it is aligned there and lies in the region.
max_fit_order-IsAligned :
    (start remaining max_order : ℕ)
    → 0 < remaining
    → remaining < usize_end
    → IsAligned (max_fit_order start remaining max_order) start
      × (2 ^ max_fit_order start remaining max_order ≤ remaining)
      × (max_fit_order start remaining max_order ≤ max_order)
unfolding max_fit_order
max_fit_order-IsAligned start remaining max_order p h =
    let r = lower_order-IsAligned start (min (floor_log2 remaining) max_order) in
    let smaller : 2 ^ min (floor_log2 remaining) max_order ≤ 2 ^ floor_log2 remaining =
      pow-le-pow_right (omega arith) (omega arith) in
    (r.0, omega (arith, r.1, smaller, floor_log2-bounds remaining p h), omega (arith, r.2))

-- A region put in the lists, or the nodes run out.
abbrev pub IsSeeded : BuddyAllocator → ℕ → (ℕ → ℕ) → FrameResult {0} Unit × BuddyAllocator → Type 0
IsSeeded s count frames r =
    ((s' : BuddyAllocator) × (r ≡ (err metadata_exhausted, s')) × (s.unused_len < count))
    ⊎ ((s' : BuddyAllocator) × (r ≡ (ok tt, s'))
        × IsValid s'
        × IsKept s s'
        × (s.unused_len ≤ s'.unused_len + count)
        × ((f : ℕ) → total (cover f) s' ≡ total (cover f) s + frames f))

add_free_exhausted :
    (s : BuddyAllocator) (a k : ℕ) → s.unused_len ≡ 0 → add_free s a k ≡ (err metadata_exhausted, s)
unfolding add_free alloc_unused
add_free_exhausted s a k h = let e : (s.unused_len == 0) ≡ true = ground (arith, h) in rw e refl

seed_loop-IsSeeded :
    (n : ℕ) (s : BuddyAllocator) (start remaining : ℕ)
    → remaining ≤ n
    → remaining < usize_end
    → IsValid s
    → ((f : ℕ) → total (cover f) s + within f start remaining ≤ 1)
    → IsSeeded s remaining (λ f. within f start remaining) (seed_loop n s start remaining)
unfolding seed_loop
seed_loop-IsSeeded zero s start remaining l h v apart =
    inr (s, refl, v, (refl, refl, refl), omega arith, (λ f. ground (arith, l)))
seed_loop-IsSeeded (suc n) s start remaining l h v apart = elim (Bool-cases (remaining == 0)) [
  | inl e ↦ rw e (inr (s, refl, v, (refl, refl, refl), omega arith, (λ f. ground (arith, e))))
  | inr e ↦ rw e (elim (Bool-cases (s.unused_len == 0)) [
    | inl z ↦
        rw
          (add_free_exhausted s start (max_fit_order start remaining s.max_order)
            (ground (arith, z)))
          (inl (s, refl, ground (arith, z, e)))
    | inr z ↦
        round (max_fit_order start remaining s.max_order) (ground (arith, z))
          (max_fit_order-IsAligned start remaining s.max_order (ground (arith, e)) h)
          (λ k t p b q. seed_loop-IsSeeded n t (start + 2 ^ k) (remaining - 2 ^ k) p b q)
  ])
]
  where
    round :
        (k : ℕ)
        → 0 < s.unused_len
        → IsAligned k start × (2 ^ k ≤ remaining) × (k ≤ s.max_order)
        → ((k : ℕ) (t : BuddyAllocator)
            → remaining - 2 ^ k ≤ n
            → remaining - 2 ^ k < usize_end
            → IsValid t
            → ((f : ℕ) → total (cover f) t + within f (start + 2 ^ k) (remaining - 2 ^ k) ≤ 1)
            → IsSeeded t
                (remaining - 2 ^ k)
                (λ f. within f (start + 2 ^ k) (remaining - 2 ^ k))
                (seed_loop n t (start + 2 ^ k) (remaining - 2 ^ k)))
        → IsSeeded s remaining
            (λ f. within f start remaining)
            (and_then (add_free s start k) λ u t. seed_loop n t (start + 2 ^ k) (remaining - 2 ^ k))
    round k u (al, fits, low) ih =
        let one = one-le-pow k 2 in
        let parts : (f : ℕ)
            → within f start remaining
              ≡ cover f start k + within f (start + 2 ^ k) (remaining - 2 ^ k) =
          λ f. ground (arith, fits, one) in
        let empty : total (cover start) s ≡ 0 =
          omega (arith, apart start, parts start, cover_self start k) in
        let (t, q, (v', kept, grown), used) =
          add_free-IsGrown s start k v (omega (arith, low, v.slots)) u empty al in
        rw q
          (elim (ih k t (omega (arith, l, one)) (omega (arith, h)) v'
            (λ f. omega (arith, apart f, parts f, grown (cover f)))) [
              | inl (t', r, less) ↦ inl (t', r, omega (arith, less, used, fits, one))
              | inr (t', r, v'', kept', left, all) ↦ inr (
                t',
                r,
                v'',
                IsKept-trans s t t' kept kept',
                omega (arith, left, used, fits, one),
                (λ f. omega (arith, all f, parts f, grown (cover f))),
              )
            ])

-- A region of frames apart from all blocks is put in the free lists: the state stays well-formed, and
-- the frames of the region, and no others, lie in one more block than before. It fails only when fewer
-- nodes are unused than the region has frames.
pub seed_global_free_region_lem :
    (s : BuddyAllocator) (start remaining : ℕ)
    → remaining < usize_end
    → IsValid s
    → ((f : ℕ) → total (cover f) s + within f start remaining ≤ 1)
    → IsSeeded s remaining
        (λ f. within f start remaining)
        (seed_global_free_region s start remaining)
unfolding seed_global_free_region
seed_global_free_region_lem s start remaining h v apart =
    seed_loop-IsSeeded remaining s start remaining (omega arith) h v apart
