-- ===== src/Buddy/Caches.antt =====
-- The caches of the processors in buddy.rs: filled from the free lists and drained to them.
use aether_kernel.Prelude.{
  ℕ, zero, suc, ◌-◌, ◌≤◌, ◌<◌, ◌≡◌, refl, ap, ◌∙◌, arith, leb, ◌==◌, if◌then◌else◌, Bool-cases, ◌⊎◌,
  inl, inr,
}
use aether_kernel.Buddy.{
  BlockNode, BuddyAllocator, FrameResult, FrameAllocError, ok, err, out_of_memory,
  metadata_exhausted, invalid_cpu, per_cpu_cache_max_order, cpu_push, cpu_pop,
}
use aether_kernel.Buddy.Orders.{refill_batch, high_watermark}
use aether_kernel.Buddy.Global.{and_then, alloc_from_global}
use aether_kernel.Buddy.Api.{
  cache_len, is_cpu, refill_loop, refill_per_cpu_cache, drain_loop, drain_per_cpu_cache, popped_or,
  alloc_block,
}
use aether_kernel.Buddy.Weight.{Weight, IsSplit, cover, cover-IsSplit, total}
use aether_kernel.Buddy.Valid.{IsValid, IsKept}
use aether_kernel.Buddy.Lists.{cpu_push-IsGrown, cpu_pop-cases}
use aether_kernel.Buddy.Split.{IsKept-trans, IsWhole, IsTaken, alloc_from_global-cases}
use aether_kernel.Buddy.Merge.{free_global_block-grows}

-- Blocks may have moved between the lists, and been split or merged.
abbrev pub IsSame : BuddyAllocator → BuddyAllocator → Type 0
IsSame s s' = IsValid s' × IsKept s s' × ((w : Weight) → IsSplit w → total w s' ≡ total w s)

pub IsSame-refl : (s : BuddyAllocator) → IsValid s → IsSame s s
IsSame-refl s v = (v, (refl, refl, refl), (λ w p. refl))

pub IsSame-trans : (s t u : BuddyAllocator) → IsSame s t → IsSame t u → IsSame s u
IsSame-trans s t u a b = (b.0, IsKept-trans s t u a.1 b.1, (λ w p. b.2 w p ∙ a.2 w p))

pub IsSame-IsWhole : (s t : BuddyAllocator) → IsSame s t → IsWhole s → IsWhole t
IsSame-IsWhole s t a whole = λ f. omega (arith, whole f, a.2 (cover f) (cover-IsSplit f))

-- Whatever a call returns, it has kept the blocks.
abbrev pub Keeps : {A : Type 0} → BuddyAllocator → FrameResult A × BuddyAllocator → Type 0
Keeps {A = A} s r = (x : FrameResult A) × (s' : BuddyAllocator) × (r ≡ (x, s')) × IsSame s s'

module _ (c order : ℕ) (p : order ≤ per_cpu_cache_max_order) where
  refill_loop-Keeps :
      (n : ℕ) (s : BuddyAllocator)
      → IsValid s
      → IsWhole s
      → c < s.cpu_count
      → Keeps s (refill_loop n s c order)
  unfolding refill_loop
  refill_loop-Keeps zero s v whole h = (ok tt, s, refl, IsSame-refl s v)
  refill_loop-Keeps (suc n) s v whole h = elim (alloc_from_global-cases s order v whole) [
    | inl (inl e) ↦ (ok tt, s, rw e refl, IsSame-refl s v)
    | inl (inr e) ↦ (err metadata_exhausted, s, rw e refl, IsSame-refl s v)
    | inr (b, t, e, v', kept, f, keeps) ↦
        (let g = cpu_push-IsGrown t c order b v' (rw (kept.1) h) p f.0 in
          let same : IsSame s (cpu_push t c order b) = (
            g.0,
            IsKept-trans s t (cpu_push t c order b) kept g.1,
            (λ w q. omega (arith, g.2 w, keeps w q)),
          ) in
          let (x, s', e', same') =
            refill_loop-Keeps n (cpu_push t c order b) g.0
              (IsSame-IsWhole s (cpu_push t c order b) same whole) (rw (same.1.1) h) in
          (x, s', rw e e', IsSame-trans s (cpu_push t c order b) s' same same'))
  ]

  drain_loop-Keeps :
      (n : ℕ) (s : BuddyAllocator)
      → IsValid s
      → IsWhole s
      → c < s.cpu_count
      → (s' : BuddyAllocator) × (drain_loop n s c order ≡ (ok tt, s')) × IsSame s s'
  unfolding drain_loop
  drain_loop-Keeps zero s v whole h = (s, refl, IsSame-refl s v)
  drain_loop-Keeps (suc n) s v whole h = elim (cpu_pop-cases s c order v h p) [
    | inl e ↦ (s, rw e refl, IsSame-refl s v)
    | inr (b, t, e, f, less) ↦
        (let k = f.1 in
          let (u, e', v', kept, grown) =
            free_global_block-grows t b less.0 (rw k (omega (arith, p))) (rw k f.0)
              (λ g. rw k (omega (arith, whole g, less.2 (cover g)))) in
          let same : IsSame s u = (
            v',
            IsKept-trans s t u less.1 kept,
            (λ w q. omega (arith, grown w q, less.2 w, ap (λ j. w b.start j) k)),
          ) in
          let (s', e'', same') =
            drain_loop-Keeps n u v' (IsSame-IsWhole s u same whole) (rw (same.1.1) h) in
          (s', rw (e, e') e'', IsSame-trans s u s' same same'))
  ]

  refill_per_cpu_cache-Keeps :
      (s : BuddyAllocator)
      → IsValid s
      → IsWhole s
      → c < s.cpu_count
      → Keeps s (refill_per_cpu_cache s c order)
  unfolding refill_per_cpu_cache
  refill_per_cpu_cache-Keeps s v whole h =
      let (x, t, e, same) = refill_loop-Keeps (refill_batch order) s v whole h in
      rw e (cut_off x t same)
    where
      cut_off :
          (x : FrameResult {0} Unit) (t : BuddyAllocator)
          → IsSame s t
          → Keeps {A = Unit} s (
              and_then
                (x, t)
                λ u s'. (if cache_len s' c order == 0 then err out_of_memory else ok tt, s'))
      cut_off (ok u) t same = (_, t, refl, same)
      cut_off (err e) t same = (_, t, refl, same)

  pub drain_per_cpu_cache-Keeps :
      (s : BuddyAllocator)
      → IsValid s
      → IsWhole s
      → c < s.cpu_count
      → (s' : BuddyAllocator) × (drain_per_cpu_cache s c order ≡ (ok tt, s')) × IsSame s s'
  unfolding drain_per_cpu_cache
  drain_per_cpu_cache-Keeps s v whole h =
      elim (Bool-cases (leb (cache_len s c order) (high_watermark order))) [
        | inl e ↦ (s, rw e refl, IsSame-refl s v)
        | inr e ↦ rw e (drain_loop-Keeps (cache_len s c order - refill_batch order) s v whole h)
      ]

-- A call for a block: one of the order asked for, out of the lists and caches; or an error, behind which
-- they hold what they held.
abbrev pub Gives : BuddyAllocator → ℕ → FrameResult BlockNode × BuddyAllocator → Type 0
Gives s order r =
    ((e : FrameAllocError) × (s' : BuddyAllocator) × (r ≡ (err e, s')) × IsSame s s')
    ⊎ IsTaken s order r

from_global :
    (s t : BuddyAllocator) (order : ℕ)
    → IsSame s t
    → IsWhole s
    → Gives s order (alloc_from_global t order)
from_global s t order same whole =
    elim (alloc_from_global-cases t order same.0 (IsSame-IsWhole s t same whole)) [
      | inl (inl e) ↦ inl (out_of_memory, t, e, same)
      | inl (inr e) ↦ inl (metadata_exhausted, t, e, same)
      | inr (b, u, e, v, kept, f, keeps) ↦
          inr (b, u, e, v, IsKept-trans s t u same.1 kept, f, (λ w p. keeps w p ∙ same.2 w p))
    ]

from_cache :
    (s t : BuddyAllocator) (c order : ℕ) (otherwise : FrameResult BlockNode × BuddyAllocator)
    → IsSame s t
    → c < t.cpu_count
    → order ≤ per_cpu_cache_max_order
    → Gives s order otherwise
    → Gives s order (popped_or (cpu_pop t c order) otherwise)
from_cache s t c order otherwise same h p g = elim (cpu_pop-cases t c order same.0 h p) [
  | inl e ↦ rw e g
  | inr (b, u, e, f, less) ↦ rw e (
      inr (
        b,
        u,
        refl,
        less.0,
        IsKept-trans s t u same.1 less.1,
        f,
        (λ w q. omega (arith, less.2 w, same.2 w q)),
      ))
]

pub alloc_block-Gives :
    (s : BuddyAllocator) (c order : ℕ)
    → IsValid s
    → IsWhole s
    → Gives s order (alloc_block s c order)
unfolding alloc_block
alloc_block-Gives s c order v whole = elim (Bool-cases (is_cpu s c)) [
  | inr e ↦ rw e (inl (invalid_cpu, s, refl, IsSame-refl s v))
  | inl e ↦ rw e (elim (Bool-cases (leb order per_cpu_cache_max_order)) [
    | inr q ↦ rw q (from_global s s order (IsSame-refl s v) whole)
    | inl q ↦ rw q (
        from_cache s s c order _ (IsSame-refl s v) (ground (arith, e)) (ground (arith, q))
          (after_refill (ground (arith, e)) (ground (arith, q))))
  ])
]
  where
    refilled :
        (x : FrameResult {0} Unit) (t : BuddyAllocator)
        → IsSame s t
        → c < t.cpu_count
        → order ≤ per_cpu_cache_max_order
        → Gives s order
            (and_then (x, t) λ u s'. popped_or (cpu_pop s' c order) (alloc_from_global s' order))
    refilled (ok u) t same h p =
        from_cache s t c order _ same h p (from_global s t order same whole)
    refilled (err e) t same h p = inl (e, t, refl, same)

    after_refill :
        c < s.cpu_count
        → order ≤ per_cpu_cache_max_order
        → Gives s order (
            and_then
              (refill_per_cpu_cache s c order)
              λ u s'. popped_or (cpu_pop s' c order) (alloc_from_global s' order))
    after_refill h p =
        let (x, t, e, same) = refill_per_cpu_cache-Keeps c order p s v whole h in
        rw e (refilled x t same (rw (same.1.1) h) p)
