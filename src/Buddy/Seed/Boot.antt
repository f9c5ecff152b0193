-- ===== src/Buddy/Seed/Boot.antt =====
-- The start of buddy.rs on a memory map, and the calls after it.
use mathlib.Core.Path.{subst}
use aether_kernel.Prelude.{
  ℕ, zero, suc, ◌+◌, ◌≤◌, ◌<◌, ◌≡◌, refl, sym, ap, ◌∙◌, true, false, ◌||◌, List, [], ◌∷◌, arith,
  ltb, leb, ◌==◌, Bool-cases, ◌⊎◌, inl, inr, length, All,
}
use aether_kernel.Buddy.{
  BuddyAllocator, FrameResult, ok, err, invalid_memory_map, metadata_exhausted, max_order_slots,
}
use aether_kernel.Buddy.Orders.{floor_log2}
use aether_kernel.Buddy.Weight.{Weight, cover, sum, weigh_free, weigh_cache, weigh_cached, total}
use aether_kernel.Buddy.Valid.{IsValid}
use aether_kernel.Buddy.Split.{IsKept-trans}
use aether_kernel.Buddy.Calls.Runs.{Call, run, run-IsConserved}
use aether_kernel.Buddy.Ranges.{Range, MemoryRegion, usize_end, total_frames, collect_usable_ranges}
use aether_kernel.Buddy.Ranges.Insert.{IsSorted, frames_at}
use aether_kernel.Buddy.Ranges.Pages.{IsInBounds, pages_at, collect_usable_ranges_lem}
use aether_kernel.Buddy.Seed.{seed_ranges, fresh, Limits, init_from_usable_ranges, bootstrap}
use aether_kernel.Buddy.Seed.Region.{IsSeeded, seed_global_free_region_lem}

sum_zero : (n : ℕ) → sum n (λ j. 0) ≡ 0
unfolding sum
sum_zero zero = refl
sum_zero (suc n) = omega (arith, sum_zero n)

pub total-fresh : (w : Weight) (t m c n : ℕ) → total w (fresh t m c n) ≡ 0
unfolding total weigh_free weigh_cached weigh_cache
total-fresh w t m c n = rw (sum_zero 64, sum_zero 5, sum_zero c) refl

pub fresh-IsValid : (t m c n : ℕ) → m < max_order_slots → IsValid (fresh t m c n)
fresh-IsValid t m c n h = record {
  slots = h;
  filed = λ k. (tt, refl);
  cached = λ c k. (tt, refl);
  allocated = tt;
  counted = refl;
}

-- The frames of all ranges.
abbrev pub frames : List Range → ℕ
frames [] = 0
frames ((start, len) ∷ ranges) = len + frames ranges

-- The frames of sorted ranges can be counted within a usize.
total_frames_lem :
    (t from : ℕ) (ranges : List Range)
    → IsSorted from ranges
    → t ≤ from
    → t < usize_end
    → (total_frames t ranges ≡ ok (t + frames ranges)) × (t + frames ranges < usize_end)
unfolding total_frames
total_frames_lem t from [] s l h = (ap ok (omega arith), omega (arith, h))
total_frames_lem t from ((start, len) ∷ ranges) s l h =
    let fits : ltb (t + len) usize_end ≡ true = ground (arith, s.0, s.2, l) in
    let r =
      total_frames_lem (t + len) (start + len + 1) ranges s.3 (omega (arith, s.0, l))
        (omega (arith, s.0, s.2, l)) in
    let same : t + len + frames ranges ≡ t + (len + frames ranges) = omega arith in
    (rw fits (r.0 ∙ ap ok same), omega (arith, r.1))

seed_ranges-IsSeeded :
    (s : BuddyAllocator) (from : ℕ) (ranges : List Range)
    → IsSorted from ranges
    → IsValid s
    → ((f : ℕ) → total (cover f) s + frames_at f ranges ≤ 1)
    → IsSeeded s (frames ranges) (λ f. frames_at f ranges) (seed_ranges s ranges)
unfolding seed_ranges
seed_ranges-IsSeeded s from [] o v apart =
    inr (s, refl, v, (refl, refl, refl), omega arith, (λ f. omega arith))
seed_ranges-IsSeeded s from ((start, len) ∷ ranges) o v apart =
    elim (seed_global_free_region_lem s start len (omega (arith, o.2)) v
      (λ f. omega (arith, apart f))) [
        | inl (t, q, less) ↦ rw q (inl (t, refl, omega (arith, less)))
        | inr (t, q, v', kept, left, more) ↦
            rw q
              (elim (seed_ranges-IsSeeded t (start + len + 1) ranges o.3 v'
                (λ f. omega (arith, apart f, more f))) [
                  | inl (t', r, less) ↦ inl (t', r, omega (arith, less, left))
                  | inr (t', r, v'', kept', left', more') ↦ inr (
                    t',
                    r,
                    v'',
                    IsKept-trans s t t' kept kept',
                    omega (arith, left, left'),
                    (λ f. omega (arith, more f, more' f)),
                  )
                ])
      ]

floor_log2-slots : (a : ℕ) → leb max_order_slots (floor_log2 a) ≡ false
unfolding floor_log2
floor_log2-slots a = ground arith

-- The outcome of a start on ranges: no frames, too few nodes, or a state that has them all.
abbrev IsStarted : Limits → List Range → ℕ → (ℕ → ℕ) → FrameResult BuddyAllocator → Type 0
IsStarted limits ranges cpu_count pages r =
    ((r ≡ err invalid_memory_map) × ((f : ℕ) → pages f ≡ 0))
    ⊎ (((r ≡ err metadata_exhausted) × (limits.max_block_nodes < frames ranges))
        ⊎ ((s : BuddyAllocator) × (r ≡ ok s)
            × IsValid s
            × (s.cpu_count ≡ cpu_count)
            × ((f : ℕ) → total (cover f) s ≡ pages f)
            × (f : ℕ) × (0 < pages f)))

no_frames : (f : ℕ) (ranges : List Range) → frames ranges ≡ 0 → frames_at f ranges ≡ 0
no_frames f [] h = refl
no_frames f ((start, len) ∷ ranges) h =
    let rest = no_frames f ranges (omega (arith, h)) in ground (arith, h, rest)

-- The first of some frames.
a_frame :
    (from : ℕ) (ranges : List Range)
    → IsSorted from ranges
    → 0 < frames ranges
    → (f : ℕ) × (0 < frames_at f ranges)
a_frame from [] s h = absurd (omega (arith, h))
a_frame from ((start, len) ∷ ranges) s h = (start, ground (arith, s.1))

cpu_allowed :
    (cpu_count max_cpus : ℕ)
    → 0 < cpu_count
    → cpu_count ≤ max_cpus
    → (cpu_count == 0 || ltb max_cpus cpu_count) ≡ false
cpu_allowed cpu_count max_cpus p h = ground arith

init_from_usable_ranges-IsStarted :
    (limits : Limits) (ranges : List Range) (cpu_count : ℕ)
    → IsSorted 0 ranges
    → 0 < cpu_count
    → cpu_count ≤ limits.max_cpus
    → ((f : ℕ) → frames_at f ranges ≤ 1)
    → IsStarted limits ranges cpu_count
        (λ f. frames_at f ranges)
        (init_from_usable_ranges limits ranges cpu_count)
unfolding init_from_usable_ranges
init_from_usable_ranges-IsStarted limits ranges cpu_count o p h apart =
    let allowed = cpu_allowed cpu_count limits.max_cpus p h in
    let counted = total_frames_lem 0 0 ranges o (omega arith) (omega arith) in
    let all : frames ranges ≡ 0 + frames ranges = omega arith in
    rw (allowed, counted.0, ← all)
      (elim (Bool-cases (frames ranges == 0)) [
        | inl e ↦ rw e (inl (refl, (λ f. no_frames f ranges (ground (arith, e)))))
        | inr e ↦
            (let m = floor_log2 (frames ranges) in
              let empty = λ (f : ℕ).
                total-fresh (cover f) (frames ranges) m cpu_count limits.max_block_nodes in
              let slots : m < max_order_slots = ground (arith, floor_log2-slots (frames ranges)) in
              rw (e, floor_log2-slots (frames ranges))
                (elim (seed_ranges-IsSeeded
                  (fresh (frames ranges) m cpu_count limits.max_block_nodes) 0 ranges o
                  (fresh-IsValid (frames ranges) m cpu_count limits.max_block_nodes slots)
                  (λ f. omega (arith, apart f, empty f))) [
                    | inl (t, q, less) ↦ rw q (inr (inl (refl, less)))
                    | inr (t, q, v, kept, left, more) ↦
                        (let (f, held) = a_frame 0 ranges o (ground (arith, e)) in
                          rw q (
                            inr (
                              inr (
                                t,
                                refl,
                                v,
                                kept.1,
                                (λ f. omega (arith, more f, empty f)),
                                f,
                                held,
                              ))))
                  ]))
      ])

-- A start for a number of processors within the limit, on a memory map whose regions stay below the
-- end of the addresses, no page of which lies in two usable regions, and that has at most as many
-- regions as the list of ranges has room for, has three outcomes: an error, and no whole page is
-- usable; another, and there are fewer nodes than usable frames; or some whole page is usable, and the
-- result is a well-formed state in which every frame lies in one block if its page is usable, and in
-- none if not.
pub bootstrap_lem :
    (limits : Limits) (mem_map : List MemoryRegion) (cpu_count : ℕ)
    → 0 < cpu_count
    → cpu_count ≤ limits.max_cpus
    → length mem_map ≤ limits.max_usable_ranges
    → All IsInBounds mem_map
    → ((f : ℕ) → pages_at f mem_map ≤ 1)
    → ((bootstrap limits mem_map cpu_count ≡ err invalid_memory_map)
        × ((f : ℕ) → pages_at f mem_map ≡ 0))
      ⊎ (((bootstrap limits mem_map cpu_count ≡ err metadata_exhausted)
            × (ranges : List Range) × (collect_usable_ranges limits.max_usable_ranges [] mem_map
                ≡ ok ranges)
            × (limits.max_block_nodes < frames ranges))
          ⊎ ((s : BuddyAllocator) × (bootstrap limits mem_map cpu_count ≡ ok s)
              × IsValid s
              × (s.cpu_count ≡ cpu_count)
              × ((f : ℕ) → total (cover f) s ≡ pages_at f mem_map)
              × (f : ℕ) × (0 < pages_at f mem_map)))
unfolding bootstrap
bootstrap_lem limits mem_map cpu_count p h room bounds apart =
    let (ranges, q, o, z, same) =
      collect_usable_ranges_lem limits.max_usable_ranges [] mem_map tt (omega (arith, room)) bounds
        (λ f. omega (arith, apart f)) in
    rw (cpu_allowed cpu_count limits.max_cpus p h, q)
      (elim (init_from_usable_ranges-IsStarted limits ranges cpu_count o p h
        (λ f. omega (arith, same f, apart f))) [
          | inl (r, zero_frames) ↦ inl (r, (λ f. omega (arith, same f, zero_frames f)))
          | inr (inl (r, less)) ↦ inr (inl (r, ranges, refl, less))
          | inr (inr (s, r, v, c, more, f, held)) ↦ inr (
              inr
                (s, r, v, c, (λ f. omega (arith, same f, more f)), f, omega (arith, same f, held)))
        ])

-- The start is for a number of processors within the limit, on a memory map whose regions stay below
-- the end of the addresses, no page of which lies in two usable regions, and that has at most as many
-- regions as the list of ranges has room for. From the state that it gives, through any calls,
-- successful or not: the state is well-formed, every frame of a usable page lies in exactly one block,
-- free, cached or allocated, and no other frame lies in any.
pub bootstrap-run :
    (limits : Limits) (mem_map : List MemoryRegion) (cpu_count : ℕ) (s : BuddyAllocator)
    (calls : List Call)
    → 0 < cpu_count
    → cpu_count ≤ limits.max_cpus
    → length mem_map ≤ limits.max_usable_ranges
    → All IsInBounds mem_map
    → ((f : ℕ) → pages_at f mem_map ≤ 1)
    → bootstrap limits mem_map cpu_count ≡ ok s
    → IsValid (run s calls) × ((f : ℕ) → total (cover f) (run s calls) ≡ pages_at f mem_map)
bootstrap-run limits mem_map cpu_count s calls p h room bounds apart q =
    elim (bootstrap_lem limits mem_map cpu_count p h room bounds apart) [
      | inl (r, unusable) ↦ absurd (ground (arith, q, r))
      | inr (inl (r, ranges, c, less)) ↦ absurd (ground (arith, q, r))
      | inr (inr (t, r, v, c, all, f, held)) ↦
          (let same : t ≡ s = ok-injective (sym r ∙ q) in
            let (v', whole) : IsValid s × ((f : ℕ) → total (cover f) s ≡ pages_at f mem_map) =
              subst (λ u. IsValid u × ((f : ℕ) → total (cover f) u ≡ pages_at f mem_map)) same
                (v, all) in
            let kept = run-IsConserved calls s v' (λ f. omega (arith, whole f, apart f)) in
            (kept.0, (λ f. kept.1 f ∙ whole f)))
    ]
  where
    ok-injective : {a b : BuddyAllocator} → ok a ≡ ok b → a ≡ b
    ok-injective {a} {b} h = ground (arith, h)
