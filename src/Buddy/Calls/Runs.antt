-- ===== src/Buddy/Calls/Runs.antt =====
-- Any sequence of calls of buddy.rs.
use mathlib.Core.Path.{subst}
use aether_kernel.Prelude.{
  ℕ, ◌+◌, ◌≡◌, refl, sym, ◌∙◌, false, List, [], ◌∷◌, none, arith, ◌==◌, Option-cases, Bool-cases,
  ◌⊎◌, inl, inr,
}
use aether_kernel.Buddy.{BuddyAllocator, FrameResult, FrameAllocError, ok, err}
use aether_kernel.Buddy.Api.{
  alloc_frame_4k_on_cpu, retain_frame, free_frame_on_cpu, frame_number_from_addr, find_start,
  is_cpu, u32_max,
}
use aether_kernel.Buddy.Weight.{cover, cover-IsSplit, total}
use aether_kernel.Buddy.Valid.{IsValid}
use aether_kernel.Buddy.Split.{IsWhole}
use aether_kernel.Buddy.Calls.Alloc.{IsConserved, alloc_frame_4k_on_cpu_lem}
use aether_kernel.Buddy.Calls.Free.{recounted-IsConserved, free_frame_on_cpu_lem}

pub data Call : Type 0 where
  alloc : (cpu count : ℕ) → Call
  retain : (block : ℕ) → Call
  free : (cpu block : ℕ) → Call

unfoldable pub apply : BuddyAllocator → Call → BuddyAllocator
apply s (alloc cpu count) = (alloc_frame_4k_on_cpu s cpu count).1
apply s (retain block) = (retain_frame s block).1
apply s (free cpu block) = (free_frame_on_cpu s cpu block).1

unfoldable pub run : BuddyAllocator → List Call → BuddyAllocator
unfolding apply
run s [] = s
run s (c ∷ calls) = run (apply s c) calls

IsConserved-refl : (s : BuddyAllocator) → IsValid s → IsConserved s s
IsConserved-refl s v = (v, refl, refl, (λ w i. refl))

frame-cases :
    (block : ℕ)
    → ((e : FrameAllocError) × (frame_number_from_addr block ≡ err e))
      ⊎ ((frame : ℕ) × (frame_number_from_addr block ≡ ok frame))
frame-cases block = cases (frame_number_from_addr block)
  where
    cases :
        (r : FrameResult ℕ) → ((e : FrameAllocError) × (r ≡ err e)) ⊎ ((frame : ℕ) × (r ≡ ok frame))
    cases (ok frame) = inr (frame, refl)
    cases (err e) = inl (e, refl)

retain_frame-IsConserved :
    (s : BuddyAllocator) (block : ℕ) → IsValid s → IsConserved s (retain_frame s block).1
unfolding retain_frame
retain_frame-IsConserved s block v = elim (frame-cases block) [
  | inl (e, p) ↦ rw p (IsConserved-refl s v)
  | inr (frame, p) ↦ rw p (elim (Option-cases (find_start frame s.allocations.blocks)) [
    | inl q ↦ rw q (IsConserved-refl s v)
    | inr (b, q) ↦ rw q (elim (Bool-cases (b.refcount == u32_max)) [
      | inl e ↦ rw e (IsConserved-refl s v)
      | inr e ↦ rw e (recounted-IsConserved s frame b v q (b.refcount + 1) (omega arith))
    ])
  ])
]

refused-IsConserved :
    (s : BuddyAllocator) (cpu block : ℕ)
    → IsValid s
    → ((is_cpu s cpu ≡ false)
        ⊎ (((e : FrameAllocError) × (frame_number_from_addr block ≡ err e))
            ⊎ ((frame : ℕ) × (frame_number_from_addr block ≡ ok frame)
                × (find_start frame s.allocations.blocks ≡ none))))
    → IsConserved s (free_frame_on_cpu s cpu block).1
unfolding free_frame_on_cpu
refused-IsConserved s cpu block v (inl h) = rw h (IsConserved-refl s v)
refused-IsConserved s cpu block v (inr (inl (e, p))) = elim (Bool-cases (is_cpu s cpu)) [
  | inl h ↦ rw (h, p) (IsConserved-refl s v)
  | inr h ↦ rw h (IsConserved-refl s v)
]
refused-IsConserved s cpu block v (inr (inr (frame, p, q))) = elim (Bool-cases (is_cpu s cpu)) [
  | inl h ↦ rw (h, p, q) (IsConserved-refl s v)
  | inr h ↦ rw h (IsConserved-refl s v)
]

free_frame-IsConserved :
    (s : BuddyAllocator) (cpu block : ℕ)
    → IsValid s
    → IsWhole s
    → IsConserved s (free_frame_on_cpu s cpu block).1
free_frame-IsConserved s cpu block v whole = elim (Bool-cases (is_cpu s cpu)) [
  | inr h ↦ refused-IsConserved s cpu block v (inl h)
  | inl h ↦ elim (frame-cases block) [
    | inl bad ↦ refused-IsConserved s cpu block v (inr (inl bad))
    | inr (frame, p) ↦ elim (Option-cases (find_start frame s.allocations.blocks)) [
      | inl q ↦ refused-IsConserved s cpu block v (inr (inr (frame, p, q)))
      | inr (b, q) ↦
          (let (s', r, c, same) =
              free_frame_on_cpu_lem s cpu block frame b v whole (ground (arith, h)) p q in
            subst (λ x. IsConserved s x.1) (sym r) c)
    ]
  ]
]

alloc_frame-IsConserved :
    (s : BuddyAllocator) (cpu count : ℕ)
    → IsValid s
    → IsWhole s
    → IsConserved s (alloc_frame_4k_on_cpu s cpu count).1
alloc_frame-IsConserved s cpu count v whole = elim (alloc_frame_4k_on_cpu_lem s cpu count v whole) [
  | inl (e, t, r, c, a) ↦ subst (λ x. IsConserved s x.1) (sym r) c
  | inr (frame, order, t, r, c, q, al, pushed, apart) ↦ subst (λ x. IsConserved s x.1) (sym r) c
]

apply-IsConserved :
    (s : BuddyAllocator) (c : Call) → IsValid s → IsWhole s → IsConserved s (apply s c)
unfolding apply
apply-IsConserved s (alloc cpu count) v whole = alloc_frame-IsConserved s cpu count v whole
apply-IsConserved s (retain block) v whole = retain_frame-IsConserved s block v
apply-IsConserved s (free cpu block) v whole = free_frame-IsConserved s cpu block v whole

-- Through any sequence of allocations, retains and frees on any processors, successful or not, a
-- well-formed state stays so, and every frame lies in exactly as many blocks, free, cached or
-- allocated, as at the start, which is one or none: no frame is lost, and none belongs to two.
pub run-IsConserved :
    (calls : List Call) (s : BuddyAllocator)
    → IsValid s
    → IsWhole s
    → IsValid (run s calls) × ((f : ℕ) → total (cover f) (run s calls) ≡ total (cover f) s)
unfolding run
run-IsConserved [] s v whole = (v, (λ f. refl))
run-IsConserved (c ∷ calls) s v whole =
    let k = apply-IsConserved s c v whole in
    let r =
      run-IsConserved calls (apply s c) k.0
        (λ f. omega (arith, whole f, k.3 (cover f) (cover-IsSplit f))) in
    (r.0, (λ f. r.1 f ∙ k.3 (cover f) (cover-IsSplit f)))
