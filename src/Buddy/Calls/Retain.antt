-- ===== src/Buddy/Calls/Retain.antt =====
-- A reference to a frame taken in buddy.rs and given back.
use aether_kernel.Prelude.{
  ℕ, ◌+◌, ◌-◌, ◌<◌, ◌≡◌, refl, ap, ◌∙◌, true, false, List, [], ◌∷◌, Option, some, arith, ◌==◌,
  Bool-cases, inl, inr,
}
use aether_kernel.Buddy.{BlockNode, BuddyAllocator, ok}
use aether_kernel.Buddy.Api.{
  retain_frame, free_frame_on_cpu, frame_number_from_addr, find_start, set_refcount,
  with_allocations, is_cpu, u32_max,
}

find_start-set_refcount :
    (frame n : ℕ) (blocks : List BlockNode) (b : BlockNode)
    → find_start frame blocks ≡ some b
    → find_start frame (set_refcount frame n blocks) ≡ some (record b { refcount = n })
unfolding find_start set_refcount
find_start-set_refcount frame n [] b h = ground (arith, h)
find_start-set_refcount frame n (c ∷ blocks) b h = elim (Bool-cases (c.start == frame)) [
  | inl e ↦
      (let q : c ≡ b = ground (arith, e, h) in
        rw (e, e)
          (ap {B = Option BlockNode} (λ (d : BlockNode). some (record d { refcount = n })) q))
  | inr e ↦
      (let q : find_start frame blocks ≡ some b = ground (arith, e, h) in
        rw (e, e) (find_start-set_refcount frame n blocks b q))
]

-- The count of the first allocation at a frame written twice, the second time as it was.
set_refcount-set_refcount :
    (frame n : ℕ) (blocks : List BlockNode) (b : BlockNode)
    → find_start frame blocks ≡ some b
    → set_refcount frame b.refcount (set_refcount frame n blocks) ≡ blocks
unfolding find_start set_refcount
set_refcount-set_refcount frame n [] b h = refl
set_refcount-set_refcount frame n (c ∷ blocks) b h = elim (Bool-cases (c.start == frame)) [
  | inl e ↦
      (let q : b ≡ c = ground (arith, e, h) in
        rw (e, e) (ap (λ (d : BlockNode). record c { refcount = d.refcount } ∷ blocks) q))
  | inr e ↦
      (let q : find_start frame blocks ≡ some b = ground (arith, e, h) in
        rw (e, e) (ap (λ l. c ∷ l) (set_refcount-set_refcount frame n blocks b q)))
]

module _ (s : BuddyAllocator) (block frame : ℕ) (b : BlockNode)
    (p : frame_number_from_addr block ≡ ok frame)
    (q : find_start frame s.allocations.blocks ≡ some b) where
  retain_frame_held :
      b.refcount < u32_max
      → retain_frame s block ≡ (
        ok (b.refcount + 1),
        with_allocations s (set_refcount frame (b.refcount + 1) s.allocations.blocks),
      )
  unfolding retain_frame
  retain_frame_held below =
      let room : (b.refcount == u32_max) ≡ false = ground arith in rw (p, q, room) refl

  free_frame_on_cpu_held :
      (cpu : ℕ)
      → cpu < s.cpu_count
      → 1 < b.refcount
      → free_frame_on_cpu s cpu block
        ≡ (ok tt, with_allocations s (set_refcount frame (b.refcount - 1) s.allocations.blocks))
  unfolding free_frame_on_cpu
  free_frame_on_cpu_held cpu h held =
      let here : is_cpu s cpu ≡ true = ground arith in
      let some_held : (b.refcount == 0) ≡ false = ground arith in
      let some_left : (b.refcount - 1 == 0) ≡ false = ground arith in
      rw (here, p, q, some_held, some_left) refl

-- A reference taken to an allocated frame, whose count is not 0 and below u32::MAX, returns the count
-- that is one higher. Giving one back then, on any processor, succeeds and restores the state.
pub free_frame_on_cpu-retain_frame :
    (s : BuddyAllocator) (cpu block frame : ℕ) (b : BlockNode)
    → cpu < s.cpu_count
    → frame_number_from_addr block ≡ ok frame
    → find_start frame s.allocations.blocks ≡ some b
    → 0 < b.refcount
    → b.refcount < u32_max
    → ((retain_frame s block).0 ≡ ok (b.refcount + 1))
      × (free_frame_on_cpu (retain_frame s block).1 cpu block ≡ (ok tt, s))
free_frame_on_cpu-retain_frame s cpu block frame b h p q held below =
    let blocks = s.allocations.blocks in
    let t = with_allocations s (set_refcount frame (b.refcount + 1) blocks) in
    let retained = retain_frame_held s block frame b p q below in
    let one_less : b.refcount + 1 - 1 ≡ b.refcount = omega arith in
    let freed =
      free_frame_on_cpu_held t block frame (record b { refcount = b.refcount + 1 }) p
        (find_start-set_refcount frame (b.refcount + 1) blocks b q) cpu h (omega (arith, held)) in
    let restored =
      ap (λ n. set_refcount frame n t.allocations.blocks) one_less
      ∙ set_refcount-set_refcount frame (b.refcount + 1) blocks b q in
    (
      ap (λ r. r.0) retained,
      ap (λ r. free_frame_on_cpu r.1 cpu block) retained
          ∙ freed
          ∙ ap (λ l. (ok tt, with_allocations s l)) restored,
    )
