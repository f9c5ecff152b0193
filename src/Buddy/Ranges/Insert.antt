-- ===== src/Buddy/Ranges/Insert.antt =====
-- The insertion of a range of frames in buddy.rs among those that are there.
use aether_kernel.Prelude.{
  ℕ, suc, ◌+◌, ◌-◌, ◌≤◌, ◌<◌, ◌≡◌, refl, true, false, ◌&&◌, List, [], ◌∷◌, arith, ltb, leb, ◌==◌,
  if◌then◌else◌, Bool-cases, ◌⊎◌, inl, inr, length,
}
use aether_kernel.Buddy.{FrameResult, ok, err, invalid_memory_map, metadata_exhausted}
use aether_kernel.Buddy.Ranges.{
  Range, usize_end, absorb, join_prev, seek, from_first, cons_ok, insert_merged_sorted,
}

-- Ranges of one frame or more, from `from` on, in order, with a gap between any two.
abbrev pub IsSorted : ℕ → List Range → Type 0
IsSorted from [] = Unit
IsSorted from ((start, len) ∷ ranges) =
    (from ≤ start) × (0 < len) × (start + len < usize_end) × IsSorted (start + len + 1) ranges

-- Whether a range has a frame, as a number, and how many ranges have it.
abbrev pub within : ℕ → ℕ → ℕ → ℕ
within f start len = if leb start f && ltb f (start + len) then 1 else 0

abbrev pub frames_at : ℕ → List Range → ℕ
frames_at f [] = 0
frames_at f ((start, len) ∷ ranges) = within f start len + frames_at f ranges

-- An outcome of the insertion but for the capacity.
abbrev IsInserted : ℕ → ℕ → ℕ → List Range → FrameResult (List Range) → Type 0
IsInserted from start len ranges r =
    ((r ≡ err invalid_memory_map) × (f : ℕ) × (0 < frames_at f ranges) × (within f start len ≡ 1))
    ⊎ ((after : List Range) × (r ≡ ok after)
        × IsSorted from after
        × (0 < length after)
        × (length after ≤ suc (length ranges))
        × ((f : ℕ) → frames_at f after ≡ frames_at f ranges + within f start len))

IsSorted-le : (a b : ℕ) (ranges : List Range) → a ≤ b → IsSorted b ranges → IsSorted a ranges
IsSorted-le a b [] h s = tt
IsSorted-le a b (r ∷ ranges) h s = (omega (arith, s.0), s.1, s.2, s.3)

-- No range has a frame below the first.
frames_at-from :
    (f from : ℕ) (ranges : List Range) → IsSorted from ranges → 0 < frames_at f ranges → from ≤ f
frames_at-from f from [] s h = absurd (omega (arith, h))
frames_at-from f from ((start, len) ∷ ranges) s h =
    elim (Bool-cases (leb start f && ltb f (start + len))) [
      | inl e ↦ ground (arith, e, s.0)
      | inr e ↦
          (let rest : 0 < frames_at f ranges = ground (arith, h, e) in
            omega (arith, s, frames_at-from f (start + len + 1) ranges s.3 rest))
    ]

-- A range that ends before the first of the others begins.
absorb-apart :
    (start len : ℕ) (ranges : List Range)
    → start + len < usize_end
    → IsSorted (start + len + 1) ranges
    → absorb start len ranges ≡ ok ((start, len) ∷ ranges)
unfolding absorb
absorb-apart start len [] h s = refl
absorb-apart start len ((a, n) ∷ ranges) h s =
    let fits : ltb (start + len) usize_end ≡ true = ground arith in
    let over : ltb a (start + len) ≡ false = ground (arith, s.0) in
    let gap : (a == start + len) ≡ false = ground (arith, s.0) in rw (fits, over, gap) refl

absorb-IsInserted :
    (start len : ℕ) (ranges : List Range)
    → 0 < len
    → start + len < usize_end
    → IsSorted start ranges
    → IsInserted start start len ranges (absorb start len ranges)
unfolding absorb
absorb-IsInserted start len [] p h s =
    inr (
      (start, len) ∷ [],
      refl,
      (omega arith, p, h, tt),
      omega arith,
      omega arith,
      (λ f. omega arith),
    )
absorb-IsInserted start len ((a, n) ∷ ranges) p h s =
    let fits : ltb (start + len) usize_end ≡ true = ground arith in
    elim (Bool-cases (ltb a (start + len))) [
      | inl over ↦ inl (rw (fits, over) refl, a, ground (arith, s.1), ground (arith, s.0, over))
      | inr over ↦ elim (Bool-cases (a == start + len)) [
        | inr gap ↦ inr (
          (start, len) ∷ (a, n) ∷ ranges,
          rw (fits, over, gap) refl,
          (omega arith, p, h, (ground (arith, over, gap), s.1, s.2, s.3)),
          omega arith,
          omega arith,
          (λ f. omega arith),
        )
        | inl at ↦
            (let e : a ≡ start + len = ground (arith, at) in
              let short : ltb (len + n) usize_end ≡ true = ground (arith, e, s.2) in
              let end : start + (len + n) ≡ a + n = omega (arith, e) in
              inr (
                (start, len + n) ∷ ranges,
                rw (fits, over, at, short)
                    (absorb-apart start (len + n) ranges (omega (arith, end, s.2)) (rw end s.3)),
                (omega arith, omega (arith, p), omega (arith, end, s.2), rw end s.3),
                omega arith,
                omega arith,
                (λ f. ground (arith, e, s.1, p)),
              ))
      ]
    ]

-- The range before the new one: its end is the start of the new one, or comes before it.
join_prev-IsInserted :
    (from a n start len : ℕ) (ranges : List Range)
    → from ≤ a
    → 0 < n
    → a < start
    → a + n < usize_end
    → 0 < len
    → start + len < usize_end
    → IsSorted start ranges
    → IsInserted from start len ((a, n) ∷ ranges) (join_prev (a, n) start len ranges)
unfolding join_prev
join_prev-IsInserted from a n start len ranges l m before e p h s =
    let fits : ltb (a + n) usize_end ≡ true = ground arith in
    elim (Bool-cases (ltb start (a + n))) [
      | inl over ↦
          inl (rw (fits, over) refl, start, ground (arith, over, before), ground (arith, p))
      | inr over ↦ elim (Bool-cases (start == a + n)) [
        | inl at ↦
            (let q : start ≡ a + n = ground (arith, at) in
              let short : ltb (n + len) usize_end ≡ true = ground (arith, q) in
              elim (absorb-IsInserted a (n + len) ranges (omega (arith, p)) (omega (arith, q))
                (IsSorted-le a start ranges (omega arith) s)) [
                  | inl (r, f, c, d) ↦ inl (
                    rw (fits, over, at, short, r) refl,
                    f,
                    omega (arith, c),
                    ground (arith, d, q, frames_at-from f start ranges s c),
                  )
                  | inr (after, r, t, k, z, g) ↦ inr (
                    after,
                    rw (fits, over, at, short, r) refl,
                    IsSorted-le from a after l t,
                    k,
                    omega (arith, z),
                    (λ f. ground (arith, g f, q)),
                  )
                ])
        | inr at ↦ elim (absorb-IsInserted start len ranges p h s) [
          | inl (r, f, c, d) ↦ inl (rw (fits, over, at, r) refl, f, omega (arith, c), d)
          | inr (after, r, t, k, z, g) ↦ inr (
            (a, n) ∷ after,
            rw (fits, over, at, r) refl,
            (l, m, e, IsSorted-le (a + n + 1) start after (ground (arith, over, at)) t),
            omega arith,
            omega (arith, z),
            (λ f. omega (arith, g f)),
          )
        ]
      ]
    ]

cons_ok-IsInserted :
    (from a n start len : ℕ) (ranges : List Range) (r : FrameResult (List Range))
    → from ≤ a
    → 0 < n
    → a + n < usize_end
    → IsInserted (a + n + 1) start len ranges r
    → IsInserted from start len ((a, n) ∷ ranges) (cons_ok (a, n) r)
cons_ok-IsInserted from a n start len ranges r l m e (inl (q, f, c, d)) =
    inl (rw q refl, f, omega (arith, c), d)
cons_ok-IsInserted from a n start len ranges r l m e (inr (after, q, t, k, z, g)) = inr (
  (a, n) ∷ after,
  rw q refl,
  (l, m, e, t),
  omega arith,
  omega (arith, z),
  (λ f. omega (arith, g f)),
)

seek-IsInserted :
    (from a n start len : ℕ) (ranges : List Range)
    → IsSorted from ((a, n) ∷ ranges)
    → a < start
    → 0 < len
    → start + len < usize_end
    → IsInserted from start len ((a, n) ∷ ranges) (seek (a, n) start len ranges)
unfolding seek
seek-IsInserted from a n start len [] s before p h =
    join_prev-IsInserted from a n start len [] s.0 s.1 before s.2 p h tt
seek-IsInserted from a n start len ((b, m) ∷ ranges) s before p h =
    elim (Bool-cases (ltb b start)) [
      | inl e ↦ rw e (
          cons_ok-IsInserted from a n start len ((b, m) ∷ ranges) (seek (b, m) start len ranges) s.0
            s.1 s.2 (seek-IsInserted (a + n + 1) b m start len ranges s.3 (ground (arith, e)) p h))
      | inr e ↦ rw e (
          join_prev-IsInserted from a n start len ((b, m) ∷ ranges) s.0 s.1 before s.2 p h
            (ground (arith, e), s.3.1, s.3.2, s.3.3))
    ]

IsInserted-from_zero :
    (start len : ℕ) (ranges : List Range) (r : FrameResult (List Range))
    → IsInserted start start len ranges r
    → IsInserted 0 start len ranges r
IsInserted-from_zero start len ranges r (inl refused) = inl refused
IsInserted-from_zero start len ranges r (inr (after, q, t, k, z, g)) =
    inr (after, q, IsSorted-le 0 start after (omega arith) t, k, z, g)

from_first-IsInserted :
    (start len : ℕ) (ranges : List Range)
    → IsSorted 0 ranges
    → 0 < len
    → start + len < usize_end
    → IsInserted 0 start len ranges (from_first start len ranges)
from_first-IsInserted start len [] s p h =
    IsInserted-from_zero start len [] (absorb start len []) (absorb-IsInserted start len [] p h tt)
from_first-IsInserted start len ((a, n) ∷ ranges) s p h = elim (Bool-cases (ltb a start)) [
  | inl e ↦ rw e (seek-IsInserted 0 a n start len ranges s (ground (arith, e)) p h)
  | inr e ↦ rw e (
      IsInserted-from_zero start len ((a, n) ∷ ranges) (absorb start len ((a, n) ∷ ranges))
        (absorb-IsInserted start len ((a, n) ∷ ranges) p h (ground (arith, e), s.1, s.2, s.3)))
]

-- The insertion of a range of frames that ends within a usize, in a list of at most `capacity` sorted
-- ranges with gaps between them: an error when it shares a frame with a range that is there, another
-- only when the list is full; else the list is again sorted with gaps and within the capacity, and has
-- the frames that it had and those of the new range.
pub insert_merged_sorted_lem :
    (capacity : ℕ) (ranges : List Range) (start len : ℕ)
    → IsSorted 0 ranges
    → length ranges ≤ capacity
    → 0 < len
    → start + len < usize_end
    → ((insert_merged_sorted capacity ranges start len ≡ err invalid_memory_map)
        × (f : ℕ) × (0 < frames_at f ranges)
        × (within f start len ≡ 1))
      ⊎ (((insert_merged_sorted capacity ranges start len ≡ err metadata_exhausted)
            × (length ranges ≡ capacity))
          ⊎ ((after : List Range) × (insert_merged_sorted capacity ranges start len ≡ ok after)
              × IsSorted 0 after
              × (length after ≤ capacity)
              × (length after ≤ suc (length ranges))
              × ((f : ℕ) → frames_at f after ≡ frames_at f ranges + within f start len)))
unfolding insert_merged_sorted
insert_merged_sorted_lem capacity ranges start len s room p h =
    let some_frames : (len == 0) ≡ false = ground arith in
    elim (from_first-IsInserted start len ranges s p h) [
      | inl (q, f, c, d) ↦ inl (rw (some_frames, q) refl, f, c, d)
      | inr (after, q, t, k, z, g) ↦ elim (Bool-cases (length after - 1 == capacity)) [
        | inl full ↦ inr (inl (rw (some_frames, q, full) refl, ground (arith, full, z, room)))
        | inr full ↦
            inr (
              inr
                (after, rw (some_frames, q, full) refl, t, ground (arith, full, z, room, k), z, g))
      ]
    ]
