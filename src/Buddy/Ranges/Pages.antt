-- ===== src/Buddy/Ranges/Pages.antt =====
-- The memory map in buddy.rs, as ranges of the frames of its usable pages.
use Prim.Native.Nat.{bit_and}
use native.Mathlib.Nat.{pow-suc, one-le-pow, div-div-eq-div-mul}
use aether_kernel.Prelude.{
  ℕ, zero, suc, ◌+◌, ◌-◌, ◌*◌, ◌/◌, ◌%◌, ◌^◌, ◌≤◌, ◌<◌, ◌≡◌, refl, sym, ◌∙◌, true, false, ◌&&◌,
  List, [], ◌∷◌, arith, ltb, leb, if◌then◌else◌, Bool-cases, inl, inr, length, All,
}
use aether_kernel.Prelude.Bits.{
  test_bit, test_bit-ext, test_bit-bit_and, test_bit_zero, test_bit_ones, bit_not64,
  test_bit-bit_not64,
}
use aether_kernel.Buddy.{FrameResult, ok}
use aether_kernel.Buddy.Api.{page_size}
use aether_kernel.Buddy.Ranges.{
  Range, MemoryRegion, usize_end, align_up, align_down, insert_region, collect_region,
  collect_usable_ranges,
}
use aether_kernel.Buddy.Ranges.Insert.{IsSorted, frames_at, insert_merged_sorted_lem}

-- Digits from the `w`-th on of a number below 2 ^ `w`.
test_bit_high : (w a i : ℕ) → a < 2 ^ w → w ≤ i → test_bit a i ≡ false
test_bit_high zero a i h p = let z : a ≡ 0 = omega (arith, h) in rw z (test_bit_zero i)
test_bit_high (suc w) a zero h p = absurd (omega (arith, p))
test_bit_high (suc w) a (suc i) h p =
    test_bit_high w (a / 2) i (omega (arith, h, pow-suc 2 w)) (omega (arith, p))

low_cleared : (k a i : ℕ) → test_bit (a / 2 ^ k * 2 ^ k) i ≡ leb k i && test_bit a i
low_cleared zero a i = let same : a / 1 * 1 ≡ a = omega arith in rw same (ground arith)
low_cleared (suc k) a i = rw halves (digit i (low_cleared k (a / 2)))
  where
    x : ℕ
    x = a / 2 / 2 ^ k * 2 ^ k

    halves : a / 2 ^ suc k * 2 ^ suc k ≡ x + x
    halves =
        let e : 2 ^ suc k ≡ 2 * 2 ^ k = omega (arith, pow-suc 2 k) in
        rw (e, ← div-div-eq-div-mul a 2 (2 ^ k)) (omega arith)

    digit :
        (i : ℕ)
        → ((j : ℕ) → test_bit x j ≡ leb k j && test_bit (a / 2) j)
        → test_bit (x + x) i ≡ leb (suc k) i && test_bit a i
    digit zero h = ground arith
    digit (suc i) h =
        let half : (x + x) / 2 ≡ x = omega arith in
        let below : leb (suc k) (suc i) ≡ leb k i = ground arith in rw (half, below) (h i)

-- A multiple of a power of two: the lower digits cleared.
bit_and-cleared :
    (k a : ℕ) → k ≤ 64 → a < 2 ^ 64 → bit_and a (bit_not64 (2 ^ k - 1)) ≡ a / 2 ^ k * 2 ^ k
bit_and-cleared k a h p =
    test_bit-ext _ _
      λ i. test_bit-bit_and a (bit_not64 (2 ^ k - 1)) i ∙ digit i ∙ sym (low_cleared k a i)
  where
    digit : (i : ℕ) → test_bit a i && test_bit (bit_not64 (2 ^ k - 1)) i ≡ leb k i && test_bit a i
    digit i = elim (Bool-cases (ltb i 64)) [
      | inr e ↦ rw (test_bit_high 64 a i p (ground (arith, e))) (ground arith)
      | inl e ↦ elim (Bool-cases (ltb i k)) [
        | inl f ↦
            rw
              (
                test_bit-bit_not64 (2 ^ k - 1) i (ground (arith, e)),
                test_bit_ones k i (ground (arith, f)),
              )
              (ground (arith, f))
        | inr f ↦
            rw
              (
                test_bit-bit_not64 (2 ^ k - 1) i (ground (arith, e)),
                test_bit_high k (2 ^ k - 1) i (omega (arith, one-le-pow k 2)) (ground (arith, f)),
              )
              (ground (arith, f))
      ]
    ]

align_down_page : (a : ℕ) → a < 2 ^ 64 → align_down a page_size ≡ a / 4096 * 4096
align_down_page a h = bit_and-cleared 12 a (omega arith) h

-- Whether the page of a frame lies in a usable region, as a number, and in how many it does.
abbrev pub page_within : ℕ → MemoryRegion → ℕ
page_within f r =
    if r.usable
      && (leb r.start (f * page_size) && leb (f * page_size + page_size) (r.start + r.len))
    then 1
    else 0

abbrev pub pages_at : ℕ → List MemoryRegion → ℕ
pages_at f [] = 0
pages_at f (r ∷ mem_map) = page_within f r + pages_at f mem_map

-- A region whose start, rounded up to a page, and whose end are addresses.
abbrev pub IsInBounds : MemoryRegion → Type 0
IsInBounds r = (r.start + page_size ≤ usize_end) × (r.start + r.len < usize_end)

abbrev IsCollected : ℕ → List Range → (ℕ → ℕ) → FrameResult (List Range) → Type 0
IsCollected more ranges pages r =
    (after : List Range) × (r ≡ ok after)
    × IsSorted 0 after
    × (length after ≤ length ranges + more)
    × ((f : ℕ) → frames_at f after ≡ frames_at f ranges + pages f)

-- Whether a frame lies from one on and before another, as a number.
abbrev between : ℕ → ℕ → ℕ → ℕ
between f u d = if leb u f && ltb f d then 1 else 0

insert_region-IsCollected :
    (capacity : ℕ) (ranges : List Range) (u d : ℕ)
    → IsSorted 0 ranges
    → length ranges < capacity
    → d < usize_end
    → ((f : ℕ) → frames_at f ranges + between f u d ≤ 1)
    → IsCollected 1 ranges
        (λ f. between f u d)
        (insert_region capacity ranges (u * 4096) (d * 4096))
unfolding insert_region
insert_region-IsCollected capacity ranges u d s room h apart =
    elim (Bool-cases (leb (d * 4096) (u * 4096))) [
      | inl e ↦ rw e (ranges, refl, s, omega arith, (λ f. ground (arith, e)))
      | inr e ↦
          (let first : u * 4096 / page_size ≡ u = omega arith in
            let count : (d * 4096 - u * 4096) / page_size ≡ d - u = omega arith in
            let some_pages : u < d = ground (arith, e) in
            rw (e, first, count)
              (elim (insert_merged_sorted_lem capacity ranges u (d - u) s (omega (arith, room))
                (omega (arith, some_pages)) (omega (arith, h))) [
                  | inl (q, f, c, w) ↦ absurd (ground (arith, apart f, c, w, some_pages))
                  | inr (inl (q, full)) ↦ absurd (omega (arith, full, room))
                  | inr (inr (after, q, t, k, z, g)) ↦
                      (after, q, t, omega (arith, z), (λ f. ground (arith, g f, some_pages)))
                ]))
    ]

collect_region_usable :
    (capacity : ℕ) (ranges : List Range) (r : MemoryRegion)
    → r.usable ≡ true
    → IsInBounds r
    → collect_region capacity ranges r
      ≡ insert_region capacity ranges
          ((r.start + 4095) / 4096 * 4096)
          ((r.start + r.len) / 4096 * 4096)
unfolding collect_region
collect_region_usable capacity ranges r e bounds =
    let fits : ltb (r.start + r.len) usize_end ≡ true = ground (arith, bounds.1) in
    let below : (r.start + page_size - 1) % usize_end ≡ r.start + 4095 = omega (arith, bounds.0) in
    let up : align_up r.start page_size ≡ (r.start + 4095) / 4096 * 4096 =
      align_down_page ((r.start + page_size - 1) % usize_end) (omega arith) ∙ rw below refl in
    rw (e, fits, up, align_down_page (r.start + r.len) bounds.1) refl

collect_region-IsCollected :
    (capacity : ℕ) (ranges : List Range) (r : MemoryRegion)
    → IsSorted 0 ranges
    → length ranges < capacity
    → IsInBounds r
    → ((f : ℕ) → frames_at f ranges + page_within f r ≤ 1)
    → IsCollected 1 ranges (λ f. page_within f r) (collect_region capacity ranges r)
unfolding collect_region
collect_region-IsCollected capacity ranges r s room bounds apart = elim (Bool-cases r.usable) [
  | inr e ↦ rw e (ranges, refl, s, omega arith, (λ f. omega arith))
  | inl e ↦
      (let same : (f : ℕ)
            → page_within f r ≡ between f ((r.start + 4095) / 4096) ((r.start + r.len) / 4096) =
          λ f. rw e (ground arith) in
        let (after, q, t, k, g) =
          insert_region-IsCollected capacity ranges ((r.start + 4095) / 4096)
            ((r.start + r.len) / 4096) s room (omega (arith, bounds.1))
            (λ f. omega (arith, same f, apart f)) in
        (
          after,
          collect_region_usable capacity ranges r e bounds ∙ q,
          t,
          k,
          (λ f. omega (arith, g f, same f)),
        ))
]

-- A memory map whose regions stay below the end of the addresses, no page of which lies in two usable
-- regions, and that has at most as many regions as the list has room for: its ranges are found, they
-- are sorted with gaps between them, and they have a frame exactly when its whole page lies in a
-- usable region.
pub collect_usable_ranges_lem :
    (capacity : ℕ) (ranges : List Range) (mem_map : List MemoryRegion)
    → IsSorted 0 ranges
    → length ranges + length mem_map ≤ capacity
    → All IsInBounds mem_map
    → ((f : ℕ) → frames_at f ranges + pages_at f mem_map ≤ 1)
    → (after : List Range) × (collect_usable_ranges capacity ranges mem_map ≡ ok after)
      × IsSorted 0 after
      × (length after ≤ capacity)
      × ((f : ℕ) → frames_at f after ≡ frames_at f ranges + pages_at f mem_map)
unfolding collect_usable_ranges
collect_usable_ranges_lem capacity ranges [] s room bounds apart =
    (ranges, refl, s, omega (arith, room), (λ f. omega arith))
collect_usable_ranges_lem capacity ranges (r ∷ mem_map) s room bounds apart =
    let (t, q, sorted, k, g) =
      collect_region-IsCollected capacity ranges r s (omega (arith, room)) bounds.0
        (λ f. omega (arith, apart f)) in
    let (after, p, sorted', z, all) =
      collect_usable_ranges_lem capacity t mem_map sorted (omega (arith, room, k)) bounds.1
        (λ f. omega (arith, g f, apart f)) in
    (after, rw q p, sorted', z, (λ f. omega (arith, g f, all f)))
