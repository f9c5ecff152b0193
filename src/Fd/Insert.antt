-- ===== src/Fd/Insert.antt =====
-- The search of fd.rs for the lowest free descriptor.
use aether_kernel.Prelude.{
  ℕ, zero, suc, ◌+◌, ◌≤◌, ◌<◌, ◌≡◌, refl, ◌∙◌, min, Bool, true, some, none, ◌==◌, if◌then◌else◌,
  arith, length, Option-cases, inl, inr,
}
use aether_kernel.Prelude.Maps.{get, insert, get-insert, count_from, count_from-get, count_from-le}
use aether_kernel.Fd.{
  u32_max, FileDescriptor, Entries, contains_key, find_free, insert_lowest, done, duplicate,
  with_cloexec,
}

-- The number found is the lowest free one from `min_fd` on.
abbrev pub IsLowest : Entries → ℕ → ℕ → Type 0
IsLowest entries min_fd fd =
    (min_fd ≤ fd)
    × (fd ≤ u32_max)
    × (get fd entries ≡ none)
    × ((k : ℕ) → min_fd ≤ k → k < fd → contains_key entries k ≡ true)

-- A taken number goes before the numbers below the one found.
IsLowest-suc :
    (entries : Entries) (fd k : ℕ)
    → contains_key entries fd ≡ true
    → IsLowest entries (suc fd) k
    → IsLowest entries fd k
IsLowest-suc entries fd k h l = (omega (arith, l.0), l.1, l.2, λ j a b. ground (arith, h, l.3 j))

find_free-suc :
    (fuel : ℕ) (entries : Entries) (fd : ℕ) (d : FileDescriptor)
    → get fd entries ≡ some d
    → fd < u32_max
    → find_free (suc fuel) entries fd ≡ find_free fuel entries (suc fd)
unfolding find_free contains_key
find_free-suc fuel entries fd d p h =
    let s : min (fd + 1) u32_max ≡ suc fd = omega arith in rw (p, s) refl

find_free_from :
    (fuel : ℕ) (entries : Entries) (fd : ℕ)
    → fd + count_from fd entries ≤ u32_max
    → count_from fd entries < fuel
    → (k : ℕ) × (find_free fuel entries fd ≡ some k) × IsLowest entries fd k
unfolding find_free contains_key
find_free_from zero entries fd h e = absurd (omega arith)
find_free_from (suc fuel) entries fd h e = elim (Option-cases (get fd entries)) [
  | inl p ↦ (fd, rw p refl, (omega arith, omega arith, p, λ k a b. absurd (omega arith)))
  | inr (d, p) ↦
      (let c : count_from (suc fd) entries < count_from fd entries =
          count_from-get fd entries d p in
        let (k, q, l) = find_free_from fuel entries (suc fd) (omega arith) (omega arith) in
        (
          k,
          find_free-suc fuel entries fd d p (omega arith) ∙ q,
          IsLowest-suc entries fd k (rw p refl) l,
        ))
]

-- A descriptor inserted at `min_fd`, when the entries leave room below u32::MAX: the loop ends
-- within as many rounds as there are entries and one more, with the lowest number from `min_fd` on
-- that is free. The descriptor stands there afterwards, and every other entry is as it was.
pub insert_lowest_lem :
    (entries : Entries) (d : FileDescriptor) (min_fd fuel : ℕ)
    → min_fd + length entries ≤ u32_max
    → length entries < fuel
    → (fd : ℕ) × (entries' : Entries) × (insert_lowest fuel entries d min_fd ≡ some (fd, entries'))
      × IsLowest entries min_fd fd
      × ((k : ℕ) → get k entries' ≡ (if fd == k then some d else get k entries))
unfolding insert_lowest
insert_lowest_lem entries d min_fd fuel h e =
    let c : count_from min_fd entries ≤ length entries = count_from-le min_fd entries in
    let (fd, p, l) = find_free_from fuel entries min_fd (omega arith) (omega arith) in
    (fd, insert fd d entries, rw p refl, l, λ k. get-insert fd k d entries)

-- At u32::MAX, where the number no longer grows, the loop never ends when that number is taken:
-- no number of rounds is enough.
pub find_free-u32_max :
    (fuel : ℕ) (entries : Entries) (d : FileDescriptor)
    → get u32_max entries ≡ some d
    → find_free fuel entries u32_max ≡ none
unfolding find_free contains_key
find_free-u32_max zero entries d h = refl
find_free-u32_max (suc fuel) entries d h =
    let s : min (u32_max + 1) u32_max ≡ u32_max = omega arith in
    rw (h, s) (find_free-u32_max fuel entries d h)

-- A duplicate of an open descriptor, when there is room as for an insertion: it takes the lowest
-- free number, refers to the same open file with the flag that was asked for, and nothing else
-- changes.
pub duplicate_lem :
    (entries : Entries) (d : FileDescriptor) (fd min_fd fuel : ℕ) (cloexec : Bool)
    → get fd entries ≡ some d
    → min_fd + length entries ≤ u32_max
    → length entries < fuel
    → (newfd : ℕ) × (entries' : Entries) × (duplicate fuel entries fd min_fd cloexec
        ≡ done newfd entries')
      × IsLowest entries min_fd newfd
      × ((k : ℕ)
          → get k entries' ≡ (if newfd == k then some (with_cloexec cloexec d) else get k entries))
unfolding duplicate
duplicate_lem entries d fd min_fd fuel cloexec p h e =
    let (newfd, entries', q, l, g) =
      insert_lowest_lem entries (with_cloexec cloexec d) min_fd fuel h e in
    (newfd, entries', rw (p, q) refl, l, g)
