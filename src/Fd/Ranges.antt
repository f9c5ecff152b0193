-- ===== src/Fd/Ranges.antt =====
-- What fd.rs closes: a range of descriptors, and those marked to close on exec.
use aether_kernel.Prelude.{
  ℕ, ◌+◌, ◌≤◌, ◌<◌, ◌≡◌, min, Bool, true, not, ◌&&◌, Option, some, none, ltb, leb, if◌then◌else◌,
  arith,
}
use aether_kernel.Prelude.Maps.{
  get, retain, split_off, append, update_range, IsOrdered, kept, or_else, updated, get-retain,
  get-append, get-update_range, IsOrdered-retain, IsOrdered-update_range,
}
use aether_kernel.Fd.{
  u32_max, FileDescriptor, Entries, close_range, close_cloexec, set_cloexec_range, with_cloexec,
}

abbrev pub in_range : ℕ → ℕ → ℕ → Bool
in_range first last fd = leb first fd && leb fd last

-- The two parts that `close_range` keeps.
kept_range :
    (first last k : ℕ) (o : Option FileDescriptor)
    → first ≤ last
    → last < u32_max
    → or_else
        (kept (λ j v. leb (min (last + 1) u32_max) j) k (kept (λ j v. leb first j) k o))
        (kept (λ j v. ltb j first) k o)
      ≡ (if in_range first last k then none else o)
kept_range first last k none h b = ground arith
kept_range first last k (some d) h b = ground arith

kept_below :
    (first k : ℕ) (o : Option FileDescriptor)
    → k ≤ u32_max
    → kept (λ j v. ltb j first) k o ≡ (if in_range first u32_max k then none else o)
kept_below first k none h = ground arith
kept_below first k (some d) h = ground arith

get_of_range :
    (entries : Entries) (first last k : ℕ)
    → IsOrdered entries
    → first ≤ last
    → last < u32_max
    → get k (
        append
          (split_off first entries).0
          (split_off (min (last + 1) u32_max) (split_off first entries).1).1)
      ≡ (if in_range first last k then none else get k entries)
unfolding split_off
get_of_range entries first last k o h b =
    let tail = retain (λ j v. leb first j) entries in
    let s : IsOrdered tail = IsOrdered-retain _ entries o in
    rw
      (
        get-append k (retain (λ j v. ltb j first) entries)
            (retain (λ j v. leb (min (last + 1) u32_max) j) tail) (IsOrdered-retain _ tail s),
        get-retain (λ j v. leb (min (last + 1) u32_max) j) k tail s,
        get-retain (λ j v. leb first j) k entries o,
        get-retain (λ j v. ltb j first) k entries o,
      )
      (kept_range first last k (get k entries) h b)

-- Closing a range of descriptors removes those from `first` to `last` and no other, where `last` may be
-- u32::MAX, and nothing when the range is empty.
pub close_range_lem :
    (entries : Entries) (first last k : ℕ)
    → IsOrdered entries
    → last ≤ u32_max
    → k ≤ u32_max
    → get k (close_range entries first last)
      ≡ (if in_range first last k then none else get k entries)
unfolding close_range split_off append
close_range_lem entries first last k o h b = ground (
  arith,
  get_of_range entries first last k o,
  get-retain (λ j v. ltb j first) k entries o,
  kept_below first k (get k entries) b,
)

marked :
    (first last k : ℕ) (o : Option FileDescriptor)
    → kept (λ j d. not d.cloexec) k (updated (with_cloexec true) (in_range first last k) o)
      ≡ (if in_range first last k then none else kept (λ j d. not d.cloexec) k o)
marked first last k none = ground arith
marked first last k (some d) = ground arith

-- Marking a range to close on exec and closing what is marked closes the range and what was marked before,
-- and leaves the other descriptors as they were.
pub close_cloexec-set_cloexec_range :
    (entries : Entries) (first last k : ℕ)
    → IsOrdered entries
    → get k (close_cloexec (set_cloexec_range entries first last))
      ≡ (if in_range first last k then none else get k (close_cloexec entries))
unfolding close_cloexec set_cloexec_range
close_cloexec-set_cloexec_range entries first last k o = ground (
  arith,
  get-retain (λ j d. not d.cloexec) k entries o,
  get-retain (λ j d. not d.cloexec) k (update_range (with_cloexec true) first last entries)
      (IsOrdered-update_range (with_cloexec true) first last entries o),
  get-update_range (with_cloexec true) first last k entries,
  marked first last k (get k entries),
)
