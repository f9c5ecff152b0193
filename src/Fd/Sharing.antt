-- ===== src/Fd/Sharing.antt =====
-- Which tables of fd.rs share their entries: a forked one does not.
use aether_kernel.Prelude.{ℕ, ◌<◌, ◌≡◌, Bool, some, ◌==◌, if◌then◌else◌, arith, ==_self}
use aether_kernel.Prelude.Maps.{get, get-insert}
use aether_kernel.Fd.{
  Store, FdTable, Entries, FileDescriptor, put_table, from_entries, fork_copy, duplicate_to,
  with_cloexec,
}

-- The entries of a table, and what a call of `duplicate_to` on it leaves in the store.
abbrev pub entries_of : Store → FdTable → Entries
entries_of store t = store.tables t

abbrev pub dup_in : Store → FdTable → ℕ → ℕ → Bool → Store
dup_in store t fd newfd cloexec =
    put_table store t (duplicate_to (entries_of store t) fd newfd cloexec).1

-- After a fork the two processes find the same descriptors. dup2 in one of them puts the old
-- descriptor, with the flag asked for, at the new number of that process, whatever stood there,
-- and changes nothing that the other finds.
pub duplicate_to-fork_copy :
    (store : Store) (t : FdTable) (d : FileDescriptor) (fd newfd k : ℕ) (cloexec : Bool)
    → t < store.next
    → get fd (entries_of store t) ≡ some d
    → let (child, forked) = fork_copy store t in
      (entries_of forked child ≡ entries_of store t)
      × (get k (entries_of (dup_in forked child fd newfd cloexec) child)
          ≡ (if newfd == k then some (with_cloexec cloexec d) else get k (entries_of store t)))
      × (entries_of (dup_in forked child fd newfd cloexec) t ≡ entries_of store t)
      × (entries_of (dup_in forked t fd newfd cloexec) child ≡ entries_of store t)
unfolding fork_copy from_entries duplicate_to
duplicate_to-fork_copy store t d fd newfd k cloexec h p =
    ground
      (arith, ==_self store.next, get-insert newfd k (with_cloexec cloexec d) (entries_of store t))
