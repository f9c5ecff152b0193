-- ===== src/Fd.antt =====
-- aether-kernel/src/fs/fd.rs: the table of file descriptors of a process. Its entries stand behind
-- an `Arc` that a clone shares and `fork_copy` does not, so they live in a store, and a table is an
-- address. An open file is an address too (`SharedOpenFile` is an `Arc`).
pub mod Insert
pub mod Ranges
pub mod Sharing
pub mod Flags
mod Tests
use aether_kernel.Prelude.{
  ℕ, zero, suc, ◌+◌, ◌-◌, ◌^◌, min, Bool, true, false, not, List, [], Option, some, none, ltb, ◌==◌,
  if◌then◌else◌, get_elem?,
}
use aether_kernel.Vfs.Path.{VfsPath}
use aether_kernel.Prelude.Maps.{
  BTreeMap, get, insert, remove, retain, split_off, append, update_range,
}

abbrev pub u32_max : ℕ
u32_max = 2 ^ 32 - 1

-- Of aether-kernel/src/fs/abi.rs.
pub record LinuxStatFs : Type 0 where
  pub f_type : ℕ
  pub f_bsize : ℕ
  pub f_blocks : ℕ
  pub f_bfree : ℕ
  pub f_bavail : ℕ
  pub f_files : ℕ
  pub f_ffree : ℕ
  pub f_fsid : List ℕ
  pub f_namelen : ℕ
  pub f_frsize : ℕ
  pub f_flags : ℕ
  pub f_spare : List ℕ

pub record FileSystemIdentity : Type 0 where
  pub device_id : ℕ
  pub statfs : LinuxStatFs

-- `FsLocation`, with nodes and directory entries as addresses.
abbrev pub FsLocation : Type 0
FsLocation = VfsPath ℕ ℕ

pub record FileDescriptor : Type 0 where
  pub file : ℕ
  pub filesystem : FileSystemIdentity
  pub location : Option FsLocation
  pub cloexec : Bool

abbrev pub Entries : Type 0
Entries = BTreeMap FileDescriptor

-- A table is the address of its entries.
abbrev pub FdTable : Type 0
FdTable = ℕ

-- The entries by address; those from `next` on are free.
pub record Store : Type 0 where
  pub next : ℕ
  pub tables : ℕ → Entries

abbrev pub put_table : Store → FdTable → Entries → Store
put_table store t entries = record store {
  tables = λ u. if t == u then entries else store.tables u;
}

unfoldable pub from_entries : Store → Entries → FdTable × Store
from_entries store entries = (
  store.next,
  record {
    next = store.next + 1;
    tables = λ u. if store.next == u then entries else store.tables u;
  },
)

unfoldable pub fork_copy : Store → FdTable → FdTable × Store
unfolding from_entries
fork_copy store t = from_entries store (store.tables t)

abbrev pub saturating_add : ℕ → ℕ → ℕ
saturating_add a b = min (a + b) u32_max

abbrev pub is_some : Option FileDescriptor → Bool
is_some none = false
is_some (some d) = true

unfoldable pub contains_key : Entries → ℕ → Bool
contains_key entries fd = is_some (get fd entries)

-- The loop of `insert` within a number of rounds; `none` when it still runs after them.
unfoldable pub find_free : ℕ → Entries → ℕ → Option ℕ
unfolding contains_key
find_free zero entries fd = none
find_free (suc fuel) entries fd =
    let rest = find_free fuel entries (saturating_add fd 1) in
    if contains_key entries fd then rest else some fd

abbrev pub insert_found : Entries → FileDescriptor → Option ℕ → Option (ℕ × Entries)
insert_found entries descriptor none = none
insert_found entries descriptor (some fd) = some (fd, insert fd descriptor entries)

-- `FdTable::insert`: the number it gives, and the entries after it.
unfoldable pub insert_lowest : ℕ → Entries → FileDescriptor → ℕ → Option (ℕ × Entries)
insert_lowest fuel entries descriptor min_fd =
    insert_found entries descriptor (find_free fuel entries min_fd)

unfoldable pub close : Entries → ℕ → Bool × Entries
unfolding contains_key
close entries fd = (contains_key entries fd, remove fd entries)

abbrev pub with_cloexec : Bool → FileDescriptor → FileDescriptor
with_cloexec cloexec d = record d { cloexec = cloexec }

-- The outcomes of `duplicate`: the missing descriptor, and the number given.
pub data Duplicate : Type 0 where
  missing running : Duplicate
  done : ℕ → Entries → Duplicate

abbrev pub duplicate_done : Option (ℕ × Entries) → Duplicate
duplicate_done none = running
duplicate_done (some (fd, entries)) = done fd entries

abbrev pub duplicate_found : ℕ → Entries → ℕ → Bool → Option FileDescriptor → Duplicate
duplicate_found fuel entries min_fd cloexec none = missing
duplicate_found fuel entries min_fd cloexec (some d) =
    duplicate_done (insert_lowest fuel entries (with_cloexec cloexec d) min_fd)

unfoldable pub duplicate : ℕ → Entries → ℕ → ℕ → Bool → Duplicate
duplicate fuel entries fd min_fd cloexec =
    duplicate_found fuel entries min_fd cloexec (get fd entries)

abbrev pub duplicate_onto : Entries → ℕ → Bool → Option FileDescriptor → Option ℕ × Entries
duplicate_onto entries newfd cloexec none = (none, entries)
duplicate_onto entries newfd cloexec (some d) =
    (some newfd, insert newfd (with_cloexec cloexec d) entries)

unfoldable pub duplicate_to : Entries → ℕ → ℕ → Bool → Option ℕ × Entries
duplicate_to entries fd newfd cloexec = duplicate_onto entries newfd cloexec (get fd entries)

unfoldable pub close_range : Entries → ℕ → ℕ → Entries
unfolding split_off
close_range entries first last =
    if ltb last first
    then entries
    else (let (below, tail) = split_off first entries in
        let keep = if last == u32_max then [] else (split_off (saturating_add last 1) tail).1 in
        append below keep)

unfoldable pub close_cloexec : Entries → Entries
close_cloexec entries = retain (λ fd d. not d.cloexec) entries

unfoldable pub set_cloexec_range : Entries → ℕ → ℕ → Entries
set_cloexec_range entries first last =
    if ltb last first then entries else update_range (with_cloexec true) first last entries
