-- ===== src/Fd/Tests.antt =====
-- Runs of fd.rs at small tables, and the theorems at concrete ones.
use aether_kernel.Prelude.{ℕ, ◌≡◌, refl, false, [], ◌∷◌, some, none, ◌==◌, if◌then◌else◌, arith}
use aether_kernel.Prelude.Maps.{get, insert, retain, split_off, append}
use aether_kernel.Fd.{
  LinuxStatFs, FileDescriptor, Entries, Store, u32_max, contains_key, find_free, insert_lowest,
  close, close_range,
}
use aether_kernel.Fd.Insert.{IsLowest, insert_lowest_lem, find_free-u32_max}
use aether_kernel.Fd.Ranges.{in_range, close_range_lem}

abbrev statfs : LinuxStatFs
statfs = record {
  f_type = 0;
  f_bsize = 4096;
  f_blocks = 0;
  f_bfree = 0;
  f_bavail = 0;
  f_files = 0;
  f_ffree = 0;
  f_fsid = 0 ∷ 0 ∷ [];
  f_namelen = 255;
  f_frsize = 4096;
  f_flags = 0;
  f_spare = 0 ∷ 0 ∷ 0 ∷ 0 ∷ [];
}

abbrev open_file : ℕ → FileDescriptor
open_file file = record {
  file = file;
  filesystem = record { device_id = 1; statfs = statfs };
  location = none;
  cloexec = false;
}

abbrev three : Entries
three = (0, open_file 10) ∷ (1, open_file 11) ∷ (3, open_file 13) ∷ []

abbrev last_taken : Entries
last_taken = (u32_max, open_file 9) ∷ []

abbrev store_of_three : Store
store_of_three = record { next = 1; tables = λ t. three }

insert_fills_gap : find_free 9 three 0 ≡ some 2
unfolding find_free contains_key get
insert_fills_gap = refl

close_missing : (close three 2).0 ≡ false
unfolding close contains_key get
close_missing = refl

close_range_middle : close_range three 1 2 ≡ (0, open_file 10) ∷ (3, open_file 13) ∷ []
unfolding close_range split_off append insert retain
close_range_middle = refl

insert_lowest_lem_example :
    (fd : ℕ) × (entries' : Entries) × (insert_lowest 4 three (open_file 5) 0 ≡ some (fd, entries'))
    × IsLowest three 0 fd
    × ((k : ℕ) → get k entries' ≡ (if fd == k then some (open_file 5) else get k three))
insert_lowest_lem_example = insert_lowest_lem three (open_file 5) 0 4 (omega arith) (omega arith)

find_free-u32_max_example : find_free 5 last_taken u32_max ≡ none
unfolding get
find_free-u32_max_example = find_free-u32_max 5 last_taken (open_file 9) refl

close_range_lem_example :
    get 3 (close_range three 1 u32_max) ≡ (if in_range 1 u32_max 3 then none else get 3 three)
close_range_lem_example =
    close_range_lem three 1 u32_max 3
      (((omega arith, (omega arith, tt)), ((omega arith, tt), (tt, tt)))) (omega arith)
      (omega arith)
