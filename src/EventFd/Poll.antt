-- ===== src/EventFd/Poll.antt =====
-- `EventFdFile::poll` against `read` and `write` of eventfd.rs.
use aether_kernel.Prelude.{
  ℕ, ◌+◌, take, length-append, ◌++◌, ◌≤◌, ◌≡◌, Bool, true, false, ◌&&◌, List, arith, length,
}
use aether_kernel.Prelude.Bytes.{
  from_ne_bytes, to_ne_bytes, from-to_ne_bytes, take-to_ne_bytes, length-to_ne_bytes,
}
use aether_kernel.Vfs.{FsResult, ok, err, PollEvents, poll_read, poll_write, contains}
use aether_kernel.Vfs.Flags.{flag_of_union}
use aether_kernel.EventFd.{EventFdFile, counter_max, read, write, poll}

abbrev pub succeeds : FsResult ℕ → Bool
succeeds (ok n) = true
succeeds (err e) = false

-- READ is polled exactly when it was asked for and a read into any buffer of at least eight bytes
-- succeeds. WRITE is polled exactly when it was asked for and a write of the value 1 succeeds.
pub poll_lem :
    (f : EventFdFile) (events : PollEvents) (buffer rest : List ℕ)
    → f.counter ≤ counter_max
    → 8 ≤ length buffer
    → (contains (poll f events) poll_read ≡ contains events poll_read && succeeds (read f buffer).0)
      × (contains (poll f events) poll_write
          ≡ contains events poll_write && succeeds (write f (to_ne_bytes 8 1 ++ rest)).0)
unfolding poll read write
poll_lem f events buffer rest v b =
    (rw flag_of_union (ground arith), rw flag_of_union (ground (arith, value, long)))
  where
    value : from_ne_bytes (take 8 (to_ne_bytes 8 1 ++ rest)) ≡ 1
    value = rw take-to_ne_bytes (from-to_ne_bytes 8 1 (omega arith))

    long : length (to_ne_bytes 8 1 ++ rest) ≡ 8 + length rest
    long = rw length-append (omega (arith, length-to_ne_bytes 8 1))
