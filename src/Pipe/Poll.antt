-- ===== src/Pipe/Poll.antt =====
-- `PipeEndpoint::poll` against `read` and `write`.
use aether_kernel.Prelude.{
  ℕ, ◌≡◌, List, ◌∷◌, arith, ◌==◌, Bool, true, false, ◌&&◌, not, Option, some, none, ltb,
}
use aether_kernel.Vfs.Flags.{flag_of_union}
use aether_kernel.Vfs.{
  FsResult, ok, err, would_block, PollEvents, poll_read, poll_write, poll_hup, poll_error, contains,
}
use aether_kernel.Pipe.{PipeState, read_end, write_end, poll, read, write}
use aether_kernel.Pipe.Write.{outcome, write_lem}

-- A read would have to wait.
abbrev pub blocks : FsResult ℕ → Bool
blocks (ok n) = false
blocks (err would_block) = true
blocks (err e) = false

-- A write has taken bytes.
abbrev pub progresses : Option (FsResult ℕ × PipeState) → Bool
progresses (some (ok n, s)) = ltb 0 n
progresses (some (err e, s)) = false
progresses none = false

-- The read end polls READ exactly when READ was asked for and a read, of any buffer, does not
-- fail with WouldBlock; it polls HUP exactly when the pipe has no writers, asked for or not.
pub poll-read :
    (s : PipeState) (events : PollEvents) (buffer : List ℕ)
    → (contains (poll read_end s events) poll_read
        ≡ contains events poll_read && not (blocks (read read_end s buffer).0))
      × (contains (poll read_end s events) poll_hup ≡ (s.inner.writers == 0))
unfolding poll read
poll-read s events buffer = (rw flag_of_union (ground arith), rw flag_of_union (ground arith))

-- The write end polls WRITE exactly when WRITE was asked for and a write of any non-empty buffer
-- takes at least one byte; it polls ERROR exactly when the pipe has no readers, asked for or not.
pub poll-write :
    (s : PipeState) (events : PollEvents) (x : ℕ) (xs : List ℕ)
    → (contains (poll write_end s events) poll_write
        ≡ contains events poll_write && progresses (write write_end s (x ∷ xs)))
      × (contains (poll write_end s events) poll_error ≡ (s.inner.readers == 0))
unfolding poll outcome
poll-write s events x xs =
    rw write_lem (rw flag_of_union (ground arith), rw flag_of_union (ground arith))
