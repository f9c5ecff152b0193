-- ===== src/Pipe/Write.antt =====
-- The write end of pipe.rs: what a whole call of `PipeEndpoint::write` does.
use aether_kernel.Prelude.{
  ℕ, suc, ◌+◌, ◌-◌, ◌≡◌, refl, min, List, [], ◌∷◌, ◌++◌, arith, ◌==◌, if◌then◌else◌, length,
  length-append, length-take, take-min-length, take, some, leb, ◌||◌,
}
use aether_kernel.Vfs.{FsResult, ok, err, would_block, broken_pipe, poll_read}
use aether_kernel.Pipe.{PipeState, write_end, capacity, write_step, write_loop, bump, notify, write}

-- What a call on a pipe without interference returns.
unfoldable pub outcome : PipeState → List ℕ → FsResult ℕ
outcome s buffer =
    if length buffer == 0
    then ok 0
    else if s.inner.readers == 0
    then err broken_pipe
    else if leb capacity (length s.inner.bytes)
    then err would_block
    else ok (min (length buffer) (capacity - length s.inner.bytes))

-- The state that it leaves: at most one round of the loop changes it.
pub after : PipeState → List ℕ → PipeState
after s buffer =
    if length buffer == 0 || s.inner.readers == 0 || leb capacity (length s.inner.bytes)
    then s
    else notify poll_read (
        bump (record s {
          inner = record (s.inner) {
            bytes = s.inner.bytes ++ take (capacity - length s.inner.bytes) buffer;
          };
        }))

-- The first round returns at once, or writes all that fits.
first_round :
    (fuel : ℕ) (s : PipeState) (x : ℕ) (xs : List ℕ)
    → write_loop (suc (suc fuel)) s (x ∷ xs) 0 ≡ some (outcome s (x ∷ xs), after s (x ∷ xs))
unfolding write_loop write_step outcome after
first_round fuel s x xs = ground (
  arith,
  take-min-length (capacity - length s.inner.bytes) (x ∷ xs),
  length-append s.inner.bytes (take (capacity - length s.inner.bytes) (x ∷ xs)),
  length-take (capacity - length s.inner.bytes) (x ∷ xs),
)

-- A write of the write end always returns: InvalidInput never, Ok(0) for an empty buffer,
-- BrokenPipe if the pipe has no readers, WouldBlock if it is full, and else the number of bytes
-- that fit. In that last case alone the state changes, and once: the bytes that fit are appended
-- in order, the version is bumped and the waiters for READ are notified.
pub write_lem :
    (s : PipeState) (buffer : List ℕ)
    → write write_end s buffer ≡ some (outcome s buffer, after s buffer)
unfolding write write_loop outcome after write_step
write_lem s [] = refl
write_lem s (x ∷ xs) =
    let f : suc (length xs) + 1 ≡ suc (suc (length xs)) = omega arith in
    rw f (first_round (length xs) s x xs)
