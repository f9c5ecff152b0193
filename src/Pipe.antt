-- ===== src/Pipe.antt =====
-- aether-kernel/libs/aether-fs/src/pipe.rs: the anonymous pipe. `PipeState` stands for the object
-- that the two endpoints share; an operation of an endpoint takes it and returns the new one.
-- A lock is held for the whole of `open`, `release`, `read` and `poll`, and for one round of the
-- loop of `write`, which is `write_step`.
pub mod Read
pub mod Write
pub mod Poll
pub mod Interleave
mod Tests
use aether_kernel.Prelude.{
  ℕ, zero, suc, ◌+◌, ◌-◌, ◌*◌, ◌%◌, ◌^◌, ◌≤◌, ◌<◌, ◌≡◌, refl, min, Bool, true, false, ◌&&◌, ◌||◌,
  not, List, [], ◌∷◌, ◌++◌, Option, some, none, ltb, ◌==◌, if◌then◌else◌, length, take, drop,
}
use aether_kernel.Vfs.{
  FsResult, ok, err, invalid_input, would_block, broken_pipe, PollEvents, poll_read, poll_write,
  poll_error, poll_hup, empty, contains, union,
}
use aether_kernel.Vfs.Wait
use aether_kernel.Vfs.Wait.{WaitQueue}

abbrev pub capacity : ℕ
capacity = 64 * 1024

pub record PipeBuffer : Type 0 where
  pub bytes : List ℕ
  pub readers : ℕ
  pub writers : ℕ

pub record PipeState : Type 0 where
  pub inner : PipeBuffer
  pub version : ℕ
  pub waiters : WaitQueue

pub data PipeEndpointKind : Type 0 where
  read_end write_end : PipeEndpointKind

unfoldable pub default : PipeState
unfolding Wait.new
default = record {
  inner = record { bytes = []; readers = 0; writers = 0 };
  version = 1;
  waiters = Wait.new;
}

bump : PipeState → PipeState
bump s = record s { version = (s.version + 1) % 2 ^ 64 }

notify : PollEvents → PipeState → PipeState
unfolding Wait.notify
notify events s = record s { waiters = Wait.notify s.waiters events }

abbrev pub all_events : PollEvents
all_events = union (union (union poll_read poll_write) poll_error) poll_hup

abbrev pub saturating_succ : ℕ → ℕ
saturating_succ n = min (n + 1) (2 ^ 64 - 1)

-- The change of the buffer, then what `add_reader` and its three siblings do after it.
announce : PipeState → PipeBuffer → PipeState
unfolding bump notify
announce s buffer = notify all_events (bump (record s { inner = buffer }))

unfoldable pub add_reader : PipeState → PipeState
unfolding announce
add_reader s = announce s (record (s.inner) { readers = saturating_succ s.inner.readers })

unfoldable pub add_writer : PipeState → PipeState
unfolding announce
add_writer s = announce s (record (s.inner) { writers = saturating_succ s.inner.writers })

unfoldable pub remove_reader : PipeState → PipeState
unfolding announce
remove_reader s = announce s (record (s.inner) { readers = s.inner.readers - 1 })

unfoldable pub remove_writer : PipeState → PipeState
unfolding announce
remove_writer s = announce s (record (s.inner) { writers = s.inner.writers - 1 })

unfoldable pub open_end : PipeEndpointKind → PipeState → PipeState
unfolding add_reader add_writer
open_end read_end s = add_reader s
open_end write_end s = add_writer s

unfoldable pub release : PipeEndpointKind → PipeState → PipeState
unfolding remove_reader remove_writer
release read_end s = remove_reader s
release write_end s = remove_writer s

-- The loop over `buffer[..count]`: it gives back the queue that is left and the whole buffer.
-- `pop_front` panics on an empty queue; `count` is at most the queue's length.
unfoldable pub fill : ℕ → List ℕ → List ℕ → List ℕ × List ℕ
fill zero bytes buffer = (bytes, buffer)
fill (suc n) [] buffer = ([], buffer)
fill (suc n) (b ∷ bytes) [] = (b ∷ bytes, [])
fill (suc n) (b ∷ bytes) (slot ∷ buffer) =
    let (left, filled) = fill n bytes buffer in (left, b ∷ filled)

-- A read when there are bytes.
read_some : PipeState → List ℕ → FsResult ℕ × List ℕ × PipeState
unfolding fill bump notify
read_some s buffer =
    let count = min (length buffer) (length s.inner.bytes) in
    let (left, filled) = fill count s.inner.bytes buffer in
    let taken = bump (record s { inner = record (s.inner) { bytes = left } }) in
    (ok count, filled, if length s.inner.bytes == capacity then notify poll_write taken else taken)

-- The result, the caller's buffer and the state after the call.
unfoldable pub read : PipeEndpointKind → PipeState → List ℕ → FsResult ℕ × List ℕ × PipeState
unfolding read_some
read write_end s buffer = (err invalid_input, buffer, s)
read read_end s buffer =
    if not (length s.inner.bytes == 0)
    then read_some s buffer
    else if s.inner.writers == 0
    then (ok 0, buffer, s)
    else (err would_block, buffer, s)

-- How a round of the loop of `write` ends: by a return, or with `written` bytes written in all.
pub data Round : Type 0 where
  returned : FsResult ℕ → Round
  continued : ℕ → Round

-- One round at `written < buffer.len()`.
unfoldable pub write_step : PipeState → List ℕ → ℕ → Round × PipeState
unfolding bump notify
write_step s buffer written =
    let space = capacity - length s.inner.bytes in
    let chunk = min (length buffer - written) space in
    let bytes = s.inner.bytes ++ take chunk (drop written buffer) in
    if s.inner.readers == 0
    then (returned (if written == 0 then err broken_pipe else ok written), s)
    else if space == 0
    then (returned (if written == 0 then err would_block else ok written), s)
    else (
      continued (written + chunk),
      notify poll_read (bump (record s { inner = record (s.inner) { bytes = bytes } })),
    )

-- The loop, on fuel; `none` when the fuel has run out.
unfoldable pub write_loop : ℕ → PipeState → List ℕ → ℕ → Option (FsResult ℕ × PipeState)
write_loop zero s buffer written = none
write_loop (suc fuel) s buffer written =
    let (round, s') = write_step s buffer written in
    let rest : Option (FsResult ℕ × PipeState) = elim round [
      | returned r ↦ some (r, s')
      | continued w ↦ write_loop fuel s' buffer w
    ] in
    if ltb written (length buffer) then rest else some (ok written, s)

unfoldable pub write : PipeEndpointKind → PipeState → List ℕ → Option (FsResult ℕ × PipeState)
write read_end s buffer = some (err invalid_input, s)
write write_end s buffer = write_loop (length buffer + 1) s buffer 0

unfoldable pub poll : PipeEndpointKind → PipeState → PollEvents → PollEvents
poll read_end s events =
    union
      (if contains events poll_read && (not (length s.inner.bytes == 0) || s.inner.writers == 0)
        then poll_read
        else empty)
      (if s.inner.writers == 0 then poll_hup else empty)
poll write_end s events =
    union
      (if contains events poll_write
          && not (s.inner.readers == 0)
          && ltb (length s.inner.bytes) capacity
        then poll_write
        else empty)
      (if s.inner.readers == 0 then poll_error else empty)
