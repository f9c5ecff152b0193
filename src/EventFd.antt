-- ===== src/EventFd.antt =====
-- aether-kernel/src/fs/eventfd.rs: the eventfd counter. `EventFdFile` is shared by all who hold the
-- descriptor; each operation takes it and returns the new one. A byte is a number below 256.
pub mod Counter
pub mod Poll
mod Tests
use aether_kernel.Prelude.{
  ℕ, ◌+◌, ◌-◌, ◌%◌, ◌^◌, Bool, true, false, ◌&&◌, not, List, ◌++◌, ltb, ◌==◌, if◌then◌else◌, length,
  take, drop,
}
use aether_kernel.Prelude.Bits.{test_bit}
use aether_kernel.Prelude.Bytes.{to_ne_bytes, from_ne_bytes}
use aether_kernel.Vfs.{
  FsResult, ok, err, invalid_input, would_block, PollEvents, poll_read, poll_write, empty, contains,
  union,
}
use aether_kernel.Vfs.Wait
use aether_kernel.Vfs.Wait.{WaitQueue}
use Prim.Native.Nat.{bit_and}

abbrev pub efd_semaphore : ℕ
efd_semaphore = 0x1

abbrev pub u64_max : ℕ
u64_max = 2 ^ 64 - 1

abbrev pub counter_max : ℕ
counter_max = 2 ^ 64 - 2

pub record EventFdFile : Type 0 where
  pub counter : ℕ
  pub semaphore : Bool
  pub version : ℕ
  pub waiters : WaitQueue

unfoldable pub create_eventfd : ℕ → ℕ → EventFdFile
unfolding Wait.new
create_eventfd initval flags = record {
  counter = initval;
  semaphore = not (bit_and flags efd_semaphore == 0);
  version = 1;
  waiters = Wait.new;
}

bump : EventFdFile → EventFdFile
bump f = record f { version = (f.version + 1) % 2 ^ 64 }

notify : PollEvents → EventFdFile → EventFdFile
unfolding Wait.notify
notify events f = record f { waiters = Wait.notify f.waiters events }

-- The value that a read takes from the counter.
abbrev pub taken : EventFdFile → ℕ
taken f = if f.semaphore then 1 else f.counter

-- The result, the caller's buffer and the file after the call.
unfoldable pub read : EventFdFile → List ℕ → FsResult ℕ × List ℕ × EventFdFile
unfolding bump notify
read f buffer =
    if ltb (length buffer) 8
    then (err invalid_input, buffer, f)
    else if f.counter == 0
    then (err would_block, buffer, f)
    else (let was_full = f.counter == counter_max in
        let f' = bump (record f { counter = f.counter - taken f }) in
        (
          ok 8,
          to_ne_bytes 8 (taken f) ++ drop 8 buffer,
          if was_full then notify poll_write f' else f',
        ))

-- A write of at least eight bytes that hold `value`.
write_value : EventFdFile → ℕ → FsResult ℕ × EventFdFile
unfolding bump notify
write_value f value =
    if value == u64_max
    then (err invalid_input, f)
    else if ltb (counter_max - f.counter) value
    then (err would_block, f)
    else if value == 0
    then (ok 8, f)
    else (
      ok 8,
      (let f' = bump (record f { counter = f.counter + value }) in
          if f.counter == 0 then notify poll_read f' else f'),
    )

unfoldable pub write : EventFdFile → List ℕ → FsResult ℕ × EventFdFile
unfolding write_value
write f buffer =
    if ltb (length buffer) 8
    then (err invalid_input, f)
    else write_value f (from_ne_bytes (take 8 buffer))

unfoldable pub poll : EventFdFile → PollEvents → PollEvents
poll f events =
    union (if contains events poll_read && not (f.counter == 0) then poll_read else empty)
      (if contains events poll_write && ltb f.counter counter_max then poll_write else empty)
