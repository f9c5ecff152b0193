-- ===== src/EventFd/Counter.antt =====
-- The counter of eventfd.rs through any sequence of reads and writes.
use aether_kernel.Prelude.{
  ℕ, ◌+◌, ◌≤◌, ◌<◌, ◌≡◌, false, List, [], ◌∷◌, ◌++◌, arith, length, take, drop, length-append,
}
use aether_kernel.Prelude.Bytes.{
  to_ne_bytes, from_ne_bytes, from-to_ne_bytes, take-to_ne_bytes, length-to_ne_bytes,
}
use aether_kernel.Vfs.{FsResult, ok, err}
use aether_kernel.EventFd.{EventFdFile, counter_max, taken, read, write}

abbrev pub IsValid : EventFdFile → Type 0
IsValid f = f.counter ≤ counter_max

pub data Call : Type 0 where
  reads : List ℕ → Call
  writes : List ℕ → Call

-- The value that a call adds to the counter, if it succeeds.
abbrev pub value_in : FsResult ℕ → List ℕ → ℕ
value_in (ok n) buffer = from_ne_bytes (take 8 buffer)
value_in (err e) buffer = 0

-- The calls in order: the file after them, and the sums of the values written and read.
pub run : EventFdFile → List Call → EventFdFile × ℕ × ℕ
run f [] = (f, 0, 0)
run f (reads buffer ∷ calls) =
    let (r, out, f') = read f buffer in
    let (g, put, got) = run f' calls in (g, put, value_in r out + got)
run f (writes buffer ∷ calls) =
    let (r, f') = write f buffer in
    let (g, put, got) = run f' calls in (g, value_in r buffer + put, got)

-- What one read does to the counter and the value in the buffer that it reports.
read_balance :
    (f : EventFdFile) (buffer : List ℕ)
    → IsValid f
    → let (r, out, f') = read f buffer in (f'.counter + value_in r out ≡ f.counter) × IsValid f'
unfolding read
read_balance f buffer v =
    ground (arith, take-to_ne_bytes 8 (taken f) (drop 8 buffer), from-to_ne_bytes 8 (taken f))

write_balance :
    (f : EventFdFile) (buffer : List ℕ)
    → IsValid f
    → let (r, f') = write f buffer in (f'.counter ≡ f.counter + value_in r buffer) × IsValid f'
unfolding write
write_balance f buffer v = ground arith

-- Through any sequence of reads and writes of buffers of any size, the counter stays at most
-- u64::MAX - 1, and nothing is lost or made up: the values that reads put in their buffers and the
-- counter that is left add up to the counter at the start and the values of the successful writes.
pub run_balance :
    (calls : List Call) (f : EventFdFile)
    → IsValid f
    → let (g, put, got) = run f calls in (g.counter + got ≡ f.counter + put) × IsValid g
unfolding run
run_balance [] f v = omega arith
run_balance (reads buffer ∷ calls) f v =
    let (r, out, f') = read f buffer in
    ground (arith, read_balance f buffer v, run_balance calls (read f buffer).2)
run_balance (writes buffer ∷ calls) f v =
    ground (arith, write_balance f buffer v, run_balance calls (write f buffer).1)

-- The value v written to an eventfd that is not a semaphore and holds c, where c + v is at most
-- u64::MAX - 1 and not 0, is read back with c added: the read succeeds, fills the first eight bytes
-- of the buffer with c + v, leaves the rest of it and resets the counter to 0.
pub read-write :
    (f : EventFdFile) (v : ℕ) (rest buffer : List ℕ)
    → f.semaphore ≡ false
    → 0 < f.counter + v
    → f.counter + v ≤ counter_max
    → 8 ≤ length buffer
    → let (w, f') = write f (to_ne_bytes 8 v ++ rest) in
      let (r, out, g) = read f' buffer in
      (w ≡ ok 8)
      × (r ≡ ok 8)
      × (out ≡ to_ne_bytes 8 (f.counter + v) ++ drop 8 buffer)
      × (g.counter ≡ 0)
unfolding read write
read-write f v rest buffer s p q b = ground (arith, value, long, from-to_ne_bytes 8 v)
  where
    value : from_ne_bytes (take 8 (to_ne_bytes 8 v ++ rest)) ≡ v
    value = rw take-to_ne_bytes (from-to_ne_bytes 8 v (omega arith))

    long : length (to_ne_bytes 8 v ++ rest) ≡ 8 + length rest
    long = rw length-append (omega (arith, length-to_ne_bytes 8 v))
