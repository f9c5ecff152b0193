-- ===== src/Pipe/Read.antt =====
-- The read end of pipe.rs: what `PipeEndpoint::read` returns, copies and leaves in the queue.
use aether_kernel.Prelude.{
  ℕ, zero, suc, ◌≤◌, ◌≡◌, refl, min, List, [], ◌∷◌, ◌++◌, arith, ◌==◌, if◌then◌else◌, length, take,
  drop, Bool-cases, inl, inr,
}
use aether_kernel.Vfs.{ok, err, would_block}
use aether_kernel.Pipe.{PipeState, read_end, fill, read}

-- The loop moves the first `n` bytes of the queue to the front of the buffer.
pub fill_lem :
    (n : ℕ) (bytes buffer : List ℕ)
    → n ≤ length bytes
    → n ≤ length buffer
    → fill n bytes buffer ≡ (drop n bytes, take n bytes ++ drop n buffer)
unfolding fill
fill_lem zero bytes buffer h k = refl
fill_lem (suc n) [] buffer h k = absurd (omega arith)
fill_lem (suc n) (b ∷ bytes) [] h k = absurd (omega arith)
fill_lem (suc n) (b ∷ bytes) (slot ∷ buffer) h k =
    rw (fill_lem n bytes buffer (omega arith) (omega arith))

-- A read of the read end takes the first n bytes off the queue, where n is the smaller of the
-- lengths of the queue and of the buffer, and puts them, in order, at the front of the buffer, of
-- which it leaves the rest. It returns n if the queue was not empty; at an empty queue it returns
-- 0 if the pipe has no writers (end of file) and WouldBlock if it has. The counts of readers and
-- writers stay.
pub read_lem :
    (s : PipeState) (buffer : List ℕ)
    → let n = min (length buffer) (length s.inner.bytes) in
      let (r, out, s') = read read_end s buffer in
      (r ≡ (
        if length s.inner.bytes == 0
        then (if s.inner.writers == 0 then ok 0 else err would_block)
        else ok n))
      × (out ≡ take n s.inner.bytes ++ drop n buffer)
      × (s'.inner ≡ record {
        bytes = drop n s.inner.bytes;
        readers = s.inner.readers;
        writers = s.inner.writers;
      })
unfolding read
read_lem s buffer = elim (Bool-cases (length s.inner.bytes == 0)) [
  | inl e ↦
      let z : min (length buffer) (length s.inner.bytes) ≡ 0 = ground arith in rw z (ground arith)
  | inr e ↦
      ground (arith, fill_lem (min (length buffer) (length s.inner.bytes)) s.inner.bytes buffer)
]
