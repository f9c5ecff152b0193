-- ===== src/Pipe/Interleave.antt =====
-- A pipe shared by any number of threads. Each step is what one of them does under the lock of
-- pipe.rs: an `open`, a `release`, a `read`, or one round of the loop of `write` at any position of
-- any buffer, so that the rounds of several writers and readers interleave freely.
use aether_kernel.Prelude.{
  ℕ, ◌-◌, ◌≤◌, ◌≡◌, refl, min, List, [], ◌++◌, arith, ◌==◌, length, take, drop, Bool-cases, inl,
  inr, length-append, length-take, length-drop, take-append-drop, take-take-append,
}
use mathlib.Core.List.{append-nil, append_assoc}
use aether_kernel.Vfs.{FsResult, ok, err}
use aether_kernel.Pipe.{
  PipeState, PipeEndpointKind, read_end, write_end, capacity, default, open_end, release, read,
  write_step, Round, returned, continued,
}
use aether_kernel.Pipe.Read.{read_lem}

-- The pipe, with the bytes that all writers have put in and all readers have got, in order.
pub record World : Type 0 where
  pub pipe : PipeState
  pub sent : List ℕ
  pub received : List ℕ

abbrev pub initial : World
initial = record { pipe = default; sent = []; received = [] }

-- The bytes of its buffer that a read reports.
abbrev pub got : FsResult ℕ → List ℕ → List ℕ
got (ok n) buffer = take n buffer
got (err e) buffer = []

-- The bytes of its buffer that a round of a write reports as written.
abbrev pub put : Round → ℕ → List ℕ → List ℕ
put (returned r) written buffer = []
put (continued w) written buffer = take (w - written) (drop written buffer)

pub data Step (w : World) : World → Type 0 where
  opens : (kind : PipeEndpointKind) → Step w (record w { pipe = open_end kind w.pipe })
  releases : (kind : PipeEndpointKind) → Step w (record w { pipe = release kind w.pipe })
  reads :
      (buffer : List ℕ)
      → Step w (record w {
        pipe = (read read_end w.pipe buffer).2;
        received =
            w.received ++ got (read read_end w.pipe buffer).0 (read read_end w.pipe buffer).1;
      })
  writes :
      (buffer : List ℕ) (written : ℕ)
      → Step w (record w {
        pipe = (write_step w.pipe buffer written).1;
        sent = w.sent ++ put (write_step w.pipe buffer written).0 written buffer;
      })

pub data Reach : World → Type 0 where
  start : Reach initial
  next : {w w' : World} → Reach w → Step w w' → Reach w'

pub record IsFifo (w : World) : Type 0 where
  pub in_order : w.received ++ w.pipe.inner.bytes ≡ w.sent
  pub bounded : length w.pipe.inner.bytes ≤ capacity

bytes-open_end :
    (kind : PipeEndpointKind) (s : PipeState) → (open_end kind s).inner.bytes ≡ s.inner.bytes
unfolding open_end
bytes-open_end read_end s = refl
bytes-open_end write_end s = refl

bytes-release :
    (kind : PipeEndpointKind) (s : PipeState) → (release kind s).inner.bytes ≡ s.inner.bytes
unfolding release
bytes-release read_end s = refl
bytes-release write_end s = refl

-- What a read reports is what has left the queue.
got-read :
    (s : PipeState) (buffer : List ℕ)
    → let (r, out, s') = read read_end s buffer in got r out ++ s'.inner.bytes ≡ s.inner.bytes
got-read s buffer = elim (Bool-cases (length s.inner.bytes == 0)) [
  | inl e ↦
      let z : min (length buffer) (length s.inner.bytes) ≡ 0 = ground arith in
      let facts = rw z at (read_lem s buffer) in ground (arith, facts)
  | inr e ↦ ground (
    arith,
    read_lem s buffer,
    take-take-append (min (length buffer) (length s.inner.bytes)) s.inner.bytes
        (drop (min (length buffer) (length s.inner.bytes)) buffer),
    take-append-drop (min (length buffer) (length s.inner.bytes)) s.inner.bytes,
  )
]

-- What a round of a write reports is what has joined the queue, which stays within bounds.
put-write_step :
    (s : PipeState) (buffer : List ℕ) (written : ℕ)
    → length s.inner.bytes ≤ capacity
    → let (r, s') = write_step s buffer written in
      (s.inner.bytes ++ put r written buffer ≡ s'.inner.bytes) × (length s'.inner.bytes ≤ capacity)
unfolding write_step
put-write_step s buffer written h = ground (
  arith,
  append-nil s.inner.bytes,
  length-append s.inner.bytes (
      take (min (length buffer - written) (capacity - length s.inner.bytes)) (drop written buffer)),
  length-take (min (length buffer - written) (capacity - length s.inner.bytes))
      (drop written buffer),
)

Step-IsFifo : {w w' : World} → Step w w' → IsFifo w → IsFifo w'
Step-IsFifo {w} (opens kind) f = ground (arith, bytes-open_end kind w.pipe)
Step-IsFifo {w} (releases kind) f = ground (arith, bytes-release kind w.pipe)
Step-IsFifo {w} (reads buffer) f = ground (
  arith,
  got-read w.pipe buffer,
  read_lem w.pipe buffer,
  length-drop (min (length buffer) (length w.pipe.inner.bytes)) w.pipe.inner.bytes,
  append_assoc w.received (got (read read_end w.pipe buffer).0 (read read_end w.pipe buffer).1)
      (read read_end w.pipe buffer).2.inner.bytes,
)
Step-IsFifo {w} (writes buffer written) f = ground (
  arith,
  put-write_step w.pipe buffer written f.bounded,
  append_assoc w.received w.pipe.inner.bytes
      (put (write_step w.pipe buffer written).0 written buffer),
)

-- However the calls of any number of readers and writers interleave, the bytes that readers have
-- got, followed by those still in the queue, are the bytes that writers have put in, in the same
-- order: none is lost, repeated or reordered. And the queue holds at most the capacity.
pub Reach-IsFifo : {w : World} → Reach w → IsFifo w
unfolding default
Reach-IsFifo start = record { in_order = refl; bounded = omega arith }
Reach-IsFifo (next r s) = Step-IsFifo s (Reach-IsFifo r)
