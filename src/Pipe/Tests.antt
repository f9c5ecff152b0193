-- ===== src/Pipe/Tests.antt =====
-- Runs of pipe.rs at small inputs, and the theorems at concrete pipes.
use aether_kernel.Prelude.{◌≡◌, refl, [], ◌∷◌, ◌++◌, some}
use aether_kernel.Vfs.{ok, err, broken_pipe, invalid_input}
use aether_kernel.Pipe.{
  PipeState, read_end, write_end, default, open_end, read, write, write_loop, write_step,
}
use aether_kernel.Pipe.Read.{read_lem}
use aether_kernel.Pipe.Write.{write_lem, outcome, after}
use aether_kernel.Pipe.Interleave.{
  World, initial, got, put, start, next, opens, writes, reads, IsFifo, Reach-IsFifo,
}

-- Both ends are open, and two bytes are waiting.
abbrev two_bytes : PipeState
two_bytes = record default { inner = record { bytes = 7 ∷ 8 ∷ []; readers = 1; writers = 1 } }

-- No writer is left.
abbrev closed : PipeState
closed = record default { inner = record { bytes = []; readers = 1; writers = 0 } }

open_both :
    (open_end write_end (open_end read_end default)).inner
    ≡ record { bytes = []; readers = 1; writers = 1 }
unfolding open_end default
open_both = refl

read_part : (read read_end two_bytes (0 ∷ [])).0 ≡ ok 1
unfolding read
read_part = refl

read_wrong_end : (read write_end two_bytes (0 ∷ [])).0 ≡ err invalid_input
unfolding read
read_wrong_end = refl

read_at_end : (read read_end closed (0 ∷ [])).0 ≡ ok 0
unfolding read
read_at_end = refl

write_no_reader : write write_end default (1 ∷ []) ≡ some (err broken_pipe, default)
unfolding write write_loop write_step default
write_no_reader = refl

read_lem_example :
    let (r, out, s') = read read_end two_bytes (0 ∷ 0 ∷ 9 ∷ []) in
    (r ≡ ok 2)
    × (out ≡ 7 ∷ 8 ∷ 9 ∷ [])
    × (s'.inner ≡ record { bytes = []; readers = 1; writers = 1 })
read_lem_example = read_lem two_bytes (0 ∷ 0 ∷ 9 ∷ [])

write_lem_example :
    write write_end two_bytes (1 ∷ 2 ∷ [])
    ≡ some (outcome two_bytes (1 ∷ 2 ∷ []), after two_bytes (1 ∷ 2 ∷ []))
write_lem_example = write_lem two_bytes (1 ∷ 2 ∷ [])

outcome-two_bytes : outcome two_bytes (1 ∷ 2 ∷ []) ≡ ok 2
unfolding outcome
outcome-two_bytes = refl

abbrev opened : World
opened = record initial { pipe = open_end read_end default }

abbrev written_to : World
written_to = record opened {
  pipe = (write_step opened.pipe (4 ∷ 5 ∷ []) 0).1;
  sent = opened.sent ++ put (write_step opened.pipe (4 ∷ 5 ∷ []) 0).0 0 (4 ∷ 5 ∷ []);
}

abbrev read_from : World
read_from = record written_to {
  pipe = (read read_end written_to.pipe (0 ∷ [])).2;
  received =
      written_to.received
      ++ got (read read_end written_to.pipe (0 ∷ [])).0 (read read_end written_to.pipe (0 ∷ [])).1;
}

Reach-IsFifo_example : IsFifo read_from
Reach-IsFifo_example = Reach-IsFifo (
    next {w = written_to} (next {w = opened} (next start (opens read_end)) (writes (4 ∷ 5 ∷ []) 0))
      (reads (0 ∷ [])))

read_from_state :
    (read_from.received ≡ 4 ∷ [])
    × (read_from.sent ≡ 4 ∷ 5 ∷ [])
    × (read_from.pipe.inner.bytes ≡ 5 ∷ [])
unfolding open_end default read write_step
read_from_state = (refl, refl, refl)
