-- ===== src/EventFd/Tests.antt =====
-- Runs of eventfd.rs at small inputs, and the theorems at concrete counters.
use aether_kernel.Prelude.{ℕ, ◌+◌, ◌≡◌, refl, List, [], ◌∷◌, true, false, arith}
use aether_kernel.Prelude.Bytes.{to_ne_bytes}
use aether_kernel.Vfs.{err, would_block, invalid_input}
use aether_kernel.EventFd.{EventFdFile, create_eventfd, read}
use aether_kernel.EventFd.Counter.{IsValid, reads, writes, run, run_balance}

abbrev three : EventFdFile
three = record (create_eventfd 3 0) { counter = 3; semaphore = false }

abbrev semaphore : EventFdFile
semaphore = record three { semaphore = true }

abbrev eight : List ℕ
eight = 0 ∷ 0 ∷ 0 ∷ 0 ∷ 0 ∷ 0 ∷ 0 ∷ 0 ∷ []

create_semaphore : (create_eventfd 5 1).semaphore ≡ true
unfolding create_eventfd
create_semaphore = refl

read_short : (read three (0 ∷ [])).0 ≡ err invalid_input
unfolding read
read_short = refl

read_semaphore : (read semaphore eight).1 ≡ 1 ∷ 0 ∷ 0 ∷ 0 ∷ 0 ∷ 0 ∷ 0 ∷ 0 ∷ []
unfolding read to_ne_bytes
read_semaphore = refl

read_empty : (read (record three { counter = 0 }) eight).0 ≡ err would_block
unfolding read
read_empty = refl

run_balance_example :
    let (g, put, got) = run three (writes eight ∷ reads eight ∷ []) in
    (g.counter + got ≡ 3 + put) × IsValid g
run_balance_example = run_balance (writes eight ∷ reads eight ∷ []) three (omega arith)
