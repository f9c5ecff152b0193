-- ===== src/Kmsg/Tests.antt =====
-- Runs of aether-kmsg/src/lib.rs at a small log, and the theorems at it.
use aether_kernel.Prelude.{
  ℕ, ◌-◌, ◌<◌, ◌≡◌, refl, min, List, [], ◌∷◌, ◌++◌, some, take, drop, length, arith,
}
use aether_kernel.Vfs.{ok}
use aether_kernel.Kmsg.{
  KmsgBuffer, Level, new, push, snapshot, decimal, line, level_to_priority, render, render_records,
  read, size,
}
use aether_kernel.Kmsg.Ring.{Message, push_all, numbered, last, snapshot-push_all}
use aether_kernel.Kmsg.Reading.{read_all, read_lem, read_all_lem}

abbrev message : ℕ → Message
message c = record { level = Level.warn; ticks = 30; text = c ∷ [] }

abbrev three_messages : List Message
three_messages = message b'a' ∷ message b'b' ∷ message b'c' ∷ []

abbrev log : KmsgBuffer
log = push (new 2) Level.error 17 (b'x' ∷ [])

decimal_120 : decimal 20 120 ≡ b'1' ∷ b'2' ∷ b'0' ∷ []
unfolding decimal
decimal_120 = refl

-- The line "<3>,0,17;x".
log_line :
    render log ≡ b'<' ∷ b'3' ∷ b'>' ∷ b',' ∷ b'0' ∷ b',' ∷ b'1' ∷ b'7' ∷ b';' ∷ b'x' ∷ b'\n' ∷ []
unfolding render render_records line push new decimal level_to_priority
log_line = refl

ring_evicts : length (snapshot (push_all (new 2) three_messages)) ≡ 2
unfolding push_all push new
ring_evicts = refl

snapshot-push_all_example :
    snapshot (push_all (new 2) three_messages) ≡ last 2 (numbered 0 three_messages)
snapshot-push_all_example = snapshot-push_all 2 three_messages

read_lem_example : read log 8 (1 ∷ 2 ∷ []) ≡ (
  ok (min 2 (size log - 8)),
  take (min 2 (size log - 8)) (drop 8 (render log)) ++ drop (min 2 (size log - 8)) (1 ∷ 2 ∷ []),
)
read_lem_example = read_lem log 8 (1 ∷ 2 ∷ [])

size_log : size log - 8 < 4
unfolding size render render_records line push new decimal level_to_priority
size_log = omega arith

read_all_lem_example : read_all 4 log 8 (0 ∷ 0 ∷ []) ≡ some (drop 8 (render log))
read_all_lem_example = read_all_lem 4 log 8 (0 ∷ 0 ∷ []) (omega arith) size_log
