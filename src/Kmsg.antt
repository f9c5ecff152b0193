-- ===== src/Kmsg.antt =====
-- aether-kernel/libs/aether-kmsg/src/lib.rs: the kernel log, a ring of records, and the file that
-- shows it. The arguments that `push` formats are their text here, and the ticks of the clock an
-- argument. A text is the list of its bytes.
pub mod Ring
pub mod Reading
mod Tests
use aether_kernel.Prelude.{
  ℕ, zero, suc, ◌+◌, ◌-◌, ◌/◌, ◌%◌, ◌^◌, min, max, Bool, true, false, List, [], ◌∷◌, ◌++◌, ltb, leb,
  ◌==◌, if◌then◌else◌, length, take, drop,
}
use aether_kernel.Vfs.{FsResult, ok}
use aether_kernel.Vfs.Path.Str.{Text}

abbrev pub default_kmsg_records : ℕ
default_kmsg_records = 256

-- Of the log crate.
pub data Level : Type 0 where
  error warn info debug trace : Level

pub record KmsgRecord : Type 0 where
  pub sequence : ℕ
  pub level : Level
  pub timestamp_ticks : ℕ
  pub text : Text

-- The state of a buffer and its capacity, which stays.
pub record KmsgBuffer : Type 0 where
  pub capacity : ℕ
  pub next_sequence : ℕ
  pub records : List KmsgRecord

unfoldable pub new : ℕ → KmsgBuffer
new capacity = record { capacity = max capacity 1; next_sequence = 0; records = [] }

abbrev pub default_buffer : KmsgBuffer
default_buffer = record { capacity = default_kmsg_records; next_sequence = 0; records = [] }

-- A full ring loses its oldest record.
abbrev pub make_room : ℕ → List KmsgRecord → List KmsgRecord
make_room capacity records = if length records == capacity then drop 1 records else records

unfoldable pub push : KmsgBuffer → Level → ℕ → Text → KmsgBuffer
push b level ticks text = record b {
  next_sequence = (b.next_sequence + 1) % 2 ^ 64;
  records =
      make_room b.capacity b.records
      ++ ((record {
        sequence = b.next_sequence;
        level = level;
        timestamp_ticks = ticks;
        text = text;
      })
          ∷ []);
}

abbrev pub snapshot : KmsgBuffer → List KmsgRecord
snapshot b = b.records

unfoldable pub level_to_priority : Level → ℕ
level_to_priority Level.error = 3
level_to_priority Level.warn = 4
level_to_priority Level.info = 6
level_to_priority Level.debug = 7
level_to_priority Level.trace = 7

-- A number of at most `n` decimal digits, as `{}` writes it.
unfoldable pub decimal : ℕ → ℕ → Text
decimal zero a = []
decimal (suc n) a =
    let rest = decimal n (a / 10) in (if ltb a 10 then [] else rest) ++ ((b'0' + a % 10) ∷ [])

-- A line of the file; a u64 has at most twenty digits.
unfoldable pub line : KmsgRecord → Text
unfolding level_to_priority decimal
line r =
    (b'<' ∷ decimal 20 (level_to_priority r.level))
    ++ (b'>' ∷ b',' ∷ decimal 20 r.sequence)
    ++ (b',' ∷ decimal 20 r.timestamp_ticks)
    ++ (b';' ∷ r.text)
    ++ (b'\n' ∷ [])

unfoldable pub render_records : List KmsgRecord → Text
unfolding line
render_records [] = []
render_records (r ∷ records) = line r ++ render_records records

unfoldable pub render : KmsgBuffer → Text
unfolding render_records
render b = render_records (snapshot b)

-- `copy_from_slice` of `count` bytes to the start of the buffer, and the result.
abbrev pub copy_out : Text → ℕ → ℕ → Text → FsResult ℕ × Text
copy_out bytes offset count buffer = (ok count, take count (drop offset bytes) ++ drop count buffer)

unfoldable pub read : KmsgBuffer → ℕ → Text → FsResult ℕ × Text
read b offset buffer =
    let bytes = render b in
    if leb (length bytes) offset
    then (ok 0, buffer)
    else copy_out bytes offset (min (length buffer) (length bytes - offset)) buffer

unfoldable pub size : KmsgBuffer → ℕ
size b = length (render b)
