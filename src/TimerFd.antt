-- ===== src/TimerFd.antt =====
-- aether-kernel/src/fs/timerfd.rs: timers that are read as files. The registry stands behind a lock;
-- an operation on a file takes the registry with the file and returns both. The time of its clock, and
-- the nanoseconds of the two values of a `LinuxItimerSpec`, are arguments. The index of a class of
-- deadlines is like that of the real timers, and so are the functions on it.
pub mod Ticks
pub mod Indexed
mod Tests
use Prim.Native.Nat.{bit_and}
use aether_kernel.Prelude.{
  ℕ, zero, suc, ◌+◌, ◌-◌, ◌*◌, ◌/◌, ◌%◌, ◌^◌, min, Bool, true, false, not, ◌&&◌, ◌||◌, List, [],
  ◌∷◌, ◌++◌, Option, none, some, ltb, leb, ◌==◌, if◌then◌else◌, length, drop,
}
use aether_kernel.Prelude.Bytes.{to_ne_bytes}
use aether_kernel.Prelude.Maps.{BTreeMap, insert, remove}
use aether_kernel.Itimer.{
  u64_max, BTreeSet, first_key, add_deadline, remove_deadline, saturating_add,
}
use aether_kernel.Vfs.{
  FsResult, ok, err, invalid_input, would_block, PollEvents, poll_read, empty, contains, union,
}
use aether_kernel.Vfs.Wait
use aether_kernel.Vfs.Wait.{WaitQueue}

abbrev pub tfd_timer_abstime : ℕ
tfd_timer_abstime = 1

abbrev pub tfd_timer_cancel_on_set : ℕ
tfd_timer_cancel_on_set = 2

pub data TimerFdClock : Type 0 where
  realtime_clock monotonic_clock boottime_clock realtime_alarm_clock boottime_alarm_clock :
      TimerFdClock

pub data DeadlineClass : Type 0 where
  monotonic_class realtime_class : DeadlineClass

abbrev pub deadline_class : TimerFdClock → DeadlineClass
deadline_class realtime_clock = realtime_class
deadline_class realtime_alarm_clock = realtime_class
deadline_class monotonic_clock = monotonic_class
deadline_class boottime_clock = monotonic_class
deadline_class boottime_alarm_clock = monotonic_class

abbrev pub is_realtime : TimerFdClock → Bool
is_realtime realtime_clock = true
is_realtime realtime_alarm_clock = true
is_realtime monotonic_clock = false
is_realtime boottime_clock = false
is_realtime boottime_alarm_clock = false

-- The two global deadlines are fields here.
pub record TimerFdRegistry : Type 0 where
  pub next_id : ℕ
  pub timers : BTreeSet
  pub monotonic : BTreeMap BTreeSet
  pub realtime : BTreeMap BTreeSet
  pub next_monotonic_deadline : ℕ
  pub next_realtime_deadline : ℕ

pub record TimerFdState : Type 0 where
  pub interval_ns : ℕ
  pub expires_ns : ℕ
  pub ticks : ℕ
  pub cancel_on_set : Bool

pub record TimerFdFile : Type 0 where
  pub id : ℕ
  pub clock : TimerFdClock
  pub inner : TimerFdState
  pub version : ℕ
  pub waiters : WaitQueue

abbrev pub refresh_next_deadlines : TimerFdRegistry → TimerFdRegistry
refresh_next_deadlines r = record r {
  next_monotonic_deadline = first_key r.monotonic;
  next_realtime_deadline = first_key r.realtime;
}

abbrev pub deadlines : DeadlineClass → TimerFdRegistry → BTreeMap BTreeSet
deadlines monotonic_class r = r.monotonic
deadlines realtime_class r = r.realtime

abbrev pub with_deadlines : DeadlineClass → BTreeMap BTreeSet → TimerFdRegistry → TimerFdRegistry
with_deadlines monotonic_class m r = record r { monotonic = m }
with_deadlines realtime_class m r = record r { realtime = m }

abbrev pub insert_deadline : TimerFdRegistry → DeadlineClass → ℕ → ℕ → TimerFdRegistry
insert_deadline r class deadline_ns id =
    refresh_next_deadlines
      (with_deadlines class (add_deadline (deadlines class r) id deadline_ns) r)

abbrev pub drop_deadline : TimerFdRegistry → DeadlineClass → ℕ → ℕ → TimerFdRegistry
drop_deadline r class deadline_ns id =
    refresh_next_deadlines
      (with_deadlines class (remove_deadline (deadlines class r) id deadline_ns) r)

-- A new file, whose identifier the registry knows.
unfoldable pub create : TimerFdRegistry → TimerFdClock → TimerFdFile × TimerFdRegistry
create r clock = (
  record {
    id = r.next_id;
    clock = clock;
    inner = record { interval_ns = 0; expires_ns = 0; ticks = 0; cancel_on_set = false };
    version = 1;
    waiters = Wait.new;
  },
  record r { next_id = saturating_add r.next_id 1; timers = insert r.next_id tt r.timers },
)

abbrev pub periods_due : TimerFdState → ℕ → ℕ
periods_due s now = (now - s.expires_ns) / s.interval_ns + 1

-- Whether the timer was due, with the registry and the state afterwards.
unfoldable pub refresh_due_locked :
    TimerFdRegistry → ℕ → TimerFdClock → TimerFdState → ℕ → Bool × TimerFdRegistry × TimerFdState
refresh_due_locked r id clock s now =
    if (s.expires_ns == 0) || ltb now s.expires_ns
    then (false, r, s)
    else (let class = deadline_class clock in
        let r' = drop_deadline r class s.expires_ns id in
        if s.interval_ns == 0
        then (true, r', record s { ticks = saturating_add s.ticks 1; expires_ns = 0 })
        else (let expires =
              saturating_add s.expires_ns (min (periods_due s now * s.interval_ns) u64_max) in
            (
              true,
              insert_deadline r' class expires id,
              record s { ticks = saturating_add s.ticks (periods_due s now); expires_ns = expires },
            )))

-- The interval and the time left, in nanoseconds.
abbrev pub spec_at : TimerFdState → ℕ → ℕ × ℕ
spec_at s now = (s.interval_ns, s.expires_ns - now)

unfoldable pub get_time :
    TimerFdRegistry → TimerFdFile → ℕ → (ℕ × ℕ) × TimerFdRegistry × TimerFdFile
get_time r f now =
    let (changed, r', s) = refresh_due_locked r f.id f.clock f.inner now in
    (spec_at s now, r', record f { inner = s })

abbrev pub new_expiry : Bool → ℕ → ℕ → ℕ
new_expiry absolute now value =
    if value == 0 then 0 else if absolute then value else saturating_add now value

abbrev pub is_set : ℕ → ℕ → Bool
is_set flags bit = not (bit_and flags bit == 0)

-- The deadline of a timer, if it has one, taken out of the registry.
unfoldable pub disarm : TimerFdRegistry → ℕ → TimerFdClock → TimerFdState → TimerFdRegistry
disarm r id clock s =
    if s.expires_ns == 0 then r else drop_deadline r (deadline_class clock) s.expires_ns id

abbrev pub armed_state : ℕ → ℕ → ℕ → ℕ → TimerFdState
armed_state flags interval value now = record {
  interval_ns = interval;
  expires_ns = new_expiry (is_set flags tfd_timer_abstime) now value;
  ticks = 0;
  cancel_on_set = is_set flags tfd_timer_cancel_on_set;
}

-- A timer whose deadline, if it has one, is put in the registry or has come already.
unfoldable pub arm :
    TimerFdRegistry → ℕ → TimerFdClock → TimerFdState → ℕ → TimerFdRegistry × TimerFdState
arm r id clock s now =
    if s.expires_ns == 0
    then (r, s)
    else if leb s.expires_ns now
    then (let (due, r', s') = refresh_due_locked r id clock s now in (r', s'))
    else (insert_deadline r (deadline_class clock) s.expires_ns id, s)

bump : TimerFdFile → TimerFdFile
bump f = record f { version = (f.version + 1) % 2 ^ 64 }

abbrev pub notified : Bool → WaitQueue → WaitQueue
notified false q = q
notified true q = Wait.notify q poll_read

-- The old values, or `none` for the error EINVAL.
unfoldable pub set_time :
    TimerFdRegistry → TimerFdFile → ℕ → ℕ → ℕ → ℕ → Option (ℕ × ℕ) × TimerFdRegistry × TimerFdFile
unfolding bump
set_time r f flags interval value now =
    if is_set flags tfd_timer_cancel_on_set
      && (not (is_set flags tfd_timer_abstime) || not (is_realtime f.clock))
    then (none, r, f)
    else (let (changed, r', s) = refresh_due_locked r f.id f.clock f.inner now in
        let (r'', s') =
          arm (disarm r' f.id f.clock s) f.id f.clock (armed_state flags interval value now) now in
        (
          some (spec_at s now),
          r'',
          record (bump (record f { inner = s' })) {
            waiters = notified (not (s'.ticks == 0)) f.waiters;
          },
        ))

unfoldable pub read :
    TimerFdRegistry → TimerFdFile → List ℕ → ℕ → FsResult ℕ × List ℕ × TimerFdRegistry × TimerFdFile
unfolding bump
read r f buffer now =
    if ltb (length buffer) 8
    then (err invalid_input, buffer, r, f)
    else (let (changed, r', s) = refresh_due_locked r f.id f.clock f.inner now in
        if s.ticks == 0 then (err would_block, buffer, r', record f { inner = s }) else (
          ok 8,
          to_ne_bytes 8 s.ticks ++ drop 8 buffer,
          r',
          bump (record f { inner = record s { ticks = 0 } }),
        ))

unfoldable pub poll :
    TimerFdRegistry → TimerFdFile → PollEvents → ℕ → PollEvents × TimerFdRegistry × TimerFdFile
poll r f events now =
    let (changed, r', s) = refresh_due_locked r f.id f.clock f.inner now in
    (
      if not (s.ticks == 0) && contains events poll_read then union empty poll_read else empty,
      r',
      record f { inner = s },
    )

-- The end of a file: its deadline and its identifier leave the registry.
unfoldable pub drop_file : TimerFdRegistry → TimerFdFile → TimerFdRegistry
drop_file r f =
    let r' = disarm r f.id f.clock f.inner in
    refresh_next_deadlines (record r' { timers = remove f.id r'.timers })
