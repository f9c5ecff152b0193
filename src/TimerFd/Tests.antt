-- ===== src/TimerFd/Tests.antt =====
-- Runs of timerfd.rs on a timer, and the theorems on them.
use aether_kernel.Prelude.{
  ℕ, ◌≡◌, refl, false, List, [], ◌∷◌, ◌++◌, some, arith, ◌==◌, if◌then◌else◌, drop,
}
use aether_kernel.Prelude.Bytes.{to_ne_bytes}
use aether_kernel.Prelude.Maps.{get, insert}
use aether_kernel.Itimer.{u64_max, add_deadline}
use aether_kernel.Itimer.Index.{waits}
use aether_kernel.Vfs.{ok, err, would_block}
use aether_kernel.Vfs.Wait
use aether_kernel.TimerFd.{
  TimerFdRegistry, TimerFdState, TimerFdFile, monotonic_clock, create, refresh_due_locked, disarm,
  arm, set_time, read,
}
use aether_kernel.TimerFd.Ticks.{IsRefreshed, read-IsRefreshed}
use aether_kernel.TimerFd.Indexed.{
  IsIndexed, IsWorldStep, Call, set_call, read_call, get_call, run, run-IsWorldStep,
}

abbrev empty_registry : TimerFdRegistry
empty_registry = record {
  next_id = 1;
  timers = [];
  monotonic = [];
  realtime = [];
  next_monotonic_deadline = u64_max;
  next_realtime_deadline = u64_max;
}

-- A timer set at 100 to expire at 105 and every 10 after that, with its registry.
abbrev armed_timer : TimerFdFile
armed_timer = record {
  id = 1;
  clock = monotonic_clock;
  inner = record { interval_ns = 10; expires_ns = 105; ticks = 0; cancel_on_set = false };
  version = 2;
  waiters = record { next_id = 1; registrations = []; wakes = [] };
}

abbrev armed_registry : TimerFdRegistry
armed_registry = record {
  next_id = 2;
  timers = (1, tt) ∷ [];
  monotonic = (105, (1, tt) ∷ []) ∷ [];
  realtime = [];
  next_monotonic_deadline = 105;
  next_realtime_deadline = u64_max;
}

armed_by_set_time :
    (let (f, r) = create empty_registry monotonic_clock in set_time r f 0 10 5 100)
    ≡ (some (0, 0), armed_registry, armed_timer)
unfolding create set_time refresh_due_locked disarm arm add_deadline insert get Wait.new
armed_by_set_time = refl

three_ticks :
    (read armed_registry armed_timer (9 ∷ 9 ∷ 9 ∷ 9 ∷ 9 ∷ 9 ∷ 9 ∷ 9 ∷ 4 ∷ []) 130).1
    ≡ (3 ∷ 0 ∷ 0 ∷ 0 ∷ 0 ∷ 0 ∷ 0 ∷ 0 ∷ 4 ∷ [])
unfolding read refresh_due_locked to_ne_bytes
three_ticks = refl

abbrev eight_bytes : List ℕ
eight_bytes = 0 ∷ 0 ∷ 0 ∷ 0 ∷ 0 ∷ 0 ∷ 0 ∷ 0 ∷ []

read-IsRefreshed_example :
    let (result, buffer', r', f') = read armed_registry armed_timer eight_bytes 130 in
    (s : TimerFdState) × IsRefreshed armed_timer.inner 130 s
    × (result ≡ (if s.ticks == 0 then err would_block else ok 8))
    × (buffer'
        ≡ (if s.ticks == 0 then eight_bytes else to_ne_bytes 8 s.ticks ++ drop 8 eight_bytes))
    × (f'.inner.ticks ≡ 0)
    × (f'.inner.expires_ns ≡ s.expires_ns)
read-IsRefreshed_example =
    read-IsRefreshed armed_registry armed_timer eight_bytes 130 (omega arith) (omega arith)
      (omega arith)

abbrev some_calls : List Call
some_calls =
    read_call eight_bytes 130 ∷ set_call 0 0 50 140 ∷ get_call 150 ∷ read_call eight_bytes 200 ∷ []

armed-IsIndexed : IsIndexed armed_registry 1 monotonic_clock armed_timer.inner
unfolding waits get
armed-IsIndexed d = ground arith

run-IsWorldStep_example :
    IsWorldStep (armed_registry, armed_timer) (run (armed_registry, armed_timer) some_calls)
run-IsWorldStep_example = run-IsWorldStep some_calls armed_registry armed_timer armed-IsIndexed
