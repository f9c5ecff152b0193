-- ===== src/Itimer/Tests.antt =====
-- Runs of itimer.rs at small times, and the theorems at a concrete registry.
use aether_kernel.Prelude.{◌≡◌, refl, true, [], some, arith}
use aether_kernel.Prelude.Maps.{get, insert}
use aether_kernel.Itimer.{
  RealTimerRegistry, Expired, u64_max, set_real_timer, thread_group_reaped, take_expired,
  publish_next_deadline, add_deadline, deadline_due, next_deadline, next_period,
}
use aether_kernel.Itimer.Index.{waits, IsIndexed}
use aether_kernel.Itimer.Setting.{set_real_timer-IsIndexed}
use aether_kernel.Itimer.Expiry.Result.{IsTaken, take_expired_lem}

abbrev no_timers : RealTimerRegistry
no_timers = record { timers = []; deadlines = []; next_real_timer_deadline = u64_max }

no_timers-IsIndexed : IsIndexed no_timers
unfolding waits get
no_timers-IsIndexed = (tt, λ d t. refl)

-- Process 7 has a timer for 110 that repeats every 25.
abbrev one_timer : RealTimerRegistry
one_timer = (set_real_timer no_timers 7 100 10 25).1

one_timer-IsIndexed : IsIndexed one_timer
one_timer-IsIndexed = (set_real_timer-IsIndexed no_timers 7 100 10 25 no_timers-IsIndexed).0

due_at_110 : deadline_due one_timer 110 ≡ true
unfolding deadline_due next_deadline set_real_timer publish_next_deadline add_deadline get insert
due_at_110 = refl

read_after_expiry : next_period 110 200 25 ≡ 210
unfolding next_period
read_after_expiry = refl

set_real_timer-IsIndexed_example :
    IsIndexed (set_real_timer one_timer 8 100 0 0).1 × IsIndexed (thread_group_reaped one_timer 8)
set_real_timer-IsIndexed_example = set_real_timer-IsIndexed one_timer 8 100 0 0 one_timer-IsIndexed

take_expired_lem_example :
    (expired : Expired) × (r' : RealTimerRegistry) × (take_expired 2 one_timer 200
      ≡ some (expired, r'))
    × IsTaken 200 one_timer expired r'
unfolding set_real_timer publish_next_deadline add_deadline get insert
take_expired_lem_example =
    take_expired_lem 2 200 one_timer (omega arith) one_timer-IsIndexed (omega arith)
