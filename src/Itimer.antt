-- ===== src/Itimer.antt =====
-- aether-kernel/src/process/itimer.rs: the real interval timers of the processes. The registry keeps
-- the timers by process and, in step with them, the processes by deadline. It stands behind a lock, so
-- each operation takes the registry and returns the new one.
pub mod Index
pub mod Expiry
pub mod Setting
mod Tests
use aether_kernel.Prelude.{
  ℕ, zero, suc, ◌+◌, ◌-◌, ◌*◌, ◌/◌, ◌^◌, min, Bool, true, false, not, ◌&&◌, List, [], ◌∷◌, ◌++◌,
  Option, some, none, ltb, leb, ◌==◌, if◌then◌else◌,
}
use aether_kernel.Prelude.Maps.{BTreeMap, get, insert, remove}
use aether_kernel.Signal.Abi.{SignalInfo, kernel, pos}

abbrev pub u64_max : ℕ
u64_max = 2 ^ 64 - 1

abbrev pub sigalrm : ℕ
sigalrm = 14

abbrev pub Pid : Type 0
Pid = ℕ

abbrev pub BTreeSet : Type 0
BTreeSet = BTreeMap Unit

pub record RealTimerState : Type 0 where
  pub deadline_nanos : Option ℕ
  pub interval_nanos : ℕ

-- `next_deadline` is the global that holds the first deadline, and u64::MAX when there is none.
pub record RealTimerRegistry : Type 0 where
  pub timers : BTreeMap RealTimerState
  pub deadlines : BTreeMap BTreeSet
  pub next_real_timer_deadline : ℕ

abbrev pub first_key : BTreeMap BTreeSet → ℕ
first_key [] = u64_max
first_key ((deadline, waiters) ∷ deadlines) = deadline

unfoldable pub publish_next_deadline : RealTimerRegistry → RealTimerRegistry
publish_next_deadline r = record r { next_real_timer_deadline = first_key r.deadlines }

-- The waiters that are left at a deadline, whose entry goes with the last of them.
abbrev pub put_waiters : ℕ → BTreeSet → BTreeMap BTreeSet → BTreeMap BTreeSet
put_waiters deadline [] deadlines = remove deadline deadlines
put_waiters deadline (w ∷ waiters) deadlines = insert deadline (w ∷ waiters) deadlines

abbrev pub remove_waiter : Pid → ℕ → Option BTreeSet → BTreeMap BTreeSet → BTreeMap BTreeSet
remove_waiter tgid deadline none deadlines = deadlines
remove_waiter tgid deadline (some waiters) deadlines =
    put_waiters deadline (remove tgid waiters) deadlines

unfoldable pub remove_deadline : BTreeMap BTreeSet → Pid → ℕ → BTreeMap BTreeSet
remove_deadline deadlines tgid deadline =
    remove_waiter tgid deadline (get deadline deadlines) deadlines

abbrev pub or_default : Option BTreeSet → BTreeSet
or_default none = []
or_default (some waiters) = waiters

unfoldable pub add_deadline : BTreeMap BTreeSet → Pid → ℕ → BTreeMap BTreeSet
add_deadline deadlines tgid deadline =
    insert deadline (insert tgid tt (or_default (get deadline deadlines))) deadlines

unfoldable pub next_deadline : RealTimerRegistry → Option ℕ
next_deadline r =
    if r.next_real_timer_deadline == u64_max then none else some r.next_real_timer_deadline

abbrev is_due : Option ℕ → ℕ → Bool
is_due none now = false
is_due (some deadline) now = leb deadline now

unfoldable pub deadline_due : RealTimerRegistry → ℕ → Bool
unfolding next_deadline
deadline_due r current_nanos = is_due (next_deadline r) current_nanos

abbrev pub saturating_add : ℕ → ℕ → ℕ
saturating_add a b = min (a + b) u64_max

-- The time left until a deadline.
abbrev pub remaining : Option ℕ → ℕ → ℕ
remaining none now = 0
remaining (some deadline) now = deadline - now

abbrev pub timer_value : Option RealTimerState → ℕ → ℕ × ℕ
timer_value none now = (0, 0)
timer_value (some timer) now = (remaining timer.deadline_nanos now, timer.interval_nanos)

unfoldable pub read_real_timer : RealTimerRegistry → Pid → ℕ → ℕ × ℕ
read_real_timer r tgid now_nanos = timer_value (get tgid r.timers) now_nanos

-- The deadline of a timer, if it has one, is taken out of the index.
abbrev pub unindex_deadline : Pid → Option ℕ → BTreeMap BTreeSet → BTreeMap BTreeSet
unindex_deadline tgid none deadlines = deadlines
unindex_deadline tgid (some deadline) deadlines = remove_deadline deadlines tgid deadline

abbrev pub unindex : Pid → Option RealTimerState → BTreeMap BTreeSet → BTreeMap BTreeSet
unindex tgid none deadlines = deadlines
unindex tgid (some timer) deadlines = unindex_deadline tgid timer.deadline_nanos deadlines

abbrev pub index_deadline : Pid → Option ℕ → BTreeMap BTreeSet → BTreeMap BTreeSet
index_deadline tgid none deadlines = deadlines
index_deadline tgid (some deadline) deadlines = add_deadline deadlines tgid deadline

abbrev pub new_deadline : ℕ → ℕ → Option ℕ
new_deadline now value = if value == 0 then none else some (saturating_add now value)

-- The values before the call, and the registry after it.
unfoldable pub set_real_timer : RealTimerRegistry → Pid → ℕ → ℕ → ℕ → (ℕ × ℕ) × RealTimerRegistry
unfolding publish_next_deadline
set_real_timer r tgid now_nanos value_nanos interval_nanos =
    let old = get tgid r.timers in
    let deadlines = unindex tgid old r.deadlines in
    let deadline = new_deadline now_nanos value_nanos in
    let new_timer : RealTimerState = record {
      deadline_nanos = deadline;
      interval_nanos = interval_nanos;
    } in
    (
      timer_value old now_nanos,
      publish_next_deadline (
          if value_nanos == 0 && interval_nanos == 0
          then record r { timers = remove tgid r.timers; deadlines = deadlines }
          else record r {
            timers = insert tgid new_timer r.timers;
            deadlines = index_deadline tgid deadline deadlines;
          }),
    )

unfoldable pub thread_group_reaped : RealTimerRegistry → Pid → RealTimerRegistry
unfolding publish_next_deadline
thread_group_reaped r tgid = publish_next_deadline (record r {
  timers = remove tgid r.timers;
  deadlines = unindex tgid (get tgid r.timers) r.deadlines;
})

-- The next deadline of a periodic timer after `current`, computed on 128 bits, which the sum of
-- two 64-bit numbers and a third does not fill.
unfoldable pub next_period : ℕ → ℕ → ℕ → ℕ
next_period deadline current interval =
    min (deadline + ((current - deadline) / interval + 1) * interval) u64_max

abbrev pub has_deadline : ℕ → Option ℕ → Bool
has_deadline deadline none = false
has_deadline deadline (some d) = d == deadline

-- A timer at its deadline: whether it fires, and the registry after it.
abbrev pub fire : ℕ → ℕ → Pid → ℕ → RealTimerRegistry → RealTimerRegistry
fire current deadline tgid interval r =
    if interval == 0
    then record r { timers = remove tgid r.timers }
    else (let next = next_period deadline current interval in
        record r {
          timers =
              insert tgid (record { deadline_nanos = some next; interval_nanos = interval })
                r.timers;
          deadlines = add_deadline r.deadlines tgid next;
        })

abbrev pub expire_timer :
    ℕ → ℕ → Pid → Option RealTimerState → RealTimerRegistry → Bool × RealTimerRegistry
expire_timer current deadline tgid none r = (false, r)
expire_timer current deadline tgid (some timer) r =
    if has_deadline deadline timer.deadline_nanos
    then (true, fire current deadline tgid timer.interval_nanos r)
    else (false, r)

abbrev pub Expired : Type 0
Expired = List (Pid × SignalInfo)

-- The loop over the processes that wait for one deadline.
unfoldable pub expire_all : ℕ → ℕ → BTreeSet → RealTimerRegistry → Expired × RealTimerRegistry
expire_all current deadline [] r = ([], r)
expire_all current deadline ((tgid, u) ∷ tgids) r =
    let (fired, r') = expire_timer current deadline tgid (get tgid r.timers) r in
    let (expired, r'') = expire_all current deadline tgids r' in
    (if fired then (tgid, kernel sigalrm (pos 0)) ∷ expired else expired, r'')

-- One round of the outer loop; `none` where it breaks off.
unfoldable pub expire_first :
    ℕ → BTreeMap BTreeSet → RealTimerRegistry → Option (Expired × RealTimerRegistry)
expire_first current [] r = none
expire_first current ((deadline, tgids) ∷ deadlines) r =
    if ltb current deadline
    then none
    else some
        (expire_all current deadline tgids (record r { deadlines = remove deadline r.deadlines }))

abbrev pub prepend :
    Expired → Option (Expired × RealTimerRegistry) → Option (Expired × RealTimerRegistry)
prepend expired none = none
prepend expired (some (more, r)) = some (expired ++ more, r)

abbrev pub publish_result :
    Option (Expired × RealTimerRegistry) → Option (Expired × RealTimerRegistry)
publish_result none = none
publish_result (some (expired, r)) = some (expired, publish_next_deadline r)

-- The outer loop within a number of rounds; `none` when it still runs after them.
unfoldable pub expire_rounds : ℕ → ℕ → RealTimerRegistry → Option (Expired × RealTimerRegistry)
unfolding expire_first
expire_rounds zero current r = none
expire_rounds (suc fuel) current r = elim (expire_first current r.deadlines r) [
  | none ↦ some ([], r)
  | some (expired, r') ↦ prepend expired (expire_rounds fuel current r')
]

unfoldable pub take_expired : ℕ → RealTimerRegistry → ℕ → Option (Expired × RealTimerRegistry)
take_expired fuel r current_nanos = publish_result (expire_rounds fuel current_nanos r)
