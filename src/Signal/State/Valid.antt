-- ===== src/Signal/State/Valid.antt =====
-- What holds of the signal state of a thread through any sequence of the operations of state.rs.
use aether_kernel.Prelude.{ℕ, refl, Bool, List, [], ◌∷◌, Option, some, none, arith}
use aether_kernel.Prelude.Bits.{test_bit-bit_or, test_bit-bit_and, bit_not64}
use aether_kernel.Signal.Abi.{SigSet, SignalInfo, SignalAction, SignalStack, signal_max}
use aether_kernel.Signal.Core.{sanitize_mask}
use aether_kernel.Signal.Masks.{IsClean, sanitize_mask-IsClean}
use aether_kernel.Signal.State.{
  SignalState, Store, clone_for_thread, fork_copy, new, set_blocked_mask, prepare_for_exec,
  set_mask, new_mask, set_action, enter_sigsuspend, leave_sigsuspend,
}
use aether_kernel.Signal.State.Queue.{enqueue, take_next_delivery, take_pending_in_mask}
use aether_kernel.Signal.State.OnStack.{
  set_altstack, restore_after_sigreturn, arm_altstack_for_signal,
}
use aether_kernel.Signal.State.Slots.{
  IsQueue, nothing_pending-IsQueue, enqueued-IsQueue, take_from-IsQueue, take_masked-IsQueue,
}

abbrev pub IsCleanOption : Option SigSet → Type 0
IsCleanOption none = Unit {0}
IsCleanOption (some mask) = IsClean mask

pub record IsValid (s : SignalState) : Type 0 where
  pub clean : IsClean s.inner.blocked
  pub suspended : IsCleanOption s.inner.suspend_mask
  pub queue : IsQueue s.inner.pending

-- The operations of a thread that change its state. `forked` and `cloned` go on with the new state.
pub data Op : Type 0 where
  blocks : SigSet → Op
  masks : ℕ → SigSet → Op
  execs : Op
  acts : ℕ → SignalAction → Op
  enqueues : SignalInfo → Op
  delivers : Bool → Op
  suspends : SigSet → Op
  resumes : Op
  waits : SigSet → Op
  stacks : Option SignalStack → ℕ → Op
  returns : SigSet → SignalStack → Op
  arms : Op
  clones : Op
  forks : Op

unfoldable pub apply : Store → SignalState → Op → SignalState × Store
apply store s (blocks mask) = (set_blocked_mask s mask, store)
apply store s (masks how set) = (set_mask s how set, store)
apply store s execs = prepare_for_exec store s
apply store s (acts signal a) = (s, (set_action store s signal a).1)
apply store s (enqueues info) = (enqueue s info, store)
apply store s (delivers supported) = ((take_next_delivery store s supported).1, store)
apply store s (suspends mask) = (enter_sigsuspend s mask, store)
apply store s resumes = (leave_sigsuspend s, store)
apply store s (waits mask) = ((take_pending_in_mask s mask).1, store)
apply store s (stacks stack sp) = ((set_altstack s stack sp).1, store)
apply store s (returns mask stack) = (restore_after_sigreturn s mask stack, store)
apply store s arms = (arm_altstack_for_signal s, store)
apply store s clones = (clone_for_thread s, store)
apply store s forks = fork_copy store s

unfoldable pub run : SignalState × Store → List Op → SignalState × Store
run (s, store) [] = (s, store)
run (s, store) (op ∷ ops) = run (apply store s op) ops

new_mask-IsClean : (how blocked set : ℕ) → IsClean blocked → IsClean (new_mask how blocked set)
new_mask-IsClean how blocked set c = ground (
  arith,
  sanitize_mask-IsClean set,
  test_bit-bit_or blocked (sanitize_mask set) 8,
  test_bit-bit_or blocked (sanitize_mask set) 18,
  test_bit-bit_and blocked (bit_not64 (sanitize_mask set)) 8,
  test_bit-bit_and blocked (bit_not64 (sanitize_mask set)) 18,
)

resume-IsValid : (s : SignalState) → IsValid s → IsValid (leave_sigsuspend s)
unfolding leave_sigsuspend
resume-IsValid s v = ground (arith, v.clean, v.suspended, v.queue)

enqueue-IsValid : (s : SignalState) (info : SignalInfo) → IsValid s → IsValid (enqueue s info)
unfolding enqueue
enqueue-IsValid s info v =
    ground (arith, v.clean, v.suspended, v.queue, enqueued-IsQueue s.inner.pending info)

waits-IsValid :
    (s : SignalState) (mask : SigSet) → IsValid s → IsValid (take_pending_in_mask s mask).1
unfolding take_pending_in_mask
waits-IsValid s mask v = ground (
  arith,
  v.clean,
  v.suspended,
  take_masked-IsQueue (sanitize_mask mask) signal_max 1 s.inner.pending v.queue,
)

stacks-IsValid :
    (s : SignalState) (stack : Option SignalStack) (sp : ℕ)
    → IsValid s
    → IsValid (set_altstack s stack sp).1
unfolding set_altstack
stacks-IsValid s none sp v = v
stacks-IsValid s (some stack) sp v = ground (arith, v.clean, v.suspended, v.queue)

arms-IsValid : (s : SignalState) → IsValid s → IsValid (arm_altstack_for_signal s)
unfolding arm_altstack_for_signal
arms-IsValid s v = ground (arith, v.clean, v.suspended, v.queue)

copy-IsValid :
    (store : Store) (s : SignalState)
    → IsValid s
    → IsValid (clone_for_thread s) × IsValid (fork_copy store s).0
unfolding clone_for_thread fork_copy
copy-IsValid store s v = (
  record { clean = v.clean; suspended = tt; queue = nothing_pending-IsQueue },
  record { clean = v.clean; suspended = tt; queue = nothing_pending-IsQueue },
)

apply-IsValid :
    (store : Store) (s : SignalState) (op : Op) → IsValid s → IsValid (apply store s op).0
unfolding apply set_blocked_mask set_mask prepare_for_exec take_next_delivery enter_sigsuspend
    restore_after_sigreturn
apply-IsValid store s (blocks mask) v = record {
  clean = sanitize_mask-IsClean mask;
  suspended = v.suspended;
  queue = v.queue;
}
apply-IsValid store s (masks how set) v = record {
  clean = new_mask-IsClean how s.inner.blocked set v.clean;
  suspended = v.suspended;
  queue = v.queue;
}
apply-IsValid store s execs v = record { clean = v.clean; suspended = tt; queue = v.queue }
apply-IsValid store s (acts signal a) v = v
apply-IsValid store s (enqueues info) v = enqueue-IsValid s info v
apply-IsValid store s (delivers supported) v = record {
  clean = v.clean;
  suspended = v.suspended;
  queue =
      take_from-IsQueue (store.tables s.actions) s.inner.blocked supported signal_max 1
        s.inner.pending v.queue;
}
apply-IsValid store s (suspends mask) v = record {
  clean = sanitize_mask-IsClean mask;
  suspended = v.clean;
  queue = v.queue;
}
apply-IsValid store s resumes v = resume-IsValid s v
apply-IsValid store s (waits mask) v = waits-IsValid s mask v
apply-IsValid store s (stacks stack sp) v = stacks-IsValid s stack sp v
apply-IsValid store s (returns mask stack) v = record {
  clean = sanitize_mask-IsClean mask;
  suspended = v.suspended;
  queue = v.queue;
}
apply-IsValid store s arms v = arms-IsValid s v
apply-IsValid store s clones v = (copy-IsValid store s v).0
apply-IsValid store s forks v = (copy-IsValid store s v).1

run_from-IsValid :
    (ops : List Op) (s : SignalState) (store : Store) → IsValid s → IsValid (run (s, store) ops).0
unfolding run
run_from-IsValid [] s store v = v
run_from-IsValid (op ∷ ops) s store v =
    let (s', store') = apply store s op in
    run_from-IsValid ops s' store' (apply-IsValid store s op v)

new-IsValid : (store : Store) → IsValid (new store).0
unfolding new
new-IsValid store = record { clean = (refl, refl); suspended = tt; queue = nothing_pending-IsQueue }

-- Whatever operations a thread goes through from a new state on, its own clones and forks included:
-- its mask, and the mask that a sigsuspend has put aside, never hold SIGKILL or SIGSTOP; each slot
-- of its pending signals is empty or holds the signal of that number; and SIGCONT and a stop signal
-- are never pending together.
pub run-IsValid : (store : Store) (ops : List Op) → IsValid (run (new store) ops).0
run-IsValid store ops = run_from-IsValid ops (new store).0 (new store).1 (new-IsValid store)
