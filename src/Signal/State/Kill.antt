-- ===== src/Signal/State/Kill.antt =====
-- SIGKILL through any sequence of the operations of state.rs: it always ends the process.
use aether_kernel.Prelude.{
  ℕ, zero, suc, ◌+◌, ◌≡◌, refl, Bool, true, List, [], ◌∷◌, Option, some, none, arith, ==_self, set,
  get_or-set,
}
use aether_kernel.Signal.Abi.{
  SigSet, SignalInfo, SignalAction, SignalStack, kernel, pos, signal_max, sigkill, sig_dfl,
  default_for,
}
use aether_kernel.Signal.Core.{SignalDelivery, delivery_for, is_blocked, default_action}
use aether_kernel.Signal.State.{
  SignalState, Store, Actions, action_at, pending_at, new, no_action, reset_handlers, set_action,
  prepare_for_exec, fork_copy, clone_for_thread, set_blocked_mask, set_mask, enter_sigsuspend,
  leave_sigsuspend,
}
use aether_kernel.Signal.State.Queue.{
  has_deliverable, take_next_delivery, take_pending_in_mask, enqueue,
}
use aether_kernel.Signal.State.OnStack.{
  set_altstack, arm_altstack_for_signal, restore_after_sigreturn,
}
use aether_kernel.Signal.State.Slots.{enqueued_lem}
use aether_kernel.Signal.State.Valid.{
  Op, blocks, masks, execs, acts, enqueues, delivers, suspends, resumes, waits, stacks, returns,
  arms, clones, forks, apply, run, IsValid, run-IsValid,
}
use aether_kernel.Signal.State.Delivery.{slot, has_deliverable-slot}

-- SIGKILL has its default action in the table of a state.
abbrev pub KillsByDefault : SignalState × Store → Type 0
KillsByDefault (s, store) = (action_at (store.tables s.actions) sigkill).handler ≡ sig_dfl

reset_handlers-kill :
    (n k : ℕ) (actions : Actions)
    → (action_at actions sigkill).handler ≡ sig_dfl
    → (action_at (reset_handlers n k actions) sigkill).handler ≡ sig_dfl
unfolding reset_handlers default_for
reset_handlers-kill zero k actions h = h
reset_handlers-kill (suc n) k actions h =
    reset_handlers-kill n (k + 1) _
      (ground (arith, get_or-set actions k sigkill (default_for k) no_action))

-- The operations that stand under a test keep the address of the table.
same_table :
    (s : SignalState) (info : SignalInfo) (mask : SigSet) (stack : Option SignalStack) (sp : ℕ)
    → ((enqueue s info).actions ≡ s.actions)
      × ((take_pending_in_mask s mask).1.actions ≡ s.actions)
      × ((set_altstack s stack sp).1.actions ≡ s.actions)
      × ((arm_altstack_for_signal s).actions ≡ s.actions)
      × ((leave_sigsuspend s).actions ≡ s.actions)
unfolding enqueue take_pending_in_mask set_altstack arm_altstack_for_signal leave_sigsuspend
same_table s info mask stack sp =
    (ground arith, ground arith, ground arith, ground arith, ground arith)

apply-KillsByDefault :
    (store : Store) (s : SignalState) (op : Op)
    → KillsByDefault (s, store)
    → KillsByDefault (apply store s op)
unfolding apply prepare_for_exec set_action fork_copy clone_for_thread set_blocked_mask set_mask
    take_next_delivery enter_sigsuspend restore_after_sigreturn
apply-KillsByDefault store s (blocks mask) h = h
apply-KillsByDefault store s (masks how set) h = h
apply-KillsByDefault store s execs h =
    ground (arith, reset_handlers-kill signal_max 1 (store.tables s.actions) h)
apply-KillsByDefault store s (acts k a) h =
    ground (arith, get_or-set (store.tables s.actions) k sigkill a no_action)
apply-KillsByDefault store s (enqueues info) h = rw (same_table s info 0 none 0).0 h
apply-KillsByDefault store s (delivers supported) h = h
apply-KillsByDefault store s (suspends mask) h = h
apply-KillsByDefault store s resumes h = rw (same_table s (kernel 0 (pos 0)) 0 none 0).4 h
apply-KillsByDefault store s (waits mask) h = rw (same_table s (kernel 0 (pos 0)) mask none 0).1 h
apply-KillsByDefault store s (stacks stack sp) h =
    rw (same_table s (kernel 0 (pos 0)) 0 stack sp).2 h
apply-KillsByDefault store s (returns mask stack) h = h
apply-KillsByDefault store s arms h = rw (same_table s (kernel 0 (pos 0)) 0 none 0).3 h
apply-KillsByDefault store s clones h = h
apply-KillsByDefault store s forks h = rw (==_self store.next) h

run-KillsByDefault :
    (ops : List Op) (s : SignalState) (store : Store)
    → KillsByDefault (s, store)
    → KillsByDefault (run (s, store) ops)
unfolding run
run-KillsByDefault [] s store h = h
run-KillsByDefault (op ∷ ops) s store h =
    let (s', store') = apply store s op in
    run-KillsByDefault ops s' store' (apply-KillsByDefault store s op h)

new-KillsByDefault : (store : Store) → KillsByDefault (new store)
unfolding new
new-KillsByDefault store = rw (==_self store.next) refl

-- A SIGKILL in its slot, under the default action.
kill-exit :
    (blocked : SigSet) (a : SignalAction) (info : SignalInfo) (supported : Bool)
    → a.handler ≡ sig_dfl
    → info.signal ≡ sigkill
    → delivery_for blocked a info supported ≡ SignalDelivery.exit info
unfolding delivery_for is_blocked default_action
kill-exit blocked a info supported d h = ground arith

enqueue-slot :
    (s : SignalState) (info : SignalInfo)
    → IsValid s
    → info.signal ≡ sigkill
    → ((enqueue s info).actions ≡ s.actions)
      × (pending_at (enqueue s info).inner.pending sigkill ≡ some info)
unfolding enqueue
enqueue-slot s info v h =
    ground (arith, enqueued_lem s.inner.pending info sigkill (omega arith) v.queue.size)

-- From a new state on, whatever the operations, a SIGKILL that is enqueued then is deliverable, and
-- its delivery is the exit of the process: it is neither blocked, nor ignored, nor handled.
pub sigkill_exits :
    (store : Store) (ops : List Op) (info : SignalInfo) (supported : Bool)
    → info.signal ≡ sigkill
    → let (s, store') = run (new store) ops in
      (slot store' (enqueue s info) supported sigkill ≡ SignalDelivery.exit info)
      × (has_deliverable store' (enqueue s info) supported ≡ true)
sigkill_exits store ops info supported h =
    let (s, store') = run (new store) ops in
    let (table, pending) = enqueue-slot s info (run-IsValid store ops) h in
    let default = run-KillsByDefault ops (new store).0 (new store).1 (new-KillsByDefault store) in
    let exits : slot store' (enqueue s info) supported sigkill ≡ SignalDelivery.exit info =
      rw (pending, table) (kill-exit _ _ info supported default h) in
    (
      exits,
      has_deliverable-slot store' (enqueue s info) supported sigkill (omega arith) (omega arith)
          (rw exits refl),
    )
