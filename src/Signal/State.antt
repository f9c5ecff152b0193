-- ===== src/Signal/State.antt =====
-- aether-kernel/src/signal/state.rs: the signal state of a thread. The table of actions stands
-- behind an `Arc` that threads of one process share, so it lives in a store, and a state holds its
-- address. Version and waiters are the thread's own.
pub mod Slots
pub mod Valid
pub mod Delivery
pub mod Kill
pub mod Mask
pub mod Sharing
pub mod Queue
pub mod OnStack
pub mod Stack
use Prim.Native.Nat.{bit_and, bit_or}
use aether_kernel.Prelude.{
  ℕ, zero, suc, ◌+◌, ◌%◌, ◌^◌, Bool, true, false, ◌&&◌, ◌||◌, not, List, Option, some, none, ltb,
  ◌==◌, if◌then◌else◌, get_or, get_elem?, set, replicate,
}
use aether_kernel.Prelude.Bits.{bit_not64}
use aether_kernel.Vfs.{poll_read, PollEvents}
use aether_kernel.Vfs.Wait
use aether_kernel.Vfs.Wait.{WaitQueue}
use aether_kernel.Signal.Abi.{
  SigSet, SignalInfo, SignalAction, SignalStack, sigbit, signal_max, sigkill, sigstop, sigcont,
  sigtstp, sigttin, sigttou, sigchld, sig_dfl, sig_ign, sig_block, sig_unblock, sig_setmask,
  default_for,
}
use aether_kernel.Signal.Altstack
use aether_kernel.Signal.Altstack.{SysErr, perm, ss_onstack, ss_autodisarm, checked_add}
use aether_kernel.Signal.Core.{SignalDelivery, delivery_for, sanitize_mask, is_blocked}

abbrev pub Actions : Type 0
Actions = List SignalAction

abbrev pub Pending : Type 0
Pending = List (Option SignalInfo)

pub record SignalStateInner : Type 0 where
  pub blocked : SigSet
  pub pending : Pending
  pub suspend_mask : Option SigSet
  pub altstack : SignalStack

pub record SignalState : Type 0 where
  pub actions : ℕ
  pub inner : SignalStateInner
  pub waiters : WaitQueue
  pub version : ℕ

-- The tables of actions, by address; those from `next` on are free.
pub record Store : Type 0 where
  pub next : ℕ
  pub tables : ℕ → Actions

abbrev pub sa_onstack : ℕ
sa_onstack = 0x0800_0000

abbrev pub put_table : Store → ℕ → Actions → Store
put_table store a actions = record store {
  tables = λ b. if a == b then actions else store.tables b;
}

-- `Arc::new`
abbrev pub alloc : Store → Actions → ℕ × Store
alloc store actions = (
  store.next,
  record {
    next = store.next + 1;
    tables = λ b. if store.next == b then actions else store.tables b;
  },
)

abbrev pub no_action : SignalAction
no_action = record { handler = sig_dfl; flags = 0; restorer = 0; mask = 0 }

abbrev pub action_at : Actions → ℕ → SignalAction
action_at actions signal = get_or actions signal no_action

abbrev pub pending_at : Pending → ℕ → Option SignalInfo
pending_at pending signal = get_or pending signal none

abbrev nothing_pending : Pending
nothing_pending = replicate 65 none

unfoldable pub from_parts : ℕ → SignalStateInner → SignalState
unfolding Wait.new
from_parts actions inner = record {
  actions = actions;
  inner = inner;
  waiters = Wait.new;
  version = 1;
}

-- The loop of `new`, for the `n` signals from `signal` on.
unfoldable pub init_actions : ℕ → ℕ → Actions → Actions
unfolding default_for
init_actions zero signal actions = actions
init_actions (suc n) signal actions =
    init_actions n (signal + 1) (set actions signal (default_for signal))

unfoldable pub new : Store → SignalState × Store
unfolding from_parts init_actions Altstack.disabled
new store =
    let (address, store') = alloc store (init_actions signal_max 1 (replicate 65 no_action)) in
    (
      from_parts address (record {
        blocked = 0;
        pending = nothing_pending;
        suspend_mask = none;
        altstack = Altstack.disabled;
      }),
      store',
    )

unfoldable pub clone_for_thread : SignalState → SignalState
unfolding from_parts
clone_for_thread s = from_parts s.actions (record {
  blocked = s.inner.blocked;
  pending = nothing_pending;
  suspend_mask = none;
  altstack = s.inner.altstack;
})

unfoldable pub fork_copy : Store → SignalState → SignalState × Store
unfolding from_parts
fork_copy store s =
    let (address, store') = alloc store (store.tables s.actions) in
    (
      from_parts address (record {
        blocked = s.inner.blocked;
        pending = nothing_pending;
        suspend_mask = none;
        altstack = s.inner.altstack;
      }),
      store',
    )

bump : SignalState → SignalState
bump s = record s { version = (s.version + 1) % 2 ^ 64 }

abbrev with_inner : SignalState → SignalStateInner → SignalState
with_inner s inner = record s { inner = inner }

-- `set_blocked_mask` and `restore_mask`, which have the same body.
unfoldable pub set_blocked_mask : SignalState → SigSet → SignalState
set_blocked_mask s mask = with_inner s (record (s.inner) { blocked = sanitize_mask mask })

-- The loop of `prepare_for_exec` over the actions.
unfoldable pub reset_handlers : ℕ → ℕ → Actions → Actions
unfolding default_for
reset_handlers zero signal actions = actions
reset_handlers (suc n) signal actions =
    let handler = (action_at actions signal).handler in
    reset_handlers n (signal + 1) (
      if not (handler == sig_dfl) && not (handler == sig_ign)
      then set actions signal (default_for signal)
      else actions)

unfoldable pub prepare_for_exec : Store → SignalState → SignalState × Store
unfolding Altstack.disabled
prepare_for_exec store s = (
  with_inner s (record (s.inner) { suspend_mask = none; altstack = Altstack.disabled }),
  put_table store s.actions (reset_handlers signal_max 1 (store.tables s.actions)),
)

abbrev new_mask : ℕ → SigSet → SigSet → SigSet
new_mask how blocked set =
    if how == sig_block
    then bit_or blocked (sanitize_mask set)
    else if how == sig_unblock
    then bit_and blocked (bit_not64 (sanitize_mask set))
    else if how == sig_setmask
    then sanitize_mask set
    else blocked

unfoldable pub set_mask : SignalState → ℕ → SigSet → SignalState
set_mask s how set = with_inner s (record (s.inner) { blocked = new_mask how s.inner.blocked set })

unfoldable pub action : Store → SignalState → ℕ → Option SignalAction
action store s signal = get_elem? (store.tables s.actions) signal

unfoldable pub set_action : Store → SignalState → ℕ → SignalAction → Bool × Store
set_action store s signal new_action =
    if signal == 0 || ltb signal_max signal || signal == sigkill || signal == sigstop
    then (false, store)
    else (true, put_table store s.actions (set (store.tables s.actions) signal new_action))

unfoldable pub enter_sigsuspend : SignalState → SigSet → SignalState
enter_sigsuspend s mask =
    with_inner s
      (record (s.inner) { suspend_mask = some s.inner.blocked; blocked = sanitize_mask mask })

abbrev resume : SignalStateInner → Option SigSet → SignalStateInner
resume inner none = inner
resume inner (some previous) = record inner { suspend_mask = none; blocked = previous }

unfoldable pub leave_sigsuspend : SignalState → SignalState
leave_sigsuspend s = with_inner s (resume s.inner s.inner.suspend_mask)
