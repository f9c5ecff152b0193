-- ===== src/Signal/State/Queue.antt =====
-- aether-kernel/src/signal/state.rs: the pending signals of a thread, from `enqueue` to the
-- `take_…` functions.
use Prim.Native.Nat.{bit_and}
use aether_kernel.Prelude.{
  ℕ, zero, suc, ◌+◌, Bool, true, false, ◌&&◌, ◌||◌, not, [], ◌∷◌, Option, some, none, ltb, ◌==◌,
  if◌then◌else◌, set,
}
use aether_kernel.Vfs.{poll_read}
use aether_kernel.Vfs.Wait
use aether_kernel.Signal.Abi.{
  SigSet, SignalInfo, SignalAction, sigbit, signal_max, sigstop, sigcont, sigtstp, sigttin, sigttou,
  sigchld,
}
use aether_kernel.Signal.Core.{SignalDelivery, delivery_for, sanitize_mask, is_blocked}
use aether_kernel.Signal.State.{
  SignalState, Store, Actions, Pending, action_at, pending_at, with_inner, bump,
}

abbrev pub is_stop : ℕ → Bool
is_stop signal = signal == sigstop || signal == sigtstp || signal == sigttin || signal == sigttou

-- What `enqueue` clears: stop signals before SIGCONT, and SIGCONT before a stop signal.
unfoldable pub discard_opposite : ℕ → Pending → Pending
discard_opposite signal pending =
    if signal == sigcont
    then set (set (set (set pending sigstop none) sigtstp none) sigttin none) sigttou none
    else if is_stop signal
    then set pending sigcont none
    else pending

unfoldable pub enqueue : SignalState → SignalInfo → SignalState
unfolding discard_opposite bump Wait.notify
enqueue s info =
    if info.signal == 0 || ltb signal_max info.signal
    then s
    else (let pending =
          set (discard_opposite info.signal s.inner.pending) info.signal (some info) in
        let s' = bump (with_inner s (record (s.inner) { pending = pending })) in
        record s' { waiters = Wait.notify s'.waiters poll_read })

abbrev unblocked : SigSet → Option SignalInfo → Bool
unblocked blocked none = false
unblocked blocked (some info) = not (is_blocked blocked info.signal)

-- `iter().flatten().any(…)`
unfoldable pub any_pending : (Option SignalInfo → Bool) → Pending → Bool
any_pending test [] = false
any_pending test (o ∷ pending) = let rest = any_pending test pending in test o || rest

unfoldable pub has_unblocked_pending : SignalState → Bool
unfolding any_pending
has_unblocked_pending s = any_pending (unblocked s.inner.blocked) s.inner.pending

abbrev pub is_none : SignalDelivery → Bool
is_none SignalDelivery.none = true
is_none _ = false

-- What a slot of the table of pending signals would deliver.
abbrev pub slot_delivery : SigSet → SignalAction → Bool → Option SignalInfo → SignalDelivery
slot_delivery blocked action handlers_supported none = SignalDelivery.none
slot_delivery blocked action handlers_supported (some info) =
    delivery_for blocked action info handlers_supported

module _ (actions : Actions) (blocked : SigSet) (handlers_supported : Bool) where
  -- The loop of `has_deliverable`, for the `n` signals from `signal` on.
  unfoldable pub deliverable_from : ℕ → ℕ → Pending → Bool
  deliverable_from zero signal pending = false
  deliverable_from (suc n) signal pending =
      let rest = deliverable_from n (signal + 1) pending in
      if not (
        is_none (
          slot_delivery blocked (action_at actions signal) handlers_supported
            (pending_at pending signal)))
      then true
      else rest

  -- The loop of `take_next_delivery`.
  unfoldable pub take_from : ℕ → ℕ → Pending → SignalDelivery × Pending
  take_from zero signal pending = (SignalDelivery.none, pending)
  take_from (suc n) signal pending =
      let rest = take_from n (signal + 1) pending in
      let delivery =
        slot_delivery blocked (action_at actions signal) handlers_supported
          (pending_at pending signal) in
      if is_none delivery then rest else (delivery, set pending signal none)

unfoldable pub has_deliverable : Store → SignalState → Bool → Bool
has_deliverable store s handlers_supported =
    deliverable_from (store.tables s.actions) s.inner.blocked handlers_supported signal_max 1
      s.inner.pending

unfoldable pub take_next_delivery : Store → SignalState → Bool → SignalDelivery × SignalState
take_next_delivery store s handlers_supported =
    let (delivery, pending) =
      take_from (store.tables s.actions) s.inner.blocked handlers_supported signal_max 1
        s.inner.pending in
    (delivery, with_inner s (record (s.inner) { pending = pending }))

-- A pending signal that the mask asks for.
abbrev pub in_mask : SigSet → Option SignalInfo → Bool
in_mask masked none = false
in_mask masked (some info) =
    let bit = sigbit info.signal in not (bit == 0) && not (bit_and masked bit == 0)

unfoldable pub has_pending_in_mask : SignalState → SigSet → Bool
unfolding any_pending
has_pending_in_mask s mask = any_pending (in_mask (sanitize_mask mask)) s.inner.pending

-- The loop of `take_pending_in_mask`.
unfoldable pub take_masked : SigSet → ℕ → ℕ → Pending → Option SignalInfo × Pending
take_masked masked zero signal pending = (none, pending)
take_masked masked (suc n) signal pending =
    let rest = take_masked masked n (signal + 1) pending in
    if in_mask masked (pending_at pending signal)
    then (pending_at pending signal, set pending signal none)
    else rest

abbrev bump_if : Option SignalInfo → SignalState → SignalState
bump_if none s = s
bump_if (some info) s = bump s

unfoldable pub take_pending_in_mask : SignalState → SigSet → Option SignalInfo × SignalState
unfolding bump
take_pending_in_mask s mask =
    let (found, pending) = take_masked (sanitize_mask mask) signal_max 1 s.inner.pending in
    (found, bump_if found (with_inner s (record (s.inner) { pending = pending })))

abbrev is_sigchld : Option SignalInfo → Bool
is_sigchld none = false
is_sigchld (some info) = info.signal == sigchld

unfoldable pub has_waitable_child_signal : SignalState → Bool
has_waitable_child_signal s = is_sigchld (pending_at s.inner.pending sigchld)
