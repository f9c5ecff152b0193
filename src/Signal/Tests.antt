-- ===== src/Signal/Tests.antt =====
-- Runs of the signal code at small inputs, and the theorems at concrete states.
use aether_kernel.Prelude.{◌≡◌, refl, true, ◌&&◌, ◌||◌, not, [], ◌∷◌, some, none, ◌==◌, set, arith}
use aether_kernel.Prelude.Bits.{test_bit}
use aether_kernel.Signal.Abi.{
  SignalInfo, SignalAction, SignalStack, pos, sigbit, parse_sigaction, serialize_sigaction, sigkill,
  sig_block,
}
use aether_kernel.Signal.Altstack.{validate_new}
use aether_kernel.Signal.Core.{
  SignalDelivery, sanitize_mask, is_blocked, delivery_for, default_action,
}
use aether_kernel.Signal.Masks.{sanitize_mask_lem}
use aether_kernel.Signal.Codec.{parse-serialize_sigaction}
use aether_kernel.Signal.State.{
  SignalState, Store, new, fork_copy, action, set_action, enter_sigsuspend, leave_sigsuspend,
}
use aether_kernel.Signal.State.Queue.{enqueue, take_from, take_next_delivery, has_deliverable}
use aether_kernel.Signal.State.OnStack.{set_altstack}
use aether_kernel.Signal.State.Valid.{enqueues, masks, run, IsValid, run-IsValid}
use aether_kernel.Signal.State.Delivery.{slot, take_next_delivery-lowest}
use aether_kernel.Signal.State.Kill.{sigkill_exits}
use aether_kernel.Signal.State.Mask.{leave-enter_sigsuspend, chosen}
use aether_kernel.Signal.State.Sharing.{action-set_action_fork}
use aether_kernel.Signal.State.Stack.{expected, set_altstack_lem}

abbrev empty_store : Store
empty_store = record { next = 0; tables = λ a. [] }

abbrev fresh : SignalState
fresh = (new empty_store).0

abbrev store : Store
store = (new empty_store).1

-- SIGTERM, from the kernel.
abbrev term : SignalInfo
term = record { signal = 15; code = pos 0; status = pos 0; pid = pos 0; uid = 0 }

abbrev kill : SignalInfo
kill = record term { signal = 9 }

abbrev handled : SignalAction
handled = record { handler = 4096; flags = 4; restorer = 0; mask = 0 }

abbrev big_stack : SignalStack
big_stack = record { ss_sp = 65536; ss_flags = 0; pad = 0; ss_size = 8192 }

term_ends : (take_next_delivery store (enqueue fresh term) true).0 ≡ SignalDelivery.exit term
unfolding take_next_delivery take_from enqueue new delivery_for is_blocked default_action sigbit
term_ends = refl

sanitize_mask_lem_example :
    test_bit (sanitize_mask 511) 8 ≡ test_bit 511 8 && not (8 == 8 || 8 == 18)
sanitize_mask_lem_example = sanitize_mask_lem 511 8 (omega arith)

run-IsValid_example : IsValid (run (new empty_store) (enqueues term ∷ masks sig_block 511 ∷ [])).0
run-IsValid_example = run-IsValid empty_store (enqueues term ∷ masks sig_block 511 ∷ [])

-- A thread with SIGHUP pending.
abbrev hung_up : SignalState
hung_up = enqueue fresh (record term { signal = 1 })

take_next_delivery-lowest_example : take_next_delivery store hung_up true ≡ (
  slot store hung_up true 1,
  record hung_up { inner = record (hung_up.inner) { pending = set hung_up.inner.pending 1 none } },
)
unfolding enqueue new delivery_for is_blocked default_action sigbit
take_next_delivery-lowest_example =
    take_next_delivery-lowest store hung_up true 1 (omega arith) (omega arith)
      (λ j h l. absurd (omega arith)) refl

sigkill_exits_example :
    let (s, store') = run (new empty_store) (masks sig_block 511 ∷ []) in
    (slot store' (enqueue s kill) true sigkill ≡ SignalDelivery.exit kill)
    × (has_deliverable store' (enqueue s kill) true ≡ true)
sigkill_exits_example = sigkill_exits empty_store (masks sig_block 511 ∷ []) kill true refl

leave-enter_sigsuspend_example :
    (leave_sigsuspend (enter_sigsuspend fresh 6)
      ≡ record fresh { inner = record (fresh.inner) { suspend_mask = none } })
    × (test_bit (enter_sigsuspend fresh 6).inner.blocked 1 ≡ chosen 6 1)
leave-enter_sigsuspend_example = leave-enter_sigsuspend fresh 6 1 (omega arith)

action-set_action_fork_example :
    let (child, forked) = fork_copy store fresh in
    (action forked child 3 ≡ action store fresh 3)
    × (action forked fresh 3 ≡ action store fresh 3)
    × (action (set_action forked fresh 15 handled).1 child 3 ≡ action store fresh 3)
    × (action (set_action forked child 15 handled).1 fresh 3 ≡ action store fresh 3)
unfolding new
action-set_action_fork_example = action-set_action_fork store fresh 15 3 handled (omega arith)

set_altstack_lem_example :
    set_altstack fresh (some big_stack) 100 ≡ expected fresh big_stack 100 (validate_new big_stack)
set_altstack_lem_example = set_altstack_lem fresh big_stack 100

parse-serialize_sigaction_example : parse_sigaction (serialize_sigaction handled) ≡ some handled
parse-serialize_sigaction_example = parse-serialize_sigaction handled (omega arith)
