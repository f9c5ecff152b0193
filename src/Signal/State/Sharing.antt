-- ===== src/Signal/State/Sharing.antt =====
-- Which states of state.rs share a table of actions: threads do, forked processes do not.
use aether_kernel.Prelude.{
  ℕ, suc, zero, ◌<◌, ◌≡◌, refl, ◌||◌, not, some, ltb, ◌==◌, if◌then◌else◌, arith, get_elem?, set,
  length, List, [], ◌∷◌, ==_self,
}
use aether_kernel.Signal.Abi.{SignalAction, signal_max, sigkill, sigstop}
use aether_kernel.Signal.State.{SignalState, Store, clone_for_thread, fork_copy, set_action, action}

-- Every table that is in use lies below `next`.
abbrev pub IsAllocated : Store → SignalState → Type 0
IsAllocated store s = s.actions < store.next

get_elem?-set_self :
    (xs : List SignalAction) (i : ℕ) (v : SignalAction)
    → i < length xs
    → get_elem? (set xs i v) i ≡ some v
get_elem?-set_self [] i v h = absurd (omega arith)
get_elem?-set_self (x ∷ xs) zero v h = refl
get_elem?-set_self (x ∷ xs) (suc i) v h = get_elem?-set_self xs i v (omega arith)

-- An action that one thread sets is the one that its sibling finds. `set_action` refuses the
-- signals 0, SIGKILL, SIGSTOP and those above 64, and else succeeds.
pub action-set_action_thread :
    (store : Store) (s : SignalState) (signal : ℕ) (a : SignalAction)
    → length (store.tables s.actions) ≡ 65
    → let (done, store') = set_action store s signal a in
      (action store' (clone_for_thread s) signal ≡ (if done then some a else action store s signal))
      × (done
          ≡ not (signal == 0 || ltb signal_max signal || signal == sigkill || signal == sigstop))
unfolding action set_action clone_for_thread
action-set_action_thread store s signal a l =
    ground (arith, ==_self s.actions, get_elem?-set_self (store.tables s.actions) signal a)

-- After a fork the two processes find the same actions, and an action that one of them sets
-- afterwards does not change what the other finds.
pub action-set_action_fork :
    (store : Store) (s : SignalState) (signal k : ℕ) (a : SignalAction)
    → IsAllocated store s
    → let (child, forked) = fork_copy store s in
      (action forked child k ≡ action store s k)
      × (action forked s k ≡ action store s k)
      × (action (set_action forked s signal a).1 child k ≡ action store s k)
      × (action (set_action forked child signal a).1 s k ≡ action store s k)
unfolding action set_action fork_copy
action-set_action_fork store s signal k a h = ground (arith, ==_self store.next)
