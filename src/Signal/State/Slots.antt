-- ===== src/Signal/State/Slots.antt =====
-- The table of pending signals of state.rs: which slots an operation changes, and its invariant.
use aether_kernel.Prelude.{
  ℕ, zero, suc, ◌+◌, ◌≤◌, ◌<◌, ◌≡◌, ◌⊎◌, inl, inr, refl, Bool, ◌&&◌, ◌||◌, Option, some, none, ◌==◌,
  if◌then◌else◌, length, set, arith, get_or-set, length-set, get_or-replicate, Bool-cases,
}
use aether_kernel.Signal.Abi.{
  SigSet, SignalInfo, signal_max, sigcont, sigstop, sigtstp, sigttin, sigttou,
}
use aether_kernel.Signal.State.{Actions, Pending, pending_at, nothing_pending}
use aether_kernel.Signal.State.Queue.{discard_opposite, take_from, take_masked, is_stop}

-- No stop signal is pending.
abbrev pub NoStop : Pending → Type 0
NoStop p =
    (pending_at p sigstop ≡ none)
    × (pending_at p sigtstp ≡ none)
    × (pending_at p sigttin ≡ none)
    × (pending_at p sigttou ≡ none)

-- The slot of a signal holds that signal or nothing.
abbrev pub IsTagged : ℕ → Option SignalInfo → Type 0
IsTagged i none = Unit {0}
IsTagged i (some info) = info.signal ≡ i

pub record IsQueue (p : Pending) : Type 0 where
  pub size : length p ≡ 65
  pub tagged : (i : ℕ) → IsTagged i (pending_at p i)
  pub apart : (pending_at p sigcont ≡ none) ⊎ NoStop p

pub nothing_pending-IsQueue : IsQueue nothing_pending
nothing_pending-IsQueue = record {
  size = refl;
  tagged = λ i. rw (get_or-replicate {A = Option SignalInfo} 65 i none) tt;
  apart = inl refl;
}

pub clear-IsQueue : (p : Pending) (k : ℕ) → IsQueue p → IsQueue (set p k none)
clear-IsQueue p k q = record {
  size = omega (arith, length-set p k none, q.size);
  tagged = λ i. rw (get_or-set p k i none none) (ground (arith, q.tagged i));
  apart = ground (
    arith,
    q.apart,
    get_or-set p k sigcont none none,
    get_or-set p k sigstop none none,
    get_or-set p k sigtstp none none,
    get_or-set p k sigttin none none,
    get_or-set p k sigttou none none,
  );
}

-- Clearing the slot of one signal.
clear_lem :
    (p : Pending) (k i : ℕ)
    → length p ≡ 65
    → k < 65
    → (pending_at (set p k none) i ≡ (if k == i then none else pending_at p i))
      × (length (set p k none) ≡ 65)
clear_lem p k i l h = ground (arith, get_or-set p k i none none, length-set p k none)

clear_stops_lem :
    (p : Pending) (i : ℕ)
    → length p ≡ 65
    → let p' = set (set (set (set p sigstop none) sigtstp none) sigttin none) sigttou none in
      (pending_at p' i ≡ (if is_stop i then none else pending_at p i)) × (length p' ≡ 65)
clear_stops_lem p i l =
    let p1 = set p sigstop none in
    let p2 = set p1 sigtstp none in
    let p3 = set p2 sigttin none in
    let f1 = clear_lem p sigstop i l (omega arith) in
    let f2 = clear_lem p1 sigtstp i f1.1 (omega arith) in
    let f3 = clear_lem p2 sigttin i f2.1 (omega arith) in
    let f4 = clear_lem p3 sigttou i f3.1 (omega arith) in ground (arith, f1, f2, f3, f4)

-- `enqueue` clears SIGCONT before a stop signal, the stop signals before SIGCONT, and nothing else.
pub discard_opposite_lem :
    (p : Pending) (k i : ℕ)
    → length p ≡ 65
    → (pending_at (discard_opposite k p) i ≡ (
        if (k == sigcont && is_stop i) || (is_stop k && i == sigcont)
        then none
        else pending_at p i))
      × (length (discard_opposite k p) ≡ 65)
unfolding discard_opposite
discard_opposite_lem p k i l = elim (Bool-cases (k == sigcont)) [
  | inl e ↦ rw e (ground (arith, clear_stops_lem p i l))
  | inr e ↦ rw e (ground (arith, clear_lem p sigcont i l))
]

-- The slots after `enqueue`.
pub enqueued_lem :
    (p : Pending) (info : SignalInfo) (i : ℕ)
    → info.signal ≤ signal_max
    → length p ≡ 65
    → pending_at (set (discard_opposite info.signal p) info.signal (some info)) i ≡ (
        if info.signal == i
        then some info
        else if (info.signal == sigcont && is_stop i) || (is_stop info.signal && i == sigcont)
        then none
        else pending_at p i)
enqueued_lem p info i h l =
    let facts = discard_opposite_lem p info.signal i l in
    ground
      (arith, facts, get_or-set (discard_opposite info.signal p) info.signal i (some info) none)

pub enqueued-IsQueue :
    (p : Pending) (info : SignalInfo)
    → info.signal ≤ signal_max
    → IsQueue p
    → IsQueue (set (discard_opposite info.signal p) info.signal (some info))
enqueued-IsQueue p info h q = record {
  size = omega (
    arith,
    length-set (discard_opposite info.signal p) info.signal (some info),
    (discard_opposite_lem p info.signal 0 q.size).1,
  );
  tagged = λ i. rw (enqueued_lem p info i h q.size) (ground (arith, q.tagged i));
  apart = ground (
    arith,
    q.apart,
    enqueued_lem p info sigcont h q.size,
    enqueued_lem p info sigstop h q.size,
    enqueued_lem p info sigtstp h q.size,
    enqueued_lem p info sigttin h q.size,
    enqueued_lem p info sigttou h q.size,
  );
}

module _ (actions : Actions) (blocked : SigSet) (handlers_supported : Bool) where
  pub take_from-IsQueue :
      (n signal : ℕ) (p : Pending)
      → IsQueue p
      → IsQueue (take_from actions blocked handlers_supported n signal p).1
  unfolding take_from
  take_from-IsQueue zero signal p q = q
  take_from-IsQueue (suc n) signal p q =
      ground (arith, take_from-IsQueue n (signal + 1) p q, clear-IsQueue p signal q)

pub take_masked-IsQueue :
    (masked n signal : ℕ) (p : Pending) → IsQueue p → IsQueue (take_masked masked n signal p).1
unfolding take_masked
take_masked-IsQueue masked zero signal p q = q
take_masked-IsQueue masked (suc n) signal p q =
    ground (arith, take_masked-IsQueue masked n (signal + 1) p q, clear-IsQueue p signal q)
