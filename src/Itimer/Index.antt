-- ===== src/Itimer/Index.antt =====
-- The index of itimer.rs: which processes wait for which deadline.
use aether_kernel.Prelude.{
  ℕ, ◌≡◌, refl, Bool, true, false, not, ◌&&◌, ◌||◌, [], ◌∷◌, Option, some, none, ◌==◌,
  if◌then◌else◌, arith,
}
use aether_kernel.Prelude.Maps.{
  BTreeMap, get, insert, remove, get-insert, get-remove, IsOrdered, IsOrdered-insert,
  IsOrdered-remove,
}
use aether_kernel.Itimer.{
  RealTimerState, RealTimerRegistry, BTreeSet, Pid, remove_waiter, remove_deadline, add_deadline,
  or_default, put_waiters, has_deadline,
}

abbrev pub present : Option {0} Unit → Bool
present none = false
present (some u) = true

-- Whether a process waits for a deadline.
unfoldable pub waits : BTreeMap BTreeSet → ℕ → Pid → Bool
waits deadlines d t = present (get t (or_default (get d deadlines)))

-- Whether the deadline of a timer is this one.
abbrev pub timer_deadline : ℕ → Option RealTimerState → Bool
timer_deadline d none = false
timer_deadline d (some timer) = has_deadline d timer.deadline_nanos

-- A process waits for exactly the deadline of its timer, and the deadlines are in order.
abbrev pub IsIndexed : RealTimerRegistry → Type 0
IsIndexed r =
    IsOrdered r.deadlines × ((d t : ℕ) → waits r.deadlines d t ≡ timer_deadline d (get t r.timers))

pub waits-add_deadline :
    (deadlines : BTreeMap BTreeSet) (t e d u : ℕ)
    → waits (add_deadline deadlines t e) d u ≡ (e == d && t == u) || waits deadlines d u
unfolding waits add_deadline
waits-add_deadline deadlines t e d u = ground (
  arith,
  get-insert e d (insert t tt (or_default (get e deadlines))) deadlines,
  get-insert t u tt (or_default (get e deadlines)),
)

get-put_waiters :
    (d e : ℕ) (waiters : BTreeSet) (deadlines : BTreeMap BTreeSet)
    → or_default (get d (put_waiters e waiters deadlines))
      ≡ (if e == d then waiters else or_default (get d deadlines))
get-put_waiters d e [] deadlines = ground (arith, get-remove e d deadlines)
get-put_waiters d e (w ∷ waiters) deadlines = ground (arith, get-insert e d (w ∷ waiters) deadlines)

waits-remove_waiter :
    (deadlines : BTreeMap BTreeSet) (t e d u : ℕ) (o : Option BTreeSet)
    → get e deadlines ≡ o
    → present (get u (or_default (get d (remove_waiter t e o deadlines))))
      ≡ not (e == d && t == u) && present (get u (or_default (get d deadlines)))
unfolding get
waits-remove_waiter deadlines t e d u none p = ground (arith, p)
waits-remove_waiter deadlines t e d u (some waiters) p =
    ground (arith, p, get-put_waiters d e (remove t waiters) deadlines, get-remove t u waiters)

pub waits-remove_deadline :
    (deadlines : BTreeMap BTreeSet) (t e d u : ℕ)
    → waits (remove_deadline deadlines t e) d u ≡ not (e == d && t == u) && waits deadlines d u
unfolding waits remove_deadline
waits-remove_deadline deadlines t e d u =
    waits-remove_waiter deadlines t e d u (get e deadlines) refl

pub waits-remove :
    (deadlines : BTreeMap BTreeSet) (e d u : ℕ)
    → waits (remove e deadlines) d u ≡ not (e == d) && waits deadlines d u
unfolding waits get
waits-remove deadlines e d u = ground (arith, get-remove e d deadlines)

pub IsOrdered-add_deadline :
    (deadlines : BTreeMap BTreeSet) (t e : ℕ)
    → IsOrdered deadlines
    → IsOrdered (add_deadline deadlines t e)
unfolding add_deadline
IsOrdered-add_deadline deadlines t e h =
    IsOrdered-insert e (insert t tt (or_default (get e deadlines))) deadlines h

IsOrdered-put_waiters :
    (e : ℕ) (waiters : BTreeSet) (deadlines : BTreeMap BTreeSet)
    → IsOrdered deadlines
    → IsOrdered (put_waiters e waiters deadlines)
IsOrdered-put_waiters e [] deadlines h = IsOrdered-remove e deadlines h
IsOrdered-put_waiters e (w ∷ waiters) deadlines h = IsOrdered-insert e (w ∷ waiters) deadlines h

IsOrdered-remove_waiter :
    (deadlines : BTreeMap BTreeSet) (t e : ℕ) (o : Option BTreeSet)
    → IsOrdered deadlines
    → IsOrdered (remove_waiter t e o deadlines)
IsOrdered-remove_waiter deadlines t e none h = h
IsOrdered-remove_waiter deadlines t e (some waiters) h =
    IsOrdered-put_waiters e (remove t waiters) deadlines h

pub IsOrdered-remove_deadline :
    (deadlines : BTreeMap BTreeSet) (t e : ℕ)
    → IsOrdered deadlines
    → IsOrdered (remove_deadline deadlines t e)
unfolding remove_deadline
IsOrdered-remove_deadline deadlines t e h =
    IsOrdered-remove_waiter deadlines t e (get e deadlines) h
