-- ===== src/Itimer/Setting.antt =====
-- Setting and removing a timer of itimer.rs.
use aether_kernel.Prelude.{
  ℕ, ◌-◌, ◌≡◌, refl, ◌∙◌, not, ◌&&◌, ◌||◌, Option, some, none, ◌==◌, if◌then◌else◌, arith,
  Bool-cases, inl, inr,
}
use aether_kernel.Prelude.Maps.{BTreeMap, get, insert, remove, get-insert, get-remove, IsOrdered}
use aether_kernel.Itimer.{
  RealTimerState, RealTimerRegistry, BTreeSet, publish_next_deadline, has_deadline, read_real_timer,
  set_real_timer, thread_group_reaped, unindex, unindex_deadline, index_deadline, new_deadline,
  saturating_add,
}
use aether_kernel.Itimer.Index.{
  waits, timer_deadline, IsIndexed, waits-add_deadline, waits-remove_deadline,
  IsOrdered-add_deadline, IsOrdered-remove_deadline,
}

waits-unindex_deadline :
    (deadlines : BTreeMap BTreeSet) (t d u : ℕ) (o : Option ℕ)
    → waits (unindex_deadline t o deadlines) d u
      ≡ not (has_deadline d o && t == u) && waits deadlines d u
waits-unindex_deadline deadlines t d u none = ground arith
waits-unindex_deadline deadlines t d u (some e) = waits-remove_deadline deadlines t e d u

waits-index_deadline :
    (deadlines : BTreeMap BTreeSet) (t d u : ℕ) (o : Option ℕ)
    → waits (index_deadline t o deadlines) d u ≡ (has_deadline d o && t == u) || waits deadlines d u
waits-index_deadline deadlines t d u none = ground arith
waits-index_deadline deadlines t d u (some e) = waits-add_deadline deadlines t e d u

IsOrdered-unindex_deadline :
    (deadlines : BTreeMap BTreeSet) (t : ℕ) (o : Option ℕ)
    → IsOrdered deadlines
    → IsOrdered (unindex_deadline t o deadlines)
IsOrdered-unindex_deadline deadlines t none h = h
IsOrdered-unindex_deadline deadlines t (some e) h = IsOrdered-remove_deadline deadlines t e h

IsOrdered-index_deadline :
    (deadlines : BTreeMap BTreeSet) (t : ℕ) (o : Option ℕ)
    → IsOrdered deadlines
    → IsOrdered (index_deadline t o deadlines)
IsOrdered-index_deadline deadlines t none h = h
IsOrdered-index_deadline deadlines t (some e) h = IsOrdered-add_deadline deadlines t e h

IsOrdered-unindex :
    (deadlines : BTreeMap BTreeSet) (t : ℕ) (o : Option RealTimerState)
    → IsOrdered deadlines
    → IsOrdered (unindex t o deadlines)
IsOrdered-unindex deadlines t none h = h
IsOrdered-unindex deadlines t (some timer) h =
    IsOrdered-unindex_deadline deadlines t timer.deadline_nanos h

waits-unindex :
    (deadlines : BTreeMap BTreeSet) (t d u : ℕ) (o : Option RealTimerState)
    → waits (unindex t o deadlines) d u ≡ not (timer_deadline d o && t == u) && waits deadlines d u
waits-unindex deadlines t d u none = ground arith
waits-unindex deadlines t d u (some timer) =
    waits-unindex_deadline deadlines t d u timer.deadline_nanos

-- Without the old deadline, a process waits for what its timer says, but for the one that is changed.
unindexed :
    (r : RealTimerRegistry) (t d u : ℕ)
    → IsIndexed r
    → waits (unindex t (get t r.timers) r.deadlines) d u
      ≡ not (t == u) && timer_deadline d (get u r.timers)
unindexed r t d u h =
    ground (arith, waits-unindex r.deadlines t d u (get t r.timers), h.1 d u, same)
  where
    same : t ≡ u → timer_deadline d (get t r.timers) ≡ timer_deadline d (get u r.timers)
    same e = rw e refl

module _ (r : RealTimerRegistry) (t : ℕ) (h : IsIndexed r) where
  removed-IsIndexed :
      IsIndexed (record r {
        timers = remove t r.timers;
        deadlines = unindex t (get t r.timers) r.deadlines;
      })
  removed-IsIndexed = (
    IsOrdered-unindex r.deadlines t (get t r.timers) h.0,
    λ d u. unindexed r t d u h ∙ ground (arith, get-remove t u r.timers),
  )

  inserted-IsIndexed :
      (timer : RealTimerState)
      → IsIndexed (record r {
        timers = insert t timer r.timers;
        deadlines = index_deadline t timer.deadline_nanos (unindex t (get t r.timers) r.deadlines);
      })
  inserted-IsIndexed timer = (
    IsOrdered-index_deadline (unindex t (get t r.timers) r.deadlines) t timer.deadline_nanos
        (IsOrdered-unindex r.deadlines t (get t r.timers) h.0),
    λ d u.
        waits-index_deadline (unindex t (get t r.timers) r.deadlines) t d u timer.deadline_nanos
        ∙ rw (unindexed r t d u h) (ground (arith, get-insert t u timer r.timers)),
  )

-- Setting a timer and removing one keep the index in step with the timers: a process waits for
-- exactly the deadline of its timer.
pub set_real_timer-IsIndexed :
    (r : RealTimerRegistry) (tgid now value interval : ℕ)
    → IsIndexed r
    → IsIndexed (set_real_timer r tgid now value interval).1
      × IsIndexed (thread_group_reaped r tgid)
unfolding set_real_timer thread_group_reaped publish_next_deadline
set_real_timer-IsIndexed r t now value interval h = (
  elim (Bool-cases (value == 0 && interval == 0)) [
    | inl e ↦ rw e (removed-IsIndexed r t h)
    | inr e ↦ rw e (
        inserted-IsIndexed r t h
          (record { deadline_nanos = new_deadline now value; interval_nanos = interval }))
  ],
  removed-IsIndexed r t h,
)

-- A timer that is set is read back: the time left until the value has passed, which saturates at
-- u64::MAX and is 0 for a value of 0, and the interval. The call reports what a read just before it
-- would, and no other timer changes.
pub read_real_timer-set_real_timer :
    (r : RealTimerRegistry) (t u now later value interval : ℕ)
    → let (old, r') = set_real_timer r t now value interval in
      (old ≡ read_real_timer r t now)
      × (read_real_timer r' u later ≡ (
          if t == u
          then ((if value == 0 then 0 else saturating_add now value - later), interval)
          else read_real_timer r u later))
unfolding set_real_timer publish_next_deadline read_real_timer
read_real_timer-set_real_timer r t u now later value interval = ground (
  arith,
  get-remove t u r.timers,
  get-insert t u (record { deadline_nanos = new_deadline now value; interval_nanos = interval })
      r.timers,
)
