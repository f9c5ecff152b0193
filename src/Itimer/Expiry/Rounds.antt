-- ===== src/Itimer/Expiry/Rounds.antt =====
-- The outer loop of `take_expired` of itimer.rs, over the deadlines that have come.
use aether_kernel.Prelude.{
  ℕ, ◌+◌, ◌≤◌, ◌<◌, ◌≡◌, refl, ◌∙◌, true, false, [], ◌∷◌, Option, some, none, leb, ◌==◌,
  if◌then◌else◌, arith, ==_self, length,
}
use aether_kernel.Prelude.Maps.{BTreeMap, get, insert, remove, IsOrdered-remove}
use aether_kernel.Itimer.{
  RealTimerState, RealTimerRegistry, BTreeSet, u64_max, add_deadline, has_deadline, next_period,
  expire_timer, expire_all, or_default,
}
use aether_kernel.Itimer.Index.{present, waits, timer_deadline, IsIndexed, waits-remove}
use aether_kernel.Itimer.Expiry.{
  advance, advance_timer, due, due_at, count, one_if, next_period-above, expire_all_lem,
}

-- The number of deadlines that have come.
abbrev pub count_upto : ℕ → BTreeMap BTreeSet → ℕ
count_upto now [] = 0
count_upto now ((d, waiters) ∷ m) = one_if (leb d now) + count_upto now m

pub count_upto-le : (now : ℕ) (m : BTreeMap BTreeSet) → count_upto now m ≤ length m
count_upto-le now [] = omega arith
count_upto-le now ((d, waiters) ∷ m) = ground (arith, count_upto-le now m)

count_upto-insert :
    (now k : ℕ) (v : BTreeSet) (m : BTreeMap BTreeSet)
    → now < k
    → count_upto now (insert k v m) ≡ count_upto now m
unfolding insert
count_upto-insert now k v [] h = ground arith
count_upto-insert now k v ((d, w) ∷ m) h = ground (arith, count_upto-insert now k v m h)

count_upto-remove :
    (now k : ℕ) (m : BTreeMap BTreeSet) → count_upto now (remove k m) ≤ count_upto now m
unfolding remove
count_upto-remove now k [] = omega arith
count_upto-remove now k ((d, w) ∷ m) = ground (arith, count_upto-remove now k m)

count_upto-expire_timer :
    (now d t : ℕ) (o : Option RealTimerState) (r : RealTimerRegistry)
    → d ≤ now
    → now < u64_max
    → count_upto now (expire_timer now d t o r).1.deadlines ≡ count_upto now r.deadlines
unfolding add_deadline
count_upto-expire_timer now d t none r h b = refl
count_upto-expire_timer now d t (some timer) r h b =
    let next = next_period d now timer.interval_nanos in
    ground (
      arith,
      next_period-above d now timer.interval_nanos,
      count_upto-insert now next (insert t tt (or_default (get next r.deadlines))) r.deadlines,
    )

count_upto-expire_all :
    (now d : ℕ) (tgids : BTreeSet) (r : RealTimerRegistry)
    → d ≤ now
    → now < u64_max
    → count_upto now (expire_all now d tgids r).1.deadlines ≡ count_upto now r.deadlines
unfolding expire_all
count_upto-expire_all now d [] r h b = refl
count_upto-expire_all now d ((t, x) ∷ tgids) r h b =
    count_upto-expire_all now d tgids (expire_timer now d t (get t r.timers) r).1 h b
    ∙ count_upto-expire_timer now d t (get t r.timers) r h b

-- A timer with no deadline that has come.
not_due_timer :
    (now : ℕ) (timer : RealTimerState) (o : Option ℕ)
    → ((d : ℕ) → d ≤ now → has_deadline d o ≡ false)
    → (due_at now o ≡ false) × (advance_timer now timer o ≡ some timer)
not_due_timer now timer none h = (refl, refl)
not_due_timer now timer (some d) h = ground (arith, h d)

pub not_due :
    (now : ℕ) (o : Option RealTimerState)
    → ((d : ℕ) → d ≤ now → timer_deadline d o ≡ false)
    → (due now o ≡ false) × (advance now o ≡ o)
not_due now none h = (refl, refl)
not_due now (some timer) h = not_due_timer now timer timer.deadline_nanos h

one_deadline :
    (d e : ℕ) (o : Option RealTimerState)
    → timer_deadline d o ≡ true
    → timer_deadline e o ≡ (d == e)
one_deadline d e none h = ground (arith, h)
one_deadline d e (some timer) h = only timer.deadline_nanos h
  where
    only : (o : Option ℕ) → has_deadline d o ≡ true → has_deadline e o ≡ (d == e)
    only none p = ground (arith, p)
    only (some k) p = ground (arith, p)

due_timer :
    (now d : ℕ) (timer : RealTimerState) (o : Option ℕ)
    → has_deadline d o ≡ true
    → d ≤ now
    → now < u64_max
    → (due_at now o ≡ true)
      × (due now (advance_timer now timer o) ≡ false)
      × (advance now (advance_timer now timer o) ≡ advance_timer now timer o)
due_timer now d timer none e h b = ground (arith, e)
due_timer now d timer (some k) e h b =
    ground (arith, e, next_period-above k now timer.interval_nanos)

-- A timer at a deadline that has come is due, and once it has fired it is not.
pub due_once :
    (now d : ℕ) (o : Option RealTimerState)
    → timer_deadline d o ≡ true
    → d ≤ now
    → now < u64_max
    → (due now o ≡ true)
      × (due now (advance now o) ≡ false)
      × (advance now (advance now o) ≡ advance now o)
due_once now d none e h b = ground (arith, e)
due_once now d (some timer) e h b = due_timer now d timer timer.deadline_nanos e h b

module _ (now d : ℕ) (tgids : BTreeSet) (ds : BTreeMap BTreeSet) (r : RealTimerRegistry)
    (p : r.deadlines ≡ (d, tgids) ∷ ds) (h : d ≤ now) (b : now < u64_max) (i : IsIndexed r) where
  abbrev pub without_first : RealTimerRegistry
  without_first = record r { deadlines = remove d r.deadlines }

  waiting : (u : ℕ) → present (get u tgids) ≡ timer_deadline d (get u r.timers)
  unfolding waits get
  waiting u =
      let first : get d r.deadlines ≡ some tgids = rw (p, ==_self) refl in
      ground (arith, i.1 d u, first)

  pub round-timers :
      (u : ℕ)
      → let fires = timer_deadline d (get u r.timers) in
        let (expired, r') = expire_all now d tgids without_first in
        (get u r'.timers ≡ (if fires then advance now (get u r.timers) else get u r.timers))
        × (count u expired ≡ one_if fires)
  round-timers u = ground (arith, waiting u, expire_all_lem now d u 0 tgids without_first h b)

  pub round-IsIndexed : IsIndexed (expire_all now d tgids without_first).1
  round-IsIndexed = (
    (expire_all_lem now d 0 0 tgids without_first h b).3 (IsOrdered-remove d r.deadlines i.0),
    λ e u. ground (
      arith,
      waiting u,
      expire_all_lem now d u e tgids without_first h b,
      waits-remove r.deadlines d e u,
      i.1 e u,
      one_deadline d e (get u r.timers),
      same e (get u r.timers),
    ),
  )
    where
      same : (e : ℕ) (o : Option RealTimerState) → d ≡ e → timer_deadline d o ≡ timer_deadline e o
      same e o q = rw q refl

  pub round-count :
      count_upto now (expire_all now d tgids without_first).1.deadlines < count_upto now r.deadlines
  unfolding remove
  round-count =
      rw (count_upto-expire_all now d tgids without_first h b, p)
        (ground (arith, count_upto-remove now d ds))
