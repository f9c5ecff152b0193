-- ===== src/Itimer/Expiry.antt =====
-- What `take_expired` of itimer.rs does to a timer, and its loop over the processes of one deadline.
pub mod Rounds
pub mod Advance
pub mod Result
use aether_kernel.Prelude.{
  ℕ, zero, suc, ◌+◌, ◌-◌, ◌*◌, ◌/◌, ◌^◌, ◌≤◌, ◌<◌, ◌≡◌, refl, ◌≢◌, ◌∙◌, min, Bool, true, false, not,
  ◌&&◌, ◌||◌, List, [], ◌∷◌, ◌++◌, Option, some, none, ltb, leb, ◌==◌, if◌then◌else◌, arith,
  Option-cases, Bool-cases, inl, inr, ==_self,
}
use aether_kernel.Prelude.Maps.{BTreeMap, get, insert, remove, get-insert, get-remove, IsOrdered}
use native.Mathlib.Nat.{div-add-mod', mod-lt, add-mul}
use aether_kernel.Itimer.{
  RealTimerState, RealTimerRegistry, BTreeSet, Pid, Expired, u64_max, add_deadline, has_deadline,
  next_period, fire, expire_timer, expire_all,
}
use aether_kernel.Itimer.Index.{
  present, waits, timer_deadline, IsIndexed, waits-add_deadline, IsOrdered-add_deadline,
}

-- What becomes of a timer at the time `now`: at or after its deadline it is removed, or set to the
-- next multiple of its interval after the deadline.
abbrev pub advance_timer : ℕ → RealTimerState → Option ℕ → Option RealTimerState
advance_timer now timer none = some timer
advance_timer now timer (some d) =
    if leb d now
    then (if timer.interval_nanos == 0
        then none
        else some (record timer { deadline_nanos = some (next_period d now timer.interval_nanos) }))
    else some timer

abbrev pub advance : ℕ → Option RealTimerState → Option RealTimerState
advance now none = none
advance now (some timer) = advance_timer now timer timer.deadline_nanos

abbrev pub due_at : ℕ → Option ℕ → Bool
due_at now none = false
due_at now (some d) = leb d now

abbrev pub due : ℕ → Option RealTimerState → Bool
due now none = false
due now (some timer) = due_at now timer.deadline_nanos

-- How often a process is in the list of expired timers.
abbrev pub count : Pid → Expired → ℕ
count t [] = 0
count t ((u, info) ∷ expired) = (if t == u then 1 else 0) + count t expired

positive : (n : ℕ) → n ≢ 0 → 0 < n
positive zero h = absurd (h refl)
positive (suc n) h = omega arith

pub next_period-above :
    (d now interval : ℕ) → interval ≢ 0 → d ≤ now → now < u64_max → now < next_period d now interval
unfolding next_period
next_period-above d now interval p h b = omega (arith, above)
  where
    above : now < d + ((now - d) / interval + 1) * interval
    above = omega (
      arith,
      add-mul ((now - d) / interval) 1 interval,
      div-add-mod' (now - d) interval,
      mod-lt (now - d) (positive interval p),
    )

abbrev pub one_if : Bool → ℕ
one_if b = if b then 1 else 0

-- A timer that fires at its deadline.
abbrev pub fired_timer : ℕ → ℕ → ℕ → Option RealTimerState
fired_timer now d i =
    if i == 0
    then none
    else some (record { deadline_nanos = some (next_period d now i); interval_nanos = i })

advance_timer-at :
    (now d : ℕ) (timer : RealTimerState) (o : Option ℕ)
    → has_deadline d o ≡ true
    → d ≤ now
    → advance_timer now timer o ≡ fired_timer now d timer.interval_nanos
advance_timer-at now d timer none e h = ground (arith, e)
advance_timer-at now d timer (some k) e h = rw (same e) (ground arith)
  where
    same : (k == d) ≡ true → k ≡ d
    same p = ground (arith, p)

fire_lem :
    (now d t u e i : ℕ) (r : RealTimerRegistry)
    → let r' = fire now d t i r in
      (get u r'.timers ≡ (if t == u then fired_timer now d i else get u r.timers))
      × (waits r'.deadlines e u
          ≡ (t == u && timer_deadline e (fired_timer now d i)) || waits r.deadlines e u)
      × (IsOrdered r.deadlines → IsOrdered r'.deadlines)
fire_lem now d t u e i r = ground (
  arith,
  get-remove t u r.timers,
  get-insert t u (record { deadline_nanos = some (next_period d now i); interval_nanos = i })
      r.timers,
  waits-add_deadline r.deadlines t (next_period d now i) e u,
  IsOrdered-add_deadline r.deadlines t (next_period d now i),
)

-- One process of a deadline that has come.
expire_timer_lem :
    (now d t u e : ℕ) (o : Option RealTimerState) (r : RealTimerRegistry)
    → d ≤ now
    → let (fired, r') = expire_timer now d t o r in
      (fired ≡ timer_deadline d o)
      × (get u r'.timers ≡ (if t == u && fired then advance now o else get u r.timers))
      × (waits r'.deadlines e u
          ≡ (t == u && fired && timer_deadline e (advance now o)) || waits r.deadlines e u)
      × (IsOrdered r.deadlines → IsOrdered r'.deadlines)
expire_timer_lem now d t u e none r h = ground arith
expire_timer_lem now d t u e (some timer) r h =
    elim (Bool-cases (has_deadline d timer.deadline_nanos)) [
      | inl p ↦
          rw (p, advance_timer-at now d timer timer.deadline_nanos p h)
            (ground (arith, fire_lem now d t u e timer.interval_nanos r))
      | inr p ↦ rw p (ground arith)
    ]

advanced_timer :
    (now d : ℕ) (timer : RealTimerState) (o : Option ℕ)
    → has_deadline d o ≡ true
    → d ≤ now
    → now < u64_max
    → timer_deadline d (advance_timer now timer o) ≡ false
advanced_timer now d timer o e h b =
    rw (advance_timer-at now d timer o e h)
      (ground (arith, next_period-above d now timer.interval_nanos))

-- A timer that fires is no longer at its deadline.
pub advanced :
    (now d : ℕ) (o : Option RealTimerState)
    → timer_deadline d o ≡ true
    → d ≤ now
    → now < u64_max
    → timer_deadline d (advance now o) ≡ false
advanced now d none e h b = ground (arith, e)
advanced now d (some timer) e h b = advanced_timer now d timer timer.deadline_nanos e h b

-- All processes of a deadline that has come: those whose timer is at it fire once each.
pub expire_all_lem :
    (now d u e : ℕ) (tgids : BTreeSet) (r : RealTimerRegistry)
    → d ≤ now
    → now < u64_max
    → let fires = present (get u tgids) && timer_deadline d (get u r.timers) in
      let (expired, r') = expire_all now d tgids r in
      (get u r'.timers ≡ (if fires then advance now (get u r.timers) else get u r.timers))
      × (count u expired ≡ one_if fires)
      × (waits r'.deadlines e u
          ≡ (fires && timer_deadline e (advance now (get u r.timers))) || waits r.deadlines e u)
      × (IsOrdered r.deadlines → IsOrdered r'.deadlines)
unfolding expire_all get
expire_all_lem now d u e [] r h b = ground arith
expire_all_lem now d u e ((t, x) ∷ tgids) r h b = ground (
  arith,
  same,
  advanced now d (get u r.timers),
  expire_timer_lem now d t u e (get t r.timers) r h,
  expire_all_lem now d u e tgids (expire_timer now d t (get t r.timers) r).1 h b,
)
  where
    same : t ≡ u → get t r.timers ≡ get u r.timers
    same e = rw e refl
