-- ===== src/Itimer/Expiry/Advance.antt =====
-- What `take_expired` of itimer.rs makes of one timer.
use aether_kernel.Prelude.{
  ℕ, ◌+◌, ◌-◌, ◌*◌, ◌/◌, min, leb, ◌==◌, Bool-cases, ◌≤◌, ◌<◌, ◌≡◌, refl, ◌⊎◌, Option, some, none,
  arith, inl, inr,
}
use native.Mathlib.Nat.{lt-div-mul-add, div-mul-le_self, add-mul}
use aether_kernel.Itimer.{RealTimerState, u64_max, next_period}
use aether_kernel.Itimer.Expiry.{advance, advance_timer, fired_timer}

-- What is left of a timer of the interval `i` that is due at `d`: nothing for the interval 0, else the
-- timer with the first deadline beyond `now` that lies a whole number of intervals after the old one,
-- or with u64::MAX if that is smaller.
abbrev IsFired : ℕ → ℕ → ℕ → Option RealTimerState → Type 0
IsFired now d i o =
    ((i ≡ 0) × (o ≡ none))
    ⊎ ((j : ℕ) × (0 < i)
        × (d + j * i ≤ now)
        × (now < d + j * i + i)
        × (o
            ≡ some (record {
              deadline_nanos = some (min (d + j * i + i) u64_max);
              interval_nanos = i;
            })))

abbrev IsTicked : ℕ → RealTimerState → Option ℕ → Option RealTimerState → Type 0
IsTicked now timer none o = o ≡ some timer
IsTicked now timer (some d) o =
    ((now < d) × (o ≡ some timer)) ⊎ ((d ≤ now) × IsFired now d timer.interval_nanos o)

-- What becomes of a timer at the time `now`: without a deadline, or before it, it stays.
abbrev pub IsAdvanced : ℕ → Option RealTimerState → Option RealTimerState → Type 0
IsAdvanced now none o = o ≡ none
IsAdvanced now (some timer) o = IsTicked now timer timer.deadline_nanos o

fired_timer-IsFired : (now d i : ℕ) → d ≤ now → IsFired now d i (fired_timer now d i)
unfolding next_period
fired_timer-IsFired now d i h = elim (Bool-cases (i == 0)) [
  | inl e ↦ inl (ground (arith, e), rw e refl)
  | inr e ↦
      (let some_interval : 0 < i = ground (arith, e) in
        let j = (now - d) / i in
        let low : j * i ≤ now - d = div-mul-le_self (now - d) i in
        let high : now - d < j * i + i = lt-div-mul-add some_interval in
        let next : d + (j + 1) * i ≡ d + j * i + i = omega (arith, add-mul j 1 i) in
        inr (j, some_interval, omega (arith, low, h), omega (arith, high, h), rw (e, next) refl))
]

advance_timer-IsTicked :
    (now : ℕ) (timer : RealTimerState) (o : Option ℕ)
    → IsTicked now timer o (advance_timer now timer o)
advance_timer-IsTicked now timer none = refl
advance_timer-IsTicked now timer (some d) = elim (Bool-cases (leb d now)) [
  | inr e ↦ inl (ground (arith, e), rw e refl)
  | inl e ↦
      (let come : d ≤ now = ground (arith, e) in
        rw e (inr (come, fired_timer-IsFired now d timer.interval_nanos come)))
]

pub advance-IsAdvanced : (now : ℕ) (o : Option RealTimerState) → IsAdvanced now o (advance now o)
advance-IsAdvanced now none = refl
advance-IsAdvanced now (some timer) = advance_timer-IsTicked now timer timer.deadline_nanos
