-- ===== src/Itimer/Expiry/Result.antt =====
-- The outcome of `take_expired` of itimer.rs.
use aether_kernel.Prelude.{
  ℕ, zero, suc, ◌+◌, ◌≤◌, ◌<◌, ◌≡◌, refl, ap, sym, ◌⊎◌, ◌∙◌, false, [], ◌∷◌, ◌++◌, Option, some,
  none, if◌then◌else◌, arith, inl, inr, length,
}
use mathlib.Core.Path.{subst}
use aether_kernel.Prelude.Maps.{BTreeMap, get, remove, get-Above, IsOrdered}
use aether_kernel.Itimer.{
  RealTimerState, RealTimerRegistry, BTreeSet, Pid, Expired, u64_max, expire_all, expire_first,
  expire_rounds, take_expired, publish_next_deadline, prepend,
}
use aether_kernel.Itimer.Index.{waits, timer_deadline, IsIndexed}
use aether_kernel.Itimer.Expiry.{advance, due, count, one_if}
use aether_kernel.Itimer.Expiry.Rounds.{
  count_upto, count_upto-le, not_due, due_once, without_first, round-timers, round-IsIndexed,
  round-count,
}
use aether_kernel.Itimer.Expiry.Advance.{IsAdvanced, advance-IsAdvanced}

-- What a call does at the time `now`: every timer is advanced, and reported once if it is due.
abbrev pub IsTaken : ℕ → RealTimerRegistry → Expired → RealTimerRegistry → Type 0
IsTaken now r expired r' =
    IsIndexed r'
    × ((t : Pid)
        → IsAdvanced now (get t r.timers) (get t r'.timers)
          × (count t expired ≡ one_if (due now (get t r.timers))))

-- The same, by the function that a timer is advanced with.
abbrev IsExpiry : ℕ → RealTimerRegistry → Expired → RealTimerRegistry → Type 0
IsExpiry now r expired r' =
    IsIndexed r'
    × ((t : Pid)
        → (get t r'.timers ≡ advance now (get t r.timers))
          × (count t expired ≡ one_if (due now (get t r.timers))))

count-append : (t : Pid) (xs ys : Expired) → count t (xs ++ ys) ≡ count t xs + count t ys
count-append t [] ys = omega arith
count-append t ((u, info) ∷ xs) ys = omega (arith, count-append t xs ys)

-- Where the deadlines that are left lie after `now`, no timer is due.
nothing_due :
    (now : ℕ) (r : RealTimerRegistry)
    → IsIndexed r
    → ((d : ℕ) → d ≤ now → get d r.deadlines ≡ none)
    → IsExpiry now r [] r
unfolding waits get
nothing_due now r i f = (i, λ t. (sym (idle t).1, rw (idle t).0 refl))
  where
    idle :
        (t : Pid)
        → (due now (get t r.timers) ≡ false) × (advance now (get t r.timers) ≡ get t r.timers)
    idle t = not_due now (get t r.timers) λ d h. sym (i.1 d t) ∙ rw (f d h) refl

expiry_of_round :
    (now d : ℕ) (o o' : Option RealTimerState)
    → d ≤ now
    → now < u64_max
    → o' ≡ (if timer_deadline d o then advance now o else o)
    → (advance now o' ≡ advance now o)
      × (one_if (timer_deadline d o) + one_if (due now o') ≡ one_if (due now o))
expiry_of_round now d o o' h b p = ground (arith, due_once now d o)

-- The next round's outcome, put behind that of the first.
after_round :
    (now d : ℕ) (r r' r'' : RealTimerRegistry) (expired more : Expired)
    → d ≤ now
    → now < u64_max
    → ((t : Pid)
        → let fires = timer_deadline d (get t r.timers) in
          (get t r'.timers ≡ (if fires then advance now (get t r.timers) else get t r.timers))
          × (count t expired ≡ one_if fires))
    → IsExpiry now r' more r''
    → IsExpiry now r (expired ++ more) r''
after_round now d r r' r'' expired more h b s e = (
  e.0,
  λ t.
      let f = expiry_of_round now d (get t r.timers) (get t r'.timers) h b (s t).0 in
      ((e.1 t).0 ∙ f.0, rw (count-append t expired more, (s t).1, (e.1 t).1) f.1),
)

abbrev Outcome : ℕ → RealTimerRegistry → Option (Expired × RealTimerRegistry) → Type 0
Outcome now r o =
    (expired : Expired) × (r' : RealTimerRegistry) × (o ≡ some (expired, r'))
    × IsExpiry now r expired r'

rounds_stop :
    (fuel now : ℕ) (r : RealTimerRegistry)
    → expire_first now r.deadlines r ≡ none
    → expire_rounds (suc fuel) now r ≡ some ([], r)
unfolding expire_rounds
rounds_stop fuel now r e = rw (expire_rounds, e) refl

rounds_go :
    (fuel now : ℕ) (r r' : RealTimerRegistry) (expired : Expired)
    → expire_first now r.deadlines r ≡ some (expired, r')
    → expire_rounds (suc fuel) now r ≡ prepend expired (expire_rounds fuel now r')
unfolding expire_rounds
rounds_go fuel now r r' expired e = rw (expire_rounds, e) refl

first_later :
    (now d : ℕ) (tgids : BTreeSet) (ds : BTreeMap BTreeSet) (r : RealTimerRegistry)
    → now < d
    → expire_first now ((d, tgids) ∷ ds) r ≡ none
unfolding expire_first
first_later now d tgids ds r h = ground arith

first_now :
    (now d : ℕ) (tgids : BTreeSet) (ds : BTreeMap BTreeSet) (r : RealTimerRegistry)
    → d ≤ now
    → expire_first now ((d, tgids) ∷ ds) r
      ≡ some (expire_all now d tgids (record r { deadlines = remove d r.deadlines }))
unfolding expire_first
first_now now d tgids ds r h = ground arith

none_before :
    (now d e : ℕ) (tgids : BTreeSet) (ds : BTreeMap BTreeSet)
    → IsOrdered ((d, tgids) ∷ ds)
    → now < d
    → e ≤ now
    → get e ((d, tgids) ∷ ds) ≡ none
unfolding get
none_before now d e tgids ds o h l = ground (arith, get-Above d e ds o.0)

at_or_before : (a b : ℕ) → (a < b) ⊎ (b ≤ a)
at_or_before a b = ground arith

rounds-Outcome :
    (fuel now : ℕ) (r : RealTimerRegistry) (m : BTreeMap BTreeSet)
    → r.deadlines ≡ m
    → now < u64_max
    → IsIndexed r
    → count_upto now r.deadlines < fuel
    → Outcome now r (expire_rounds fuel now r)
unfolding expire_first get
rounds-Outcome zero now r m p b i l = absurd (omega arith)
rounds-Outcome (suc fuel) now r [] p b i l =
    ([], r, rounds_stop fuel now r (rw p refl), nothing_due now r i λ d h. rw p refl)
rounds-Outcome (suc fuel) now r ((d, tgids) ∷ ds) p b i l = elim (at_or_before now d) [
  | inl h ↦ (
    [],
    r,
    rounds_stop fuel now r (ap (λ m. expire_first now m r) p ∙ first_later now d tgids ds r h),
    nothing_due now r i
        λ e k. ap (get e) p ∙ none_before now d e tgids ds (subst IsOrdered p i.0) h k,
  )
  | inr h ↦
      (let (expired, r') = expire_all now d tgids (without_first now d tgids ds r p h b i) in
        let c = round-count now d tgids ds r p h b i in
        let (more, r'', e, x) =
          rounds-Outcome fuel now r' r'.deadlines refl b (round-IsIndexed now d tgids ds r p h b i)
            (omega (arith, c)) in
        (
          expired ++ more,
          r'',
          rounds_go fuel now r r' expired
                (ap (λ m. expire_first now m r) p ∙ first_now now d tgids ds r h)
              ∙ ap (prepend expired) e,
          after_round now d r r' r'' expired more h b (round-timers now d tgids ds r p h b i) x,
        ))
]

-- At a time before u64::MAX the loop of `take_expired` ends within as many rounds as there are
-- deadlines and one more. Every timer that is due is reported once; without an interval it is
-- removed, with one its deadline is set to the first one in the future that lies a whole number of
-- intervals after the old one, or to u64::MAX if that is smaller. Every other timer is kept and
-- not reported, and the index stays in step.
pub take_expired_lem :
    (fuel now : ℕ) (r : RealTimerRegistry)
    → now < u64_max
    → IsIndexed r
    → length r.deadlines < fuel
    → (expired : Expired) × (r' : RealTimerRegistry) × (take_expired fuel r now
        ≡ some (expired, r'))
      × IsTaken now r expired r'
unfolding take_expired publish_next_deadline
take_expired_lem fuel now r b i l =
    let c = count_upto-le now r.deadlines in
    let (expired, r', e, x) = rounds-Outcome fuel now r r.deadlines refl b i (omega (arith, c)) in
    (
      expired,
      publish_next_deadline r',
      rw e refl,
      (
        x.0,
        (λ t. (
          subst (IsAdvanced now (get t r.timers)) (sym (x.1 t).0)
              (advance-IsAdvanced now (get t r.timers)),
          (x.1 t).1,
        )),
      ),
    )
