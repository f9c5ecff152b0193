-- ===== src/TimerFd/Indexed.antt =====
-- The deadlines that the registry of timerfd.rs keeps, and the timers that wait for them.
use mathlib.Core.Path.{subst}
use aether_kernel.Prelude.{
  ℕ, ◌<◌, ◌≡◌, refl, sym, ◌∙◌, Bool, true, false, not, ◌&&◌, ◌||◌, List, [], ◌∷◌, arith, ltb, leb,
  ◌==◌, Bool-cases, inl, inr, length,
}
use aether_kernel.Itimer.Index.{waits, waits-add_deadline, waits-remove_deadline}
use aether_kernel.TimerFd.{
  TimerFdClock, DeadlineClass, monotonic_class, realtime_class, deadline_class, TimerFdRegistry,
  TimerFdState, TimerFdFile, deadlines, insert_deadline, drop_deadline, refresh_due_locked,
  get_time, arm, disarm, armed_state, is_set, is_realtime, set_time, read, poll, bump,
}

-- The registry has a timer wait for its deadline and no other, if it has one.
abbrev timer_waits : ℕ → ℕ → Bool
timer_waits expires d = not (expires == 0) && (expires == d)

abbrev pub IsIndexed : TimerFdRegistry → ℕ → TimerFdClock → TimerFdState → Type 0
IsIndexed r id clock s =
    (d : ℕ) → waits (deadlines (deadline_class clock) r) d id ≡ timer_waits s.expires_ns d

waits-drop_deadline :
    (class : DeadlineClass) (r : TimerFdRegistry) (e id d u : ℕ)
    → waits (deadlines class (drop_deadline r class e id)) d u
      ≡ not (e == d && id == u) && waits (deadlines class r) d u
waits-drop_deadline monotonic_class r e id d u = waits-remove_deadline r.monotonic id e d u
waits-drop_deadline realtime_class r e id d u = waits-remove_deadline r.realtime id e d u

waits-insert_deadline :
    (class : DeadlineClass) (r : TimerFdRegistry) (e id d u : ℕ)
    → waits (deadlines class (insert_deadline r class e id)) d u
      ≡ (e == d && id == u) || waits (deadlines class r) d u
waits-insert_deadline monotonic_class r e id d u = waits-add_deadline r.monotonic id e d u
waits-insert_deadline realtime_class r e id d u = waits-add_deadline r.realtime id e d u

-- The timer waits for its deadline and no other, and the other timers wait for what they waited for.
abbrev pub IsStep : TimerFdRegistry → TimerFdRegistry → ℕ → TimerFdClock → TimerFdState → Type 0
IsStep r r' id clock s =
    IsIndexed r' id clock s
    × ((d u : ℕ)
        → (id == u) ≡ false
        → waits (deadlines (deadline_class clock) r') d u
          ≡ waits (deadlines (deadline_class clock) r) d u)

module _ (id : ℕ) (clock : TimerFdClock) where
  self : (id == id) ≡ true
  self = ground arith

  -- A timer that is due, and waits for no deadline but its own.
  refresh_due_locked_lem :
      (r : TimerFdRegistry) (s : TimerFdState) (now : ℕ)
      → ((s.expires_ns == 0) || ltb now s.expires_ns) ≡ false
      → ((d : ℕ)
          → waits (deadlines (deadline_class clock) r) d id && not (s.expires_ns == d) ≡ false)
      → let (due, r', s') = refresh_due_locked r id clock s now in IsStep r r' id clock s'
  unfolding refresh_due_locked
  refresh_due_locked_lem r s now e only = rw e (elim (Bool-cases (s.interval_ns == 0)) [
    | inl z ↦ rw z (
      (λ d. ground (arith, waits-drop_deadline class r s.expires_ns id d id, self, only d)),
      (λ d u other. ground (arith, waits-drop_deadline class r s.expires_ns id d u, other)),
    )
    | inr z ↦ rw z ((λ d. again d _ (ground (arith, e))), (λ d u other. kept d u _ other))
  ])
    where
      class : DeadlineClass
      class = deadline_class clock

      again :
          (d x : ℕ)
          → 0 < x
          → waits
              (deadlines class (insert_deadline (drop_deadline r class s.expires_ns id) class x id))
              d
              id
            ≡ timer_waits x d
      again d x p = ground (
        arith,
        waits-insert_deadline class (drop_deadline r class s.expires_ns id) x id d id,
        waits-drop_deadline class r s.expires_ns id d id,
        self,
        only d,
      )

      kept :
          (d u x : ℕ)
          → (id == u) ≡ false
          → waits
              (deadlines class (insert_deadline (drop_deadline r class s.expires_ns id) class x id))
              d
              u
            ≡ waits (deadlines class r) d u
      kept d u x other = ground (
        arith,
        waits-insert_deadline class (drop_deadline r class s.expires_ns id) x id d u,
        waits-drop_deadline class r s.expires_ns id d u,
        other,
      )

  refresh_due_locked-IsStep :
      (r : TimerFdRegistry) (s : TimerFdState) (now : ℕ)
      → IsIndexed r id clock s
      → let (due, r', s') = refresh_due_locked r id clock s now in IsStep r r' id clock s'
  unfolding refresh_due_locked
  refresh_due_locked-IsStep r s now i =
      elim (Bool-cases ((s.expires_ns == 0) || ltb now s.expires_ns)) [
        | inl e ↦ rw e (i, (λ d u other. refl))
        | inr e ↦ refresh_due_locked_lem r s now e (λ d. ground (arith, i d))
      ]

  waits-disarm :
      (r : TimerFdRegistry) (s : TimerFdState)
      → IsIndexed r id clock s
      → ((d : ℕ) → waits (deadlines (deadline_class clock) (disarm r id clock s)) d id ≡ false)
        × ((d u : ℕ)
            → (id == u) ≡ false
            → waits (deadlines (deadline_class clock) (disarm r id clock s)) d u
              ≡ waits (deadlines (deadline_class clock) r) d u)
  unfolding disarm
  waits-disarm r s i = elim (Bool-cases (s.expires_ns == 0)) [
    | inl e ↦ rw e ((λ d. ground (arith, i d, e)), (λ d u other. refl))
    | inr e ↦ rw e (
      (λ d.
          ground
            (arith, waits-drop_deadline (deadline_class clock) r s.expires_ns id d id, self, i d)),
      (λ d u other.
          ground (arith, waits-drop_deadline (deadline_class clock) r s.expires_ns id d u, other)),
    )
  ]

  arm-IsStep :
      (r : TimerFdRegistry) (s : TimerFdState) (now : ℕ)
      → ((d : ℕ) → waits (deadlines (deadline_class clock) r) d id ≡ false)
      → let (r', s') = arm r id clock s now in IsStep r r' id clock s'
  unfolding arm
  arm-IsStep r s now i = elim (Bool-cases (s.expires_ns == 0)) [
    | inl e ↦ rw e ((λ d. ground (arith, i d, e)), (λ d u other. refl))
    | inr e ↦ elim (Bool-cases (leb s.expires_ns now)) [
      | inl l ↦
          rw (e, l)
            (refresh_due_locked_lem r s now (ground (arith, e, l)) (λ d. ground (arith, i d)))
      | inr l ↦
          rw (e, l)
            (
              (λ d. ground (
                arith,
                waits-insert_deadline (deadline_class clock) r s.expires_ns id d id,
                self,
                i d,
                e,
              )),
              (λ d u other. ground (
                arith,
                waits-insert_deadline (deadline_class clock) r s.expires_ns id d u,
                other,
              )),
            )
    ]
  ]

  rearm-IsStep :
      (r : TimerFdRegistry) (s s' : TimerFdState) (now : ℕ)
      → IsIndexed r id clock s
      → let (r', t) = arm (disarm r id clock s) id clock s' now in IsStep r r' id clock t
  rearm-IsStep r s s' now i =
      let free = waits-disarm r s i in
      let step = arm-IsStep (disarm r id clock s) s' now free.0 in
      (step.0, (λ d u other. step.1 d u other ∙ free.1 d u other))

-- A call on a file.
pub data Call : Type 0 where
  set_call : (flags interval value now : ℕ) → Call
  get_call : (now : ℕ) → Call
  read_call : (buffer : List ℕ) (now : ℕ) → Call
  poll_call : (events now : ℕ) → Call

abbrev World : Type 0
World = TimerFdRegistry × TimerFdFile

unfoldable pub apply : World → Call → World
apply (r, f) (set_call flags interval value now) =
    let (old, r', f') = set_time r f flags interval value now in (r', f')
apply (r, f) (get_call now) = let (spec, r', f') = get_time r f now in (r', f')
apply (r, f) (read_call buffer now) =
    let (result, buffer', r', f') = read r f buffer now in (r', f')
apply (r, f) (poll_call events now) = let (ready, r', f') = poll r f events now in (r', f')

unfoldable pub run : World → List Call → World
run w [] = w
run w (c ∷ calls) = run (apply w c) calls

abbrev pub IsWorldStep : World → World → Type 0
IsWorldStep (r, f) (r', f') =
    (f'.id ≡ f.id) × (f'.clock ≡ f.clock) × IsStep r r' f.id f.clock f'.inner

apply-IsWorldStep :
    (r : TimerFdRegistry) (f : TimerFdFile) (c : Call)
    → IsIndexed r f.id f.clock f.inner
    → IsWorldStep (r, f) (apply (r, f) c)
unfolding apply set_time get_time read poll bump
apply-IsWorldStep r f (set_call flags interval value now) i =
    elim (Bool-cases (is_set flags 2 && (not (is_set flags 1) || not (is_realtime f.clock)))) [
      | inl e ↦ rw e (refl, refl, (i, (λ d u other. refl)))
      | inr e ↦
          (let first = refresh_due_locked-IsStep f.id f.clock r f.inner now i in
            let (due, r', s) = refresh_due_locked r f.id f.clock f.inner now in
            let second =
              rearm-IsStep f.id f.clock r' s (armed_state flags interval value now) now first.0 in
            rw e (refl, refl, (second.0, (λ d u other. second.1 d u other ∙ first.1 d u other))))
    ]
apply-IsWorldStep r f (get_call now) i =
    (refl, refl, refresh_due_locked-IsStep f.id f.clock r f.inner now i)
apply-IsWorldStep r f (read_call buffer now) i = elim (Bool-cases (ltb (length buffer) 8)) [
  | inl e ↦ rw e (refl, refl, (i, (λ d u other. refl)))
  | inr e ↦
      (let step = refresh_due_locked-IsStep f.id f.clock r f.inner now i in
        elim (Bool-cases ((refresh_due_locked r f.id f.clock f.inner now).2.ticks == 0)) [
          | inl z ↦ rw (e, z) (refl, refl, step)
          | inr z ↦ rw (e, z) (refl, refl, step)
        ])
]
apply-IsWorldStep r f (poll_call events now) i =
    (refl, refl, refresh_due_locked-IsStep f.id f.clock r f.inner now i)

run-from :
    (calls : List Call) (r : TimerFdRegistry) (f : TimerFdFile) (id : ℕ) (clock : TimerFdClock)
    → f.id ≡ id
    → f.clock ≡ clock
    → IsIndexed r id clock f.inner
    → let (r', f') = run (r, f) calls in
      (f'.id ≡ id) × (f'.clock ≡ clock) × IsStep r r' id clock f'.inner
unfolding run
run-from [] r f id clock p q i = (p, q, (i, (λ d u other. refl)))
run-from (c ∷ calls) r f id clock p q i =
    let (r', f') = apply (r, f) c in
    let (p', q', step) = apply-IsWorldStep r f c (
      subst (λ n. IsIndexed r n f.clock f.inner) (sym p)
        (subst (λ k. IsIndexed r id k f.inner) (sym q) i)) in
    let first : IsStep r r' id clock f'.inner =
      subst (λ n. IsStep r r' n clock f'.inner) p
        (subst (λ k. IsStep r r' f.id k f'.inner) q step) in
    let rest = run-from calls r' f' id clock (p' ∙ p) (q' ∙ q) first.0 in
    (rest.0, rest.1, (rest.2.0, (λ d u other. rest.2.1 d u other ∙ first.1 d u other)))

-- From a file whose timer the registry has wait for its deadline, if it has one, and for no other: that
-- stays so through any calls on the file, at any times, and which deadlines the other timers of its
-- class wait for stays the same.
pub run-IsWorldStep :
    (calls : List Call) (r : TimerFdRegistry) (f : TimerFdFile)
    → IsIndexed r f.id f.clock f.inner
    → IsWorldStep (r, f) (run (r, f) calls)
run-IsWorldStep calls r f i = run-from calls r f f.id f.clock refl refl i
