-- ===== src/TimerFd/Ticks.antt =====
-- How often a timer of timerfd.rs has expired, and what a read returns.
use native.Mathlib.Nat.{lt-div-mul-add, div-mul-le_self, div-le_self}
use aether_kernel.Prelude.{
  ℕ, ◌+◌, ◌-◌, ◌*◌, ◌/◌, ◌≤◌, ◌<◌, ◌≡◌, refl, false, ◌||◌, List, ◌++◌, arith, ltb, ◌==◌,
  if◌then◌else◌, length, drop, Bool-cases, ◌⊎◌, inl, inr,
}
use aether_kernel.Prelude.Bytes.{to_ne_bytes}
use aether_kernel.Itimer.{u64_max}
use aether_kernel.Vfs.{ok, err, would_block}
use aether_kernel.TimerFd.{
  TimerFdClock, TimerFdRegistry, TimerFdState, TimerFdFile, refresh_due_locked, read, bump,
}

-- The state of a timer at a time, by its state before: unset or not yet due it is as it was; one that
-- is set, due and expires once has expired once more and is unset; a periodic one that is set and due
-- has expired at its deadline and at each of the `p` multiples of its interval after that which have
-- come, and waits for the next.
abbrev pub IsRefreshed : TimerFdState → ℕ → TimerFdState → Type 0
IsRefreshed s now s' =
    (((s.expires_ns ≡ 0) ⊎ (now < s.expires_ns)) × (s' ≡ s))
    ⊎ (((0 < s.expires_ns)
          × (s.expires_ns ≤ now)
          × (s.interval_ns ≡ 0)
          × (s'.ticks ≡ s.ticks + 1)
          × (s'.expires_ns ≡ 0)
          × (s'.interval_ns ≡ 0))
        ⊎ ((p : ℕ) × (0 < s.expires_ns)
            × (0 < s.interval_ns)
            × (s.expires_ns + p * s.interval_ns ≤ now)
            × (now < s.expires_ns + p * s.interval_ns + s.interval_ns)
            × (s'.ticks ≡ s.ticks + p + 1)
            × (s'.expires_ns ≡ s.expires_ns + p * s.interval_ns + s.interval_ns)
            × (s'.interval_ns ≡ s.interval_ns)))

pub refresh_due_locked-IsRefreshed :
    (r : TimerFdRegistry) (id : ℕ) (clock : TimerFdClock) (s : TimerFdState) (now : ℕ)
    → now + s.interval_ns ≤ u64_max
    → s.ticks + now < u64_max
    → IsRefreshed s now (refresh_due_locked r id clock s now).2
unfolding refresh_due_locked
refresh_due_locked-IsRefreshed r id clock s now h t =
    elim (Bool-cases ((s.expires_ns == 0) || ltb now s.expires_ns)) [
      | inl e ↦ rw e (inl (ground (arith, e), refl))
      | inr e ↦
          (let due : s.expires_ns ≤ now = ground (arith, e) in
            let set : 0 < s.expires_ns = ground (arith, e) in
            rw e (elim (Bool-cases (s.interval_ns == 0)) [
              | inl z ↦
                  (let once : s.interval_ns ≡ 0 = ground (arith, z) in
                    rw z (inr (inl (set, due, once, omega (arith, t), refl, once))))
              | inr z ↦
                  (let some_interval : 0 < s.interval_ns = ground (arith, z) in
                    let p = (now - s.expires_ns) / s.interval_ns in
                    let low : p * s.interval_ns ≤ now - s.expires_ns =
                      div-mul-le_self (now - s.expires_ns) s.interval_ns in
                    let high : now - s.expires_ns < p * s.interval_ns + s.interval_ns =
                      lt-div-mul-add some_interval in
                    let few : p ≤ now - s.expires_ns =
                      div-le_self (now - s.expires_ns) s.interval_ns in
                    rw z (
                      inr (
                        inr (
                          p,
                          set,
                          some_interval,
                          omega (arith, low, due),
                          omega (arith, high, due),
                          omega (arith, few, set, due, t),
                          omega (arith, low, due, h),
                          refl,
                        ))))
            ]))
    ]

-- A read of a buffer of eight bytes or more, at a time that with the interval is an u64 and leaves
-- the ticks one: the state is refreshed first. A timer that is unset or not yet due stays as it
-- is; one that is due has one tick more, and is unset, or if it has an interval has one more for
-- each of the multiples of it that have come as well, and waits for the next. When it has no ticks
-- then, the read fails with WouldBlock and the buffer stays; else it returns 8, the ticks are the
-- first eight bytes of the buffer, and the rest of it stays. In both cases no ticks are left, and
-- the deadline is that of the refreshed state.
pub read-IsRefreshed :
    (r : TimerFdRegistry) (f : TimerFdFile) (buffer : List ℕ) (now : ℕ)
    → 8 ≤ length buffer
    → now + f.inner.interval_ns ≤ u64_max
    → f.inner.ticks + now < u64_max
    → let (result, buffer', r', f') = read r f buffer now in
      (s : TimerFdState) × IsRefreshed f.inner now s
      × (result ≡ (if s.ticks == 0 then err would_block else ok 8))
      × (buffer' ≡ (if s.ticks == 0 then buffer else to_ne_bytes 8 s.ticks ++ drop 8 buffer))
      × (f'.inner.ticks ≡ 0)
      × (f'.inner.expires_ns ≡ s.expires_ns)
unfolding read bump
read-IsRefreshed r f buffer now long h t =
    let room : ltb (length buffer) 8 ≡ false = ground arith in
    let s = (refresh_due_locked r f.id f.clock f.inner now).2 in
    let fresh = refresh_due_locked-IsRefreshed r f.id f.clock f.inner now h t in
    elim (Bool-cases (s.ticks == 0)) [
      | inl z ↦ rw room (s, fresh, rw z refl, rw z refl, rw z (ground (arith, z)), rw z refl)
      | inr z ↦ rw room (s, fresh, rw z refl, rw z refl, rw z refl, rw z refl)
    ]
