-- ===== src/Vfs/Wait/Order.antt =====
-- The order of a wait queue: identifiers grow, so listeners are woken in the order in which they
-- were registered.
use aether_kernel.Prelude.{
  ℕ, ◌+◌, ◌%◌, ◌^◌, ◌<◌, ◌≡◌, refl, ap, ◌∙◌, true, [], ◌∷◌, ◌++◌, some, arith, ◌==◌, if◌then◌else◌,
}
use aether_kernel.Prelude.Maps.{
  BTreeMap, get, insert, remove, IsOrdered, IsOrdered-insert, IsOrdered-remove,
}
use aether_kernel.Vfs.Types.{PollEvents, intersection, empty}
use aether_kernel.Vfs.Wait.{
  WaitQueue, WaitRegistration, new, register, unregister, notify, matching,
}

-- Every identifier in use is below `n`.
abbrev pub Below : ℕ → BTreeMap WaitRegistration → Type 0
Below n [] = Unit
Below n ((id, r) ∷ m) = (id < n) × Below n m

pub record IsValid (q : WaitQueue) : Type 0 where
  pub ordered : IsOrdered q.registrations
  pub below : Below q.next_id q.registrations

Below-insert :
    (n k : ℕ) (r : WaitRegistration) (m : BTreeMap WaitRegistration)
    → n < k
    → Below n m
    → Below k (insert n r m)
unfolding insert
Below-insert n k r [] h b = (h, tt)
Below-insert n k r ((id, s) ∷ m) h b = ground (arith, Below-insert n k r m h b.1)

Below-remove : (n k : ℕ) (m : BTreeMap WaitRegistration) → Below n m → Below n (remove k m)
unfolding remove
Below-remove n k [] b = tt
Below-remove n k ((id, s) ∷ m) b = ground (arith, Below-remove n k m b.1)

insert_last :
    (n : ℕ) (r : WaitRegistration) (m : BTreeMap WaitRegistration)
    → Below n m
    → insert n r m ≡ m ++ ((n, r) ∷ [])
unfolding insert
insert_last n r [] b = refl
insert_last n r ((id, s) ∷ m) b = ground (arith, insert_last n r m b.1)

remove_last :
    (n : ℕ) (r : WaitRegistration) (m : BTreeMap WaitRegistration)
    → Below n m
    → remove n (m ++ ((n, r) ∷ [])) ≡ m
unfolding remove
remove_last n r [] b = ground arith
remove_last n r ((id, s) ∷ m) b = ground (arith, remove_last n r m b.1)

get_last :
    (n : ℕ) (r : WaitRegistration) (m : BTreeMap WaitRegistration)
    → Below n m
    → get n (m ++ ((n, r) ∷ [])) ≡ some r
unfolding get
get_last n r [] b = ground arith
get_last n r ((id, s) ∷ m) b = ground (arith, get_last n r m b.1)

matching-append :
    (e : PollEvents) (m m' : BTreeMap WaitRegistration)
    → matching e (m ++ m') ≡ matching e m ++ matching e m'
unfolding matching
matching-append e [] m' = refl
matching-append e ((id, r) ∷ m) m' = ground (arith, matching-append e m m')

pub new-IsValid : IsValid new
unfolding new
new-IsValid = record { ordered = tt; below = tt }

-- Every operation keeps a valid queue valid, as long as the 64-bit identifier does not wrap.
pub IsValid_kept :
    (q : WaitQueue) (events : PollEvents) (listener id : ℕ)
    → IsValid q
    → q.next_id + 1 < 2 ^ 64
    → IsValid (register q events listener).1
      × IsValid (unregister q id).1
      × IsValid (notify q events)
unfolding register unregister notify
IsValid_kept q events listener id v h =
    let r : WaitRegistration = record { events = events; listener = listener } in
    let e : (q.next_id + 1) % 2 ^ 64 ≡ q.next_id + 1 = omega arith in
    (
      record {
        ordered = IsOrdered-insert q.next_id r q.registrations v.ordered;
        below =
            rw e (Below-insert q.next_id (q.next_id + 1) r q.registrations (omega arith) v.below);
      },
      record {
        ordered = IsOrdered-remove id q.registrations v.ordered;
        below = Below-remove q.next_id id q.registrations v.below;
      },
      record { ordered = v.ordered; below = v.below },
    )

-- Who is woken after a registration: those who would have been woken before it, in the same order
-- with the same events, and then the new listener, if its events and the notified ones meet.
pub matching-register :
    (q : WaitQueue) (events notified : PollEvents) (listener : ℕ)
    → IsValid q
    → matching notified (register q events listener).1.registrations
      ≡ matching notified q.registrations
        ++ (if intersection notified events == empty
            then []
            else (listener, intersection notified events) ∷ [])
unfolding register matching
matching-register q events notified listener v =
    let r : WaitRegistration = record { events = events; listener = listener } in
    ap (matching notified) (insert_last q.next_id r q.registrations v.below)
    ∙ matching-append notified q.registrations ((q.next_id, r) ∷ [])

-- A listener that registers and then unregisters with the identifier that it got leaves the
-- registrations as they were, and is told that it was registered.
pub unregister-register :
    (q : WaitQueue) (events : PollEvents) (listener : ℕ)
    → IsValid q
    → let (id, q') = register q events listener in
      ((unregister q' id).0 ≡ true) × ((unregister q' id).1.registrations ≡ q.registrations)
unfolding register unregister
unregister-register q events listener v =
    let r : WaitRegistration = record { events = events; listener = listener } in
    rw (insert_last q.next_id r q.registrations v.below) (
      rw (get_last q.next_id r q.registrations v.below) refl,
      remove_last q.next_id r q.registrations v.below,
    )
