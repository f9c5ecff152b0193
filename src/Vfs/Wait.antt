-- ===== src/Vfs/Wait.antt =====
-- aether-vfs/src/wait.rs. A listener is named by a number. `wakes` is no field of the source: it
-- logs the calls of `listener.wake`, in order, each with the events that it is passed.
-- The scratch vector, kept between calls only for its capacity, is left out.
pub mod Order
use aether_kernel.Prelude.{
  ℕ, ◌+◌, ◌%◌, ◌^◌, ◌≤◌, ◌<◌, ◌≡◌, refl, Bool, true, false, List, [], ◌∷◌, ◌++◌, Option, some, none,
  arith, ◌==◌, if◌then◌else◌,
}
use aether_kernel.Prelude.Maps.{BTreeMap, get, insert, remove, Above, IsOrdered}
use aether_kernel.Vfs.Types.{PollEvents, intersection, empty}

pub record WaitRegistration : Type 0 where
  pub events : PollEvents
  pub listener : ℕ

pub record WaitQueue : Type 0 where
  pub next_id : ℕ
  pub registrations : BTreeMap WaitRegistration
  pub wakes : List (ℕ × PollEvents)

unfoldable pub new : WaitQueue
new = record { next_id = 1; registrations = []; wakes = [] }

abbrev pub is_some {ℓ} : {A : Type ℓ} → Option A → Bool
is_some (some a) = true
is_some none = false

unfoldable pub register : WaitQueue → PollEvents → ℕ → ℕ × WaitQueue
register q events listener = (
  q.next_id,
  record q {
    next_id = (q.next_id + 1) % 2 ^ 64;
    registrations =
        insert q.next_id (record { events = events; listener = listener }) q.registrations;
  },
)

unfoldable pub unregister : WaitQueue → ℕ → Bool × WaitQueue
unregister q id =
    (is_some (get id q.registrations), record q { registrations = remove id q.registrations })

-- The listeners that `notify` collects, by ascending id, each with the events that match.
unfoldable pub matching : PollEvents → BTreeMap WaitRegistration → List (ℕ × PollEvents)
matching events [] = []
matching events ((id, r) ∷ rest) =
    let others = matching events rest in
    let matched = intersection events r.events in
    if matched == empty then others else (r.listener, matched) ∷ others

unfoldable pub notify : WaitQueue → PollEvents → WaitQueue
notify q events = record q { wakes = q.wakes ++ matching events q.registrations }
