-- ===== src/Vfs/Tests.antt =====
-- The theorems about wait queues at a queue of one listener.
use aether_kernel.Prelude.{◌≡◌, refl, [], ◌∷◌, arith}
use aether_kernel.Vfs.Types.{intersection}
use aether_kernel.Vfs.Wait.{WaitQueue, notify, matching}
use aether_kernel.Vfs.Wait.Order.{IsValid}

abbrev one : WaitQueue
one = record {
  next_id = 2;
  registrations = (1, record { events = 1; listener = 40 }) ∷ [];
  wakes = [];
}

abbrev one-IsValid : IsValid one
one-IsValid = record { ordered = (tt, tt); below = (omega arith, tt) }

notify-one : (notify one 3).wakes ≡ (40, 1) ∷ []
unfolding notify matching intersection
notify-one = refl
