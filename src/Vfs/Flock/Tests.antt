-- ===== src/Vfs/Flock/Tests.antt =====
-- The theorems on the lock of inode.rs at three owners.
use aether_kernel.Prelude.{◌⊎◌, ◌≡◌, refl, true, false, [], ◌∷◌, none, if◌then◌else◌}
use aether_kernel.Prelude.Maps.{get, insert}
use aether_kernel.Vfs.Types.{err, would_block}
use aether_kernel.Vfs.Wait
use aether_kernel.Vfs.Flock.{shared, exclusive, FlockState, shared_by_others, flock}
use aether_kernel.Vfs.Flock.Exclusion.{
  IsExclusive, call, run, holds_exclusive, holds_shared, wants_exclusive, succeeds, run-IsExclusive,
  flock_lem, IsRefused,
}

abbrev no_lock : FlockState
no_lock = record {
  shared_owners = [];
  exclusive_owner = none;
  flock_waiters = record { next_id = 1; registrations = []; wakes = [] };
}

no_lock-IsExclusive : IsExclusive no_lock
unfolding get
no_lock-IsExclusive = λ o u e. refl

abbrev two_shared : FlockState
two_shared = run no_lock (call 1 shared ∷ call 2 shared ∷ [])

refused : (flock two_shared 1 exclusive).0 ≡ err would_block
unfolding run flock insert shared_by_others get Wait.notify
refused = refl

run-IsExclusive_example :
    IsExclusive (run no_lock (call 1 shared ∷ call 1 exclusive ∷ call 2 shared ∷ []))
run-IsExclusive_example =
    run-IsExclusive (call 1 shared ∷ call 1 exclusive ∷ call 2 shared ∷ []) no_lock
      no_lock-IsExclusive

flock_lem_example :
    let (result, s') = flock two_shared 1 exclusive in
    (holds_exclusive s' 1 ≡ (if succeeds result then true else holds_exclusive two_shared 1))
    × (holds_shared s' 1 ≡ (if succeeds result then false else holds_shared two_shared 1))
    × (holds_exclusive s' 2 ≡ holds_exclusive two_shared 2)
    × (holds_shared s' 2 ≡ holds_shared two_shared 2)
    × (holds_exclusive two_shared 2 ≡ true → succeeds result ≡ false)
    × (holds_shared two_shared 2 ≡ true
        → wants_exclusive exclusive ≡ true
        → succeeds result ≡ false)
    × ((succeeds result ≡ true) ⊎ IsRefused two_shared 1 exclusive)
flock_lem_example =
    flock_lem two_shared 1 2 exclusive refl
      (run-IsExclusive (call 1 shared ∷ call 2 shared ∷ []) no_lock no_lock-IsExclusive)
