-- ===== src/Vfs/Flock.antt =====
-- aether-kernel/libs/aether-vfs/src/inode.rs: the advisory lock of an inode, with `FlockState` and
-- `FlockOperation` of file.rs. Owners are the identifiers of open file descriptions.
pub mod Exclusion
mod Tests
use aether_kernel.Prelude.{
  ℕ, zero, suc, ◌^◌, Bool, true, false, ◌&&◌, ◌||◌, not, List, [], ◌∷◌, Option, some, none, ◌==◌,
  if◌then◌else◌,
}
use aether_kernel.Prelude.Maps.{BTreeMap, get, insert, remove}
use aether_kernel.Vfs.Types.{FsResult, ok, err, would_block, PollEvents}
use aether_kernel.Vfs.Wait
use aether_kernel.Vfs.Wait.{WaitQueue}

abbrev pub poll_lock : PollEvents
poll_lock = 2 ^ 6

pub data FlockOperation : Type 0 where
  shared exclusive unlock : FlockOperation

-- The lock of an inode and those who wait for it.
pub record FlockState : Type 0 where
  pub shared_owners : BTreeMap {0} Unit
  pub exclusive_owner : Option ℕ
  pub flock_waiters : WaitQueue

abbrev pub is_owner : ℕ → Option ℕ → Bool
is_owner owner none = false
is_owner owner (some holder) = holder == owner

abbrev pub is_some : Option ℕ → Bool
is_some none = false
is_some (some holder) = true

abbrev pub is_in : Option {0} Unit → Bool
is_in none = false
is_in (some u) = true

-- Whether another owner is among the shared ones.
unfoldable pub shared_by_others : ℕ → BTreeMap {0} Unit → Bool
shared_by_others owner [] = false
shared_by_others owner ((o, u) ∷ owners) =
    let rest = shared_by_others owner owners in not (o == owner) || rest

-- Those who wait are woken if the lock has changed.
abbrev notify_if : Bool → FlockState → FlockState
notify_if changed s =
    if changed then record s { flock_waiters = Wait.notify s.flock_waiters poll_lock } else s

unfoldable pub flock : FlockState → ℕ → FlockOperation → FsResult {0} Unit × FlockState
unfolding shared_by_others
flock s owner unlock =
    let removed_exclusive = is_owner owner s.exclusive_owner in
    (
      ok tt,
      notify_if (is_in (get owner s.shared_owners) || removed_exclusive) (record s {
        shared_owners = remove owner s.shared_owners;
        exclusive_owner = if removed_exclusive then none else s.exclusive_owner;
      }),
    )
flock s owner shared =
    let was_exclusive = is_owner owner s.exclusive_owner in
    if is_some s.exclusive_owner && not was_exclusive then (err would_block, s) else (
      ok tt,
      notify_if (was_exclusive || not (is_in (get owner s.shared_owners))) (record s {
        shared_owners = insert owner tt s.shared_owners;
        exclusive_owner = if was_exclusive then none else s.exclusive_owner;
      }),
    )
flock s owner exclusive =
    if is_owner owner s.exclusive_owner
    then (ok tt, s)
    else if is_some s.exclusive_owner || shared_by_others owner s.shared_owners
    then (err would_block, s)
    else (
      ok tt,
      notify_if true
          (record s { shared_owners = remove owner s.shared_owners; exclusive_owner = some owner }),
    )

unfoldable pub register_flock_waiter : FlockState → ℕ → ℕ × FlockState
unfolding Wait.register
register_flock_waiter s listener =
    let (id, waiters) = Wait.register s.flock_waiters poll_lock listener in
    (id, record s { flock_waiters = waiters })

unfoldable pub unregister_flock_waiter : FlockState → ℕ → Bool × FlockState
unfolding Wait.unregister
unregister_flock_waiter s waiter_id =
    let (found, waiters) = Wait.unregister s.flock_waiters waiter_id in
    (found, record s { flock_waiters = waiters })
