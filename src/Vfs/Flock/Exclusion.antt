-- ===== src/Vfs/Flock/Exclusion.antt =====
-- Who holds the lock of inode.rs, through any sequence of calls.
use aether_kernel.Prelude.{
  ℕ, ◌≡◌, refl, Bool, true, false, ◌||◌, not, List, [], ◌∷◌, ◌==◌, if◌then◌else◌, arith, ◌⊎◌, inl,
  inr, Bool-cases, Option, some, none, ◌&&◌, ==_self,
}
use aether_kernel.Prelude.Maps.{BTreeMap, get, get-insert, get-remove}
use aether_kernel.Vfs.Types.{FsResult, ok, err}
use aether_kernel.Vfs.Flock.{
  FlockOperation, shared, exclusive, unlock, FlockState, is_owner, is_some, is_in, shared_by_others,
  flock,
}

-- Whether an owner holds the lock, alone or with others.
abbrev pub holds_exclusive : FlockState → ℕ → Bool
holds_exclusive s o = is_owner o s.exclusive_owner

abbrev pub holds_shared : FlockState → ℕ → Bool
holds_shared s o = is_in (get o s.shared_owners)

-- Who holds the lock exclusively excludes every shared holder, itself too.
abbrev pub IsExclusive : FlockState → Type 0
IsExclusive s = (o u : ℕ) → holds_exclusive s o ≡ true → holds_shared s u ≡ false

pub data Call : Type 0 where
  call : ℕ → FlockOperation → Call

unfoldable pub run : FlockState → List Call → FlockState
run s [] = s
run s (call owner operation ∷ calls) = run (flock s owner operation).1 calls

alone :
    (owner u : ℕ) (owners : BTreeMap {0} Unit)
    → shared_by_others owner owners ≡ false
    → (u == owner) ≡ false
    → is_in (get u owners) ≡ false
unfolding shared_by_others get
alone owner u [] h n = refl
alone owner u ((o, x) ∷ owners) h n = ground (arith, h, n, alone owner u owners)

flock-IsExclusive :
    (s : FlockState) (owner : ℕ) (operation : FlockOperation)
    → IsExclusive s
    → IsExclusive (flock s owner operation).1
unfolding flock
flock-IsExclusive s owner unlock h =
    λ o u. ground (arith, h o u, get-remove owner u s.shared_owners)
flock-IsExclusive s owner shared h =
    λ o u. ground (arith, h o u, get-insert owner u tt s.shared_owners)
flock-IsExclusive s owner exclusive h =
    λ o u. ground (arith, h o u, get-remove owner u s.shared_owners, alone owner u s.shared_owners)

-- Through any sequence of calls by any owners, an owner that holds the lock exclusively holds it alone:
-- no owner, itself included, is among the shared holders.
pub run-IsExclusive :
    (calls : List Call) (s : FlockState) → IsExclusive s → IsExclusive (run s calls)
unfolding run
run-IsExclusive [] s h = h
run-IsExclusive (call owner operation ∷ calls) s h =
    run-IsExclusive calls (flock s owner operation).1 (flock-IsExclusive s owner operation h)

abbrev pub wants_exclusive : FlockOperation → Bool
wants_exclusive exclusive = true
wants_exclusive _ = false

abbrev pub wants_shared : FlockOperation → Bool
wants_shared shared = true
wants_shared _ = false

abbrev pub succeeds : FsResult {0} Unit → Bool
succeeds (ok u) = true
succeeds (err e) = false

-- Another owner holds the lock in a way that stands against the operation.
abbrev pub IsRefused : FlockState → ℕ → FlockOperation → Type 0
IsRefused s owner operation =
    (holder : ℕ) × ((holder == owner) ≡ false)
    × ((((wants_exclusive operation || wants_shared operation) ≡ true)
          × (holds_exclusive s holder ≡ true))
        ⊎ ((wants_exclusive operation ≡ true) × (holds_shared s holder ≡ true)))

pub shared_holder :
    (owner : ℕ) (owners : BTreeMap {0} Unit)
    → shared_by_others owner owners ≡ true
    → (u : ℕ) × ((u == owner) ≡ false) × (is_in (get u owners) ≡ true)
unfolding shared_by_others get
shared_holder owner [] h = ground (arith, h)
shared_holder owner ((o, x) ∷ owners) h = elim (Bool-cases (o == owner)) [
  | inr n ↦ (o, n, ground (arith, ==_self o))
  | inl e ↦
      (let (u, n, p) = shared_holder owner owners (ground (arith, e, h)) in
        (u, n, ground (arith, p)))
]

another_holder :
    (owner : ℕ) (o : Option ℕ)
    → is_some o ≡ true
    → is_owner owner o ≡ false
    → (holder : ℕ) × ((holder == owner) ≡ false) × (is_owner holder o ≡ true)
another_holder owner none h n = ground (arith, h)
another_holder owner (some holder) h n = (holder, n, ground (arith, ==_self holder))

-- A call fails only where another owner stands against it.
flock-IsRefused :
    (s : FlockState) (owner : ℕ) (operation : FlockOperation)
    → (succeeds (flock s owner operation).0 ≡ true) ⊎ IsRefused s owner operation
unfolding flock
flock-IsRefused s owner unlock = inl refl
flock-IsRefused s owner shared =
    elim (Bool-cases (is_some s.exclusive_owner && not (is_owner owner s.exclusive_owner))) [
      | inr e ↦ rw e (inl refl)
      | inl e ↦
          (let (u, n, p) =
              another_holder owner s.exclusive_owner (ground (arith, e)) (ground (arith, e)) in
            inr (u, n, inl (refl, p)))
    ]
flock-IsRefused s owner exclusive = elim (Bool-cases (is_owner owner s.exclusive_owner)) [
  | inl e ↦ rw e (inl refl)
  | inr e ↦ elim (Bool-cases (is_some s.exclusive_owner)) [
    | inl o ↦
        (let (u, n, p) = another_holder owner s.exclusive_owner o e in inr (u, n, inl (refl, p)))
    | inr o ↦ elim (Bool-cases (shared_by_others owner s.shared_owners)) [
      | inl b ↦ (let (u, n, p) = shared_holder owner s.shared_owners b in inr (u, n, inr (refl, p)))
      | inr b ↦ rw (e, o, b) (inl refl)
    ]
  ]
]

-- When a call succeeds, its owner holds the lock the way it asked for and no other way, and what
-- others hold is as before; when it fails, what its owner and the others hold is as before. Giving the
-- lock up always succeeds. Asking for it shared fails if another owner holds it exclusively, and
-- asking for it exclusively fails if another owner holds it either way; neither fails otherwise.
pub flock_lem :
    (s : FlockState) (owner other : ℕ) (operation : FlockOperation)
    → (other == owner) ≡ false
    → IsExclusive s
    → let (result, s') = flock s owner operation in
      (holds_exclusive s' owner
        ≡ (if succeeds result then wants_exclusive operation else holds_exclusive s owner))
      × (holds_shared s' owner
          ≡ (if succeeds result then wants_shared operation else holds_shared s owner))
      × (holds_exclusive s' other ≡ holds_exclusive s other)
      × (holds_shared s' other ≡ holds_shared s other)
      × (holds_exclusive s other ≡ true
          → succeeds result ≡ (not (wants_exclusive operation || wants_shared operation)))
      × (holds_shared s other ≡ true → wants_exclusive operation ≡ true → succeeds result ≡ false)
      × ((succeeds result ≡ true) ⊎ IsRefused s owner operation)
unfolding flock
flock_lem s owner other unlock n h = ground (
  arith,
  n,
  get-remove owner owner s.shared_owners,
  get-remove owner other s.shared_owners,
  flock-IsRefused s owner unlock,
)
flock_lem s owner other shared n h = ground (
  arith,
  n,
  get-insert owner owner tt s.shared_owners,
  get-insert owner other tt s.shared_owners,
  flock-IsRefused s owner shared,
)
flock_lem s owner other exclusive n h = ground (
  arith,
  n,
  h owner owner,
  h owner other,
  get-remove owner owner s.shared_owners,
  get-remove owner other s.shared_owners,
  alone owner other s.shared_owners,
  flock-IsRefused s owner exclusive,
)
