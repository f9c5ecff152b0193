-- ===== src/Signal/State/Delivery.antt =====
-- Which pending signal `take_next_delivery` of state.rs delivers.
use aether_kernel.Prelude.{
  ℕ, zero, suc, ◌+◌, ◌≤◌, ◌<◌, ◌≡◌, inl, inr, refl, Bool, true, false, not, none, ◌==◌, arith,
  Bool-cases, ==_iff, set,
}
use aether_kernel.Signal.Abi.{SigSet, signal_max}
use aether_kernel.Signal.Core.{SignalDelivery}
use aether_kernel.Signal.State.{SignalState, Store, Actions, Pending, action_at, pending_at}
use aether_kernel.Signal.State.Queue.{
  is_none, slot_delivery, deliverable_from, take_from, has_deliverable, take_next_delivery,
}

-- What the slot of signal `i` would deliver.
abbrev pub slot : Store → SignalState → Bool → ℕ → SignalDelivery
slot store s supported i =
    slot_delivery s.inner.blocked (action_at (store.tables s.actions) i) supported
      (pending_at s.inner.pending i)

module _ (actions : Actions) (blocked : SigSet) (supported : Bool) (p : Pending) where
  abbrev slot_at : ℕ → SignalDelivery
  slot_at i = slot_delivery blocked (action_at actions i) supported (pending_at p i)

  take_from-lowest :
      (n k i : ℕ)
      → k ≤ i
      → i < k + n
      → ((j : ℕ) → k ≤ j → j < i → is_none (slot_at j) ≡ true)
      → is_none (slot_at i) ≡ false
      → take_from actions blocked supported n k p ≡ (slot_at i, set p i none)
  unfolding take_from
  take_from-lowest zero k i h l quiet found = absurd (omega arith)
  take_from-lowest (suc n) k i h l quiet found = elim (Bool-cases (k == i)) [
    | inl e ↦
        let q : k ≡ i = (==_iff k i).0 e in
        let found' : is_none (slot_at k) ≡ false = rw (← q) at found in rw found' (rw q refl)
    | inr e ↦ rw (quiet k (omega arith) (ground arith)) (
        take_from-lowest n (k + 1) i (ground arith) (omega arith) (λ j g. quiet j (omega arith))
          found)
  ]

  -- A slot in the range of the loop that has something to deliver is enough.
  deliverable_from_slot :
      (n k i : ℕ)
      → k ≤ i
      → i < k + n
      → is_none (slot_at i) ≡ false
      → deliverable_from actions blocked supported n k p ≡ true
  unfolding deliverable_from
  deliverable_from_slot zero k i h l found = absurd (omega arith)
  deliverable_from_slot (suc n) k i h l found = elim (Bool-cases (k == i)) [
    | inl e ↦
        let q : k ≡ i = (==_iff k i).0 e in
        let found' : is_none (slot_at k) ≡ false = rw (← q) at found in rw found' refl
    | inr e ↦
        let rest = deliverable_from_slot n (k + 1) i (ground arith) (omega arith) found in
        rw rest (ground arith)
  ]

  deliverable_from-take_from :
      (n k : ℕ)
      → deliverable_from actions blocked supported n k p
        ≡ not (is_none (take_from actions blocked supported n k p).0)
  unfolding take_from deliverable_from
  deliverable_from-take_from zero k = refl
  deliverable_from-take_from (suc n) k = ground (arith, deliverable_from-take_from n (k + 1))

-- The lowest signal that has something to deliver is delivered: its delivery is returned, its slot
-- is emptied, and nothing else of the state changes.
pub take_next_delivery-lowest :
    (store : Store) (s : SignalState) (supported : Bool) (i : ℕ)
    → 1 ≤ i
    → i ≤ signal_max
    → ((j : ℕ) → 1 ≤ j → j < i → is_none (slot store s supported j) ≡ true)
    → is_none (slot store s supported i) ≡ false
    → take_next_delivery store s supported ≡ (
      slot store s supported i,
      record s { inner = record (s.inner) { pending = set s.inner.pending i none } },
    )
unfolding take_next_delivery
take_next_delivery-lowest store s supported i l h quiet found =
    rw
      (take_from-lowest (store.tables s.actions) s.inner.blocked supported s.inner.pending
        signal_max 1 i l (omega arith) quiet found)
      refl

-- `has_deliverable` holds exactly when `take_next_delivery` returns a delivery.
pub has_deliverable_lem :
    (store : Store) (s : SignalState) (supported : Bool)
    → has_deliverable store s supported ≡ not (is_none (take_next_delivery store s supported).0)
unfolding has_deliverable take_next_delivery
has_deliverable_lem store s supported =
    deliverable_from-take_from (store.tables s.actions) s.inner.blocked supported s.inner.pending
      signal_max 1

pub has_deliverable-slot :
    (store : Store) (s : SignalState) (supported : Bool) (i : ℕ)
    → 1 ≤ i
    → i ≤ signal_max
    → is_none (slot store s supported i) ≡ false
    → has_deliverable store s supported ≡ true
unfolding has_deliverable
has_deliverable-slot store s supported i l h found =
    deliverable_from_slot (store.tables s.actions) s.inner.blocked supported s.inner.pending
      signal_max 1 i l (omega arith) found
