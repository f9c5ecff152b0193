-- ===== src/Buddy/Valid.antt =====
-- Well-formed states of the allocator of buddy.rs, and how its lists keep them.
use aether_kernel.Prelude.{
  ℕ, suc, ◌+◌, ◌≤◌, ◌<◌, ◌≡◌, refl, ap, false, List, [], ◌∷◌, none, some, arith, ltb, ◌==◌,
  if◌then◌else◌, Bool-cases, inl, inr, All, length,
}
use mathlib.Core.Path.{subst}
use native.Mathlib.Nat.{one-le-pow}
use aether_kernel.Buddy.{
  BlockNode, NodeList, BuddyAllocator, max_order_slots, insert_sorted, remove_start, cons_some,
}
use aether_kernel.Buddy.Align.{IsAligned}
use aether_kernel.Buddy.Weight.{Weight, weigh, total, cover}

-- A free block in the list of an order, or in a cache for it.
abbrev pub IsFree : ℕ → BlockNode → Type 0
IsFree k b = IsAligned k b.start × (b.order ≡ k) × (b.refcount ≡ 0)

abbrev pub IsFiled : ℕ → NodeList → Type 0
IsFiled k l = All (IsFree k) l.blocks × (l.len ≡ length l.blocks)

-- An allocated block; at most `max_order` large and held by someone.
abbrev pub IsAllocated : ℕ → BlockNode → Type 0
IsAllocated max_order b = IsAligned b.order b.start × (b.order ≤ max_order) × (0 < b.refcount)

pub record IsValid (s : BuddyAllocator) : Type 0 where
  pub slots : s.max_order < max_order_slots
  pub filed : (k : ℕ) → IsFiled k (s.global_free k)
  pub cached : (c k : ℕ) → IsFiled k (s.per_cpu c k)
  pub allocated : All (IsAllocated s.max_order) s.allocations.blocks
  pub counted : s.allocations.len ≡ length s.allocations.blocks

-- What the operations on free blocks leave alone.
abbrev pub IsKept : BuddyAllocator → BuddyAllocator → Type 0
IsKept s s' =
    (s'.max_order ≡ s.max_order) × (s'.cpu_count ≡ s.cpu_count) × (s'.allocations ≡ s.allocations)

-- A block more.
abbrev pub IsGrown : BuddyAllocator → BuddyAllocator → ℕ → ℕ → Type 0
IsGrown s s' a k = IsValid s' × IsKept s s' × ((w : Weight) → total w s' ≡ total w s + w a k)

-- A block less.
abbrev pub IsShrunk : BuddyAllocator → BuddyAllocator → ℕ → ℕ → Type 0
IsShrunk s s' a k = IsValid s' × IsKept s s' × ((w : Weight) → total w s ≡ total w s' + w a k)

cover-apart : (f a k : ℕ) → cover f a k ≡ 0 → (a == f) ≡ false
cover-apart f a k h = ground (arith, one-le-pow k 2)

pub insert_sorted-fits :
    (k : ℕ) (b : BlockNode) (blocks : List BlockNode)
    → weigh (cover b.start) k blocks ≡ 0
    → IsFree k b
    → All (IsFree k) blocks
    → (after : List BlockNode) × (insert_sorted b blocks ≡ some after)
      × ((w : Weight) → weigh w k after ≡ w b.start k + weigh w k blocks)
      × All (IsFree k) after
      × (length after ≡ suc (length blocks))
unfolding insert_sorted
insert_sorted-fits k b [] h f all = (b ∷ [], refl, (λ w. refl), (f, tt), refl)
insert_sorted-fits k b (c ∷ blocks) h f all =
    let differs : (c.start == b.start) ≡ false = cover-apart b.start c.start k (omega (arith, h)) in
    elim (Bool-cases (ltb b.start c.start)) [
      | inl e ↦ (b ∷ c ∷ blocks, rw (differs, e) refl, (λ w. refl), (f, all), refl)
      | inr e ↦
          (let (after, p, q, g, n) = insert_sorted-fits k b blocks (omega (arith, h)) f all.1 in
            (c ∷ after, rw (differs, e, p) refl, (λ w. omega (arith, q w)), (all.0, g), ap suc n))
    ]

pub remove_start-takes :
    (k start : ℕ) (blocks after : List BlockNode)
    → remove_start start blocks ≡ some after
    → ((w : Weight) → weigh w k blocks ≡ weigh w k after + w start k)
      × (All (IsFree k) blocks → All (IsFree k) after)
      × (length blocks ≡ suc (length after))
unfolding remove_start
remove_start-takes k start [] after h = ground (arith, h)
remove_start-takes k start (c ∷ blocks) after h = elim (Bool-cases (c.start == start)) [
  | inl e ↦
      (let same : blocks ≡ after = ground (arith, e, h) in
        let at : c.start ≡ start = ground (arith, e) in
        (
          (λ w. rw (at, same) (omega arith)),
          (λ all. subst (All (IsFree k)) same all.1),
          rw same refl,
        ))
  | inr e ↦
      (let (rest, p, q) = past c.start start blocks after e h in
        let r = remove_start-takes k start blocks rest p in
        rw⁻¹ q ((λ w. omega (arith, r.0 w)), (λ all. (all.0, r.1 all.1)), ap suc r.2))
]
  where
    past :
        (a start : ℕ) (blocks after : List BlockNode)
        → (a == start) ≡ false
        → (if a == start
            then some blocks
            else if ltb start a
            then none
            else cons_some c (remove_start start blocks))
          ≡ some after
        → (rest : List BlockNode) × (remove_start start blocks ≡ some rest) × (c ∷ rest ≡ after)
    past a start blocks after e h = ground (arith, e, h)
