-- ===== src/Prelude/Maps.antt =====
-- `BTreeMap` with numeric keys: an association list that insertion keeps in key order.
use mathlib.Core.List.{List, [], ◌∷◌}
use mathlib.Core.Option.{Option, none, some}
use mathlib.Core.Path.{◌≡◌, refl}
use mathlib.Core.Bool.{Bool, ◌&&◌}
use Prim.Native.Nat.{ℕ, suc, ◌≤◌, ◌<◌}
use native.Mathlib.Omega.{arith}
use aether_kernel.Prelude.Tests.{ltb, leb, ◌==◌, if◌then◌else◌}
use aether_kernel.Prelude.Lists.{length}

abbrev pub BTreeMap {ℓ} : Type ℓ → Type ℓ
BTreeMap V = List (ℕ × V)

module _ {ℓ} {V : Type ℓ} where
  unfoldable pub get : ℕ → BTreeMap V → Option V
  get k [] = none
  get k ((j, v) ∷ m) = if j == k then some v else get k m

  unfoldable pub insert : ℕ → V → BTreeMap V → BTreeMap V
  insert k v [] = (k, v) ∷ []
  insert k v ((j, w) ∷ m) =
      let rest = insert k v m in
      if j == k then (k, v) ∷ m else if ltb k j then (k, v) ∷ (j, w) ∷ m else (j, w) ∷ rest

  unfoldable pub remove : ℕ → BTreeMap V → BTreeMap V
  remove k [] = []
  remove k ((j, w) ∷ m) = let rest = remove k m in if j == k then rest else (j, w) ∷ rest

  unfoldable pub retain : (ℕ → V → Bool) → BTreeMap V → BTreeMap V
  retain keep [] = []
  retain keep ((j, w) ∷ m) = let rest = retain keep m in if keep j w then (j, w) ∷ rest else rest

  pub get-insert :
      (k j : ℕ) (v : V) (m : BTreeMap V)
      → get j (insert k v m) ≡ (if k == j then some v else get j m)
  unfolding get insert
  get-insert k j v [] = refl
  get-insert k j v ((i, w) ∷ m) = ground (arith, get-insert k j v m)

  pub get-remove :
      (k j : ℕ) (m : BTreeMap V) → get j (remove k m) ≡ (if k == j then none else get j m)
  unfolding get remove
  get-remove k j [] = ground arith
  get-remove k j ((i, w) ∷ m) = ground (arith, get-remove k j m)

  -- Every key is above `k`.
  abbrev pub Above : ℕ → BTreeMap V → Type 0
  Above k [] = Unit
  Above k ((j, w) ∷ m) = (k < j) × Above k m

  abbrev pub IsOrdered : BTreeMap V → Type 0
  IsOrdered [] = Unit
  IsOrdered ((k, v) ∷ m) = Above k m × IsOrdered m

  pub Above-trans : (i k : ℕ) (m : BTreeMap V) → i < k → Above k m → Above i m
  Above-trans i k [] h a = tt
  Above-trans i k ((j, w) ∷ m) h a = (omega arith, Above-trans i k m h a.1)

  pub Above-insert : (i k : ℕ) (v : V) (m : BTreeMap V) → i < k → Above i m → Above i (insert k v m)
  unfolding insert
  Above-insert i k v [] h a = (h, tt)
  Above-insert i k v ((j, w) ∷ m) h a = ground (arith, Above-insert i k v m h a.1)

  pub IsOrdered-insert : (k : ℕ) (v : V) (m : BTreeMap V) → IsOrdered m → IsOrdered (insert k v m)
  unfolding insert
  IsOrdered-insert k v [] h = (tt, tt)
  IsOrdered-insert k v ((j, w) ∷ m) h =
      ground (arith, Above-trans k j m, Above-insert j k v m, IsOrdered-insert k v m h.1)

  pub Above-remove : (i k : ℕ) (m : BTreeMap V) → Above i m → Above i (remove k m)
  unfolding remove
  Above-remove i k [] a = tt
  Above-remove i k ((j, w) ∷ m) a = ground (arith, Above-remove i k m a.1)

  pub IsOrdered-remove : (k : ℕ) (m : BTreeMap V) → IsOrdered m → IsOrdered (remove k m)
  unfolding remove
  IsOrdered-remove k [] h = tt
  IsOrdered-remove k ((j, w) ∷ m) h =
      ground (arith, Above-remove j k m h.0, IsOrdered-remove k m h.1)

  pub get-Above : (k j : ℕ) (m : BTreeMap V) → Above k m → j ≤ k → get j m ≡ none
  unfolding get
  get-Above k j [] a h = refl
  get-Above k j ((i, w) ∷ m) a h = ground (arith, get-Above k j m a.1 h)

  pub Above-retain :
      (keep : ℕ → V → Bool) (i : ℕ) (m : BTreeMap V) → Above i m → Above i (retain keep m)
  unfolding retain
  Above-retain keep i [] a = tt
  Above-retain keep i ((j, w) ∷ m) a = ground (arith, Above-retain keep i m a.1)

  pub IsOrdered-retain :
      (keep : ℕ → V → Bool) (m : BTreeMap V) → IsOrdered m → IsOrdered (retain keep m)
  unfolding retain
  IsOrdered-retain keep [] h = tt
  IsOrdered-retain keep ((j, w) ∷ m) h =
      ground (arith, Above-retain keep j m h.0, IsOrdered-retain keep m h.1)

  -- What survives a retain is what the test keeps.
  abbrev pub kept : (ℕ → V → Bool) → ℕ → Option V → Option V
  kept keep k none = none
  kept keep k (some v) = if keep k v then some v else none

  pub get-retain :
      (keep : ℕ → V → Bool) (k : ℕ) (m : BTreeMap V)
      → IsOrdered m
      → get k (retain keep m) ≡ kept keep k (get k m)
  unfolding get retain
  get-retain keep k [] h = refl
  get-retain keep k ((j, w) ∷ m) h =
      ground
        (arith, get-retain keep k m h.1, get-Above j k (retain keep m) (Above-retain keep j m h.0))

  -- `split_off`: what stays, and the part from `k` on.
  unfoldable pub split_off : ℕ → BTreeMap V → BTreeMap V × BTreeMap V
  split_off k m = (retain (λ j v. ltb j k) m, retain (λ j v. leb k j) m)

  unfoldable pub append : BTreeMap V → BTreeMap V → BTreeMap V
  append m [] = m
  append m ((k, v) ∷ other) = append (insert k v m) other

  abbrev pub or_else : Option V → Option V → Option V
  or_else none o = o
  or_else (some v) o = some v

  pub get-append :
      (k : ℕ) (m other : BTreeMap V)
      → IsOrdered other
      → get k (append m other) ≡ or_else (get k other) (get k m)
  unfolding append get
  get-append k m [] h = refl
  get-append k m ((j, v) ∷ other) h =
      ground
        (arith, get-append k (insert j v m) other h.1, get-insert j k v m, get-Above j k other h.0)

  -- The values whose keys lie from `first` to `last`, changed in place.
  unfoldable pub update_range : (V → V) → ℕ → ℕ → BTreeMap V → BTreeMap V
  update_range f first last [] = []
  update_range f first last ((k, v) ∷ m) =
      let rest = update_range f first last m in
      if leb first k && leb k last then (k, f v) ∷ rest else (k, v) ∷ rest

  abbrev pub updated : (V → V) → Bool → Option V → Option V
  updated f b none = none
  updated f b (some v) = some (if b then f v else v)

  pub Above-update_range :
      (f : V → V) (first last i : ℕ) (m : BTreeMap V)
      → Above i m
      → Above i (update_range f first last m)
  unfolding update_range
  Above-update_range f first last i [] h = tt
  Above-update_range f first last i ((j, v) ∷ m) h =
      ground (arith, Above-update_range f first last i m h.1)

  pub IsOrdered-update_range :
      (f : V → V) (first last : ℕ) (m : BTreeMap V)
      → IsOrdered m
      → IsOrdered (update_range f first last m)
  unfolding update_range
  IsOrdered-update_range f first last [] h = tt
  IsOrdered-update_range f first last ((j, v) ∷ m) h =
      ground
        (arith, Above-update_range f first last j m h.0, IsOrdered-update_range f first last m h.1)

  -- The number of keys from `k` on.
  unfoldable pub count_from : ℕ → BTreeMap V → ℕ
  count_from k [] = 0
  count_from k ((j, v) ∷ m) = let rest = count_from k m in if leb k j then suc rest else rest

  pub count_from-le : (k : ℕ) (m : BTreeMap V) → count_from k m ≤ length m
  unfolding count_from
  count_from-le k [] = omega arith
  count_from-le k ((j, v) ∷ m) = ground (arith, count_from-le k m)

  count_from-suc : (k : ℕ) (m : BTreeMap V) → count_from (suc k) m ≤ count_from k m
  unfolding count_from
  count_from-suc k [] = omega arith
  count_from-suc k ((j, v) ∷ m) = ground (arith, count_from-suc k m)

  -- A key that is in the map is not among those above it.
  pub count_from-get :
      (k : ℕ) (m : BTreeMap V) (v : V) → get k m ≡ some v → count_from (suc k) m < count_from k m
  unfolding count_from get
  count_from-get k [] v h = ground (arith, h)
  count_from-get k ((j, w) ∷ m) v h = ground (arith, count_from-suc k m, count_from-get k m v)

module _ {V : Type 0} where
  pub get-update_range :
      (f : V → V) (first last k : ℕ) (m : BTreeMap V)
      → get k (update_range f first last m) ≡ updated f (leb first k && leb k last) (get k m)
  unfolding get update_range
  get-update_range f first last k [] = refl
  get-update_range f first last k ((j, v) ∷ m) = ground (arith, get-update_range f first last k m)
