-- ===== src/Namespace.antt =====
-- aether-kernel/src/rootfs/namespace.rs: the mounts of a namespace, a stack for the root and one for
-- each path that is mounted on, whose end is the list's head here. What is mounted is opaque. The stacks
-- are kept by path, in an order that no operation depends on.
pub mod Mounts
pub mod Covering
pub mod Context
mod Tests
use aether_kernel.Prelude.{
  ℕ, zero, suc, ◌≡◌, Bool, true, false, not, ◌&&◌, ◌||◌, List, [], ◌∷◌, ◌++◌, Option, some, none,
  ltb, ◌==◌, if◌then◌else◌, length,
}
use aether_kernel.Vfs.Path.{normalize_absolute_path, root_text}
use aether_kernel.Vfs.Path.Str.{Text, slash, eq_text, strip_prefix, starts_with_slash}
use aether_kernel.Signal.Altstack.{SysErr, inval}

abbrev pub Stacks {ℓ} : Type ℓ → Type ℓ
Stacks Node = List (Text × List Node)

-- The root's stack is never empty: its end, and what lies under it.
pub record MountNamespace (Node : Type 0) : Type 0 where
  pub root : Node
  pub under : List Node
  pub mounts : Stacks Node

pub data SysResult {ℓ} (A : Type ℓ) : Type ℓ where
  ok : A → SysResult A
  fail : SysErr → SysResult A

abbrev pub at_slash : Option Text → Bool
at_slash none = false
at_slash (some rest) = starts_with_slash rest

unfoldable pub mount_path_matches : Text → Text → Bool
mount_path_matches path mount_path =
    eq_text path mount_path || at_slash (strip_prefix path mount_path)

-- The path that a mount below the source gets below the target.
abbrev pub moved_path : Text → Option Text → Text
moved_path target none = normalize_absolute_path target
moved_path target (some suffix) =
    normalize_absolute_path (if eq_text target root_text then suffix else target ++ suffix)

abbrev pub is_below : Text → Text → Bool
is_below source path = at_slash (strip_prefix path source)

module _ {Node : Type 0} where
  unfoldable pub new : Node → MountNamespace Node
  new root = record { root = root; under = []; mounts = [] }

  unfoldable pub root_mount : MountNamespace Node → Node
  root_mount ns = ns.root

  unfoldable pub get_stack : Text → Stacks Node → Option (List Node)
  get_stack path [] = none
  get_stack path ((p, stack) ∷ mounts) =
      if eq_text p path then some stack else get_stack path mounts

  unfoldable pub insert_stack : Text → List Node → Stacks Node → Stacks Node
  insert_stack path stack [] = (path, stack) ∷ []
  insert_stack path stack ((p, old) ∷ mounts) =
      let rest = insert_stack path stack mounts in
      if eq_text p path then (path, stack) ∷ mounts else (p, old) ∷ rest

  unfoldable pub remove_stack : Text → Stacks Node → Stacks Node
  remove_stack path [] = []
  remove_stack path ((p, stack) ∷ mounts) =
      let rest = remove_stack path mounts in if eq_text p path then rest else (p, stack) ∷ rest

  abbrev pub last_of : Option (List Node) → Option Node
  last_of none = none
  last_of (some []) = none
  last_of (some (node ∷ stack)) = some node

  unfoldable pub lookup_mount : MountNamespace Node → Text → Option Node
  lookup_mount ns path =
      if eq_text path root_text then some ns.root else last_of (get_stack path ns.mounts)

  abbrev pub select : Option Node → ℕ → Node × ℕ → Node × ℕ
  select none mount_len selected = selected
  select (some node) mount_len selected = (node, mount_len)

  -- One round of the loop of `covering_mount`, with what is selected and the length of its path.
  unfoldable pub cover_step : Text → Node × ℕ → Text × List Node → Node × ℕ
  unfolding mount_path_matches
  cover_step path selected (mount_path, stack) =
      if not (mount_path_matches path mount_path)
      then selected
      else if ltb (length mount_path) selected.1
      then selected
      else select (last_of (some stack)) (length mount_path) selected

  unfoldable pub cover_all : Text → Node × ℕ → Stacks Node → Node × ℕ
  cover_all path selected [] = selected
  cover_all path selected (entry ∷ mounts) = cover_all path (cover_step path selected entry) mounts

  unfoldable pub covering_mount : MountNamespace Node → Text → Node
  covering_mount ns path = (cover_all (normalize_absolute_path path) (ns.root, 1) ns.mounts).0

  abbrev pub or_empty : Option (List Node) → List Node
  or_empty none = []
  or_empty (some stack) = stack

  -- `entry(target).or_default().push(node)`, or a push on the root's stack.
  unfoldable pub push_mount : MountNamespace Node → Text → Node → MountNamespace Node
  push_mount ns target node =
      if eq_text target root_text
      then record ns { root = node; under = ns.root ∷ ns.under }
      else record ns {
        mounts = insert_stack target (node ∷ or_empty (get_stack target ns.mounts)) ns.mounts;
      }

  unfoldable pub mount :
      MountNamespace Node → Text → Node → SysResult {0} Unit × MountNamespace Node
  unfolding push_mount
  mount ns target node = (ok tt, push_mount ns (normalize_absolute_path target) node)

  abbrev pub put_stack : Text → List Node → Stacks Node → Stacks Node
  put_stack path [] mounts = remove_stack path mounts
  put_stack path (node ∷ stack) mounts = insert_stack path (node ∷ stack) mounts

  abbrev pub pop_found :
      MountNamespace Node → Text → Option (List Node) → Option (Node × MountNamespace Node)
  pop_found ns path none = none
  pop_found ns path (some []) = none
  pop_found ns path (some (node ∷ stack)) =
      some (node, record ns { mounts = put_stack path stack ns.mounts })

  -- The last mount taken off the stack of a path, whose entry goes with the last of it.
  unfoldable pub pop_mount : MountNamespace Node → Text → Option (Node × MountNamespace Node)
  pop_mount ns path = pop_found ns path (get_stack path ns.mounts)

  abbrev pub unmounted :
      MountNamespace Node
      → Option (Node × MountNamespace Node)
      → SysResult {0} Unit × MountNamespace Node
  unmounted ns none = (fail inval, ns)
  unmounted ns (some (node, ns')) = (ok tt, ns')

  abbrev pub pop_root : MountNamespace Node → List Node → SysResult {0} Unit × MountNamespace Node
  pop_root ns [] = (fail inval, ns)
  pop_root ns (node ∷ under) = (ok tt, record ns { root = node; under = under })

  unfoldable pub unmount : MountNamespace Node → Text → SysResult {0} Unit × MountNamespace Node
  unfolding pop_mount
  unmount ns target =
      let path = normalize_absolute_path target in
      if eq_text path root_text then pop_root ns ns.under else unmounted ns (pop_mount ns path)

  -- The stacks below the source, at their new paths.
  unfoldable pub moved_stacks : Text → Text → Stacks Node → Stacks Node
  moved_stacks source target [] = []
  moved_stacks source target ((p, stack) ∷ mounts) =
      let rest = moved_stacks source target mounts in
      if is_below source p
      then insert_stack (moved_path target (strip_prefix p source)) stack rest
      else rest

  unfoldable pub without_below : Text → Stacks Node → Stacks Node
  without_below source [] = []
  without_below source ((p, stack) ∷ mounts) =
      let rest = without_below source mounts in
      if is_below source p then rest else (p, stack) ∷ rest

  -- The stacks that move, and the mounts without them.
  unfoldable pub rewrite_descendant_mounts : Text → Text → Stacks Node → Stacks Node × Stacks Node
  unfolding moved_stacks without_below
  rewrite_descendant_mounts source target mounts =
      if eq_text source root_text
      then ([], mounts)
      else (moved_stacks source target mounts, without_below source mounts)

  unfoldable pub insert_all : Stacks Node → Stacks Node → Stacks Node
  insert_all [] mounts = mounts
  insert_all ((p, stack) ∷ moved) mounts = insert_all moved (insert_stack p stack mounts)

  abbrev pub move_taken :
      Text
      → Text
      → Option (Node × MountNamespace Node)
      → MountNamespace Node
      → SysResult {0} Unit × MountNamespace Node
  move_taken source target none ns = (fail inval, ns)
  move_taken source target (some (node, taken)) ns =
      let (moved, left) = rewrite_descendant_mounts source target taken.mounts in
      let ns' = push_mount (record taken { mounts = left }) target node in
      (ok tt, record ns' { mounts = insert_all moved ns'.mounts })

  unfoldable pub move_mount :
      MountNamespace Node → Text → Text → SysResult {0} Unit × MountNamespace Node
  unfolding pop_mount push_mount rewrite_descendant_mounts insert_all
  move_mount ns source target =
      let from_path = normalize_absolute_path source in
      let to_path = normalize_absolute_path target in
      move_taken from_path to_path
        (if eq_text from_path root_text then some (ns.root, ns) else pop_mount ns from_path) ns
