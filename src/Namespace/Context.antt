-- ===== src/Namespace/Context.antt =====
-- `ProcessFsContext` of aether-kernel/src/rootfs/namespace.rs: the root and the current directory of a
-- process. Its state stands behind an `Arc` that a clone shares and `fork_copy` does not, so states
-- live in a store, and a context is an address. The namespace is the address of one that all share.
use aether_kernel.Prelude.{ℕ, ◌+◌, ◌<◌, ◌≡◌, ◌==◌, if◌then◌else◌, arith, ==_self}
use aether_kernel.Vfs.Path
use aether_kernel.Vfs.Path.{VfsPath, root_text}
use aether_kernel.Vfs.Path.Str.{Text}
use aether_kernel.Namespace
use aether_kernel.Namespace.{MountNamespace}

-- A node and a directory entry are addresses.
abbrev pub FsLocation : Type 0
FsLocation = VfsPath ℕ ℕ

pub record ProcessFsState : Type 0 where
  pub namespace : ℕ
  pub root : FsLocation
  pub cwd : FsLocation

-- The states by address, those from `next` on being free, and the namespaces.
pub record Store : Type 0 where
  pub next : ℕ
  pub states : ℕ → ProcessFsState
  pub namespaces : ℕ → MountNamespace ℕ

abbrev pub ProcessFsContext : Type 0
ProcessFsContext = ℕ

abbrev alloc : Store → ProcessFsState → ProcessFsContext × Store
alloc store state = (
  store.next,
  record store {
    next = store.next + 1;
    states = λ c. if store.next == c then state else store.states c;
  },
)

abbrev put : Store → ProcessFsContext → ProcessFsState → Store
put store c state = record store { states = λ d. if c == d then state else store.states d }

-- The location is "/" at what is mounted last on the root of the namespace. `node` is the method of
-- what is mounted.
unfoldable pub new : (ℕ → ℕ) → Store → ℕ → ProcessFsContext × Store
unfolding Path.new Namespace.root_mount
new node store namespace =
    let root = Path.new root_text (node (Namespace.root_mount (store.namespaces namespace))) in
    alloc store (record { namespace = namespace; root = root; cwd = root })

unfoldable pub fork_copy : Store → ProcessFsContext → ProcessFsContext × Store
fork_copy store c = alloc store (store.states c)

unfoldable pub root_path : Store → ProcessFsContext → Text
root_path store c = (store.states c).root.path

unfoldable pub cwd_path : Store → ProcessFsContext → Text
cwd_path store c = (store.states c).cwd.path

unfoldable pub root_node : Store → ProcessFsContext → ℕ
root_node store c = (store.states c).root.node

unfoldable pub cwd_node : Store → ProcessFsContext → ℕ
cwd_node store c = (store.states c).cwd.node

unfoldable pub set_root_location : Store → ProcessFsContext → FsLocation → Store
set_root_location store c location = put store c (record (store.states c) { root = location })

unfoldable pub set_cwd_location : Store → ProcessFsContext → FsLocation → Store
set_cwd_location store c location = put store c (record (store.states c) { cwd = location })

unfoldable pub rebind_root_path : Store → ProcessFsContext → Text → Store
unfolding Path.rebind_path
rebind_root_path store c path =
    let state = store.states c in
    put store c (record state { root = Path.rebind_path state.root path })

unfoldable pub rebind_cwd_path : Store → ProcessFsContext → Text → Store
unfolding Path.rebind_path
rebind_cwd_path store c path =
    let state = store.states c in
    put store c (record state { cwd = Path.rebind_path state.cwd path })

-- A process that has been forked finds the directories of its parent, and what either sets afterwards is
-- not seen by the other.
pub set_cwd_location-fork_copy :
    (store : Store) (c : ProcessFsContext) (location : FsLocation)
    → c < store.next
    → let (child, forked) = fork_copy store c in
      (forked.states child ≡ store.states c)
      × (cwd_path (set_cwd_location forked child location) c ≡ cwd_path store c)
      × (cwd_path (set_cwd_location forked c location) child ≡ cwd_path store c)
      × (cwd_path (set_cwd_location forked child location) child ≡ location.path)
unfolding fork_copy set_cwd_location cwd_path
set_cwd_location-fork_copy store c location h = ground (arith, ==_self store.next)
