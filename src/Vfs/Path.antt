-- ===== src/Vfs/Path.antt =====
-- aether-kernel/libs/aether-vfs/src/path.rs: paths of the virtual file system. A text is the list
-- of its bytes. The `Vec` of components is a list whose end is the end of the vector.
pub mod Str
pub mod Render
pub mod Normal
pub mod Jail
pub mod Within
pub mod Remap
mod Tests
use aether_kernel.Prelude.{
  ℕ, ◌-◌, ◌+◌, Bool, true, false, ◌&&◌, ◌||◌, not, List, [], ◌∷◌, ◌++◌, Option, some, none, ltb,
  ◌==◌, if◌then◌else◌, length, take,
}
use mathlib.Core.List.{foldl}
use aether_kernel.Vfs.Path.Str.{
  Text, slash, eq_text, split, strip_prefix, starts_with_slash, rsplit_once, join,
}

abbrev pub root_text : Text
root_text = slash ∷ []

abbrev pub dot : Text
dot = b'.' ∷ []

abbrev pub dot_dot : Text
dot_dot = b'.' ∷ b'.' ∷ []

is_skipped : Text → Bool
is_skipped component = eq_text component [] || eq_text component dot

-- The filter of `split_components`, over the parts of the text.
unfoldable pub keep_components : List Text → List Text
unfolding is_skipped
keep_components [] = []
keep_components (c ∷ cs) = let rest = keep_components cs in if is_skipped c then rest else c ∷ rest

unfoldable pub split_components : Text → List Text
unfolding keep_components
split_components path = keep_components (split path)

-- One round of the loop of `resolve_components`.
unfoldable pub resolve_step : ℕ → List Text → Text → List Text
unfolding is_skipped
resolve_step anchor components component =
    if is_skipped component
    then components
    else if eq_text component dot_dot
    then (if ltb anchor (length components)
        then take (length components - 1) components
        else components)
    else components ++ (component ∷ [])

-- The text of a list of components, at the end of `resolve_components`.
unfoldable pub render : List Text → Text
render [] = root_text
render (c ∷ cs) = slash ∷ join (c ∷ cs)

unfoldable pub resolve_all : List Text → ℕ → List Text → List Text
resolve_all components anchor [] = components
resolve_all components anchor (c ∷ cs) = resolve_all (resolve_step anchor components c) anchor cs

unfoldable pub resolve_components : List Text → ℕ → Text → Text
resolve_components components anchor path = render (resolve_all components anchor (split path))

unfoldable pub normalize_absolute_path : Text → Text
normalize_absolute_path path = resolve_components [] 0 path

unfoldable pub resolve_view_path : Text → Text → Text → Text
resolve_view_path root cwd path =
    let root_components = split_components root in
    if starts_with_slash path
    then resolve_components root_components (length root_components) path
    else resolve_components (split_components cwd) (length root_components) path

unfoldable pub resolve_namespace_path : Text → Text → Text
resolve_namespace_path base path =
    if starts_with_slash path
    then normalize_absolute_path path
    else resolve_components (split_components base) 0 path

unfoldable pub resolve_symlink_path : Text → Text → Text
resolve_symlink_path parent target = resolve_namespace_path parent target

unfoldable pub parent_path : Text → Text
parent_path path = elim (rsplit_once path) [
  | none ↦ root_text
  | some (parent, name) ↦ if eq_text parent [] then root_text else parent
]

unfoldable pub leaf_name : Text → Text
leaf_name path = elim (rsplit_once path) [
  | none ↦ if eq_text path [] then root_text else path
  | some (parent, name) ↦ if eq_text name [] then root_text else name
]

-- Whether there is a suffix, and it starts with a slash.
abbrev pub suffix_at_slash : Option Text → Bool
suffix_at_slash none = false
suffix_at_slash (some suffix) = starts_with_slash suffix

unfoldable pub is_within : Text → Text → Bool
is_within root path =
    if eq_text root root_text
    then starts_with_slash path
    else eq_text path root || suffix_at_slash (strip_prefix path root)

abbrev pub suffix_or_root : Option Text → Text
suffix_or_root none = root_text
suffix_or_root (some suffix) = if eq_text suffix [] then root_text else suffix

unfoldable pub display_path_from_root : Text → Text → Text
display_path_from_root root path =
    if eq_text root root_text
    then normalize_absolute_path path
    else if eq_text path root
    then root_text
    else suffix_or_root (strip_prefix path root)

-- The last test of `remap_mount_path`, on the suffix of the path behind the source.
abbrev pub remap_suffix : Text → Text → Option Text → Text
remap_suffix path target none = path
remap_suffix path target (some suffix) =
    if starts_with_slash suffix
    then (if eq_text target root_text then suffix else target ++ suffix)
    else path

-- `remap_mount_path` once the three paths are normalized.
unfoldable pub remap_normal : Text → Text → Text → Text
remap_normal path source target =
    if eq_text source root_text
    then (if eq_text target root_text
        then path
        else if eq_text path root_text
        then target
        else target ++ path)
    else if eq_text path source
    then target
    else remap_suffix path target (strip_prefix path source)

unfoldable pub remap_mount_path : Text → Text → Text → Text
unfolding remap_normal
remap_mount_path path source target =
    remap_normal (normalize_absolute_path path) (normalize_absolute_path source)
      (normalize_absolute_path target)

-- `VfsPath`, over the kinds of node and of directory entry.
pub record VfsPath (Node Dentry : Type 0) : Type 0 where
  pub path : Text
  pub node : Node
  pub dentry : Option Dentry

module _ {Node Dentry : Type 0} where
  unfoldable pub new : Text → Node → VfsPath Node Dentry
  new path node = record { path = normalize_absolute_path path; node = node; dentry = none }

  -- `inode` is the method of a directory entry.
  unfoldable pub from_dentry : (Dentry → Node) → Text → Dentry → VfsPath Node Dentry
  from_dentry inode path dentry = record {
    path = normalize_absolute_path path;
    node = inode dentry;
    dentry = some dentry;
  }

  unfoldable pub rebind_path : VfsPath Node Dentry → Text → VfsPath Node Dentry
  rebind_path p path = record p { path = normalize_absolute_path path }
