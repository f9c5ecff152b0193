-- ===== src/Vfs/Path/Tests.antt =====
-- Runs of path.rs at small inputs, and the theorems at concrete paths.
use Prim.Native.String.{String}
use Prim.Native.Char.{code}
use aether_kernel.Prelude.{◌≡◌, refl, List, [], ◌∷◌, ◌++◌, All, arith, length, take}
use aether_kernel.Vfs.Path.Str.{Text, split, strip_prefix, rsplit_once, join}
use aether_kernel.Vfs.Path.{
  split_components, keep_components, resolve_step, resolve_all, resolve_components, render,
  normalize_absolute_path, resolve_view_path, resolve_namespace_path, parent_path, leaf_name,
  is_within, display_path_from_root, remap_mount_path,
}
use aether_kernel.Vfs.Path.Render.{IsName}
use aether_kernel.Vfs.Path.Normal.{names_of, absolute, normalize_lem}
use aether_kernel.Vfs.Path.Jail.{resolve_view_path-Begins}
use aether_kernel.Vfs.Path.Within.{is_prefix, is_within-render}

abbrev text : String → Text
text String.[] = []
text (String.◌∷◌ c s) = code c ∷ text s

-- What the paths below are computed with.
program : Unit {0}
unfolding split strip_prefix rsplit_once join keep_components split_components resolve_step
    resolve_all resolve_components render normalize_absolute_path resolve_view_path
    resolve_namespace_path parent_path leaf_name is_within display_path_from_root remap_mount_path
program = tt

normalize_dots : normalize_absolute_path (text "//a/./b/../c/") ≡ text "/a/c"
unfolding program
normalize_dots = refl

normalize_above : normalize_absolute_path (text "../../x") ≡ text "/x"
unfolding program
normalize_above = refl

view_inside :
    resolve_view_path (text "/jail") (text "/jail/home") (text "../../../etc") ≡ text "/jail/etc"
unfolding program
view_inside = refl

parent_of_leaf : (parent_path (text "/a/b") ≡ text "/a") × (leaf_name (text "/a/b") ≡ text "b")
unfolding program
parent_of_leaf = (refl, refl)

display_inside : display_path_from_root (text "/jail") (text "/jail/x") ≡ text "/x"
unfolding program
display_inside = refl

remap_moved : remap_mount_path (text "/mnt/a/f") (text "/mnt/a") (text "/") ≡ text "/f"
unfolding program
remap_moved = refl

abbrev usr : List Text
usr = text "usr" ∷ []

abbrev usr-IsName : All IsName usr
usr-IsName = (((omega arith, refl, refl), refl), tt)

abbrev bin : List Text
bin = text "bin" ∷ []

abbrev bin-IsName : All IsName bin
bin-IsName = (((omega arith, refl, refl), refl), tt)

normalize_lem_example :
    All IsName (names_of (text "a//b/../../../c/./d"))
    × (normalize_absolute_path (text "a//b/../../../c/./d")
        ≡ absolute (names_of (text "a//b/../../../c/./d")))
    × (normalize_absolute_path (normalize_absolute_path (text "a//b/../../../c/./d"))
        ≡ normalize_absolute_path (text "a//b/../../../c/./d"))
normalize_lem_example = normalize_lem (text "a//b/../../../c/./d")

resolve_view_path-Begins_example :
    take
      (length (split_components (text "/j")))
      (split_components (resolve_view_path (text "/j") (text "/j/h") (text "../../e")))
    ≡ split_components (text "/j")
unfolding program
resolve_view_path-Begins_example =
    resolve_view_path-Begins (text "/j") (text "/j/h") (text "../../e") refl

is_within-render_example : is_within (render usr) (render (usr ++ bin)) ≡ is_prefix usr (usr ++ bin)
is_within-render_example = is_within-render usr (usr ++ bin) usr-IsName (usr-IsName.0, bin-IsName)
