-- ===== src/Vfs/Path/Jail.antt =====
-- `resolve_view_path` of path.rs: no ".." leads out of a process's root directory.
use aether_kernel.Prelude.{
  ℕ, ◌-◌, ◌≤◌, ◌≡◌, refl, ◌∙◌, ap, List, [], ◌∷◌, length, take, arith, All, All-append, All-take,
  take-append_of_le, take-take_of_le, length-append, length-take, take_of_length-le, Bool-cases,
  inl, inr,
}
use aether_kernel.Vfs.Path.Str.{Text, split, NoSlash, split-NoSlash, starts_with_slash}
use aether_kernel.Vfs.Path.{
  split_components, resolve_step, resolve_all, resolve_components, resolve_view_path,
}
use aether_kernel.Vfs.Path.Render.{
  IsComponent, split_components-IsComponent, split_components-render,
}

-- The first `a` components are `r`.
abbrev pub Begins : ℕ → List Text → List Text → Type 0
Begins a r cs = (take a cs ≡ r) × (a ≤ length cs) × All IsComponent cs

resolve_step-Begins :
    (a : ℕ) (r cs : List Text) (c : Text)
    → NoSlash c
    → Begins a r cs
    → Begins a r (resolve_step a cs c)
unfolding resolve_step
resolve_step-Begins a r cs c n b = ground (
  arith,
  take-append_of_le a cs (c ∷ []),
  take-take_of_le a (length cs - 1) cs,
  length-append cs (c ∷ []),
  length-take (length cs - 1) cs,
  λ (e : IsComponent c). All-append {0, 0} IsComponent cs (c ∷ []) b.2 (e, tt),
  All-take {0, 0} IsComponent (length cs - 1) cs b.2,
)

resolve_all-Begins :
    (a : ℕ) (r cs parts : List Text)
    → All NoSlash parts
    → Begins a r cs
    → Begins a r (resolve_all cs a parts)
unfolding resolve_all
resolve_all-Begins a r cs [] n b = b
resolve_all-Begins a r cs (c ∷ parts) n b =
    resolve_all-Begins a r (resolve_step a cs c) parts n.1 (resolve_step-Begins a r cs c n.0 b)

resolve_components-Begins :
    (a : ℕ) (r cs : List Text) (path : Text)
    → Begins a r cs
    → take a (split_components (resolve_components cs a path)) ≡ r
unfolding resolve_components
resolve_components-Begins a r cs path b =
    let kept = resolve_all-Begins a r cs (split path) (split-NoSlash path) b in
    ap (take a) (split_components-render (resolve_all cs a (split path)) kept.2) ∙ kept.0

length_of_take : (a : ℕ) (r cs : List Text) → take a cs ≡ r → length r ≡ a → a ≤ length cs
length_of_take a r cs e l = omega (arith, length-take a cs, ap (λ t. length t) e)

-- Whatever the path, absolute or relative and with any number of "..", the path that it resolves to
-- begins with the components of the root, if the components of the current directory do.
pub resolve_view_path-Begins :
    (root cwd path : Text)
    → take (length (split_components root)) (split_components cwd) ≡ split_components root
    → take (length (split_components root)) (split_components (resolve_view_path root cwd path))
      ≡ split_components root
unfolding resolve_view_path
resolve_view_path-Begins root cwd path h = elim (Bool-cases (starts_with_slash path)) [
  | inl e ↦ rw e (
      resolve_components-Begins (length r) r r path (
        take_of_length-le (length r) r (omega arith),
        omega arith,
        split_components-IsComponent root,
      ))
  | inr e ↦ rw e (
      resolve_components-Begins (length r) r (split_components cwd) path (
        h,
        length_of_take (length r) r (split_components cwd) h refl,
        split_components-IsComponent cwd,
      ))
]
  where
    r : List Text
    r = split_components root
