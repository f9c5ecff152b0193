-- ===== src/Vfs/Path/Render.antt =====
-- Lists of components and the absolute paths of path.rs that they are rendered to.
use aether_kernel.Prelude.{
  ℕ, ◌-◌, ◌≡◌, refl, false, List, [], ◌∷◌, ◌++◌, length, arith, All, All-append, All-take,
}
use mathlib.Core.List.{append-nil, append_assoc}
use aether_kernel.Vfs.Path.Str.{Text, eq_text, split, NoSlash, split-join, split-NoSlash}
use aether_kernel.Vfs.Path.{
  dot, dot_dot, keep_components, split_components, resolve_step, resolve_all, render,
}

-- What `split_components` keeps: no slash, not empty and not ".".
abbrev pub IsComponent : Text → Type 0
IsComponent t = NoSlash t × (eq_text t [] ≡ false) × (eq_text t dot ≡ false)

-- A component that is not ".." either, a name.
abbrev pub IsName : Text → Type 0
IsName t = IsComponent t × (eq_text t dot_dot ≡ false)

pub IsName→IsComponent : (cs : List Text) → All IsName cs → All IsComponent cs
IsName→IsComponent [] h = tt
IsName→IsComponent (c ∷ cs) h = (h.0.0, IsName→IsComponent cs h.1)

pub IsComponent→NoSlash : (cs : List Text) → All IsComponent cs → All NoSlash cs
IsComponent→NoSlash [] h = tt
IsComponent→NoSlash (c ∷ cs) h = (h.0.0, IsComponent→NoSlash cs h.1)

keep_components_all : (cs : List Text) → All IsComponent cs → keep_components cs ≡ cs
unfolding keep_components
keep_components_all [] h = refl
keep_components_all (c ∷ cs) h = rw (keep_components_all cs h.1, h.0.1, h.0.2)

keep_components-IsComponent :
    (cs : List Text) → All NoSlash cs → All IsComponent (keep_components cs)
unfolding keep_components
keep_components-IsComponent [] h = tt
keep_components-IsComponent (c ∷ cs) h = ground (arith, keep_components-IsComponent cs h.1)

pub split_components-IsComponent : (p : Text) → All IsComponent (split_components p)
unfolding split_components
split_components-IsComponent p = keep_components-IsComponent (split p) (split-NoSlash p)

-- The components of a rendered path are those that it was rendered from.
pub split_components-render :
    (cs : List Text) → All IsComponent cs → split_components (render cs) ≡ cs
unfolding split_components render split
split_components-render [] h = refl
split_components-render (c ∷ cs) h =
    rw (split-join c cs (IsComponent→NoSlash (c ∷ cs) h)) (keep_components_all (c ∷ cs) h)

resolve_all_names :
    (components : List Text) (anchor : ℕ) (cs : List Text)
    → All IsName cs
    → resolve_all components anchor cs ≡ components ++ cs
unfolding resolve_all resolve_step
resolve_all_names components anchor [] h = rw append-nil
resolve_all_names components anchor (c ∷ cs) h =
    rw (h.0.0.1, h.0.0.2, h.0.1)
      (rw (resolve_all_names (components ++ (c ∷ [])) anchor cs h.1)
        (append_assoc components (c ∷ []) cs))

-- Resolving a rendered path of names appends the names.
pub resolve_all-render :
    (components : List Text) (anchor : ℕ) (cs : List Text)
    → All IsName cs
    → resolve_all components anchor (split (render cs)) ≡ components ++ cs
unfolding render split resolve_all resolve_step
resolve_all-render components anchor [] h = rw append-nil
resolve_all-render components anchor (c ∷ cs) h =
    rw (split-join c cs (IsComponent→NoSlash (c ∷ cs) (IsName→IsComponent (c ∷ cs) h)))
      (resolve_all_names components anchor (c ∷ cs) h)

resolve_step-IsName :
    (anchor : ℕ) (components : List Text) (c : Text)
    → NoSlash c
    → All IsName components
    → All IsName (resolve_step anchor components c)
unfolding resolve_step
resolve_step-IsName anchor components c n h = ground (
  arith,
  λ (e : IsName c). All-append {0, 0} IsName components (c ∷ []) h (e, tt),
  All-take {0, 0} IsName (length components - 1) components h,
)

-- Resolving keeps a list of names a list of names.
pub resolve_all-IsName :
    (components : List Text) (anchor : ℕ) (cs : List Text)
    → All NoSlash cs
    → All IsName components
    → All IsName (resolve_all components anchor cs)
unfolding resolve_all
resolve_all-IsName components anchor [] n h = h
resolve_all-IsName components anchor (c ∷ cs) n h =
    resolve_all-IsName (resolve_step anchor components c) anchor cs n.1
      (resolve_step-IsName anchor components c n.0 h)
