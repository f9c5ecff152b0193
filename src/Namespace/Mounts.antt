-- ===== src/Namespace/Mounts.antt =====
-- What mounting and unmounting of namespace.rs do to the lookup of mounts, and which mount covers a path.
use aether_kernel.Prelude.{
  ◌≡◌, refl, inl, inr, true, false, List, [], ◌∷◌, Option, some, none, if◌then◌else◌, arith,
  Bool-cases, Bool-ext,
}
use aether_kernel.Vfs.Path.{normalize_absolute_path, root_text}
use aether_kernel.Vfs.Path.Str.{Text, eq_text, eq_text_self, eq_text→eq}
use aether_kernel.Namespace.{
  Stacks, MountNamespace, ok, get_stack, insert_stack, remove_stack, last_of, lookup_mount,
  push_mount, mount, put_stack, pop_mount, unmount, or_empty,
}

eq_text_trans : (p s t : Text) → eq_text p s ≡ true → eq_text p t ≡ eq_text s t
eq_text_trans p s t h = let e : p ≡ s = eq_text→eq p s h in rw e refl

eq_text-same : (p s t : Text) → eq_text s t ≡ true → eq_text p s ≡ eq_text p t
eq_text-same p s t h = let e : s ≡ t = eq_text→eq s t h in rw e refl

eq_text_comm : (s t : Text) → eq_text s t ≡ eq_text t s
eq_text_comm s t = Bool-ext (eq_text s t) (eq_text t s) (flip s t) (flip t s)
  where
    flip : (s t : Text) → eq_text s t ≡ true → eq_text t s ≡ true
    flip s t h = let e : s ≡ t = eq_text→eq s t h in rw e (eq_text_self t)

module _ {Node : Type 0} where
  get-insert_stack :
      (s t : Text) (stack : List Node) (mounts : Stacks Node)
      → get_stack t (insert_stack s stack mounts)
        ≡ (if eq_text s t then some stack else get_stack t mounts)
  unfolding get_stack insert_stack
  get-insert_stack s t stack [] = refl
  get-insert_stack s t stack ((p, old) ∷ mounts) =
      ground (arith, get-insert_stack s t stack mounts, eq_text_trans p s t, eq_text-same p s t)

  get-remove_stack :
      (s t : Text) (mounts : Stacks Node)
      → get_stack t (remove_stack s mounts) ≡ (if eq_text s t then none else get_stack t mounts)
  unfolding get_stack remove_stack
  get-remove_stack s t [] = ground arith
  get-remove_stack s t ((p, old) ∷ mounts) =
      ground (arith, get-remove_stack s t mounts, eq_text_trans p s t, eq_text-same p s t)

  get-put_stack :
      (s t : Text) (stack : List Node) (mounts : Stacks Node)
      → last_of (get_stack t (put_stack s stack mounts))
        ≡ (if eq_text s t then last_of (some stack) else last_of (get_stack t mounts))
  get-put_stack s t [] mounts = ground (arith, get-remove_stack s t mounts)
  get-put_stack s t (n ∷ stack) mounts = ground (arith, get-insert_stack s t (n ∷ stack) mounts)

  last_of-or_empty : (o : Option (List Node)) → last_of (some (or_empty o)) ≡ last_of o
  last_of-or_empty none = refl
  last_of-or_empty (some stack) = refl

  -- A mount is found at its path, the normal form of what was given, and what other paths find does
  -- not change. Unmounting that path then succeeds, and every path finds what it found before.
  pub unmount-mount :
      (ns : MountNamespace Node) (target path : Text) (node : Node)
      → let (done, ns') = mount ns target node in
        let (undone, ns'') = unmount ns' target in
        (done ≡ ok tt)
        × (lookup_mount ns' path ≡ (
            if eq_text (normalize_absolute_path target) path
            then some node
            else lookup_mount ns path))
        × (undone ≡ ok tt)
        × (lookup_mount ns'' path ≡ lookup_mount ns path)
  unfolding mount push_mount unmount pop_mount lookup_mount
  unmount-mount ns target path node =
      let t = normalize_absolute_path target in
      elim (Bool-cases (eq_text t root_text)) [
        | inl e ↦ rw e (
          refl,
          ground (arith, eq_text_trans t root_text path e, eq_text_comm root_text path),
          refl,
          refl,
        )
        | inr e ↦ rw e (
            let stack = node ∷ or_empty (get_stack t ns.mounts) in
            ground (
              arith,
              eq_text_self t,
              at_root t path e,
              get-insert_stack t t stack ns.mounts,
              get-insert_stack t path stack ns.mounts,
              get-put_stack t path (or_empty (get_stack t ns.mounts))
                  (insert_stack t stack ns.mounts),
              last_of-or_empty (get_stack t ns.mounts),
              same t path,
            ))
      ]
    where
      at_root :
          (t path : Text)
          → eq_text t root_text ≡ false
          → eq_text path root_text ≡ true
          → eq_text t path ≡ false
      at_root t path e h = let q : path ≡ root_text = eq_text→eq path root_text h in rw q e

      same :
          (t path : Text)
          → eq_text t path ≡ true
          → last_of (get_stack t ns.mounts) ≡ last_of (get_stack path ns.mounts)
      same t path h = let q : t ≡ path = eq_text→eq t path h in rw q refl
