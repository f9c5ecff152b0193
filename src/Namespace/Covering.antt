-- ===== src/Namespace/Covering.antt =====
-- Which mount of namespace.rs covers a path.
use aether_kernel.Prelude.{
  ℕ, ◌+◌, ◌≤◌, ◌<◌, ◌≡◌, refl, Bool-cases, ◌++◌, sym, ap, ◌∙◌, ◌⊎◌, inl, inr, Bool, true, false,
  List, [], ◌∷◌, Option, some, none, length, arith,
}
use aether_kernel.Vfs.Path.{normalize_absolute_path}
use mathlib.Core.Path.{subst}
use aether_kernel.Vfs.Path.Str.{
  Text, slash, eq_text, eq_text_self, eq_text→eq, strip_prefix, strip_prefix-append,
  strip_prefix→append, starts_with_slash,
}
use aether_kernel.Namespace.{
  Stacks, MountNamespace, last_of, at_slash, mount_path_matches, cover_step, cover_all,
  covering_mount,
}

-- A path is another one, or that with a slash and more behind it.
abbrev pub Lies : Text → Text → Type 0
Lies path above = (path ≡ above) ⊎ ((rest : Text) × (path ≡ above ++ (slash ∷ rest)))

starts : (t : Text) → starts_with_slash t ≡ true → (rest : Text) × (t ≡ slash ∷ rest)
starts [] h = ground (arith, h)
starts (c ∷ t) h = (t, ground (arith, h))

below :
    (path p : Text) (o : Option Text) → strip_prefix path p ≡ o → at_slash o ≡ true → Lies path p
below path p none e h = ground (arith, h)
below path p (some t) e h =
    let (rest, q) = starts t h in inr (rest, strip_prefix→append path p t e ∙ ap (λ u. p ++ u) q)

mount_path_matches→Lies : (path p : Text) → mount_path_matches path p ≡ true → Lies path p
unfolding mount_path_matches
mount_path_matches→Lies path p h = elim (Bool-cases (eq_text path p)) [
  | inl e ↦ inl (eq_text→eq path p e)
  | inr e ↦ below path p (strip_prefix path p) refl (ground (arith, e, h))
]

Lies→mount_path_matches : (path p : Text) → Lies path p → mount_path_matches path p ≡ true
unfolding mount_path_matches
Lies→mount_path_matches path p (inl e) = rw (e, eq_text_self p) refl
Lies→mount_path_matches path p (inr (rest, e)) =
    rw (e, strip_prefix-append p (slash ∷ rest)) (ground arith)

module _ {Node : Type 0} where
  abbrev pub is_mounted : Option Node → Bool
  is_mounted none = false
  is_mounted (some node) = true

  -- The paths that are mounted on and lie above another, or are it, are shorter than `n`.
  abbrev pub Shorter : Text → ℕ → Stacks Node → Type 0
  Shorter path n [] = Unit
  Shorter path n ((p, stack) ∷ mounts) =
      (Lies path p → is_mounted (last_of (some stack)) ≡ true → length p < n)
      × Shorter path n mounts

  -- One of the mounts, the last at a path of length `n` above the given one.
  abbrev pub Selected : Text → Node → ℕ → Stacks Node → Type 0
  Selected path node n [] = ⊥
  Selected path node n ((p, stack) ∷ mounts) =
      (Lies path p × (last_of (some stack) ≡ some node) × (length p ≡ n))
      ⊎ Selected path node n mounts

  cover_step_lem :
      (path p : Text) (stack : List Node) (n : Node) (l : ℕ)
      → let (n', l') = cover_step path (n, l) (p, stack) in
        (l ≤ l')
        × (mount_path_matches path p ≡ true
            → is_mounted (last_of (some stack)) ≡ true
            → length p ≤ l')
        × (((n' ≡ n)
              × (l' ≡ l)
              × (mount_path_matches path p ≡ true
                  → is_mounted (last_of (some stack)) ≡ true
                  → length p < l))
            ⊎ ((mount_path_matches path p ≡ true)
                × (last_of (some stack) ≡ some n')
                × (length p ≡ l')))
  unfolding cover_step
  cover_step_lem path p [] n l = ground arith
  cover_step_lem path p (m ∷ stack) n l = ground arith

  cover_all_lem :
      (path : Text) (n : Node) (l : ℕ) (mounts : Stacks Node)
      → let (n', l') = cover_all path (n, l) mounts in
        (l ≤ l')
        × Shorter path (l' + 1) mounts
        × (((n' ≡ n) × (l' ≡ l) × Shorter path l mounts) ⊎ Selected path n' l' mounts)
  unfolding cover_all
  cover_all_lem path n l [] = (omega arith, tt, inl (refl, refl, tt))
  cover_all_lem path n l ((p, stack) ∷ mounts) =
      let (n1, l1) = cover_step path (n, l) (p, stack) in
      let s = cover_step_lem path p stack n l in
      let r = cover_all_lem path n1 l1 mounts in
      (
        omega (arith, s.0, r.0),
        ((λ a b. let q = s.1 (Lies→mount_path_matches path p a) b in omega (arith, q, r.0)), r.1),
        which s.2 r.2,
      )
    where
      which :
          {n1 n' : Node} {l1 l' : ℕ}
          → ((n1 ≡ n)
              × (l1 ≡ l)
              × (mount_path_matches path p ≡ true
                  → is_mounted (last_of (some stack)) ≡ true
                  → length p < l))
            ⊎ ((mount_path_matches path p ≡ true)
                × (last_of (some stack) ≡ some n1)
                × (length p ≡ l1))
          → ((n' ≡ n1) × (l' ≡ l1) × Shorter path l1 mounts) ⊎ Selected path n' l' mounts
          → ((n' ≡ n) × (l' ≡ l) × Shorter path l ((p, stack) ∷ mounts))
            ⊎ Selected path n' l' ((p, stack) ∷ mounts)
      which (inl a) (inl b) = inl (
        b.0 ∙ a.0,
        b.1 ∙ a.1,
        ((λ q. a.2 (Lies→mount_path_matches path p q)), subst (λ k. Shorter path k mounts) a.1 b.2),
      )
      which (inr a) (inl b) =
          inr (inl (mount_path_matches→Lies path p a.0, a.1 ∙ ap some (sym b.0), a.2 ∙ sym b.1))
      which a (inr b) = inr (inr b)

  -- The mount that covers a path, in its normal form, is the root's when no path of a byte or more
  -- that lies above it, or is it, is mounted on; else it is the last mount at the longest of the
  -- paths that lie above it, or are it, and are mounted on. A path lies above those that continue
  -- it with a slash.
  pub covering_mount_lem :
      (ns : MountNamespace Node) (path : Text)
      → let p = normalize_absolute_path path in
        ((covering_mount ns path ≡ ns.root) × Shorter p 1 ns.mounts)
        ⊎ ((n : ℕ) × (0 < n)
            × Shorter p (n + 1) ns.mounts
            × Selected p (covering_mount ns path) n ns.mounts)
  unfolding covering_mount
  covering_mount_lem ns path =
      let p = normalize_absolute_path path in
      let r = cover_all_lem p ns.root 1 ns.mounts in
      elim (r.2) [
        | inl a ↦ inl (a.0, a.2)
        | inr b ↦ inr ((cover_all p (ns.root, 1) ns.mounts).1, r.0, r.1, b)
      ]
