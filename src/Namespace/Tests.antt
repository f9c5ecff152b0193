-- ===== src/Namespace/Tests.antt =====
-- Runs of namespace.rs at a few mounts, and the theorems at them. What is mounted is a number here.
use aether_kernel.Prelude.{ℕ, ◌+◌, ◌<◌, ◌≡◌, ◌⊎◌, [], ◌∷◌, some, if◌then◌else◌}
use aether_kernel.Vfs.Path.{normalize_absolute_path}
use aether_kernel.Vfs.Path.Str.{Text, slash, eq_text}
use aether_kernel.Namespace.{MountNamespace, ok, mount, unmount, lookup_mount, covering_mount}
use aether_kernel.Namespace.Mounts.{unmount-mount}
use aether_kernel.Namespace.Covering.{Shorter, Selected, covering_mount_lem}

abbrev a_text : Text
a_text = slash ∷ b'a' ∷ []

abbrev ab_text : Text
ab_text = slash ∷ b'a' ∷ slash ∷ b'b' ∷ []

-- The root 0, 1 on /a and 2 on /a/b.
abbrev three_mounts : MountNamespace ℕ
three_mounts = record { root = 0; under = []; mounts = (a_text, 1 ∷ []) ∷ (ab_text, 2 ∷ []) ∷ [] }

unmount-mount_example :
    let (done, ns') = mount three_mounts a_text 5 in
    let (undone, ns'') = unmount ns' a_text in
    (done ≡ ok tt)
    × (lookup_mount ns' ab_text ≡ (
        if eq_text (normalize_absolute_path a_text) ab_text
        then some 5
        else lookup_mount three_mounts ab_text))
    × (undone ≡ ok tt)
    × (lookup_mount ns'' ab_text ≡ lookup_mount three_mounts ab_text)
unmount-mount_example = unmount-mount three_mounts a_text ab_text 5

covering_mount_lem_example :
    let p = normalize_absolute_path ab_text in
    ((covering_mount three_mounts ab_text ≡ 0) × Shorter p 1 three_mounts.mounts)
    ⊎ ((n : ℕ) × (0 < n)
        × Shorter p (n + 1) three_mounts.mounts
        × Selected p (covering_mount three_mounts ab_text) n three_mounts.mounts)
covering_mount_lem_example = covering_mount_lem three_mounts ab_text
