-- ===== src/Vfs/Path/Remap.antt =====
-- `remap_mount_path` of path.rs: how a path moves when a mount moves from one place to another.
use aether_kernel.Prelude.{
  ◌≡◌, refl, sym, ◌∙◌, ap, inl, inr, List, [], ◌∷◌, ◌++◌, true, false, ◌||◌, some, arith, All,
  All-append, Bool-cases, length, length-append,
}
use mathlib.Core.Bool.{false≢true}
use mathlib.Core.List.{append-nil}
use aether_kernel.Vfs.Path.Str.{
  Text, eq_text, eq_text_self, eq_text→eq, strip_prefix, strip_prefix-append,
}
use aether_kernel.Vfs.Path.{
  split_components, render, root_text, is_within, remap_suffix, remap_normal, remap_mount_path,
  suffix_at_slash,
}
use aether_kernel.Vfs.Path.Render.{IsName, IsName→IsComponent, split_components-render}
use aether_kernel.Vfs.Path.Normal.{normalize-render, render-append}
use aether_kernel.Vfs.Path.Within.{
  is_prefix, is_within-render, render-ne-root, starts_with_slash-render,
}

-- A longer path is not equal to one that it extends.
render-ne-extended :
    (s q : List Text) (e : Text)
    → All IsName s
    → All IsName (s ++ (e ∷ q))
    → eq_text (render (s ++ (e ∷ q))) (render s) ≡ false
render-ne-extended s q e hs hl = elim (Bool-cases (eq_text (render (s ++ (e ∷ q))) (render s))) [
  | inr n ↦ n
  | inl y ↦
      let same : s ++ (e ∷ q) ≡ s =
        sym (split_components-render (s ++ (e ∷ q)) (IsName→IsComponent _ hl))
        ∙ ap split_components (eq_text→eq _ _ y)
        ∙ split_components-render s (IsName→IsComponent _ hs) in
      absurd (omega (arith, ap (λ cs. length cs) same, length-append s (e ∷ q)))
]

-- A target and a suffix of names, by the last test of the function.
remap_suffix-render :
    (p : Text) (t q : List Text) (e : Text)
    → All IsName t
    → remap_suffix p (render t) (some (render (e ∷ q))) ≡ render (t ++ (e ∷ q))
remap_suffix-render p [] q e h = unfold render in refl
remap_suffix-render p (d ∷ t) q e h =
    rw (starts_with_slash-render (e ∷ q), render-ne-root d t h.0) (sym (render-append d e t q))

eq_text-root : eq_text (render []) root_text ≡ true
unfolding render
eq_text-root = refl

remap_normal-render :
    (s t q : List Text)
    → All IsName s
    → All IsName t
    → All IsName q
    → remap_normal (render (s ++ q)) (render s) (render t) ≡ render (t ++ q)
unfolding remap_normal
remap_normal-render [] [] q hs ht hq = unfold render in refl
remap_normal-render [] (d ∷ t) [] hs ht hq =
    rw (append-nil t, eq_text-root, render-ne-root d t ht.0) refl
remap_normal-render [] (d ∷ t) (e ∷ q) hs ht hq =
    rw (eq_text-root, render-ne-root d t ht.0, render-ne-root e q hq.0)
      (sym (render-append d e t q))
remap_normal-render (c ∷ s) t [] hs ht hq =
    rw (append-nil s, append-nil t, render-ne-root c s hs.0, eq_text_self (render (c ∷ s))) refl
remap_normal-render (c ∷ s) t (e ∷ q) hs ht hq =
    rw
      (
        render-ne-root c s hs.0,
        render-ne-extended (c ∷ s) q e hs (All-append IsName (c ∷ s) (e ∷ q) hs hq),
      )
      (rw (render-append c e s q, strip_prefix-append (render (c ∷ s)) (render (e ∷ q)))
        (remap_suffix-render _ t q e ht))

-- A normal path inside the source moves to the same place inside the target, whichever of the
-- two is "/".
pub remap-inside :
    (s t q : List Text)
    → All IsName s
    → All IsName t
    → All IsName q
    → remap_mount_path (render (s ++ q)) (render s) (render t) ≡ render (t ++ q)
unfolding remap_mount_path
remap-inside s t q hs ht hq =
    rw
      (
        normalize-render (s ++ q) (All-append IsName s q hs hq),
        normalize-render s hs,
        normalize-render t ht,
      )
      (remap_normal-render s t q hs ht hq)

remap_normal-outside :
    (s t p : List Text)
    → All IsName s
    → All IsName p
    → is_prefix s p ≡ false
    → remap_normal (render p) (render s) (render t) ≡ render p
unfolding remap_normal
remap_normal-outside [] t p hs hp h = absurd (false≢true (sym h))
remap_normal-outside (c ∷ s) t p hs hp h =
    let apart = render-ne-root c s hs.0 in
    let outside : (eq_text (render p) (render (c ∷ s))
          || suffix_at_slash (strip_prefix (render p) (render (c ∷ s))))
        ≡ false =
      unfold is_within in rw apart at (is_within-render (c ∷ s) p hs hp ∙ h) in
    rw apart (ground (arith, outside))

-- A normal path that does not begin with the names of the source stays.
pub remap-outside :
    (s t p : List Text)
    → All IsName s
    → All IsName t
    → All IsName p
    → is_prefix s p ≡ false
    → remap_mount_path (render p) (render s) (render t) ≡ render p
unfolding remap_mount_path
remap-outside s t p hs ht hp h =
    rw (normalize-render p hp, normalize-render s hs, normalize-render t ht)
      (remap_normal-outside s t p hs hp h)
