-- ===== src/Vfs/Path/Within.antt =====
-- `is_within` of path.rs: the textual test against the order of paths by their components.
use aether_kernel.Prelude.{
  ◌≡◌, refl, sym, ◌∙◌, ap, inl, inr, List, [], ◌∷◌, ◌++◌, Bool, true, false, ◌&&◌, ◌||◌, Option,
  some, none, arith, All, Bool-cases, Bool-ext,
}
use mathlib.Core.Bool.{false≢true}
use mathlib.Core.List.{append-nil}
use aether_kernel.Vfs.Path.Str.{
  Text, slash, eq_text, eq_text_self, eq_text→eq, split, split-slash, strip_prefix,
  strip_prefix-append, strip_prefix→append, starts_with_slash, join,
}
use aether_kernel.Vfs.Path.{
  keep_components, split_components, render, is_within, root_text, suffix_at_slash,
}
use aether_kernel.Vfs.Path.Render.{IsName, IsName→IsComponent, split_components-render}
use aether_kernel.Vfs.Path.Normal.{render-append}

-- The components `r` are the first of `p`.
abbrev pub is_prefix : List Text → List Text → Bool
is_prefix [] p = true
is_prefix (c ∷ r) [] = false
is_prefix (c ∷ r) (d ∷ p) = eq_text c d && is_prefix r p

pub is_prefix-append : (r q : List Text) → is_prefix r (r ++ q) ≡ true
is_prefix-append [] q = refl
is_prefix-append (c ∷ r) q = rw (eq_text_self c) (is_prefix-append r q)

pub is_prefix→append : (r p : List Text) → is_prefix r p ≡ true → (q : List Text) × (p ≡ r ++ q)
is_prefix→append [] p h = (p, refl)
is_prefix→append (c ∷ r) [] h = absurd (cc)
is_prefix→append (c ∷ r) (d ∷ p) h =
    let (q, e) = is_prefix→append r p (ground arith) in (q, ground (arith, eq_text→eq c d))

keep_components-append :
    (cs ds : List Text) → keep_components (cs ++ ds) ≡ keep_components cs ++ keep_components ds
unfolding keep_components
keep_components-append [] ds = refl
keep_components-append (c ∷ cs) ds = rw (keep_components-append cs ds) ground arith

-- Components of a text that goes on behind a slash.
pub split_components-slash :
    (s t : Text) → split_components (s ++ (slash ∷ t)) ≡ split_components s ++ split_components t
unfolding split_components
split_components-slash s t =
    ap keep_components (split-slash s t) ∙ keep_components-append (split s) (split t)

-- A suffix that starts with a slash.
at_slash : (o : Option Text) → suffix_at_slash o ≡ true → (t : Text) × (o ≡ some (slash ∷ t))
at_slash none h = absurd (cc)
at_slash (some []) h = absurd (cc)
at_slash (some (c ∷ t)) h = (t, ground arith)

within→prefix :
    (r p : List Text)
    → All IsName r
    → All IsName p
    → (eq_text (render p) (render r) || suffix_at_slash (strip_prefix (render p) (render r))) ≡ true
    → is_prefix r p ≡ true
within→prefix r p hr hp h = elim (Bool-cases (eq_text (render p) (render r))) [
  | inl e ↦
      let pe : p ≡ r ++ [] =
        sym (components p hp)
        ∙ ap split_components (eq_text→eq (render p) (render r) e)
        ∙ components r hr
        ∙ sym (append-nil r) in
      rw pe (is_prefix-append r [])
  | inr e ↦
      let (t, stripped) = at_slash (strip_prefix (render p) (render r)) (ground arith) in
      let pe : p ≡ r ++ split_components t =
        sym (components p hp)
        ∙ ap split_components (strip_prefix→append (render p) (render r) (slash ∷ t) stripped)
        ∙ split_components-slash (render r) t
        ∙ ap (λ cs. cs ++ split_components t) (components r hr) in
      rw pe (is_prefix-append r (split_components t))
]
  where
    components : (cs : List Text) → All IsName cs → split_components (render cs) ≡ cs
    components cs n = split_components-render cs (IsName→IsComponent cs n)

pub starts_with_slash-render : (cs : List Text) → starts_with_slash (render cs) ≡ true
unfolding render
starts_with_slash-render [] = refl
starts_with_slash-render (c ∷ cs) = refl

pub render-ne-root :
    (c : Text) (r : List Text) → IsName c → eq_text (render (c ∷ r)) root_text ≡ false
unfolding render join
render-ne-root [] r n = absurd (false≢true (sym n.0.1))
render-ne-root (x ∷ c) [] n = refl
render-ne-root (x ∷ c) (d ∷ r) n = refl

or_true : (b : Bool) → (b || true) ≡ true
or_true true = refl
or_true false = refl

prefix→within :
    (c : Text) (r p : List Text)
    → is_prefix (c ∷ r) p ≡ true
    → (eq_text (render p) (render (c ∷ r))
        || suffix_at_slash (strip_prefix (render p) (render (c ∷ r))))
      ≡ true
prefix→within c r p h = let (q, e) = is_prefix→append (c ∷ r) p h in rw e (extended q)
  where
    extended :
        (q : List Text)
        → (eq_text (render ((c ∷ r) ++ q)) (render (c ∷ r))
            || suffix_at_slash (strip_prefix (render ((c ∷ r) ++ q)) (render (c ∷ r))))
          ≡ true
    extended [] = rw (append-nil r, eq_text_self (render (c ∷ r))) refl
    extended (d ∷ q) =
        rw
          (
            render-append c d r q,
            strip_prefix-append (render (c ∷ r)) (render (d ∷ q)),
            starts_with_slash-render (d ∷ q),
          )
          (or_true _)

-- Of two normal paths, the second is within the first exactly when the names of the first are the
-- first names of the second. So "/ab" is not within "/a".
pub is_within-render :
    (r p : List Text)
    → All IsName r
    → All IsName p
    → is_within (render r) (render p) ≡ is_prefix r p
unfolding is_within
is_within-render [] p hr hp = unfold render in starts_with_slash-render p
is_within-render (c ∷ r) p hr hp =
    rw (render-ne-root c r hr.0)
      (Bool-ext _ _ (within→prefix (c ∷ r) p hr hp) (prefix→within c r p))
