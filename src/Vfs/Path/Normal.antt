-- ===== src/Vfs/Path/Normal.antt =====
-- Normal paths of path.rs: "/" and the paths that are rendered from names.
use mathlib.Core.Path.{subst}
use mathlib.Core.List.{append-nil}
use aether_kernel.Prelude.{
  suc, true, arith, ◌-◌, sym, ltb, length, take, ◌||◌, Bool-cases, inl, inr, ◌≡◌, refl, ap, ◌∙◌,
  List, [], ◌∷◌, ◌++◌, if◌then◌else◌, All, some,
}
use aether_kernel.Vfs.Path.Str.{
  Text, slash, eq_text, split, join, NoSlash, split-NoSlash, rsplit_once, rsplit_once-append,
  join-append,
}
use aether_kernel.Vfs.Path.{
  resolve_all, resolve_step, resolve_components, normalize_absolute_path, render, parent_path,
  leaf_name, root_text,
}
use aether_kernel.Vfs.Path.Render.{IsName, resolve_all-render, resolve_all-IsName}

abbrev up : List Text → List Text
up [] = []
up (b ∷ back) = back

-- A part of a path that is empty or "." stays where it is, ".." goes up, and a name goes down. The
-- names that a walk has come through stand with the last one first.
abbrev go : List Text → Text → List Text
go back c =
    if eq_text c [] || eq_text c (b'.' ∷ [])
    then back
    else if eq_text c (b'.' ∷ b'.' ∷ [])
    then up back
    else c ∷ back

abbrev walk : List Text → List Text → List Text
walk back [] = back
walk back (c ∷ cs) = walk (go back c) cs

abbrev turned : List Text → List Text
turned [] = []
turned (c ∷ cs) = turned cs ++ (c ∷ [])

-- The names from the root to where a path leads.
abbrev pub names_of : Text → List Text
names_of path = turned (walk [] (split path))

-- A slash before every name.
abbrev slashed : List Text → Text
slashed [] = []
slashed (c ∷ cs) = (slash ∷ c) ++ slashed cs

abbrev pub absolute : List Text → Text
absolute [] = slash ∷ []
absolute (c ∷ cs) = slashed (c ∷ cs)

join-slashed : (c : Text) (cs : List Text) → join (c ∷ cs) ≡ c ++ slashed cs
unfolding join
join-slashed c [] = sym (append-nil c)
join-slashed c (d ∷ cs) = ap (λ t. c ++ (slash ∷ t)) (join-slashed d cs)

render-absolute : (cs : List Text) → render cs ≡ absolute cs
unfolding render
render-absolute [] = refl
render-absolute (c ∷ cs) = ap (λ t. slash ∷ t) (join-slashed c cs)

length-snoc : (cs : List Text) (c : Text) → length (cs ++ (c ∷ [])) ≡ suc (length cs)
length-snoc [] c = refl
length-snoc (d ∷ cs) c = ap suc (length-snoc cs c)

take-snoc : (cs : List Text) (c : Text) → take (length cs) (cs ++ (c ∷ [])) ≡ cs
take-snoc [] c = refl
take-snoc (d ∷ cs) c = ap (λ l. d ∷ l) (take-snoc cs c)

shortened :
    (back : List Text)
    → (if ltb 0 (length (turned back))
        then take (length (turned back) - 1) (turned back)
        else turned back)
      ≡ turned (up back)
shortened [] = refl
shortened (b ∷ back) =
    let some_parts : ltb 0 (suc (length (turned back))) ≡ true = ground arith in
    let but_one : suc (length (turned back)) - 1 ≡ length (turned back) = omega arith in
    rw (length-snoc (turned back) b, some_parts, but_one) (take-snoc (turned back) b)

resolve_step-go :
    (back : List Text) (c : Text) → resolve_step 0 (turned back) c ≡ turned (go back c)
unfolding resolve_step
resolve_step-go back c = elim (Bool-cases (eq_text c [] || eq_text c (b'.' ∷ []))) [
  | inl e ↦ rw e refl
  | inr e ↦ elim (Bool-cases (eq_text c (b'.' ∷ b'.' ∷ []))) [
    | inl d ↦ rw (e, d) (shortened back)
    | inr d ↦ rw (e, d) refl
  ]
]

resolve_all-walk : (back cs : List Text) → resolve_all (turned back) 0 cs ≡ turned (walk back cs)
unfolding resolve_all
resolve_all-walk back [] = refl
resolve_all-walk back (c ∷ cs) =
    ap (λ l. resolve_all l 0 cs) (resolve_step-go back c) ∙ resolve_all-walk (go back c) cs

names_of-IsName : (path : Text) → All IsName (names_of path)
names_of-IsName path =
    subst (All IsName) (resolve_all-walk [] (split path))
      (resolve_all-IsName [] 0 (split path) (split-NoSlash path) tt)

-- The path that a path is normalized to is the render of its names.
normalize-names_of : (path : Text) → normalize_absolute_path path ≡ render (names_of path)
unfolding normalize_absolute_path resolve_components
normalize-names_of path = ap render (resolve_all-walk [] (split path))

pub normalize-render :
    (cs : List Text) → All IsName cs → normalize_absolute_path (render cs) ≡ render cs
unfolding normalize_absolute_path resolve_components
normalize-render cs h = ap render (resolve_all-render [] 0 cs h)

-- Every path is normalized to "/" alone, or the names it leads through from the root with a slash before
-- each: empty parts and "." are left out, and ".." takes the name before it away, if there is one. The
-- names have no slash and are not empty, "." or "..". Normalizing such a path again gives the same path.
pub normalize_lem :
    (path : Text)
    → All IsName (names_of path)
      × (normalize_absolute_path path ≡ absolute (names_of path))
      × (normalize_absolute_path (normalize_absolute_path path) ≡ normalize_absolute_path path)
normalize_lem path =
    let e = normalize-names_of path in
    (
      names_of-IsName path,
      e ∙ render-absolute (names_of path),
      ap normalize_absolute_path e
          ∙ normalize-render (names_of path) (names_of-IsName path)
          ∙ sym e,
    )

pub render-append :
    (t u : Text) (ts us : List Text)
    → render ((t ∷ ts) ++ (u ∷ us)) ≡ render (t ∷ ts) ++ render (u ∷ us)
unfolding render
render-append t u ts us = ap (λ r. slash ∷ r) (join-append t u ts us)

-- The text before the last slash: none for a path of one name.
abbrev text_of : List Text → Text
text_of [] = []
text_of (c ∷ cs) = render (c ∷ cs)

rsplit_once-render :
    (cs : List Text) (c : Text)
    → NoSlash c
    → rsplit_once (render (cs ++ (c ∷ []))) ≡ some (text_of cs, c)
unfolding render join
rsplit_once-render [] c h = rsplit_once-append [] c h
rsplit_once-render (b ∷ cs) c h =
    ap rsplit_once (render-append b c cs []) ∙ rsplit_once-append (render (b ∷ cs)) c h

if_nonempty :
    (cs : List Text) → (if eq_text (text_of cs) [] then root_text else text_of cs) ≡ render cs
unfolding render
if_nonempty [] = refl
if_nonempty (b ∷ cs) = refl

-- The parent and the leaf of a normal path other than "/" are its path without the last name, and
-- that name.
pub parent_leaf :
    (cs : List Text) (c : Text)
    → All IsName cs
    → IsName c
    → (parent_path (render (cs ++ (c ∷ []))) ≡ render cs)
      × (leaf_name (render (cs ++ (c ∷ []))) ≡ c)
unfolding parent_path leaf_name
parent_leaf cs c h n = (
  rw (rsplit_once-render cs c n.0.0, parent_path) (if_nonempty cs),
  rw (rsplit_once-render cs c n.0.0, leaf_name) (rw n.0.1 refl),
)
