-- ===== src/Vfs/Path/Str.antt =====
-- What path.rs uses of the standard library's `str`, over the bytes of a text.
use aether_kernel.Prelude.{
  ℕ, ◌≡◌, refl, sym, ◌≢◌, Bool, true, false, ◌&&◌, List, [], ◌∷◌, ◌++◌, Option, some, none, ◌==◌,
  if◌then◌else◌, arith, All, Bool-cases, inl, inr,
}
use mathlib.Core.List.{append_assoc}

abbrev pub Text : Type 0
Text = List ℕ

abbrev pub slash : ℕ
slash = b'/'

abbrev pub eq_text : Text → Text → Bool
eq_text [] [] = true
eq_text [] (y ∷ ys) = false
eq_text (x ∷ xs) [] = false
eq_text (x ∷ xs) (y ∷ ys) = x == y && eq_text xs ys

abbrev cons_first : ℕ → List Text → List Text
cons_first c [] = (c ∷ []) ∷ []
cons_first c (t ∷ ts) = (c ∷ t) ∷ ts

-- `split('/')`
unfoldable pub split : Text → List Text
split [] = [] ∷ []
split (c ∷ cs) = let rest = split cs in if c == slash then [] ∷ rest else cons_first c rest

unfoldable pub strip_prefix : Text → Text → Option Text
strip_prefix s [] = some s
strip_prefix [] (p ∷ ps) = none
strip_prefix (x ∷ s) (p ∷ ps) = let rest = strip_prefix s ps in if x == p then rest else none

abbrev pub starts_with_slash : Text → Bool
starts_with_slash [] = false
starts_with_slash (c ∷ cs) = c == slash

abbrev extend_once : ℕ → Text → Option (Text × Text) → Option (Text × Text)
extend_once c cs (some (before, after)) = some (c ∷ before, after)
extend_once c cs none = if c == slash then some ([], cs) else none

-- `rsplit_once('/')`
unfoldable pub rsplit_once : Text → Option (Text × Text)
rsplit_once [] = none
rsplit_once (c ∷ cs) = extend_once c cs (rsplit_once cs)

-- `join("/")`
unfoldable pub join : List Text → Text
join [] = []
join (t ∷ []) = t
join (t ∷ u ∷ ts) = t ++ (slash ∷ join (u ∷ ts))

pub eq_text_self : (t : Text) → eq_text t t ≡ true
eq_text_self [] = refl
eq_text_self (x ∷ xs) = ground (arith, eq_text_self xs)

pub eq_text→eq : (s t : Text) → eq_text s t ≡ true → s ≡ t
eq_text→eq [] [] h = refl
eq_text→eq [] (y ∷ ys) h = absurd (cc)
eq_text→eq (x ∷ xs) [] h = absurd (cc)
eq_text→eq (x ∷ xs) (y ∷ ys) h = ground (arith, eq_text→eq xs ys)

-- A text with no slash.
abbrev pub NoSlash : Text → Type 0
NoSlash t = All (λ c. c ≢ slash) t

-- Splitting goes on behind a text that has no slash and the slash after it.
pub split_single : (t : Text) → NoSlash t → split t ≡ t ∷ []
unfolding split
split_single [] h = refl
split_single (c ∷ t) h = rw (split_single t h.1) (ground arith)

pub split-append : (t rest : Text) → NoSlash t → split (t ++ (slash ∷ rest)) ≡ t ∷ split rest
unfolding split
split-append [] rest h = refl
split-append (c ∷ t) rest h = rw (split-append t rest h.1) (ground arith)

pub split-join : (t : Text) (ts : List Text) → All NoSlash (t ∷ ts) → split (join (t ∷ ts)) ≡ t ∷ ts
unfolding join
split-join t [] h = split_single t h.0
split-join t (u ∷ ts) h = rw (split-append t (join (u ∷ ts)) h.0, split-join u ts h.1)

cons_first-NoSlash :
    (c : ℕ) (ts : List Text) → c ≢ slash → All NoSlash ts → All NoSlash (cons_first c ts)
cons_first-NoSlash c [] h a = ((h, tt), tt)
cons_first-NoSlash c (t ∷ ts) h a = ((h, a.0), a.1)

-- The parts of a text have no slash.
pub split-NoSlash : (t : Text) → All NoSlash (split t)
unfolding split
split-NoSlash [] = (tt, tt)
split-NoSlash (c ∷ t) = ground (arith, split-NoSlash t, cons_first-NoSlash c (split t))

pub strip_prefix-append : (s t : Text) → strip_prefix (s ++ t) s ≡ some t
unfolding strip_prefix
strip_prefix-append [] t = refl
strip_prefix-append (x ∷ s) t = ground (arith, strip_prefix-append s t)

pub strip_prefix→append : (s p t : Text) → strip_prefix s p ≡ some t → s ≡ p ++ t
unfolding strip_prefix
strip_prefix→append s [] t h = ground arith
strip_prefix→append [] (y ∷ ps) t h = absurd (cc)
strip_prefix→append (x ∷ s) (y ∷ ps) t h = ground (arith, strip_prefix→append s ps t)

rsplit_once_none : (t : Text) → NoSlash t → rsplit_once t ≡ none
unfolding rsplit_once
rsplit_once_none [] h = refl
rsplit_once_none (c ∷ t) h = rw (rsplit_once_none t h.1) (ground arith)

-- The last slash is found.
pub rsplit_once-append : (s t : Text) → NoSlash t → rsplit_once (s ++ (slash ∷ t)) ≡ some (s, t)
unfolding rsplit_once
rsplit_once-append [] t h = rw (rsplit_once_none t h) refl
rsplit_once-append (c ∷ s) t h = rw (rsplit_once-append s t h) refl

split-cons : (t : Text) → (first : Text) × (others : List Text) × (split t ≡ first ∷ others)
unfolding split
split-cons [] = ([], [], refl)
split-cons (c ∷ t) = elim (Bool-cases (c == slash)) [
  | inl e ↦ ([], split t, rw e)
  | inr e ↦ let (first, others, e') = split-cons t in (c ∷ first, others, rw (e, e'))
]

-- Splitting at a slash that stands anywhere.
pub split-slash : (t rest : Text) → split (t ++ (slash ∷ rest)) ≡ split t ++ split rest
unfolding split
split-slash [] rest = refl
split-slash (c ∷ t) rest =
    let (first, others, e) = split-cons t in rw (split-slash t rest, e) (ground arith)

-- Two lists of texts, the first not empty, are joined with a slash between them.
pub join-append :
    (t u : Text) (ts us : List Text)
    → join ((t ∷ ts) ++ (u ∷ us)) ≡ join (t ∷ ts) ++ (slash ∷ join (u ∷ us))
unfolding join
join-append t u [] us = refl
join-append t u (v ∷ ts) us =
    rw (join-append v u ts us)
      (sym (append_assoc t (slash ∷ join (v ∷ ts)) (slash ∷ join (u ∷ us))))
