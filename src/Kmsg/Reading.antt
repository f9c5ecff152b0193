-- ===== src/Kmsg/Reading.antt =====
-- Reading the file of aether-kmsg/src/lib.rs piece by piece.
use aether_kernel.Prelude.{
  ℕ, zero, suc, ◌+◌, ◌-◌, ◌≤◌, ◌<◌, min, ◌≡◌, refl, sym, ap, ◌∙◌, ◌⊎◌, inl, inr, Bool-cases,
  take-take-append, [], ◌∷◌, ◌++◌, leb, length, take, drop, arith, length-drop, length-take,
  drop_of_length-le, take-append-drop, Option, some, none,
}
use aether_kernel.Vfs.{FsResult, ok, err}
use aether_kernel.Vfs.Path.Str.{Text}
use aether_kernel.Kmsg.{KmsgBuffer, render, read, size}

-- A read at any offset reports as many bytes as fit in the buffer and are left in the file, none at
-- or behind its end. It puts them at the start of the buffer and leaves the rest of it.
pub read_lem :
    (b : KmsgBuffer) (offset : ℕ) (buffer : Text)
    → let n = min (length buffer) (size b - offset) in
      read b offset buffer ≡ (ok n, take n (drop offset (render b)) ++ drop n buffer)
unfolding read size
read_lem b offset buffer = elim (Bool-cases (leb (length (render b)) offset)) [
  | inl e ↦
      (let z : min (length buffer) (length (render b) - offset) ≡ 0 = ground (arith, e) in
        rw (e, z) refl)
  | inr e ↦ rw e refl
]

-- What a read puts in the buffer, by the number of bytes that it reports.
abbrev pub got : FsResult ℕ × Text → Text
got (ok n, out) = take n out
got (err e, out) = []

-- A reader that moves its offset on by the bytes that it gets, until a read reports none; `none`
-- when it still reads after `fuel` reads.
abbrev pub then_more : Text → Option Text → Option Text
then_more [] rest = some []
then_more (c ∷ cs) none = none
then_more (c ∷ cs) (some rest) = some ((c ∷ cs) ++ rest)

pub read_all : ℕ → KmsgBuffer → ℕ → Text → Option Text
read_all zero b offset buffer = none
read_all (suc fuel) b offset buffer =
    let piece = got (read b offset buffer) in
    let rest = read_all fuel b (offset + length piece) buffer in then_more piece rest

drop-drop : (n m : ℕ) (xs : Text) → drop n (drop m xs) ≡ drop (m + n) xs
drop-drop n zero xs = let e : 0 + n ≡ n = omega arith in rw e refl
drop-drop n (suc m) [] =
    let e : suc m + n ≡ suc (m + n) = omega arith in rw e (drop_of_length-le n [] (omega arith))
drop-drop n (suc m) (x ∷ xs) =
    let e : suc m + n ≡ suc (m + n) = omega arith in rw e (drop-drop n m xs)

then_more-cons : (p r : Text) → 0 < length p → then_more p (some r) ≡ some (p ++ r)
then_more-cons [] r h = absurd (omega arith)
then_more-cons (c ∷ cs) r h = refl

module _ (b : KmsgBuffer) (offset : ℕ) (buffer : Text) where
  -- The number of bytes that a read gives.
  abbrev given : ℕ
  given = min (length buffer) (length (render b) - offset)

  got-read : got (read b offset buffer) ≡ take given (drop offset (render b))
  unfolding size
  got-read =
      ap got (read_lem b offset buffer)
      ∙ take-take-append given (drop offset (render b)) (drop given buffer)
          (omega (arith, length-drop offset (render b)))

  length-got : length (got (read b offset buffer)) ≡ given
  length-got =
      ap length got-read
      ∙ omega (arith, length-take given (drop offset (render b)), length-drop offset (render b))

-- A reader with a buffer of at least one byte, which moves on by what it gets while the log does not
-- change: within one read more than there are bytes left it comes to the end, and it has read the rest
-- of the file.
pub read_all_lem :
    (fuel : ℕ) (b : KmsgBuffer) (offset : ℕ) (buffer : Text)
    → 0 < length buffer
    → size b - offset < fuel
    → read_all fuel b offset buffer ≡ some (drop offset (render b))
unfolding read_all size
read_all_lem zero b offset buffer h l = absurd (omega arith)
read_all_lem (suc fuel) b offset buffer h l = elim (at_end (length (render b)) offset) [
  | inl e ↦
      (let z : min (length buffer) (length (render b) - offset) ≡ 0 = omega arith in
        ap (λ p. then_more p (read_all fuel b (offset + length p) buffer)) (nothing z)
        ∙ ap some (sym (drop_of_length-le offset (render b) e)))
  | inr e ↦
      (let g = length-got b offset buffer in
        let rest =
          read_all_lem fuel b (offset + length (got (read b offset buffer))) buffer h
            (omega (arith, g)) in
        ap (then_more (got (read b offset buffer))) rest
        ∙ then_more-cons (got (read b offset buffer))
            (drop (offset + length (got (read b offset buffer))) (render b)) (omega (arith, g))
        ∙ ap some (
            rw g (
              rw (got-read b offset buffer)
                (rejoin (min (length buffer) (length (render b) - offset))))))
]
  where
    nothing : min (length buffer) (length (render b) - offset) ≡ 0 → got (read b offset buffer) ≡ []
    nothing z = got-read b offset buffer ∙ rw z refl

    at_end : (a c : ℕ) → (a ≤ c) ⊎ (c < a)
    at_end a c = ground arith

    rejoin :
        (n : ℕ)
        → take n (drop offset (render b)) ++ drop (offset + n) (render b) ≡ drop offset (render b)
    rejoin n =
        ap (λ r. take n (drop offset (render b)) ++ r) (sym (drop-drop n offset (render b)))
        ∙ take-append-drop n (drop offset (render b))
