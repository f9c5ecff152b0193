-- ===== src/Signal/Codec.antt =====
-- The encodings of abi.rs: what user memory holds of an action and of an alternate stack.
use aether_kernel.Prelude.{
  ℕ, ◌+◌, ◌<◌, ◌≡◌, ◌^◌, refl, ◌∙◌, false, ap, sym, List, [], ◌++◌, some, ltb, arith, length,
  length-append, drop-append,
}
use mathlib.Core.List.{append_assoc, append-nil}
use aether_kernel.Prelude.Bytes.{
  to_ne_bytes, from-to_ne_bytes, take-to_ne_bytes, length-to_ne_bytes,
}
use aether_kernel.Signal.Abi.{
  SignalAction, SignalStack, read_int, parse_sigaction, serialize_sigaction, parse_signal_stack,
  serialize_signal_stack,
}

-- An integer that is written behind `before` is read at that offset.
read_int_lem :
    (n v offset : ℕ) (before after : List ℕ)
    → v < 256 ^ n
    → offset ≡ length before
    → read_int n (before ++ (to_ne_bytes n v ++ after)) offset ≡ some v
unfolding read_int
read_int_lem n v offset before after h e =
    let room : ltb (length (before ++ (to_ne_bytes n v ++ after))) (length before + n) ≡ false =
      ground (
        arith,
        length-append before (to_ne_bytes n v ++ after),
        length-append (to_ne_bytes n v) after,
        length-to_ne_bytes n v,
      ) in
    rw (e, room, drop-append, take-to_ne_bytes, from-to_ne_bytes n v h) refl

-- Four integers, one after the other, of widths `a`, `b`, `c` and `d`.
module _ (a b c d p q r s : ℕ) where
  abbrev four : List ℕ
  four = to_ne_bytes a p ++ (to_ne_bytes b q ++ (to_ne_bytes c r ++ to_ne_bytes d s))

  length-four : length four ≡ a + b + c + d
  length-four = omega (
    arith,
    length-append (to_ne_bytes a p) (to_ne_bytes b q ++ (to_ne_bytes c r ++ to_ne_bytes d s)),
    length-append (to_ne_bytes b q) (to_ne_bytes c r ++ to_ne_bytes d s),
    length-append (to_ne_bytes c r) (to_ne_bytes d s),
    length-to_ne_bytes a p,
    length-to_ne_bytes b q,
    length-to_ne_bytes c r,
    length-to_ne_bytes d s,
  )

  read_first : p < 256 ^ a → read_int a four 0 ≡ some p
  read_first h = read_int_lem a p 0 [] _ h refl

  read_second : (o : ℕ) → o ≡ a → q < 256 ^ b → read_int b four o ≡ some q
  read_second o e h =
      read_int_lem b q o (to_ne_bytes a p) _ h (omega (arith, length-to_ne_bytes a p))

  read_third : (o : ℕ) → o ≡ a + b → r < 256 ^ c → read_int c four o ≡ some r
  read_third o e h =
      ap (λ bytes. read_int c bytes o) (sym (append_assoc (to_ne_bytes a p) (to_ne_bytes b q) _))
      ∙ read_int_lem c r o (to_ne_bytes a p ++ to_ne_bytes b q) _ h (
          omega (
            arith,
            length-append (to_ne_bytes a p) (to_ne_bytes b q),
            length-to_ne_bytes a p,
            length-to_ne_bytes b q,
          ))

  read_fourth : (o : ℕ) → o ≡ a + b + c → s < 256 ^ d → read_int d four o ≡ some s
  read_fourth o e h =
      ap (λ bytes. read_int d bytes o)
        (ap (λ t. to_ne_bytes a p ++ (to_ne_bytes b q ++ (to_ne_bytes c r ++ t)))
            (sym (append-nil (to_ne_bytes d s)))
          ∙ sym (append_assoc (to_ne_bytes a p) (to_ne_bytes b q) _)
          ∙ sym (append_assoc (to_ne_bytes a p ++ to_ne_bytes b q) (to_ne_bytes c r) _))
      ∙ read_int_lem d s o ((to_ne_bytes a p ++ to_ne_bytes b q) ++ to_ne_bytes c r) [] h (
          omega (
            arith,
            length-append (to_ne_bytes a p) (to_ne_bytes b q),
            length-append (to_ne_bytes a p ++ to_ne_bytes b q) (to_ne_bytes c r),
            length-to_ne_bytes a p,
            length-to_ne_bytes b q,
            length-to_ne_bytes c r,
          ))

-- The fields fit their machine words.
pub record FitsAction (a : SignalAction) : Type 0 where
  pub handler : a.handler < 2 ^ 64
  pub flags : a.flags < 2 ^ 64
  pub restorer : a.restorer < 2 ^ 64
  pub mask : a.mask < 2 ^ 64

pub record FitsStack (s : SignalStack) : Type 0 where
  pub ss_sp : s.ss_sp < 2 ^ 64
  pub ss_flags : s.ss_flags < 2 ^ 32
  pub pad : s.pad < 2 ^ 32
  pub ss_size : s.ss_size < 2 ^ 64

-- Parsing what `serialize_sigaction` wrote gives the action back.
pub parse-serialize_sigaction :
    (a : SignalAction) → FitsAction a → parse_sigaction (serialize_sigaction a) ≡ some a
unfolding parse_sigaction serialize_sigaction
parse-serialize_sigaction a f =
    rw
      (
        length-four 8 8 8 8 a.handler a.flags a.restorer a.mask,
        read_first 8 8 8 8 a.handler a.flags a.restorer a.mask f.handler,
        read_second 8 8 8 8 a.handler a.flags a.restorer a.mask 8 refl f.flags,
        read_third 8 8 8 8 a.handler a.flags a.restorer a.mask 16 refl f.restorer,
        read_fourth 8 8 8 8 a.handler a.flags a.restorer a.mask 24 refl f.mask,
      )
      refl

-- Parsing what `serialize_signal_stack` wrote gives the stack back.
pub parse-serialize_signal_stack :
    (s : SignalStack) → FitsStack s → parse_signal_stack (serialize_signal_stack s) ≡ some s
unfolding parse_signal_stack serialize_signal_stack
parse-serialize_signal_stack s f =
    rw
      (
        length-four 8 4 4 8 s.ss_sp s.ss_flags s.pad s.ss_size,
        read_first 8 4 4 8 s.ss_sp s.ss_flags s.pad s.ss_size f.ss_sp,
        read_second 8 4 4 8 s.ss_sp s.ss_flags s.pad s.ss_size 8 refl f.ss_flags,
        read_third 8 4 4 8 s.ss_sp s.ss_flags s.pad s.ss_size 12 refl f.pad,
        read_fourth 8 4 4 8 s.ss_sp s.ss_flags s.pad s.ss_size 16 refl f.ss_size,
      )
      refl
