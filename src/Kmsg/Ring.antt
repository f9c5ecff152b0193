-- ===== src/Kmsg/Ring.antt =====
-- The records that the ring of aether-kmsg/src/lib.rs holds after any number of messages.
use aether_kernel.Prelude.{
  ℕ, zero, suc, ◌+◌, ◌-◌, ◌%◌, ◌^◌, ◌≤◌, ◌<◌, max, ◌≡◌, refl, sym, ap, ◌∙◌, ◌⊎◌, inl, inr, true,
  false, List, [], ◌∷◌, ◌++◌, ◌==◌, length, drop, arith, length-append, length-drop,
}
use mathlib.Core.List.{append_assoc, append-nil}
use aether_kernel.Vfs.Path.Str.{Text}
use aether_kernel.Kmsg.{KmsgBuffer, KmsgRecord, Level, new, push, snapshot, make_room}

pub record Message : Type 0 where
  pub level : Level
  pub ticks : ℕ
  pub text : Text

unfoldable pub push_all : KmsgBuffer → List Message → KmsgBuffer
push_all b [] = b
push_all b (m ∷ messages) = push_all (push b m.level m.ticks m.text) messages

-- Every message as a record, numbered on 64 bits from `n` on.
abbrev pub record_of : ℕ → Message → KmsgRecord
record_of n m = record { sequence = n; level = m.level; timestamp_ticks = m.ticks; text = m.text }

pub numbered : ℕ → List Message → List KmsgRecord
numbered n [] = []
numbered n (m ∷ messages) = record_of n m ∷ numbered ((n + 1) % 2 ^ 64) messages

-- The last `n` of a list.
abbrev pub last {ℓ} : {A : Type ℓ} → ℕ → List A → List A
last n xs = drop (length xs - n) xs

drop-one : {A : Type 0} (n : ℕ) (xs : List A) → drop 1 (drop n xs) ≡ drop (suc n) xs
drop-one zero xs = refl
drop-one (suc n) [] = refl
drop-one (suc n) (x ∷ xs) = drop-one n xs

drop-append_of_le :
    {A : Type 0} (n : ℕ) (xs ys : List A) → n ≤ length xs → drop n (xs ++ ys) ≡ drop n xs ++ ys
drop-append_of_le zero xs ys h = refl
drop-append_of_le (suc n) [] ys h = absurd (omega arith)
drop-append_of_le (suc n) (x ∷ xs) ys h = drop-append_of_le n xs ys (omega arith)

below_or_full : (a c : ℕ) → (a < c) ⊎ (c ≤ a)
below_or_full a c = ground arith

last-push :
    (c : ℕ) (history : List KmsgRecord) (r : KmsgRecord)
    → 0 < c
    → make_room c (last c history) ++ (r ∷ []) ≡ last c (history ++ (r ∷ []))
last-push c history r h = elim (below_or_full (length history) c) [
  | inl b ↦
      (let all : length history - c ≡ 0 = omega arith in
        let more : length (history ++ (r ∷ [])) - c ≡ 0 =
          omega (arith, length-append history (r ∷ [])) in
        let room : (length history == c) ≡ false = ground arith in rw (all, more, room) refl)
  | inr b ↦
      (let full : (length (drop (length history - c) history) == c) ≡ true =
          ground (arith, length-drop (length history - c) history) in
        let more : length (history ++ (r ∷ [])) - c ≡ suc (length history - c) =
          omega (arith, length-append history (r ∷ [])) in
        rw (full, more)
          (ap (λ xs. xs ++ (r ∷ [])) (drop-one (length history - c) history)
            ∙ sym (drop-append_of_le (suc (length history - c)) history (r ∷ []) (omega arith))))
]

push_all-last :
    (messages : List Message) (history : List KmsgRecord) (b : KmsgBuffer)
    → 0 < b.capacity
    → b.records ≡ last b.capacity history
    → (push_all b messages).records ≡ last b.capacity (history ++ numbered b.next_sequence messages)
unfolding push_all push numbered
push_all-last [] history b h e = rw append-nil e
push_all-last (m ∷ messages) history b h e =
    push_all-last messages (history ++ (record_of b.next_sequence m ∷ []))
      (push b m.level m.ticks m.text) h
      (rw e (last-push b.capacity history (record_of b.next_sequence m) h))
    ∙ ap (last b.capacity) (
        append_assoc history (record_of b.next_sequence m ∷ [])
          (numbered ((b.next_sequence + 1) % 2 ^ 64) messages))

-- After any messages, a buffer made for `capacity` records shows the last of them, at most
-- max(capacity, 1), in the order they came in, each numbered with its place modulo 2^64.
pub snapshot-push_all :
    (capacity : ℕ) (messages : List Message)
    → snapshot (push_all (new capacity) messages) ≡ last (max capacity 1) (numbered 0 messages)
unfolding new
snapshot-push_all capacity messages = push_all-last messages [] (new capacity) (omega arith) start
  where
    start : (new capacity).records ≡ last (max capacity 1) []
    start = let none_left : 0 - max capacity 1 ≡ 0 = omega arith in rw none_left refl
