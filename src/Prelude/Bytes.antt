-- ===== src/Prelude/Bytes.antt =====
-- `to_ne_bytes` and `from_ne_bytes` of the integers: the lowest byte first, as on the kernel's only
-- architecture, x86_64.
use mathlib.Core.List.{List, [], ◌∷◌, ◌++◌}
use mathlib.Core.Path.{◌≡◌, refl}
use Prim.Native.Nat.{ℕ, zero, suc, ◌+◌, ◌*◌, ◌/◌, ◌%◌, ◌^◌, ◌<◌}
use native.Mathlib.Nat.{pow-suc}
use native.Mathlib.Omega.{arith}
use aether_kernel.Prelude.Lists.{length, All, take}

unfoldable pub to_ne_bytes : ℕ → ℕ → List ℕ
to_ne_bytes zero v = []
to_ne_bytes (suc n) v = v % 256 ∷ to_ne_bytes n (v / 256)

unfoldable pub from_ne_bytes : List ℕ → ℕ
from_ne_bytes [] = 0
from_ne_bytes (b ∷ bytes) = b + 256 * from_ne_bytes bytes

abbrev pub IsByte : ℕ → Type 0
IsByte b = b < 256

pub length-to_ne_bytes : (n v : ℕ) → length (to_ne_bytes n v) ≡ n
unfolding to_ne_bytes
length-to_ne_bytes zero v = refl
length-to_ne_bytes (suc n) v = omega (arith, length-to_ne_bytes n (v / 256))

pub from-to_ne_bytes : (n v : ℕ) → v < 256 ^ n → from_ne_bytes (to_ne_bytes n v) ≡ v
unfolding to_ne_bytes from_ne_bytes
from-to_ne_bytes zero v h = omega arith
from-to_ne_bytes (suc n) v h =
    let room : v / 256 < 256 ^ n = omega (arith, pow-suc 256 n) in
    omega (arith, from-to_ne_bytes n (v / 256) room)

pub to-from_ne_bytes :
    (bytes : List ℕ) → All IsByte bytes → to_ne_bytes (length bytes) (from_ne_bytes bytes) ≡ bytes
unfolding to_ne_bytes from_ne_bytes
to-from_ne_bytes [] h = refl
to-from_ne_bytes (b ∷ bytes) h =
    let low : (b + 256 * from_ne_bytes bytes) % 256 ≡ b = omega arith in
    let high : (b + 256 * from_ne_bytes bytes) / 256 ≡ from_ne_bytes bytes = omega arith in
    rw (low, high, to-from_ne_bytes bytes h.1)

pub from_ne_bytes-lt :
    (bytes : List ℕ) → All IsByte bytes → from_ne_bytes bytes < 256 ^ length bytes
unfolding from_ne_bytes
from_ne_bytes-lt [] h = omega arith
from_ne_bytes-lt (b ∷ bytes) h =
    omega (arith, pow-suc 256 (length bytes), from_ne_bytes-lt bytes h.1)

-- What follows the bytes of an integer does not matter.
pub take-to_ne_bytes :
    (n v : ℕ) (rest : List ℕ) → take n (to_ne_bytes n v ++ rest) ≡ to_ne_bytes n v
unfolding to_ne_bytes
take-to_ne_bytes zero v rest = refl
take-to_ne_bytes (suc n) v rest = rw (take-to_ne_bytes n (v / 256) rest)
