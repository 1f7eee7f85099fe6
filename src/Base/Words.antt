-- ===== src/Base/Words.antt =====
-- Machine integers as native numbers, and the byte orders of Rust's `to_be_bytes` and friends.
use Prim.Native.Nat.{ℕ, ◌+◌, ◌*◌, ◌/◌, ◌%◌, ◌^◌, ◌<◌}
use mathlib.Core.Path.{◌≡◌}
use mathlib.Core.List.{List, [], ◌∷◌}
use native.Mathlib.Omega.{arith}

abbrev pub Bytes : Type 0
Bytes = List ℕ

abbrev pub IsByte : ℕ → Type 0
IsByte b = b < 256

abbrev pub IsU16 : ℕ → Type 0
IsU16 n = n < 65536

abbrev pub IsU32 : ℕ → Type 0
IsU32 n = n < 4294967296

abbrev pub IsU64 : ℕ → Type 0
IsU64 n = n < 2 ^ 64

-- `x as u8`, `x as u16`, `x as u32`, and the wrapping additions.
abbrev pub u8 : ℕ → ℕ
u8 n = n % 256

abbrev pub u16 : ℕ → ℕ
u16 n = n % 65536

abbrev pub u32 : ℕ → ℕ
u32 n = n % 4294967296

abbrev pub wrapping_add16 : ℕ → ℕ → ℕ
wrapping_add16 a b = (a + b) % 65536

abbrev pub wrapping_add32 : ℕ → ℕ → ℕ
wrapping_add32 a b = (a + b) % 4294967296

abbrev pub be16 : ℕ → Bytes
be16 n = u8 (n / 256) ∷ u8 n ∷ []

abbrev pub be32 : ℕ → Bytes
be32 n = u8 (n / 16777216) ∷ u8 (n / 65536) ∷ u8 (n / 256) ∷ u8 n ∷ []

abbrev pub le32 : ℕ → Bytes
le32 n = u8 n ∷ u8 (n / 256) ∷ u8 (n / 65536) ∷ u8 (n / 16777216) ∷ []

abbrev pub from_be16 : ℕ → ℕ → ℕ
from_be16 a b = a * 256 + b

abbrev pub from_be32 : ℕ → ℕ → ℕ → ℕ → ℕ
from_be32 a b c d = a * 16777216 + b * 65536 + c * 256 + d

abbrev pub from_le32 : ℕ → ℕ → ℕ → ℕ → ℕ
from_le32 a b c d = from_be32 d c b a

pub be16-round : (n : ℕ) → IsU16 n → from_be16 (u8 (n / 256)) (u8 n) ≡ n
be16-round n h = omega arith

pub be32-round :
    (n : ℕ) → IsU32 n → from_be32 (u8 (n / 16777216)) (u8 (n / 65536)) (u8 (n / 256)) (u8 n) ≡ n
be32-round n h = omega arith
