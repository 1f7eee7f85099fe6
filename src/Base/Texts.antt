-- ===== src/Base/Texts.antt =====
-- Strings of the source as lists of bytes, with Rust's `==` on them and on pairs.
use Prim.Native.Nat.{ℕ}
use Prim.Native.Char.{code}
use Prim.Native.String.{String}
use mathlib.Core.Path.{◌≡◌}
use mathlib.Core.Logic.{◌↔◌}
use mathlib.Core.Bool.{Bool, true, false, ◌&&◌}
use mathlib.Core.List.{[], ◌∷◌}
use native.Mathlib.Omega.{arith}
use ius.Base.Tests.{Eq, nat_eq}
use ius.Base.Words.{Bytes}

-- The bytes of a literal, all of them ASCII.
abbrev pub bytes : String → Bytes
bytes String.[] = []
bytes (String.◌∷◌ c s) = code c ∷ bytes s

unfoldable pub bytes_eq : Bytes → Bytes → Bool
bytes_eq [] [] = true
bytes_eq (x ∷ xs) (y ∷ ys) = nat_eq x y && bytes_eq xs ys
bytes_eq _ _ = false

pub bytes_eq_iff : (a b : Bytes) → (bytes_eq a b ≡ true) ↔ (a ≡ b)
unfolding bytes_eq
bytes_eq_iff (x ∷ a) (y ∷ b) = ground (arith, bytes_eq_iff a b)
bytes_eq_iff _ _ = ground arith

instance abbrev pub Bytes-eq : Eq Bytes
Bytes-eq = record { same = bytes_eq; same_iff = bytes_eq_iff }

abbrev pub pair_eq : ℕ × ℕ → ℕ × ℕ → Bool
pair_eq (a, b) (c, d) = nat_eq a c && nat_eq b d

pub pair_eq_iff : (p q : ℕ × ℕ) → (pair_eq p q ≡ true) ↔ (p ≡ q)
pair_eq_iff (a, b) (c, d) = ground arith

instance abbrev pub pair-eq : Eq (ℕ × ℕ)
pair-eq = record { same = pair_eq; same_iff = pair_eq_iff }
