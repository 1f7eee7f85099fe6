-- ===== src/Config/Octal.antt =====
-- `parse_octal` of meridian-relay/src/config.rs. The error texts are not modelled.
use ius.Base.{
  ℕ, ◌+◌, ◌*◌, ◌-◌, ◌≡◌, Option, none, some, [], ◌∷◌, ◌&&◌, ltb, leb, nat_eq, if◌then◌else◌,
  is_empty, arith,
}
use ius.Base.Strings.{Text, trim, trim_start}
use ius.Base.Words.{IsU32}

-- `trim_start_matches("0o")`
unfoldable pub strip_0o : Text → Text
strip_0o [] = []
strip_0o (c ∷ []) = c ∷ []
strip_0o (c ∷ d ∷ s) =
    let rest = strip_0o s in if nat_eq c 48 && nat_eq d 111 then rest else c ∷ d ∷ s

-- The digits behind `acc`, where a value that needs more than 32 bits is an error.
unfoldable pub octal_digits : Text → ℕ → Option ℕ
octal_digits [] acc = some acc
octal_digits (c ∷ s) acc =
    let next = acc * 8 + (c - 48) in
    let rest = octal_digits s next in
    if leb 48 c && leb c 55 && ltb next 4294967296 then rest else none

-- `u32::from_str_radix(s, 8)`: a plus sign may stand in front, an empty text is an error.
unfoldable pub from_octal : Text → Option ℕ
unfolding octal_digits
from_octal [] = none
from_octal (c ∷ s) =
    if nat_eq c 43 then (if is_empty s then none else octal_digits s 0) else octal_digits (c ∷ s) 0

unfoldable pub parse_octal : Text → Option ℕ
unfolding trim strip_0o trim_start from_octal
parse_octal s = from_octal (trim_start (nat_eq 48) (strip_0o (trim s)))

octal_digits-IsU32 : (s : Text) (acc n : ℕ) → IsU32 acc → octal_digits s acc ≡ some n → IsU32 n
unfolding octal_digits
octal_digits-IsU32 [] acc n h e = ground arith
octal_digits-IsU32 (c ∷ s) acc n h e = ground (arith, octal_digits-IsU32 s (acc * 8 + (c - 48)) n)

from_octal-IsU32 : (s : Text) (n : ℕ) → from_octal s ≡ some n → IsU32 n
unfolding from_octal
from_octal-IsU32 [] n e = ground arith
from_octal-IsU32 (c ∷ s) n e =
    ground (arith, octal_digits-IsU32 s 0 n, octal_digits-IsU32 (c ∷ s) 0 n)

-- A mode that parses fits 32 bits.
pub parse_octal-IsU32 : (s : Text) (n : ℕ) → parse_octal s ≡ some n → IsU32 n
unfolding parse_octal
parse_octal-IsU32 s n e = from_octal-IsU32 (trim_start (nat_eq 48) (strip_0o (trim s))) n e
