-- ===== src/Base/Strings.antt =====
-- Rust's `str` as the list of its code points, with the methods that the source uses.
use ius.Base.Tests.{ltb, leb, nat_eq, if◌then◌else◌}
use ius.Base.Lists.{is_empty, any}
use Prim.Native.Nat.{ℕ, zero, suc, ◌+◌, ◌-◌}
use mathlib.Core.Path.{◌≡◌}
use mathlib.Core.Bool.{Bool, true, false, ◌&&◌, ◌||◌}
use mathlib.Core.Option.{Option, none, some}
use mathlib.Core.List.{List, [], ◌∷◌}
use native.Mathlib.Omega.{arith}
use ius.Base.Lists.{All}
use ius.Base.Texts.{bytes_eq}

abbrev pub Text : Type 0
Text = List ℕ

-- `char::is_whitespace` and `char::is_control`, from the tables of Unicode.
abbrev pub is_whitespace : ℕ → Bool
is_whitespace c =
    leb 9 c && leb c 13
    || nat_eq c 32
    || nat_eq c 0x85
    || nat_eq c 0xA0
    || nat_eq c 0x1680
    || leb 0x2000 c && leb c 0x200A
    || nat_eq c 0x2028
    || nat_eq c 0x2029
    || nat_eq c 0x202F
    || nat_eq c 0x205F
    || nat_eq c 0x3000

abbrev pub is_control : ℕ → Bool
is_control c = ltb c 32 || leb 127 c && leb c 159

-- `str::len`: the bytes of the UTF-8 form.
abbrev pub len_utf8 : ℕ → ℕ
len_utf8 c = if ltb c 0x80 then 1 else if ltb c 0x800 then 2 else if ltb c 0x10000 then 3 else 4

abbrev pub str_len : Text → ℕ
str_len [] = 0
str_len (c ∷ s) = len_utf8 c + str_len s

-- `trim_start_matches` and `trim_end_matches` with a test on characters.
unfoldable pub trim_start : (ℕ → Bool) → Text → Text
trim_start p [] = []
trim_start p (c ∷ s) = let rest = trim_start p s in if p c then rest else c ∷ s

unfoldable pub trim_end : (ℕ → Bool) → Text → Text
trim_end p [] = []
trim_end p (c ∷ s) = let rest = trim_end p s in if is_empty rest && p c then [] else c ∷ rest

unfoldable pub trim : Text → Text
unfolding trim_start trim_end
trim s = trim_end is_whitespace (trim_start is_whitespace s)

unfoldable pub strip_prefix : Text → Text → Option Text
strip_prefix [] s = some s
strip_prefix (c ∷ p) [] = none
strip_prefix (c ∷ p) (d ∷ s) = if nat_eq c d then strip_prefix p s else none

unfoldable pub contains_char : ℕ → Text → Bool
contains_char c s = any (λ d. nat_eq c d) s

-- `contains("..")`
unfoldable pub contains_dots : Text → Bool
contains_dots [] = false
contains_dots (c ∷ []) = false
contains_dots (c ∷ d ∷ s) = nat_eq c 46 && nat_eq d 46 || contains_dots (d ∷ s)

-- `&s[..n]` and `&s[n..]`. Off a boundary of characters the source panics.
unfoldable pub split_at : ℕ → Text → Text × Text
split_at zero s = ([], s)
split_at (suc n) [] = ([], [])
split_at (suc n) (c ∷ s) = let (front, back) = split_at (suc n - len_utf8 c) s in (c ∷ front, back)

unfoldable pub ends_with : Text → Text → Bool
ends_with suffix [] = is_empty suffix
ends_with suffix (c ∷ s) = bytes_eq suffix (c ∷ s) || ends_with suffix s

-- `trim_end_matches` with a text: every copy at the end is taken off.
unfoldable pub trim_end_text : Text → Text → Text
trim_end_text suffix [] = []
trim_end_text suffix (c ∷ s) =
    let rest = trim_end_text suffix s in if bytes_eq suffix (c ∷ rest) then [] else c ∷ rest

-- What trimming leaves was there before, and what it takes off passed the test.
pub trim_start-All {κ} :
    (P : ℕ → Type κ) (p : ℕ → Bool) (s : Text)
    → ((c : ℕ) → p c ≡ true → P c)
    → All P (trim_start p s)
    → All P s
unfolding trim_start
trim_start-All P p [] taken h = h
trim_start-All P p (c ∷ s) taken h = ground (arith, trim_start-All P p s taken, taken c)

pub trim_end-All {κ} :
    (P : ℕ → Type κ) (p : ℕ → Bool) (s : Text)
    → ((c : ℕ) → p c ≡ true → P c)
    → All P (trim_end p s)
    → All P s
unfolding trim_end
trim_end-All P p [] taken h = h
trim_end-All P p (c ∷ s) taken h = ground (arith, trim_end-All P p s taken, taken c)
