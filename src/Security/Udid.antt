-- ===== src/Security/Udid.antt =====
-- What the check of a device identifier gives a caller that builds a path from it.
use ius.Base.{
  ℕ, ◌≤◌, ◌≡◌, ◌≢◌, inl, inr, ◌↔◌, true, false, ◌||◌, some, [], ◌∷◌, is_empty, all, All, ok,
  Outcome-cases, arith,
}
use ius.Base.Strings.{
  Text, str_len, trim, trim_start, is_whitespace, contains_char, contains_dots, trim_start-All,
  trim_end-All,
}
use ius.Security.{is_udid_char, is_nul, trim_udid, validate_udid, sanitize_udid_for_path}

-- Neither a separator of paths nor a dot.
pub record IsPathSafe (c : ℕ) : Type 0 where
  pub no_slash : c ≢ 47
  pub no_backslash : c ≢ 92
  pub no_dot : c ≢ 46

udid_char-IsPathSafe : (c : ℕ) → is_udid_char c ≡ true → IsPathSafe c
udid_char-IsPathSafe c h = record {
  no_slash = ground arith;
  no_backslash = ground arith;
  no_dot = ground arith;
}

whitespace-IsPathSafe : (c : ℕ) → is_whitespace c ≡ true → IsPathSafe c
whitespace-IsPathSafe c h = record {
  no_slash = ground arith;
  no_backslash = ground arith;
  no_dot = ground arith;
}

nul-IsPathSafe : (c : ℕ) → is_nul c ≡ true → IsPathSafe c
nul-IsPathSafe c h = record {
  no_slash = ground arith;
  no_backslash = ground arith;
  no_dot = ground arith;
}

all-IsPathSafe : (s : Text) → all is_udid_char s ≡ true → All IsPathSafe s
all-IsPathSafe [] h = tt
all-IsPathSafe (c ∷ s) h = (udid_char-IsPathSafe c (ground arith), all-IsPathSafe s (ground arith))

trim_udid-IsPathSafe : (s : Text) → All IsPathSafe (trim_udid s) → All IsPathSafe s
unfolding trim_udid trim
trim_udid-IsPathSafe s h = trim_start-All IsPathSafe is_whitespace s whitespace-IsPathSafe (
    trim_end-All IsPathSafe is_whitespace (trim_start is_whitespace s) whitespace-IsPathSafe
      (trim_end-All IsPathSafe is_nul (trim s) nul-IsPathSafe h))

-- A text of identifier characters has no dot and no separator, so the last test of the check
-- never fires.
no_traversal :
    (s : Text)
    → all is_udid_char s ≡ true
    → (contains_dots s || contains_char 47 s || contains_char 92 s) ≡ false
unfolding contains_dots contains_char
no_traversal [] h = ground arith
no_traversal (c ∷ []) h = ground arith
no_traversal (c ∷ d ∷ s) h = ground (arith, no_traversal (d ∷ s))

-- The check accepts a text exactly when it has from 1 to 64 characters behind its white space and
-- its trailing NULs, each of them a hexadecimal digit or a dash.
pub validate_udid_iff :
    (udid : Text)
    → (validate_udid udid ≡ ok tt) ↔ (
        (is_empty (trim_udid udid) ≡ false)
        × (str_len (trim_udid udid) ≤ 64)
        × (all is_udid_char (trim_udid udid) ≡ true))
unfolding validate_udid
validate_udid_iff udid = ground (arith, no_traversal (trim_udid udid))

validate_udid-all :
    (udid : Text) → validate_udid udid ≡ ok tt → all is_udid_char (trim_udid udid) ≡ true
validate_udid-all udid h = ((validate_udid_iff udid).0 h).2

-- A text that was accepted for a path has no separator and no dot, wherever it came from.
pub sanitize_udid_for_path-IsPathSafe :
    (udid s : Text) → sanitize_udid_for_path udid ≡ some s → All IsPathSafe s
unfolding sanitize_udid_for_path
sanitize_udid_for_path-IsPathSafe udid s h = elim (Outcome-cases (validate_udid (trim_udid udid))) [
  | inl (_, good) ↦
      trim_udid-IsPathSafe s
        (all-IsPathSafe (trim_udid s) (validate_udid-all s (ground (arith, good))))
  | inr (e, bad) ↦ ground arith
]
