-- ===== src/Security.antt =====
-- meridian-relay/src/security.rs: the check of device identifiers, the allow list, and the guard
-- that removes a socket file. A text is its code points; a group file is an argument.
pub mod Udid
pub mod Groups
use Prim.Native.Nat.{bit_and}
use ius.Base.{
  ℕ, ◌+◌, Bool, true, false, not, ◌&&◌, ◌||◌, Option, none, some, List, [], ◌∷◌, ltb, leb, nat_eq,
  if◌then◌else◌, is_empty, any, all, Outcome, ok, err, String,
}
use ius.Base.Strings.{Text, str_len, trim, trim_end, contains_char, contains_dots}

abbrev pub max_udid_len : ℕ
max_udid_len = 64

-- `b"0123456789abcdefABCDEF-"`
abbrev pub is_udid_char : ℕ → Bool
is_udid_char b =
    leb 48 b && leb b 57 || leb 97 b && leb b 102 || leb 65 b && leb b 70 || nat_eq b 45

abbrev pub is_nul : ℕ → Bool
is_nul c = nat_eq c 0

-- `trim().trim_end_matches('\0')`
unfoldable pub trim_udid : Text → Text
unfolding trim_end trim
trim_udid udid = trim_end is_nul (trim udid)

-- A character beyond ASCII is refused for its first byte as it is here for its code point.
unfoldable pub validate_udid : Text → Outcome String (Unit {0})
unfolding trim_udid
validate_udid udid =
    let trimmed = trim_udid udid in
    if is_empty trimmed
    then err "UDID is empty"
    else if ltb max_udid_len (str_len trimmed)
    then err "UDID too long"
    else if not (all is_udid_char trimmed)
    then err "UDID contains invalid characters"
    else if contains_dots trimmed || contains_char 47 trimmed || contains_char 92 trimmed
    then err "UDID contains path traversal characters"
    else ok tt

unfoldable pub sanitize_udid_for_path : Text → Option Text
unfolding trim_udid
sanitize_udid_for_path udid = elim (validate_udid (trim_udid udid)) [
  | err _ ↦ none
  | ok _ ↦ some (trim_udid udid)
]

pub record PeerCredentials : Type 0 where
  pub uid : ℕ
  pub gid : ℕ
  pub pid : Option ℕ

unfoldable pub is_allowed : PeerCredentials → List ℕ → Bool
is_allowed peer allowed_uids =
    if is_empty allowed_uids then true else any (nat_eq peer.uid) allowed_uids

pub record SocketCleanupGuard : Type 0 where
  pub path : Text
  pub remove_on_drop : Bool

abbrev pub new : Text → Bool → SocketCleanupGuard
new path remove_on_drop = record { path = path; remove_on_drop = remove_on_drop }

unfoldable pub disarm : SocketCleanupGuard → SocketCleanupGuard
disarm guard = record guard { remove_on_drop = false }

-- The file that dropping the guard tries to remove; `exists` is the file system's answer.
unfoldable pub drop_guard : (Text → Bool) → SocketCleanupGuard → Option Text
drop_guard exists guard =
    if guard.remove_on_drop && exists guard.path then some guard.path else none
