-- ===== src/Clients/Records.antt =====
-- The pair records of meridian-relay/src/daemon/connection.rs: files of the lockdown directory,
-- named by the device's identifier with or without its dash.
pub mod Deletion
pub mod RoundTrip
use ius.Base.{
  ℕ, zero, suc, ◌+◌, ◌/◌, ◌%◌, ◌^◌, ltb, is_empty, Bool, true, false, not, ◌&&◌, ◌||◌, Option, none,
  some, List, [], ◌∷◌, ◌++◌, nat_eq, if◌then◌else◌, Outcome, ok, err,
}
use ius.Base.Words.{Bytes}
use ius.Base.Strings.{Text, trim, str_len, contains_char, split_at, ends_with, trim_end_text}
use ius.Base.Texts.{bytes, bytes_eq}
use ius.Platform.{IoError, not_found, invalid_input, Directory, secure_write_secret}
use ius.Security.{trim_udid, sanitize_udid_for_path}

abbrev pub plist_suffix : Text
plist_suffix = bytes ".plist"

-- `format!("{name}.plist")`
abbrev pub plist_name : Text → Text
plist_name name = name ++ plist_suffix

unfoldable pub dashed : Text → Text
dashed raw =
    let (front, back) = split_at 8 raw in
    if nat_eq (str_len raw) 24 && not (contains_char 45 raw) then front ++ 45 ∷ back else raw

-- The test of a directory entry against the two forms of the identifier.
unfoldable pub is_record_of : (raw : Text) → Text → Bool
is_record_of raw name =
    let stem = trim_end_text plist_suffix name in
    ends_with plist_suffix name && (bytes_eq stem raw || bytes_eq stem (dashed raw))

-- The search of `has_pair_record` ends at an entry that cannot be read.
unfoldable pub has_entry : (raw : Text) → List (Outcome IoError Text) → Bool
unfolding is_record_of
has_entry raw [] = false
has_entry raw (err e ∷ entries) = false
has_entry raw (ok name ∷ entries) = is_record_of raw name || has_entry raw entries

-- That of `read_pair_record` fails there.
unfoldable pub find_entry : (raw : Text) → List (Outcome IoError Text) → Outcome IoError Text
unfolding is_record_of
find_entry raw [] = err not_found
find_entry raw (err e ∷ entries) = err e
find_entry raw (ok name ∷ entries) =
    let rest = find_entry raw entries in if is_record_of raw name then ok name else rest

abbrev pub hex_digit : ℕ → ℕ
hex_digit d = if ltb d 10 then 48 + d else 87 + d

-- `{:0w$x}` of a number below `16 ^ w`.
unfoldable pub hex : ℕ → ℕ → Text
hex zero n = []
hex (suc w) n = hex w (n / 16) ++ hex_digit (n % 16) ∷ []

unfoldable pub new_buid : (nanos random : ℕ) → Text
unfolding hex
new_buid nanos random = hex 16 (nanos % 2 ^ 64) ++ hex 16 random

abbrev pub buid_name : Text
buid_name = bytes "buid"

-- The identifier that the file holds, if it can be read and is not blank.
unfoldable pub stored_buid :
    (D : Directory) → (from_utf8 : Bytes → Option Text) → D.State → Option Text
unfolding trim
stored_buid D from_utf8 s = elim (D.read s buid_name) [
  | err _ ↦ none
  | ok contents ↦ elim (from_utf8 contents) [
    | none ↦ none
    | some buid ↦ if is_empty (trim buid) then none else some (trim buid)
  ]
]

module _ (D : Directory) where
  unfoldable pub has_pair_record : D.State → Text → Bool
  unfolding has_entry
  has_pair_record s udid =
      let raw = trim_udid udid in
      if not (D.present s)
      then false
      else if D.metadata s (plist_name raw)
      then true
      else if D.metadata s (plist_name (dashed raw))
      then true
      else elim (D.read_dir s) [ err _ ↦ false | ok entries ↦ has_entry raw entries ]

  unfoldable pub read_pair_record : D.State → Text → Outcome IoError Bytes
  unfolding find_entry
  read_pair_record s udid =
      let raw = trim_udid udid in
      if not (D.present s)
      then err not_found
      else if D.metadata s (plist_name raw)
      then D.read s (plist_name raw)
      else if D.metadata s (plist_name (dashed raw))
      then D.read s (plist_name (dashed raw))
      else elim (D.read_dir s) [
        | err e ↦ err e
        | ok entries ↦ elim (find_entry raw entries) [ err e ↦ err e | ok name ↦ D.read s name ]
      ]

  -- `create_dir_all` where the directory is missing.
  unfoldable pub ensure_dir : D.State → D.State × Outcome IoError (Unit {0})
  ensure_dir s = if D.present s then (s, ok tt) else D.create_dir_all s

  unfoldable pub save_pair_record : D.State → Text → Bytes → D.State × Outcome IoError (Unit {0})
  unfolding ensure_dir secure_write_secret
  save_pair_record s udid contents =
      let (s', made) = ensure_dir s in
      elim made [
        | err e ↦ (s', err e)
        | ok _ ↦ elim (sanitize_udid_for_path udid) [
          | none ↦ (s', err invalid_input)
          | some safe_name ↦ secure_write_secret D s' (plist_name safe_name) contents
        ]
      ]

  unfoldable pub delete_pair_record : D.State → Text → D.State × Outcome IoError (Unit {0})
  delete_pair_record s udid =
      let raw = trim_udid udid in
      if not (D.present s)
      then (s, ok tt)
      else if D.metadata s (plist_name raw)
      then D.remove_file s (plist_name raw)
      else if D.metadata s (plist_name (dashed raw))
      then D.remove_file s (plist_name (dashed raw))
      else (s, ok tt)

  -- `nanos` is the clock and `random` the random source; UTF-8 decoding is the parameter
  -- `from_utf8`. The outcomes of the two writes are dropped.
  unfoldable pub get_or_create_buid :
      (from_utf8 : Bytes → Option Text) (nanos random : ℕ) → D.State → D.State × Text
  unfolding new_buid stored_buid ensure_dir secure_write_secret
  get_or_create_buid from_utf8 nanos random s = elim (stored_buid D from_utf8 s) [
    | some buid ↦ (s, buid)
    | none ↦
        let buid = new_buid nanos random in
        ((secure_write_secret D (ensure_dir s).0 buid_name buid).0, buid)
  ]
