-- ===== src/Security/Groups.antt =====
-- The two copies of `resolve_group_gid`, in meridian-relay/src/security.rs and config.rs. The lines
-- of /etc/group are an argument, none if it cannot be read; the parser of numbers is the standard
-- library's.
use ius.Base.{ℕ, ◌≡◌, refl, Option, none, some, List, [], ◌∷◌, nat_eq, if◌then◌else◌}
use ius.Base.Strings.{Text}
use ius.Base.Texts.{bytes, bytes_eq}

-- A character at the front of the first part.
abbrev pub prepend_char : ℕ → List Text → List Text
prepend_char c [] = (c ∷ []) ∷ []
prepend_char c (part ∷ parts) = (c ∷ part) ∷ parts

-- `split(sep)`
unfoldable pub split_on : (sep : ℕ) → Text → List Text
split_on sep [] = [] ∷ []
split_on sep (c ∷ s) =
    let later = split_on sep s in if nat_eq c sep then [] ∷ later else prepend_char c later

module _ (parse_u32 : Text → Option ℕ) where
  -- The number of a group, if these are the parts of a line for it.
  unfoldable pub gid_of : (group_name : Text) → List Text → Option ℕ
  gid_of group_name (name ∷ password ∷ gid ∷ more) =
      if bytes_eq name group_name then parse_u32 gid else none
  gid_of group_name _ = none

  unfoldable pub find_gid : (group_name : Text) → List Text → Option ℕ
  unfolding gid_of split_on
  find_gid group_name [] = none
  find_gid group_name (line ∷ lines) =
      let later = find_gid group_name lines in
      elim (gid_of group_name (split_on 58 line)) [ none ↦ later | some gid ↦ some gid ]

  unfoldable pub resolve_group_gid : (lines : Option (List Text)) → (group_name : Text) → Option ℕ
  unfolding find_gid
  resolve_group_gid none group_name = none
  resolve_group_gid (some lines) group_name = find_gid group_name lines

  -- `DaemonConfig::resolve_group_gid`
  unfoldable pub config_group_gid :
      (lines : Option (List Text)) → (socket_group : Option Text) → Option ℕ
  unfolding find_gid
  config_group_gid lines none = none
  config_group_gid none (some group_name) = none
  config_group_gid (some lines) (some group_name) = find_gid group_name lines

-- A line whose number does not parse is passed over, as is one for another group.
finds_group :
    resolve_group_gid
      (λ s. if bytes_eq s (bytes "x") then none else some 7)
      (some (bytes "usb:*:x:" ∷ bytes "usbmux:*:1:" ∷ bytes "usb:*:46:root" ∷ []))
      (bytes "usb")
    ≡ some 7
unfolding resolve_group_gid find_gid gid_of split_on bytes_eq
finds_group = refl
