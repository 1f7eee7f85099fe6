-- ===== src/Tests/Library.antt =====
-- Property lists and a directory in memory: libraries that meet what the model asks of them.
use ius.Base.{
  ℕ, ◌≡◌, ◌≢◌, refl, ap, sym, ◌∙◌, Bool, true, false, ◌&&◌, Option, none, some, List, [], ◌∷◌, ◌==◌,
  map, if◌then◌else◌, Outcome, ok, err, Bool-cases, inl, inr, arith,
}
use ius.Base.Words.{Bytes}
use ius.Base.Strings.{Text}
use ius.Base.Texts.{Bytes-eq, bytes_eq, bytes_eq_iff}
use ius.Base.Assoc
use ius.Base.Assoc.{Assoc, lookup-insert, lookup-remove}
use ius.Protocol.Plist
use ius.Protocol.Plist.{Plist}
use ius.Platform
use ius.Platform.{IoError, not_found, Directory}

mutual
  pub data Value : Type 0 where
    string : Text → Value
    integer : ℕ → Value
    binary : Bytes → Value
    boolean : Bool → Value
    array : Values → Value
    dictionary : Entries → Value

  pub data Values : Type 0 where
    no_values : Values
    value : Value → Values → Values

  pub data Entries : Type 0 where
    no_entries : Entries
    entry : Text → Value → Entries → Entries

abbrev pub find : Entries → Text → Option Value
find no_entries key = none
find (entry other v rest) key = if other == key then some v else find rest key

abbrev pub to_list : Values → List Value
to_list no_values = []
to_list (value v vs) = v ∷ to_list vs

abbrev pub from_list : List Value → Values
from_list [] = no_values
from_list (v ∷ vs) = value v (from_list vs)

to_list-from_list : (vs : List Value) → to_list (from_list vs) ≡ vs
to_list-from_list [] = refl
to_list-from_list (v ∷ vs) = rw (to_list-from_list vs) refl

abbrev pub plist : Plist
plist = record {
  Value = Value;
  Dictionary = Entries;
  new = no_entries;
  insert = λ d key v. entry key v d;
  get = find;
  of_string = string;
  of_integer = integer;
  of_data = binary;
  of_array = λ vs. array (from_list vs);
  of_dictionary = dictionary;
  as_string = λ v. elim v [ string s ↦ some s | _ ↦ none ];
  as_unsigned = λ v. elim v [ integer n ↦ some n | _ ↦ none ];
  as_data = λ v. elim v [ binary b ↦ some b | _ ↦ none ];
  as_array = λ v. elim v [ array vs ↦ some (to_list vs) | _ ↦ none ];
  as_dictionary = λ v. elim v [ dictionary d ↦ some d | _ ↦ none ];
  as_boolean = λ v. elim v [ boolean b ↦ some b | _ ↦ none ];
}

pub plist-IsLawful : Plist.IsLawful plist
plist-IsLawful = record {
  get-new = λ key. refl;
  get-insert = λ d key v other. refl;
  as_string-of_string = λ s. refl;
  as_unsigned-of_integer = λ n. refl;
  as_data-of_data = λ b. refl;
  as_array-of_array = λ vs. rw (to_list-from_list vs) refl;
  as_dictionary-of_dictionary = λ d. refl;
}

-- Whether the directory was made, and its files.
pub record Disk : Type 0 where
  pub made : Bool
  pub files : Assoc Text Bytes

abbrev is_some : Option Bytes → Bool
is_some none = false
is_some (some _) = true

abbrev has : Disk → Text → Bool
has s name = s.made && is_some (Assoc.lookup name s.files)

abbrev contents_of : Option Bytes → Outcome IoError Bytes
contents_of none = err not_found
contents_of (some b) = ok b

abbrev put : Disk → Text → Bytes → Disk × Outcome IoError (Unit {0})
put s name b =
    if s.made then (record s { files = Assoc.insert name b s.files }, ok tt) else (s, err not_found)

abbrev pub disk : Directory
disk = record {
  State = Disk;
  present = λ s. s.made;
  metadata = has;
  read = λ s name. if s.made then contents_of (Assoc.lookup name s.files) else err not_found;
  read_dir = λ s. ok (map (λ (f : Text × Bytes). ok f.0) s.files);
  create_dir_all = λ s. (record { made = true; files = if s.made then s.files else [] }, ok tt);
  remove_file = λ s name. (record s { files = Assoc.remove name s.files }, ok tt);
  open_secret = λ s name. put s name [];
  write_all = put;
  sync_all = λ s name. (s, ok tt);
}

put_made :
    (s s' : Disk) (name : Text) (b : Bytes)
    → put s name b ≡ (s', ok tt)
    → (s.made ≡ true) × (s'.made ≡ true) × (s'.files ≡ Assoc.insert name b s.files)
put_made s s' name b h = elim (Bool-cases s.made) [
  | inl made ↦ (made, ground (arith, h, made), ground (arith, h, made))
  | inr not_made ↦ absurd (ground (arith, h, not_made))
]

-- A file is told from what its lookup gives.
same_file :
    (s s' : Disk) (name : Text)
    → s'.made ≡ s.made
    → Assoc.lookup name s'.files ≡ Assoc.lookup name s.files
    → (disk.metadata s' name ≡ disk.metadata s name) × (disk.read s' name ≡ disk.read s name)
same_file s s' name made found = (rw (made, found) refl, rw (made, found) refl)

apart : (a b : Text) → a ≢ b → bytes_eq b a ≡ false
apart a b h = ground (arith, h, bytes_eq_iff b a)

itself : (a : Text) → bytes_eq a a ≡ true
itself a = (bytes_eq_iff a a).1 refl

pub disk-IsLawful : Platform.IsLawful disk
disk-IsLawful = record {
  read-written = λ s s₁ s₂ s₃ path contents opened written synced.
      let (m, m₁, f₁) = put_made s s₁ path [] opened in
      let (_, m₂, f₂) = put_made s₁ s₂ path contents written in
      let same : s₂ ≡ s₃ = ap (λ p. p.0) synced in
      let found : Assoc.lookup path s₂.files ≡ some contents =
        rw f₂ (rw (lookup-insert path path contents s₁.files, itself path) refl) in
      (rw (← same) m₂, rw (← same, m₂, found) refl, rw (← same, m₂, found) refl);
  other-written = λ s s₁ s₂ s₃ path contents name other opened written synced.
      let (m, m₁, f₁) = put_made s s₁ path [] opened in
      let (_, m₂, f₂) = put_made s₁ s₂ path contents written in
      let same : s₂ ≡ s₃ = ap (λ p. p.0) synced in
      let found : Assoc.lookup name s₂.files ≡ Assoc.lookup name s.files = rw f₂ (
        rw (lookup-insert path name contents s₁.files, apart name path other)
          (rw f₁ (rw (lookup-insert path name [] s.files, apart name path other) refl))) in
      rw (← same) (same_file s s₂ name (m₂ ∙ sym m) found);
  metadata-create_dir_all = λ s s' name h.
      let same = ap (λ p. p.0) h in
      elim (Bool-cases s.made) [
        | inl made ↦ rw (← same) (rw made (refl, refl))
        | inr not_made ↦ rw (← same) (rw not_made (unfold Assoc.lookup in (refl, refl)))
      ];
  metadata-remove_file = λ s s' path h.
      let same = ap (λ p. p.0) h in
      rw (← same) (rw (lookup-remove path path s.files, itself path) (ground arith), refl);
  other-remove_file = λ s s' path name other h.
      let same = ap (λ p. p.0) h in
      rw (← same) (
        same_file s _ name refl (rw (lookup-remove path name s.files, apart name path other) refl));
  metadata_absent = λ s name h. rw h refl;
}
