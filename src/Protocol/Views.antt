-- ===== src/Protocol/Views.antt =====
-- Typed reads of the entries that are in a dictionary of the client protocol.
use ius.Base.{ℕ, ◌≡◌, refl, none, some}
use ius.Base.Strings.{Text}
use ius.Protocol.Plist.{Plist, IsLawful}
use ius.Protocol.Messages.{get_string, get_unsigned}

module _ (P : Plist) (lawful : IsLawful P) where
  pub get_string-of_string :
      (d : P.Dictionary) (key s : Text)
      → P.get d key ≡ some (P.of_string s)
      → get_string P d key ≡ some s
  unfolding get_string
  get_string-of_string d key s h = rw (h, get_string) (lawful.as_string-of_string s)

  pub get_string-none :
      (d : P.Dictionary) (key : Text) → P.get d key ≡ none → get_string P d key ≡ none
  unfolding get_string
  get_string-none d key h = rw (h, get_string) refl

  pub get_unsigned-of_integer :
      (d : P.Dictionary) (key : Text) (n : ℕ)
      → P.get d key ≡ some (P.of_integer n)
      → get_unsigned P d key ≡ some n
  unfolding get_unsigned
  get_unsigned-of_integer d key n h = rw (h, get_unsigned) (lawful.as_unsigned-of_integer n)

  pub get_unsigned-none :
      (d : P.Dictionary) (key : Text) → P.get d key ≡ none → get_unsigned P d key ≡ none
  unfolding get_unsigned
  get_unsigned-none d key h = rw (h, get_unsigned) refl
