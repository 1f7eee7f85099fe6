-- ===== src/Protocol/Plist.antt =====
-- What meridian-relay takes from the property list library: values and dictionaries, over unknown
-- types, and the documented behaviour that the code relies on.
use ius.Base.{ℕ, ◌≡◌, Bool, Option, none, some, List, ◌==◌, if◌then◌else◌}
use ius.Base.Words.{Bytes}
use ius.Base.Strings.{Text}
use ius.Base.Texts.{Bytes-eq}

-- `of_...` are the constructors of `plist::Value`, and `as_...` its views: `as_unsigned` gives
-- nothing for a negative integer.
pub record Plist : Type 1 where
  pub Value : Type 0
  pub Dictionary : Type 0
  pub new : Dictionary
  pub insert : Dictionary → Text → Value → Dictionary
  pub get : Dictionary → Text → Option Value
  pub of_string : Text → Value
  pub of_integer : ℕ → Value
  pub of_data : Bytes → Value
  pub of_array : List Value → Value
  pub of_dictionary : Dictionary → Value
  pub as_string : Value → Option Text
  pub as_unsigned : Value → Option ℕ
  pub as_data : Value → Option Bytes
  pub as_array : Value → Option (List Value)
  pub as_dictionary : Value → Option Dictionary
  pub as_boolean : Value → Option Bool

pub record IsLawful (P : Plist) : Type 0 where
  pub get-new : (key : Text) → P.get P.new key ≡ none
  pub get-insert :
      (d : P.Dictionary) (key : Text) (v : P.Value) (other : Text)
      → P.get (P.insert d key v) other ≡ (if key == other then some v else P.get d other)
  pub as_string-of_string : (s : Text) → P.as_string (P.of_string s) ≡ some s
  pub as_unsigned-of_integer : (n : ℕ) → P.as_unsigned (P.of_integer n) ≡ some n
  pub as_data-of_data : (bytes : Bytes) → P.as_data (P.of_data bytes) ≡ some bytes
  pub as_array-of_array : (vs : List P.Value) → P.as_array (P.of_array vs) ≡ some vs
  pub as_dictionary-of_dictionary :
      (d : P.Dictionary) → P.as_dictionary (P.of_dictionary d) ≡ some d
