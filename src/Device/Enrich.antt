-- ===== src/Device/Enrich.antt =====
-- What meridian-relay/src/device/info.rs and `enrich_via_lockdown` of lockdown.rs fill into a device.
use ius.Base.{
  ◌≡◌, ◌∙◌, refl, if_both, ◌||◌, Bool, true, false, ◌&&◌, Option, none, some, List, [], ◌∷◌, nat_eq,
  if◌then◌else◌, arith,
}
use ius.Base.Strings.{Text, trim}
use ius.Base.Texts.{bytes, bytes_eq, Bytes-eq}
use ius.Base.Assoc
use ius.Base.Assoc.{Assoc}
use ius.Device.Listing.{Device}

-- The friendly name of a model, from a table; `table` is that of `model_name`.
abbrev pub or_keep : Option Text → Text → Text
or_keep none s = s
or_keep (some name) s = name

abbrev pub is_none : Option Text → Bool
is_none none = true
is_none (some _) = false

-- The device, and the values that were used.
unfoldable pub fill :
    (model_name : Text → Option Text) → Device → (key value : Text) → Device × Bool
fill model_name d key value =
    if bytes_eq key (bytes "DeviceName") && is_none d.name
    then (record d { name = some value }, true)
    else if bytes_eq key (bytes "ProductType") && is_none d.model
    then (record d { model = some (or_keep (model_name value) value) }, true)
    else if bytes_eq key (bytes "ProductVersion") && is_none d.ios_version
    then (record d { ios_version = some value }, true)
    else if bytes_eq key (bytes "BuildVersion") && is_none d.build_version
    then (record d { build_version = some value }, true)
    else (d, false)

unfoldable pub enrich_via_lockdown :
    (model_name : Text → Option Text) → Device → List (Text × Text) → Device × List (Text × Text)
unfolding fill
enrich_via_lockdown model_name d [] = (d, [])
enrich_via_lockdown model_name d ((key, value) ∷ values) =
    let (d', used) = fill model_name d key value in
    let (last, filled) = enrich_via_lockdown model_name d' values in
    (last, if used then (key, value) ∷ filled else filled)

-- `split_once(": ")`
unfoldable pub split_colon : Text → Option (Text × Text)
split_colon [] = none
split_colon (c ∷ []) = none
split_colon (c ∷ d ∷ s) =
    let later = split_colon (d ∷ s) in
    if nat_eq c 58 && nat_eq d 32
    then some ([], s)
    else elim later [ none ↦ none | some (key, value) ↦ some (c ∷ key, value) ]

-- The last line of a key is the one that stays.
unfoldable pub parse_lines : List Text → Assoc Text Text → Assoc Text Text
unfolding split_colon trim
parse_lines [] m = m
parse_lines (line ∷ lines) m = elim (split_colon line) [
  | none ↦ parse_lines lines m
  | some (key, value) ↦ parse_lines lines (Assoc.insert (trim key) (trim value) m)
]

-- `lines` are those of the output.
unfoldable pub parse_ideviceinfo_output : (lines : List Text) → Assoc Text Text
unfolding parse_lines
parse_ideviceinfo_output lines = parse_lines lines []

abbrev pub or_else : Option Text → Option Text → Option Text
or_else none other = other
or_else (some s) other = some s

-- The gaps that the tool's output fills.
unfoldable pub enrich_via_ideviceinfo :
    (model_name : Text → Option Text) → Device → (lines : List Text) → Device
unfolding parse_ideviceinfo_output
enrich_via_ideviceinfo model_name d lines =
    let values = parse_ideviceinfo_output lines in
    let get : Text → Option Text = λ key. Assoc.lookup key values in
    record d {
      name = or_else d.name (get (bytes "DeviceName"));
      model = or_else d.model (elim (get (bytes "ProductType")) [
        | none ↦ none
        | some s ↦ some (or_keep (model_name s) s)
      ]);
      ios_version = or_else d.ios_version (get (bytes "ProductVersion"));
      build_version = or_else d.build_version (get (bytes "BuildVersion"));
    }

-- A device that has all that another one has.
pub record Extends (d e : Device) : Type 0 where
  pub same_udid : e.udid ≡ d.udid
  pub same_id : e.device_id ≡ d.device_id
  pub keeps_name : (s : Text) → d.name ≡ some s → e.name ≡ some s
  pub keeps_model : (s : Text) → d.model ≡ some s → e.model ≡ some s
  pub keeps_ios_version : (s : Text) → d.ios_version ≡ some s → e.ios_version ≡ some s
  pub keeps_build_version : (s : Text) → d.build_version ≡ some s → e.build_version ≡ some s

fill-Extends :
    (model_name : Text → Option Text) (d : Device) (key value : Text)
    → Extends d (fill model_name d key value).0
unfolding fill
fill-Extends model_name d key value = record {
  same_udid = ground arith;
  same_id = ground arith;
  keeps_name = λ s h. ground (arith, h);
  keeps_model = λ s h. ground (arith, h);
  keeps_ios_version = λ s h. ground (arith, h);
  keeps_build_version = λ s h. ground (arith, h);
}

Extends-trans : (d e f : Device) → Extends d e → Extends e f → Extends d f
Extends-trans d e f x y = record {
  same_udid = y.same_udid ∙ x.same_udid;
  same_id = y.same_id ∙ x.same_id;
  keeps_name = λ s h. y.keeps_name s (x.keeps_name s h);
  keeps_model = λ s h. y.keeps_model s (x.keeps_model s h);
  keeps_ios_version = λ s h. y.keeps_ios_version s (x.keeps_ios_version s h);
  keeps_build_version = λ s h. y.keeps_build_version s (x.keeps_build_version s h);
}

Extends-refl : (d : Device) → Extends d d
Extends-refl d = record {
  same_udid = refl;
  same_id = refl;
  keeps_name = λ s h. h;
  keeps_model = λ s h. h;
  keeps_ios_version = λ s h. h;
  keeps_build_version = λ s h. h;
}

lockdown-Extends :
    (model_name : Text → Option Text) (d : Device) (values : List (Text × Text))
    → Extends d (enrich_via_lockdown model_name d values).0
unfolding enrich_via_lockdown
lockdown-Extends model_name d [] = Extends-refl d
lockdown-Extends model_name d ((key, value) ∷ values) =
    let d' = (fill model_name d key value).0 in
    Extends-trans d d' _ (fill-Extends model_name d key value)
      (lockdown-Extends model_name d' values)

ideviceinfo-Extends :
    (model_name : Text → Option Text) (d : Device) (lines : List Text)
    → Extends d (enrich_via_ideviceinfo model_name d lines)
unfolding enrich_via_ideviceinfo
ideviceinfo-Extends model_name d lines = record {
  same_udid = refl;
  same_id = refl;
  keeps_name = λ s h. rw h refl;
  keeps_model = λ s h. rw h refl;
  keeps_ios_version = λ s h. rw h refl;
  keeps_build_version = λ s h. rw h refl;
}

abbrev pub after_lockdown :
    (model_name : Text → Option Text) → Device → Option (List (Text × Text)) → Device
after_lockdown model_name d none = d
after_lockdown model_name d (some values) = (enrich_via_lockdown model_name d values).0

abbrev pub after_tool : (model_name : Text → Option Text) → Device → Option (List Text) → Device
after_tool model_name d none = d
after_tool model_name d (some lines) = enrich_via_ideviceinfo model_name d lines

-- `enrich_device_info`: lockdown's values, none if it fails, and then the tool's, if something is
-- still missing and the tool runs.
unfoldable pub enrich_device_info :
    (model_name : Text → Option Text)
    → Device
    → (values : Option (List (Text × Text))) (tool : Option (List Text)) → Device
enrich_device_info model_name d values tool =
    let d' = after_lockdown model_name d values in
    if is_none d'.name || is_none d'.ios_version then after_tool model_name d' tool else d'

after_lockdown-Extends :
    (model_name : Text → Option Text) (d : Device) (values : Option (List (Text × Text)))
    → Extends d (after_lockdown model_name d values)
after_lockdown-Extends model_name d none = Extends-refl d
after_lockdown-Extends model_name d (some values) = lockdown-Extends model_name d values

after_tool-Extends :
    (model_name : Text → Option Text) (d : Device) (tool : Option (List Text))
    → Extends d (after_tool model_name d tool)
after_tool-Extends model_name d none = Extends-refl d
after_tool-Extends model_name d (some lines) = ideviceinfo-Extends model_name d lines

-- Whatever lockdown and the tool say, a device keeps its identity and all that it had.
pub enrich_device_info-Extends :
    (model_name : Text → Option Text) (d : Device) (values : Option (List (Text × Text)))
    (tool : Option (List Text))
    → Extends d (enrich_device_info model_name d values tool)
unfolding enrich_device_info
enrich_device_info-Extends model_name d values tool =
    let d' = after_lockdown model_name d values in
    let first = after_lockdown-Extends model_name d values in
    if_both (Extends d) (is_none d'.name || is_none d'.ios_version)
      (Extends-trans d d' _ first (after_tool-Extends model_name d' tool)) first
