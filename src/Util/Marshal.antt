-- ===== src/Util/Marshal.antt =====
-- util/marshal.go: which codec a file name selects, for reading and for writing.
pub mod Formats
use Prim.Native.Char.{code}
use Prim.Native.String.{[], ◌∷◌}
use sardis.Common.{
  ℕ, Bool, ◌||◌, Option, none, some, String, string_comparable, ◌==◌, nat_beq, if◌then◌else◌,
}

-- The codecs of the packages that marshal.go imports: the driver's and birch's BSON, JSON, YAML.
pub data Codec : Type 0 where
  bson json yaml : Codec

-- `strings.HasSuffix(s, suffix)`
has_suffix : String → String → Bool
has_suffix [] suffix = suffix == ""
has_suffix (c ∷ s) suffix = let whole : String = c ∷ s in whole == suffix || has_suffix s suffix

-- The codec of `GetUnmarshaler`; `none` is the nil function.
unfoldable pub get_unmarshaler : String → Option Codec
unfolding has_suffix
get_unmarshaler fn =
    if has_suffix fn ".bson"
    then some bson
    else if has_suffix fn ".json"
    then some json
    else if has_suffix fn ".yaml" || has_suffix fn ".yml"
    then some yaml
    else none

-- `filepath.Ext` on a slash-separated path: from the last dot of the last element, dot included.
ext_from : String → String → String
ext_from found [] = found
ext_from found (c ∷ s) =
    let whole : String = c ∷ s in
    ext_from (if nat_beq (code c) b'/' then "" else if nat_beq (code c) b'.' then whole else found)
      s

ext : String → String
unfolding ext_from
ext path = ext_from "" path

pub data MarshalFormat : Type 0 where
  format_json format_ndjson format_bson format_yaml : MarshalFormat

pub marshaler_for_file : String → MarshalFormat
unfolding ext
marshaler_for_file fn =
    let e = ext fn in
    if e == "json"
    then format_json
    else if e == "ndjson" || e == "jsonl"
    then format_ndjson
    else if e == "bson"
    then format_bson
    else format_yaml

-- `MarshalFormat.String`
unfoldable pub format_name : MarshalFormat → String
format_name format_json = "JSON"
format_name format_ndjson = "NDJSON"
format_name format_bson = "BSON"
format_name format_yaml = "YAML"

-- The codec of `GetMarshler`; JSON is indented for the first format only.
unfoldable pub get_marshler : MarshalFormat → Codec
get_marshler format_json = json
get_marshler format_ndjson = json
get_marshler format_bson = bson
get_marshler format_yaml = yaml
