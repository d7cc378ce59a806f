-- ===== src/Contracts/SchemaVersion.antt =====
-- libs/contracts/src/events/dispatch-schema-version.ts.
pub mod Suffix
use Prim.Native.Char.{Char, code}
use contract_driven_messagin.Common.{
  ℕ, String, Bool, true, false, ◌&&◌, ◌||◌, Option, none, some, str_eq, leb, ◌==◌, if◌then◌else◌,
  decimal,
}
use contract_driven_messagin.Contracts.Value.{
  Value, undefined, null, boolean, number, text, buffer, array, object, Fields, find_field,
}

pub data SchemaVersion : Type 0 where
  v1 v2 : SchemaVersion

-- The white space and line terminators that `trim` removes.
abbrev pub is_space : Char → Bool
is_space c =
    (leb 9 (code c) && leb (code c) 13)
    || code c == 32
    || code c == 160
    || code c == 5760
    || (leb 8192 (code c) && leb (code c) 8202)
    || code c == 8232
    || code c == 8233
    || code c == 8239
    || code c == 8287
    || code c == 12288
    || code c == 65279

unfoldable pub trim_start : String → String
trim_start String.[] = ""
trim_start (String.◌∷◌ c s) = if is_space c then trim_start s else String.◌∷◌ c s

abbrev pub cons_unless_blank : Char → String → String
cons_unless_blank c String.[] = if is_space c then "" else String.◌∷◌ c ""
cons_unless_blank c (String.◌∷◌ d s) = String.◌∷◌ c (String.◌∷◌ d s)

unfoldable pub trim_end : String → String
trim_end String.[] = ""
trim_end (String.◌∷◌ c s) = cons_unless_blank c (trim_end s)

unfoldable pub trim : String → String
unfolding trim_start trim_end
trim s = trim_end (trim_start s)

-- `SCHEMA_VERSIONS.includes(s)`, with the version.
abbrev pub known_version : String → Option SchemaVersion
known_version s = if str_eq s "1" then some v1 else if str_eq s "2" then some v2 else none

unfoldable pub coerce_to_schema_version : Value → Option SchemaVersion
unfolding trim decimal
coerce_to_schema_version (text s) = known_version (trim s)
coerce_to_schema_version (buffer s) = known_version (trim s)
coerce_to_schema_version (number n) = known_version (trim (decimal n))
coerce_to_schema_version _ = none

abbrev pub is_digit : Char → Bool
is_digit c = leb b'0' (code c) && leb (code c) b'9'

unfoldable pub all_digits : String → Bool
all_digits String.[] = true
all_digits (String.◌∷◌ c s) = is_digit c && all_digits s

abbrev pub is_digits : String → Bool
is_digits String.[] = false
is_digits (String.◌∷◌ c s) = all_digits (String.◌∷◌ c s)

-- The digits, if the whole text is `.v` and digits.
abbrev pub version_digits : String → Option String
version_digits (String.◌∷◌ c (String.◌∷◌ d s)) =
    if code c == b'.' && code d == b'v' && is_digits s then some s else none
version_digits _ = none

-- `/\.v(\d+)$/.exec(s)`, its first group: the leftmost place from which the rest matches.
unfoldable pub match_version_suffix : String → Option String
unfolding all_digits
match_version_suffix String.[] = none
match_version_suffix (String.◌∷◌ c s) = elim (version_digits (String.◌∷◌ c s)) [
  | some digits ↦ some digits
  | none ↦ match_version_suffix s
]

abbrev pub version_of_digits : Option String → Option SchemaVersion
version_of_digits none = none
version_of_digits (some digits) = coerce_to_schema_version (text digits)

unfoldable pub extract_from_type_suffix : Value → Option SchemaVersion
unfolding match_version_suffix coerce_to_schema_version
extract_from_type_suffix (text s) = version_of_digits (match_version_suffix s)
extract_from_type_suffix _ = none

abbrev pub coerce_found : Option Value → Option SchemaVersion
coerce_found none = none
coerce_found (some v) = coerce_to_schema_version v

unfoldable pub read_envelope_schema_version : Value → Option SchemaVersion
unfolding find_field coerce_to_schema_version
read_envelope_schema_version (object fs) = coerce_found (find_field "schemaVersion" fs)
read_envelope_schema_version _ = none

abbrev pub or_undefined : Option Value → Value
or_undefined none = undefined
or_undefined (some v) = v

unfoldable pub read_envelope_type : Value → Value
unfolding find_field
read_envelope_type (object fs) = or_undefined (find_field "type" fs)
read_envelope_type _ = undefined

pub record SchemaVersionSources : Type 0 where
  pub envelope : Value
  pub header : Value
  pub type : Value

abbrev pub type_source : Value → Value → Value
type_source undefined envelope = read_envelope_type envelope
type_source given envelope = given

abbrev pub or_else : Option SchemaVersion → Option SchemaVersion → Option SchemaVersion
or_else (some v) w = some v
or_else none w = w

unfoldable pub resolve_schema_version : SchemaVersionSources → SchemaVersion
unfolding read_envelope_schema_version coerce_to_schema_version extract_from_type_suffix
    read_envelope_type
resolve_schema_version s = elim (read_envelope_schema_version s.envelope) [
  | some v ↦ v
  | none ↦ elim (coerce_to_schema_version s.header) [
    | some v ↦ v
    | none ↦ elim (extract_from_type_suffix (type_source s.type s.envelope)) [
      | some v ↦ v
      | none ↦ v1
    ]
  ]
]
