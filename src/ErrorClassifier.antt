-- ===== src/ErrorClassifier.antt =====
-- apps/messaging/src/reliability/error-classifier.ts.
pub mod Outages
use contract_driven_messagin.Common.{
  String, Bool, true, false, ◌&&◌, List, [], ◌∷◌, Option, none, some, any, str_eq, Thrown,
  primitive, object, ErrorFields, if◌then◌else◌,
}

pub data ErrorClass : Type 0 where
  validation transient permanent : ErrorClass

abbrev pub transient_pg_codes : List String
transient_pg_codes =
    "08000" ∷ "08003" ∷ "08006" ∷ "08001" ∷ "08004" ∷ "57P03" ∷ "53300" ∷ "40001" ∷ "40P01" ∷ []

abbrev pub transient_node_codes : List String
transient_node_codes =
    "ECONNREFUSED" ∷ "ECONNRESET" ∷ "ETIMEDOUT" ∷ "ENOTFOUND" ∷ "EPIPE" ∷ "ENETUNREACH"
    ∷ "EAI_AGAIN" ∷ []

-- `code && codes.has(code)`; the empty string is in neither set.
unfoldable pub has : List String → Option String → Bool
has codes none = false
has codes (some c) = any (str_eq c) codes

abbrev pub is_code : String → Option String → Bool
is_code c none = false
is_code c (some d) = str_eq d c

unfoldable pub classify_error : Thrown → ErrorClass
classify_error (primitive s) = permanent
classify_error (object e) =
    if e.is_validation
    then validation
    else if e.is_error
    then (if has transient_pg_codes e.code
        then transient
        else if has transient_pg_codes e.driver_code
        then transient
        else if has transient_node_codes e.code
        then transient
        else if str_eq e.constructor_name "QueryFailedError"
        then (if is_code "23505" e.code
            then permanent
            else if is_code "23503" e.code
            then permanent
            else if is_code "23502" e.code
            then permanent
            else permanent)
        else permanent)
    else permanent
