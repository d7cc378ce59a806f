-- ===== src/ErrorClassifier/Outages.antt =====
-- Which thrown values are retried.
use contract_driven_messagin.Common.{
  ◌≡◌, refl, Bool, true, false, ◌&&◌, ◌||◌, not, Thrown, primitive, object, arith,
}
use contract_driven_messagin.ErrorClassifier.{
  ErrorClass, transient, classify_error, has, transient_pg_codes, transient_node_codes,
}

abbrev pub is_transient : ErrorClass → Bool
is_transient transient = true
is_transient _ = false

-- An outage: an `Error`, not a validation error, whose own code is a connection code of PostgreSQL
-- or of Node.js, or whose driver's code is one of PostgreSQL.
abbrev pub is_outage : Thrown → Bool
is_outage (primitive s) = false
is_outage (object e) =
    not e.is_validation
    && e.is_error
    && (has transient_pg_codes e.code
        || has transient_pg_codes e.driver_code
        || has transient_node_codes e.code)

pub classify_error-outage : (e : Thrown) → is_transient (classify_error e) ≡ is_outage e
unfolding classify_error
classify_error-outage (primitive s) = refl
classify_error-outage (object e) = ground arith
