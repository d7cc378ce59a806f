-- ===== src/Idempotency/Codes.antt =====
-- The two ways in which the code recognises a unique violation.
use contract_driven_messagin.Common.{
  ◌≡◌, refl, String, true, Option, none, some, Thrown, primitive, object, arith, str_eq,
  if◌then◌else◌,
}
use contract_driven_messagin.ErrorClassifier.{is_code}
use contract_driven_messagin.OutboxTransaction.{is_unique_violation}
use contract_driven_messagin.Idempotency.{own_or, extract_pg_code}

abbrev pub DoAgree : Option String → Option String → Type 0
DoAgree none d = Unit
DoAgree (some c) d = is_code "23505" d ≡ true → str_eq c "23505" ≡ true

-- The error has no code of its own that differs from its driver's.
abbrev pub IsConsistent : Thrown → Type 0
IsConsistent (primitive s) = Unit
IsConsistent (object e) = DoAgree e.code e.driver_code

-- `extractPgCode` and `isUniqueViolation` agree on an error unless its own code is another string
-- while its driver's code is that of a unique violation.
pub is_unique_violation-extract_pg_code :
    (e : Thrown) → IsConsistent e → is_unique_violation e ≡ is_code "23505" (extract_pg_code e)
unfolding is_unique_violation extract_pg_code
is_unique_violation-extract_pg_code (primitive s) h = refl
is_unique_violation-extract_pg_code (object e) h = by_code e.code e.driver_code h
  where
    by_code :
        (c d : Option String)
        → DoAgree c d
        → (if is_code "23505" c then true else is_code "23505" d) ≡ is_code "23505" (own_or c d)
    by_code none d h = refl
    by_code (some c) d h = ground (arith, h)
