-- ===== src/Contracts/SchemaVersion/Suffix.antt =====
-- The `.vN` suffix of an event type.
use Prim.Native.Char.{Char, code}
use contract_driven_messagin.Common.{
  String, ◌≡◌, refl, Bool, true, false, ◌&&◌, none, some, arith, ◌==◌,
}
use contract_driven_messagin.Contracts.Value.{text}
use contract_driven_messagin.Contracts.SchemaVersion.{
  v1, v2, version_digits, all_digits, is_digits, match_version_suffix, extract_from_type_suffix,
  coerce_to_schema_version, trim, trim_start, trim_end, is_digit,
}

-- `prefix + suffix`.
unfoldable pub append : String → String → String
append String.[] t = t
append (String.◌∷◌ c s) t = String.◌∷◌ c (append s t)

and_false : (b : Bool) → (b && false) ≡ false
and_false true = refl
and_false false = refl

module _ (suffix : String) (not_digits : all_digits suffix ≡ false) where
  all_digits-append : (s : String) → all_digits (append s suffix) ≡ false
  unfolding append all_digits
  all_digits-append String.[] = not_digits
  all_digits-append (String.◌∷◌ c s) = rw (all_digits-append s) (and_false (is_digit c))

  is_digits-false : (s : String) → all_digits s ≡ false → is_digits s ≡ false
  unfolding all_digits
  is_digits-false String.[] h = refl
  is_digits-false (String.◌∷◌ c s) h = h

  version_digits-append :
      (c d : Char) (s : String)
      → version_digits (String.◌∷◌ c (String.◌∷◌ d (append s suffix))) ≡ none
  unfolding all_digits
  version_digits-append c d s =
      rw (is_digits-false (append s suffix) (all_digits-append s))
        (ground (arith, and_false (code d == b'v'), and_false (code c == b'.')))

  module _ (found : String) (here : match_version_suffix suffix ≡ some found)
      (later : (c : Char) → version_digits (String.◌∷◌ c suffix) ≡ none) where
    match_version_suffix-append : (s : String) → match_version_suffix (append s suffix) ≡ some found
    unfolding append match_version_suffix
    match_version_suffix-append String.[] = here
    match_version_suffix-append (String.◌∷◌ c String.[]) = rw (match_version_suffix, later c) here
    match_version_suffix-append (String.◌∷◌ c (String.◌∷◌ d s)) =
        rw (match_version_suffix, version_digits-append c d s)
          (match_version_suffix-append (String.◌∷◌ d s))

-- Whatever text stands before it, an event type that ends in `.v2` names version 2, and one that
-- ends in `.v1` names version 1.
extract_from_type_suffix-append :
    (s : String)
    → (extract_from_type_suffix (text (append s ".v2")) ≡ some v2)
      × (extract_from_type_suffix (text (append s ".v1")) ≡ some v1)
unfolding append extract_from_type_suffix match_version_suffix all_digits coerce_to_schema_version
    trim trim_start trim_end
extract_from_type_suffix-append s = (
  rw (match_version_suffix-append ".v2" refl "2" refl (λ c. ground arith) s) refl,
  rw (match_version_suffix-append ".v1" refl "1" refl (λ c. ground arith) s) refl,
)
