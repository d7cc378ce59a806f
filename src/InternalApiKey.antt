-- ===== src/InternalApiKey.antt =====
-- libs/common/src/security/internal-api-key.guard.ts: the guard in front of the operators' routes.
use contract_driven_messagin.Common.{
  ℕ, ◌≡◌, ◌≢◌, ◌↔◌, ◌⊎◌, inl, inr, refl, ap, sym, ◌∙◌, String, Bool, true, false, Option, none,
  some, List, str_eq, length, ◌==◌, ==_iff, ==_refl, if◌then◌else◌, Bool-cases, arith,
}
use contract_driven_messagin.Contracts.Value.{
  Value, undefined, null, boolean, number, text, buffer, array, object, Fields, get_field,
}
pub mod Examples

-- What the guard uses of Node: `Buffer.from`, and `timingSafeEqual`, which is `none` where it
-- throws a RangeError.
pub record Node : Type 0 where
  buffer_from : String → List ℕ
  timing_safe_equal : List ℕ → List ℕ → Option Bool

-- `timingSafeEqual` compares buffers of one length, byte by byte.
pub IsDocumented : Node → Type 0
IsDocumented node =
    (a b : List ℕ)
    → length a ≡ length b
    → ((node.timing_safe_equal a b ≡ some true) × (a ≡ b))
      ⊎ ((node.timing_safe_equal a b ≡ some false) × (a ≢ b))

pub data Admission : Type 0 where
  admitted range_error : Admission
  unauthorized : String → Admission

unfoldable pub safe_compare : Node → String → String → Option Bool
safe_compare node provided expected =
    if length (node.buffer_from provided) == length (node.buffer_from expected)
    then node.timing_safe_equal (node.buffer_from provided) (node.buffer_from expected)
    else some false

unfoldable pub admit : Option Bool → Admission
admit none = range_error
admit (some true) = admitted
admit (some false) = unauthorized "Invalid or missing internal API key"

-- `typeof provided !== 'string' || !this.safeCompare(provided, expected)`
unfoldable pub check_provided : Node → String → Value → Admission
check_provided node expected (text provided) = admit (safe_compare node provided expected)
check_provided node expected undefined = admit (some false)
check_provided node expected null = admit (some false)
check_provided node expected (boolean b) = admit (some false)
check_provided node expected (number n) = admit (some false)
check_provided node expected (buffer b) = admit (some false)
check_provided node expected (array items) = admit (some false)
check_provided node expected (object fields) = admit (some false)

-- The second argument is `process.env.INTERNAL_API_KEY`, the third the request's headers.
unfoldable pub can_activate : Node → Option String → Fields → Admission
can_activate node none headers = unauthorized "Internal API key not configured"
can_activate node (some expected) headers =
    if str_eq expected ""
    then unauthorized "Internal API key not configured"
    else check_provided node expected (get_field "x-internal-api-key" headers)

-- The header is one string with the bytes of the key.
pub HasBytes : Node → String → Value → Type 0
HasBytes node expected (text provided) = node.buffer_from provided ≡ node.buffer_from expected
HasBytes node expected undefined = ⊥
HasBytes node expected null = ⊥
HasBytes node expected (boolean b) = ⊥
HasBytes node expected (number n) = ⊥
HasBytes node expected (buffer b) = ⊥
HasBytes node expected (array items) = ⊥
HasBytes node expected (object fields) = ⊥

-- A key is configured, it is not empty, and the request carries it.
pub CarriesKey : Node → Option String → Fields → Type 0
CarriesKey node none headers = ⊥
CarriesKey node (some expected) headers =
    (str_eq expected "" ≡ false) × HasBytes node expected (get_field "x-internal-api-key" headers)

abbrev pub IsExactly : Admission → Type 0 → Type 0
IsExactly a P = (a ≢ range_error) × ((a ≡ admitted) ↔ P)

pub differ {ℓ} : {A : Type ℓ} → false ≡ true → A
differ h = cc

module _ (node : Node) (documented : IsDocumented node) where
  refused : (m : String) (P : Type 0) → (P → ⊥) → IsExactly (unauthorized m) P
  refused m P none_of = (λ e. cc, (λ e. cc, λ q. absurd (none_of q)))

  compared :
      (expected provided : String)
      → IsExactly
          (admit (safe_compare node provided expected))
          (node.buffer_from provided ≡ node.buffer_from expected)
  unfolding admit safe_compare IsDocumented
  compared expected provided =
      elim (Bool-cases (length (node.buffer_from provided) == length (node.buffer_from expected))) [
        | inr e ↦
            rw e (λ h. cc, (λ h. cc, λ q. differ (sym e ∙ (==_iff _ _).1 (ap (λ x. length x) q))))
        | inl e ↦
            elim (documented (node.buffer_from provided) (node.buffer_from expected)
              ((==_iff _ _).0 e)) [
                | inl (t, q) ↦ rw (e, t) (λ h. cc, (λ h. q, λ h. refl))
                | inr (t, q) ↦ rw (e, t) (λ h. cc, (λ h. cc, λ h. absurd (q h)))
              ]
      ]

  checked :
      (expected : String) (v : Value)
      → IsExactly (check_provided node expected v) (HasBytes node expected v)
  unfolding check_provided HasBytes admit
  checked expected (text provided) = compared expected provided
  checked expected undefined = refused _ ⊥ (λ q. q)
  checked expected null = refused _ ⊥ (λ q. q)
  checked expected (boolean b) = refused _ ⊥ (λ q. q)
  checked expected (number n) = refused _ ⊥ (λ q. q)
  checked expected (buffer b) = refused _ ⊥ (λ q. q)
  checked expected (array items) = refused _ ⊥ (λ q. q)
  checked expected (object fields) = refused _ ⊥ (λ q. q)

  -- Where `timingSafeEqual` compares buffers of one length byte by byte, the guard admits a request
  -- if and only if a key is configured, the key is not empty, and the header is one string with the
  -- bytes of the key, and `timingSafeEqual` never throws in the guard.
  pub can_activate-IsExactly :
      (configured : Option String) (headers : Fields)
      → IsExactly (can_activate node configured headers) (CarriesKey node configured headers)
  unfolding can_activate CarriesKey
  can_activate-IsExactly none headers = refused _ ⊥ (λ q. q)
  can_activate-IsExactly (some expected) headers = elim (Bool-cases (str_eq expected "")) [
    | inl e ↦ rw e (refused _ _ (λ q. differ (sym q.0)))
    | inr e ↦
        let x = checked expected (get_field "x-internal-api-key" headers) in
        rw e (x.0, (λ h. (refl, x.1.0 h), λ q. x.1.1 q.1))
  ]
