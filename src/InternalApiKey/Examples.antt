-- ===== src/InternalApiKey/Examples.antt =====
-- A request with the configured key, and requests without it.
use contract_driven_messagin.Common.{
  ℕ, ◌≡◌, ◌≢◌, ◌⊎◌, inl, inr, refl, ap, sym, ◌∙◌, String, Bool, true, false, none, some, List, [],
  ◌∷◌, str_eq, ◌==◌, ==_iff, if◌then◌else◌, Bool-cases,
}
use contract_driven_messagin.Contracts.Value.{text, end, field, get_field, Fields}
use contract_driven_messagin.InternalApiKey.{
  Node, IsDocumented, admitted, unauthorized, can_activate, check_provided, admit, safe_compare,
  differ, CarriesKey, IsExactly, can_activate-IsExactly,
}

abbrev same : List ℕ → List ℕ → Bool
same [] [] = true
same [] (y ∷ ys) = false
same (x ∷ xs) [] = false
same (x ∷ xs) (y ∷ ys) = let rest = same xs ys in if x == y then rest else false

same-cases : (a b : List ℕ) → ((same a b ≡ true) × (a ≡ b)) ⊎ ((same a b ≡ false) × (a ≢ b))
same-cases [] [] = inl (refl, refl)
same-cases [] (y ∷ ys) = inr (refl, λ e. cc)
same-cases (x ∷ xs) [] = inr (refl, λ e. cc)
same-cases (x ∷ xs) (y ∷ ys) = elim (Bool-cases (x == y)) [
  | inr e ↦ inr (rw e refl, λ q. differ (sym e ∙ (==_iff x y).1 cc))
  | inl e ↦ elim (same-cases xs ys) [
    | inl (s, q) ↦ inl (rw (e, s) refl, rw ((==_iff x y).0 e, q) refl)
    | inr (s, q) ↦ inr (rw (e, s) refl, λ r. q cc)
  ]
]

-- One byte per key is enough to tell these keys apart.
abbrev pub node : Node
node = record {
  buffer_from = λ s. if str_eq s "secret" then 1 ∷ 2 ∷ [] else 3 ∷ 4 ∷ [];
  timing_safe_equal = λ a b. some (same a b);
}

pub node-IsDocumented : IsDocumented node
unfolding IsDocumented
node-IsDocumented a b h = elim (same-cases a b) [
  | inl (s, q) ↦ inl (ap some s, q)
  | inr (s, q) ↦ inr (ap some s, q)
]

abbrev pub with_key : String → Fields
with_key key = field "host" (text "localhost") (field "x-internal-api-key" (text key) end)

admits_key : can_activate node (some "secret") (with_key "secret") ≡ admitted
unfolding can_activate check_provided admit safe_compare get_field
admits_key = refl

refuses_other_key :
    can_activate node (some "secret") (with_key "other")
    ≡ unauthorized "Invalid or missing internal API key"
unfolding can_activate check_provided admit safe_compare get_field
refuses_other_key = refl

refuses_without_key :
    can_activate node none (with_key "secret") ≡ unauthorized "Internal API key not configured"
unfolding can_activate
refuses_without_key = refl

can_activate-IsExactly_example :
    IsExactly
      (can_activate node (some "secret") (with_key "secret"))
      (CarriesKey node (some "secret") (with_key "secret"))
can_activate-IsExactly_example =
    can_activate-IsExactly node node-IsDocumented (some "secret") (with_key "secret")
