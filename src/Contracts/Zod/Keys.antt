-- ===== src/Contracts/Zod/Keys.antt =====
-- What an object schema reads of each key and what it gives for it.
use contract_driven_messagin.Common.{
  ◌≡◌, refl, ◌∙◌, subst, inl, inr, String, true, Option, none, some, str_eq, eq_iff, Bool-cases,
  none-ne-some, true-ne-false, if◌then◌else◌,
}
use contract_driven_messagin.Contracts.Value.{
  Value, undefined, null, boolean, number, text, buffer, array, object, Fields, end, find_field,
  get_field,
}
use contract_driven_messagin.Contracts.Zod.{
  Schema, Shape, no_keys, key, keep_field, next_key, parse_keys,
}

abbrev pub schema_at : String → Shape → Option Schema
schema_at k no_keys = none
schema_at k (key j s shape) = if str_eq j k then some s else schema_at k shape

abbrev pub IsDistinct : Shape → Type 0
IsDistinct no_keys = Unit
IsDistinct (key k s shape) = (schema_at k shape ≡ none) × IsDistinct shape

next_key-eq-some :
    (o : Option Value) (k : String) (a : Option Value) (b : Option Fields) {gs : Fields}
    → next_key o k a b ≡ some gs
    → (w : Value) × (hs : Fields) × (a ≡ some w) × (b ≡ some hs) × (gs ≡ keep_field o k w hs)
next_key-eq-some o k none b h = absurd (none-ne-some h)
next_key-eq-some o k (some w) none h = absurd (none-ne-some h)
next_key-eq-some o k (some w) (some hs) h = (w, hs, refl, refl, cc)

get_field-keep_field :
    (o : Option Value) (k j : String) (w : Value) (gs : Fields)
    → (str_eq k j ≡ true → get_field j gs ≡ undefined)
    → get_field j (keep_field o k w gs) ≡ (if str_eq k j then w else get_field j gs)
unfolding get_field
get_field-keep_field (some v) k j w gs h = refl
get_field-keep_field none k j undefined gs h = elim (Bool-cases (str_eq k j)) [
  | inl e ↦ rw e (h e)
  | inr e ↦ rw e refl
]
get_field-keep_field none k j null gs h = refl
get_field-keep_field none k j (boolean b) gs h = refl
get_field-keep_field none k j (number n) gs h = refl
get_field-keep_field none k j (text s) gs h = refl
get_field-keep_field none k j (buffer s) gs h = refl
get_field-keep_field none k j (array vs) gs h = refl
get_field-keep_field none k j (object fs) gs h = refl

module _ (parse : Schema → Value → Option Value) where
  abbrev pub Gives : Option Schema → Value → Value → Type 0
  Gives none v w = w ≡ undefined
  Gives (some s) v w = parse s v ≡ some w

  -- The output has for each key of the shape what its schema makes of the input, and no other key.
  pub parse_keys-Gives :
      (j : String) (shape : Shape) (fs gs : Fields)
      → IsDistinct shape
      → parse_keys parse shape fs ≡ some gs
      → Gives (schema_at j shape) (get_field j fs) (get_field j gs)
  unfolding parse_keys get_field
  parse_keys-Gives j no_keys fs gs d h = let q : end ≡ gs = cc in rw (← q) refl
  parse_keys-Gives j (key k s shape) fs gs d h =
      let (w, hs, pa, pb, e) =
        next_key-eq-some (find_field k fs) k (parse s (get_field k fs)) (parse_keys parse shape fs)
          h in
      let ih = parse_keys-Gives j shape fs hs d.1 pb in
      elim (Bool-cases (str_eq k j)) [
        | inl same ↦
            let q = (eq_iff k j).0 same in
            let absent : schema_at j shape ≡ none = rw (← q) d.0 in
            let undef : get_field j hs ≡ undefined =
              subst (λ o. Gives o (get_field j fs) (get_field j hs)) absent ih in
            let out : get_field j gs ≡ w =
              rw e (get_field-keep_field _ k j w hs (λ _. undef) ∙ rw same refl) in
            rw (same, out) (rw (← q) pa)
        | inr other ↦
            let out : get_field j gs ≡ get_field j hs = rw e (
              get_field-keep_field _ k j w hs (λ t. absurd (true-ne-false t other))
              ∙ rw other refl) in
            rw (other, out) ih
      ]

  abbrev pub AllGive : Shape → Fields → Type 0
  AllGive no_keys fs = Unit
  AllGive (key k s shape) fs =
      ((w : Value) × (parse s (get_field k fs) ≡ some w)) × AllGive shape fs

  pub parse_keys-total :
      (shape : Shape) (fs : Fields)
      → AllGive shape fs
      → (gs : Fields) × (parse_keys parse shape fs ≡ some gs)
  unfolding parse_keys
  parse_keys-total no_keys fs h = (end, refl)
  parse_keys-total (key k s shape) fs ((w, e), rest) =
      let (gs, q) = parse_keys-total shape fs rest in
      (keep_field (find_field k fs) k w gs, rw (e, q) refl)
