-- ===== src/Contracts/Typed/Leaves.antt =====
-- What the schemas of single fields accept, and what they give.
use contract_driven_messagin.Common.{
  ℕ, ◌≤◌, ◌≡◌, refl, ap, sym, ◌∙◌, inl, inr, String, Bool, true, ◌&&◌, Option, none, some, [], ◌∷◌,
  str_eq, eq_iff, leb, Bool-cases, none-ne-some, true-ne-false, arith,
}
use contract_driven_messagin.Contracts.Value.{
  Value, undefined, null, boolean, number, text, buffer, array, object,
}
use contract_driven_messagin.Contracts.SchemaVersion.{SchemaVersion, v1, v2}
use contract_driven_messagin.Contracts.Events.{
  ServiceId, gateway, messaging, MessagePriority, low, normal, high,
}
use contract_driven_messagin.Contracts.Zod.{
  uuid, iso_datetime, bounded, Zod, IsDocumented, accepted, on_text, within, includes, text_length,
}
use contract_driven_messagin.Contracts.Schemas.{service_id_schema}
use contract_driven_messagin.Contracts.Objects.{service_name, version_name, priority_name}

abbrev pub IsWithin : ℕ → Option ℕ → String → Type 0
IsWithin a none s = a ≤ text_length s
IsWithin a (some b) s = (a ≤ text_length s) × (text_length s ≤ b)

abbrev pub IsWithinIfAny : ℕ → Option ℕ → Option String → Type 0
IsWithinIfAny a b none = Unit
IsWithinIfAny a b (some s) = IsWithin a b s

IsWithin-of :
    (a : ℕ) (b : Option ℕ) (s : String)
    → (leb a (text_length s) && within b (text_length s)) ≡ true
    → IsWithin a b s
IsWithin-of a none s h = ground arith
IsWithin-of a (some b) s h = ground arith

of-IsWithin :
    (a : ℕ) (b : Option ℕ) (s : String)
    → IsWithin a b s
    → (leb a (text_length s) && within b (text_length s)) ≡ true
of-IsWithin a none s h = ground arith
of-IsWithin a (some b) s h = ground arith

pub on_text-eq-some :
    (p : String → Bool) (v : Value) {w : Value}
    → on_text p v ≡ some w
    → (s : String) × (v ≡ text s) × (w ≡ text s) × (p s ≡ true)
on_text-eq-some p (text s) h = elim (Bool-cases (p s)) [
  | inl e ↦ (s, refl, ground arith, e)
  | inr e ↦ absurd (none-ne-some (rw e at h))
]
on_text-eq-some p undefined h = absurd (none-ne-some h)
on_text-eq-some p null h = absurd (none-ne-some h)
on_text-eq-some p (boolean b) h = absurd (none-ne-some h)
on_text-eq-some p (number n) h = absurd (none-ne-some h)
on_text-eq-some p (buffer s) h = absurd (none-ne-some h)
on_text-eq-some p (array vs) h = absurd (none-ne-some h)
on_text-eq-some p (object fs) h = absurd (none-ne-some h)

service_named_includes :
    (s : String)
    → includes ("gateway" ∷ "messaging" ∷ []) s ≡ true
    → (x : ServiceId) × (s ≡ service_name x)
service_named_includes s h = elim (Bool-cases (str_eq "gateway" s)) [
  | inl e ↦ (gateway, sym ((eq_iff "gateway" s).0 e))
  | inr e ↦ elim (Bool-cases (str_eq "messaging" s)) [
    | inl f ↦ (messaging, sym ((eq_iff "messaging" s).0 f))
    | inr f ↦ absurd (true-ne-false h (rw (e, f) refl))
  ]
]

pub version_named_includes :
    (s : String) → includes ("1" ∷ "2" ∷ []) s ≡ true → (x : SchemaVersion) × (s ≡ version_name x)
version_named_includes s h = elim (Bool-cases (str_eq "1" s)) [
  | inl e ↦ (v1, sym ((eq_iff "1" s).0 e))
  | inr e ↦ elim (Bool-cases (str_eq "2" s)) [
    | inl f ↦ (v2, sym ((eq_iff "2" s).0 f))
    | inr f ↦ absurd (true-ne-false h (rw (e, f) refl))
  ]
]

pub priority_named_includes :
    (s : String)
    → includes ("low" ∷ "normal" ∷ "high" ∷ []) s ≡ true
    → (x : MessagePriority) × (s ≡ priority_name x)
priority_named_includes s h = elim (Bool-cases (str_eq "low" s)) [
  | inl e ↦ (low, sym ((eq_iff "low" s).0 e))
  | inr e ↦ elim (Bool-cases (str_eq "normal" s)) [
    | inl f ↦ (normal, sym ((eq_iff "normal" s).0 f))
    | inr f ↦ elim (Bool-cases (str_eq "high" s)) [
      | inl g ↦ (high, sym ((eq_iff "high" s).0 g))
      | inr g ↦ absurd (true-ne-false h (rw (e, f, g) refl))
    ]
  ]
]

module _ (zod : Zod) (documented : IsDocumented zod) where
  open documented use {
    uuid_law, iso_datetime_law, bounded_law, enumeration_law, literal_law, at_least_law,
    dictionary_law, optional_law, default_law,
  }

  pub uuid_gives :
      (v w : Value)
      → accepted zod uuid v ≡ some w
      → (s : String) × (w ≡ text s) × (zod.is_uuid s ≡ true)
  uuid_gives v w h =
      let (s, _, e, t) = on_text-eq-some zod.is_uuid v (sym (uuid_law v) ∙ h) in (s, e, t)

  pub iso_datetime_gives :
      (v w : Value)
      → accepted zod iso_datetime v ≡ some w
      → (s : String) × (w ≡ text s) × (zod.is_iso_datetime s ≡ true)
  iso_datetime_gives v w h =
      let (s, _, e, t) = on_text-eq-some zod.is_iso_datetime v (sym (iso_datetime_law v) ∙ h) in
      (s, e, t)

  pub bounded_gives :
      (a : ℕ) (b : Option ℕ) (v w : Value)
      → accepted zod (bounded a b) v ≡ some w
      → (s : String) × (v ≡ text s) × (w ≡ text s) × IsWithin a b s
  bounded_gives a b v w h =
      let (s, x, e, t) = on_text-eq-some _ v (sym (bounded_law a b v) ∙ h) in
      (s, x, e, IsWithin-of a b s t)

  pub bounded_accepts :
      (a : ℕ) (b : Option ℕ) (s : String)
      → IsWithin a b s
      → accepted zod (bounded a b) (text s) ≡ some (text s)
  bounded_accepts a b s h = bounded_law a b (text s) ∙ rw (of-IsWithin a b s h) refl

  pub service_gives :
      (v w : Value)
      → accepted zod service_id_schema v ≡ some w
      → (x : ServiceId) × (w ≡ text (service_name x))
  service_gives v w h =
      let (s, _, e, t) = on_text-eq-some _ v (sym (enumeration_law _ v) ∙ h) in
      let (x, n) = service_named_includes s t in (x, e ∙ ap text n)

  pub service_accepts :
      (x : ServiceId)
      → accepted zod service_id_schema (text (service_name x)) ≡ some (text (service_name x))
  service_accepts gateway = enumeration_law _ _
  service_accepts messaging = enumeration_law _ _
