-- ===== src/Contracts/Typed/Collections.antt =====
-- What the schemas of optional fields, of the priority and of the trace accept, and what they give.
use contract_driven_messagin.Common.{
  ℕ, suc, ◌≤◌, ◌≡◌, refl, ap, sym, ◌∙◌, ◌⊎◌, inl, inr, String, Option, none, some, List, [], ◌∷◌,
  length, leb, leb→le, le→leb, Bool-cases, none-ne-some, arith,
}
use contract_driven_messagin.Contracts.Value.{
  Value, undefined, null, boolean, number, text, buffer, array, object, Items, nil, cons,
}
use contract_driven_messagin.Contracts.SchemaVersion.{SchemaVersion, v1, v2}
use contract_driven_messagin.Contracts.Events.{ServiceId, MessagePriority, low, normal, high}
use contract_driven_messagin.Contracts.Zod.{
  bounded, at_least, optional, default_of, Zod, IsDocumented, accepted, items_length, parse_items,
  unless_undefined, on_array, first_item, array_of,
}
use contract_driven_messagin.Contracts.Schemas.{
  service_id_schema, schema_version_schema, message_priority_schema,
}
use contract_driven_messagin.Contracts.Objects.{
  priority_name, optional_text, optional_version, trace_items,
}
use contract_driven_messagin.Contracts.Typed.Leaves.{
  IsWithinIfAny, on_text-eq-some, version_named_includes, priority_named_includes, bounded_gives,
  bounded_accepts, service_gives, service_accepts,
}

pub unless_undefined-cases :
    (d v : Value) (o : Option Value)
    → (unless_undefined d v o ≡ some d) ⊎ (unless_undefined d v o ≡ o)
unless_undefined-cases d undefined o = inl refl
unless_undefined-cases d null o = inr refl
unless_undefined-cases d (boolean b) o = inr refl
unless_undefined-cases d (number n) o = inr refl
unless_undefined-cases d (text s) o = inr refl
unless_undefined-cases d (buffer s) o = inr refl
unless_undefined-cases d (array vs) o = inr refl
unless_undefined-cases d (object fs) o = inr refl

first_item-eq-some :
    (a : Option Value) (b : Option Items) {ws : Items}
    → first_item a b ≡ some ws
    → (u : Value) × (us : Items) × (a ≡ some u) × (b ≡ some us) × (ws ≡ cons u us)
first_item-eq-some none b h = absurd (none-ne-some h)
first_item-eq-some (some u) none h = absurd (none-ne-some h)
first_item-eq-some (some u) (some us) h = (u, us, refl, refl, cc)

items_length-trace_items : (ss : List ServiceId) → items_length (trace_items ss) ≡ length ss
unfolding items_length
items_length-trace_items [] = refl
items_length-trace_items (s ∷ ss) = ap suc (items_length-trace_items ss)

module _ (zod : Zod) (documented : IsDocumented zod) where
  open documented use {enumeration_law, at_least_law, dictionary_law, optional_law, default_law}

  pub recipient_gives :
      (a : ℕ) (b : Option ℕ) (v w : Value)
      → accepted zod (optional (bounded a b)) v ≡ some w
      → (o : Option String) × (w ≡ optional_text o) × IsWithinIfAny a b o
  recipient_gives a b v w h =
      let q = sym (optional_law (bounded a b) v) ∙ h in
      elim (unless_undefined-cases undefined v (accepted zod (bounded a b) v)) [
        | inl e ↦ (none, ground (arith, e), tt)
        | inr e ↦
            let (s, _, x, t) = bounded_gives zod documented a b v w (sym e ∙ q) in (some s, x, t)
      ]

  pub recipient_accepts :
      (a : ℕ) (b : Option ℕ) (o : Option String)
      → IsWithinIfAny a b o
      → accepted zod (optional (bounded a b)) (optional_text o) ≡ some (optional_text o)
  recipient_accepts a b none h = optional_law _ undefined
  recipient_accepts a b (some s) h =
      optional_law _ (text s) ∙ bounded_accepts zod documented a b s h

  pub version_gives :
      (v w : Value)
      → accepted zod (optional schema_version_schema) v ≡ some w
      → (o : Option SchemaVersion) × (w ≡ optional_version o)
  version_gives v w h =
      let q = sym (optional_law schema_version_schema v) ∙ h in
      elim (unless_undefined-cases undefined v (accepted zod schema_version_schema v)) [
        | inl e ↦ (none, ground (arith, e))
        | inr e ↦
            let (s, _, x, t) = on_text-eq-some _ v (sym (enumeration_law _ v) ∙ sym e ∙ q) in
            let (n, y) = version_named_includes s t in (some n, x ∙ ap text y)
      ]

  pub version_accepts :
      (o : Option SchemaVersion)
      → accepted zod (optional schema_version_schema) (optional_version o)
        ≡ some (optional_version o)
  version_accepts none = optional_law _ undefined
  version_accepts (some v1) = optional_law _ (text "1") ∙ enumeration_law _ (text "1")
  version_accepts (some v2) = optional_law _ (text "2") ∙ enumeration_law _ (text "2")

  pub priority_gives :
      (v w : Value)
      → accepted zod (default_of message_priority_schema (text "normal")) v ≡ some w
      → (p : MessagePriority) × (w ≡ text (priority_name p))
  priority_gives v w h =
      let q = sym (default_law message_priority_schema (text "normal") v) ∙ h in
      elim (unless_undefined-cases (text "normal") v (accepted zod message_priority_schema v)) [
        | inl e ↦ (normal, ground (arith, e))
        | inr e ↦
            let (s, _, x, t) = on_text-eq-some _ v (sym (enumeration_law _ v) ∙ sym e ∙ q) in
            let (n, y) = priority_named_includes s t in (n, x ∙ ap text y)
      ]

  pub priority_accepts :
      (p : MessagePriority)
      → accepted zod (default_of message_priority_schema (text "normal")) (text (priority_name p))
        ≡ some (text (priority_name p))
  priority_accepts low = default_law _ _ (text "low") ∙ enumeration_law _ (text "low")
  priority_accepts normal = default_law _ _ (text "normal") ∙ enumeration_law _ (text "normal")
  priority_accepts high = default_law _ _ (text "high") ∙ enumeration_law _ (text "high")

  items_give :
      (vs ws : Items)
      → parse_items (accepted zod) service_id_schema vs ≡ some ws
      → (ss : List ServiceId) × (ws ≡ trace_items ss) × (items_length vs ≡ length ss)
  unfolding parse_items items_length
  items_give nil ws h = ([], ground arith, refl)
  items_give (cons v vs) ws h =
      let (u, us, a, b, e) = first_item-eq-some _ _ h in
      let (s, x) = service_gives zod documented v u a in
      let (ss, y, n) = items_give vs us b in (s ∷ ss, rw (e, x, y) refl, ap suc n)

  items_accept :
      (ss : List ServiceId)
      → parse_items (accepted zod) service_id_schema (trace_items ss) ≡ some (trace_items ss)
  unfolding parse_items
  items_accept [] = refl
  items_accept (s ∷ ss) = rw (service_accepts zod documented s, items_accept ss) refl

  pub trace_gives :
      (v w : Value)
      → accepted zod (at_least service_id_schema 1) v ≡ some w
      → (ss : List ServiceId) × (w ≡ array (trace_items ss)) × (1 ≤ length ss)
  trace_gives v w h = by_value v (sym (at_least_law service_id_schema 1 v) ∙ h)
    where
      by_items :
          (vs : Items) (o : Option Items)
          → parse_items (accepted zod) service_id_schema vs ≡ o
          → 1 ≤ items_length vs
          → array_of o ≡ some w
          → (ss : List ServiceId) × (w ≡ array (trace_items ss)) × (1 ≤ length ss)
      by_items vs none e n q = absurd (none-ne-some q)
      by_items vs (some ws) e n q =
          let (ss, y, l) = items_give vs ws e in (ss, ground (arith, y), omega arith)

      by_value :
          (x : Value)
          → on_array 1 (parse_items (accepted zod) service_id_schema) x ≡ some w
          → (ss : List ServiceId) × (w ≡ array (trace_items ss)) × (1 ≤ length ss)
      by_value undefined q = absurd (none-ne-some q)
      by_value null q = absurd (none-ne-some q)
      by_value (boolean b) q = absurd (none-ne-some q)
      by_value (number n) q = absurd (none-ne-some q)
      by_value (text s) q = absurd (none-ne-some q)
      by_value (buffer s) q = absurd (none-ne-some q)
      by_value (object fs) q = absurd (none-ne-some q)
      by_value (array vs) q = elim (Bool-cases (leb 1 (items_length vs))) [
        | inl e ↦ by_items vs _ refl (leb→le _ _ e) (rw e at q)
        | inr e ↦ absurd (none-ne-some (rw e at q))
      ]

  pub trace_accepts :
      (ss : List ServiceId)
      → 1 ≤ length ss
      → accepted zod (at_least service_id_schema 1) (array (trace_items ss))
        ≡ some (array (trace_items ss))
  trace_accepts ss h =
      at_least_law service_id_schema 1 (array (trace_items ss))
      ∙ rw (items_length-trace_items ss, le→leb _ _ h, items_accept ss) refl
