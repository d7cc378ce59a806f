-- ===== src/Contracts/Typed/Metadata.antt =====
-- What the schema of the metadata accepts, and what it gives.
use contract_driven_messagin.Common.{
  suc, ◌≤◌, ◌≡◌, refl, ap, sym, ◌∙◌, inl, inr, String, Option, none, some, List, [], ◌∷◌, length,
  leb, leb→le, le→leb, Bool-cases, subst, none-ne-some, arith,
}
use contract_driven_messagin.Contracts.Value.{
  Value, undefined, null, boolean, number, text, buffer, array, object, Fields, end, field,
}
use contract_driven_messagin.Contracts.Zod.{
  bounded, default_of, Zod, IsDocumented, accepted, count_fields, parse_entries, if_key, on_entries,
  first_field, object_of,
}
use contract_driven_messagin.Contracts.Schemas.{message_metadata_schema}
use contract_driven_messagin.Contracts.Objects.{metadata_fields}
use contract_driven_messagin.Contracts.Typed.Collections.{unless_undefined-cases}
use contract_driven_messagin.Contracts.Typed.Leaves.{IsWithin, bounded_gives, bounded_accepts}

first_field-eq-some :
    (k : String) (a : Option Value) (b : Option Fields) {gs : Fields}
    → first_field k a b ≡ some gs
    → (u : Value) × (us : Fields) × (a ≡ some u) × (b ≡ some us) × (gs ≡ field k u us)
first_field-eq-some k none b h = absurd (none-ne-some h)
first_field-eq-some k (some u) none h = absurd (none-ne-some h)
first_field-eq-some k (some u) (some us) h = (u, us, refl, refl, cc)

if_key-eq-some :
    (a : Option Value) (r : Option Fields) {gs : Fields}
    → if_key a r ≡ some gs
    → (u : Value) × (a ≡ some u) × (r ≡ some gs)
if_key-eq-some none r h = absurd (none-ne-some h)
if_key-eq-some (some u) r h = (u, refl, h)

-- The limits of metadata: 20 entries, keys of 1 to 256 and values of at most 256 code units.
abbrev pub AreEntries : List (String × String) → Type 0
AreEntries [] = Unit
AreEntries ((k, s) ∷ m) = IsWithin 1 (some 256) k × IsWithin 0 (some 256) s × AreEntries m

abbrev pub IsWithinLimits : List (String × String) → Type 0
IsWithinLimits m = (length m ≤ 20) × AreEntries m

count_fields-metadata_fields :
    (m : List (String × String)) → count_fields (metadata_fields m) ≡ length m
unfolding count_fields
count_fields-metadata_fields [] = refl
count_fields-metadata_fields ((k, s) ∷ m) = ap suc (count_fields-metadata_fields m)

module _ (zod : Zod) (documented : IsDocumented zod) where
  open documented use {dictionary_law, default_law}

  entries_give :
      (fs gs : Fields)
      → parse_entries (accepted zod) (bounded 1 (some 256)) (bounded 0 (some 256)) fs ≡ some gs
      → (m : List (String × String)) × (gs ≡ metadata_fields m)
        × (count_fields fs ≡ length m)
        × AreEntries m
  unfolding parse_entries count_fields
  entries_give end gs h = ([], ground arith, refl, tt)
  entries_give (field k v fs) gs h =
      let (kw, e, r) = if_key-eq-some _ _ h in
      let (u, us, a, b, q) = first_field-eq-some k _ _ r in
      let (key, x, _, kb) = bounded_gives zod documented 1 (some 256) (text k) kw e in
      let (s, _, y, sb) = bounded_gives zod documented 0 (some 256) v u a in
      let (m, z, n, rest) = entries_give fs us b in
      let same : k ≡ key = cc in
      (
        (k, s) ∷ m,
        rw (q, y, z) refl,
        ap suc n,
        (subst (IsWithin 1 (some 256)) (sym same) kb, sb, rest),
      )

  entries_accept :
      (m : List (String × String))
      → AreEntries m
      → parse_entries
          (accepted zod)
          (bounded 1 (some 256))
          (bounded 0 (some 256))
          (metadata_fields m)
        ≡ some (metadata_fields m)
  unfolding parse_entries
  entries_accept [] h = refl
  entries_accept ((k, s) ∷ m) (kb, sb, rest) =
      rw
        (
          bounded_accepts zod documented 1 (some 256) k kb,
          bounded_accepts zod documented 0 (some 256) s sb,
          entries_accept m rest,
        )
        refl

  pub metadata_gives :
      (v w : Value)
      → accepted zod (default_of message_metadata_schema (object end)) v ≡ some w
      → (m : List (String × String)) × (w ≡ object (metadata_fields m)) × IsWithinLimits m
  metadata_gives v w h =
      let q = sym (default_law message_metadata_schema (object end) v) ∙ h in
      elim (unless_undefined-cases (object end) v (accepted zod message_metadata_schema v)) [
        | inl e ↦ ([], ground (arith, e), (omega arith, tt))
        | inr e ↦ by_value v (sym (dictionary_law _ _ 20 v) ∙ sym e ∙ q)
      ]
    where
      by_fields :
          (fs : Fields) (o : Option Fields)
          → parse_entries (accepted zod) (bounded 1 (some 256)) (bounded 0 (some 256)) fs ≡ o
          → count_fields fs ≤ 20
          → object_of o ≡ some w
          → (m : List (String × String)) × (w ≡ object (metadata_fields m)) × IsWithinLimits m
      by_fields fs none e n q = absurd (none-ne-some q)
      by_fields fs (some gs) e n q =
          let (m, y, l, ok) = entries_give fs gs e in (m, ground (arith, y), (omega arith, ok))

      by_value :
          (x : Value)
          → on_entries 20
              (parse_entries (accepted zod) (bounded 1 (some 256)) (bounded 0 (some 256)))
              x
            ≡ some w
          → (m : List (String × String)) × (w ≡ object (metadata_fields m)) × IsWithinLimits m
      by_value undefined q = absurd (none-ne-some q)
      by_value null q = absurd (none-ne-some q)
      by_value (boolean b) q = absurd (none-ne-some q)
      by_value (number n) q = absurd (none-ne-some q)
      by_value (text s) q = absurd (none-ne-some q)
      by_value (buffer s) q = absurd (none-ne-some q)
      by_value (array vs) q = absurd (none-ne-some q)
      by_value (object fs) q = elim (Bool-cases (leb (count_fields fs) 20)) [
        | inl e ↦ by_fields fs _ refl (leb→le _ _ e) (rw e at q)
        | inr e ↦ absurd (none-ne-some (rw e at q))
      ]

  pub metadata_accepts :
      (m : List (String × String))
      → IsWithinLimits m
      → accepted zod (default_of message_metadata_schema (object end)) (object (metadata_fields m))
        ≡ some (object (metadata_fields m))
  metadata_accepts m (n, ok) =
      default_law _ _ (object (metadata_fields m))
      ∙ dictionary_law _ _ 20 (object (metadata_fields m))
      ∙ rw (count_fields-metadata_fields m, le→leb _ _ n, entries_accept m ok) refl
