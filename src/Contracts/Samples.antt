-- ===== src/Contracts/Samples.antt =====
-- A parser that keeps to the documentation of zod.
use mathlib.Core.Path.{ap₂, fun_ext}
use contract_driven_messagin.Common.{
  ◌≡◌, refl, sym, ap, ◌∙◌, String, ◌&&◌, Option, none, some, [], str_eq, leb,
}
use contract_driven_messagin.Contracts.Value.{
  Value, undefined, text, Items, nil, cons, Fields, end, field, find_field, get_field,
}
use contract_driven_messagin.Contracts.Events.{Parsed, success, failure}
use contract_driven_messagin.Contracts.Zod.{
  Schema, uuid, iso_datetime, bounded, enumeration, literal, at_least, dictionary, optional,
  default_of, record_of, Shape, no_keys, key, Zod, IsDocumented, accepted, parsed_data, on_text,
  on_array, on_object, on_entries, within, includes, text_length, items_length, count_fields,
  unless_undefined, parse_items, parse_entries, parse_keys, next_key, first_item, first_field,
  if_key,
}

abbrev pub sample_uuid : String
sample_uuid = "7d9f1f0e-52a1-4c6e-9c39-2f0f5f4f8a11"

abbrev pub sample_time : String
sample_time = "2026-01-01T00:00:00Z"

unfoldable pub run_entries :
    (Value → Option Value) → (Value → Option Value) → Fields → Option Fields
run_entries k s end = some end
run_entries k s (field j v fs) = if_key (k (text j)) (first_field j (s v) (run_entries k s fs))

unfoldable mutual
  unfolding parse_items run_entries text_length items_length count_fields find_field get_field

  pub run : Schema → Value → Option Value
  run uuid v = on_text (λ s. str_eq s sample_uuid) v
  run iso_datetime v = on_text (λ s. str_eq s sample_time) v
  run (bounded a b) v = on_text (λ s. leb a (text_length s) && within b (text_length s)) v
  run (enumeration names) v = on_text (includes names) v
  run (literal t) v = on_text (λ s. str_eq t s) v
  run (at_least s n) v = on_array n (parse_items (λ _ u. run s u) s) v
  run (dictionary k s n) v = on_entries n (run_entries (run k) (run s)) v
  run (optional s) v = unless_undefined undefined v (run s v)
  run (default_of s d) v = unless_undefined d v (run s v)
  run (record_of shape) v = on_object (run_keys shape) v

  pub run_keys : Shape → Fields → Option Fields
  run_keys no_keys fs = some end
  run_keys (key k s shape) fs =
      next_key (find_field k fs) k (run s (get_field k fs)) (run_keys shape fs)

abbrev pub as_parsed : Option Value → Parsed Value
as_parsed none = failure []
as_parsed (some v) = success v

abbrev pub sample_zod : Zod
sample_zod = record {
  safe_parse = λ s v. as_parsed (run s v);
  is_uuid = λ s. str_eq s sample_uuid;
  is_iso_datetime = λ s. str_eq s sample_time;
}

parsed_data-as_parsed : (o : Option Value) → parsed_data (as_parsed o) ≡ o
parsed_data-as_parsed none = refl
parsed_data-as_parsed (some v) = refl

data_of : (s : Schema) (v : Value) → accepted sample_zod s v ≡ run s v
data_of s v = parsed_data-as_parsed (run s v)

items_agree :
    (s : Schema) (vs : Items)
    → parse_items (λ _ u. run s u) s vs ≡ parse_items (accepted sample_zod) s vs
unfolding parse_items
items_agree s nil = refl
items_agree s (cons v vs) = ap₂ first_item (sym (data_of s v)) (items_agree s vs)

entries_agree :
    (k s : Schema) (fs : Fields)
    → run_entries (run k) (run s) fs ≡ parse_entries (accepted sample_zod) k s fs
unfolding run_entries parse_entries
entries_agree k s end = refl
entries_agree k s (field j v fs) =
    ap₂ if_key (sym (data_of k (text j)))
      (ap₂ (first_field j) (sym (data_of s v)) (entries_agree k s fs))

keys_agree :
    (shape : Shape) (fs : Fields) → run_keys shape fs ≡ parse_keys (accepted sample_zod) shape fs
unfolding run_keys parse_keys
keys_agree no_keys fs = refl
keys_agree (key k s shape) fs =
    ap₂ (next_key (find_field k fs) k) (sym (data_of s (get_field k fs))) (keys_agree shape fs)

pub sample_zod-IsDocumented : IsDocumented sample_zod
unfolding run
sample_zod-IsDocumented = record {
  uuid_law = λ v. data_of uuid v;
  iso_datetime_law = λ v. data_of iso_datetime v;
  bounded_law = λ a b v. data_of (bounded a b) v;
  enumeration_law = λ names v. data_of (enumeration names) v;
  literal_law = λ t v. data_of (literal t) v;
  at_least_law =
      λ s n v. data_of (at_least s n) v ∙ ap (λ f. on_array n f v) (fun_ext (items_agree s));
  dictionary_law = λ k s n v.
      data_of (dictionary k s n) v ∙ ap (λ f. on_entries n f v) (fun_ext (entries_agree k s));
  optional_law =
      λ s v. data_of (optional s) v ∙ ap (unless_undefined undefined v) (sym (data_of s v));
  default_law = λ s d v. data_of (default_of s d) v ∙ ap (unless_undefined d v) (sym (data_of s v));
  object_law =
      λ shape v. data_of (record_of shape) v ∙ ap (λ f. on_object f v) (fun_ext (keys_agree shape));
}
