-- ===== src/Contracts/Zod.antt =====
-- The combinators of the library zod that libs/contracts/src/events/envelope.schema.ts,
-- v1/create-message.event.ts and v2/create-message.event.ts use, as data, and what its documentation
-- says of `safeParse`. The library is an argument.
pub mod Keys
use Prim.Native.Char.{code}
use contract_driven_messagin.Common.{
  ℕ, suc, ◌+◌, ◌≡◌, String, Bool, true, false, ◌&&◌, Option, none, some, List, [], ◌∷◌, str_eq, leb,
  ltb, if◌then◌else◌,
}
use contract_driven_messagin.Contracts.Value.{
  Value, undefined, text, array, object, Items, nil, cons, Fields, end, field, find_field,
  get_field,
}
use contract_driven_messagin.Contracts.Events.{Parsed, success, failure}

mutual
  -- `bounded a b` is `z.string().min(a).max(b)`, without `max` where `b` is `none`; `at_least s n` is
  -- `z.array(s).min(n)`; `dictionary k v n` is `z.record(k, v)` with the refinement that there are at
  -- most `n` entries.
  pub data Schema : Type 0 where
    uuid iso_datetime : Schema
    bounded : ℕ → Option ℕ → Schema
    enumeration : List String → Schema
    literal : String → Schema
    at_least : Schema → ℕ → Schema
    dictionary : Schema → Schema → ℕ → Schema
    optional : Schema → Schema
    default_of : Schema → Value → Schema
    record_of : Shape → Schema

  pub data Shape : Type 0 where
    no_keys : Shape
    key : String → Schema → Shape → Shape

-- `{ ...shape, [k]: s }`.
abbrev pub set_key : String → Schema → Shape → Shape
set_key k s no_keys = key k s no_keys
set_key k s (key j t shape) = if str_eq j k then key j s shape else key j t (set_key k s shape)

-- `z.object(shape).extend(extension)` is `z.object({ ...shape, ...extension })`.
abbrev pub extend : Shape → Shape → Shape
extend shape no_keys = shape
extend shape (key k s extension) = extend (set_key k s shape) extension

-- `s.length`, in UTF-16 code units.
unfoldable pub text_length : String → ℕ
text_length String.[] = 0
text_length (String.◌∷◌ c s) = text_length s + (if ltb (code c) 65536 then 1 else 2)

unfoldable pub items_length : Items → ℕ
items_length nil = 0
items_length (cons v vs) = suc (items_length vs)

unfoldable pub count_fields : Fields → ℕ
count_fields end = 0
count_fields (field k v fs) = suc (count_fields fs)

abbrev pub within : Option ℕ → ℕ → Bool
within none n = true
within (some m) n = leb n m

abbrev pub includes : List String → String → Bool
includes [] s = false
includes (t ∷ ts) s = if str_eq t s then true else includes ts s

abbrev pub on_text : (String → Bool) → Value → Option Value
on_text p (text s) = if p s then some (text s) else none
on_text p _ = none

abbrev pub first_item : Option Value → Option Items → Option Items
first_item (some w) (some ws) = some (cons w ws)
first_item _ _ = none

abbrev pub first_field : String → Option Value → Option Fields → Option Fields
first_field k (some w) (some gs) = some (field k w gs)
first_field k _ _ = none

-- A key that its schema refuses makes the whole fail.
abbrev pub if_key : Option Value → Option Fields → Option Fields
if_key none gs = none
if_key (some w) gs = gs

-- A key that the input lacks is missing in the output too, if its value is `undefined`.
abbrev pub keep_field : Option Value → String → Value → Fields → Fields
keep_field none k undefined gs = gs
keep_field v k w gs = field k w gs

abbrev pub next_key : Option Value → String → Option Value → Option Fields → Option Fields
next_key v k (some w) (some gs) = some (keep_field v k w gs)
next_key v k _ _ = none

module _ (parse : Schema → Value → Option Value) where
  unfoldable pub parse_items : Schema → Items → Option Items
  parse_items s nil = some nil
  parse_items s (cons v vs) = first_item (parse s v) (parse_items s vs)

  unfoldable pub parse_entries : Schema → Schema → Fields → Option Fields
  parse_entries ks vs end = some end
  parse_entries ks vs (field k v fs) =
      if_key (parse ks (text k)) (first_field k (parse vs v) (parse_entries ks vs fs))

  -- The keys of the shape in its order; other keys of the input are dropped.
  unfoldable pub parse_keys : Shape → Fields → Option Fields
  parse_keys no_keys fs = some end
  parse_keys (key k s shape) fs =
      next_key (find_field k fs) k (parse s (get_field k fs)) (parse_keys shape fs)

abbrev pub array_of : Option Items → Option Value
array_of none = none
array_of (some vs) = some (array vs)

abbrev pub object_of : Option Fields → Option Value
object_of none = none
object_of (some fs) = some (object fs)

abbrev pub on_array : ℕ → (Items → Option Items) → Value → Option Value
on_array n f (array vs) = if leb n (items_length vs) then array_of (f vs) else none
on_array n f _ = none

abbrev pub on_object : (Fields → Option Fields) → Value → Option Value
on_object f (object fs) = object_of (f fs)
on_object f _ = none

abbrev pub on_entries : ℕ → (Fields → Option Fields) → Value → Option Value
on_entries n f (object fs) = if leb (count_fields fs) n then object_of (f fs) else none
on_entries n f _ = none

abbrev pub unless_undefined : Value → Value → Option Value → Option Value
unless_undefined d undefined parsed = some d
unless_undefined d _ parsed = parsed

-- `result.data`, if there is one.
abbrev pub parsed_data : {A : Type 0} → Parsed A → Option A
parsed_data (success a) = some a
parsed_data (failure issues) = none

-- `safeParse`, and the formats that `z.uuid()` and `z.iso.datetime()` accept.
pub record Zod : Type 0 where
  pub safe_parse : Schema → Value → Parsed Value
  pub is_uuid : String → Bool
  pub is_iso_datetime : String → Bool

abbrev pub accepted : Zod → Schema → Value → Option Value
accepted zod s v = parsed_data (zod.safe_parse s v)

-- What the documentation says of each combinator, the issues left out.
pub record IsDocumented (zod : Zod) : Type 0 where
  pub uuid_law : (v : Value) → accepted zod uuid v ≡ on_text zod.is_uuid v
  pub iso_datetime_law : (v : Value) → accepted zod iso_datetime v ≡ on_text zod.is_iso_datetime v
  pub bounded_law :
      (a : ℕ) (b : Option ℕ) (v : Value)
      → accepted zod (bounded a b) v
        ≡ on_text (λ s. leb a (text_length s) && within b (text_length s)) v
  pub enumeration_law :
      (names : List String) (v : Value)
      → accepted zod (enumeration names) v ≡ on_text (includes names) v
  pub literal_law :
      (t : String) (v : Value) → accepted zod (literal t) v ≡ on_text (λ s. str_eq t s) v
  pub at_least_law :
      (s : Schema) (n : ℕ) (v : Value)
      → accepted zod (at_least s n) v ≡ on_array n (parse_items (accepted zod) s) v
  pub dictionary_law :
      (k s : Schema) (n : ℕ) (v : Value)
      → accepted zod (dictionary k s n) v ≡ on_entries n (parse_entries (accepted zod) k s) v
  pub optional_law :
      (s : Schema) (v : Value)
      → accepted zod (optional s) v ≡ unless_undefined undefined v (accepted zod s v)
  pub default_law :
      (s : Schema) (d v : Value)
      → accepted zod (default_of s d) v ≡ unless_undefined d v (accepted zod s v)
  pub object_law :
      (shape : Shape) (v : Value)
      → accepted zod (record_of shape) v ≡ on_object (parse_keys (accepted zod) shape) v
