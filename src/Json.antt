-- ===== src/Json.antt =====
-- The operations of nlohmann/json, and of the compiler, that the program uses, as a parameter.
-- `JsonApi` lists them, `JsonLaws` what the library documents of them.
pub mod Model
pub mod Facts
use nxos_dhcp6_exporter.Prelude.{
  ℕ, String, ◌≡◌, ◌≢◌, Bool, true, false, Option, none, some, List, [], ◌∷◌, ◌≤◌, ◌<◌, ◌^◌, length,
  lookup, is_some, if◌then◌else◌,
}
use nxos_dhcp6_exporter.Prelude.Int.{ℤ, pos_part, neg_part}
use nxos_dhcp6_exporter.Outcome.{
  Outcome, ok, raised, fault, missing_key, json_type_error, json_out_of_range, ◌>>=◌,
}

-- `json::value_t`
pub data ValueType : Type 0 where
  null object array string boolean number_integer number_unsigned number_float binary : ValueType

pub record JsonApi : Type 1 where
  pub Json : Type 0
  pub value_type : Json → ValueType  -- j.type()
  pub contains : Json → String → Bool  -- j.contains(key), j.find(key) != j.end()
  pub at_key : Json → String → Outcome Json  -- j.at(key)
  pub key_or_insert : Json → String → Outcome Json  -- j[key] of a j that is not const
  pub first_or_fill : Json → Outcome Json  -- j[0] of a j that is not const
  pub elements : Json → List Json  -- for (x : j), for an array j
  pub size : Json → ℕ  -- j.size()
  pub get_string : Json → Outcome String  -- j.get<string>()
  pub get_int : Json → Outcome ℤ  -- j.get<int>()
  pub get_array : Json → Outcome (List Json)  -- the elements of j.get<std::vector<T>>()
  pub null_value : Json
  pub string_value : String → Json
  pub int_value : ℤ → Json
  pub array_of : List Json → Json
  pub object_of : List (String × Json) → Json
  pub parse : String → Outcome Json  -- json::parse(text)
  -- `auto v{j}` and `json v{j}` at a json j: GCC makes an array of one element, Clang a copy.
  -- (GCC makes an object of an array of two whose first element is a string.)
  pub brace : Json → Json
  -- The text that a moved-from std::string holds: valid, and not specified.
  pub moved_from : String → String

-- The lookup of a key, with what a missing one gives.
abbrev pub found {ℓ} : {A : Type ℓ} → Option A → Outcome A
found none = raised json_out_of_range
found (some a) = ok a

abbrev pub FitsInt : ℤ → Type 0
FitsInt n = (pos_part n < 2 ^ 31) × (neg_part n ≤ 2 ^ 31)

-- What the library documents. The keys given to `object_of` are distinct in this program.
pub record JsonLaws (api : JsonApi) : Type 0 where
  pub type_null : api.value_type api.null_value ≡ ValueType.null
  pub type_string : (s : String) → api.value_type (api.string_value s) ≡ ValueType.string
  pub type_array : (l : List api.Json) → api.value_type (api.array_of l) ≡ ValueType.array
  pub type_object :
      (l : List (String × api.Json)) → api.value_type (api.object_of l) ≡ ValueType.object
  pub contains_object :
      (l : List (String × api.Json)) (k : String)
      → api.contains (api.object_of l) k ≡ is_some (lookup k l)
  pub contains_other :
      (j : api.Json) (k : String) → api.value_type j ≢ ValueType.object → api.contains j k ≡ false
  pub at_object :
      (l : List (String × api.Json)) (k : String)
      → api.at_key (api.object_of l) k ≡ found (lookup k l)
  pub at_other :
      (j : api.Json) (k : String)
      → api.value_type j ≢ ValueType.object
      → api.at_key j k ≡ raised json_type_error
  pub key_object :
      (l : List (String × api.Json)) (k : String) (v : api.Json)
      → lookup k l ≡ some v
      → api.key_or_insert (api.object_of l) k ≡ ok v
  pub first_array :
      (j : api.Json) (l : List api.Json) → api.first_or_fill (api.array_of (j ∷ l)) ≡ ok j
  pub first_other :
      (j : api.Json)
      → api.value_type j ≢ ValueType.array
      → api.value_type j ≢ ValueType.null
      → api.first_or_fill j ≡ raised json_type_error
  pub elements_array : (l : List api.Json) → api.elements (api.array_of l) ≡ l
  pub size_array : (l : List api.Json) → api.size (api.array_of l) ≡ length l
  pub size_object :
      (f : String × api.Json) (l : List (String × api.Json)) → api.size (api.object_of (f ∷ l)) ≢ 0
  pub string_string : (s : String) → api.get_string (api.string_value s) ≡ ok s
  pub string_other :
      (j : api.Json)
      → api.value_type j ≢ ValueType.string
      → api.get_string j ≡ raised json_type_error
  pub int_int : (n : ℤ) → FitsInt n → api.get_int (api.int_value n) ≡ ok n
  pub array_array : (l : List api.Json) → api.get_array (api.array_of l) ≡ ok l
  pub array_other :
      (j : api.Json) → api.value_type j ≢ ValueType.array → api.get_array j ≡ raised json_type_error

-- An array of two whose first element is a string: in a list of initialisers, the member of an object.
pub record IsMember (api : JsonApi) (j : api.Json) : Type 0 where
  pub name : api.Json
  pub is_array : api.value_type j ≡ ValueType.array
  pub has_two : api.size j ≡ 2
  pub has_name : api.first_or_fill j ≡ ok name
  pub is_name : api.value_type name ≡ ValueType.string

-- The two documented behaviours of brace initialisation at one JSON value. The list of initialisers makes
-- an object of members, and an array of one element of any other value.
abbrev pub BraceWraps : JsonApi → Type 0
BraceWraps api = (j : api.Json) → ¬ IsMember api j → api.brace j ≡ api.array_of (j ∷ [])

abbrev pub BraceCopies : JsonApi → Type 0
BraceCopies api = (j : api.Json) → api.brace j ≡ j

module _ (api : JsonApi) where
  open api use {Json, value_type, contains, at_key}

  unfoldable pub is_object : Json → Bool
  is_object j = elim (value_type j) [ ValueType.object ↦ true | _ ↦ false ]

  unfoldable pub is_array : Json → Bool
  is_array j = elim (value_type j) [ ValueType.array ↦ true | _ ↦ false ]

  unfoldable pub is_null : Json → Bool
  is_null j = elim (value_type j) [ ValueType.null ↦ true | _ ↦ false ]

  -- j[key] of a const object: a missing key is undefined behaviour.
  unfoldable pub const_key : Json → String → Outcome Json
  const_key j k = if contains j k then at_key j k else fault missing_key
