-- ===== src/Json/Model.antt =====
-- One concrete library of JSON values, at which the theorems are applied: it meets `JsonLaws`, with
-- either behaviour of brace initialisation.
use nxos_dhcp6_exporter.Prelude.{
  ℕ, suc, String, ◌≡◌, ◌≢◌, refl, Bool, true, false, Option, none, some, List, [], ◌∷◌, arith,
  length, lookup, is_some, str_eq, if◌then◌else◌,
}
use nxos_dhcp6_exporter.Prelude.Int.{ℤ, pos}
use nxos_dhcp6_exporter.Outcome.{Outcome, ok, raised, json_type_error, json_parse_error}
use nxos_dhcp6_exporter.Json.{ValueType, JsonApi, JsonLaws, BraceWraps, found}

mutual
  pub data Value : Type 0 where
    null : Value
    str : String → Value
    num : ℤ → Value
    arr : Items → Value
    obj : Fields → Value

  pub data Fields : Type 0 where
    no_members : Fields
    member : String → Value → Fields → Fields

  pub data Items : Type 0 where
    no_items : Items
    item : Value → Items → Items

abbrev items : List Value → Items
items [] = no_items
items (x ∷ xs) = item x (items xs)

abbrev list_of : Items → List Value
list_of no_items = []
list_of (item x xs) = x ∷ list_of xs

abbrev fields : List (String × Value) → Fields
fields [] = no_members
fields ((k, v) ∷ l) = member k v (fields l)

abbrev find : String → Fields → Option Value
find k no_members = none
find k (member j v l) = if str_eq j k then some v else find k l

abbrev value_type : Value → ValueType
value_type null = ValueType.null
value_type (str s) = ValueType.string
value_type (num n) = ValueType.number_integer
value_type (arr l) = ValueType.array
value_type (obj l) = ValueType.object

abbrev contains : Value → String → Bool
contains (obj l) k = is_some (find k l)
contains _ k = false

abbrev at_key : Value → String → Outcome Value
at_key (obj l) k = found (find k l)
at_key _ k = raised json_type_error

abbrev or_null : Option Value → Outcome Value
or_null none = ok null
or_null (some v) = ok v

abbrev key_or_insert : Value → String → Outcome Value
key_or_insert (obj l) k = or_null (find k l)
key_or_insert null k = ok null
key_or_insert _ k = raised json_type_error

abbrev first_or_fill : Value → Outcome Value
first_or_fill (arr no_items) = ok null
first_or_fill (arr (item x xs)) = ok x
first_or_fill null = ok null
first_or_fill _ = raised json_type_error

abbrev elements : Value → List Value
elements (arr l) = list_of l
elements _ = []

abbrev count_fields : Fields → ℕ
count_fields no_members = 0
count_fields (member k v l) = suc (count_fields l)

abbrev size : Value → ℕ
size null = 0
size (arr l) = length (list_of l)
size (obj l) = count_fields l
size _ = 1

abbrev get_string : Value → Outcome String
get_string (str s) = ok s
get_string _ = raised json_type_error

abbrev get_int : Value → Outcome ℤ
get_int (num n) = ok n
get_int _ = raised json_type_error

abbrev get_array : Value → Outcome (List Value)
get_array (arr l) = ok (list_of l)
get_array _ = raised json_type_error

-- The list of initialisers of one value.
abbrev initialised : Value → Value
initialised (arr (item (str k) (item v no_items))) = obj (member k v no_members)
initialised v = arr (item v no_items)

abbrev brace_of : Bool → Value → Value
brace_of true v = initialised v
brace_of false v = v

-- `wraps` chooses the behaviour of brace initialisation. Its parser knows the
-- three texts that the tests use.
abbrev pub value_api : Bool → JsonApi
value_api wraps = record {
  Json = Value;
  value_type = value_type;
  contains = contains;
  at_key = at_key;
  key_or_insert = key_or_insert;
  first_or_fill = first_or_fill;
  elements = elements;
  size = size;
  get_string = get_string;
  get_int = get_int;
  get_array = get_array;
  null_value = null;
  string_value = str;
  int_value = num;
  array_of = λ l. arr (items l);
  object_of = λ l. obj (fields l);
  parse = λ s.
      if str_eq s "{}"
      then ok (obj no_members)
      else if str_eq s "[]"
      then ok (arr no_items)
      else if str_eq s "[{\"id\":1}]"
      then ok (arr (item (obj (member "id" (num (pos 1)) no_members)) no_items))
      else raised json_parse_error;
  brace = brace_of wraps;
  moved_from = λ s. "";
}

list_of-items : (l : List Value) → list_of (items l) ≡ l
list_of-items [] = refl
list_of-items (x ∷ xs) = ground (arith, list_of-items xs)

find-fields : (k : String) (l : List (String × Value)) → find k (fields l) ≡ lookup k l
find-fields k [] = refl
find-fields k ((j, v) ∷ l) = ground (arith, find-fields k l)

contains_other : (j : Value) (k : String) → value_type j ≢ ValueType.object → contains j k ≡ false
contains_other (obj l) k h = absurd (h refl)
contains_other _ k h = refl

at_other :
    (j : Value) (k : String) → value_type j ≢ ValueType.object → at_key j k ≡ raised json_type_error
at_other (obj l) k h = absurd (h refl)
at_other _ k h = refl

string_other : (j : Value) → value_type j ≢ ValueType.string → get_string j ≡ raised json_type_error
string_other (str s) h = absurd (h refl)
string_other _ h = refl

array_other : (j : Value) → value_type j ≢ ValueType.array → get_array j ≡ raised json_type_error
array_other (arr l) h = absurd (h refl)
array_other _ h = refl

first_other :
    (j : Value)
    → value_type j ≢ ValueType.array
    → value_type j ≢ ValueType.null
    → first_or_fill j ≡ raised json_type_error
first_other (arr l) h k = absurd (h refl)
first_other null h k = absurd (k refl)
first_other _ h k = refl

pub value_laws : (wraps : Bool) → JsonLaws (value_api wraps)
value_laws wraps = record {
  type_null = refl;
  type_string = λ s. refl;
  type_array = λ l. refl;
  type_object = λ l. refl;
  contains_object = λ l k. rw (find-fields k l);
  contains_other = contains_other;
  at_object = λ l k. rw (find-fields k l);
  at_other = at_other;
  key_object = λ l k v h. rw (find-fields k l, h);
  first_array = λ j l. refl;
  first_other = first_other;
  elements_array = λ l. list_of-items l;
  size_array = λ l. rw (list_of-items l);
  size_object = λ f l h. omega (arith, h);
  string_string = λ s. refl;
  string_other = string_other;
  int_int = λ n h. refl;
  array_array = λ l. rw (list_of-items l);
  array_other = array_other;
}

pub value_wraps : BraceWraps (value_api true)
value_wraps null h = refl
value_wraps (str s) h = refl
value_wraps (num n) h = refl
value_wraps (obj l) h = refl
value_wraps (arr no_items) h = refl
value_wraps (arr (item null l)) h = refl
value_wraps (arr (item (num n) l)) h = refl
value_wraps (arr (item (arr k) l)) h = refl
value_wraps (arr (item (obj k) l)) h = refl
value_wraps (arr (item (str k) no_items)) h = refl
value_wraps (arr (item (str k) (item v (item w l)))) h = refl
value_wraps (arr (item (str k) (item v no_items))) h =
    absurd (
      h (record { name = str k; is_array = refl; has_two = refl; has_name = refl; is_name = refl }))
