-- ===== src/Json/Facts.antt =====
-- Facts on JSON values that follow from the library's laws.
use nxos_dhcp6_exporter.Prelude.{
  String, ◌≡◌, ◌≢◌, ◌⊎◌, [], ◌∷◌, arith, true, false, List, some, none, lookup,
}
use nxos_dhcp6_exporter.Outcome.{ok, raised, fault, json_type_error, missing_key}
use nxos_dhcp6_exporter.Json.{
  JsonApi, JsonLaws, ValueType, is_object, is_array, const_key, IsMember, BraceWraps, BraceCopies,
}

-- Either of the two documented behaviours.
abbrev pub KnownBrace : JsonApi → Type 0
KnownBrace api = BraceWraps api ⊎ BraceCopies api

module _ (api : JsonApi) (laws : JsonLaws api) where
  open api use {Json, object_of, array_of, contains, at_key}
  open laws use {
    type_array, type_object, contains_object, contains_other, at_object, at_other, first_array,
    size_array,
  }

  pub is_object-object_of : (l : List (String × Json)) → is_object api (object_of l) ≡ true
  unfolding is_object
  is_object-object_of l = rw (type_object l, is_object)

  pub is_object-array_of : (l : List Json) → is_object api (array_of l) ≡ false
  unfolding is_object
  is_object-array_of l = rw (type_array l, is_object)

  pub is_array-array_of : (l : List Json) → is_array api (array_of l) ≡ true
  unfolding is_array
  is_array-array_of l = rw (type_array l, is_array)

  pub is_array-object_of : (l : List (String × Json)) → is_array api (object_of l) ≡ false
  unfolding is_array
  is_array-object_of l = rw (type_object l, is_array)

  array-ne-object : (l : List Json) → api.value_type (array_of l) ≢ ValueType.object
  array-ne-object l h = cc (type_array l)

  pub contains-array_of : (l : List Json) (k : String) → contains (array_of l) k ≡ false
  contains-array_of l k = contains_other (array_of l) k (array-ne-object l)

  pub at_key-array_of :
      (l : List Json) (k : String) → at_key (array_of l) k ≡ raised json_type_error
  at_key-array_of l k = at_other (array_of l) k (array-ne-object l)

  pub const_key-object_of :
      (l : List (String × Json)) (k : String) (v : Json)
      → lookup k l ≡ some v
      → const_key api (object_of l) k ≡ ok v
  unfolding const_key
  const_key-object_of l k v h = rw (contains_object l k, at_object l k, h)

  pub const_key-missing :
      (l : List (String × Json)) (k : String)
      → lookup k l ≡ none
      → const_key api (object_of l) k ≡ fault missing_key
  unfolding const_key
  const_key-missing l k h = rw (contains_object l k, h)

  -- No object is a member, and no array that is empty or begins with an object is one.
  pub object_of-not_IsMember : (l : List (String × Json)) → ¬ IsMember api (object_of l)
  object_of-not_IsMember l h = cc (h.is_array, type_object l)

  pub empty-not_IsMember : ¬ IsMember api (array_of [])
  empty-not_IsMember h = ground (arith, h.has_two, size_array [])

  pub objects-not_IsMember :
      (l : List (String × Json)) (rest : List Json) → ¬ IsMember api (array_of (object_of l ∷ rest))
  objects-not_IsMember l rest h =
      cc (h.has_name, h.is_name, first_array (object_of l) rest, type_object l)
