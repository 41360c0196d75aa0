-- ===== src/JsonRpc/Errors.antt =====
-- The reading of responses with an error, or with neither a result nor an error (handleResponse of
-- src/jsonrpc/utils.cpp).
use nxos_dhcp6_exporter.Prelude.{
  String, ◌≡◌, true, none, some, List, [], ◌∷◌, map, lookup, inl, inr, ◌++◌,
}
use nxos_dhcp6_exporter.Prelude.Int.{ℤ}
use nxos_dhcp6_exporter.Outcome.{ok, raised, fault, json_rpc, missing_key, traverse}
use nxos_dhcp6_exporter.Json.{JsonApi, JsonLaws, ValueType, IsMember, BraceWraps, is_object}
use nxos_dhcp6_exporter.Json.Facts.{
  KnownBrace, is_object-object_of, is_array-array_of, is_array-object_of, object_of-not_IsMember,
  objects-not_IsMember,
}
use nxos_dhcp6_exporter.JsonRpc.{
  IdType, JsonRpcResponse, is_string, is_number_integer, has_key_with, id_from_json,
  exception_from_json, validate, responses_of, handle_document,
}
use nxos_dhcp6_exporter.JsonRpc.Batch.{AreResponses, validate-response, handle-wrapped}

module _ (api : JsonApi) where
  open api use {Json, object_of, array_of, string_value, get_int, value_type}

  -- The fields of an error response: an object with an integer code and a text.
  pub record IsError (l : List (String × Json)) (code : ℤ) (message : String) : Type 0 where
    pub error : List (String × Json)
    pub code_value : Json
    pub has_error : lookup "error" l ≡ some (object_of error)
    pub has_code : lookup "code" error ≡ some code_value
    pub code_type : value_type code_value ≡ ValueType.number_integer
    pub code_read : get_int code_value ≡ ok code
    pub has_message : lookup "message" error ≡ some (string_value message)

  module _ (laws : JsonLaws api) where
    open laws use {
      type_string, type_object, contains_object, at_object, string_string, elements_array,
      first_array, first_other, size_array, size_object,
    }

    has-object :
        (l m : List (String × Json)) (k : String)
        → lookup k l ≡ some (object_of m)
        → has_key_with api (is_object api) (object_of l) k ≡ true
    unfolding has_key_with
    has-object l m k h = simp (contains_object, at_object, h, is_object-object_of api laws)

    has-string :
        (l : List (String × Json)) (s : String) (k : String)
        → lookup k l ≡ some (string_value s)
        → has_key_with api (is_string api) (object_of l) k ≡ true
    unfolding has_key_with is_string
    has-string l s k h = simp (contains_object, at_object, h) (rw (type_string s, is_string))

    has-integer :
        (l : List (String × Json)) (v : Json) (k : String)
        → lookup k l ≡ some v
        → value_type v ≡ ValueType.number_integer
        → has_key_with api (is_number_integer api) (object_of l) k ≡ true
    unfolding has_key_with is_number_integer
    has-integer l v k h t = simp (contains_object, at_object, h) (rw (t, is_number_integer))

    read-error :
        (l : List (String × Json)) (code : ℤ) (message : String)
        → (h : IsError l code message)
        → exception_from_json api {A = JsonRpcResponse Json} (object_of h.error)
          ≡ raised (json_rpc code message)
    unfolding exception_from_json
    read-error l code message h =
        rw
          (
            has-integer h.error h.code_value "code" h.has_code h.code_type,
            has-string h.error message "message" h.has_message,
          )
          (simp (contains_object, at_object, h.has_code, h.has_message, h.code_read, string_string))

    validate-error :
        (l : List (String × Json)) (code : ℤ) (message : String)
        → IsError l code message
        → validate api (object_of l) ≡ raised (json_rpc code message)
    unfolding validate
    validate-error l code message h =
        rw
          (
            has-object l h.error "error" h.has_error,
            contains_object l "error",
            at_object l "error",
            h.has_error,
          )
          (read-error l code message h)

    until-not_IsMember :
        (ls : List (List (String × Json))) (l : List (String × Json)) (rest : List Json)
        → ¬ IsMember api (array_of (map object_of ls ++ object_of l ∷ rest))
    until-not_IsMember [] l rest = objects-not_IsMember api laws l rest
    until-not_IsMember (x ∷ ls) l rest =
        objects-not_IsMember api laws x (map object_of ls ++ object_of l ∷ rest)

    validate-until :
        (ls : List (List (String × Json))) (rs : List (JsonRpcResponse Json))
        (l : List (String × Json)) (code : ℤ) (message : String) (rest : List Json)
        → AreResponses api ls rs
        → IsError l code message
        → traverse (validate api) (map object_of ls ++ object_of l ∷ rest)
          ≡ raised (json_rpc code message)
    unfolding traverse
    validate-until [] [] l code message rest h e = rw (validate-error l code message e)
    validate-until [] (r ∷ rs) l code message rest h e = absurd h
    validate-until (x ∷ ls) [] l code message rest h e = absurd h
    validate-until (x ∷ ls) (r ∷ rs) l code message rest (h, hs) e =
        simp (validate-response api laws x r h, validate-until ls rs l code message rest hs e)

    -- An error object in a batch of responses makes the whole batch throw that error.
    pub batch_error :
        (ls : List (List (String × Json))) (rs : List (JsonRpcResponse Json))
        (l : List (String × Json)) (code : ℤ) (message : String) (rest : List Json)
        → AreResponses api ls rs
        → IsError l code message
        → BraceWraps api
        → handle_document api (array_of (map object_of ls ++ object_of l ∷ rest))
          ≡ raised (json_rpc code message)
    unfolding responses_of
    batch_error ls rs l code message rest h e wraps =
        rw
          (
            handle-wrapped api laws (array_of (map object_of ls ++ object_of l ∷ rest)) wraps
                (until-not_IsMember ls l rest),
            is_array-array_of api laws (map object_of ls ++ object_of l ∷ rest),
            elements_array (map object_of ls ++ object_of l ∷ rest),
          )
          (validate-until ls rs l code message rest h e)

    validate-missing :
        (l : List (String × Json)) (v : Json) (id : IdType)
        → lookup "error" l ≡ none
        → lookup "id" l ≡ some v
        → id_from_json api v ≡ ok id
        → lookup "result" l ≡ none
        → validate api (object_of l) ≡ fault missing_key
    unfolding validate
    validate-missing l v id no_error has_id id_read no_result =
        simp (contains_object, at_object, no_error, has_id, no_result) (rw id_read)

    -- A response with an id, no error and no result has undefined behaviour, with either behaviour of
    -- brace initialisation.
    pub missing_result_faults :
        (l : List (String × Json)) (v : Json) (id : IdType)
        → lookup "error" l ≡ none
        → lookup "id" l ≡ some v
        → id_from_json api v ≡ ok id
        → lookup "result" l ≡ none
        → KnownBrace api
        → handle_document api (object_of l) ≡ fault missing_key
    unfolding responses_of handle_document
    missing_result_faults l v id no_error has_id id_read no_result (inl wraps) = rw (
      handle-wrapped api laws (object_of l) wraps (object_of-not_IsMember api laws l),
      is_array-object_of api laws l,
      is_object-object_of api laws l,
      validate-missing l v id no_error has_id id_read no_result,
    )
    missing_result_faults l v id no_error has_id id_read no_result (inr copies) = rw (
      copies (object_of l),
      is_array-object_of api laws l,
      validate-missing l v id no_error has_id id_read no_result,
    )
