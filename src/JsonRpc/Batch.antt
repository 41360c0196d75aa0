-- ===== src/JsonRpc/Batch.antt =====
-- The reading of a response (handleResponse of src/jsonrpc/utils.cpp).
use nxos_dhcp6_exporter.Prelude.{
  String, ◌≡◌, refl, false, none, some, List, [], ◌∷◌, map, lookup, inl, inr, arith, ◌==◌,
}
use nxos_dhcp6_exporter.Outcome.{ok, raised, json_type_error, traverse}
use nxos_dhcp6_exporter.Json.{JsonApi, JsonLaws, IsMember, BraceWraps, BraceCopies}
use nxos_dhcp6_exporter.Json.Facts.{
  KnownBrace, is_object-object_of, is_array-array_of, is_array-object_of, object_of-not_IsMember,
  empty-not_IsMember, objects-not_IsMember,
}
use nxos_dhcp6_exporter.JsonRpc.{
  JsonRpcResponse, id_from_json, validate, responses_of, handle_document,
}

module _ (api : JsonApi) where
  open api use {Json, object_of, array_of, string_value, get_int, value_type}

  -- The fields of a response without error: its id and its result, in any order and with others.
  pub record IsResponse (l : List (String × Json)) (r : JsonRpcResponse Json) : Type 0 where
    pub id_value : Json
    pub no_error : lookup "error" l ≡ none
    pub has_id : lookup "id" l ≡ some id_value
    pub id_read : id_from_json api id_value ≡ ok r.id
    pub has_result : lookup "result" l ≡ some r.result

  -- Each list of fields is that of the response beside it.
  abbrev pub AreResponses : List (List (String × Json)) → List (JsonRpcResponse Json) → Type 0
  AreResponses [] [] = Unit
  AreResponses (l ∷ ls) (r ∷ rs) = IsResponse l r × AreResponses ls rs
  AreResponses _ _ = ⊥

  module _ (laws : JsonLaws api) where
    open laws use {
      type_string, type_object, contains_object, at_object, string_string, elements_array,
      first_array, first_other, size_array, size_object,
    }

    pub validate-response :
        (l : List (String × Json)) (r : JsonRpcResponse Json)
        → IsResponse l r
        → validate api (object_of l) ≡ ok r
    unfolding validate
    validate-response l r h =
        simp (contains_object, at_object, h.no_error, h.has_id, h.has_result) (rw h.id_read)

    validate-all :
        (ls : List (List (String × Json))) (rs : List (JsonRpcResponse Json))
        → AreResponses ls rs
        → traverse (validate api) (map object_of ls) ≡ ok rs
    unfolding traverse
    validate-all [] [] h = refl
    validate-all [] (r ∷ rs) h = absurd h
    validate-all (l ∷ ls) [] h = absurd h
    validate-all (l ∷ ls) (r ∷ rs) (h, hs) = simp (validate-response l r h, validate-all ls rs hs)

    -- the document seen through the two brace initialisations that wrap
    pub handle-wrapped :
        (j : Json) → BraceWraps api → ¬ IsMember api j → handle_document api j ≡ responses_of api j
    unfolding handle_document
    handle-wrapped j wraps not_member = simp (
      wraps j not_member,
      is_array-array_of api laws (j ∷ []),
      first_array j [],
      size_array (j ∷ []),
    )

    batch-not_IsMember :
        (ls : List (List (String × Json))) → ¬ IsMember api (array_of (map object_of ls))
    batch-not_IsMember [] = empty-not_IsMember api laws
    batch-not_IsMember (l ∷ ls) = objects-not_IsMember api laws l (map object_of ls)

    -- Where `auto v{j}` wraps every value but the members of objects, a batch of responses is read as all
    -- of them, in order.
    pub batch_read :
        (ls : List (List (String × Json))) (rs : List (JsonRpcResponse Json))
        → AreResponses ls rs
        → BraceWraps api
        → handle_document api (array_of (map object_of ls)) ≡ ok rs
    unfolding responses_of
    batch_read ls rs h wraps =
        rw
          (
            handle-wrapped (array_of (map object_of ls)) wraps (batch-not_IsMember ls),
            is_array-array_of api laws (map object_of ls),
            elements_array (map object_of ls),
          )
          (validate-all ls rs h)

    -- One response that stands in no array is read as itself, with either behaviour of `auto v{j}`.
    pub single_read :
        (l : List (String × Json)) (r : JsonRpcResponse Json)
        → IsResponse l r
        → KnownBrace api
        → handle_document api (object_of l) ≡ ok (r ∷ [])
    unfolding responses_of handle_document
    single_read l r h (inl wraps) = rw (
      handle-wrapped (object_of l) wraps (object_of-not_IsMember api laws l),
      is_array-object_of api laws l,
      is_object-object_of api laws l,
      validate-response l r h,
    )
    single_read l r h (inr copies) =
        rw (copies (object_of l), is_array-object_of api laws l, validate-response l r h)

    not-empty :
        (f : String × Json) (l : List (String × Json)) → (api.size (object_of (f ∷ l)) == 0) ≡ false
    not-empty f l = ground (arith, size_object f l)

    -- Where `auto v{j}` copies: a batch throws a type error, whatever it holds, since the code takes
    -- `inner[0]` of its first object.
    pub batch_refused :
        (f : String × Json) (l : List (String × Json)) (rest : List Json)
        → BraceCopies api
        → handle_document api (array_of (object_of (f ∷ l) ∷ rest)) ≡ raised json_type_error
    unfolding handle_document
    batch_refused f l rest copies = rw (
      copies (array_of (object_of (f ∷ l) ∷ rest)),
      is_array-array_of api laws (object_of (f ∷ l) ∷ rest),
      first_array (object_of (f ∷ l)) rest,
      copies (object_of (f ∷ l)),
      not-empty f l,
      first_other (object_of (f ∷ l)) (λ h. cc (type_object (f ∷ l)))
          (λ h. cc (type_object (f ∷ l))),
    )
