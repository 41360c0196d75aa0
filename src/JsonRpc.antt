-- ===== src/JsonRpc.antt =====
-- include/jsonrpc/utils.hpp and src/jsonrpc/utils.cpp: JSON-RPC requests, responses and errors.
pub mod Codes
pub mod Requests
pub mod Batch
pub mod Errors
pub mod Exception
use nxos_dhcp6_exporter.Prelude.{
  String, Bool, true, false, ◌&&◌, Option, none, some, List, [], ◌∷◌, map, ◌==◌, if◌then◌else◌,
}
use nxos_dhcp6_exporter.Prelude.Int.{ℤ, pos, negsuc, leb_ℤ, eqb_ℤ}
use nxos_dhcp6_exporter.Outcome.{Outcome, ok, raised, json_rpc, json_parse_error, ◌>>=◌, traverse}
use nxos_dhcp6_exporter.Json.{JsonApi, ValueType, is_object, is_array, const_key}

pub data IdType : Type 0 where
  number : ℤ → IdType
  text : String → IdType

pub record JsonRpcResponse (J : Type 0) : Type 0 where
  pub id : IdType
  pub result : J

-- JsonRpcException::ErrorType, by its enumerators
pub data ErrorType : Type 0 where
  parse_error invalid_request method_not_found invalid_params internal_error : ErrorType
  server_error invalid : ErrorType

-- The numbers of the enumerators.
unfoldable pub error_code : ErrorType → ℤ
error_code parse_error = negsuc 32699
error_code invalid_request = negsuc 32599
error_code method_not_found = negsuc 32600
error_code invalid_params = negsuc 32601
error_code internal_error = negsuc 32602
error_code server_error = negsuc 0
error_code invalid = pos 0

-- static_cast<ErrorType>(code), as a switch on it sees the value: none is no enumerator.
unfoldable pub cast_error_type : ℤ → Option ErrorType
unfolding error_code
cast_error_type code =
    if eqb_ℤ code (error_code parse_error)
    then some parse_error
    else if eqb_ℤ code (error_code invalid_request)
    then some invalid_request
    else if eqb_ℤ code (error_code method_not_found)
    then some method_not_found
    else if eqb_ℤ code (error_code invalid_params)
    then some invalid_params
    else if eqb_ℤ code (error_code internal_error)
    then some internal_error
    else if eqb_ℤ code (error_code server_error)
    then some server_error
    else if eqb_ℤ code (error_code invalid)
    then some invalid
    else none

-- JsonRpcException::ErrorTypeString
unfoldable pub error_type_string : Option ErrorType → String
error_type_string (some parse_error) = "parse_error"
error_type_string (some invalid_request) = "invalid_request"
error_type_string (some method_not_found) = "method_not_found"
error_type_string (some invalid_params) = "invalid_params"
error_type_string (some internal_error) = "internal_error"
error_type_string (some server_error) = "server_error"
error_type_string (some invalid) = "invalid_error"
error_type_string none = "invalid_error"

-- JsonRpcException::type
unfoldable pub exception_type : ℤ → Option ErrorType
unfolding cast_error_type
exception_type code =
    if leb_ℤ (negsuc 32602) code && leb_ℤ code (negsuc 32599)
    then cast_error_type code
    else if leb_ℤ (negsuc 32098) code && leb_ℤ code (negsuc 31999)
    then some server_error
    else if eqb_ℤ code (negsuc 32699)
    then some parse_error
    else some invalid

-- The id of a response, and its place in the text of an exception.
abbrev pub no_id_message : String
no_id_message =
    "invalid server response: neither \"result\" nor \"error\" fields found for response id: 0"

abbrev pub invalid_error_message : String
invalid_error_message =
    "invalid error response: \"code\" (negative number) and \"message\" (string) are required"

abbrev pub invalid_json_message : String
invalid_json_message = "invalid JSON response from server: "

module _ (api : JsonApi) where
  open api use {
    Json, value_type, contains, at_key, first_or_fill, elements, size, get_string, get_int,
    string_value, int_value, null_value, array_of, object_of, parse, brace,
  }

  unfoldable pub is_string : Json → Bool
  is_string j = elim (value_type j) [ ValueType.string ↦ true | _ ↦ false ]

  unfoldable pub is_number_integer : Json → Bool
  is_number_integer j = elim (value_type j) [ ValueType.number_integer ↦ true | _ ↦ false ]

  -- hasKeyWithType; `v.at(key)` is evaluated only where the key is there
  unfoldable pub has_key_with : (Json → Bool) → Json → String → Bool
  has_key_with test v k = contains v k && elim (at_key v k) [ ok w ↦ test w | _ ↦ false ]

  -- JsonRpcException::fromJson, as the exception that is thrown; its data is left out
  unfoldable pub exception_from_json {ℓ} : {A : Type ℓ} → Json → Outcome A
  unfolding has_key_with is_string is_number_integer const_key
  exception_from_json value =
      if has_key_with is_number_integer value "code" && has_key_with is_string value "message"
      then (do
        code_value ← const_key api value "code"
        code ← get_int code_value
        message_value ← const_key api value "message"
        message ← get_string message_value
        raised (json_rpc code message))
      else raised (json_rpc (negsuc 32602) invalid_error_message)

  -- The id of a response: a text, or any value that converts to int.
  unfoldable pub id_from_json : Json → Outcome IdType
  unfolding is_string
  id_from_json j =
      if is_string j then (do s ← get_string j; ok (text s)) else (do n ← get_int j; ok (number n))

  -- The lambda `validator` of handleResponse, with the response that it pushes.
  unfoldable pub validate : Json → Outcome (JsonRpcResponse Json)
  unfolding has_key_with is_string exception_from_json id_from_json const_key is_object
  validate inner =
      if has_key_with (is_object api) inner "error"
      then (do e ← const_key api inner "error"; exception_from_json e)
      else if has_key_with is_string inner "error"
      then (do
        e ← const_key api inner "error"
        message ← get_string e
        raised (json_rpc (negsuc 32602) message))
      else if contains inner "id"
      then (do
        id_value ← const_key api inner "id"
        id ← id_from_json id_value
        result ← const_key api inner "result"
        ok (record { id = id; result = result }))
      else raised (json_rpc (negsuc 32602) no_id_message)

  -- catch (json::parse_error&)
  abbrev pub catch_parse_error {ℓ} : {A : Type ℓ} → Outcome A → Outcome A
  catch_parse_error (raised json_parse_error) =
      raised (json_rpc (negsuc 32699) invalid_json_message)
  catch_parse_error r = r

  -- What stands in `inner[0]`: a batch, one response, or neither.
  unfoldable pub responses_of : Json → Outcome (List (JsonRpcResponse Json))
  unfolding validate is_array is_object
  responses_of head =
      if is_array api head
      then traverse validate (elements head)
      else if is_object api head
      then (do r ← validate head; ok (r ∷ []))
      else ok []

  -- JsonRpcUtils::handleResponse after the text is parsed
  unfoldable pub handle_document : Json → Outcome (List (JsonRpcResponse Json))
  unfolding responses_of validate is_array
  handle_document document =
      let parsed = brace document in
      if is_array api parsed
      then (do
        front ← first_or_fill parsed
        let inner = brace front
        if size inner == 0 then ok [] else do head ← first_or_fill inner; responses_of head)
      else (do r ← validate parsed; ok (r ∷ []))

  -- JsonRpcUtils::handleResponse
  unfoldable pub handle_response : String → Outcome (List (JsonRpcResponse Json))
  unfolding handle_document
  handle_response response =
      catch_parse_error do document ← parse response; handle_document document

  -- The object of one command.
  unfoldable pub command_to_json : ℤ × String → Json
  command_to_json (id, command) = object_of (
      ("method", string_value "cli")
      ∷ ("id", int_value id)
      ∷ ("jsonrpc", string_value "2.0")
      ∷ ("params", object_of (("cmd", string_value command) ∷ ("version", int_value (pos 1)) ∷ []))
      ∷ [])

  -- JsonRpcUtils::createRequestFromCommands, as a document; no command leaves `json array` null
  unfoldable pub create_request_from_commands : List (ℤ × String) → Json
  unfolding command_to_json
  create_request_from_commands [] = null_value
  create_request_from_commands (c ∷ commands) = array_of (map command_to_json (c ∷ commands))
