-- ===== src/JsonRpc/Exception.antt =====
-- JsonRpcException with its data and its text (include/jsonrpc/utils.hpp, src/jsonrpc/utils.cpp).
-- json::dump is a parameter.
use Prim.Native.String.{◌++◌}
use nxos_dhcp6_exporter.Prelude.{
  zero, suc, ◌≢◌, String, ◌≡◌, ◌⊎◌, refl, ◌&&◌, Option, none, some, List, lookup, inl, inr,
  Bool-cases, if◌then◌else◌, arith,
}
use nxos_dhcp6_exporter.Prelude.Int.{ℤ, pos, negsuc}
use nxos_dhcp6_exporter.Outcome.{Outcome, ok, raised, fault, json_rpc, ◌>>=◌}
use nxos_dhcp6_exporter.Json.{JsonApi, JsonLaws, const_key}
use nxos_dhcp6_exporter.Route.{to_string}
use nxos_dhcp6_exporter.JsonRpc.{
  IdType, number, text, invalid, cast_error_type, error_type_string, exception_type, has_key_with,
  is_number_integer, is_string, exception_from_json, invalid_error_message, error_code,
}
use nxos_dhcp6_exporter.JsonRpc.Codes.{IsServerCode}

-- toString of an id
unfoldable pub id_to_string : IdType → String
unfolding to_string
id_to_string (number (pos n)) = to_string n
id_to_string (number (negsuc n)) = "-" ++ to_string (suc n)
id_to_string (text s) = s

-- The members of JsonRpcException.
pub record JsonRpcException (J : Type 0) : Type 0 where
  pub code : ℤ
  pub message : String
  pub data_value : J
  pub err : String

-- A chain that is followed by another agrees with one that agrees at each value.
bind-agrees {ℓ κ μ} :
    {X : Type ℓ} {Y : Type κ} {Z : Type μ} (o : Outcome X) (f : X → Outcome Y) (g : Y → Outcome Z)
    (h : X → Outcome Z)
    → ((x : X) → (f x >>= g) ≡ h x)
    → ((o >>= f) >>= g) ≡ (o >>= h)
bind-agrees (ok x) f g h agrees = agrees x
bind-agrees (raised e) f g h agrees = refl
bind-agrees (fault u) f g h agrees = refl

-- How the text of a code and that of its type compare.
abbrev pub KindOfText : ℤ → (kind : String) → Type 0
KindOfText code kind =
    (IsServerCode code × (kind ≡ "invalid_error"))
    ⊎ ((code ≡ negsuc 0) × (kind ≡ "server_error") × (exception_type code ≡ some invalid))
    ⊎ ((¬ IsServerCode code) × (code ≢ negsuc 0) × (kind ≡ error_type_string (exception_type code)))

kind_of_code : (code : ℤ) → KindOfText code (error_type_string (cast_error_type code))
unfolding exception_type cast_error_type error_code error_type_string
kind_of_code (pos n) = ground arith
kind_of_code (negsuc zero) = inr (inl (refl, refl, refl))
kind_of_code (negsuc (suc n)) = ground arith

module _ (api : JsonApi) (dump : api.Json → String) where
  open api use {Json, get_int, get_string, null_value, contains, object_of}

  -- The text in front of the message: that of the code as an enumerator.
  abbrev pub error_text : ℤ → String → String
  error_text code message = error_type_string (cast_error_type code) ++ (": " ++ message)

  -- JsonRpcException(code, message)
  unfoldable pub new_exception : ℤ → String → JsonRpcException Json
  unfolding error_type_string cast_error_type
  new_exception code message = record {
    code = code;
    message = message;
    data_value = null_value;
    err = error_text code message;
  }

  -- JsonRpcException(code, message, data)
  unfoldable pub new_exception_with_data : ℤ → String → Json → JsonRpcException Json
  unfolding error_type_string cast_error_type
  new_exception_with_data code message data_value = record {
    code = code;
    message = message;
    data_value = data_value;
    err = error_text code message ++ (", data: " ++ dump data_value);
  }

  -- The exception of a code and a message, with the data that the value has.
  unfoldable pub with_data : ℤ → String → Json → Outcome (JsonRpcException Json)
  unfolding new_exception new_exception_with_data const_key
  with_data code message value =
      if contains value "data"
      then (do d ← const_key api value "data"; ok (new_exception_with_data code message d))
      else ok (new_exception code message)

  -- JsonRpcException::fromJson
  unfoldable pub from_json : Json → Outcome (JsonRpcException Json)
  unfolding has_key_with is_number_integer is_string const_key with_data new_exception
  from_json value =
      if has_key_with api (is_number_integer api) value "code"
        && has_key_with api (is_string api) value "message"
      then (do
        code_value ← const_key api value "code"
        code ← get_int code_value
        message_value ← const_key api value "message"
        message ← get_string message_value
        with_data code message value)
      else ok (new_exception (negsuc 32602) invalid_error_message)

  -- The exception as it leaves handleResponse.
  abbrev pub thrown {ℓ} : {A : Type ℓ} → JsonRpcException Json → Outcome A
  thrown e = raised (json_rpc e.code e.message)

  -- The text of an exception is a kind, the message and, with data, their dump. The kind is that of the
  -- type that `type` gives, but for the codes left to servers, where it is "invalid_error", and for -1,
  -- where it is "server_error" and the type is INVALID.
  pub text_of_exception :
      (code : ℤ) (message : String) (d : Json)
      → (kind : String) × KindOfText code kind
        × ((new_exception code message).err ≡ kind ++ (": " ++ message))
        × ((new_exception_with_data code message d).err
            ≡ (kind ++ (": " ++ message)) ++ (", data: " ++ dump d))
  unfolding new_exception new_exception_with_data
  text_of_exception code message d =
      (error_type_string (cast_error_type code), kind_of_code code, refl, refl)

  module _ (laws : JsonLaws api) where
    open laws use {contains_object, at_object}

    with_data-thrown {ℓ} :
        {A : Type ℓ} (code : ℤ) (message : String) (l : List (String × Json)) (o : Option Json)
        → lookup "data" l ≡ o
        → (with_data code message (object_of l) >>= thrown {A = A}) ≡ raised (json_rpc code message)
    unfolding with_data new_exception new_exception_with_data const_key
    with_data-thrown code message l none h = rw (contains_object l "data", h) refl
    with_data-thrown code message l (some d) h =
        rw (contains_object l "data", at_object l "data", h) refl

    -- The exception of handleResponse, without data and text, is the one of JsonRpcException::fromJson with
    -- these members forgotten, for every object that the switch gives as its error.
    pub from_json_forgets {ℓ} :
        {A : Type ℓ} (l : List (String × Json))
        → (from_json (object_of l) >>= thrown {A = A}) ≡ exception_from_json api (object_of l)
    unfolding from_json exception_from_json new_exception
    from_json_forgets {A} l =
        let value = object_of l in
        elim (Bool-cases (
          has_key_with api (is_number_integer api) value "code"
          && has_key_with api (is_string api) value "message")) [
            | inl usable ↦ rw usable (
                bind-agrees (const_key api value "code") _ _ _ (λ code_value.
                  bind-agrees (get_int code_value) _ _ _ (λ code.
                    bind-agrees (const_key api value "message") _ _ _ (λ message_value.
                      bind-agrees (get_string message_value) _ _ _
                        (λ message. with_data-thrown code message l (lookup "data" l) refl)))))
            | inr unusable ↦ rw unusable refl
          ]
