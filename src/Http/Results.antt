-- ===== src/Http/Results.antt =====
-- What reaches a response handler (src/nxos_http_client.cpp).
use nxos_dhcp6_exporter.Prelude.{
  ◌⊎◌, ℕ, String, ◌≡◌, ◌≢◌, ◌↔◌, refl, false, none, some, List, [], ◌∷◌, ◌++◌, ◌==◌, All,
  Bool-cases, arith, str_eq, eq_iff, inl, inr,
}
use nxos_dhcp6_exporter.Prelude.Int.{ℤ}
use nxos_dhcp6_exporter.Outcome.{Outcome, ok, raised, fault, Exn, json_rpc, bad_value}
use nxos_dhcp6_exporter.Json.{JsonApi}
use nxos_dhcp6_exporter.JsonRpc.{JsonRpcResponse, handle_response}
use nxos_dhcp6_exporter.Run.{success}
use nxos_dhcp6_exporter.Http.Errors.{HttplibError}
use nxos_dhcp6_exporter.Http.{
  HttpResult, failed, response, map_error, split_secret, validate_response, Delivered, deliver,
  on_result,
}

-- A login with no colon and any password are recovered from the secret that joins them by a colon.
pub split_secret_round_trip :
    (login password : List ℕ)
    → All (λ (c : ℕ). (c == b':') ≡ false) login
    → split_secret (login ++ b':' ∷ password) ≡ some (login, password)
unfolding split_secret
split_secret_round_trip [] password h = refl
split_secret_round_trip (c ∷ login) password (h, hs) =
    rw (split_secret_round_trip login password hs, h)

-- Different errors of httplib stay different, and only its success is read as success.
pub map_error_injective :
    (a b : HttplibError)
    → (map_error a ≡ map_error b → a ≡ b) × ((map_error a ≡ success) ↔ (a ≡ HttplibError.success))
unfolding map_error
map_error_injective a b = (ground arith, (ground arith, ground arith))

module _ (api : JsonApi) where
  open api use {Json}

  -- What a handler may rely on: the pointer to the responses is never null, and an exception comes
  -- with no response, as does an error of the transport.
  pub record IsReply (d : Delivered api) : Type 0 where
    pub responses : List (JsonRpcResponse Json)
    pub not_null : d.reply.response ≡ some responses
    pub exception_alone : (d.reply.json_rpc_exception ≡ none) ⊎ (responses ≡ [])
    pub failure_alone : (d.reply.response_error ≡ success) ⊎ (responses ≡ [])

  replied :
      (status : ℤ) (r : Outcome (List (JsonRpcResponse Json))) (d : Delivered api)
      → deliver api status r ≡ ok d
      → IsReply d
  replied status (ok l) d h = record {
    responses = l;
    not_null = ground arith;
    exception_alone = ground arith;
    failure_alone = ground arith;
  }
  replied status (raised (json_rpc code message)) d h = record {
    responses = [];
    not_null = ground arith;
    exception_alone = inr refl;
    failure_alone = inr refl;
  }
  replied status (raised _) d h = cc
  replied status (fault u) d h = cc

  -- Every call of a response handler satisfies `IsReply`.
  pub on_result-IsReply : (r : HttpResult) (d : Delivered api) → on_result api r ≡ ok d → IsReply d
  unfolding on_result
  on_result-IsReply (failed error) d h = record {
    responses = [];
    not_null = ground arith;
    exception_alone = inr refl;
    failure_alone = inr refl;
  }
  on_result-IsReply (response status body) d h = replied status (validate_response api body) d h

  not_rpc :
      (status : ℤ) (e : Exn)
      → ((code : ℤ) (message : String) → e ≢ json_rpc code message)
      → deliver api status (raised e) ≡ raised e
  not_rpc status (json_rpc code message) h = absurd (h code message refl)
  not_rpc status _ h = refl

  -- The handler is not called for a body that is empty, nor for one whose reading throws anything but a
  -- JsonRpcException: the exception leaves the task.
  pub handler_skipped :
      (status : ℤ) (body : String) (e : Exn)
      → ((code : ℤ) (message : String) → e ≢ json_rpc code message)
      → body ≢ ""
      → handle_response api body ≡ raised e
      → (on_result api (response status "") ≡ raised (bad_value "no body found in the response"))
        × (on_result api (response status body) ≡ raised e)
  unfolding on_result
  handler_skipped status body e h full bad = (
    refl,
    elim (Bool-cases (str_eq body "")) [
      | inl empty ↦ absurd (full ((eq_iff body "").0 empty))
      | inr not_empty ↦ rw (not_empty, bad) (not_rpc status e h)
    ],
  )
