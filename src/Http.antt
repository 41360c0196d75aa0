-- ===== src/Http.antt =====
-- src/nxos_http_client.cpp: what the HTTP client makes of the result of a POST, before it calls the
-- response handler.
pub mod Errors
pub mod Pool
pub mod Client
pub mod Results
use nxos_dhcp6_exporter.Prelude.{
  String, Bool, true, false, Option, none, some, List, [], ◌∷◌, ℕ, ◌==◌, str_eq, if◌then◌else◌,
}
use nxos_dhcp6_exporter.Prelude.Int.{ℤ, pos}
use nxos_dhcp6_exporter.Outcome.{
  Outcome, ok, raised, fault, Exn, json_rpc, bad_value, not_implemented, ◌>>=◌,
}
use nxos_dhcp6_exporter.Json.{JsonApi}
use nxos_dhcp6_exporter.JsonRpc.{JsonRpcResponse, handle_response}
use nxos_dhcp6_exporter.Params.{Scheme, http, https}
use nxos_dhcp6_exporter.Http.Errors.{HttplibError}
use nxos_dhcp6_exporter.Run.{
  ResponseError, success, unknown, connection, bind_ip_address, read, write, exceed_redirect_count,
  canceled, ssl_connection, ssl_loading_certs, ssl_server_verification,
  unsupported_multipart_boundary_chars, compression, connection_timeout, proxy_connection, Reply,
  Log, update_info_communication_failed, json_rpc_validate_error,
}

-- What httplib::Client::Post gives.
pub data HttpResult : Type 0 where
  failed : HttplibError → HttpResult
  response : (status : ℤ) → (body : String) → HttpResult

-- HttplibErrorToNXOSHttpClientMapper
unfoldable pub map_error : HttplibError → ResponseError
map_error HttplibError.success = success
map_error HttplibError.connection = connection
map_error HttplibError.bind_ip_address = bind_ip_address
map_error HttplibError.read = read
map_error HttplibError.write = write
map_error HttplibError.exceed_redirect_count = exceed_redirect_count
map_error HttplibError.canceled = canceled
map_error HttplibError.ssl_connection = ssl_connection
map_error HttplibError.ssl_loading_certs = ssl_loading_certs
map_error HttplibError.ssl_server_verification = ssl_server_verification
map_error HttplibError.unsupported_multipart_boundary_chars = unsupported_multipart_boundary_chars
map_error HttplibError.compression = compression
map_error HttplibError.connection_timeout = connection_timeout
map_error HttplibError.proxy_connection = proxy_connection
map_error HttplibError.other = unknown

-- The characters before and after the first colon of the secret: the login and the password.
unfoldable pub split_secret : List ℕ → Option (List ℕ × List ℕ)
split_secret [] = none
split_secret (c ∷ secret) =
    let rest = split_secret secret in
    if c == b':'
    then some ([], secret)
    else elim rest [ none ↦ none | some (login, password) ↦ some (c ∷ login, password) ]

module _ (api : JsonApi) where
  open api use {Json}

  -- validateResponse
  unfoldable pub validate_response : String → Outcome (List (JsonRpcResponse Json))
  validate_response body =
      if str_eq body ""
      then raised (bad_value "no body found in the response")
      else handle_response api body

  -- What the response handler is called with, and the message before it.
  pub record Delivered : Type 0 where
    pub reply : Reply Json
    pub log : Option Log

  -- catch (const JsonRpcException&); another exception leaves the task
  abbrev pub deliver : ℤ → Outcome (List (JsonRpcResponse Json)) → Outcome Delivered
  deliver status (ok l) = ok (record {
    reply = record {
      response = some l;
      response_error = success;
      status_code = status;
      json_rpc_exception = none;
    };
    log = none;
  })
  deliver status (raised (json_rpc code message)) = ok (record {
    reply = record {
      response = some [];
      response_error = success;
      status_code = status;
      json_rpc_exception = some (json_rpc code message);
    };
    log = some json_rpc_validate_error;
  })
  deliver status (raised e) = raised e
  deliver status (fault u) = fault u

  -- The task of sendRequest after the POST.
  unfoldable pub on_result : HttpResult → Outcome Delivered
  unfolding validate_response map_error
  on_result (failed error) = ok (record {
    reply = record {
      response = some [];
      response_error = map_error error;
      status_code = pos 200;
      json_rpc_exception = none;
    };
    log = some update_info_communication_failed;
  })
  on_result (response status body) = deliver status (validate_response body)

  -- The posted task: over HTTPS it throws without a TLS context, and does nothing with one.
  unfoldable pub request_task :
      Scheme → (has_tls_context : Bool) → HttpResult → Outcome (Option Delivered)
  unfolding on_result
  request_task https false result =
      raised (not_implemented "https tls context not implemented for requests")
  request_task https true result = ok none
  request_task http has_tls_context result = do d ← on_result result; ok (some d)
