-- ===== src/Tests/Rpc.antt =====
-- The theorems on JSON-RPC and on the structs of the switch, at concrete inputs.
use Prim.Native.String.{◌++◌ as ◌+++◌}
use nxos_dhcp6_exporter.JsonRpc.Exception.{
  KindOfText, new_exception, new_exception_with_data, text_of_exception,
}
use nxos_dhcp6_exporter.Prelude.{String, ◌≡◌, refl, true, none, some, List, [], ◌∷◌, map, arith}
use nxos_dhcp6_exporter.Prelude.Int.{pos, negsuc}
use nxos_dhcp6_exporter.Outcome.{ok, traverse}
use nxos_dhcp6_exporter.Json.Model.{Value, str, num, value_laws, value_wraps}
use nxos_dhcp6_exporter.JsonRpc.{
  IdType, JsonRpcResponse, id_from_json, handle_document, create_request_from_commands,
}
use nxos_dhcp6_exporter.JsonRpc.Requests.{read_command, request_round_trip}
use nxos_dhcp6_exporter.JsonRpc.Batch.{IsResponse, batch_read}
use nxos_dhcp6_exporter.JsonRpc.Errors.{IsError}
use nxos_dhcp6_exporter.Nxos.{UptimeResponse}
use nxos_dhcp6_exporter.Nxos.Parse.{uptime_from_json}
use nxos_dhcp6_exporter.Nxos.Print.{uptime_to_json}
use nxos_dhcp6_exporter.Nxos.RoundTrip.{uptime_round_trip}
use nxos_dhcp6_exporter.Nxos.Wire.{Hop}
use nxos_dhcp6_exporter.Tests.Data.{api}

abbrev object : List (String × Value) → Value
object l = api.object_of l

-- {"id": 1, "result": "x"}
abbrev answer : List (String × Value)
answer = ("id", num (pos 1)) ∷ ("result", str "x") ∷ []

abbrev answer_read : JsonRpcResponse Value
answer_read = record { id = IdType.number (pos 1); result = str "x" }

answer-IsResponse : IsResponse api answer answer_read
unfolding id_from_json
answer-IsResponse = record {
  id_value = num (pos 1);
  no_error = refl;
  has_id = refl;
  id_read = refl;
  has_result = refl;
}

-- {"error": {"code": -32001, "message": "no"}}
abbrev refusal : List (String × Value)
refusal = ("error", object (("code", num (negsuc 32000)) ∷ ("message", str "no") ∷ [])) ∷ []

refusal-IsError : IsError api refusal (negsuc 32000) "no"
refusal-IsError = record {
  error = ("code", num (negsuc 32000)) ∷ ("message", str "no") ∷ [];
  code_value = num (negsuc 32000);
  has_error = refl;
  has_code = refl;
  code_type = refl;
  code_read = refl;
  has_message = refl;
}

batch_read_example :
    handle_document api (api.array_of (map api.object_of (answer ∷ answer ∷ [])))
    ≡ ok (answer_read ∷ answer_read ∷ [])
batch_read_example =
    batch_read api (value_laws true) (answer ∷ answer ∷ []) (answer_read ∷ answer_read ∷ [])
      (answer-IsResponse, (answer-IsResponse, tt)) value_wraps

request_round_trip_example :
    traverse
      (read_command api)
      (api.elements (create_request_from_commands api ((pos 1, "show version") ∷ [])))
    ≡ ok ((pos 1, "show version") ∷ [])
request_round_trip_example =
    request_round_trip api (value_laws true) (pos 1, "show version") []
      ((omega arith, omega arith), tt)

abbrev uptime : UptimeResponse
uptime = record {
  kern_uptm_days = pos 3;
  kern_uptm_hrs = pos 2;
  kern_uptm_mins = pos 1;
  kern_uptm_secs = pos 59;
}

uptime_round_trip_example : uptime_from_json api (uptime_to_json api uptime) ≡ ok uptime
uptime_round_trip_example =
    uptime_round_trip api (value_laws true) uptime (omega arith, omega arith)
      (omega arith, omega arith) (omega arith, omega arith) (omega arith, omega arith)

abbrev hop : Hop
hop = record { interface = some "Vlan10"; nexthop = none }

-- {"code": -32001, "message": "no", "data": "why"}
abbrev error_fields : List (String × Value)
error_fields = ("code", num (negsuc 32000)) ∷ ("message", str "no") ∷ ("data", str "why") ∷ []

text_of_exception_example :
    (kind : String) × KindOfText (negsuc 32000) kind
    × ((new_exception api (λ j. "\"why\"") (negsuc 32000) "no").err ≡ kind +++ ": no")
    × ((new_exception_with_data api (λ j. "\"why\"") (negsuc 32000) "no" (str "why")).err
        ≡ (kind +++ ": no") +++ ", data: \"why\"")
text_of_exception_example = text_of_exception api (λ j. "\"why\"") (negsuc 32000) "no" (str "why")
