-- ===== src/Post/Response.antt =====
-- HttpResponseJsonRpc
use nxos_dhcp6_exporter.Prelude.{
  String, Bool, Option, none, some, [], ◌∷◌, ◌++◌, ◌||◌, str_eq, if◌then◌else◌,
}
use nxos_dhcp6_exporter.Outcome.{
  Outcome, ok, raised, fault, http_response_json_rpc_error, ◌>>=◌, ◌>>◌,
}
use nxos_dhcp6_exporter.Post.{
  Parts, HttpApi, Message, content_type, rethrow_as, finish, after_create, find_in,
}

module _ (api : HttpApi) where
  open api use {
    Element, str, from_json, map_of, text_element, int_element, StatusCode, is_client_error,
    is_server_error, status_number, status_text, create, base_reset, check_finalized,
  }

  -- HttpResponseJsonRpc(), on what the constructor of the base class leaves
  unfoldable pub new_received : Parts → Message api
  new_received base = record {
    parts = record base { headers = base.headers ++ content_type ∷ [] };
    json = none;
  }

  unfoldable pub set_body_as_json : Option Element → Message api → Message api
  set_body_as_json (some body) m = record {
    parts = record m.parts { body = str body };
    json = some body;
  }
  set_body_as_json none m = record { parts = record m.parts { body = "" }; json = none }

  -- setGenericBody
  unfoldable pub set_generic_body : StatusCode → Message api → Message api
  unfolding set_body_as_json
  set_generic_body code m =
      if is_client_error code || is_server_error code
      then set_body_as_json
          (some (
            map_of (
              ("result", int_element (status_number code))
              ∷ ("text", text_element (status_text code))
              ∷ [])))
          m
      else m

  -- The constructor with a version and a status.
  unfoldable pub new_with_status : Parts → StatusCode → (generic_body : Bool) → Message api
  unfolding new_received set_generic_body
  new_with_status base code generic_body =
      if generic_body then set_generic_body code (new_received base) else new_received base

  abbrev pub parsed : Message api → Outcome Element → Message api × Outcome (Unit {0})
  parsed m (ok json) = (record m { json = some json }, ok tt)
  parsed m (raised e) = (m, raised http_response_json_rpc_error)
  parsed m (fault u) = (m, fault u)

  -- parseBodyAsJson
  unfoldable pub parse_body_as_json : Message api → Message api × Outcome (Unit {0})
  parse_body_as_json m = elim m.json [
    | some json ↦ (m, ok tt)
    | none ↦ if str_eq m.parts.body "" then (m, ok tt) else parsed m (from_json m.parts.body)
  ]

  unfoldable pub finalize : Message api → Message api × Outcome (Unit {0})
  unfolding parse_body_as_json
  finalize m =
      if m.parts.created
      then finish api (parse_body_as_json m)
      else after_create api m (λ n. finish api (parse_body_as_json n)) (create m.parts)

  unfoldable pub reset : Message api → Message api
  reset m = record { parts = base_reset m.parts; json = none }

  unfoldable pub get_body_as_json : Message api → Outcome (Option Element)
  get_body_as_json m = do check_finalized m.parts.finalized; ok m.json

  unfoldable pub get_json_element : String → Message api → Outcome (Option Element)
  unfolding get_body_as_json
  get_json_element name m =
      rethrow_as http_response_json_rpc_error (do body ← get_body_as_json m; find_in api name body)
