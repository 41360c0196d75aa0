-- ===== src/Post/Request.antt =====
-- PostHttpRequestJsonRpc
use nxos_dhcp6_exporter.Prelude.{
  String, Option, none, some, [], ◌∷◌, ◌++◌, ◌&&◌, not, str_eq, if◌then◌else◌,
}
use nxos_dhcp6_exporter.Outcome.{
  Outcome, ok, raised, fault, http_request_json_rpc_error, ◌>>=◌, ◌>>◌,
}
use nxos_dhcp6_exporter.Post.{
  Parts, HttpApi, Message, content_type, rethrow_as, finish, after_create, find_in,
}

module _ (api : HttpApi) where
  open api use {
    Element, str, from_json, is_map, set, text_element, create, base_reset, check_finalized,
  }

  -- PostHttpRequestJsonRpc(), on what the constructor of the base class leaves
  unfoldable pub new_received : Parts → Message api
  new_received base = record {
    parts = record base { required = base.required ++ content_type ∷ [] };
    json = none;
  }

  -- The constructor with a method, a URI and a version.
  unfoldable pub new_sent : Parts → Message api
  new_sent base = record {
    parts = record base {
      required = base.required ++ content_type ∷ [];
      headers = base.headers ++ content_type ∷ [];
    };
    json = none;
  }

  -- The parsed body, with the remote address where it is known and the body is a map.
  abbrev pub with_remote : String → Element → Element
  with_remote remote json =
      if not (str_eq remote "") && is_map json
      then set json "remote-address" (text_element remote)
      else json

  abbrev pub parsed : Message api → Outcome Element → Message api × Outcome (Unit {0})
  parsed m (ok json) = (record m { json = some (with_remote m.parts.remote json) }, ok tt)
  parsed m (raised e) = (m, raised http_request_json_rpc_error)
  parsed m (fault u) = (m, fault u)

  -- parseBodyAsJson
  unfoldable pub parse_body_as_json : Message api → Message api × Outcome (Unit {0})
  parse_body_as_json m = elim m.json [
    | some json ↦ (m, ok tt)
    | none ↦ if str_eq m.parts.body "" then (m, ok tt) else parsed m (from_json m.parts.body)
  ]

  unfoldable pub finalize : Message api → Message api × Outcome (Unit {0})
  unfolding parse_body_as_json
  finalize m =
      if m.parts.created
      then finish api (parse_body_as_json m)
      else after_create api m (λ n. finish api (parse_body_as_json n)) (create m.parts)

  unfoldable pub reset : Message api → Message api
  reset m = record { parts = base_reset m.parts; json = none }

  unfoldable pub get_body_as_json : Message api → Outcome (Option Element)
  get_body_as_json m = do check_finalized m.parts.finalized; ok m.json

  -- A null body clears the text and keeps the parsed body.
  unfoldable pub set_body_as_json : Option Element → Message api → Message api
  set_body_as_json (some body) m = record {
    parts = record m.parts { body = str body };
    json = some body;
  }
  set_body_as_json none m = record m { parts = record m.parts { body = "" } }

  unfoldable pub get_json_element : String → Message api → Outcome (Option Element)
  unfolding get_body_as_json
  get_json_element name m =
      rethrow_as http_request_json_rpc_error (do body ← get_body_as_json m; find_in api name body)
