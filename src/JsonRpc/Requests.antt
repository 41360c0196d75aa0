-- ===== src/JsonRpc/Requests.antt =====
-- The body of a request, read back (createRequestFromCommands of src/jsonrpc/utils.cpp).
use nxos_dhcp6_exporter.Prelude.{String, ◌≡◌, refl, List, [], ◌∷◌, map, All}
use nxos_dhcp6_exporter.Prelude.Int.{ℤ}
use nxos_dhcp6_exporter.Outcome.{Outcome, ok, ◌>>=◌, traverse}
use nxos_dhcp6_exporter.Json.{JsonApi, JsonLaws, FitsInt}
use nxos_dhcp6_exporter.JsonRpc.{command_to_json, create_request_from_commands}

module _ (api : JsonApi) where
  open api use {Json, at_key, get_string, get_int, elements}

  -- What a server reads of one command: its id, and the text under "params" and "cmd".
  abbrev pub read_command : Json → Outcome (ℤ × String)
  read_command j = do
    id_value ← at_key j "id"
    id ← get_int id_value
    params ← at_key j "params"
    cmd ← at_key params "cmd"
    text ← get_string cmd
    ok (id, text)

  module _ (laws : JsonLaws api) where
    open laws use {at_object, string_string, int_int, elements_array}

    read-command :
        (id : ℤ) (text : String)
        → FitsInt id
        → read_command (command_to_json api (id, text)) ≡ ok (id, text)
    unfolding command_to_json
    read-command id text h = simp (at_object, string_string, int_int id h)

    read-commands :
        (cs : List (ℤ × String))
        → All (λ (c : ℤ × String). FitsInt c.0) cs
        → traverse read_command (map (command_to_json api) cs) ≡ ok cs
    unfolding traverse
    read-commands [] h = refl
    read-commands ((id, text) ∷ cs) (h, hs) = simp (read-command id text h, read-commands cs hs)

    -- The elements of a request of one command or more are its commands, in order and each with its id
    -- and text, where the ids fit an int.
    pub request_round_trip :
        (c : ℤ × String) (cs : List (ℤ × String))
        → All (λ (x : ℤ × String). FitsInt x.0) (c ∷ cs)
        → traverse read_command (elements (create_request_from_commands api (c ∷ cs))) ≡ ok (c ∷ cs)
    unfolding create_request_from_commands
    request_round_trip c cs h =
        simp (elements_array (map (command_to_json api) (c ∷ cs)), read-commands (c ∷ cs) h)
