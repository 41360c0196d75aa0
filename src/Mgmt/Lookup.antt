-- ===== src/Mgmt/Lookup.antt =====
-- How src/nxos_management_client.cpp reads the answer to a route lookup.
use nxos_dhcp6_exporter.Prelude.{
  String, Bool, true, Option, none, some, List, [], ◌∷◌, if◌then◌else◌,
}
use nxos_dhcp6_exporter.Outcome.{
  Outcome, ok, raised, fault, bad_value, unexpected, empty_optional, out_of_bounds, ◌>>=◌,
}
use nxos_dhcp6_exporter.Json.{JsonApi}
use nxos_dhcp6_exporter.JsonRpc.{JsonRpcResponse}
use nxos_dhcp6_exporter.Nxos.{RowPath, RowPrefix, RouteLookupResponse}
use nxos_dhcp6_exporter.Nxos.Parse.{route_lookup_from_json}
use nxos_dhcp6_exporter.Run.{Reply}
use nxos_dhcp6_exporter.Mgmt.Names.{is_valid_vlan_name}

-- `v.size() != 1` throws; else the code goes on with `v[0]`.
unfoldable pub only_row {ℓ} : {A : Type ℓ} → String → List A → Outcome A
only_row message (x ∷ []) = ok x
only_row message _ = raised (bad_value message)

-- `!has_value() && table_prefix->size() != 1`, then `(*table_prefix)[0]`: the test reads the size of an
-- absent table, and none of a table that is there.
unfoldable pub first_prefix : Option (List RowPrefix) → Outcome RowPrefix
first_prefix none = fault empty_optional
first_prefix (some []) = fault out_of_bounds
first_prefix (some (row ∷ _)) = ok row

-- The checks that the four callbacks share, up to the row of paths.
unfoldable pub single_path : RouteLookupResponse → Outcome RowPath
unfolding only_row first_prefix
single_path lookup = do
  vrf ← only_row "field \"TABLE_vrf\" of response does not contain exactly 1 item" lookup.table_vrf
  addrf ←
      only_row "field \"TABLE_addrf\" of response does not contain exactly 1 item" vrf.table_addrf
  prefix ← first_prefix addrf.table_prefix
  only_row "field \"TABLE_path\" does not contain exactly 1 item" prefix.table_path

-- std::find_if with `has_value()` and a further test, and `**resultIt`
unfoldable pub find_value : (String → Bool) → String → List (Option String) → Outcome String
find_value test message [] = raised (bad_value message)
find_value test message (none ∷ l) = find_value test message l
find_value test message (some s ∷ l) = if test s then ok s else find_value test message l

-- The interface of a relay address (sendRoutesToSwitch and removeRoutesFromSwitch).
unfoldable pub relay_interface : RouteLookupResponse → Outcome String
unfolding single_path find_value
relay_interface lookup = do
  path ← single_path lookup
  find_value (λ _. true) "vlan interface id is empty" path.ifname

-- The interface of a leased address (the fuzzy removal of IA_NA).
unfoldable pub lease_interface : RouteLookupResponse → Outcome String
unfolding single_path find_value is_valid_vlan_name
lease_interface lookup = do
  path ← single_path lookup
  find_value is_valid_vlan_name "can't find vlan interface id" path.ifname

-- The next hop of a delegated prefix (the fuzzy removal of IA_PD).
unfoldable pub lease_nexthop : RouteLookupResponse → Outcome String
unfolding single_path find_value
lease_nexthop lookup = do
  path ← single_path lookup
  find_value (λ _. true) "can't find IA_NA address" path.ipnexthop

module _ (api : JsonApi) where
  open api use {Json, key_or_insert}

  -- `!response || (response && response->empty())` throws; else `response->front()`
  unfoldable pub front_of :
      String → Option (List (JsonRpcResponse Json)) → Outcome (JsonRpcResponse Json)
  front_of message none = raised (unexpected message)
  front_of message (some []) = raised (unexpected message)
  front_of message (some (r ∷ _)) = ok r

  abbrev pub front_response : String → Reply Json → Outcome (JsonRpcResponse Json)
  front_response message reply = front_of message reply.response

  -- The try block of asyncLookupAddressInternal.
  unfoldable pub read_route_lookup : Reply Json → Outcome RouteLookupResponse
  unfolding front_of
  read_route_lookup reply = do
    r ← front_response "received empty response" reply
    body ← key_or_insert r.result "body"
    route_lookup_from_json api body
