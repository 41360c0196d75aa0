-- ===== src/Tests/Client.antt =====
-- The theorems on the management client and on the HTTP client, at concrete inputs.
use nxos_dhcp6_exporter.Prelude.{◌≡◌, ◌↔◌, ◌⊎◌, refl, true, none, some, [], ◌∷◌, codes}
use nxos_dhcp6_exporter.Prelude.Int.{pos}
use nxos_dhcp6_exporter.Outcome.{ok}
use nxos_dhcp6_exporter.Nxos.{AdjObject}
use nxos_dhcp6_exporter.Run.{
  success, connection, Reply, done, logs, route_apply_failed, route_apply_success,
  route_remove_failed, route_remove_success, update_info_communication_failed,
}
use nxos_dhcp6_exporter.Mgmt.Names.{
  matches_vlan, is_valid_vlan_name, from_raw_cisco_string, mac_loop,
}
use nxos_dhcp6_exporter.Mgmt.Lookup.{single_path}
use nxos_dhcp6_exporter.Mgmt.Send.{handle_route_apply, handle_route_remove}
use nxos_dhcp6_exporter.Mgmt.Neighbor.{find_hwaddr, set_hwaddr, add_object, add_objects}
use nxos_dhcp6_exporter.Mgmt.Spelling.{
  IsVlanName, matches_vlan_iff, without_dots, colon_pairs, mac_loop-pairs,
}
use nxos_dhcp6_exporter.Mgmt.Status.{IsSuccess, route_result}
use nxos_dhcp6_exporter.Mgmt.Mapping.{reported, add_objects-reported}
use nxos_dhcp6_exporter.Mgmt.Answers.{IsAnswer, single_path_iff}
use nxos_dhcp6_exporter.Http.{Delivered, split_secret}
use nxos_dhcp6_exporter.Http.Results.{split_secret_round_trip}
use nxos_dhcp6_exporter.Tests.Data.{sample_kea, api, sample_path, sample_lookup}

abbrev unauthorized : Reply api.Json
unauthorized = record {
  response = some [];
  response_error = success;
  status_code = pos 401;
  json_rpc_exception = none;
}

route_result_example :
    (IsSuccess api unauthorized
      × (handle_route_apply api "a" "b" unauthorized ≡ logs (route_apply_success "a" "b") done)
      × (handle_route_remove api "a" "b" unauthorized ≡ logs (route_remove_success "a" "b") done))
    ⊎ ((¬ IsSuccess api unauthorized)
        × (handle_route_apply api "a" "b" unauthorized ≡ logs (route_apply_failed "a" "b") done)
        × (handle_route_remove api "a" "b" unauthorized ≡ logs (route_remove_failed "a" "b") done))
route_result_example = route_result api "a" "b" unauthorized

abbrev neighbor : AdjObject
neighbor = record { intf_out = "Vlan10"; ipv6_addr = "2001:db8::2"; mac = "00.1" }

add_objects-reported_example :
    find_hwaddr sample_kea 5 ((103716912, "Vlan10") ∷ [])
    ≡ reported sample_kea 5 (neighbor ∷ []) (find_hwaddr sample_kea 5 [])
unfolding add_objects add_object set_hwaddr is_valid_vlan_name from_raw_cisco_string
add_objects-reported_example =
    add_objects-reported sample_kea 5 (neighbor ∷ []) [] ((103716912, "Vlan10") ∷ []) refl

single_path_iff_example :
    (single_path sample_lookup ≡ ok sample_path) ↔ IsAnswer sample_lookup sample_path
single_path_iff_example = single_path_iff sample_lookup sample_path

matches_vlan_iff_example : (matches_vlan (codes "vLan10") ≡ true) ↔ IsVlanName (codes "vLan10")
matches_vlan_iff_example = matches_vlan_iff (codes "vLan10")

mac_loop-pairs_example :
    mac_loop 0 (codes "0050.5686") ≡ colon_pairs (without_dots (codes "0050.5686"))
mac_loop-pairs_example = mac_loop-pairs (codes "0050.5686")

split_secret_round_trip_example :
    split_secret (97 ∷ 98 ∷ b':' ∷ 99 ∷ b':' ∷ []) ≡ some (97 ∷ 98 ∷ [], 99 ∷ b':' ∷ [])
split_secret_round_trip_example =
    split_secret_round_trip (97 ∷ 98 ∷ []) (99 ∷ b':' ∷ []) (refl, (refl, tt))

abbrev refused : Delivered api
refused = record {
  reply = record {
    response = some [];
    response_error = connection;
    status_code = pos 200;
    json_rpc_exception = none;
  };
  log = some update_info_communication_failed;
}
