-- ===== src/Tests/Whole.antt =====
-- The theorems on the parts together, at concrete inputs.
use nxos_dhcp6_exporter.Prelude.{
  ℕ, ◌≡◌, ◌⊎◌, refl, inl, true, false, none, some, List, [], ◌∷◌, ◌++◌, All,
}
use nxos_dhcp6_exporter.Prelude.Int.{pos}
use nxos_dhcp6_exporter.Outcome.{traverse}
use nxos_dhcp6_exporter.Json.Model.{Value, value_laws, value_wraps}
use nxos_dhcp6_exporter.Run.{success, Reply, done, logs, route_reinit_no_hwaddr_failed}
use nxos_dhcp6_exporter.Nxos.Print.{neighbor_lookup_to_json, uptime_to_json}
use nxos_dhcp6_exporter.Nxos.{AdjObject}
use nxos_dhcp6_exporter.Mgmt.Names.{is_valid_vlan_name, from_raw_cisco_string}
use nxos_dhcp6_exporter.Mgmt.Neighbor.{
  neighbor_callback, HwAddrMap, add_object, set_hwaddr, async_get_mapping, find_hwaddr,
  read_neighbors, add_objects, vrf_objects,
}
use nxos_dhcp6_exporter.Service.{
  restore_callback, restore_leases_from_database, subnet_ids, leases_of_subnets,
}
use nxos_dhcp6_exporter.JsonRpc.{IdType, handle_response}
use nxos_dhcp6_exporter.Mgmt.Unseen.{one_table}
use nxos_dhcp6_exporter.Service.Unrestored.{HasBody, addresses_unrestored}
use nxos_dhcp6_exporter.Heartbeat.{heartbeat_request, check_reply}
use nxos_dhcp6_exporter.Http.{failed, response, on_result}
use nxos_dhcp6_exporter.Http.Errors.{HttplibError}
use nxos_dhcp6_exporter.System.{System, Stimulus, ticks, happens, answers, expires, run, step}
use nxos_dhcp6_exporter.System.Losses.{IsLost, IsRestoring, loss_remembered}
use nxos_dhcp6_exporter.System.Failures.{failed_lookup_is_loss, restoration_forgotten}
use nxos_dhcp6_exporter.System.Recovery.{IsHealthy, IsMapping, host_call, recovery}
use nxos_dhcp6_exporter.System.Requests.{lookup-SendsOrReports}
use nxos_dhcp6_exporter.System.Batches.{request-IsBatch}
use nxos_dhcp6_exporter.System.Untouched.{IsQuiet, lease_events_keep_heartbeat}
use nxos_dhcp6_exporter.System.Waiting.{AllBatches, only_batches_wait}
use nxos_dhcp6_exporter.Nxos.Parse.{
  uptime_from_json, neighbor_lookup_from_json, row_vrf_neighbor_from_json, row_afi_from_json,
  row_adj_from_json, adj_object_from_json,
}
use nxos_dhcp6_exporter.Tests.Data.{sample_kea}
use nxos_dhcp6_exporter.Tests.Switch.{
  plain, object, uptime, api, seen_lease, db, config, lost, checking, restoring,
}

abbrev events : List (Stimulus ℕ)
events = answers 0 (failed HttplibError.connection) ∷ ticks ∷ happens (expires seen_lease) ∷ []

loss_remembered_example :
    IsLost (run api sample_kea db config events checking)
    ⊎ ((before : List (Stimulus ℕ)) × (after : List (Stimulus ℕ)) × (events ≡ before ++ after)
        × IsRestoring api sample_kea db config (run api sample_kea db config before checking))
loss_remembered_example =
    loss_remembered api sample_kea db config events checking
      (record { lost = refl; handled = refl })

only_batches_wait_example :
    AllBatches api sample_kea db config (run api sample_kea db config events restoring)
unfolding restore_leases_from_database async_get_mapping
only_batches_wait_example =
    only_batches_wait api sample_kea db config events restoring
      ((request-IsBatch api _, lookup-SendsOrReports api sample_kea db config), tt)

abbrev resting : System api.Json
resting = record checking { waiting = [] }

-- An event, and the failure of the request that it posts.
abbrev event_and_answer : List (Stimulus ℕ)
event_and_answer = happens (expires seen_lease) ∷ answers 0 (failed HttplibError.connection) ∷ []

lease_events_keep_heartbeat_example :
    ((run api sample_kea db config event_and_answer resting).heartbeat ≡ resting.heartbeat)
    × All
        (IsQuiet api sample_kea db config)
        (run api sample_kea db config event_and_answer resting).waiting
lease_events_keep_heartbeat_example =
    lease_events_keep_heartbeat api sample_kea db config event_and_answer resting (tt, (tt, tt)) tt

healthy : IsHealthy api sample_kea db config (response (pos 200) "uptime")
unfolding on_result check_reply handle_response uptime_to_json traverse uptime_from_json
healthy = record { delivered = _; got = refl; uptime = uptime; passed = refl }

abbrev mapping : HwAddrMap sample_kea
mapping = (103716912, "Vlan10") ∷ []

mapped : IsMapping api sample_kea db config (response (pos 200) "neighbors") mapping
unfolding on_result read_neighbors handle_response add_objects vrf_objects traverse
    neighbor_lookup_from_json row_vrf_neighbor_from_json row_afi_from_json row_adj_from_json
    adj_object_from_json add_object is_valid_vlan_name from_raw_cisco_string set_hwaddr
mapped = record {
  delivered = _;
  got = refl;
  transport = refl;
  status = refl;
  lookup = _;
  readable = refl;
  built = refl;
}

recovery_example :
    let t =
      run api sample_kea db config
        (answers 0 (response (pos 200) "uptime") ∷ answers 0 (response (pos 200) "neighbors") ∷ [])
        checking in
    (t.waiting ≡ host_call api sample_kea db config (seen_lease, "Vlan10") ∷ [])
    × (t.heartbeat.prev_lost_connection ≡ false)
unfolding subnet_ids leases_of_subnets find_hwaddr
recovery_example =
    recovery api sample_kea db config checking 0 (heartbeat_request api lost) []
      (response (pos 200) "uptime") (response (pos 200) "neighbors") mapping (1 ∷ [])
      ((seen_lease, "Vlan10") ∷ []) (record { lost = refl; handled = refl }) refl healthy mapped
      refl refl (record { hwaddr = 103716912; has_hwaddr = refl; is_na = refl; in_map = refl }, tt)

failed_lookup_is_loss_example :
    IsLost (step api sample_kea db config (answers 0 (failed HttplibError.connection)) restoring)
unfolding on_result
failed_lookup_is_loss_example =
    failed_lookup_is_loss api sample_kea db config restoring 0 [] (failed HttplibError.connection) _
      refl refl refl (inl (λ h. cc h))

abbrev seen : AdjObject
seen = record { intf_out = "Vlan10"; ipv6_addr = "2001:db8::2"; mac = "00.1" }

abbrev listing : Reply Value
listing = record {
  response = some (
      record {
        id = IdType.number (pos 1);
        result =
            object (
              ("body", neighbor_lookup_to_json plain (one_table "default" "ipv6" (seen ∷ [])))
              ∷ []);
      }
      ∷ []);
  response_error = success;
  status_code = pos 200;
  json_rpc_exception = none;
}

listing-HasBody :
    HasBody plain listing (neighbor_lookup_to_json plain (one_table "default" "ipv6" (seen ∷ [])))
listing-HasBody = record {
  first = _;
  others = [];
  transport = refl;
  status = refl;
  no_exception = refl;
  has_response = refl;
  has_body = refl;
}

addresses_unrestored_example :
    neighbor_callback sample_kea plain (restore_callback plain sample_kea db config) listing
    ≡ logs route_reinit_no_hwaddr_failed done
unfolding subnet_ids leases_of_subnets
addresses_unrestored_example =
    addresses_unrestored plain sample_kea db config (value_laws true) (inl value_wraps) listing
      "default" "ipv6" seen [] (1 ∷ []) listing-HasBody refl
      (record { hwaddr = 103716912; has_hwaddr = refl; is_na = refl }, tt)

restoration_forgotten_example :
    let t =
      run api sample_kea db config
        (answers 0 (response (pos 200) "uptime") ∷ answers 0 (response (pos 200) "") ∷ [])
        checking in
    (t.waiting ≡ []) × (t.heartbeat.prev_lost_connection ≡ false)
restoration_forgotten_example =
    restoration_forgotten api sample_kea db config checking 0 (heartbeat_request api lost) []
      (response (pos 200) "uptime") (pos 200) (record { lost = refl; handled = refl }) refl healthy
