-- ===== src/Tests/Leases.antt =====
-- The theorems on the life of a lease, at concrete inputs.
use Prim.Native.String.{◌++◌ as ◌+++◌}
use nxos_dhcp6_exporter.Mgmt.Send.{request, handle_route_remove}
use nxos_dhcp6_exporter.Route.{to_string}
use nxos_dhcp6_exporter.System.Unset.{selection_answered, Settles, named_by}
use nxos_dhcp6_exporter.System.Prefixes.{prefix_life}
use nxos_dhcp6_exporter.Prelude.{arith, ℕ, String, ◌≡◌, refl, false, none, some, [], ◌∷◌, ◌++◌}
use nxos_dhcp6_exporter.Prelude.Int.{pos}
use nxos_dhcp6_exporter.Outcome.{traverse, ok}
use nxos_dhcp6_exporter.Json.Model.{Value}
use nxos_dhcp6_exporter.Kea.{find_ia_na_lease}
use nxos_dhcp6_exporter.JsonRpc.{handle_response}
use nxos_dhcp6_exporter.Http.{response, on_result}
use nxos_dhcp6_exporter.System.{
  declines, Pending, call, renews, selects, releases, Stimulus, happens, answers, run, step,
}
use nxos_dhcp6_exporter.Impl.{Query, original_address}
use nxos_dhcp6_exporter.Mgmt.Commands.{apply_route_command, subnet_text, host_text}
use nxos_dhcp6_exporter.Mgmt.Lookup.{read_route_lookup, relay_interface}
use nxos_dhcp6_exporter.System.Leases.{lease_life}
use nxos_dhcp6_exporter.System.Lookups.{IsNamed, set_call, remove_call, lookup_set}
use nxos_dhcp6_exporter.System.Renewals.{IsMoved, renewal_replaces}
use nxos_dhcp6_exporter.Nxos.Parse.{
  route_lookup_from_json, row_vrf_from_json, row_addr_from_json, row_prefix_from_json,
  row_path_from_json,
}
use nxos_dhcp6_exporter.Tests.Data.{sample_kea, pd_lease}
use nxos_dhcp6_exporter.Tests.Switch.{api, seen_lease, db, config, checking}

abbrev query : Query
query = record { relay6_link_address = ok 1; transid = 9; ia_na = none; ia_pd = none }

named : IsNamed api sample_kea db config (response (pos 200) "route") "Vlan10"
unfolding on_result handle_response read_route_lookup relay_interface traverse
    route_lookup_from_json row_vrf_from_json row_addr_from_json row_prefix_from_json
    row_path_from_json
named = record { delivered = _; got = refl; lookup = _; readable = refl; named = refl }

lease_life_example :
    let answer : Stimulus ℕ = answers 1 (response (pos 200) "route") in
    let set =
      run api sample_kea db config
        (happens (selects query seen_lease false) ∷ answer ∷ [])
        checking in
    let unset =
      run api sample_kea db config (happens (releases query seen_lease) ∷ answer ∷ []) checking in
    ((set.waiting
        ≡ checking.waiting ++ set_call api sample_kea db config "2001:db8::2/128" "Vlan10" ∷ [])
      × (set.heartbeat ≡ checking.heartbeat))
    × ((unset.waiting
          ≡ checking.waiting
            ++ remove_call api sample_kea db config "2001:db8::2/128" "Vlan10" ∷ [])
        × (unset.heartbeat ≡ checking.heartbeat))
unfolding host_text
lease_life_example =
    lease_life api sample_kea db config checking query 1 seen_lease (response (pos 200) "route")
      "Vlan10" refl refl named

-- The client asks to keep the address 3.
abbrev asking : Query
asking = record query { ia_na = some (record { ia_addr = some (some 3); ia_prefix = none }) }

moved : IsMoved api sample_kea db config asking 1 3 seen_lease (ok asking.ia_na) (ok none)
unfolding original_address
moved = record {
  link = refl;
  has_ia_na = refl;
  ia_pd_read = false;
  has_ia_pd = refl;
  asked = refl;
  moved = λ h. ground (arith, h);
}

renewal_replaces_example :
    let route = response (pos 200) "route" in
    let renewal : Stimulus ℕ = happens (renews asking seen_lease (ok asking.ia_na) (ok none)) in
    let removal = remove_call api sample_kea db config "2001:db8:1::/128" "Vlan10" in
    let setting = set_call api sample_kea db config "2001:db8::2/128" "Vlan10" in
    ((run api sample_kea db config
        (renewal ∷ answers 1 route ∷ answers 1 route ∷ [])
        checking).waiting
      ≡ checking.waiting ++ removal ∷ setting ∷ [])
    × ((run api sample_kea db config
          (renewal ∷ answers 2 route ∷ answers 1 route ∷ [])
          checking).waiting
        ≡ checking.waiting ++ setting ∷ removal ∷ [])
unfolding host_text
renewal_replaces_example =
    renewal_replaces api sample_kea db config checking asking 1 3 seen_lease (ok asking.ia_na)
      (ok none) (response (pos 200) "route") (response (pos 200) "route") "Vlan10" "Vlan10" moved
      named named

prefix_life_example :
    let src : String = "2001:db8:1::/48" in
    let removal : Pending Value =
      call
        (request api ((pos 1, "no " +++ apply_route_command src "2001:db8::2") ∷ []))
        (handle_route_remove api src "2001:db8::2") in
    let set = step api sample_kea db config (happens (selects query pd_lease false)) checking in
    let unset = step api sample_kea db config (happens (releases query pd_lease)) checking in
    let declined =
      step api sample_kea db config (happens (declines (some query) pd_lease)) checking in
    ((set.waiting ≡ checking.waiting ++ set_call api sample_kea db config src "2001:db8::2" ∷ [])
      × (set.heartbeat ≡ checking.heartbeat))
    × ((unset.waiting ≡ checking.waiting ++ removal ∷ []) × (unset.heartbeat ≡ checking.heartbeat))
    × ((declined.waiting ≡ checking.waiting ++ removal ∷ [])
        × (declined.heartbeat ≡ checking.heartbeat))
unfolding subnet_text find_ia_na_lease to_string
prefix_life_example =
    prefix_life api sample_kea db config checking query 1 pd_lease seen_lease refl refl refl

selection_answered_example :
    let selection : Stimulus ℕ = happens (selects query seen_lease false) in
    ((step api sample_kea db config selection checking).waiting
      ≡ checking.waiting ++ lookup_set api sample_kea db config 1 2 ∷ [])
    × Settles api sample_kea db config (ok "Vlan10") 2 checking (
        run api sample_kea db config
          (selection ∷ answers 1 (response (pos 200) "route") ∷ [])
          checking)
unfolding named_by on_result handle_response read_route_lookup relay_interface traverse
    route_lookup_from_json row_vrf_from_json row_addr_from_json row_prefix_from_json
    row_path_from_json
selection_answered_example =
    selection_answered api sample_kea db config checking query 1 seen_lease
      (response (pos 200) "route") refl refl
