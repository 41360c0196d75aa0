-- ===== src/Tests/Events.antt =====
-- The theorems on lease events, on the restoration and on the heartbeat, at concrete inputs.
use Prim.Native.String.{◌++◌ as ◌+++◌}
use nxos_dhcp6_exporter.Prelude.{
  ℕ, ◌+◌, ◌*◌, ◌≡◌, ◌≢◌, refl, inl, true, false, none, some, [], ◌∷◌, map, arith,
}
use nxos_dhcp6_exporter.Prelude.Int.{pos}
use nxos_dhcp6_exporter.Outcome.{ok}
use nxos_dhcp6_exporter.Kea.{find_ia_na_lease}
use nxos_dhcp6_exporter.Route.{ia_na_info, ia_pd_info}
use nxos_dhcp6_exporter.Nxos.{UptimeResponse}
use nxos_dhcp6_exporter.Run.{
  connection, Reply, logs, posts, lease6_select_insert, remove_info_on_device,
  update_info_on_device, done,
}
use nxos_dhcp6_exporter.Service.{Config, export_route, remove_route, restore_leases}
use nxos_dhcp6_exporter.Service.Restore.{restore_stops}
use nxos_dhcp6_exporter.Mgmt.Commands.{apply_route_command, remove_route_command, subnet_text}
use nxos_dhcp6_exporter.Mgmt.Send.{request, handle_route_remove, handle_route_apply}
use nxos_dhcp6_exporter.Mgmt.Neighbor.{HwAddrMap}
use nxos_dhcp6_exporter.Impl.{
  Query, route, original_prefix, handle_lease6_select, handle_lease6_release, handle_lease6_decline,
  handle_renew_rebind_process,
}
use nxos_dhcp6_exporter.Impl.Renewal.{release_undoes_select, prefix_renewal_keeps_route}
use nxos_dhcp6_exporter.Heartbeat.{Heartbeat, uptime_seconds}
use nxos_dhcp6_exporter.Heartbeat.Rules.{
  restorations, checks, after_failures, one_restoration, uptime_seconds_exact,
}
use nxos_dhcp6_exporter.Tests.Data.{
  sample_kea, sample_db, api, relay, client_addr, prefix_addr, na_lease, pd_lease,
}

abbrev mapping : HwAddrMap sample_kea
mapping = (5, "Vlan10") ∷ []

restore_stops_example :
    restore_leases api sample_kea sample_db mapping (na_lease ∷ pd_lease ∷ na_lease ∷ [])
    ≡ restore_leases api sample_kea sample_db mapping (na_lease ∷ pd_lease ∷ [])
restore_stops_example =
    restore_stops api sample_kea sample_db mapping (na_lease ∷ []) (na_lease ∷ []) pd_lease 5 refl
      refl

abbrev unreachable : Reply api.Json
unreachable = record {
  response = some [];
  response_error = connection;
  status_code = pos 200;
  json_rpc_exception = none;
}

abbrev config : Config
config = record { current_cfg = some (some (some (1 ∷ []))) }

-- The client asks to keep the prefix 4, and the address 3.
abbrev query : Query
query = record {
  relay6_link_address = ok relay;
  transid = 9;
  ia_na = some (record { ia_addr = some (some 3); ia_prefix = none });
  ia_pd = some (record { ia_addr = none; ia_prefix = some (some (4, 48)) });
}

release_undoes_select_example :
    let r = route api sample_kea 9 na_lease (ia_na_info relay client_addr) in
    (handle_lease6_select api sample_kea sample_db query na_lease false
      ≡ logs lease6_select_insert (export_route api sample_kea r))
    × (handle_lease6_release api sample_kea sample_db query na_lease
        ≡ remove_route api sample_kea sample_db r)
    × (handle_lease6_decline api sample_kea sample_db (some query) na_lease
        ≡ remove_route api sample_kea sample_db r)
release_undoes_select_example =
    release_undoes_select api sample_kea sample_db query relay na_lease
      (ia_na_info relay client_addr) refl (inl (refl, refl))

prefix_renewal_keeps_route_example :
    let src = subnet_text sample_kea 4 48 in
    let new = route api sample_kea 9 pd_lease (ia_pd_info client_addr prefix_addr 48) in
    let old = route api sample_kea 9 pd_lease (ia_pd_info client_addr 4 48) in
    let removal = remove_route_command src "fe80::1" in
    (handle_renew_rebind_process api sample_kea false sample_db query pd_lease false
      ≡ logs remove_info_on_device (
          posts
            (request api ((pos 1, removal) ∷ []))
            (handle_route_remove api src "fe80::1")
            (export_route api sample_kea new)))
    × (export_route api sample_kea old
        ≡ logs update_info_on_device (
            posts
              (request api ((pos 1, apply_route_command src "2001:db8::2") ∷ []))
              (handle_route_apply api src "2001:db8::2")
              done))
    × (removal ≡ "no " +++ apply_route_command src "fe80::1")
    × (removal ≢ "no " +++ apply_route_command src "2001:db8::2")
unfolding original_prefix find_ia_na_lease
prefix_renewal_keeps_route_example =
    prefix_renewal_keeps_route api sample_kea sample_db query relay pd_lease false 4 48 na_lease
      refl refl refl (λ h. ground (arith, h)) (λ h. cc)

abbrev service : Heartbeat
service = record {
  has_failed_handler = false;
  has_restored_handler = true;
  heartbeat_interval_secs = 30;
  prev_uptime_secs = 100;
  prev_lost_connection = false;
}

abbrev up : ℕ → UptimeResponse
up s = record {
  kern_uptm_days = pos 0;
  kern_uptm_hrs = pos 0;
  kern_uptm_mins = pos 1;
  kern_uptm_secs = pos s;
}

abbrev lost : Heartbeat
lost = record service { prev_lost_connection = true }

one_restoration_example :
    restorations (checks api lost (after_failures 2 (some (up 1) ∷ map some (up 2 ∷ up 2 ∷ [])))).1
    ≡ 1
unfolding uptime_seconds
one_restoration_example =
    one_restoration api 2 lost (up 1) (up 2 ∷ up 2 ∷ []) refl refl (omega arith, (omega arith, tt))

uptime_seconds_exact_example : uptime_seconds (up 2) ≡ 2 + 1 * 60 + 0 * 3600 + 0 * 86400
uptime_seconds_exact_example =
    uptime_seconds_exact 0 0 1 2 (omega arith) (omega arith) (omega arith) (omega arith)
