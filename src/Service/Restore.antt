-- ===== src/Service/Restore.antt =====
-- Which routes restoreLeasesFromLeaseDatabase sends again.
use nxos_dhcp6_exporter.Prelude.{
  String, ◌≡◌, ◌≢◌, refl, ◌⊎◌, none, some, List, [], ◌∷◌, ◌++◌, map, All, arith, eq_iff,
}
use nxos_dhcp6_exporter.Prelude.Int.{pos}
use nxos_dhcp6_exporter.Outcome.{ok, out_of_bounds}
use nxos_dhcp6_exporter.Json.{JsonApi}
use nxos_dhcp6_exporter.JsonRpc.{handle_response}
use nxos_dhcp6_exporter.Kea.{Kea, Lease, LeaseMgr, type_na, type_pd}
use nxos_dhcp6_exporter.Run.{
  success, Reply, Run, done, faults, logs, posts, reports_failure, response_parse_error,
}
use nxos_dhcp6_exporter.Mgmt.Commands.{apply_route_command, host_text}
use nxos_dhcp6_exporter.Mgmt.Send.{request, handle_route_apply, send_routes_to_switch}
use nxos_dhcp6_exporter.Mgmt.Neighbor.{HwAddrMap, find_hwaddr, neighbor_callback}
use nxos_dhcp6_exporter.Http.{Delivered, response, on_result}
use nxos_dhcp6_exporter.Service.{
  Config, restore_lease, restore_by_type, restore_na, restore_leases, restore_callback,
}

module _ (api : JsonApi) (kea : Kea) (db : LeaseMgr kea.HwAddr) where
  open api use {Json}
  open kea use {HwAddr}

  -- A lease of a delegated prefix with a hardware address ends the restoration: the leases after it, of
  -- its subnet and of the later ones, make no difference.
  pub restore_stops :
      (m : HwAddrMap kea) (before after : List (Lease HwAddr)) (lease : Lease HwAddr)
      (hwaddr : HwAddr)
      → lease.hwaddr ≡ some hwaddr
      → lease.lease_type ≡ type_pd
      → restore_leases api kea db m (before ++ lease ∷ after)
        ≡ restore_leases api kea db m (before ++ lease ∷ [])
  unfolding restore_leases
  restore_stops m [] after lease hwaddr h t = rw (h, t)
  restore_stops m (x ∷ before) after lease hwaddr h t =
      rw (restore_stops m before after lease hwaddr h t)

  -- The address lease of a client whose interface the map names.
  pub record IsMapped (m : HwAddrMap kea) (lease : Lease HwAddr) (interface : String) : Type 0 where
    pub hwaddr : HwAddr
    pub has_hwaddr : lease.hwaddr ≡ some hwaddr
    pub is_na : lease.lease_type ≡ type_na
    pub in_map : find_hwaddr kea hwaddr m ≡ some interface

  -- One request for each lease, in order: the route of its address to its interface.
  abbrev pub host_routes : List (Lease HwAddr × String) → Run Json
  host_routes [] = done
  host_routes ((lease, interface) ∷ rest) =
      let src = host_text kea lease.addr in
      posts (request api ((pos 1, apply_route_command src interface) ∷ []))
        (handle_route_apply api src interface) (host_routes rest)

  -- Where every lease is one of an address and the map names the interface of its client, the routes of
  -- all of them are sent, each once, in the order of the database.
  pub addresses_restored :
      (m : HwAddrMap kea) (known : List (Lease HwAddr × String))
      → All (λ (p : Lease HwAddr × String). IsMapped m p.0 p.1) known
      → restore_leases api kea db m (map (λ (p : Lease HwAddr × String). p.0) known)
        ≡ host_routes known
  unfolding restore_leases send_routes_to_switch
  addresses_restored m [] h = refl
  addresses_restored m ((lease, interface) ∷ known) (h, hs) = simp (
    restore_lease,
    restore_by_type,
    restore_na,
    h.has_hwaddr,
    h.is_na,
    h.in_map,
    addresses_restored m known hs,
  )

  -- A reply that cannot be read as success reports the failure: the transport failed, or the status is
  -- not 200, or a JSON-RPC exception came with it. No route is sent.
  pub failed_mapping_reported :
      (cfg : Config) (reply : Reply Json)
      → (reply.response_error ≢ success)
        ⊎ (reply.status_code ≢ pos 200)
        ⊎ (reply.json_rpc_exception ≢ none)
      → let restored = neighbor_callback kea api (restore_callback api kea db cfg) reply in
        (restored ≡ reports_failure done)
        ⊎ (restored ≡ logs response_parse_error (reports_failure done))
  unfolding neighbor_callback restore_callback
  failed_mapping_reported cfg reply h = ground arith

  -- A body that is an empty JSON-RPC batch, with the status 200, reaches the callback of the neighbour
  -- lookup, which reads the first of no responses.
  pub empty_batch_faults :
      (cfg : Config) (body : String)
      → body ≢ ""
      → handle_response api body ≡ ok []
      → (d : Delivered api) × (on_result api (response (pos 200) body) ≡ ok d)
        × (neighbor_callback kea api (restore_callback api kea db cfg) d.reply
            ≡ faults out_of_bounds)
  unfolding neighbor_callback on_result
  empty_batch_faults cfg body full h = (
    record {
      reply = record {
        response = some [];
        response_error = success;
        status_code = pos 200;
        json_rpc_exception = none;
      };
      log = none;
    },
    ground (arith, h, full, eq_iff body ""),
    refl,
  )
