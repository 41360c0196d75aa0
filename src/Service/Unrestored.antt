-- ===== src/Service/Unrestored.antt =====
-- The restoration where the switch answers in the shape in which the structs of the program are written.
use nxos_dhcp6_exporter.Prelude.{ℕ, String, ◌≡◌, refl, none, some, List, [], ◌∷◌, All}
use nxos_dhcp6_exporter.Prelude.Int.{pos}
use nxos_dhcp6_exporter.Outcome.{ok}
use nxos_dhcp6_exporter.Json.{JsonApi, JsonLaws}
use nxos_dhcp6_exporter.Json.Facts.{KnownBrace}
use nxos_dhcp6_exporter.JsonRpc.{JsonRpcResponse}
use nxos_dhcp6_exporter.Kea.{Kea, Lease, LeaseMgr, type_na}
use nxos_dhcp6_exporter.Nxos.{AdjObject}
use nxos_dhcp6_exporter.Nxos.Print.{neighbor_lookup_to_json}
use nxos_dhcp6_exporter.Run.{Reply, Run, success, done, logs, route_reinit_no_hwaddr_failed}
use nxos_dhcp6_exporter.Mgmt.Neighbor.{
  find_hwaddr, add_objects, read_neighbors, vrf_objects, deliver, neighbor_callback,
}
use nxos_dhcp6_exporter.Mgmt.Unseen.{one_table, neighbors_unseen}
use nxos_dhcp6_exporter.Service.{
  Config, restore_na, restore_by_type, restore_lease, restore_leases, restore_callback, subnet_ids,
  leases_of_subnets,
}

-- A lease of an address with the hardware address of its client.
pub record IsAddressLease {H : Type 0} (lease : Lease H) : Type 0 where
  pub hwaddr : H
  pub has_hwaddr : lease.hwaddr ≡ some hwaddr
  pub is_na : lease.lease_type ≡ type_na

-- A reply of the switch without error, whose first response has this body.
pub record HasBody (api : JsonApi) (reply : Reply api.Json) (body : api.Json) : Type 0 where
  pub first : JsonRpcResponse api.Json
  pub others : List (JsonRpcResponse api.Json)
  pub transport : reply.response_error ≡ success
  pub status : reply.status_code ≡ pos 200
  pub no_exception : reply.json_rpc_exception ≡ none
  pub has_response : reply.response ≡ some (first ∷ others)
  pub has_body : api.key_or_insert first.result "body" ≡ ok body

module _ (api : JsonApi) (kea : Kea) (db : LeaseMgr kea.HwAddr) (cfg : Config) where
  open api use {Json}
  open kea use {HwAddr}

  -- One message for each lease, and no request.
  abbrev pub messages_for : List (Lease HwAddr) → Run Json
  messages_for [] = done
  messages_for (lease ∷ rest) = logs route_reinit_no_hwaddr_failed (messages_for rest)

  nothing_mapped :
      (leases : List (Lease HwAddr))
      → All IsAddressLease leases
      → restore_leases api kea db [] leases ≡ messages_for leases
  unfolding restore_leases
  nothing_mapped [] h = refl
  nothing_mapped (lease ∷ rest) (h, hs) = simp (
    restore_lease,
    restore_by_type,
    restore_na,
    find_hwaddr,
    h.has_hwaddr,
    h.is_na,
    nothing_mapped rest hs,
  )

  -- The switch answers the lookup of a restoration with one VRF, in it one address family, and in it one
  -- table of one neighbour or more, in the shape in which the program itself writes these. All leases are
  -- of addresses, and brace initialisation has either of its two documented behaviours. Then no route is
  -- sent: each lease gives the message that its client is not in the map, whichever neighbours the
  -- table lists.
  pub addresses_unrestored :
      JsonLaws api
      → KnownBrace api
      → (reply : Reply Json) (vrf afi : String) (o : AdjObject) (l : List AdjObject) (ids : List ℕ)
      → HasBody api reply (neighbor_lookup_to_json api (one_table vrf afi (o ∷ l)))
      → subnet_ids cfg ≡ ok ids
      → All IsAddressLease (leases_of_subnets api kea db ids)
      → neighbor_callback kea api (restore_callback api kea db cfg) reply
        ≡ messages_for (leases_of_subnets api kea db ids)
  unfolding neighbor_callback read_neighbors deliver restore_callback add_objects vrf_objects
  addresses_unrestored laws known reply vrf afi o l ids h subnets addresses =
      rw
        (
          h.transport,
          h.status,
          h.no_exception,
          h.has_response,
          h.has_body,
          neighbors_unseen api laws known vrf afi o l,
          subnets,
        )
        (nothing_mapped (leases_of_subnets api kea db ids) addresses)
