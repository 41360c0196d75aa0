-- ===== src/Service.antt =====
-- src/dhcp6_exporter_service.cpp: routes on their way to the management client, and the routes that
-- are sent again when a connection is back.
pub mod Restore
pub mod Unrestored
use nxos_dhcp6_exporter.Prelude.{ℕ, Bool, Option, none, some, List, [], ◌∷◌, ◌++◌, if◌then◌else◌}
use nxos_dhcp6_exporter.Outcome.{Outcome, ok, raised, unexpected, null_pointer}
use nxos_dhcp6_exporter.Json.{JsonApi}
use nxos_dhcp6_exporter.Kea.{
  Kea, Lease, LeaseMgr, LeaseType, type_na, type_ta, type_pd, type_v4, find_ia_na_lease,
}
use nxos_dhcp6_exporter.Route.{RouteExport, ia_na_fast, ia_pd_info}
use nxos_dhcp6_exporter.Run.{
  update_info_on_device, remove_info_on_device, route_reinit_no_hwaddr_failed,
  route_reinit_ia_na_lease_failed, Run, done, throws, faults, logs, reports_failure, ◌▷◌,
  bind_outcome,
}
use nxos_dhcp6_exporter.Mgmt.Send.{send_routes_to_switch}
use nxos_dhcp6_exporter.Mgmt.Remove.{remove_routes_from_switch}
use nxos_dhcp6_exporter.Mgmt.Neighbor.{HwAddrMap, find_hwaddr, async_get_mapping}

-- What the loop over leases does next: `return` leaves the callback, and with it both loops.
pub data Next : Type 0 where
  next_lease leave_callback : Next

-- CfgMgr's list of subnets, where each pointer on the way may be null.
pub record Config : Type 0 where
  pub current_cfg : Option (Option (Option (List ℕ)))

unfoldable pub subnet_ids : Config → Outcome (List ℕ)
subnet_ids cfg = elim cfg.current_cfg [
  | none ↦ raised (unexpected "can't get current config for DHCPv6 server")
  | some none ↦ raised (unexpected "can't get config subnet6 list")
  | some (some none) ↦ raised (unexpected "can't get subnet6 list")
  | some (some (some ids)) ↦ ok ids
]

module _ (api : JsonApi) (kea : Kea) where
  open api use {Json}
  open kea use {HwAddr}

  -- DHCP6ExporterService::exportRoute
  unfoldable pub export_route : RouteExport → Run Json
  export_route route = logs update_info_on_device (send_routes_to_switch api kea route.route_info)

  -- DHCP6ExporterService::removeRoute
  unfoldable pub remove_route : LeaseMgr HwAddr → RouteExport → Run Json
  remove_route db route = logs remove_info_on_device (remove_routes_from_switch api kea db route)

  -- The route of an IA_NA lease with this hardware address.
  unfoldable pub restore_na : HwAddrMap kea → HwAddr → Lease HwAddr → Run Json
  unfolding find_hwaddr
  restore_na mapping hwaddr lease = elim (find_hwaddr kea hwaddr mapping) [
    | some if_name ↦ send_routes_to_switch api kea (ia_na_fast if_name lease.addr)
    | none ↦ logs route_reinit_no_hwaddr_failed done
  ]

  -- The route of an IA_PD lease.
  unfoldable pub restore_pd : LeaseMgr HwAddr → Lease HwAddr → Run Json
  restore_pd db lease = elim (find_ia_na_lease db lease.duid lease.iaid) [
    | some entry ↦ send_routes_to_switch api kea (ia_pd_info entry.addr lease.addr lease.prefixlen)
    | none ↦ elim lease.duid [  -- the message has the text of the DUID
      | none ↦ faults null_pointer
      | some duid ↦ logs route_reinit_ia_na_lease_failed done
    ]
  ]

  -- The switch on the type of a lease; its IA_PD case ends with `return`.
  unfoldable pub restore_by_type :
      LeaseMgr HwAddr → HwAddrMap kea → HwAddr → Lease HwAddr → LeaseType → Run Json × Next
  unfolding restore_na restore_pd
  restore_by_type db mapping hwaddr lease type_na = (restore_na mapping hwaddr lease, next_lease)
  restore_by_type db mapping hwaddr lease type_pd = (restore_pd db lease, leave_callback)
  restore_by_type db mapping hwaddr lease type_ta = (done, next_lease)
  restore_by_type db mapping hwaddr lease type_v4 = (done, next_lease)

  -- The body of the loop over the leases of a subnet.
  unfoldable pub restore_lease : LeaseMgr HwAddr → HwAddrMap kea → Lease HwAddr → Run Json × Next
  unfolding restore_by_type
  restore_lease db mapping lease = elim lease.hwaddr [
    | none ↦ (throws (unexpected "can't recover route for lease without HWAddr"), next_lease)
    | some hwaddr ↦ restore_by_type db mapping hwaddr lease lease.lease_type
  ]

  -- After one lease: leave the callback, or go on with the rest.
  abbrev pub continue_with : Run Json × Next → Run Json → Run Json
  continue_with (r, next_lease) rest = r ▷ rest
  continue_with (r, leave_callback) rest = r

  -- The two loops: over subnets, and over the leases of each.
  unfoldable pub restore_leases : LeaseMgr HwAddr → HwAddrMap kea → List (Lease HwAddr) → Run Json
  unfolding restore_lease
  restore_leases db mapping [] = done
  restore_leases db mapping (lease ∷ rest) =
      continue_with (restore_lease db mapping lease) (restore_leases db mapping rest)

  -- The leases of all subnets, in the order of the loops.
  unfoldable pub leases_of_subnets : LeaseMgr HwAddr → List ℕ → List (Lease HwAddr)
  leases_of_subnets db [] = []
  leases_of_subnets db (subnet_id ∷ rest) = db.by_subnet subnet_id ++ leases_of_subnets db rest

  -- The callback of restoreLeasesFromLeaseDatabase.
  unfoldable pub restore_callback : LeaseMgr HwAddr → Config → HwAddrMap kea → Bool → Run Json
  unfolding restore_leases leases_of_subnets subnet_ids
  restore_callback db cfg mapping failed =
      if failed
      then reports_failure done
      else bind_outcome (subnet_ids cfg) λ ids. restore_leases db mapping (leases_of_subnets db ids)

  -- DHCP6ExporterService::restoreLeasesFromLeaseDatabase
  unfoldable pub restore_leases_from_database : LeaseMgr HwAddr → Config → Run Json
  unfolding restore_callback
  restore_leases_from_database db cfg = async_get_mapping kea api (restore_callback db cfg)
