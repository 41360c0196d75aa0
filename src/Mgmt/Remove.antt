-- ===== src/Mgmt/Remove.antt =====
-- removeRoutesFromSwitch of src/nxos_management_client.cpp, with what it posts and the callbacks.
use nxos_dhcp6_exporter.Prelude.{String, Option, none, some, [], ◌∷◌}
use nxos_dhcp6_exporter.Prelude.Int.{pos}
use nxos_dhcp6_exporter.Outcome.{not_implemented}
use nxos_dhcp6_exporter.Json.{JsonApi}
use nxos_dhcp6_exporter.Kea.{Kea, Lease, LeaseMgr, find_ia_na_lease}
use nxos_dhcp6_exporter.Route.{
  RouteExport, ia_na_info, ia_pd_info, ia_na_info_fuzzy_remove, ia_pd_info_fuzzy_remove, ia_na_fast,
}
use nxos_dhcp6_exporter.Run.{Run, done, throws, posts, bind_outcome, try_outcome}
use nxos_dhcp6_exporter.Mgmt.Commands.{
  remove_route_command, remove_nd_cache_command, host_text, subnet_text,
}
use nxos_dhcp6_exporter.Mgmt.Lookup.{relay_interface, lease_interface, lease_nexthop}
use nxos_dhcp6_exporter.Mgmt.Send.{
  request, handle_route_remove, async_lookup_address, mapping_failed,
}

module _ (api : JsonApi) where
  open api use {Json}

  -- The request that removes a route, and its callback.
  unfoldable pub post_remove : String → String → Run Json
  unfolding request handle_route_remove
  post_remove src dst =
      posts (request api ((pos 1, remove_route_command src dst) ∷ []))
        (handle_route_remove api src dst) done

  -- The same with the command that clears the neighbour cache of the interface.
  unfoldable pub post_remove_and_clear : String → String → Run Json
  unfolding request handle_route_remove
  post_remove_and_clear src vlan_if_name =
      posts
        (request api (
          (pos 1, remove_route_command src vlan_if_name)
          ∷ (pos 2, remove_nd_cache_command vlan_if_name)
          ∷ []))
        (handle_route_remove api src vlan_if_name) done

  module _ (kea : Kea) where
    open kea use {HwAddr, address_text}

    -- The fuzzy removal of IA_PD: by the client's IA_NA lease, or by a lookup on the switch.
    unfoldable pub remove_by_lease : String → Option (Lease HwAddr) → Run Json
    unfolding post_remove async_lookup_address
    remove_by_lease src (some lease) = post_remove src (host_text kea lease.addr)
    remove_by_lease src none =
        async_lookup_address api src
          λ lookup. bind_outcome (lease_nexthop lookup) λ ia_na_addr. post_remove src ia_na_addr

    unfoldable pub remove_routes_from_switch : LeaseMgr HwAddr → RouteExport → Run Json
    unfolding post_remove post_remove_and_clear remove_by_lease async_lookup_address
    remove_routes_from_switch db route = elim route.route_info [
      | ia_na_info src_vlan_addr ia_na_addr ↦
          async_lookup_address api (host_text kea src_vlan_addr) λ lookup.
            try_outcome (relay_interface lookup) (mapping_failed api)
              λ vlan_if_name. post_remove_and_clear (host_text kea ia_na_addr) vlan_if_name
      | ia_pd_info dst_ia_na_addr ia_pd_prefix ia_pd_length ↦
          post_remove (subnet_text kea ia_pd_prefix ia_pd_length) (address_text dst_ia_na_addr)
      | ia_na_info_fuzzy_remove ia_na_addr ↦
          async_lookup_address api (host_text kea ia_na_addr) λ lookup.
            bind_outcome (lease_interface lookup)
              λ vlan_if_name. post_remove_and_clear (host_text kea ia_na_addr) vlan_if_name
      | ia_pd_info_fuzzy_remove ia_pd_prefix ia_pd_length ↦
          remove_by_lease (subnet_text kea ia_pd_prefix ia_pd_length)
            (find_ia_na_lease db route.duid route.iaid)
      | ia_na_fast _ _ ↦ throws (not_implemented "not implemented IA route info")
    ]
