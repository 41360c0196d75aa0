-- ===== src/Impl/Renewal.antt =====
-- What the handlers of lease events ask of the switch, one against the other.
use Prim.Native.String.{◌++◌}
use nxos_dhcp6_exporter.Prelude.{
  Bool-cases, ◌⊎◌, inl, inr, ℕ, ◌==◌, ◌≡◌, ◌≢◌, true, false, some, refl, [], ◌∷◌, arith, Bool,
}
use nxos_dhcp6_exporter.Prelude.Int.{pos}
use nxos_dhcp6_exporter.Outcome.{ok}
use nxos_dhcp6_exporter.Json.{JsonApi}
use nxos_dhcp6_exporter.Kea.{IoAddress, Kea, Lease, LeaseMgr, type_na, type_pd, find_ia_na_lease}
use nxos_dhcp6_exporter.Route.{RouteInfo, ia_na_info, ia_pd_info}
use nxos_dhcp6_exporter.Run.{
  remove_info_on_device, lease6_select_insert, update_info_on_device, done, logs, posts, ◌▷◌,
}
use nxos_dhcp6_exporter.Service.{export_route, remove_route}
use nxos_dhcp6_exporter.Mgmt.Commands.{apply_route_command, remove_route_command, subnet_text}
use nxos_dhcp6_exporter.Mgmt.Send.{
  request, handle_route_remove, handle_route_apply, send_routes_to_switch,
}
use nxos_dhcp6_exporter.Mgmt.Remove.{remove_routes_from_switch}
use nxos_dhcp6_exporter.Mgmt.Undo.{remove-ne, remove-apply}
use nxos_dhcp6_exporter.Impl.{
  Query, route, renew_pd, select_by_type, remove_by_type, original_address, original_prefix,
  handle_lease6_select, handle_lease6_release, handle_lease6_decline, handle_renew_rebind_process,
}

module _ (api : JsonApi) (kea : Kea) (db : LeaseMgr kea.HwAddr) (query : Query) (relay : IoAddress)
    (lease : Lease kea.HwAddr) where
  open api use {Json}
  open kea use {HwAddr, address_text}

  -- The route that the lease asks for: that of an address behind the relay, or that of a prefix behind the
  -- address lease that its client has in use.
  abbrev pub LeaseRoute : RouteInfo → Type 0
  LeaseRoute info =
      ((lease.lease_type ≡ type_na) × (info ≡ ia_na_info relay lease.addr))
      ⊎ ((entry : Lease HwAddr) × (lease.lease_type ≡ type_pd)
          × (find_ia_na_lease db lease.duid lease.iaid ≡ some entry)
          × (info ≡ ia_pd_info entry.addr lease.addr lease.prefixlen))

  -- The selection of a lease exports the route that the lease asks for, and its release and its decline
  -- remove that same route.
  pub release_undoes_select :
      (info : RouteInfo)
      → query.relay6_link_address ≡ ok relay
      → LeaseRoute info
      → let r = route api kea query.transid lease info in
        (handle_lease6_select api kea db query lease false
          ≡ logs lease6_select_insert (export_route api kea r))
        × (handle_lease6_release api kea db query lease ≡ remove_route api kea db r)
        × (handle_lease6_decline api kea db (some query) lease ≡ remove_route api kea db r)
  unfolding handle_lease6_select handle_lease6_release handle_lease6_decline
  release_undoes_select info link (inl (na, is_info)) = (
    simp (select_by_type, link, na, is_info),
    simp (remove_by_type, link, na, is_info),
    simp (remove_by_type, link, na, is_info),
  )
  release_undoes_select info link (inr (entry, pd, found, is_info)) = (
    simp (select_by_type, link, pd, found, is_info),
    simp (remove_by_type, link, pd, found, is_info),
    simp (remove_by_type, link, pd, found, is_info),
  )

  -- A renewed or rebound address: where it is the one that the client asked to keep, its route is sent
  -- again; where it is another one, the route of the old one is removed first.
  pub renewed_address :
      (is_rebind : Bool) (original : IoAddress)
      → query.relay6_link_address ≡ ok relay
      → original_address query ≡ ok original
      → let new = route api kea query.transid lease (ia_na_info relay lease.addr) in
        let old = route api kea query.transid lease (ia_na_info relay original) in
        let renewed = handle_renew_rebind_process api kea is_rebind db query lease true in
        ((original ≡ lease.addr) × (renewed ≡ export_route api kea new))
        ⊎ ((original ≢ lease.addr)
            × (renewed ≡ remove_route api kea db old ▷ export_route api kea new))
  unfolding handle_renew_rebind_process
  renewed_address is_rebind original link asked = elim (Bool-cases (original == lease.addr)) [
    | inl e ↦ inl (ground arith, rw (link, asked, e))
    | inr e ↦ inr (λ same. ground arith, rw (link, asked, e))
  ]

  -- A renewed or rebound prefix that is another one than the client asked to keep: first the removal of
  -- the old prefix is posted, whose next hop is the address of the relay, then the new route is exported.
  -- The export of the old prefix, behind the address lease that its client has in use, sets a route whose
  -- next hop is that leased address; where the texts of the two addresses differ, the removal is not "no "
  -- and the command that sets this route.
  pub prefix_renewal_keeps_route :
      (is_rebind : Bool) (original : IoAddress) (length : ℕ) (entry : Lease HwAddr)
      → query.relay6_link_address ≡ ok relay
      → original_prefix query ≡ ok (original, length)
      → find_ia_na_lease db lease.duid lease.iaid ≡ some entry
      → original ≢ lease.addr
      → address_text relay ≢ address_text entry.addr
      → let src = subnet_text kea original length in
        let removal = remove_route_command src (address_text relay) in
        let setting = apply_route_command src (address_text entry.addr) in
        let old = route api kea query.transid lease (ia_pd_info entry.addr original length) in
        let new =
          route api kea query.transid lease (ia_pd_info entry.addr lease.addr lease.prefixlen) in
        (handle_renew_rebind_process api kea is_rebind db query lease false
          ≡ logs remove_info_on_device (
              posts
                (request api ((pos 1, removal) ∷ []))
                (handle_route_remove api src (address_text relay))
                (export_route api kea new)))
        × (export_route api kea old
            ≡ logs update_info_on_device (
                posts
                  (request api ((pos 1, setting) ∷ []))
                  (handle_route_apply api src (address_text entry.addr))
                  done))
        × (removal ≡ "no " ++ apply_route_command src (address_text relay))
        × (removal ≢ "no " ++ setting)
  unfolding handle_renew_rebind_process remove_route remove_routes_from_switch export_route
      send_routes_to_switch
  prefix_renewal_keeps_route is_rebind original length entry link asked found other differ =
      let e : (original == lease.addr) ≡ false = ground arith in
      (
        simp (renew_pd, link, asked, found, e),
        refl,
        remove-apply (subnet_text kea original length) (address_text relay),
        remove-ne (subnet_text kea original length) (address_text relay) (address_text entry.addr)
            differ,
      )
