-- ===== src/System/Prefixes.antt =====
-- The life of a lease of a prefix: from its selection to its route, and from its release to the removal.
use Prim.Native.String.{◌++◌ as ◌+++◌}
use nxos_dhcp6_exporter.Prelude.{◌≡◌, refl, false, some, [], ◌∷◌, ◌++◌, inr}
use nxos_dhcp6_exporter.Prelude.Int.{pos}
use nxos_dhcp6_exporter.Outcome.{ok}
use nxos_dhcp6_exporter.Json.{JsonApi}
use nxos_dhcp6_exporter.Kea.{Kea, IoAddress, Lease, LeaseMgr, type_pd, find_ia_na_lease}
use nxos_dhcp6_exporter.Route.{ia_pd_info}
use nxos_dhcp6_exporter.Mgmt.Commands.{apply_route_command, subnet_text}
use nxos_dhcp6_exporter.Mgmt.Send.{request, handle_route_remove}
use nxos_dhcp6_exporter.Mgmt.Undo.{pd_remove_undoes}
use nxos_dhcp6_exporter.Service.{Config, export_route, remove_route}
use nxos_dhcp6_exporter.Impl.{Query}
use nxos_dhcp6_exporter.Impl.Renewal.{release_undoes_select}
use nxos_dhcp6_exporter.Callout.{lease_callout}
use nxos_dhcp6_exporter.System.{
  Pending, call, System, perform, happens, selects, releases, declines, handler, step,
}
use nxos_dhcp6_exporter.System.Lookups.{set_call}

module _ (api : JsonApi) (kea : Kea) (db : LeaseMgr kea.HwAddr) (cfg : Config) where
  open api use {Json}
  open kea use {HwAddr, address_text}

  -- A lease of a prefix, whose client has a lease of an address in use, in any state of the whole. Its
  -- selection leaves one request more: it sets the route of the prefix to that address. Its release, and
  -- its decline too, leave one request more, which removes that route. The heartbeat is as it was.
  pub prefix_life :
      (s : System Json) (query : Query) (relay : IoAddress) (lease entry : Lease HwAddr)
      → query.relay6_link_address ≡ ok relay
      → lease.lease_type ≡ type_pd
      → find_ia_na_lease db lease.duid lease.iaid ≡ some entry
      → let src = subnet_text kea lease.addr lease.prefixlen in
        let via = address_text entry.addr in
        let removal : Pending Json =
          call
            (request api ((pos 1, "no " +++ apply_route_command src via) ∷ []))
            (handle_route_remove api src via) in
        let set = step api kea db cfg (happens (selects query lease false)) s in
        let unset = step api kea db cfg (happens (releases query lease)) s in
        let declined = step api kea db cfg (happens (declines (some query) lease)) s in
        ((set.waiting ≡ s.waiting ++ set_call api kea db cfg src via ∷ [])
          × (set.heartbeat ≡ s.heartbeat))
        × ((unset.waiting ≡ s.waiting ++ removal ∷ []) × (unset.heartbeat ≡ s.heartbeat))
        × ((declined.waiting ≡ s.waiting ++ removal ∷ []) × (declined.heartbeat ≡ s.heartbeat))
  unfolding step handler lease_callout perform export_route remove_route
  prefix_life s query relay lease entry link pd has_entry =
      let (selected, released, declined) =
        release_undoes_select api kea db query relay lease
          (ia_pd_info entry.addr lease.addr lease.prefixlen) link
          (inr (entry, pd, has_entry, refl)) in
      let (sends, removes) =
        pd_remove_undoes api kea db query.transid lease.iaid lease.duid entry.addr lease.addr
          lease.prefixlen in
      (
        rw (selected, sends) (refl, refl),
        rw (released, removes) (refl, refl),
        rw (declined, removes) (refl, refl),
      )
