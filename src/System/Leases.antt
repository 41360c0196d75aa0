-- ===== src/System/Leases.antt =====
-- The life of an address lease: from its selection to its route, and from its release to the removal.
use nxos_dhcp6_exporter.Prelude.{String, ◌≡◌, refl, false, [], ◌∷◌, ◌++◌, length, ap, ◌∙◌, inl}
use nxos_dhcp6_exporter.Outcome.{ok}
use nxos_dhcp6_exporter.Json.{JsonApi}
use nxos_dhcp6_exporter.Kea.{Kea, IoAddress, Lease, LeaseMgr, type_na}
use nxos_dhcp6_exporter.Route.{ia_na_info}
use nxos_dhcp6_exporter.Mgmt.Commands.{host_text}
use nxos_dhcp6_exporter.Mgmt.Send.{send_routes_to_switch}
use nxos_dhcp6_exporter.Mgmt.Remove.{remove_routes_from_switch}
use nxos_dhcp6_exporter.Service.{Config, export_route, remove_route}
use nxos_dhcp6_exporter.Impl.{Query}
use nxos_dhcp6_exporter.Impl.Renewal.{release_undoes_select}
use nxos_dhcp6_exporter.Callout.{lease_callout}
use nxos_dhcp6_exporter.Http.{HttpResult}
use nxos_dhcp6_exporter.System.{
  System, take_out, perform, Stimulus, happens, answers, selects, releases, handler, step, run,
}
use nxos_dhcp6_exporter.System.Lookups.{
  IsNamed, set_call, remove_call, lookup_set, lookup_remove, set_follows, remove_follows,
}
use nxos_dhcp6_exporter.System.Recovery.{take_out-last}

module _ (api : JsonApi) (kea : Kea) (db : LeaseMgr kea.HwAddr) (cfg : Config) where
  open api use {Json}
  open kea use {HwAddr}

  pub selection_looks_up :
      (s : System Json) (query : Query) (relay : IoAddress) (lease : Lease HwAddr)
      → query.relay6_link_address ≡ ok relay
      → lease.lease_type ≡ type_na
      → let t = step api kea db cfg (happens (selects query lease false)) s in
        (t.waiting ≡ s.waiting ++ lookup_set api kea db cfg relay lease.addr ∷ [])
        × (t.heartbeat ≡ s.heartbeat)
  unfolding step handler lease_callout perform export_route send_routes_to_switch
  selection_looks_up s query relay lease link na =
      let (selected, _, _) =
        release_undoes_select api kea db query relay lease (ia_na_info relay lease.addr) link
          (inl (na, refl)) in
      rw selected (refl, refl)

  release_looks_up :
      (s : System Json) (query : Query) (relay : IoAddress) (lease : Lease HwAddr)
      → query.relay6_link_address ≡ ok relay
      → lease.lease_type ≡ type_na
      → let t = step api kea db cfg (happens (releases query lease)) s in
        (t.waiting ≡ s.waiting ++ lookup_remove api kea db cfg relay lease.addr ∷ [])
        × (t.heartbeat ≡ s.heartbeat)
  unfolding step handler lease_callout perform remove_route remove_routes_from_switch
  release_looks_up s query relay lease link na =
      let (_, released, _) =
        release_undoes_select api kea db query relay lease (ia_na_info relay lease.addr) link
          (inl (na, refl)) in
      rw released (refl, refl)

  -- An address lease behind a relay whose interface the switch names, in any state of the whole. Its
  -- selection and the answer to the lookup leave one request more, behind what waited: it sets the route of
  -- the address to that interface. Its release and such an answer leave one request more, which
  -- removes that route and clears the interface's neighbour cache. The heartbeat is as it was.
  pub lease_life :
      (s : System Json) (query : Query) (relay : IoAddress) (lease : Lease HwAddr)
      (result : HttpResult) (name : String)
      → query.relay6_link_address ≡ ok relay
      → lease.lease_type ≡ type_na
      → IsNamed api kea db cfg result name
      → let src = host_text kea lease.addr in
        let answer : Stimulus HwAddr = answers (length s.waiting) result in
        let set = run api kea db cfg (happens (selects query lease false) ∷ answer ∷ []) s in
        let unset = run api kea db cfg (happens (releases query lease) ∷ answer ∷ []) s in
        ((set.waiting ≡ s.waiting ++ set_call api kea db cfg src name ∷ [])
          × (set.heartbeat ≡ s.heartbeat))
        × ((unset.waiting ≡ s.waiting ++ remove_call api kea db cfg src name ∷ [])
            × (unset.heartbeat ≡ s.heartbeat))
  unfolding run
  lease_life s query relay lease result name link na named =
      let n = length s.waiting in
      let t1 = step api kea db cfg (happens (selects query lease false)) s in
      let t2 = step api kea db cfg (happens (releases query lease)) s in
      let (selected, same) = selection_looks_up s query relay lease link na in
      let (released, also) = release_looks_up s query relay lease link na in
      let at_1 =
        ap (take_out n) selected
        ∙ take_out-last s.waiting (lookup_set api kea db cfg relay lease.addr) in
      let at_2 =
        ap (take_out n) released
        ∙ take_out-last s.waiting (lookup_remove api kea db cfg relay lease.addr) in
      let (set_waits, set_same) =
        set_follows api kea db cfg t1 n s.waiting relay lease.addr name result named at_1 in
      let (remove_waits, remove_same) =
        remove_follows api kea db cfg t2 n s.waiting relay lease.addr name result named at_2 in
      ((set_waits, set_same ∙ same), (remove_waits, remove_same ∙ also))
