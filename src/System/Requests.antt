-- ===== src/System/Requests.antt =====
-- The restoration from the lease database posts batches only, and only the callback of its lookup may
-- call the failure handler.
use nxos_dhcp6_exporter.Prelude.{
  ◌≡◌, refl, Bool, true, false, Option, none, some, List, [], ◌∷◌, ◌&&◌,
}
use nxos_dhcp6_exporter.Prelude.Int.{pos, eqb_ℤ}
use nxos_dhcp6_exporter.Outcome.{Outcome, ok, raised, fault}
use nxos_dhcp6_exporter.Json.{JsonApi}
use nxos_dhcp6_exporter.Kea.{
  Kea, Lease, LeaseMgr, LeaseType, type_na, type_ta, type_pd, type_v4, find_ia_na_lease,
}
use nxos_dhcp6_exporter.Nxos.{NeighborLookupResponse, AdjObject}
use nxos_dhcp6_exporter.Run.{Reply, Request, Run, done, posts}
use nxos_dhcp6_exporter.Mgmt.Neighbor.{
  HwAddrMap, find_hwaddr, add_objects, read_neighbors, vrf_objects, is_success, after_reading,
  deliver, neighbor_callback, async_get_mapping,
}
use nxos_dhcp6_exporter.Route.{ia_na_fast, ia_pd_info}
use nxos_dhcp6_exporter.Service.{
  Config, continue_with, restore_na, restore_pd, restore_by_type, restore_lease, restore_leases,
  restore_callback, restore_leases_from_database, subnet_ids, leases_of_subnets,
}
use nxos_dhcp6_exporter.System.Cases.{option_case, if_case}
use nxos_dhcp6_exporter.System.Reports.{SendsOrReports, Sends-SendsOrReports, SendsOrReports-bind}
use nxos_dhcp6_exporter.System.Batches.{IsBatch, Sends, Sends-▷, request-IsBatch, Sends-send_routes}

module _ (api : JsonApi) (kea : Kea) (db : LeaseMgr kea.HwAddr) (cfg : Config) where
  open api use {Json}
  open kea use {HwAddr}

  Sends-restore_na :
      (m : HwAddrMap kea) (hwaddr : HwAddr) (lease : Lease HwAddr)
      → Sends api (restore_na api kea m hwaddr lease)
  unfolding restore_na
  Sends-restore_na m hwaddr lease =
      option_case (Sends api) (find_hwaddr kea hwaddr m) _ _
        (λ name. Sends-send_routes api kea db (ia_na_fast name lease.addr)) tt

  Sends-restore_pd : (lease : Lease HwAddr) → Sends api (restore_pd api kea db lease)
  unfolding restore_pd
  Sends-restore_pd lease =
      option_case (Sends api) (find_ia_na_lease db lease.duid lease.iaid) _ _
        (λ entry. Sends-send_routes api kea db (ia_pd_info entry.addr lease.addr lease.prefixlen))
        (option_case (Sends api) lease.duid _ _ (λ duid. tt) tt)

  Sends-restore_by_type :
      (m : HwAddrMap kea) (hwaddr : HwAddr) (lease : Lease HwAddr) (t : LeaseType) (rest : Run Json)
      → Sends api rest
      → Sends api (continue_with api kea (restore_by_type api kea db m hwaddr lease t) rest)
  unfolding restore_by_type
  Sends-restore_by_type m hwaddr lease type_na rest h =
      Sends-▷ api (restore_na api kea m hwaddr lease) rest (Sends-restore_na m hwaddr lease) h
  Sends-restore_by_type m hwaddr lease type_pd rest h = Sends-restore_pd lease
  Sends-restore_by_type m hwaddr lease type_ta rest h = h
  Sends-restore_by_type m hwaddr lease type_v4 rest h = h

  Sends-restore_known :
      (m : HwAddrMap kea) (lease : Lease HwAddr) (o : Option HwAddr) (rest : Run Json)
      → lease.hwaddr ≡ o
      → Sends api rest
      → Sends api (continue_with api kea (restore_lease api kea db m lease) rest)
  unfolding restore_lease
  Sends-restore_known m lease none rest e h = rw e tt
  Sends-restore_known m lease (some hwaddr) rest e h =
      rw e (Sends-restore_by_type m hwaddr lease lease.lease_type rest h)

  Sends-restore_leases :
      (m : HwAddrMap kea) (l : List (Lease HwAddr)) → Sends api (restore_leases api kea db m l)
  unfolding restore_leases
  Sends-restore_leases m [] = tt
  Sends-restore_leases m (lease ∷ rest) =
      Sends-restore_known m lease lease.hwaddr (restore_leases api kea db m rest) refl
        (Sends-restore_leases m rest)

  SendsOrReports-restore_callback :
      (m : HwAddrMap kea) (failed : Bool)
      → SendsOrReports api (restore_callback api kea db cfg m failed)
  unfolding restore_callback
  SendsOrReports-restore_callback m failed = if_case (SendsOrReports api) failed _ _ tt (
      SendsOrReports-bind api (subnet_ids cfg) _ (λ ids.
        let leases = leases_of_subnets api kea db ids in
        Sends-SendsOrReports api (restore_leases api kea db m leases)
          (Sends-restore_leases m leases)))

  module _ (f : HwAddrMap kea → Bool → Run Json)
      (hf : (m : HwAddrMap kea) (b : Bool) → SendsOrReports api (f m b)) where
    SendsOrReports-deliver :
        (objects : List AdjObject) (b : Bool) → SendsOrReports api (deliver kea api f objects b)
    unfolding deliver
    SendsOrReports-deliver objects b =
        SendsOrReports-bind api (add_objects kea objects []) _ (λ m. hf m b)

    SendsOrReports-after_reading :
        (o : Outcome NeighborLookupResponse) → SendsOrReports api (after_reading kea api f o)
    SendsOrReports-after_reading (ok lookup) =
        SendsOrReports-deliver (vrf_objects kea lookup.table_vrf) false
    SendsOrReports-after_reading (raised e) = SendsOrReports-deliver [] true
    SendsOrReports-after_reading (fault u) = tt

    SendsOrReports-neighbor_callback :
        (reply : Reply Json) → SendsOrReports api (neighbor_callback kea api f reply)
    unfolding neighbor_callback
    SendsOrReports-neighbor_callback reply =
        if_case (SendsOrReports api)
          (is_success kea api reply.response_error && eqb_ℤ reply.status_code (pos 200)) _ _
          (SendsOrReports-after_reading (read_neighbors kea api reply)) (hf [] true)

  -- The callback of the lookup that a restoration posts.
  pub lookup-SendsOrReports :
      (reply : Reply Json)
      → SendsOrReports api (neighbor_callback kea api (restore_callback api kea db cfg) reply)
  lookup-SendsOrReports =
      SendsOrReports-neighbor_callback (restore_callback api kea db cfg)
        SendsOrReports-restore_callback

  -- The restoration posts one batch, and its callback is the one that may call the failure handler.
  pub restore_leases_from_database-SendsOrReports :
      (q : Request Json) × (f : Reply Json → Run Json) × (restore_leases_from_database api kea db
          cfg
        ≡ posts q f done)
      × IsBatch api q
      × ((reply : Reply Json) → SendsOrReports api (f reply))
  unfolding restore_leases_from_database async_get_mapping
  restore_leases_from_database-SendsOrReports =
      (_, _, refl, request-IsBatch api _, lookup-SendsOrReports)
