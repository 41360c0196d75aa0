-- ===== src/System/Handlers.antt =====
-- The handlers of lease events post batches only, and call no failure handler.
use nxos_dhcp6_exporter.Prelude.{ℕ, Bool, true, false, Option, none, some, ◌==◌, if◌then◌else◌}
use nxos_dhcp6_exporter.Outcome.{Outcome}
use nxos_dhcp6_exporter.Json.{JsonApi}
use nxos_dhcp6_exporter.Kea.{
  Kea, Lease, LeaseType, type_na, type_pd, type_ta, type_v4, LeaseMgr, find_ia_na_lease, IoAddress,
}
use nxos_dhcp6_exporter.Run.{Run, done, ◌▷◌}
use nxos_dhcp6_exporter.Route.{
  ia_pd_info, ia_na_info, ia_na_info_fuzzy_remove, ia_pd_info_fuzzy_remove,
}
use nxos_dhcp6_exporter.Service.{Config, export_route, remove_route}
use nxos_dhcp6_exporter.Impl.{
  IaOption, Query, has_argument, original_address, original_prefix, renew_na, renew_pd, route,
  handle_renew_rebind_process, handle_lease6_select, handle_lease6_expire, handle_lease6_release,
  handle_lease6_decline, handle_lease6_renew_rebind, handle_lease6_rebind, handle_lease6_renew,
  select_by_type, remove_by_type,
}
use nxos_dhcp6_exporter.Callout.{lease_callout}
use nxos_dhcp6_exporter.System.{
  Event, selects, expires, releases, declines, rebinds, renews, handler,
}
use nxos_dhcp6_exporter.System.Batches.{
  Sends, Sends-▷, Sends-catching, Sends-bind_outcome, Sends-export_route, Sends-remove_route,
}
use nxos_dhcp6_exporter.System.Cases.{option_case, type_case, if_case}

module _ (api : JsonApi) (kea : Kea) (db : LeaseMgr kea.HwAddr) (cfg : Config) where
  open api use {Json}
  open kea use {HwAddr}

  by_type :
      (t : LeaseType) (na pd : Run Json)
      → Sends api na
      → Sends api pd
      → Sends api (elim t [ type_na ↦ na | type_pd ↦ pd | type_ta ↦ done | type_v4 ↦ done ])
  by_type t na pd n p = type_case (Sends api) t na pd n p tt

  -- The handlers of lease events.
  Sends-expire : (lease : Lease HwAddr) → Sends api (handle_lease6_expire api kea db lease)
  unfolding handle_lease6_expire
  Sends-expire lease =
      by_type lease.lease_type _ _
        (Sends-remove_route api kea db (route api kea 0 lease (ia_na_info_fuzzy_remove lease.addr)))
        (Sends-remove_route api kea db
          (route api kea 0 lease (ia_pd_info_fuzzy_remove lease.addr lease.prefixlen)))

  module _ (query : Query) (lease : Lease HwAddr) where
    Sends-select_by_type :
        (relay_addr : IoAddress) → Sends api (select_by_type api kea db query relay_addr lease)
    unfolding select_by_type
    Sends-select_by_type relay_addr =
        by_type lease.lease_type _ _ (Sends-export_route api kea db _) (
          option_case (Sends api) (find_ia_na_lease db lease.duid lease.iaid) _ _
            (λ entry. Sends-export_route api kea db _) tt)

    Sends-remove_by_type :
        (relay_addr : IoAddress) → Sends api (remove_by_type api kea db query relay_addr lease)
    unfolding remove_by_type
    Sends-remove_by_type relay_addr =
        by_type lease.lease_type _ _ (Sends-remove_route api kea db _) (
          option_case (Sends api) (find_ia_na_lease db lease.duid lease.iaid) _ _
            (λ entry. Sends-remove_route api kea db _) tt)

    Sends-select : (fake : Bool) → Sends api (handle_lease6_select api kea db query lease fake)
    unfolding handle_lease6_select
    Sends-select fake =
        if_case (Sends api) fake _ _ tt
          (Sends-bind_outcome api query.relay6_link_address _ Sends-select_by_type)

    Sends-release : Sends api (handle_lease6_release api kea db query lease)
    unfolding handle_lease6_release
    Sends-release = Sends-bind_outcome api query.relay6_link_address _ Sends-remove_by_type

    Sends-renew_na :
        (relay_addr original : IoAddress)
        → Sends api (renew_na api kea db query relay_addr lease original)
    unfolding renew_na
    Sends-renew_na relay_addr original =
        let old_route = route api kea query.transid lease (ia_na_info relay_addr original) in
        let new_route = route api kea query.transid lease (ia_na_info relay_addr lease.addr) in
        let removal = remove_route api kea db old_route in
        Sends-▷ api (if original == lease.addr then done else removal)
          (export_route api kea new_route)
          (if_case (Sends api) (original == lease.addr) done removal tt
            (Sends-remove_route api kea db old_route))
          (Sends-export_route api kea db new_route)

    Sends-renew_pd :
        (is_rebind : Bool) (relay_addr original : IoAddress) (length : ℕ)
        → Sends api (renew_pd api kea is_rebind db query relay_addr lease original length)
    unfolding renew_pd
    Sends-renew_pd is_rebind relay_addr original length =
        let old_route = route api kea query.transid lease (ia_pd_info relay_addr original length) in
        option_case (Sends api) (find_ia_na_lease db lease.duid lease.iaid) _ _
          (λ entry.
            let new_route =
              route api kea query.transid lease
                (ia_pd_info entry.addr lease.addr lease.prefixlen) in
            let new = export_route api kea new_route in
            let sent = Sends-export_route api kea db new_route in
            if_case (Sends api) (original == lease.addr) (if is_rebind then new else done)
              (remove_route api kea db old_route ▷ new)
              (if_case (Sends api) is_rebind new done sent tt)
              (Sends-▷ api (remove_route api kea db old_route) new
                (Sends-remove_route api kea db old_route) sent))
          (option_case (Sends api) lease.duid _ _ (λ duid. tt) tt)

    Sends-renew_rebind :
        (is_rebind : Bool) (ia_na ia_pd : Outcome (Option IaOption))
        → Sends api (handle_lease6_renew_rebind api kea is_rebind db query lease ia_na ia_pd)
    unfolding handle_lease6_renew_rebind handle_renew_rebind_process
    Sends-renew_rebind is_rebind ia_na ia_pd =
        Sends-bind_outcome api (has_argument ia_na) _ (λ is_ia_na.
          Sends-bind_outcome api (has_argument ia_pd) _ (λ is_ia_pd.
            Sends-bind_outcome api query.relay6_link_address _ (λ relay_addr.
              if_case (Sends api) is_ia_na _ _
                (Sends-bind_outcome api (original_address query) _ (Sends-renew_na relay_addr))
                (Sends-bind_outcome api (original_prefix query) _
                  (λ original. Sends-renew_pd is_rebind relay_addr original.0 original.1)))))

  pub Sends-handler : (e : Event HwAddr) → Sends api (lease_callout (handler api kea db cfg e))
  unfolding handler lease_callout handle_lease6_rebind handle_lease6_renew handle_lease6_decline
  Sends-handler (selects query lease fake) =
      Sends-catching api _ (handle_lease6_select api kea db query lease fake) (λ x. tt)
        (Sends-select query lease fake)
  Sends-handler (expires lease) =
      Sends-catching api _ (handle_lease6_expire api kea db lease) (λ x. tt) (Sends-expire lease)
  Sends-handler (releases query lease) =
      Sends-catching api _ (handle_lease6_release api kea db query lease) (λ x. tt)
        (Sends-release query lease)
  Sends-handler (declines none lease) = tt
  Sends-handler (declines (some query) lease) =
      Sends-catching api _ (handle_lease6_release api kea db query lease) (λ x. tt)
        (Sends-release query lease)
  Sends-handler (rebinds query lease ia_na ia_pd) =
      Sends-catching api _ (handle_lease6_renew_rebind api kea true db query lease ia_na ia_pd)
        (λ x. tt) (Sends-renew_rebind query lease true ia_na ia_pd)
  Sends-handler (renews query lease ia_na ia_pd) =
      Sends-catching api _ (handle_lease6_renew_rebind api kea false db query lease ia_na ia_pd)
        (λ x. tt) (Sends-renew_rebind query lease false ia_na ia_pd)
