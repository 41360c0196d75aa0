-- ===== src/System/Sound.antt =====
-- The handlers of lease events have a defined behaviour, under what they rely on.
use nxos_dhcp6_exporter.Prelude.{
  ℕ, ◌≡◌, ◌≢◌, refl, Bool, true, false, Option, none, some, ◌==◌, if◌then◌else◌,
}
use nxos_dhcp6_exporter.Outcome.{Outcome, ok, NoFault, null_pointer}
use nxos_dhcp6_exporter.Json.{JsonApi}
use nxos_dhcp6_exporter.Kea.{
  Kea, Duid, Lease, LeaseMgr, LeaseType, type_na, type_ta, type_pd, type_v4, find_ia_na_lease,
  IoAddress,
}
use nxos_dhcp6_exporter.Run.{Run, done, faults, logs, ◌▷◌, route_remove_find_ia_na_lease_failed}
use nxos_dhcp6_exporter.Route.{
  ia_pd_info, ia_na_info, ia_na_info_fuzzy_remove, ia_pd_info_fuzzy_remove,
}
use nxos_dhcp6_exporter.Service.{Config, export_route, remove_route}
use nxos_dhcp6_exporter.Callout.{lease_callout}
use nxos_dhcp6_exporter.Impl.{
  IaOption, Query, has_argument, original_address, original_prefix, renew_na, renew_pd, route,
  handle_renew_rebind_process, handle_lease6_select, handle_lease6_expire, handle_lease6_release,
  handle_lease6_decline, handle_lease6_renew_rebind, handle_lease6_rebind, handle_lease6_renew,
  select_by_type, remove_by_type,
}
use nxos_dhcp6_exporter.System.{
  Event, selects, expires, releases, declines, rebinds, renews, handler,
}
use nxos_dhcp6_exporter.System.Cases.{option_case, type_case, if_case}
use nxos_dhcp6_exporter.System.Safe.{
  IsSafe, IsSafe-▷, IsSafe-catching, IsSafe-bind_outcome, IsSafe-export_route, IsSafe-remove_route,
}

module _ (api : JsonApi) (kea : Kea) (db : LeaseMgr kea.HwAddr) where
  open api use {Json}
  open kea use {HwAddr}

  by_type :
      (t : LeaseType) (na pd : Run Json)
      → IsSafe api na
      → IsSafe api pd
      → IsSafe api (elim t [ type_na ↦ na | type_pd ↦ pd | type_ta ↦ done | type_v4 ↦ done ])
  by_type t na pd n p = type_case (IsSafe api) t na pd n p tt

  -- What the handlers rely on in a renewal or a rebinding: the relay address and the arguments can be
  -- read, the lease has a DUID, and the option that is read is there, of the class that it is cast to.
  pub record IsRenewable (query : Query) (lease : Lease HwAddr)
      (ia_na ia_pd : Outcome (Option IaOption)) : Type 0 where
    pub relay : NoFault query.relay6_link_address
    pub na_argument : NoFault (has_argument ia_na)
    pub pd_argument : NoFault (has_argument ia_pd)
    pub has_duid : lease.duid ≢ none
    pub address : has_argument ia_na ≡ ok true → NoFault (original_address query)
    pub prefix : has_argument ia_na ≡ ok false → NoFault (original_prefix query)

  -- What they rely on in an event.
  abbrev pub IsSound : Event HwAddr → Type 0
  IsSound (selects query lease fake) = NoFault query.relay6_link_address
  IsSound (expires lease) = Unit
  IsSound (releases query lease) = NoFault query.relay6_link_address
  IsSound (declines none lease) = ⊥
  IsSound (declines (some query) lease) = NoFault query.relay6_link_address
  IsSound (rebinds query lease ia_na ia_pd) = IsRenewable query lease ia_na ia_pd
  IsSound (renews query lease ia_na ia_pd) = IsRenewable query lease ia_na ia_pd

  IsSafe-expire : (lease : Lease HwAddr) → IsSafe api (handle_lease6_expire api kea db lease)
  unfolding handle_lease6_expire
  IsSafe-expire lease =
      by_type lease.lease_type _ _
        (IsSafe-remove_route api kea db
          (route api kea 0 lease (ia_na_info_fuzzy_remove lease.addr)))
        (IsSafe-remove_route api kea db
          (route api kea 0 lease (ia_pd_info_fuzzy_remove lease.addr lease.prefixlen)))

  module _ (query : Query) (lease : Lease HwAddr) where
    IsSafe-select_by_type :
        (relay_addr : IoAddress) → IsSafe api (select_by_type api kea db query relay_addr lease)
    unfolding select_by_type
    IsSafe-select_by_type relay_addr =
        by_type lease.lease_type _ _ (IsSafe-export_route api kea db _) (
          option_case (IsSafe api) (find_ia_na_lease db lease.duid lease.iaid) _ _
            (λ entry. IsSafe-export_route api kea db _) tt)

    IsSafe-remove_by_type :
        (relay_addr : IoAddress) → IsSafe api (remove_by_type api kea db query relay_addr lease)
    unfolding remove_by_type
    IsSafe-remove_by_type relay_addr =
        by_type lease.lease_type _ _ (IsSafe-remove_route api kea db _) (
          option_case (IsSafe api) (find_ia_na_lease db lease.duid lease.iaid) _ _
            (λ entry. IsSafe-remove_route api kea db _) tt)

    IsSafe-select :
        (fake : Bool)
        → NoFault query.relay6_link_address
        → IsSafe api (handle_lease6_select api kea db query lease fake)
    unfolding handle_lease6_select
    IsSafe-select fake relay = if_case (IsSafe api) fake _ _ tt (
        IsSafe-bind_outcome api query.relay6_link_address _ relay
          (λ relay_addr e. IsSafe-select_by_type relay_addr))

    IsSafe-release :
        NoFault query.relay6_link_address
        → IsSafe api (handle_lease6_release api kea db query lease)
    unfolding handle_lease6_release
    IsSafe-release relay =
        IsSafe-bind_outcome api query.relay6_link_address _ relay
          (λ relay_addr e. IsSafe-remove_by_type relay_addr)

    IsSafe-renew_na :
        (relay_addr original : IoAddress)
        → IsSafe api (renew_na api kea db query relay_addr lease original)
    unfolding renew_na
    IsSafe-renew_na relay_addr original =
        let old_route = route api kea query.transid lease (ia_na_info relay_addr original) in
        let new_route = route api kea query.transid lease (ia_na_info relay_addr lease.addr) in
        let removal = remove_route api kea db old_route in
        IsSafe-▷ api (if original == lease.addr then done else removal)
          (export_route api kea new_route)
          (if_case (IsSafe api) (original == lease.addr) done removal tt
            (IsSafe-remove_route api kea db old_route))
          (IsSafe-export_route api kea db new_route)

    IsSafe-duid :
        (o : Option Duid)
        → o ≢ none
        → IsSafe api (elim o [
          | none ↦ faults null_pointer
          | some duid ↦ logs route_remove_find_ia_na_lease_failed done
        ])
    IsSafe-duid none h = h refl
    IsSafe-duid (some duid) h = tt

    IsSafe-renew_pd :
        (is_rebind : Bool) (relay_addr original : IoAddress) (length : ℕ)
        → lease.duid ≢ none
        → IsSafe api (renew_pd api kea is_rebind db query relay_addr lease original length)
    unfolding renew_pd
    IsSafe-renew_pd is_rebind relay_addr original length has_duid =
        let old_route = route api kea query.transid lease (ia_pd_info relay_addr original length) in
        option_case (IsSafe api) (find_ia_na_lease db lease.duid lease.iaid) _ _
          (λ entry.
            let new_route =
              route api kea query.transid lease
                (ia_pd_info entry.addr lease.addr lease.prefixlen) in
            let new = export_route api kea new_route in
            let sent = IsSafe-export_route api kea db new_route in
            if_case (IsSafe api) (original == lease.addr) (if is_rebind then new else done)
              (remove_route api kea db old_route ▷ new)
              (if_case (IsSafe api) is_rebind new done sent tt)
              (IsSafe-▷ api (remove_route api kea db old_route) new
                (IsSafe-remove_route api kea db old_route) sent))
          (IsSafe-duid lease.duid has_duid)

    IsSafe-process :
        (is_rebind is_ia_na : Bool)
        → NoFault query.relay6_link_address
        → lease.duid ≢ none
        → (is_ia_na ≡ true → NoFault (original_address query))
        → (is_ia_na ≡ false → NoFault (original_prefix query))
        → IsSafe api (handle_renew_rebind_process api kea is_rebind db query lease is_ia_na)
    unfolding handle_renew_rebind_process
    IsSafe-process is_rebind true relay has_duid address prefix =
        IsSafe-bind_outcome api query.relay6_link_address _ relay (λ relay_addr e.
          IsSafe-bind_outcome api (original_address query) _ (address refl)
            (λ original x. IsSafe-renew_na relay_addr original))
    IsSafe-process is_rebind false relay has_duid address prefix =
        IsSafe-bind_outcome api query.relay6_link_address _ relay (λ relay_addr e.
          IsSafe-bind_outcome api (original_prefix query) _ (prefix refl)
            (λ original x. IsSafe-renew_pd is_rebind relay_addr original.0 original.1 has_duid))

    IsSafe-renew_rebind :
        (is_rebind : Bool) (ia_na ia_pd : Outcome (Option IaOption))
        → IsRenewable query lease ia_na ia_pd
        → IsSafe api (handle_lease6_renew_rebind api kea is_rebind db query lease ia_na ia_pd)
    unfolding handle_lease6_renew_rebind
    IsSafe-renew_rebind is_rebind ia_na ia_pd h =
        IsSafe-bind_outcome api (has_argument ia_na) _ h.na_argument (λ is_ia_na e.
          IsSafe-bind_outcome api (has_argument ia_pd) _ h.pd_argument (λ is_ia_pd x.
            IsSafe-process is_rebind is_ia_na h.relay h.has_duid
              (λ is_true. h.address (rw (e, is_true) refl))
              (λ is_false. h.prefix (rw (e, is_false) refl))))

  -- The callout of a sound event has a defined behaviour.
  pub IsSafe-handler :
      (e : Event HwAddr)
      → IsSound e
      → (cfg : Config) → IsSafe api (lease_callout (handler api kea db cfg e))
  unfolding lease_callout handler handle_lease6_rebind handle_lease6_renew handle_lease6_decline
      handle_lease6_release
  IsSafe-handler (selects query lease fake) h cfg =
      IsSafe-catching api _ (handle_lease6_select api kea db query lease fake) (λ x. tt)
        (IsSafe-select query lease fake h)
  IsSafe-handler (expires lease) h cfg =
      IsSafe-catching api _ (handle_lease6_expire api kea db lease) (λ x. tt) (IsSafe-expire lease)
  IsSafe-handler (releases query lease) h cfg =
      IsSafe-catching api _ (handle_lease6_release api kea db query lease) (λ x. tt)
        (IsSafe-release query lease h)
  IsSafe-handler (declines none lease) h cfg = absurd h
  IsSafe-handler (declines (some query) lease) h cfg =
      IsSafe-catching api _ (handle_lease6_release api kea db query lease) (λ x. tt)
        (IsSafe-release query lease h)
  IsSafe-handler (rebinds query lease ia_na ia_pd) h cfg =
      IsSafe-catching api _ (handle_lease6_renew_rebind api kea true db query lease ia_na ia_pd)
        (λ x. tt) (IsSafe-renew_rebind query lease true ia_na ia_pd h)
  IsSafe-handler (renews query lease ia_na ia_pd) h cfg =
      IsSafe-catching api _ (handle_lease6_renew_rebind api kea false db query lease ia_na ia_pd)
        (λ x. tt) (IsSafe-renew_rebind query lease false ia_na ia_pd h)
