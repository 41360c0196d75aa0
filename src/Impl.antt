-- ===== src/Impl.antt =====
-- src/dhcp6_exporter_impl.cpp: the handlers of Kea's lease events.
pub mod Renewal
use nxos_dhcp6_exporter.Prelude.{ℕ, Bool, true, false, Option, none, some, ◌==◌, if◌then◌else◌}
use nxos_dhcp6_exporter.Outcome.{
  Outcome, ok, raised, fault, unexpected, no_such_argument, null_pointer, ◌>>=◌,
}
use nxos_dhcp6_exporter.Json.{JsonApi}
use nxos_dhcp6_exporter.Kea.{
  IoAddress, Kea, Lease, LeaseMgr, type_na, type_ta, type_pd, type_v4, find_ia_na_lease,
}
use nxos_dhcp6_exporter.Route.{
  RouteInfo, RouteExport, ia_na_info, ia_pd_info, ia_na_info_fuzzy_remove, ia_pd_info_fuzzy_remove,
}
use nxos_dhcp6_exporter.Run.{
  lease6_select_insert, lease6_select_no_ia_na_failed, route_remove_find_ia_na_lease_failed, Run,
  done, faults, logs, skips, ◌▷◌, bind_outcome,
}
use nxos_dhcp6_exporter.Service.{export_route, remove_route}

-- What the program reads of an Option6IA: D6O_IAADDR and D6O_IAPREFIX, each absent, or of another
-- class than the cast expects, or there.
pub record IaOption : Type 0 where
  pub ia_addr : Option (Option IoAddress)
  pub ia_prefix : Option (Option (IoAddress × ℕ))

-- What the program reads of a Pkt6. An IA option that is absent or no Option6IA is `none`.
pub record Query : Type 0 where
  pub relay6_link_address : Outcome IoAddress  -- getRelay6LinkAddress(0)
  pub transid : ℕ
  pub ia_na : Option IaOption
  pub ia_pd : Option IaOption

-- A dereference of a pointer that may be null.
abbrev pub deref {ℓ} : {A : Type ℓ} → Option A → Outcome A
deref none = fault null_pointer
deref (some a) = ok a

-- getRelay... and the options of the renewed address: absent throws, a failed cast faults.
abbrev pub sub_option {ℓ} : {A : Type ℓ} → Outcome A → Option (Option A) → Outcome A
sub_option missing none = missing
sub_option missing (some a) = deref a

-- The try block around handle.getArgument of a pointer, and the test of the pointer.
abbrev pub has_argument {ℓ} : {A : Type ℓ} → Outcome (Option A) → Outcome Bool
has_argument (ok none) = ok false
has_argument (ok (some a)) = ok true
has_argument (raised no_such_argument) = ok false
has_argument (raised e) = raised e
has_argument (fault u) = fault u

-- The original address of a renewed IA_NA.
unfoldable pub original_address : Query → Outcome IoAddress
original_address query = do
  option ← deref query.ia_na
  sub_option (raised (unexpected "failed to extract IAAddr from IA_NA option")) option.ia_addr

-- The original prefix of a renewed IA_PD.
unfoldable pub original_prefix : Query → Outcome (IoAddress × ℕ)
original_prefix query = do
  option ← deref query.ia_pd
  sub_option (raised (unexpected "failed to extract IAPREFIX from IA_PD option")) option.ia_prefix

module _ (api : JsonApi) (kea : Kea) where
  open api use {Json}
  open kea use {HwAddr}

  abbrev pub route : ℕ → Lease HwAddr → RouteInfo → RouteExport
  route tid lease info = record {
    tid = tid;
    iaid = lease.iaid;
    duid = lease.duid;
    route_info = info;
  }

  -- The switch of handleLease6Select.
  unfoldable pub select_by_type : LeaseMgr HwAddr → Query → IoAddress → Lease HwAddr → Run Json
  select_by_type db query relay_addr lease = elim lease.lease_type [
    | type_na ↦ export_route api kea (route query.transid lease (ia_na_info relay_addr lease.addr))
    | type_pd ↦ elim (find_ia_na_lease db lease.duid lease.iaid) [
      | some ia_na_lease ↦
          export_route api kea
            (route query.transid lease (ia_pd_info ia_na_lease.addr lease.addr lease.prefixlen))
      | none ↦ logs lease6_select_no_ia_na_failed (skips done)
    ]
    | type_ta ↦ done
    | type_v4 ↦ done
  ]

  -- DHCP6ExporterImpl::handleLease6Select
  unfoldable pub handle_lease6_select : LeaseMgr HwAddr → Query → Lease HwAddr → Bool → Run Json
  unfolding select_by_type
  handle_lease6_select db query lease fake_allocation =
      if fake_allocation
      then done
      else bind_outcome query.relay6_link_address
          λ relay_addr. logs lease6_select_insert (select_by_type db query relay_addr lease)

  -- DHCP6ExporterImpl::handleLease6Expire
  unfoldable pub handle_lease6_expire : LeaseMgr HwAddr → Lease HwAddr → Run Json
  handle_lease6_expire db lease = elim lease.lease_type [
    | type_na ↦ remove_route api kea db (route 0 lease (ia_na_info_fuzzy_remove lease.addr))
    | type_pd ↦
        remove_route api kea db (route 0 lease (ia_pd_info_fuzzy_remove lease.addr lease.prefixlen))
    | type_ta ↦ done
    | type_v4 ↦ done
  ]

  -- The switch that handleLease6Release and handleLease6Decline have in common. In the latter the
  -- IA_PD case falls through to the cases that do nothing.
  unfoldable pub remove_by_type : LeaseMgr HwAddr → Query → IoAddress → Lease HwAddr → Run Json
  remove_by_type db query relay_addr lease = elim lease.lease_type [
    | type_na ↦
        remove_route api kea db (route query.transid lease (ia_na_info relay_addr lease.addr))
    | type_pd ↦ elim (find_ia_na_lease db lease.duid lease.iaid) [
      | some ia_na_lease ↦
          remove_route api kea db
            (route query.transid lease (ia_pd_info ia_na_lease.addr lease.addr lease.prefixlen))
      | none ↦ logs route_remove_find_ia_na_lease_failed done
    ]
    | type_ta ↦ done
    | type_v4 ↦ done
  ]

  -- DHCP6ExporterImpl::handleLease6Release
  unfoldable pub handle_lease6_release : LeaseMgr HwAddr → Query → Lease HwAddr → Run Json
  unfolding remove_by_type
  handle_lease6_release db query lease =
      bind_outcome query.relay6_link_address λ relay_addr. remove_by_type db query relay_addr lease

  -- DHCP6ExporterImpl::handleLease6Decline; `query` is a pointer that it tests and then dereferences
  unfoldable pub handle_lease6_decline : LeaseMgr HwAddr → Option Query → Lease HwAddr → Run Json
  unfolding remove_by_type
  handle_lease6_decline db query_ptr lease = bind_outcome (deref query_ptr) λ query.
      bind_outcome query.relay6_link_address λ relay_addr. remove_by_type db query relay_addr lease

  -- The IA_NA branch of handleRenewRebindProcess.
  unfoldable pub renew_na :
      LeaseMgr HwAddr → Query → IoAddress → Lease HwAddr → IoAddress → Run Json
  renew_na db query relay_addr lease original =
      let old_route = route query.transid lease (ia_na_info relay_addr original) in
      let new_route = route query.transid lease (ia_na_info relay_addr lease.addr) in
      (if original == lease.addr then done else remove_route api kea db old_route)
      ▷ export_route api kea new_route

  -- The IA_PD branch, from the test of the IA_NA lease on.
  unfoldable pub renew_pd :
      Bool → LeaseMgr HwAddr → Query → IoAddress → Lease HwAddr → IoAddress → ℕ → Run Json
  renew_pd is_rebind db query relay_addr lease original length =
      elim (find_ia_na_lease db lease.duid lease.iaid) [
        | none ↦ elim lease.duid [  -- the message has the text of the DUID
          | none ↦ faults null_pointer
          | some duid ↦ logs route_remove_find_ia_na_lease_failed done
        ]
        | some ia_na_lease ↦
            let old_route = route query.transid lease (ia_pd_info relay_addr original length) in
            let new_route =
              route query.transid lease (ia_pd_info ia_na_lease.addr lease.addr lease.prefixlen) in
            if original == lease.addr
            then (if is_rebind then export_route api kea new_route else done)
            else remove_route api kea db old_route ▷ export_route api kea new_route
      ]

  -- handleRenewRebindProcess; `is_rebind` is its template parameter
  unfoldable pub handle_renew_rebind_process :
      Bool → LeaseMgr HwAddr → Query → Lease HwAddr → Bool → Run Json
  unfolding renew_na renew_pd original_address original_prefix
  handle_renew_rebind_process is_rebind db query lease is_ia_na =
      bind_outcome query.relay6_link_address λ relay_addr.
        if is_ia_na
        then (bind_outcome (original_address query)
            λ original. renew_na db query relay_addr lease original)
        else (bind_outcome (original_prefix query)
            λ original. renew_pd is_rebind db query relay_addr lease original.0 original.1)

  -- The two arguments "ia_na" and "ia_pd", and the call with what the first says.
  unfoldable pub handle_lease6_renew_rebind :
      Bool
      → LeaseMgr HwAddr
      → Query
      → Lease HwAddr
      → Outcome (Option IaOption)
      → Outcome (Option IaOption)
      → Run Json
  unfolding handle_renew_rebind_process
  handle_lease6_renew_rebind is_rebind db query lease ia_na ia_pd =
      bind_outcome (has_argument ia_na) λ is_ia_na.
        bind_outcome (has_argument ia_pd)
          λ is_ia_pd. handle_renew_rebind_process is_rebind db query lease is_ia_na

  -- DHCP6ExporterImpl::handleLease6Rebind
  unfoldable pub handle_lease6_rebind :
      LeaseMgr HwAddr
      → Query
      → Lease HwAddr
      → Outcome (Option IaOption)
      → Outcome (Option IaOption)
      → Run Json
  unfolding handle_lease6_renew_rebind
  handle_lease6_rebind = handle_lease6_renew_rebind true

  -- DHCP6ExporterImpl::handleLease6Renew
  unfoldable pub handle_lease6_renew :
      LeaseMgr HwAddr
      → Query
      → Lease HwAddr
      → Outcome (Option IaOption)
      → Outcome (Option IaOption)
      → Run Json
  unfolding handle_lease6_renew_rebind
  handle_lease6_renew = handle_lease6_renew_rebind false
