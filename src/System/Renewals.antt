-- ===== src/System/Renewals.antt =====
-- A renewed lease with another address than its client asked to keep.
use nxos_dhcp6_exporter.Prelude.{
  suc, String, ◌≡◌, ◌≢◌, refl, Bool, true, false, Option, some, List, [], ◌∷◌, ◌++◌, length, ap,
  ◌∙◌, inl, inr,
}
use nxos_dhcp6_exporter.Outcome.{Outcome, ok}
use nxos_dhcp6_exporter.Json.{JsonApi}
use nxos_dhcp6_exporter.Kea.{Kea, IoAddress, Lease, LeaseMgr}
use nxos_dhcp6_exporter.Mgmt.Commands.{host_text}
use nxos_dhcp6_exporter.Mgmt.Send.{send_routes_to_switch}
use nxos_dhcp6_exporter.Mgmt.Remove.{remove_routes_from_switch}
use nxos_dhcp6_exporter.Service.{Config, export_route, remove_route}
use nxos_dhcp6_exporter.Impl.{
  IaOption, Query, original_address, handle_lease6_renew_rebind, handle_lease6_renew, has_argument,
}
use nxos_dhcp6_exporter.Impl.Renewal.{renewed_address}
use nxos_dhcp6_exporter.Callout.{lease_callout}
use nxos_dhcp6_exporter.Http.{HttpResult}
use nxos_dhcp6_exporter.System.{
  System, take_out, perform, happens, answers, renews, handler, step, run,
}
use nxos_dhcp6_exporter.System.Lookups.{
  IsNamed, set_call, remove_call, lookup_set, lookup_remove, set_follows, remove_follows,
}

take_out-middle {ℓ} :
    {A : Type ℓ} (l : List A) (x y : A)
    → take_out (length l) (l ++ x ∷ y ∷ []) ≡ some (x, l ++ y ∷ [])
take_out-middle [] x y = refl
take_out-middle (z ∷ l) x y = rw (take_out-middle l x y)

take_out-second {ℓ} :
    {A : Type ℓ} (l : List A) (x y : A)
    → take_out (suc (length l)) (l ++ x ∷ y ∷ []) ≡ some (y, l ++ x ∷ [])
take_out-second [] x y = refl
take_out-second (z ∷ l) x y = rw (take_out-second l x y)

append-two {ℓ} : {A : Type ℓ} (l : List A) (x y : A) → (l ++ x ∷ []) ++ y ∷ [] ≡ l ++ x ∷ y ∷ []
append-two [] x y = refl
append-two (z ∷ l) x y = ap (λ m. z ∷ m) (append-two l x y)

module _ (api : JsonApi) (kea : Kea) (db : LeaseMgr kea.HwAddr) (cfg : Config) where
  open api use {Json}
  open kea use {HwAddr}

  -- The renewal of an address lease whose client asked to keep another address.
  pub record IsMoved (query : Query) (relay original : IoAddress) (lease : Lease HwAddr)
      (ia_na ia_pd : Outcome (Option IaOption)) : Type 0 where
    pub link : query.relay6_link_address ≡ ok relay
    pub has_ia_na : has_argument ia_na ≡ ok true
    pub ia_pd_read : Bool
    pub has_ia_pd : has_argument ia_pd ≡ ok ia_pd_read
    pub asked : original_address query ≡ ok original
    pub moved : original ≢ lease.addr

  renewal_looks_up :
      (s : System Json) (query : Query) (relay original : IoAddress) (lease : Lease HwAddr)
      (ia_na ia_pd : Outcome (Option IaOption))
      → IsMoved query relay original lease ia_na ia_pd
      → let t = step api kea db cfg (happens (renews query lease ia_na ia_pd)) s in
        (t.waiting
          ≡ s.waiting
            ++ lookup_remove api kea db cfg relay original
              ∷ lookup_set api kea db cfg relay lease.addr
              ∷ [])
        × (t.heartbeat ≡ s.heartbeat)
  unfolding step handler lease_callout perform remove_route remove_routes_from_switch export_route
      send_routes_to_switch handle_lease6_renew handle_lease6_renew_rebind
  renewal_looks_up s query relay original lease ia_na ia_pd h =
      elim (renewed_address api kea db query relay lease false original h.link h.asked) [
        | inl (same, _) ↦ absurd (h.moved same)
        | inr (_, renewed) ↦
            rw (h.has_ia_na, h.has_ia_pd, renewed)
              (
                append-two s.waiting (lookup_remove api kea db cfg relay original)
                    (lookup_set api kea db cfg relay lease.addr),
                refl,
              )
      ]

  -- A renewed address lease with another address than the client asked to keep, in any state of the whole,
  -- and the answers to the two lookups that it starts, in either order: then two requests more wait, in
  -- the order of the answers. One removes the route of the old address, the other sets that of the
  -- new one.
  pub renewal_replaces :
      (s : System Json) (query : Query) (relay original : IoAddress) (lease : Lease HwAddr)
      (ia_na ia_pd : Outcome (Option IaOption)) (first second : HttpResult)
      (old_name new_name : String)
      → IsMoved query relay original lease ia_na ia_pd
      → IsNamed api kea db cfg first old_name
      → IsNamed api kea db cfg second new_name
      → let n = length s.waiting in
        let renewal = happens (renews query lease ia_na ia_pd) in
        let removal = remove_call api kea db cfg (host_text kea original) old_name in
        let setting = set_call api kea db cfg (host_text kea lease.addr) new_name in
        ((run api kea db cfg (renewal ∷ answers n first ∷ answers n second ∷ []) s).waiting
          ≡ s.waiting ++ removal ∷ setting ∷ [])
        × ((run api kea db cfg (renewal ∷ answers (suc n) second ∷ answers n first ∷ []) s).waiting
            ≡ s.waiting ++ setting ∷ removal ∷ [])
  unfolding run
  renewal_replaces s query relay original lease ia_na ia_pd first second old_name new_name h named_1
        named_2 =
      let n = length s.waiting in
      let t = step api kea db cfg (happens (renews query lease ia_na ia_pd)) s in
      let before_remove = lookup_remove api kea db cfg relay original in
      let before_set = lookup_set api kea db cfg relay lease.addr in
      let removal = remove_call api kea db cfg (host_text kea original) old_name in
      let setting = set_call api kea db cfg (host_text kea lease.addr) new_name in
      let (both, _) = renewal_looks_up s query relay original lease ia_na ia_pd h in
      let t1 = step api kea db cfg (answers n first) t in
      let (w1, _) =
        remove_follows api kea db cfg t n (s.waiting ++ before_set ∷ []) relay original old_name
          first named_1
          (ap (take_out n) both ∙ take_out-middle s.waiting before_remove before_set) in
      let (w2, _) =
        set_follows api kea db cfg t1 n (s.waiting ++ removal ∷ []) relay lease.addr new_name second
          named_2
          (ap (take_out n) (w1 ∙ append-two s.waiting before_set removal)
            ∙ take_out-middle s.waiting before_set removal) in
      let u1 = step api kea db cfg (answers (suc n) second) t in
      let (v1, _) =
        set_follows api kea db cfg t (suc n) (s.waiting ++ before_remove ∷ []) relay lease.addr
          new_name second named_2
          (ap (take_out (suc n)) both ∙ take_out-second s.waiting before_remove before_set) in
      let (v2, _) =
        remove_follows api kea db cfg u1 n (s.waiting ++ setting ∷ []) relay original old_name first
          named_1
          (ap (take_out n) (v1 ∙ append-two s.waiting before_remove setting)
            ∙ take_out-middle s.waiting before_remove setting) in
      (w2 ∙ append-two s.waiting removal setting, v2 ∙ append-two s.waiting setting removal)
