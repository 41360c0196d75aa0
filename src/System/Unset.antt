-- ===== src/System/Unset.antt =====
-- The selection of an address lease under every answer to its lookup.
use nxos_dhcp6_exporter.Prelude.{
  ℕ, String, ◌≡◌, refl, inl, false, Option, none, some, List, [], ◌∷◌, ◌++◌, length, ap, ◌∙◌,
}
use nxos_dhcp6_exporter.Outcome.{Outcome, ok, raised, fault, bad_value, ◌>>=◌}
use nxos_dhcp6_exporter.Json.{JsonApi}
use nxos_dhcp6_exporter.Kea.{Kea, IoAddress, Lease, LeaseMgr, type_na}
use nxos_dhcp6_exporter.Nxos.{RouteLookupResponse}
use nxos_dhcp6_exporter.Route.{ia_na_info}
use nxos_dhcp6_exporter.Run.{logs, done, Log, try_outcome, response_parse_error}
use nxos_dhcp6_exporter.Mgmt.Commands.{host_text}
use nxos_dhcp6_exporter.Mgmt.Lookup.{read_route_lookup, relay_interface}
use nxos_dhcp6_exporter.Mgmt.Send.{mapping_failed, post_apply, send_routes_to_switch}
use nxos_dhcp6_exporter.Service.{Config, export_route}
use nxos_dhcp6_exporter.Callout.{lease_callout}
use nxos_dhcp6_exporter.Impl.{Query}
use nxos_dhcp6_exporter.Impl.Renewal.{release_undoes_select}
use nxos_dhcp6_exporter.Http.{HttpResult, Delivered, on_result}
use nxos_dhcp6_exporter.System.{
  Pending, System, take_out, write_some, perform, happens, answers, selects, handler, call_back,
  deliver_to, step, run,
}
use nxos_dhcp6_exporter.System.Lookups.{set_call, lookup_set}
use nxos_dhcp6_exporter.System.Leases.{selection_looks_up}
use nxos_dhcp6_exporter.System.Recovery.{take_out-last}

module _ (api : JsonApi) (kea : Kea) (db : LeaseMgr kea.HwAddr) (cfg : Config) where
  open api use {Json}
  open kea use {HwAddr}

  -- The interface of the relay that an answer to the lookup names: no interface where the answer is not
  -- delivered, is not readable, or does not name exactly one path with an interface.
  unfoldable pub named_by : HttpResult → Outcome String
  named_by result = do
    d ← on_result api result
    l ← read_route_lookup api d.reply
    relay_interface l

  -- What an answer does for a lease's address: with an interface, one request more waits, which sets the
  -- route to it; with none, no request more; with undefined behaviour, that is noted.
  abbrev pub Settles : Outcome String → IoAddress → System Json → System Json → Type 0
  Settles (ok name) addr s end =
      (end.waiting ≡ s.waiting ++ set_call api kea db cfg (host_text kea addr) name ∷ [])
      × (end.heartbeat ≡ s.heartbeat)
      × (end.undefined ≡ s.undefined)
  Settles (raised _) addr s end =
      (end.waiting ≡ s.waiting) × (end.heartbeat ≡ s.heartbeat) × (end.undefined ≡ s.undefined)
  Settles (fault u) addr s end = end.undefined ≡ some u

  after_interface :
      (o : Outcome String) (addr : IoAddress) (s : System Json)
      → Settles o addr s
          (perform (try_outcome o (mapping_failed api) (post_apply api (host_text kea addr))) s)
  unfolding perform post_apply
  after_interface (ok name) addr s = (refl, refl, refl)
  after_interface (raised (bad_value m)) addr s = (refl, refl, refl)
  after_interface (raised _) addr s = (refl, refl, refl)
  after_interface (fault u) addr s = refl

  after_lookup :
      (o : Outcome RouteLookupResponse) (addr : IoAddress) (s : System Json)
      → Settles
          (do l ← o; relay_interface l)
          addr
          s
          (perform
            (try_outcome o
              (λ _. logs response_parse_error done)
              (λ l.
                try_outcome
                  (relay_interface l)
                  (mapping_failed api)
                  (post_apply api (host_text kea addr))))
            s)
  unfolding perform
  after_lookup (ok l) addr s = after_interface (relay_interface l) addr s
  after_lookup (raised e) addr s = (refl, refl, refl)
  after_lookup (fault u) addr s = refl

  -- The message of a failed communication changes nothing of this.
  unlogged :
      (o : Outcome String) (addr : IoAddress) (log : Option Log) (s end : System Json)
      → Settles o addr (write_some log s) end
      → Settles o addr s end
  unlogged o addr none s end h = h
  unlogged (ok name) addr (some m) s end h = h
  unlogged (raised e) addr (some m) s end h = h
  unlogged (fault u) addr (some m) s end h = h

  after_delivery :
      (o : Outcome (Delivered api)) (relay addr : IoAddress) (s : System Json)
      → Settles
          (do d ← o; l ← read_route_lookup api d.reply; relay_interface l)
          addr
          s
          (deliver_to api kea db cfg (lookup_set api kea db cfg relay addr) o s)
  unfolding call_back
  after_delivery (ok d) relay addr s =
      unlogged _ addr d.log s _
        (after_lookup (read_route_lookup api d.reply) addr (write_some d.log s))
  after_delivery (raised e) relay addr s = (refl, refl, refl)
  after_delivery (fault u) relay addr s = refl

  lookup_answered :
      (t : System Json) (n : ℕ) (rest : List (Pending Json)) (relay addr : IoAddress)
      (result : HttpResult)
      → take_out n t.waiting ≡ some (lookup_set api kea db cfg relay addr, rest)
      → Settles
          (named_by result)
          addr
          (record t { waiting = rest })
          (step api kea db cfg (answers n result) t)
  unfolding step named_by
  lookup_answered t n rest relay addr result at_n =
      rw at_n (after_delivery (on_result api result) relay addr (record t { waiting = rest }))

  selection-undefined :
      (s : System Json) (query : Query) (relay : IoAddress) (lease : Lease HwAddr)
      → query.relay6_link_address ≡ ok relay
      → lease.lease_type ≡ type_na
      → (step api kea db cfg (happens (selects query lease false)) s).undefined ≡ s.undefined
  unfolding step handler lease_callout perform export_route send_routes_to_switch
  selection-undefined s query relay lease link na =
      let (selected, _, _) =
        release_undoes_select api kea db query relay lease (ia_na_info relay lease.addr) link
          (inl (na, refl)) in
      rw selected refl

  -- The state before the selection in place of the one in which its answer is delivered.
  unselected :
      (o : Outcome String) (addr : IoAddress) (s t end : System Json)
      → t.heartbeat ≡ s.heartbeat
      → t.undefined ≡ s.undefined
      → Settles o addr (record t { waiting = s.waiting }) end
      → Settles o addr s end
  unselected (ok name) addr s t end h u (w, k, v) = (w, k ∙ h, v ∙ u)
  unselected (raised e) addr s t end h u (w, k, v) = (w, k ∙ h, v ∙ u)
  unselected (fault x) addr s t end h u e = e

  -- The selection of an address lease behind a relay, and then any answer to the request that it added.
  -- This request is the lookup of the relay. Where the answer names an interface, the request that sets the
  -- route of the address to that interface waits behind what waited before; where reading the answer
  -- throws, exactly what waited before waits; in both cases the heartbeat is as it was, and no undefined
  -- behaviour is added. Where reading the answer has undefined behaviour, that is noted, and nothing else is
  -- said.
  pub selection_answered :
      (s : System Json) (query : Query) (relay : IoAddress) (lease : Lease HwAddr)
      (result : HttpResult)
      → query.relay6_link_address ≡ ok relay
      → lease.lease_type ≡ type_na
      → let selection = happens (selects query lease false) in
        ((step api kea db cfg selection s).waiting
          ≡ s.waiting ++ lookup_set api kea db cfg relay lease.addr ∷ [])
        × Settles
            (named_by result)
            lease.addr
            s
            (run api kea db cfg (selection ∷ answers (length s.waiting) result ∷ []) s)
  unfolding run
  selection_answered s query relay lease result link na =
      let n = length s.waiting in
      let t = step api kea db cfg (happens (selects query lease false)) s in
      let (selected, same) = selection_looks_up api kea db cfg s query relay lease link na in
      let at_n =
        ap (take_out n) selected
        ∙ take_out-last s.waiting (lookup_set api kea db cfg relay lease.addr) in
      (
        selected,
        unselected (named_by result) lease.addr s t _ same
            (selection-undefined s query relay lease link na)
            (lookup_answered t n s.waiting relay lease.addr result at_n),
      )
