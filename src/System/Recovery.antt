-- ===== src/System/Recovery.antt =====
-- From a lost connection to the routes on their way: two answers of the switch.
use nxos_dhcp6_exporter.Prelude.{
  ℕ, String, ◌≡◌, refl, true, false, Option, none, some, List, [], ◌∷◌, ◌++◌, All, length, map, ap,
  ◌∙◌, sym,
}
use nxos_dhcp6_exporter.Prelude.Int.{pos}
use nxos_dhcp6_exporter.Outcome.{ok}
use nxos_dhcp6_exporter.Json.{JsonApi}
use nxos_dhcp6_exporter.Kea.{Kea, Lease, LeaseMgr}
use nxos_dhcp6_exporter.Nxos.{UptimeResponse, NeighborLookupResponse}
use nxos_dhcp6_exporter.Run.{Log, Reply, Request, success}
use nxos_dhcp6_exporter.Mgmt.Commands.{apply_route_command, host_text}
use nxos_dhcp6_exporter.Mgmt.Send.{request, handle_route_apply}
use nxos_dhcp6_exporter.Mgmt.Neighbor.{
  HwAddrMap, add_objects, vrf_objects, read_neighbors, deliver, neighbor_callback,
  async_get_mapping,
}
use nxos_dhcp6_exporter.Http.{HttpResult, Delivered, on_result}
use nxos_dhcp6_exporter.Heartbeat.{Heartbeat, on_uptime, check_reply, on_reply}
use nxos_dhcp6_exporter.Service.{
  Config, subnet_ids, leases_of_subnets, restore_callback, restore_leases_from_database,
}
use nxos_dhcp6_exporter.Service.Restore.{IsMapped, host_routes, addresses_restored}
use nxos_dhcp6_exporter.System.{
  Pending, check, call, System, take_out, write_some, perform, answers, act, call_back, step, run,
}
use nxos_dhcp6_exporter.System.Losses.{IsLost, lookup_neighbors}

pub take_out-last {ℓ} :
    {A : Type ℓ} (l : List A) (x : A) → take_out (length l) (l ++ x ∷ []) ≡ some (x, l)
take_out-last [] x = refl
take_out-last (y ∷ l) x = rw (take_out-last l x)

append-cons {ℓ} : {A : Type ℓ} (l : List A) (x : A) (k : List A) → (l ++ x ∷ []) ++ k ≡ l ++ x ∷ k
append-cons [] x k = refl
append-cons (y ∷ l) x k = ap (λ m. y ∷ m) (append-cons l x k)

append_nil {ℓ} : {A : Type ℓ} (l : List A) → l ++ [] ≡ l
append_nil [] = refl
append_nil (y ∷ l) = ap (λ m. y ∷ m) (append_nil l)

module _ (api : JsonApi) (kea : Kea) (db : LeaseMgr kea.HwAddr) (cfg : Config) where
  open api use {Json}
  open kea use {HwAddr}

  -- The answer to a check that passes, with the uptime in it.
  pub record IsHealthy (result : HttpResult) : Type 0 where
    pub delivered : Delivered api
    pub got : on_result api result ≡ ok delivered
    pub uptime : UptimeResponse
    pub passed : check_reply api delivered.reply ≡ ok (some uptime)

  -- The answer to the request for the neighbour table that gives this map.
  pub record IsMapping (result : HttpResult) (m : HwAddrMap kea) : Type 0 where
    pub delivered : Delivered api
    pub got : on_result api result ≡ ok delivered
    pub transport : delivered.reply.response_error ≡ success
    pub status : delivered.reply.status_code ≡ pos 200
    pub lookup : NeighborLookupResponse
    pub readable : read_neighbors kea api delivered.reply ≡ ok lookup
    pub built : add_objects kea (vrf_objects kea lookup.table_vrf) [] ≡ ok m

  -- The request for the route of an address lease.
  abbrev pub host_call : Lease HwAddr × String → Pending Json
  host_call (lease, interface) =
      let src = host_text kea lease.addr in
      call (request api ((pos 1, apply_route_command src interface) ∷ []))
        (handle_route_apply api src interface)

  perform-host_routes :
      (known : List (Lease HwAddr × String)) (s : System Json)
      → ((perform (host_routes api kea db known) s).waiting ≡ s.waiting ++ map host_call known)
        × ((perform (host_routes api kea db known) s).heartbeat ≡ s.heartbeat)
  unfolding perform
  perform-host_routes [] s = (sym (append_nil s.waiting), refl)
  perform-host_routes ((lease, interface) ∷ known) s =
      let src = host_text kea lease.addr in
      let p = host_call (lease, interface) in
      let (h, k) = perform-host_routes known (record s { waiting = s.waiting ++ p ∷ [] }) in
      (h ∙ append-cons s.waiting p (map host_call known), k)

  pub write_some-keeps :
      (o : Option Log) (s : System Json)
      → ((write_some o s).heartbeat ≡ s.heartbeat) × ((write_some o s).waiting ≡ s.waiting)
  write_some-keeps none s = (refl, refl)
  write_some-keeps (some m) s = (refl, refl)

  check_called :
      (q : Request Json) (reply : Reply Json) (uptime : UptimeResponse) (o : Option Log)
      (s : System Json)
      → IsLost s
      → check_reply api reply ≡ ok (some uptime)
      → let t = call_back api kea db cfg (check q) reply (write_some o s) in
        (t.waiting ≡ s.waiting ++ lookup_neighbors api kea db cfg ∷ [])
        × (t.heartbeat.prev_lost_connection ≡ false)
        × (t.heartbeat.has_restored_handler ≡ true)
  unfolding call_back on_reply act perform on_uptime restore_leases_from_database async_get_mapping
  check_called q reply uptime none s h passed =
      (rw (passed, h.lost, h.handled), rw (passed, h.lost), rw (passed, h.lost) h.handled)
  check_called q reply uptime (some m) s h passed =
      (rw (passed, h.lost, h.handled), rw (passed, h.lost), rw (passed, h.lost) h.handled)

  -- A check that passes on a lost connection.
  pub check_restores :
      (s : System Json) (n : ℕ) (q : Request Json) (rest : List (Pending Json))
      (result : HttpResult)
      → IsLost s
      → take_out n s.waiting ≡ some (check q, rest)
      → IsHealthy result
      → let t = step api kea db cfg (answers n result) s in
        (t.waiting ≡ rest ++ lookup_neighbors api kea db cfg ∷ [])
        × (t.heartbeat.prev_lost_connection ≡ false)
        × (t.heartbeat.has_restored_handler ≡ true)
  unfolding step
  check_restores s n q rest result h at_n healthy =
      rw (at_n, healthy.got)
        (check_called q healthy.delivered.reply healthy.uptime healthy.delivered.log
          (record s { waiting = rest }) (record { lost = h.lost; handled = h.handled })
          healthy.passed)

  mapped_run :
      (reply : Reply Json) (lookup : NeighborLookupResponse) (m : HwAddrMap kea) (ids : List ℕ)
      (known : List (Lease HwAddr × String))
      → reply.response_error ≡ success
      → reply.status_code ≡ pos 200
      → read_neighbors kea api reply ≡ ok lookup
      → add_objects kea (vrf_objects kea lookup.table_vrf) [] ≡ ok m
      → subnet_ids cfg ≡ ok ids
      → leases_of_subnets api kea db ids ≡ map (λ (p : Lease HwAddr × String). p.0) known
      → All (λ (p : Lease HwAddr × String). IsMapped api kea db m p.0 p.1) known
      → neighbor_callback kea api (restore_callback api kea db cfg) reply
        ≡ host_routes api kea db known
  unfolding neighbor_callback deliver restore_callback
  mapped_run reply lookup m ids known t c r b subnets leases mapped =
      rw (t, c, r, b, subnets, leases) (addresses_restored api kea db m known mapped)

  -- The answer to the lookup.
  lookup_restores :
      (s : System Json) (n : ℕ) (rest : List (Pending Json)) (result : HttpResult)
      (m : HwAddrMap kea) (ids : List ℕ) (known : List (Lease HwAddr × String))
      → take_out n s.waiting ≡ some (lookup_neighbors api kea db cfg, rest)
      → IsMapping result m
      → subnet_ids cfg ≡ ok ids
      → leases_of_subnets api kea db ids ≡ map (λ (p : Lease HwAddr × String). p.0) known
      → All (λ (p : Lease HwAddr × String). IsMapped api kea db m p.0 p.1) known
      → let t = step api kea db cfg (answers n result) s in
        (t.waiting ≡ rest ++ map host_call known) × (t.heartbeat ≡ s.heartbeat)
  unfolding step call_back
  lookup_restores s n rest result m ids known at_n a subnets leases mapped =
      let e =
        mapped_run a.delivered.reply a.lookup m ids known a.transport a.status a.readable a.built
          subnets leases mapped in
      let s1 = record s { waiting = rest } in
      let s2 = write_some a.delivered.log s1 in
      let (w, h) = perform-host_routes known s2 in
      let (kh, kw) = write_some-keeps a.delivered.log s1 in
      rw (at_n, a.got, e) (w ∙ ap (λ l. l ++ map host_call known) kw, h ∙ kh)

  -- A lost connection, the answer to a check that passes, and the answer to the lookup that this check
  -- starts: after these two steps the connection counts as held, and for each lease of the database, where
  -- all are of addresses whose clients are in the map, the request that sets its route waits, behind
  -- what waited before.
  pub recovery :
      (s : System Json) (n : ℕ) (q : Request Json) (rest : List (Pending Json))
      (checked looked_up : HttpResult) (m : HwAddrMap kea) (ids : List ℕ)
      (known : List (Lease HwAddr × String))
      → IsLost s
      → take_out n s.waiting ≡ some (check q, rest)
      → IsHealthy checked
      → IsMapping looked_up m
      → subnet_ids cfg ≡ ok ids
      → leases_of_subnets api kea db ids ≡ map (λ (p : Lease HwAddr × String). p.0) known
      → All (λ (p : Lease HwAddr × String). IsMapped api kea db m p.0 p.1) known
      → let t = run api kea db cfg (answers n checked ∷ answers (length rest) looked_up ∷ []) s in
        (t.waiting ≡ rest ++ map host_call known) × (t.heartbeat.prev_lost_connection ≡ false)
  unfolding run
  recovery s n q rest checked looked_up m ids known lost at_n healthy mapping subnets leases
        mapped =
      let s1 = step api kea db cfg (answers n checked) s in
      let (w, held, _) = check_restores s n q rest checked lost at_n healthy in
      let last =
        ap (take_out (length rest)) w ∙ take_out-last rest (lookup_neighbors api kea db cfg) in
      let (done_waiting, same) =
        lookup_restores s1 (length rest) rest looked_up m ids known last mapping subnets leases
          mapped in
      (done_waiting, ap (λ (h : Heartbeat). h.prev_lost_connection) same ∙ held)
