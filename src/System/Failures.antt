-- ===== src/System/Failures.antt =====
-- The lookup of a restoration that fails: where it counts as a loss, and where it is forgotten.
use nxos_dhcp6_exporter.Prelude.{
  [], ◌∷◌, length, false, ℕ, ◌≡◌, ◌≢◌, refl, ◌⊎◌, inl, inr, true, none, some, List, ap, ◌∙◌,
}
use nxos_dhcp6_exporter.Prelude.Int.{ℤ, pos}
use nxos_dhcp6_exporter.Outcome.{bad_value, ok, raised, Exn}
use nxos_dhcp6_exporter.Json.{JsonApi}
use nxos_dhcp6_exporter.Kea.{Kea, LeaseMgr}
use nxos_dhcp6_exporter.Run.{
  Request, Run, success, reports_failure, done, logs, response_parse_error,
}
use nxos_dhcp6_exporter.Mgmt.Neighbor.{neighbor_callback}
use nxos_dhcp6_exporter.Http.{response, HttpResult, Delivered, on_result}
use nxos_dhcp6_exporter.Heartbeat.{Heartbeat, handler_failed_callback}
use nxos_dhcp6_exporter.Service.{Config, restore_callback}
use nxos_dhcp6_exporter.Service.Restore.{failed_mapping_reported}
use nxos_dhcp6_exporter.System.{
  check, run, Pending, System, take_out, write_some, perform, answers, call_back, step,
}
use nxos_dhcp6_exporter.System.Losses.{IsLost, lookup_neighbors}
use nxos_dhcp6_exporter.System.Recovery.{IsHealthy, check_restores, take_out-last, write_some-keeps}

module _ (api : JsonApi) (kea : Kea) (db : LeaseMgr kea.HwAddr) (cfg : Config) where
  open api use {Json}
  open kea use {HwAddr}

  -- An answer that cannot be read as success.
  abbrev pub HasFailed : Delivered api → Type 0
  HasFailed d =
      (d.reply.response_error ≢ success)
      ⊎ (d.reply.status_code ≢ pos 200)
      ⊎ (d.reply.json_rpc_exception ≢ none)

  reported :
      (r : Run Json) (s : System Json)
      → s.heartbeat.has_restored_handler ≡ true
      → (r ≡ reports_failure done) ⊎ (r ≡ logs response_parse_error (reports_failure done))
      → IsLost (perform r s)
  unfolding perform handler_failed_callback
  reported r s h (inl e) = rw e (record { lost = refl; handled = h })
  reported r s h (inr e) = rw e (record { lost = refl; handled = h })

  -- Where the lookup of a restoration is answered by a failure, of the transport, in the status or in the
  -- JSON-RPC response, the connection counts as lost again.
  pub failed_lookup_is_loss :
      (s : System Json) (n : ℕ) (rest : List (Pending Json)) (result : HttpResult)
      (d : Delivered api)
      → s.heartbeat.has_restored_handler ≡ true
      → take_out n s.waiting ≡ some (lookup_neighbors api kea db cfg, rest)
      → on_result api result ≡ ok d
      → HasFailed d
      → IsLost (step api kea db cfg (answers n result) s)
  unfolding step call_back
  failed_lookup_is_loss s n rest result d handled at_n got bad =
      let s1 = record s { waiting = rest } in
      let s2 = write_some d.log s1 in
      let (kh, _) = write_some-keeps api kea db cfg d.log s1 in
      rw (at_n, got)
        (reported (neighbor_callback kea api (restore_callback api kea db cfg) d.reply) s2
          (ap (λ (h : Heartbeat). h.has_restored_handler) kh ∙ handled)
          (failed_mapping_reported api kea db cfg d.reply bad))

  -- Where the task of that lookup throws before its callback, as for an empty body, the lookup is gone and
  -- the heartbeat is as it was: the failure is reported to nobody.
  pub thrown_lookup_forgotten :
      (s : System Json) (n : ℕ) (rest : List (Pending Json)) (result : HttpResult) (e : Exn)
      → take_out n s.waiting ≡ some (lookup_neighbors api kea db cfg, rest)
      → on_result api result ≡ raised e
      → step api kea db cfg (answers n result) s ≡ record s { waiting = rest }
  unfolding step
  thrown_lookup_forgotten s n rest result e at_n bad = rw (at_n, bad)

  -- A lost connection, the answer to a check that passes, and a response with an empty body to the lookup
  -- that this check starts, whatever its status: after these two steps nothing waits but what waited
  -- before, no route has been sent, and the connection counts as held. The failure is reported to nobody.
  pub restoration_forgotten :
      (s : System Json) (n : ℕ) (q : Request Json) (rest : List (Pending Json))
      (checked : HttpResult) (status : ℤ)
      → IsLost s
      → take_out n s.waiting ≡ some (check q, rest)
      → IsHealthy api kea db cfg checked
      → let t =
          run api kea db cfg
            (answers n checked ∷ answers (length rest) (response status "") ∷ [])
            s in
        (t.waiting ≡ rest) × (t.heartbeat.prev_lost_connection ≡ false)
  unfolding run on_result
  restoration_forgotten s n q rest checked status lost at_n healthy =
      let s1 = step api kea db cfg (answers n checked) s in
      let (w, held, _) = check_restores api kea db cfg s n q rest checked lost at_n healthy in
      let last =
        ap (take_out (length rest)) w ∙ take_out-last rest (lookup_neighbors api kea db cfg) in
      rw
        (thrown_lookup_forgotten s1 (length rest) rest (response status "")
          (bad_value "no body found in the response") last refl)
        (refl, held)
