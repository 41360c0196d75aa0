-- ===== src/System/Defined.antt =====
-- Where the switch gives no result, no run has undefined behaviour.
use nxos_dhcp6_exporter.Prelude.{◌≡◌, ◌≢◌, inl, inr, refl, none, List, All, arith, Bool-cases, ◌∙◌}
use nxos_dhcp6_exporter.Outcome.{ok, NoFault}
use nxos_dhcp6_exporter.Json.{JsonApi}
use nxos_dhcp6_exporter.Kea.{Kea, LeaseMgr}
use nxos_dhcp6_exporter.Run.{success, Reply}
use nxos_dhcp6_exporter.Heartbeat.{Heartbeat, on_reply, on_failure, check_reply, read_uptime}
use nxos_dhcp6_exporter.Http.{HttpResult, failed, Delivered, map_error, on_result}
use nxos_dhcp6_exporter.Http.Errors.{HttplibError}
use nxos_dhcp6_exporter.Mgmt.Neighbor.{neighbor_callback}
use nxos_dhcp6_exporter.Service.{Config, restore_callback}
use nxos_dhcp6_exporter.Service.Restore.{failed_mapping_reported}
use nxos_dhcp6_exporter.System.{
  Pending, check, call, System, Stimulus, ticks, happens, answers, after_check, act, run,
}
use nxos_dhcp6_exporter.System.Contract.{Contract, run-IsMet}
use nxos_dhcp6_exporter.System.Safe.{IsEmptyReply, IsSafe}
use nxos_dhcp6_exporter.System.Sound.{IsSound, IsSafe-handler}

module _ (api : JsonApi) (kea : Kea) (db : LeaseMgr kea.HwAddr) (cfg : Config) where
  open api use {Json}
  open kea use {HwAddr}

  -- The result of a POST reaches a callback without a response, or no callback.
  abbrev pub GivesNothing : HttpResult → Type 0
  GivesNothing result =
      NoFault (on_result api result)
      × ((d : Delivered api) → on_result api result ≡ ok d → IsEmptyReply api d.reply)

  ok_injective : {a b : Delivered api} → ok a ≡ ok b → a ≡ b
  ok_injective e = cc

  -- A transport that fails gives nothing.
  pub failed-GivesNothing :
      (error : HttplibError) → map_error error ≢ success → GivesNothing (failed error)
  unfolding on_result
  failed-GivesNothing error bad =
      (λ u e. cc, λ d e. let same : _ ≡ d = ok_injective e in rw (← same) (refl, inl bad))

  abbrev pub IsAllowed : Stimulus HwAddr → Type 0
  IsAllowed ticks = Unit
  IsAllowed (happens e) = IsSound api kea db e
  IsAllowed (answers n result) = GivesNothing result

  -- A check of the heartbeat, or a request whose callback is safe.
  abbrev pub IsSafeCall : Pending Json → Type 0
  IsSafeCall (check q) = Unit
  IsSafeCall (call q f) = (reply : Reply Json) → IsEmptyReply api reply → IsSafe api (f reply)

  -- The lookup of a restoration is safe.
  pub lookup-IsSafe :
      (reply : Reply Json)
      → IsEmptyReply api reply
      → IsSafe api (neighbor_callback kea api (restore_callback api kea db cfg) reply)
  lookup-IsSafe reply (empty, bad) =
      elim (failed_mapping_reported api kea db cfg reply
        (elim bad [ inl transport ↦ inl transport | inr error ↦ inr (inr error) ])) [
          | inl e ↦ rw e tt
          | inr e ↦ rw e tt
        ]

  -- A check that gets an empty reply has failed.
  check-fails :
      (h : Heartbeat) (reply : Reply Json)
      → IsEmptyReply api reply
      → on_reply api h reply ≡ ok (on_failure h)
  unfolding on_reply check_reply read_uptime
  check-fails h reply (empty, bad) = ground (arith, bad)

  failure-defined :
      (s : System Json)
      → let t = after_check api kea db cfg (ok (on_failure s.heartbeat)) s in
        (t.undefined ≡ s.undefined) × (t.waiting ≡ s.waiting)
  unfolding on_failure act
  failure-defined s = elim (Bool-cases s.heartbeat.has_failed_handler) [
    | inl e ↦ (rw e refl, rw e refl)
    | inr e ↦ (rw e refl, rw e refl)
  ]

  abbrev defined : Contract api kea db cfg
  defined = record {
    Handler = IsSafe api;
    Waits = IsSafeCall;
    Holds = λ s. s.undefined ≡ none;
    Allowed = IsAllowed;
    of_logs = λ m r h. h;
    of_skips = λ r h. h;
    of_posts = λ q f r h. h;
    of_reports = λ r s h i. (i, h);
    of_faults = λ u s h i. absurd h;
    any_message = λ m s i. i;
    any_waiting = λ l s i. i;
    ticks_so = λ s a i. tt;
    happens_so = λ e a. IsSafe-handler api kea db e a cfg;
    answers_call = λ n result d q f a e wait. wait d.reply (a.1 d e);
    answers_check = λ n result d q s a e wait i w.
        let (same_fault, same_waiting) = failure-defined s in
        rw (check-fails s.heartbeat d.reply (a.1 d e)) (same_fault ∙ i, rw same_waiting w);
    answers_badly = λ n result u s a e i. absurd (a.0 u e);
  }

  -- Where no answer gives a result, as when the switch cannot be reached or answers by JSON-RPC errors,
  -- and what Kea gives with each lease event is what the handlers rely on: in every order of ticks,
  -- lease events and answers, the behaviour of the whole stays defined.
  pub unreachable_switch_defined :
      (xs : List (Stimulus HwAddr)) (s : System Json)
      → All IsAllowed xs
      → s.undefined ≡ none
      → All IsSafeCall s.waiting
      → (run api kea db cfg xs s).undefined ≡ none
  unreachable_switch_defined xs s allowed so_far safe =
      (run-IsMet api kea db cfg defined xs s allowed (so_far, safe)).0
