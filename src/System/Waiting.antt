-- ===== src/System/Waiting.antt =====
-- What waits for an answer, in every order of events.
use nxos_dhcp6_exporter.Prelude.{refl, List, [], ◌∷◌, All}
use nxos_dhcp6_exporter.Prelude.Int.{pos}
use nxos_dhcp6_exporter.Outcome.{Outcome, ok, raised, fault}
use nxos_dhcp6_exporter.Json.{JsonApi}
use nxos_dhcp6_exporter.Kea.{Kea, LeaseMgr}
use nxos_dhcp6_exporter.Run.{Reply}
use nxos_dhcp6_exporter.Service.{Config, restore_leases_from_database}
use nxos_dhcp6_exporter.Callout.{lease_callout}
use nxos_dhcp6_exporter.Heartbeat.{
  Heartbeat, Action, heartbeat_request, on_reply, writes, calls_failed_handler,
  calls_restored_handler, cancels_timer, sets_timer,
}
use nxos_dhcp6_exporter.System.{
  Pending, check, call, System, write, perform, Stimulus, handler, act, after_check, run,
}
use nxos_dhcp6_exporter.System.Contract.{All-last, Contract, run-IsMet}
use nxos_dhcp6_exporter.System.Batches.{IsBatch}
use nxos_dhcp6_exporter.System.Reports.{SendsOrReports, Sends-SendsOrReports}
use nxos_dhcp6_exporter.System.Requests.{restore_leases_from_database-SendsOrReports}
use nxos_dhcp6_exporter.System.Handlers.{Sends-handler}

module _ (api : JsonApi) (kea : Kea) (db : LeaseMgr kea.HwAddr) (cfg : Config) where
  open api use {Json}
  open kea use {HwAddr}

  -- A batch, whose callback posts nothing but batches, and so do their callbacks.
  abbrev pub IsBatchCall : Pending Json → Type 0
  IsBatchCall (check q) = IsBatch api q
  IsBatchCall (call q f) = IsBatch api q × ((reply : Reply Json) → SendsOrReports api (f reply))

  abbrev pub AllBatches : System Json → Type 0
  AllBatches s = All IsBatchCall s.waiting

  restored-AllBatches :
      (s : System Json)
      → AllBatches s
      → AllBatches (perform (restore_leases_from_database api kea db cfg) s)
  unfolding perform
  restored-AllBatches s h =
      let (q, f, is_post, hq, hf) = restore_leases_from_database-SendsOrReports api kea db cfg in
      rw is_post (All-last IsBatchCall s.waiting (call q f) h (hq, hf))

  act-AllBatches :
      (l : List Action) (s : System Json) → AllBatches s → AllBatches (act api kea db cfg l s)
  unfolding act
  act-AllBatches [] s h = h
  act-AllBatches (writes m ∷ l) s h = act-AllBatches l (write m s) h
  act-AllBatches (calls_failed_handler ∷ l) s h = act-AllBatches l s h
  act-AllBatches (calls_restored_handler ∷ l) s h =
      act-AllBatches l (perform (restore_leases_from_database api kea db cfg) s)
        (restored-AllBatches s h)
  act-AllBatches (cancels_timer ∷ l) s h = act-AllBatches l s h
  act-AllBatches (sets_timer _ ∷ l) s h = act-AllBatches l s h

  after_check-AllBatches :
      (o : Outcome (Heartbeat × List Action)) (s : System Json)
      → AllBatches s
      → AllBatches (after_check api kea db cfg o s)
  after_check-AllBatches (ok (t, actions)) s h = act-AllBatches actions s h
  after_check-AllBatches (raised e) s h = h
  after_check-AllBatches (fault u) s h = h

  check-IsBatch : (h : Heartbeat) → IsBatch api (heartbeat_request api h)
  unfolding heartbeat_request
  check-IsBatch h = record {
    endpoint = refl;
    first = (pos 1, "show version");
    others = [];
    body = refl;
    counted = (refl, tt);
  }

  abbrev batches : Contract api kea db cfg
  batches = record {
    Handler = SendsOrReports api;
    Waits = IsBatchCall;
    Holds = λ s. Unit;
    Allowed = λ x. Unit;
    of_logs = λ m r h. h;
    of_skips = λ r h. h;
    of_posts =
        λ q f r (hq, hf, hr). ((hq, λ reply. Sends-SendsOrReports api (f reply) (hf reply)), hr);
    of_reports = λ r s h i. (tt, h);
    of_faults = λ u s h i. tt;
    any_message = λ m s i. tt;
    any_waiting = λ l s i. tt;
    ticks_so = λ s a i. check-IsBatch s.heartbeat;
    happens_so = λ e a.
        Sends-SendsOrReports api (lease_callout (handler api kea db cfg e))
          (Sends-handler api kea db cfg e);
    answers_call = λ n result d q f a e wait. wait.1 d.reply;
    answers_check = λ n result d q s a e wait i w.
        (tt, after_check-AllBatches (on_reply api s.heartbeat d.reply) s w);
    answers_badly = λ n result u s a e i. tt;
  }

  unrestricted : (xs : List (Stimulus HwAddr)) → All (λ (x : Stimulus HwAddr). Unit {0}) xs
  unrestricted [] = tt
  unrestricted (x ∷ xs) = (tt, unrestricted xs)

  -- Where all that waits is a batch for the endpoint of the switch, of one command or more with the ids
  -- from 1 on, whose callback posts only such batches, and so do their callbacks, this stays so in every
  -- order of ticks, lease events and answers.
  pub only_batches_wait :
      (xs : List (Stimulus HwAddr)) (s : System Json)
      → AllBatches s
      → AllBatches (run api kea db cfg xs s)
  only_batches_wait xs s h = (run-IsMet api kea db cfg batches xs s (unrestricted xs) (tt, h)).1
