-- ===== src/System.antt =====
-- The parts together: the heartbeat, the management client, the service and the handlers of lease
-- events. A step is a tick of the heartbeat's timer, a lease event of Kea, or the answer to one of the
-- requests that wait for one, in any order: the requests of both HTTP clients stand in one list. A
-- callback runs as one step: what callbacks share is the heartbeat, whose mutex they hold, and the queues
-- of the HTTP clients. An exception that leaves a callback ends in threadLoop of
-- src/nxos_http_client.cpp, which drops it.
pub mod Losses
pub mod Recovery
pub mod Failures
pub mod Cases
pub mod Contract
pub mod Batches
pub mod Reports
pub mod Requests
pub mod Untouched
pub mod Handlers
pub mod Safe
pub mod Sound
pub mod Defined
pub mod Waiting
pub mod Lookups
pub mod Leases
pub mod Unset
pub mod Prefixes
pub mod Renewals
use nxos_dhcp6_exporter.Prelude.{ℕ, zero, suc, Bool, Option, none, some, List, [], ◌∷◌, ◌++◌}
use nxos_dhcp6_exporter.Outcome.{Outcome, ok, raised, fault, Fault}
use nxos_dhcp6_exporter.Json.{JsonApi}
use nxos_dhcp6_exporter.Kea.{Kea, Lease, LeaseMgr}
use nxos_dhcp6_exporter.Run.{
  Reply, Request, Log, Run, done, throws, faults, logs, posts, reports_failure, skips,
}
use nxos_dhcp6_exporter.Http.{HttpResult, Delivered, on_result}
use nxos_dhcp6_exporter.Heartbeat.{
  Heartbeat, Action, writes, calls_failed_handler, calls_restored_handler, cancels_timer,
  sets_timer, handler_failed_callback, on_reply, heartbeat_request,
}
use nxos_dhcp6_exporter.Service.{Config, restore_leases_from_database}
use nxos_dhcp6_exporter.Impl.{
  IaOption, Query, handle_lease6_select, handle_lease6_expire, handle_lease6_release,
  handle_lease6_decline, handle_lease6_rebind, handle_lease6_renew,
}
use nxos_dhcp6_exporter.Callout.{lease_callout}

-- A request without its answer: that of the heartbeat, or one with the callback of another part.
pub data Pending (J : Type 0) : Type 0 where
  check : Request J → Pending J
  call : Request J → (Reply J → Run J) → Pending J

pub record System (J : Type 0) : Type 0 where
  pub heartbeat : Heartbeat
  pub waiting : List (Pending J)
  pub written : List Log
  pub undefined : Option Fault

-- Takes the request at a position out of the list.
abbrev pub take_out {ℓ} : {A : Type ℓ} → ℕ → List A → Option (A × List A)
take_out n [] = none
take_out zero (x ∷ l) = some (x, l)
take_out (suc n) (x ∷ l) =
    let rest = take_out n l in elim rest [ none ↦ none | some (y, k) ↦ some (y, x ∷ k) ]

module _ {J : Type 0} where
  abbrev pub write : Log → System J → System J
  write m s = record s { written = s.written ++ m ∷ [] }

  abbrev pub write_some : Option Log → System J → System J
  write_some none s = s
  write_some (some m) s = write m s

  abbrev pub wait_for : Pending J → System J → System J
  wait_for p s = record s { waiting = s.waiting ++ p ∷ [] }

  abbrev pub break_down : Fault → System J → System J
  break_down u s = record s { undefined = some u }

  -- What a handler does to the whole. After undefined behaviour the state is kept, with a note of the last
  -- one in `undefined`, and a run goes on: of the program itself nothing is known from then on.
  unfoldable pub perform : Run J → System J → System J
  unfolding handler_failed_callback
  perform done s = s
  perform (throws e) s = s
  perform (faults u) s = break_down u s
  perform (logs m r) s = perform r (write m s)
  perform (posts q f r) s = perform r (wait_for (call q f) s)
  perform (reports_failure r) s =
      perform r (record s { heartbeat = handler_failed_callback s.heartbeat })
  perform (skips r) s = perform r s

-- An event of Kea with its arguments, one for each lease callout.
pub data Event (H : Type 0) : Type 0 where
  selects : Query → Lease H → (fake_allocation : Bool) → Event H
  expires : Lease H → Event H
  releases : Query → Lease H → Event H
  declines : Option Query → Lease H → Event H
  rebinds renews : Query → Lease H → (ia_na ia_pd : Outcome (Option IaOption)) → Event H

pub data Stimulus (H : Type 0) : Type 0 where
  ticks : Stimulus H
  happens : Event H → Stimulus H
  answers : (position : ℕ) → HttpResult → Stimulus H

module _ (api : JsonApi) (kea : Kea) (db : LeaseMgr kea.HwAddr) (cfg : Config) where
  open api use {Json}
  open kea use {HwAddr}

  -- The body of the try block of each callout.
  unfoldable pub handler : Event HwAddr → Run Json
  unfolding handle_lease6_select handle_lease6_expire handle_lease6_release handle_lease6_decline
      handle_lease6_rebind handle_lease6_renew
  handler (selects query lease fake) = handle_lease6_select api kea db query lease fake
  handler (expires lease) = handle_lease6_expire api kea db lease
  handler (releases query lease) = handle_lease6_release api kea db query lease
  handler (declines query lease) = handle_lease6_decline api kea db query lease
  handler (rebinds query lease ia_na ia_pd) =
      handle_lease6_rebind api kea db query lease ia_na ia_pd
  handler (renews query lease ia_na ia_pd) = handle_lease6_renew api kea db query lease ia_na ia_pd

  -- The actions of the heartbeat's callback. The service sets a handler of restored connections, which
  -- restores the leases, and none of failed ones.
  unfoldable pub act : List Action → System Json → System Json
  unfolding perform restore_leases_from_database
  act [] s = s
  act (writes m ∷ l) s = act l (write m s)
  act (calls_failed_handler ∷ l) s = act l s
  act (calls_restored_handler ∷ l) s =
      act l (perform (restore_leases_from_database api kea db cfg) s)
  act (cancels_timer ∷ l) s = act l s
  act (sets_timer _ ∷ l) s = act l s

  -- The actions come before the fields are set.
  abbrev pub after_check : Outcome (Heartbeat × List Action) → System Json → System Json
  after_check (ok (h, actions)) s = record (act actions s) { heartbeat = h }
  after_check (raised e) s = s
  after_check (fault u) s = break_down u s

  -- The callback of a request.
  unfoldable pub call_back : Pending Json → Reply Json → System Json → System Json
  unfolding act perform on_reply
  call_back (check q) reply s = after_check (on_reply api s.heartbeat reply) s
  call_back (call q f) reply s = perform (f reply) s

  -- An exception before the callback leaves the task.
  abbrev pub deliver_to : Pending Json → Outcome (Delivered api) → System Json → System Json
  deliver_to p (ok d) s = call_back p d.reply (write_some d.log s)
  deliver_to p (raised e) s = s
  deliver_to p (fault u) s = break_down u s

  abbrev pub answer_one :
      Option (Pending Json × List (Pending Json)) → HttpResult → System Json → System Json
  answer_one none result s = s
  answer_one (some (p, rest)) result s =
      deliver_to p (on_result api result) (record s { waiting = rest })

  unfoldable pub step : Stimulus HwAddr → System Json → System Json
  unfolding perform call_back handler lease_callout on_result heartbeat_request
  step ticks s = wait_for (check (heartbeat_request api s.heartbeat)) s
  step (happens e) s = perform (lease_callout (handler e)) s
  step (answers n result) s = answer_one (take_out n s.waiting) result s

  unfoldable pub run : List (Stimulus HwAddr) → System Json → System Json
  unfolding step
  run [] s = s
  run (x ∷ xs) s = run xs (step x s)
