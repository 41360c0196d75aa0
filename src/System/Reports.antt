-- ===== src/System/Reports.antt =====
-- Handlers that may call the failure handler, as the callback of a restoration's lookup does.
use nxos_dhcp6_exporter.Outcome.{Outcome, ok, raised, fault}
use nxos_dhcp6_exporter.Json.{JsonApi}
use nxos_dhcp6_exporter.Run.{
  Reply, Run, done, throws, faults, logs, posts, reports_failure, skips, bind_outcome,
}
use nxos_dhcp6_exporter.System.Batches.{IsBatch, Sends}

module _ (api : JsonApi) where
  open api use {Json}

  -- A handler that may call the failure handler, and posts batches whose callbacks do not.
  abbrev pub SendsOrReports : Run Json → Type 0
  SendsOrReports done = Unit
  SendsOrReports (throws e) = Unit
  SendsOrReports (faults u) = Unit
  SendsOrReports (logs m r) = SendsOrReports r
  SendsOrReports (posts q f r) =
      IsBatch api q × ((reply : Reply Json) → Sends api (f reply)) × SendsOrReports r
  SendsOrReports (reports_failure r) = SendsOrReports r
  SendsOrReports (skips r) = SendsOrReports r

  pub Sends-SendsOrReports : (r : Run Json) → Sends api r → SendsOrReports r
  Sends-SendsOrReports done h = tt
  Sends-SendsOrReports (throws e) h = tt
  Sends-SendsOrReports (faults u) h = tt
  Sends-SendsOrReports (logs m r) h = Sends-SendsOrReports r h
  Sends-SendsOrReports (posts q f r) (hq, hf, h) = (hq, hf, Sends-SendsOrReports r h)
  Sends-SendsOrReports (reports_failure r) h = absurd h
  Sends-SendsOrReports (skips r) h = Sends-SendsOrReports r h

  pub SendsOrReports-bind {ℓ} :
      {A : Type ℓ} (o : Outcome A) (k : A → Run Json)
      → ((a : A) → SendsOrReports (k a))
      → SendsOrReports (bind_outcome o k)
  SendsOrReports-bind (ok a) k h = h a
  SendsOrReports-bind (raised e) k h = tt
  SendsOrReports-bind (fault u) k h = tt
