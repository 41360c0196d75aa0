-- ===== src/System/Untouched.antt =====
-- Lease events leave the heartbeat alone.
use nxos_dhcp6_exporter.Prelude.{◌≡◌, refl, List, All}
use nxos_dhcp6_exporter.Json.{JsonApi}
use nxos_dhcp6_exporter.Kea.{Kea, LeaseMgr}
use nxos_dhcp6_exporter.Run.{Reply}
use nxos_dhcp6_exporter.Service.{Config}
use nxos_dhcp6_exporter.Heartbeat.{Heartbeat}
use nxos_dhcp6_exporter.System.{Pending, check, call, System, Stimulus, ticks, run}
use nxos_dhcp6_exporter.System.Contract.{Contract, run-IsMet}
use nxos_dhcp6_exporter.System.Batches.{Sends}
use nxos_dhcp6_exporter.System.Handlers.{Sends-handler}

-- A lease event of Kea, or an answer of the switch.
abbrev pub IsNoTick : {H : Type 0} → Stimulus H → Type 0
IsNoTick ticks = ⊥
IsNoTick _ = Unit

module _ (api : JsonApi) (kea : Kea) (db : LeaseMgr kea.HwAddr) (cfg : Config) where
  open api use {Json}
  open kea use {HwAddr}

  -- No check of the heartbeat, and a callback that calls no failure handler, nor do those of what it
  -- posts.
  abbrev pub IsQuiet : Pending Json → Type 0
  IsQuiet (check q) = ⊥
  IsQuiet (call q f) = (reply : Reply Json) → Sends api (f reply)

  abbrev untouched : Heartbeat → Contract api kea db cfg
  untouched h = record {
    Handler = Sends api;
    Waits = IsQuiet;
    Holds = λ s. s.heartbeat ≡ h;
    Allowed = IsNoTick;
    of_logs = λ m r sends. sends;
    of_skips = λ r sends. sends;
    of_posts = λ q f r (hq, hf, hr). (hf, hr);
    of_reports = λ r s sends i. absurd sends;
    of_faults = λ u s sends i. i;
    any_message = λ m s i. i;
    any_waiting = λ l s i. i;
    ticks_so = λ s a i. absurd a;
    happens_so = λ e a. Sends-handler api kea db cfg e;
    answers_call = λ n result d q f a e wait. wait d.reply;
    answers_check = λ n result d q s a e wait i w. absurd wait;
    answers_badly = λ n result u s a e i. i;
  }

  -- Lease events and answers in any order, without a tick, where what waits before is quiet: whatever the
  -- answers are, the state of the heartbeat is as it was, and what waits is quiet.
  pub lease_events_keep_heartbeat :
      (xs : List (Stimulus HwAddr)) (s : System Json)
      → All IsNoTick xs
      → All IsQuiet s.waiting
      → ((run api kea db cfg xs s).heartbeat ≡ s.heartbeat)
        × All IsQuiet (run api kea db cfg xs s).waiting
  lease_events_keep_heartbeat xs s none_ticks quiet =
      run-IsMet api kea db cfg (untouched s.heartbeat) xs s none_ticks (refl, quiet)
