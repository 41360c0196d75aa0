-- ===== src/System/Losses.antt =====
-- A lost connection in the whole system: it is remembered until the restoration is under way.
use nxos_dhcp6_exporter.Prelude.{
  ◌≡◌, refl, ◌⊎◌, inl, inr, true, Option, none, some, List, [], ◌∷◌, ◌++◌, ap,
}
use nxos_dhcp6_exporter.Prelude.Int.{pos}
use nxos_dhcp6_exporter.Outcome.{Outcome, ok, raised, fault, ◌>>=◌}
use nxos_dhcp6_exporter.Json.{JsonApi}
use nxos_dhcp6_exporter.Kea.{Kea, LeaseMgr}
use nxos_dhcp6_exporter.Nxos.{UptimeResponse}
use nxos_dhcp6_exporter.Run.{Reply, Run, done, throws, faults, logs, posts, reports_failure, skips}
use nxos_dhcp6_exporter.Mgmt.Commands.{show_neighbour_command}
use nxos_dhcp6_exporter.Mgmt.Send.{request}
use nxos_dhcp6_exporter.Mgmt.Neighbor.{neighbor_callback, async_get_mapping}
use nxos_dhcp6_exporter.Http.{HttpResult, Delivered, on_result}
use nxos_dhcp6_exporter.Heartbeat.{
  handler_failed_callback, on_failure, on_uptime, on_checked, check_reply, on_reply,
}
use nxos_dhcp6_exporter.Service.{Config, restore_callback, restore_leases_from_database}
use nxos_dhcp6_exporter.System.{
  Pending, check, call, System, take_out, write, write_some, perform, Stimulus, ticks, happens,
  answers, act, call_back, deliver_to, answer_one, after_check, step, run, handler,
}
use nxos_dhcp6_exporter.Callout.{lease_callout}

-- The connection counts as lost, and the service has set its handler.
pub record IsLost {J : Type 0} (s : System J) : Type 0 where
  pub lost : s.heartbeat.prev_lost_connection ≡ true
  pub handled : s.heartbeat.has_restored_handler ≡ true

module _ {J : Type 0} where
  perform-IsLost : (r : Run J) (s : System J) → IsLost s → IsLost (perform r s)
  unfolding perform handler_failed_callback
  perform-IsLost done s h = h
  perform-IsLost (throws e) s h = h
  perform-IsLost (faults u) s h = record { lost = h.lost; handled = h.handled }
  perform-IsLost (logs m r) s h = perform-IsLost r _ (record { lost = h.lost; handled = h.handled })
  perform-IsLost (posts q f r) s h =
      perform-IsLost r _ (record { lost = h.lost; handled = h.handled })
  perform-IsLost (reports_failure r) s h =
      perform-IsLost r _ (record { lost = refl; handled = h.handled })
  perform-IsLost (skips r) s h = perform-IsLost r s h

module _ (api : JsonApi) (kea : Kea) (db : LeaseMgr kea.HwAddr) (cfg : Config) where
  open api use {Json}
  open kea use {HwAddr}

  -- The request for the neighbour table, with the callback that restores the leases.
  abbrev pub lookup_neighbors : Pending Json
  lookup_neighbors =
      call (request api ((pos 1, show_neighbour_command) ∷ []))
        (neighbor_callback kea api (restore_callback api kea db cfg))

  -- The restoration is under way: its request is the last one that waits.
  abbrev pub IsRestoring : System Json → Type 0
  IsRestoring s = (before : List (Pending Json)) × (s.waiting ≡ before ++ lookup_neighbors ∷ [])

  checked :
      (s : System Json) (c : Outcome (Option UptimeResponse))
      → IsLost s
      → let t = after_check api kea db cfg (do x ← c; ok (on_checked api s.heartbeat x)) s in
        IsLost t ⊎ IsRestoring t
  unfolding act perform on_uptime on_failure restore_leases_from_database async_get_mapping
  checked s (raised e) h = inl h
  checked s (fault u) h = inl (record { lost = h.lost; handled = h.handled })
  checked s (ok none) h = inl (record { lost = refl; handled = h.handled })
  checked s (ok (some u)) h = inr (s.waiting, rw (h.lost, h.handled))

  called_back :
      (p : Pending Json) (reply : Reply Json) (s : System Json)
      → IsLost s
      → IsLost (call_back api kea db cfg p reply s)
        ⊎ IsRestoring (call_back api kea db cfg p reply s)
  unfolding call_back on_reply
  called_back (check q) reply s h = checked s (check_reply api reply) h
  called_back (call q f) reply s h = inl (perform-IsLost (f reply) s h)

  delivered :
      (p : Pending Json) (r : Outcome (Delivered api)) (s : System Json)
      → IsLost s
      → IsLost (deliver_to api kea db cfg p r s) ⊎ IsRestoring (deliver_to api kea db cfg p r s)
  delivered p (ok d) s h =
      elim d.log
        as (λ o.
          IsLost (call_back api kea db cfg p d.reply (write_some o s))
          ⊎ IsRestoring (call_back api kea db cfg p d.reply (write_some o s))) [
            | none ↦ called_back p d.reply s h
            | some m ↦
                called_back p d.reply (write m s) (record { lost = h.lost; handled = h.handled })
          ]
  delivered p (raised e) s h = inl h
  delivered p (fault u) s h = inl (record { lost = h.lost; handled = h.handled })

  answered :
      (o : Option (Pending Json × List (Pending Json))) (result : HttpResult) (s : System Json)
      → IsLost s
      → IsLost (answer_one api kea db cfg o result s)
        ⊎ IsRestoring (answer_one api kea db cfg o result s)
  answered none result s h = inl h
  answered (some (p, rest)) result s h =
      delivered p (on_result api result) (record s { waiting = rest })
        (record { lost = h.lost; handled = h.handled })

  -- A step from a lost connection keeps it lost, or leaves the restoration under way.
  stepped :
      (x : Stimulus HwAddr) (s : System Json)
      → IsLost s
      → IsLost (step api kea db cfg x s) ⊎ IsRestoring (step api kea db cfg x s)
  unfolding step
  stepped ticks s h = inl (record { lost = h.lost; handled = h.handled })
  stepped (happens e) s h = inl (perform-IsLost (lease_callout (handler api kea db cfg e)) s h)
  stepped (answers n result) s h = answered (take_out n s.waiting) result s h

  -- In every order of ticks, lease events and answers, a lost connection stays lost until a moment at
  -- which the restoration is under way.
  pub loss_remembered :
      (xs : List (Stimulus HwAddr)) (s : System Json)
      → IsLost s
      → IsLost (run api kea db cfg xs s)
        ⊎ ((before : List (Stimulus HwAddr)) × (after : List (Stimulus HwAddr)) × (xs
              ≡ before ++ after)
            × IsRestoring (run api kea db cfg before s))
  unfolding run
  loss_remembered [] s h = inl h
  loss_remembered (x ∷ xs) s h = elim (stepped x s h) [
    | inr under_way ↦ inr (x ∷ [], xs, refl, under_way)
    | inl still ↦ elim (loss_remembered xs (step api kea db cfg x s) still) [
      | inl end ↦ inl end
      | inr (before, after, split, under_way) ↦
          inr (x ∷ before, after, ap (λ l. x ∷ l) split, under_way)
    ]
  ]
