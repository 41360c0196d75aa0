-- ===== src/Heartbeat/Rules.antt =====
-- When the heartbeat service has the routes sent again.
use nxos_dhcp6_exporter.Prelude.{
  ℕ, suc, ◌+◌, ◌*◌, ◌^◌, ◌≤◌, ◌<◌, ◌≡◌, ◌↔◌, ◌⊎◌, refl, true, false, Option, none, some, List, [],
  ◌∷◌, ◌++◌, map, ap, ◌∙◌, arith, ltb, zero,
}
use nxos_dhcp6_exporter.Prelude.Int.{pos}
use nxos_dhcp6_exporter.Json.{JsonApi}
use nxos_dhcp6_exporter.Nxos.{UptimeResponse}
use nxos_dhcp6_exporter.Heartbeat.{
  Heartbeat, Action, writes, calls_failed_handler, calls_restored_handler, cancels_timer,
  sets_timer, uptime_seconds, on_failure, on_uptime, on_checked,
}

-- The calls of the handler of a restored connection.
abbrev pub restorations : List Action → ℕ
restorations [] = 0
restorations (calls_restored_handler ∷ l) = suc (restorations l)
restorations (_ ∷ l) = restorations l

-- A check that passed calls the handler once if one is set and the connection was lost before or the
-- uptime fell, and else not at all. A failed check never does.
pub restored_iff :
    (h : Heartbeat) (uptime : ℕ)
    → (restorations (on_uptime h uptime).1 ≤ 1)
      × ((restorations (on_uptime h uptime).1 ≡ 1) ↔ (
          (h.has_restored_handler ≡ true)
          × ((h.prev_lost_connection ≡ true) ⊎ (uptime < h.prev_uptime_secs))))
      × (restorations (on_failure h).1 ≡ 0)
unfolding on_uptime on_failure
restored_iff h uptime = (ground arith, (ground arith, ground arith), ground arith)

-- After a check that has the routes sent again, the next check that passes never does, whatever the
-- uptime: one that fell in between, a reboot, goes unnoticed.
pub reboot_missed :
    (h : Heartbeat) (uptime next : ℕ)
    → (h.prev_lost_connection ≡ true) ⊎ (uptime < h.prev_uptime_secs)
    → let after = (on_uptime h uptime).0 in
      on_uptime after next
      ≡ (record after { prev_uptime_secs = next; prev_lost_connection = false }, [])
unfolding on_uptime
reboot_missed h uptime next lost = ground arith

-- The states and actions of a sequence of checks, `none` a failed one.
abbrev pub checks : JsonApi → Heartbeat → List (Option UptimeResponse) → Heartbeat × List Action
checks api h [] = (h, [])
checks api h (c ∷ rest) =
    let (h1, l1) = on_checked api h c in let (h2, l2) = checks api h1 rest in (h2, l1 ++ l2)

-- The uptimes of the checks never fall, from this one on.
abbrev pub Rising : ℕ → List UptimeResponse → Type 0
Rising n [] = Unit
Rising n (u ∷ rest) = (n ≤ uptime_seconds u) × Rising (uptime_seconds u) rest

-- A check that passes while the connection holds and the uptime does not fall only notes the uptime.
steady :
    (h : Heartbeat) (n : ℕ)
    → h.prev_lost_connection ≡ false
    → h.prev_uptime_secs ≤ n
    → on_uptime h n ≡ (record h { prev_uptime_secs = n; prev_lost_connection = false }, [])
unfolding on_uptime
steady h n kept first = let e : ltb n h.prev_uptime_secs ≡ false = ground arith in rw (kept, e)

quiet :
    (api : JsonApi) (us : List UptimeResponse) (h : Heartbeat)
    → h.prev_lost_connection ≡ false
    → Rising h.prev_uptime_secs us
    → restorations (checks api h (map some us)).1 ≡ 0
quiet api [] h kept rising = refl
quiet api (u ∷ us) h kept (first, rising) = rw (steady h (uptime_seconds u) kept first) (
    quiet api us (record h { prev_uptime_secs = uptime_seconds u; prev_lost_connection = false })
      refl rising)

restorations-append : (l k : List Action) → restorations (l ++ k) ≡ restorations l + restorations k
restorations-append [] k = omega arith
restorations-append (calls_restored_handler ∷ l) k = omega (arith, restorations-append l k)
restorations-append (writes x ∷ l) k = restorations-append l k
restorations-append (calls_failed_handler ∷ l) k = restorations-append l k
restorations-append (cancels_timer ∷ l) k = restorations-append l k
restorations-append (sets_timer x ∷ l) k = restorations-append l k

-- This many failed checks, and then the others.
abbrev pub after_failures : ℕ → List (Option UptimeResponse) → List (Option UptimeResponse)
after_failures zero l = l
after_failures (suc n) l = none ∷ after_failures n l

recovered :
    (api : JsonApi) (h : Heartbeat) (u : UptimeResponse) (us : List UptimeResponse)
    → h.has_restored_handler ≡ true
    → h.prev_lost_connection ≡ true
    → Rising 0 us
    → restorations (checks api h (some u ∷ map some us)).1 ≡ 1
unfolding on_uptime
recovered api h u us set lost rising =
    let after = record h {
      has_restored_handler = true;
      prev_uptime_secs = 0;
      prev_lost_connection = false;
    } in
    rw (lost, set) (ap suc (quiet api us after refl rising))

-- Where a handler is set and the connection counts as lost, as it does from the start of the service on:
-- however many checks fail first, the checks that pass after them, with uptimes that do not fall, call
-- the handler of a restored connection exactly once.
pub one_restoration :
    (api : JsonApi) (failures : ℕ) (h : Heartbeat) (u : UptimeResponse) (us : List UptimeResponse)
    → h.has_restored_handler ≡ true
    → h.prev_lost_connection ≡ true
    → Rising 0 us
    → restorations (checks api h (after_failures failures (some u ∷ map some us))).1 ≡ 1
unfolding on_failure
one_restoration api zero h u us set lost rising = recovered api h u us set lost rising
one_restoration api (suc n) h u us set lost rising =
    let rest = after_failures n (some u ∷ map some us) in
    let after = record h { prev_lost_connection = true } in
    restorations-append (on_failure h).1 (checks api after rest).1
    ∙ omega (arith, (restored_iff h 0).2, one_restoration api n after u us set refl rising)

-- Days, hours, minutes and seconds that are not negative and fit in 32 signed bits give the seconds of
-- the uptime, with no wrap.
pub uptime_seconds_exact :
    (d h m s : ℕ)
    → d < 2 ^ 31
    → h < 2 ^ 31
    → m < 2 ^ 31
    → s < 2 ^ 31
    → uptime_seconds (record {
      kern_uptm_days = pos d;
      kern_uptm_hrs = pos h;
      kern_uptm_mins = pos m;
      kern_uptm_secs = pos s;
    })
      ≡ s + m * 60 + h * 3600 + d * 86400
unfolding uptime_seconds
uptime_seconds_exact d h m s hd hh hm hs = omega arith
