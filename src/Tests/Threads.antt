-- ===== src/Tests/Threads.antt =====
-- The theorems on the thread pool, at concrete inputs.
use nxos_dhcp6_exporter.Prelude.{inl, refl, arith}
use nxos_dhcp6_exporter.Prelude.Inevitable.{Inevitable}
use nxos_dhcp6_exporter.Http.Pool.{
  Pool, initial, stop_client, destructor, running, begin_start, end_start, starts, reads_running,
  enters, started, Step, Reach, here, next,
}
use nxos_dhcp6_exporter.Http.Pool.Stop.{IsDown, destructor_hangs}
use nxos_dhcp6_exporter.Http.Pool.Threads.{IsSound, Reach-IsSound}

starting : Reach 4 (begin_start 4 initial)
starting = next here (starts initial 4 refl (inl refl))

Reach-IsSound_example : IsSound 4 (begin_start 4 initial)
Reach-IsSound_example = Reach-IsSound 4 (begin_start 4 initial) starting

-- A pool of one thread, in the service.
abbrev one_up : Pool
one_up = record initial {
  threads_state = running;
  running_threads = 1;
  thread_pool = 1;
  in_service = 1;
}

one_up_reached : Reach 1 one_up
unfolding begin_start end_start
one_up_reached =
    let made = next here (starts initial 1 refl (inl refl)) in
    let entering = next made (reads_running (begin_start 1 initial) 0 refl refl) in
    let entered = next entering (enters _ 0 refl) in next entered (started _ refl refl)

destructor_hangs_example :
    Inevitable
      (Step 1)
      (λ t. IsDown 1 t × ((u : Pool) → ¬ Step 1 (destructor t) u))
      (stop_client one_up)
destructor_hangs_example = destructor_hangs 1 one_up (omega arith) one_up_reached refl refl
