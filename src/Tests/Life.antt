-- ===== src/Tests/Life.antt =====
-- The theorems on the life of the service with its clients, at concrete inputs.
use nxos_dhcp6_exporter.Prelude.{◌≤◌, refl, true, false, none, some, List, [], ◌∷◌}
use nxos_dhcp6_exporter.Prelude.Inevitable.{Inevitable}
use nxos_dhcp6_exporter.Http.Pool.{running, initial}
use nxos_dhcp6_exporter.Http.Pool.Runs.{first_up}
use nxos_dhcp6_exporter.Http.Pool.Threads.{alive}
use nxos_dhcp6_exporter.Http.Client.{new_http_client, default_pool_size, BasicAuth, HttpClient}
use nxos_dhcp6_exporter.Callout.{Service}
use nxos_dhcp6_exporter.Lifecycle.Programs.{
  start_service_calls, start_client_calls, start_heartbeat_calls, destroy_service_calls,
  stop_service_calls, auth_of,
}
use nxos_dhcp6_exporter.Lifecycle.{
  Call, runs, Clients, Objects, no_timer, armed_timer, Machine, Advances, calls as call_made,
  execute, http_clients, go, makes_client, management, adds_basic_auth, starts_client,
  sets_restored_handler,
}
use nxos_dhcp6_exporter.Lifecycle.Conditions.{up, Seen}
use nxos_dhcp6_exporter.Lifecycle.Refine.{Stands, Simulates, simulates}
use nxos_dhcp6_exporter.Lifecycle.Outcome.{Comes, Follows}
use nxos_dhcp6_exporter.Lifecycle.Callouts.{
  Life, begins, advances, configured, call_out, unloaded, threads_bounded,
}
use nxos_dhcp6_exporter.Params.{http}
use nxos_dhcp6_exporter.Lifecycle.Total.{settles_for_good}
use nxos_dhcp6_exporter.Lifecycle.Ends.{
  out_of_service, in_service, served, stuck_in_destructor, EndsAs, unload_ends, stop_service_hangs,
}
use nxos_dhcp6_exporter.Tests.Data.{sample_config}
use nxos_dhcp6_exporter.Tests.Setup.{http_connection}

abbrev service : Service sample_config
service = record { client = http_connection; heartbeat = http_connection; started = false }

abbrev auth : BasicAuth
auth = auth_of sample_config http_connection

abbrev no_clients : Clients HttpClient
no_clients = record { management_client = none; heartbeat_client = none; dying_client = none }

-- Four threads, all in the service.
abbrev up_client : HttpClient
up_client = record {
  mt_enabled = true;
  pool_size = 4;
  basic_auth = some auth;
  service_stopped = false;
  pool = record initial {
    threads_state = running;
    running_threads = 4;
    thread_pool = 4;
    in_service = 4;
  };
}

abbrev unstarted : List Call → Machine
unstarted calls = record {
  objects = record {
    control = runs calls;
    clients = no_clients;
    timer = no_timer;
    has_restored_handler = false;
  };
  exceptions = 0;
}

-- In service, with tasks of which two let an exception out.
abbrev serving : List Call → Machine
serving calls = record {
  objects = record {
    control = runs calls;
    clients = record {
      management_client = some up_client;
      heartbeat_client = some up_client;
      dying_client = none;
    };
    timer = armed_timer 30000;
    has_restored_handler = true;
  };
  exceptions = 2;
}

up_client-Stands : Stands up_client (record { condition = up; auth = some auth })
up_client-Stands = (refl, refl, (refl, refl, (refl, refl, refl, refl, refl, refl)), first_up 4)

serving-Simulates :
    (calls : List Call)
    → Simulates (serving calls).objects (in_service auth auth 30000 (runs calls))
serving-Simulates calls =
    simulates ((serving calls).objects.clients) (in_service auth auth 30000 (runs calls))
      (up_client-Stands, up_client-Stands, tt) (tt, tt, tt)

unload_ends_example : EndsAs (serving destroy_service_calls) (out_of_service (runs []))
unload_ends_example =
    unload_ends (serving destroy_service_calls)
      (in_service auth auth 30000 (runs destroy_service_calls)) (served auth auth 30000)
      (serving-Simulates destroy_service_calls)

stop_service_hangs_example : EndsAs (serving stop_service_calls) (stuck_in_destructor auth auth)
stop_service_hangs_example =
    stop_service_hangs auth auth 30000 (serving stop_service_calls)
      (serving-Simulates stop_service_calls)

settles_for_good_example :
    (z : Objects Seen) × Comes (in_service auth auth 30000 (runs stop_service_calls)) z
    × Inevitable Advances
        (λ u. (v : Machine) → Follows u v → Simulates v.objects z)
        (serving stop_service_calls)
settles_for_good_example =
    settles_for_good (serving stop_service_calls)
      (in_service auth auth 30000 (runs stop_service_calls)) stop_service_calls
      (serving-Simulates stop_service_calls) refl

-- Kea has configured the library, and the first call, which makes a client, is done.
abbrev configuring : List Call
configuring = start_service_calls http (some auth) (some auth) 30

abbrev half_made : Machine
half_made = record (call_out configuring unloaded) {
  objects =
      execute http_clients (makes_client management)
        (adds_basic_auth management (some auth)
          ∷ starts_client management
          ∷ sets_restored_handler
          ∷ start_heartbeat_calls (some auth) 30)
        (go (runs configuring) unloaded.objects);
}

under_way : Life half_made
unfolding start_service_calls start_client_calls
under_way = advances (configured auth auth 30 begins refl) (call_made _ _ _ refl)

threads_bounded_example :
    let made = new_http_client true default_pool_size in
    (made.pool.thread_pool ≤ 4) × (alive made.pool ≤ 4) × (made.pool.running_threads ≤ 4)
unfolding execute http_clients
threads_bounded_example =
    threads_bounded half_made management (new_http_client true default_pool_size) under_way refl
