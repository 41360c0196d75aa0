-- ===== src/Lifecycle.antt =====
-- The life of the service with its two HTTP clients: what the thread of Kea that calls the library does
-- in startService and stopService of src/nxos_management_client.cpp, src/nxos_heartbeat_service.cpp,
-- src/dhcp6_exporter_service.cpp and src/dhcp6_exporter_impl.cpp, and in `unload` of src/callout.cpp,
-- call by call, while the threads of the clients run.

pub mod Conditions
pub mod Slots
pub mod Refine
pub mod Execute
pub mod Waits
pub mod Settle
pub mod Outcome
pub mod Programs
pub mod Ends
pub mod Total
pub mod Callouts
use nxos_dhcp6_exporter.Prelude.{
  ℕ, ◌*◌, ◌%◌, ◌^◌, ◌≡◌, Bool, true, false, Option, none, some, List, [], ◌∷◌, ◌++◌,
}
use nxos_dhcp6_exporter.Outcome.{Exn, not_implemented, Fault, null_pointer}
use nxos_dhcp6_exporter.Params.{ConfigApi, ConnectionParams, Scheme, http, https}
use nxos_dhcp6_exporter.Callout.{Service}
use nxos_dhcp6_exporter.Http.Pool.{Pool, wait_running, wait_exited, end_start, end_stop}
use nxos_dhcp6_exporter.Http.Client.{
  BasicAuth, HttpClient, default_pool_size, new_http_client, add_basic_auth, start_http_client,
  stop_http_client, destroy_http_client, ThreadStep,
}

-- The pointers to HTTP clients: those of the management client and of the heartbeat service, and that
-- of a client whose destructor runs.
pub data Slot : Type 0 where
  management heartbeat dying : Slot

pub data Timer : Type 0 where
  no_timer idle_timer : Timer
  armed_timer : (milliseconds : ℕ) → Timer

-- What the calling thread does on one of the objects.
pub data Call : Type 0 where
  -- m_httpClient = make_shared<NXOSHttpClient>(true): the client that was there is destroyed.
  makes_client : Slot → Call
  adds_basic_auth : Slot → Option BasicAuth → Call
  starts_client stops_client : Slot → Call
  -- The last pointer to a client goes.
  drops_client : Slot → Call
  makes_timer cancels_timer drops_timer : Call
  sets_timer : (milliseconds : ℕ) → Call
  sets_restored_handler : Call
  drops_handlers : Call
  raises : Exn → Call

-- Where the calling thread is: it has calls to make, it waits in a call on a client, or it has left by an
-- exception, or by undefined behaviour.
pub data Control : Type 0 where
  runs : List Call → Control
  waits : Slot → List Call → Control
  left : Exn → Control
  breaks : Fault → Control

-- The pointers, to clients of any representation.
pub record Clients (C : Type 0) : Type 0 where
  pub management_client : Option C  -- NXOSManagementClient::m_httpClient
  pub heartbeat_client : Option C  -- NXOSHeartbeatService::m_httpClient
  pub dying_client : Option C

pub record Objects (C : Type 0) : Type 0 where
  pub control : Control
  pub clients : Clients C
  pub timer : Timer  -- NXOSHeartbeatService::m_timer
  pub has_restored_handler : Bool  -- HeartbeatService::connectionRestoredHandler

-- A client as the calling thread uses it, each call up to its wait.
pub record ClientApi (C : Type 0) : Type 0 where
  pub new_client : C
  pub add_auth : Option BasicAuth → C → C
  pub start : C → C
  pub stop : C → C
  pub destroy : C → C

module _ {C : Type 0} where
  abbrev pub client_at : Slot → Clients C → Option C
  client_at management cs = cs.management_client
  client_at heartbeat cs = cs.heartbeat_client
  client_at dying cs = cs.dying_client

  abbrev pub put : Slot → Option C → Clients C → Clients C
  put management c cs = record cs { management_client = c }
  put heartbeat c cs = record cs { heartbeat_client = c }
  put dying c cs = record cs { dying_client = c }

  abbrev pub put_client : Slot → Option C → Objects C → Objects C
  put_client w c o = record o { clients = put w c o.clients }

  abbrev pub go : Control → Objects C → Objects C
  go control o = record o { control = control }

  -- `m_httpClient->...` with the null pointer, and with a client
  abbrev pub with_client : Option C → (C → Objects C) → Objects C → Objects C
  with_client none f o = go (breaks null_pointer) o
  with_client (some c) f o = f c

  abbrev pub cancel : Timer → List Call → Objects C → Objects C
  cancel no_timer rest o = go (breaks null_pointer) o
  cancel _ rest o = go (runs rest) (record o { timer = idle_timer })

  abbrev pub set_timer : Timer → ℕ → List Call → Objects C → Objects C
  set_timer no_timer ms rest o = go (breaks null_pointer) o
  set_timer _ ms rest o = go (runs rest) (record o { timer = armed_timer ms })

  module _ (api : ClientApi C) where
    open api use {new_client, add_auth, start, stop, destroy}

    -- The last pointer to a client goes: its destructor runs, and waits.
    abbrev pub release : Option C → List Call → Objects C → Objects C
    release none rest o = go (runs rest) o
    release (some c) rest o = go (waits dying rest) (put_client dying (some (destroy c)) o)

    -- One call, up to its wait, with the calls that follow it.
    unfoldable pub execute : Call → List Call → Objects C → Objects C
    execute (makes_client w) rest o =
        release (client_at w o.clients) rest (put_client w (some new_client) o)
    execute (adds_basic_auth w auth) rest o =
        with_client (client_at w o.clients)
          (λ c. go (runs rest) (put_client w (some (add_auth auth c)) o)) o
    execute (starts_client w) rest o =
        with_client (client_at w o.clients)
          (λ c. go (waits w rest) (put_client w (some (start c)) o)) o
    execute (stops_client w) rest o =
        with_client (client_at w o.clients)
          (λ c. go (waits w rest) (put_client w (some (stop c)) o)) o
    execute (drops_client w) rest o = release (client_at w o.clients) rest (put_client w none o)
    execute makes_timer rest o = go (runs rest) (record o { timer = idle_timer })
    execute cancels_timer rest o = cancel o.timer rest o
    execute drops_timer rest o = go (runs rest) (record o { timer = no_timer })
    execute (sets_timer ms) rest o = set_timer o.timer ms rest o
    execute sets_restored_handler rest o = go (runs rest) (record o { has_restored_handler = true })
    execute drops_handlers rest o = go (runs rest) (record o { has_restored_handler = false })
    execute (raises e) rest o = go (left e) o

  -- After a wait: a client that was destroyed is gone, another one stays.
  unfoldable pub finish : Slot → C → List Call → Objects C → Objects C
  finish dying c rest o = go (runs rest) (put_client dying none o)
  finish w c rest o = go (runs rest) (put_client w (some c) o)

-- The clients of the program, and their threads: `exceptions` counts the tasks of the clients' services
-- that will still let an exception out.
unfoldable pub http_clients : ClientApi HttpClient
unfolding new_http_client add_basic_auth start_http_client stop_http_client destroy_http_client
http_clients = record {
  new_client = new_http_client true default_pool_size;
  add_auth = add_basic_auth;
  start = start_http_client;
  stop = stop_http_client;
  destroy = destroy_http_client;
}

pub record Machine : Type 0 where
  pub objects : Objects HttpClient
  pub exceptions : ℕ

pub data Advances : Machine → Machine → Type 0 where
  calls :
      (m : Machine) (call : Call) (rest : List Call)
      → m.objects.control ≡ runs (call ∷ rest)
      → Advances m (record m { objects = execute http_clients call rest m.objects })
  start_ends :
      (m : Machine) (w : Slot) (c : HttpClient) (rest : List Call)
      → m.objects.control ≡ waits w rest
      → client_at w m.objects.clients ≡ some c
      → c.pool.main ≡ wait_running
      → c.pool.running_threads ≡ c.pool.thread_pool
      → Advances m
          (record m { objects = finish w (record c { pool = end_start c.pool }) rest m.objects })
  stop_ends :
      (m : Machine) (w : Slot) (c : HttpClient) (rest : List Call)
      → m.objects.control ≡ waits w rest
      → client_at w m.objects.clients ≡ some c
      → c.pool.main ≡ wait_exited
      → c.pool.exited_threads ≡ c.pool.thread_pool
      → Advances m
          (record m { objects = finish w (record c { pool = end_stop c.pool }) rest m.objects })
  thread :
      (m : Machine) (w : Slot) (c : HttpClient) (k l : ℕ) (t : Pool)
      → client_at w m.objects.clients ≡ some c
      → m.exceptions ≡ k
      → ThreadStep c.service_stopped k c.pool l t
      → Advances m (record {
        objects = put_client w (some (record c { pool = t })) m.objects;
        exceptions = l;
      })
