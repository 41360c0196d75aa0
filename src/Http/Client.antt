-- ===== src/Http/Client.antt =====
-- NXOSHttpClient and NXOSHttpClientImpl (src/nxos_http_client.cpp) as objects: the constructors,
-- setBasicAuth, startClient, stopClient and the destructor, the last three up to their waits, and the
-- steps that the threads of a client take on their own.
use nxos_dhcp6_exporter.Prelude.{ℕ, String, suc, ◌-◌, ◌≡◌, Bool, true, false, Option, none, some}
use nxos_dhcp6_exporter.Run.{
  ResponseError, success, unknown, connection, bind_ip_address, read, write, exceed_redirect_count,
  canceled, ssl_connection, ssl_loading_certs, ssl_server_verification,
  unsupported_multipart_boundary_chars, compression, connection_timeout, proxy_connection,
}
use nxos_dhcp6_exporter.Http.Pool.{
  running, stopped, Pool, initial, begin_start, stop_client, destructor, Step,
}

-- BasicHttpAuth: the login and the password
pub record BasicAuth : Type 0 where
  pub login : String
  pub password : String

-- NXOSHttpClientImpl, with whether its IOService is stopped; that service has work at all times.
pub record HttpClient : Type 0 where
  pub mt_enabled : Bool
  pub pool_size : ℕ
  pub basic_auth : Option BasicAuth
  pub service_stopped : Bool
  pub pool : Pool

abbrev pub default_pool_size : ℕ
default_pool_size = 4

-- NXOSHttpClient::NXOSHttpClient
unfoldable pub new_http_client : Bool → ℕ → HttpClient
new_http_client mt_enabled pool_size = record {
  mt_enabled = mt_enabled;
  pool_size = pool_size;
  basic_auth = none;
  service_stopped = false;
  pool = initial;
}

-- addBasicAuth and setBasicAuth: a null pointer leaves what was set.
unfoldable pub add_basic_auth : Option BasicAuth → HttpClient → HttpClient
add_basic_auth none c = c
add_basic_auth (some auth) c = record c { basic_auth = some auth }

-- startClient: the service is restarted, and threads are made while there are fewer than the size.
unfoldable pub start_http_client : HttpClient → HttpClient
start_http_client c = record c {
  service_stopped = false;
  pool = begin_start (c.pool_size - c.pool.thread_pool) c.pool;
}

-- stopClient
unfoldable pub stop_http_client : HttpClient → HttpClient
stop_http_client c = record c { service_stopped = true; pool = stop_client c.pool }

-- ~NXOSHttpClientImpl
unfoldable pub destroy_http_client : HttpClient → HttpClient
destroy_http_client c = record c { service_stopped = true; pool = destructor c.pool }

-- What a thread does on its own, in a pool whose service is stopped or not. The service's run returns
-- once the service is stopped, and ends by an exception that a task lets out; the tasks that do so yet
-- are counted before and after the step.
pub data ThreadStep (service_stopped : Bool) : ℕ → Pool → ℕ → Pool → Type 0 where
  reads_running :
      (k n : ℕ) (s : Pool)
      → s.threads_state ≡ running
      → s.at_test ≡ suc n
      → ThreadStep service_stopped k s k (record s { at_test = n; to_enter = suc s.to_enter })
  enters :
      (k n : ℕ) (s : Pool)
      → s.to_enter ≡ suc n
      → ThreadStep service_stopped k s k (record s {
        to_enter = n;
        in_service = suc s.in_service;
        running_threads = suc s.running_threads;
      })
  returns :
      (k n m : ℕ) (s : Pool)
      → service_stopped ≡ true
      → s.in_service ≡ suc n
      → s.running_threads ≡ suc m
      → ThreadStep service_stopped k s k
          (record s { at_test = suc s.at_test; in_service = n; running_threads = m })
  throws :
      (k n m : ℕ) (s : Pool)
      → s.in_service ≡ suc n
      → s.running_threads ≡ suc m
      → ThreadStep service_stopped
          (suc k)
          s
          k
          (record s { at_test = suc s.at_test; in_service = n; running_threads = m })
  reads_stopped :
      (k n : ℕ) (s : Pool)
      → s.threads_state ≡ stopped
      → s.at_test ≡ suc n
      → ThreadStep service_stopped k s k (record s { at_test = n; to_exit = suc s.to_exit })
  exits :
      (k n : ℕ) (s : Pool)
      → s.to_exit ≡ suc n
      → ThreadStep service_stopped k s k
          (record s { to_exit = n; exited_threads = suc s.exited_threads })

-- NXOSHttpClient::ResponseErrorToString casts to httplib::Error, by the number of the constant.
abbrev pub error_number : ResponseError → ℕ
error_number success = 0
error_number unknown = 1
error_number connection = 2
error_number bind_ip_address = 3
error_number read = 4
error_number write = 5
error_number exceed_redirect_count = 6
error_number canceled = 7
error_number ssl_connection = 8
error_number ssl_loading_certs = 9
error_number ssl_server_verification = 10
error_number unsupported_multipart_boundary_chars = 11
error_number compression = 12
error_number connection_timeout = 13
error_number proxy_connection = 14

-- with httplib::to_string as a parameter, by the number of the error
unfoldable pub response_error_to_string : (ℕ → String) → ResponseError → String
response_error_to_string to_string error = to_string (error_number error)

-- What a thread does on its own, it does as a step of the pool.
pub ThreadStep-Step : (p : ℕ) {b : Bool} {k l : ℕ} {s t : Pool} → ThreadStep b k s l t → Step p s t
ThreadStep-Step p (reads_running k n s m c) = Step.reads_running s n m c
ThreadStep-Step p (enters k n s c) = Step.enters s n c
ThreadStep-Step p (returns k n m s b c d) = Step.leaves s n m c d
ThreadStep-Step p (throws k n m s c d) = Step.leaves s n m c d
ThreadStep-Step p (reads_stopped k n s m c) = Step.reads_stopped s n m c
ThreadStep-Step p (exits k n s c) = Step.exits s n c
