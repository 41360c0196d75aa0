-- ===== src/Lifecycle/Ends.antt =====
-- What the callouts of Kea come to while the threads of the clients run: the start of the service, at
-- first and when Kea configures itself again, `unload`, and the stop of a service that was started.
use nxos_dhcp6_exporter.Prelude.{
  ℕ, ◌*◌, ◌%◌, ◌^◌, ◌≡◌, true, false, Option, none, some, List, [], ◌∷◌, refl,
}
use nxos_dhcp6_exporter.Outcome.{not_implemented}
use nxos_dhcp6_exporter.Prelude.Inevitable.{Inevitable}
use nxos_dhcp6_exporter.Params.{ConfigApi, Scheme, http, https}
use nxos_dhcp6_exporter.Callout.{Service, dhcp6_srv_configured, returns, aborts}
use nxos_dhcp6_exporter.Http.Client.{BasicAuth}
use nxos_dhcp6_exporter.Lifecycle.Programs.{
  start_service_calls, destroy_service_calls, stop_service_calls, start_client_calls,
  start_heartbeat_calls, stop_both_calls, auth_of, calls_of,
}
use nxos_dhcp6_exporter.Lifecycle.{
  dying, Call, Control, runs, waits, left, drops_handlers, drops_client, management, Objects,
  Machine, Advances, no_timer, armed_timer, execute, finish,
}
use nxos_dhcp6_exporter.Lifecycle.Conditions.{up, down, stuck, Seen}
use nxos_dhcp6_exporter.Lifecycle.Refine.{Simulates}
use nxos_dhcp6_exporter.Lifecycle.Outcome.{Comes, ends, goes, Follows, Comes-for_good}

-- No client has been made, or all are gone.
abbrev pub out_of_service : Control → Objects Seen
out_of_service control = record {
  control = control;
  clients = record { management_client = none; heartbeat_client = none; dying_client = none };
  timer = no_timer;
  has_restored_handler = false;
}

-- Both clients are up, with their authentications, and the timer is set.
abbrev pub in_service : BasicAuth → BasicAuth → (milliseconds : ℕ) → Control → Objects Seen
in_service auth heartbeat_auth ms control = record {
  control = control;
  clients = record {
    management_client = some (record { condition = up; auth = some auth });
    heartbeat_client = some (record { condition = up; auth = some heartbeat_auth });
    dying_client = none;
  };
  timer = armed_timer ms;
  has_restored_handler = true;
}

-- Between two callouts, with the calls that the next one makes.
pub data IsAtRest (cs : List Call) : Objects Seen → Type 0 where
  unserved : IsAtRest cs (out_of_service (runs cs))
  served : (x y : BasicAuth) (ms : ℕ) → IsAtRest cs (in_service x y ms (runs cs))

pub start-Comes :
    (x y : BasicAuth) (interval : ℕ) {a : Objects Seen}
    → IsAtRest (start_service_calls http (some x) (some y) interval) a
    → Comes a (in_service x y (interval * 1000 % 2 ^ 64) (runs []))
unfolding start_service_calls start_client_calls start_heartbeat_calls execute finish
start-Comes x y interval unserved = goes refl (
    goes refl (
      goes refl (
        goes refl (
          goes refl
            (goes refl (goes refl (goes refl (goes refl (goes refl (goes refl (ends refl)))))))))))
start-Comes x y interval (served u v ms) = goes refl (
    goes refl (
      goes refl (
        goes refl (
          goes refl (
            goes refl (
              goes refl (
                goes refl
                  (goes refl (goes refl (goes refl (goes refl (goes refl (ends refl)))))))))))))

refused-Comes :
    (x y : Option BasicAuth) (interval : ℕ)
    → Comes
        (out_of_service (runs (start_service_calls https x y interval)))
        (out_of_service (left (not_implemented "https tls context init not implemented")))
unfolding start_service_calls start_client_calls execute
refused-Comes x y interval = goes refl (ends refl)

pub unload-Comes :
    {a : Objects Seen} → IsAtRest destroy_service_calls a → Comes a (out_of_service (runs []))
unfolding destroy_service_calls execute finish
unload-Comes unserved = goes refl (goes refl (goes refl (goes refl (ends refl))))
unload-Comes (served u v ms) =
    goes refl (goes refl (goes refl (goes refl (goes refl (goes refl (ends refl))))))

-- The thread waits for ever in the destructor of the heartbeat's client; the management client has been
-- stopped, and is not destroyed.
abbrev pub stuck_in_destructor : BasicAuth → BasicAuth → Objects Seen
stuck_in_destructor auth heartbeat_auth = record {
  control = waits dying (drops_handlers ∷ drops_client management ∷ []);
  clients = record {
    management_client = some (record { condition = down; auth = some auth });
    heartbeat_client = none;
    dying_client = some (record { condition = stuck; auth = some heartbeat_auth });
  };
  timer = no_timer;
  has_restored_handler = true;
}

stop-Comes :
    (x y : BasicAuth) (ms : ℕ)
    → Comes (in_service x y ms (runs stop_service_calls)) (stuck_in_destructor x y)
unfolding stop_service_calls stop_both_calls destroy_service_calls execute finish
stop-Comes x y ms =
    goes refl (goes refl (goes refl (goes refl (goes refl (goes refl (goes refl (ends refl)))))))

-- In the end, and for good, the objects are seen so.
abbrev pub EndsAs : Machine → Objects Seen → Type 0
EndsAs m z = Inevitable Advances (λ u. (v : Machine) → Follows u v → Simulates v.objects z) m

module _ (c : ConfigApi) where
  open c use {scheme}

  pub start_ends :
      (s : Service c) (m : Machine) (a : Objects Seen)
      → scheme s.client.url ≡ http
      → IsAtRest (calls_of c s) a
      → Simulates m.objects a
      → (dhcp6_srv_configured c (some (some s)) true
          ≡ returns (some (some (record s { started = true }))) 0)
        × EndsAs m (
            in_service
              (auth_of c s.client)
              (auth_of c s.heartbeat)
              (s.heartbeat.heartbeat_interval_secs * 1000 % 2 ^ 64)
              (runs []))
  unfolding dhcp6_srv_configured calls_of
  start_ends s m a is_http rest h =
      (rw is_http, Comes-for_good m a _ h (by_scheme (scheme s.client.url) is_http rest))
    where
      by_scheme :
          (x : Scheme)
          → x ≡ http
          → IsAtRest
              (start_service_calls x
                (some (auth_of c s.client))
                (some (auth_of c s.heartbeat))
                s.heartbeat.heartbeat_interval_secs)
              a
          → Comes a (
              in_service
                (auth_of c s.client)
                (auth_of c s.heartbeat)
                (s.heartbeat.heartbeat_interval_secs * 1000 % 2 ^ 64)
                (runs []))
      by_scheme http e rest = start-Comes _ _ _ rest
      by_scheme https e rest = cc

  -- An HTTPS host: dhcp6_srv_configured aborts; startService has thrown before it made a client.
  pub https_ends :
      (s : Service c) (m : Machine)
      → scheme s.client.url ≡ https
      → Simulates m.objects (out_of_service (runs (calls_of c s)))
      → (dhcp6_srv_configured c (some (some s)) true ≡ aborts)
        × EndsAs m
            (out_of_service (left (not_implemented "https tls context init not implemented")))
  unfolding dhcp6_srv_configured calls_of
  https_ends s m is_https h = (
    rw is_https,
    Comes-for_good m _ _ h (
        rw is_https (
          refused-Comes (some (auth_of c s.client)) (some (auth_of c s.heartbeat))
            s.heartbeat.heartbeat_interval_secs)),
  )

-- `unload`, before the first start of the service or while it is in service: however the threads run, the
-- calling thread gets through the destructors, and nothing of the service is left.
pub unload_ends :
    (m : Machine) (a : Objects Seen)
    → IsAtRest destroy_service_calls a
    → Simulates m.objects a
    → EndsAs m (out_of_service (runs []))
unload_ends m a rest h = Comes-for_good m a _ h (unload-Comes rest)

-- stopService of the exporter while the service is in service: however the threads run, both clients are
-- stopped, and then the calling thread waits for ever in the destructor of the heartbeat's client.
pub stop_service_hangs :
    (x y : BasicAuth) (ms : ℕ) (m : Machine)
    → Simulates m.objects (in_service x y ms (runs stop_service_calls))
    → EndsAs m (stuck_in_destructor x y)
stop_service_hangs x y ms m h = Comes-for_good m _ _ h (stop-Comes x y ms)
