-- ===== src/Lifecycle/Execute.antt =====
-- Each call keeps the relation between the clients with their threads and those that are a condition.
use nxos_dhcp6_exporter.Prelude.{ℕ, true, false, Option, none, some, List, refl, arith}
use nxos_dhcp6_exporter.Outcome.{null_pointer}
use nxos_dhcp6_exporter.Http.Client.{
  HttpClient, new_http_client, add_basic_auth, start_http_client, stop_http_client,
  destroy_http_client,
}
use nxos_dhcp6_exporter.Http.Pool.{here}
use nxos_dhcp6_exporter.Lifecycle.{
  Slot, dying, Timer, no_timer, idle_timer, armed_timer, Call, makes_client, adds_basic_auth,
  starts_client, stops_client, drops_client, makes_timer, cancels_timer, drops_timer, sets_timer,
  sets_restored_handler, drops_handlers, raises, runs, waits, left, breaks, Clients, Objects,
  client_at, put, go, execute, http_clients, release, with_client, cancel, set_timer,
}
use nxos_dhcp6_exporter.Lifecycle.Conditions.{
  fresh, starting, Seen, see_auth, see_stop, seen_clients,
}
use nxos_dhcp6_exporter.Lifecycle.Slots.{All, All-at, All-but, All-set, Each, Each-at, Each-put}
use nxos_dhcp6_exporter.Lifecycle.Refine.{
  Stands, StandsAt, IsSettled, IsSettledAt, with_clients, Simulates, simulates, start-Stands,
  stop-Stands, destroy-Stands, auth-Stands, auth-IsSettled,
}

-- A call keeps the simulation.
release-Simulates :
    (x : Option HttpClient) (y : Option Seen) (rest : List Call) (cs : Clients HttpClient)
    (a : Objects Seen)
    → StandsAt x y
    → IsSettledAt y
    → Each StandsAt cs a.clients
    → All IsSettledAt a.clients
    → Simulates (release http_clients x rest (with_clients cs a)) (release seen_clients y rest a)
unfolding http_clients
release-Simulates none none rest cs a h settled each all = simulates cs (go (runs rest) a) each all
release-Simulates (some c) (some s) rest cs a h settled each all =
    simulates (put dying (some (destroy_http_client c)) cs)
      (go (waits dying rest) (record a { clients = put dying (some (see_stop s)) a.clients }))
      (Each-put StandsAt dying (some (destroy_http_client c)) (some (see_stop s)) cs a.clients each
        (destroy-Stands c s h settled))
      (All-but IsSettledAt dying (some (see_stop s)) a.clients all)
release-Simulates none (some s) rest cs a h settled each all = absurd h
release-Simulates (some c) none rest cs a h settled each all = absurd h

-- The same of what a call does with the client at a pointer, if there is one.
with-Simulates :
    (f : HttpClient → Objects HttpClient) (g : Seen → Objects Seen)
    → ((c : HttpClient) (s : Seen) → Stands c s → IsSettled s.condition → Simulates (f c) (g s))
    → (w : Slot) (cs : Clients HttpClient) (a : Objects Seen) → Each StandsAt cs a.clients
    → All IsSettledAt a.clients
    → Simulates
        (with_client (client_at w cs) f (with_clients cs a))
        (with_client (client_at w a.clients) g a)
with-Simulates f g each_client w cs a each all =
    by_pair (client_at w cs) (client_at w a.clients) (Each-at StandsAt w cs a.clients each)
      (All-at IsSettledAt w a.clients all)
  where
    by_pair :
        (x : Option HttpClient) (y : Option Seen)
        → StandsAt x y
        → IsSettledAt y
        → Simulates (with_client x f (with_clients cs a)) (with_client y g a)
    by_pair none none h settled = simulates cs (go (breaks null_pointer) a) each all
    by_pair (some c) (some s) h settled = each_client c s h settled
    by_pair none (some s) h settled = absurd h
    by_pair (some c) none h settled = absurd h

cancel-Simulates :
    (t : Timer) (rest : List Call) (cs : Clients HttpClient) (a : Objects Seen)
    → Each StandsAt cs a.clients
    → All IsSettledAt a.clients
    → Simulates (cancel t rest (with_clients cs a)) (cancel t rest a)
cancel-Simulates no_timer rest cs a each all = simulates cs (go (breaks null_pointer) a) each all
cancel-Simulates idle_timer rest cs a each all =
    simulates cs (go (runs rest) (record a { timer = idle_timer })) each all
cancel-Simulates (armed_timer ms) rest cs a each all =
    simulates cs (go (runs rest) (record a { timer = idle_timer })) each all

set-Simulates :
    (t : Timer) (ms : ℕ) (rest : List Call) (cs : Clients HttpClient) (a : Objects Seen)
    → Each StandsAt cs a.clients
    → All IsSettledAt a.clients
    → Simulates (set_timer t ms rest (with_clients cs a)) (set_timer t ms rest a)
set-Simulates no_timer ms rest cs a each all = simulates cs (go (breaks null_pointer) a) each all
set-Simulates idle_timer ms rest cs a each all =
    simulates cs (go (runs rest) (record a { timer = armed_timer ms })) each all
set-Simulates (armed_timer old) ms rest cs a each all =
    simulates cs (go (runs rest) (record a { timer = armed_timer ms })) each all

new-Stands : StandsAt (some http_clients.new_client) (some seen_clients.new_client)
unfolding http_clients new_http_client
new-Stands = (refl, refl, (refl, (refl, omega arith, refl, refl)), here)

pub execute-Simulates :
    (call : Call) (rest : List Call) (cs : Clients HttpClient) (a : Objects Seen)
    → Each StandsAt cs a.clients
    → All IsSettledAt a.clients
    → Simulates
        (execute http_clients call rest (with_clients cs a))
        (execute seen_clients call rest a)
unfolding execute http_clients
execute-Simulates (makes_client w) rest cs a each all =
    let new = some (record { condition = fresh; auth = none }) in
    release-Simulates (client_at w cs) (client_at w a.clients) rest
      (put w (some http_clients.new_client) cs) (record a { clients = put w new a.clients })
      (Each-at StandsAt w cs a.clients each) (All-at IsSettledAt w a.clients all)
      (Each-put StandsAt w (some http_clients.new_client) new cs a.clients each new-Stands)
      (All-set IsSettledAt w new a.clients all tt)
execute-Simulates (adds_basic_auth w auth) rest cs a each all =
    with-Simulates _ _
      (λ c s h settled.
        simulates (put w (some (add_basic_auth auth c)) cs)
          (go (runs rest) (record a { clients = put w (some (see_auth auth s)) a.clients }))
          (Each-put StandsAt w (some (add_basic_auth auth c)) (some (see_auth auth s)) cs a.clients
            each (auth-Stands auth c s h))
          (All-set IsSettledAt w (some (see_auth auth s)) a.clients all
            (auth-IsSettled auth s settled)))
      w cs a each all
execute-Simulates (starts_client w) rest cs a each all =
    with-Simulates _ _
      (λ c s h settled.
        simulates (put w (some (start_http_client c)) cs)
          (go (waits w rest)
            (record a { clients = put w (some (record s { condition = starting })) a.clients }))
          (Each-put StandsAt w (some (start_http_client c))
            (some (record s { condition = starting })) cs a.clients each
            (start-Stands c s h settled))
          (All-but IsSettledAt w (some (record s { condition = starting })) a.clients all))
      w cs a each all
execute-Simulates (stops_client w) rest cs a each all =
    with-Simulates _ _
      (λ c s h settled.
        simulates (put w (some (stop_http_client c)) cs)
          (go (waits w rest) (record a { clients = put w (some (see_stop s)) a.clients }))
          (Each-put StandsAt w (some (stop_http_client c)) (some (see_stop s)) cs a.clients each
            (stop-Stands c s h settled))
          (All-but IsSettledAt w (some (see_stop s)) a.clients all))
      w cs a each all
execute-Simulates (drops_client w) rest cs a each all =
    release-Simulates (client_at w cs) (client_at w a.clients) rest (put w none cs)
      (record a { clients = put w none a.clients }) (Each-at StandsAt w cs a.clients each)
      (All-at IsSettledAt w a.clients all) (Each-put StandsAt w none none cs a.clients each tt)
      (All-set IsSettledAt w none a.clients all tt)
execute-Simulates makes_timer rest cs a each all =
    simulates cs (go (runs rest) (record a { timer = idle_timer })) each all
execute-Simulates cancels_timer rest cs a each all = cancel-Simulates a.timer rest cs a each all
execute-Simulates drops_timer rest cs a each all =
    simulates cs (go (runs rest) (record a { timer = no_timer })) each all
execute-Simulates (sets_timer ms) rest cs a each all = set-Simulates a.timer ms rest cs a each all
execute-Simulates sets_restored_handler rest cs a each all =
    simulates cs (go (runs rest) (record a { has_restored_handler = true })) each all
execute-Simulates drops_handlers rest cs a each all =
    simulates cs (go (runs rest) (record a { has_restored_handler = false })) each all
execute-Simulates (raises e) rest cs a each all = simulates cs (go (left e) a) each all
