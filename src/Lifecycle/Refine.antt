-- ===== src/Lifecycle/Refine.antt =====
-- The clients with their threads refine the clients as conditions: what the calling thread does to the
-- one, call by call and wait by wait, it does to the other.
use nxos_dhcp6_exporter.Prelude.{
  ◌≤◌, inl, ℕ, ◌-◌, ◌≡◌, Bool, true, false, Option, none, some, refl, arith,
}
use nxos_dhcp6_exporter.Http.Pool.{
  between, starts, stops, Reach, next, Pool, begin_start, begin_stop, stop_client, destructor,
}
use nxos_dhcp6_exporter.Http.Client.{
  BasicAuth, HttpClient, add_basic_auth, start_http_client, stop_http_client, destroy_http_client,
}
use nxos_dhcp6_exporter.Lifecycle.{Control, waits, Clients, Objects}
use nxos_dhcp6_exporter.Lifecycle.Conditions.{
  Condition, fresh, up, down, starting, stopping, idle_stopping, stuck, stopped_from, Seen,
  see_auth, see_stop, IsIn,
}
use nxos_dhcp6_exporter.Lifecycle.Slots.{All, AllBut, Each}

-- A client of the default size, with the condition and the authentication that are seen, whose pool is in
-- a state that its steps reach.
abbrev pub Stands : HttpClient → Seen → Type 0
Stands c s =
    (c.pool_size ≡ 4)
    × (c.basic_auth ≡ s.auth)
    × IsIn s.condition 4 c.service_stopped c.pool
    × Reach 4 c.pool

abbrev pub StandsAt : Option HttpClient → Option Seen → Type 0
StandsAt none none = Unit
StandsAt (some c) (some s) = Stands c s
StandsAt _ _ = ⊥

-- No call on the client is under way, or one is.
abbrev pub IsSettled : Condition → Type 0
IsSettled fresh = Unit
IsSettled up = Unit
IsSettled down = Unit
IsSettled _ = ⊥

abbrev pub IsSettledAt : Option Seen → Type 0
IsSettledAt none = Unit
IsSettledAt (some s) = IsSettled s.condition

-- In a wait, the other clients are settled.
abbrev pub IsConsistent : Control → Clients Seen → Type 0
IsConsistent (waits w rest) cs = AllBut IsSettledAt w cs
IsConsistent _ cs = All IsSettledAt cs

abbrev pub with_clients : Clients HttpClient → Objects Seen → Objects HttpClient
with_clients cs a = record {
  control = a.control;
  clients = cs;
  timer = a.timer;
  has_restored_handler = a.has_restored_handler;
}

-- The objects are those that are seen, and each client stands as it is seen.
pub data Simulates : Objects HttpClient → Objects Seen → Type 0 where
  simulates :
      (cs : Clients HttpClient) (a : Objects Seen)
      → Each StandsAt cs a.clients
      → IsConsistent a.control a.clients
      → Simulates (with_clients cs a) a

-- The calls on one client.
start-IsIn :
    (k : Condition) (n : ℕ) (b : Bool) (s : Pool)
    → n ≡ 4
    → IsSettled k
    → IsIn k 4 b s
    → IsIn starting 4 false (begin_start (n - s.thread_pool) s)
unfolding begin_start
start-IsIn fresh n b s e settled h = ground (arith, e, h)
start-IsIn up n b s e settled h = ground (arith, e, h)
start-IsIn down n b s e settled h = ground (arith, e, h)
start-IsIn starting n b s e settled h = absurd settled
start-IsIn stopping n b s e settled h = absurd settled
start-IsIn idle_stopping n b s e settled h = absurd settled
start-IsIn stuck n b s e settled h = absurd settled

stop-IsIn :
    (k : Condition) (b : Bool) (s : Pool)
    → IsSettled k
    → IsIn k 4 b s
    → IsIn (stopped_from k) 4 true (begin_stop s)
unfolding begin_stop
stop-IsIn fresh b s settled h = ground (arith, h)
stop-IsIn up b s settled h = ground (arith, h)
stop-IsIn down b s settled h = ground (arith, h)
stop-IsIn starting b s settled h = absurd settled
stop-IsIn stopping b s settled h = absurd settled
stop-IsIn idle_stopping b s settled h = absurd settled
stop-IsIn stuck b s settled h = absurd settled

settled-between :
    (k : Condition) (b : Bool) (s : Pool)
    → IsSettled k
    → IsIn k 4 b s
    → (s.main ≡ between) × (s.thread_pool ≤ 4)
settled-between fresh b s settled h = ground (arith, h)
settled-between up b s settled h = ground (arith, h)
settled-between down b s settled h = ground (arith, h)
settled-between starting b s settled h = absurd settled
settled-between stopping b s settled h = absurd settled
settled-between idle_stopping b s settled h = absurd settled
settled-between stuck b s settled h = absurd settled

pub start-Stands :
    (c : HttpClient) (s : Seen)
    → Stands c s
    → IsSettled s.condition
    → Stands (start_http_client c) (record s { condition = starting })
unfolding start_http_client
start-Stands c s (n, e, h, reached) settled =
    let (free, fits) = settled-between s.condition c.service_stopped c.pool settled h in
    let step =
      starts c.pool (c.pool_size - c.pool.thread_pool) free (inl (omega (arith, n, fits))) in
    (
      n,
      e,
      start-IsIn s.condition c.pool_size c.service_stopped c.pool n settled h,
      next reached step,
    )

pub stop-Stands :
    (c : HttpClient) (s : Seen)
    → Stands c s
    → IsSettled s.condition
    → Stands (stop_http_client c) (see_stop s)
unfolding stop_http_client stop_client
stop-Stands c s (n, e, h, reached) settled =
    let (free, fits) = settled-between s.condition c.service_stopped c.pool settled h in
    (
      n,
      e,
      stop-IsIn s.condition c.service_stopped c.pool settled h,
      next reached (stops c.pool free),
    )

pub destroy-Stands :
    (c : HttpClient) (s : Seen)
    → Stands c s
    → IsSettled s.condition
    → Stands (destroy_http_client c) (see_stop s)
unfolding destroy_http_client destructor
destroy-Stands c s (n, e, h, reached) settled =
    let (free, fits) = settled-between s.condition c.service_stopped c.pool settled h in
    (
      n,
      e,
      stop-IsIn s.condition c.service_stopped c.pool settled h,
      next reached (stops c.pool free),
    )

pub auth-Stands :
    (auth : Option BasicAuth) (c : HttpClient) (s : Seen)
    → Stands c s
    → Stands (add_basic_auth auth c) (see_auth auth s)
unfolding add_basic_auth
auth-Stands none c s h = h
auth-Stands (some auth) c s (n, e, h, reached) = (n, refl, h, reached)

pub auth-IsSettled :
    (auth : Option BasicAuth) (s : Seen)
    → IsSettled s.condition
    → IsSettled (see_auth auth s).condition
auth-IsSettled none s h = h
auth-IsSettled (some auth) s h = h
