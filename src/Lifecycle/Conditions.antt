-- ===== src/Lifecycle/Conditions.antt =====
-- What a client is to the thread that uses it: its condition, which the steps of its threads keep
-- (src/nxos_http_client.cpp).
use nxos_dhcp6_exporter.Prelude.{
  ℕ, ◌+◌, ◌*◌, ◌<◌, ◌≡◌, Bool, true, false, Option, none, some, ◌∙◌, arith,
}
use nxos_dhcp6_exporter.Http.Pool.{running, stopped, between, wait_running, wait_exited, Pool}
use nxos_dhcp6_exporter.Http.Pool.Threads.{alive}
use nxos_dhcp6_exporter.Http.Client.{
  BasicAuth, ThreadStep, reads_running, enters, returns, throws, reads_stopped, exits,
}
use nxos_dhcp6_exporter.Lifecycle.{ClientApi}

-- Between two calls a client has not been started since it was made, or its threads are up, or it has
-- been stopped; in a wait it is being started or stopped. A client that is stopped a second time is stuck.
pub data Condition : Type 0 where
  fresh up down : Condition
  starting stopping idle_stopping stuck : Condition

pub record Seen : Type 0 where
  pub condition : Condition
  pub auth : Option BasicAuth

abbrev pub see_auth : Option BasicAuth → Seen → Seen
see_auth none s = s
see_auth (some auth) s = record s { auth = some auth }

abbrev pub stopped_from : Condition → Condition
stopped_from fresh = idle_stopping
stopped_from down = stuck
stopped_from _ = stopping

abbrev pub see_stop : Seen → Seen
see_stop s = record s { condition = stopped_from s.condition }

-- The clients as conditions
abbrev pub seen_clients : ClientApi Seen
seen_clients = record {
  new_client = record { condition = fresh; auth = none };
  add_auth = see_auth;
  start = λ s. record s { condition = starting };
  stop = see_stop;
  destroy = see_stop;
}

-- No thread is left, and so many have been counted as exited.
abbrev pub IsEmpty : (exited : ℕ) → Pool → Type 0
IsEmpty exited s =
    (s.thread_pool ≡ 0)
    × (alive s ≡ 0)
    × (s.exited_threads ≡ exited)
    × (s.running_threads ≡ s.in_service)

-- All `p` threads are alive, and the service is not stopped.
abbrev pub IsRunning : ℕ → Bool → Pool → Type 0
IsRunning p service_stopped s =
    (s.threads_state ≡ running)
    × (s.thread_pool ≡ p)
    × (alive s ≡ p)
    × (s.to_exit ≡ 0)
    × (service_stopped ≡ false)
    × (s.running_threads ≡ s.in_service)

-- The threads leave.
abbrev pub IsLeaving : ℕ → Bool → Pool → Type 0
IsLeaving p service_stopped s =
    (s.threads_state ≡ stopped)
    × (s.thread_pool ≡ p)
    × (alive s + s.exited_threads ≡ p)
    × (service_stopped ≡ true)
    × (s.running_threads ≡ s.in_service)

abbrev pub IsIn : Condition → ℕ → Bool → Pool → Type 0
IsIn fresh p b s = (s.main ≡ between) × IsEmpty 0 s
IsIn up p b s = (s.main ≡ between) × (s.exited_threads ≡ 0) × IsRunning p b s
IsIn down p b s = (s.main ≡ between) × IsEmpty p s
IsIn starting p b s = (s.main ≡ wait_running) × IsRunning p b s
IsIn stopping p b s = (s.main ≡ wait_exited) × IsLeaving p b s
IsIn idle_stopping p b s = (s.main ≡ wait_exited) × IsEmpty 0 s
IsIn stuck p b s = (s.main ≡ wait_exited) × IsEmpty p s

-- The steps that the threads have left, at most, while the condition lasts, and the exceptions of
-- tasks apart: a thread before its test goes on to the service, or to the exit.
abbrev pub left_running : Pool → ℕ
left_running s = 5 * s.at_test + 4 * s.to_enter + 3 * s.in_service

abbrev pub left_leaving : Pool → ℕ
left_leaving s = 2 * s.at_test + 4 * s.to_enter + 3 * s.in_service + s.to_exit

abbrev pub steps_left : Condition → Pool → ℕ
steps_left up s = left_running s
steps_left starting s = left_running s
steps_left stopping s = left_leaving s
steps_left _ s = 0

IsEmpty-still : {b : Bool} {k l e : ℕ} {s t : Pool} → ThreadStep b k s l t → ¬ IsEmpty e s
IsEmpty-still (reads_running k n s m c) h = omega (arith, c, h)
IsEmpty-still (enters k n s c) h = omega (arith, c, h)
IsEmpty-still (returns k n m s b c d) h = omega (arith, c, h)
IsEmpty-still (throws k n m s c d) h = omega (arith, c, h)
IsEmpty-still (reads_stopped k n s m c) h = omega (arith, c, h)
IsEmpty-still (exits k n s c) h = omega (arith, c, h)

IsRunning-kept :
    {b : Bool} {k l p : ℕ} {s t : Pool}
    → ThreadStep b k s l t
    → IsRunning p b s
    → IsRunning p b t
      × (t.main ≡ s.main)
      × (t.exited_threads ≡ s.exited_threads)
      × (left_running t + 3 * l < left_running s + 3 * k)
IsRunning-kept (reads_running k n s m c) h = ground (arith, c, h)
IsRunning-kept (enters k n s c) h = ground (arith, c, h)
IsRunning-kept (returns k n m s b c d) h = ground (arith, b, h)
IsRunning-kept (throws k n m s c d) h = ground (arith, c, d, h)
IsRunning-kept (reads_stopped k n s m c) h = ground (arith, m, h)
IsRunning-kept (exits k n s c) h = ground (arith, c, h)

IsLeaving-kept :
    {b : Bool} {k l p : ℕ} {s t : Pool}
    → ThreadStep b k s l t
    → IsLeaving p b s
    → IsLeaving p b t × (t.main ≡ s.main) × (left_leaving t + 3 * l < left_leaving s + 3 * k)
IsLeaving-kept (reads_running k n s m c) h = ground (arith, m, h)
IsLeaving-kept (enters k n s c) h = ground (arith, c, h)
IsLeaving-kept (returns k n m s b c d) h = ground (arith, c, d, h)
IsLeaving-kept (throws k n m s c d) h = ground (arith, c, d, h)
IsLeaving-kept (reads_stopped k n s m c) h = ground (arith, c, h)
IsLeaving-kept (exits k n s c) h = ground (arith, c, h)

-- A step of a thread keeps the condition, and leaves fewer steps.
pub IsIn-kept :
    (condition : Condition) (p : ℕ) {b : Bool} {k l : ℕ} {s t : Pool}
    → ThreadStep b k s l t
    → IsIn condition p b s
    → IsIn condition p b t × (steps_left condition t + 3 * l < steps_left condition s + 3 * k)
IsIn-kept fresh p step h = absurd (IsEmpty-still step h.1)
IsIn-kept up p step (m, e, h) =
    let (kept, same, none_exits, fewer) = IsRunning-kept step h in
    ((same ∙ m, none_exits ∙ e, kept), fewer)
IsIn-kept down p step h = absurd (IsEmpty-still step h.1)
IsIn-kept starting p step (m, h) =
    let (kept, same, none_exits, fewer) = IsRunning-kept step h in ((same ∙ m, kept), fewer)
IsIn-kept stopping p step (m, h) =
    let (kept, same, fewer) = IsLeaving-kept step h in ((same ∙ m, kept), fewer)
IsIn-kept idle_stopping p step h = absurd (IsEmpty-still step h.1)
IsIn-kept stuck p step h = absurd (IsEmpty-still step h.1)
