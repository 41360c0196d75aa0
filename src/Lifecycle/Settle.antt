-- ===== src/Lifecycle/Settle.antt =====
-- The calling thread gets through its calls, however the threads of the clients run, as far as the clients
-- as conditions do.
use nxos_dhcp6_exporter.Prelude.{
  ℕ, ◌+◌, ◌*◌, ◌<◌, ◌≡◌, ◌⊎◌, inl, inr, Bool, Option, none, some, List, refl, sym, ◌∙◌, ℕ-cases,
  arith,
}
use nxos_dhcp6_exporter.Http.Pool.{Step, next as next_state, Pool, end_start, end_stop}
use nxos_dhcp6_exporter.Http.Client.{
  HttpClient, ThreadStep, ThreadStep-Step, reads_running, enters, returns, reads_stopped, exits,
}
use nxos_dhcp6_exporter.Lifecycle.{
  Slot, management, heartbeat, dying, Call, waits, Clients, Objects, client_at, put, put_client,
  Machine, Advances, calls, start_ends, stop_ends, thread,
}
use nxos_dhcp6_exporter.Lifecycle.Conditions.{
  Condition, fresh, up, down, starting, stopping, idle_stopping, stuck, Seen, IsIn, IsIn-kept,
  steps_left,
}
use nxos_dhcp6_exporter.Lifecycle.Slots.{Each}
use nxos_dhcp6_exporter.Lifecycle.Refine.{StandsAt, Simulates, simulates}
use nxos_dhcp6_exporter.Lifecycle.Waits.{
  settle, next, end-Simulates, calls-Simulates, start-settles, stop-settles,
}

-- The steps that the threads have left, at most, exceptions apart.
abbrev left_at : Option HttpClient → Option Seen → ℕ
left_at (some c) (some s) = steps_left s.condition c.pool
left_at _ _ = 0

abbrev left_of : Clients HttpClient → Clients Seen → ℕ
left_of cs ds =
    left_at cs.management_client ds.management_client
    + left_at cs.heartbeat_client ds.heartbeat_client
    + left_at cs.dying_client ds.dying_client

at-thread :
    (c : HttpClient) (k l : ℕ) (t : Pool) (x : Option HttpClient) (y : Option Seen)
    → ThreadStep c.service_stopped k c.pool l t
    → x ≡ some c
    → StandsAt x y
    → StandsAt (some (record c { pool = t })) y
      × (left_at (some (record c { pool = t })) y + 3 * l < left_at x y + 3 * k)
at-thread c k l t none y step e h = cc
at-thread c k l t (some d) none step e h = absurd h
at-thread c k l t (some d) (some s) step e (n, x, h, reached) =
    let same : d ≡ c = cc in
    let moved : ThreadStep d.service_stopped k d.pool l t = rw same step in
    let (kept, fewer) = IsIn-kept s.condition 4 moved h in
    (
      (
        rw (← same) n,
        rw (← same) x,
        rw (← same) kept,
        next_state reached (ThreadStep-Step 4 moved),
      ),
      fewer,
    )

clients-thread :
    (w : Slot) (c : HttpClient) (k l : ℕ) (t : Pool) (cs : Clients HttpClient) (ds : Clients Seen)
    → ThreadStep c.service_stopped k c.pool l t
    → client_at w cs ≡ some c
    → Each StandsAt cs ds
    → Each StandsAt (put w (some (record c { pool = t })) cs) ds
      × (left_of (put w (some (record c { pool = t })) cs) ds + 3 * l < left_of cs ds + 3 * k)
clients-thread management c k l t cs ds step e (m, h, d) =
    let (kept, fewer) = at-thread c k l t cs.management_client ds.management_client step e m in
    ((kept, h, d), omega (arith, fewer))
clients-thread heartbeat c k l t cs ds step e (m, h, d) =
    let (kept, fewer) = at-thread c k l t cs.heartbeat_client ds.heartbeat_client step e h in
    ((m, kept, d), omega (arith, fewer))
clients-thread dying c k l t cs ds step e (m, h, d) =
    let (kept, fewer) = at-thread c k l t cs.dying_client ds.dying_client step e d in
    ((m, h, kept), omega (arith, fewer))

abbrev pub work : Objects Seen → Machine → ℕ
work a m = left_of m.objects.clients a.clients + 3 * m.exceptions

-- A step of a thread leaves what is seen, and fewer steps.
thread-Simulates :
    (w : Slot) (c : HttpClient) (k l : ℕ) (t : Pool) (o : Objects HttpClient) (a : Objects Seen)
    → ThreadStep c.service_stopped k c.pool l t
    → client_at w o.clients ≡ some c
    → Simulates o a
    → Simulates (put_client w (some (record c { pool = t })) o) a
      × (left_of (put w (some (record c { pool = t })) o.clients) a.clients + 3 * l
          < left_of o.clients a.clients + 3 * k)
thread-Simulates w c k l t _ _ step e (simulates cs a each consistent) =
    let (kept, fewer) = clients-thread w c k l t cs a.clients step e each in
    (simulates (put w (some (record c { pool = t })) cs) a kept consistent, fewer)

-- Every step of the machine is the next one of the conditions, or leaves them with fewer steps to go.
pub Advances-Simulates :
    (m u : Machine) (a : Objects Seen)
    → Advances m u
    → Simulates m.objects a
    → ((b : Objects Seen) × (next a ≡ some b) × Simulates u.objects b)
      ⊎ (Simulates u.objects a × (work a u < work a m))
Advances-Simulates _ _ a (calls m call rest e) h = inl (calls-Simulates m.objects a call rest h e)
Advances-Simulates _ _ a (start_ends m w c rest e there mw full) h = inl (
    end-Simulates m.objects a w c rest (end_start c.pool) h e there
      (λ k i. start-settles k c.service_stopped c.pool i mw) (Step.started c.pool mw full))
Advances-Simulates _ _ a (stop_ends m w c rest e there mw full) h = inl (
    end-Simulates m.objects a w c rest (end_stop c.pool) h e there
      (λ k i. stop-settles k c.service_stopped c.pool i mw full) (Step.all_stopped c.pool mw full))
Advances-Simulates _ _ a (thread m w c k l t there x step) h =
    let (kept, fewer) = thread-Simulates w c k l t m.objects a step there h in
    inr (kept, omega (arith, fewer, x))

-- A thread can move during a wait, or the wait ends.
start-moves :
    (b : Bool) (k : ℕ) (s : Pool)
    → IsIn starting 4 b s
    → (s.running_threads ≡ s.thread_pool) ⊎ ((t : Pool) × ThreadStep b k s k t)
start-moves b k s h = elim (ℕ-cases s.at_test) [
  | inr (n, e) ↦ inr (_, reads_running k n s h.1.0 e)
  | inl no_test ↦ elim (ℕ-cases s.to_enter) [
    | inr (n, e) ↦ inr (_, enters k n s e)
    | inl no_enter ↦ inl (ground (arith, h, no_test, no_enter))
  ]
]

stop-moves :
    (b : Bool) (k : ℕ) (s : Pool)
    → IsIn stopping 4 b s
    → (s.exited_threads ≡ s.thread_pool) ⊎ ((t : Pool) × ThreadStep b k s k t)
stop-moves b k s h = elim (ℕ-cases s.at_test) [
  | inr (n, e) ↦ inr (_, reads_stopped k n s h.1.0 e)
  | inl no_test ↦ elim (ℕ-cases s.to_enter) [
    | inr (n, e) ↦ inr (_, enters k n s e)
    | inl no_enter ↦ elim (ℕ-cases s.to_exit) [
      | inr (n, e) ↦ inr (_, exits k n s e)
      | inl no_exit ↦ elim (ℕ-cases s.in_service) [
        | inr (n, e) ↦ inr (_, returns k n n s h.1.3 e (h.1.4 ∙ e))
        | inl none_in ↦ inl (ground (arith, h, no_test, no_enter, no_exit, none_in))
      ]
    ]
  ]
]

pub wait-moves :
    (m : Machine) (w : Slot) (rest : List Call) (c : HttpClient) (condition k : Condition)
    → m.objects.control ≡ waits w rest
    → client_at w m.objects.clients ≡ some c
    → settle condition ≡ some k
    → IsIn condition 4 c.service_stopped c.pool
    → (u : Machine) × Advances m u
wait-moves m w rest c starting k e there settled h =
    elim (start-moves c.service_stopped m.exceptions c.pool h) [
      | inl full ↦ (_, start_ends m w c rest e there (h.0) full)
      | inr (t, step) ↦ (_, thread m w c m.exceptions m.exceptions t there refl step)
    ]
wait-moves m w rest c stopping k e there settled h =
    elim (stop-moves c.service_stopped m.exceptions c.pool h) [
      | inl full ↦ (_, stop_ends m w c rest e there (h.0) full)
      | inr (t, step) ↦ (_, thread m w c m.exceptions m.exceptions t there refl step)
    ]
wait-moves m w rest c idle_stopping k e there settled (wm, (tp, al, ex, rt)) =
    (_, stop_ends m w c rest e there wm (ex ∙ sym tp))
wait-moves m w rest c fresh k e there settled h = cc
wait-moves m w rest c up k e there settled h = cc
wait-moves m w rest c down k e there settled h = cc
wait-moves m w rest c stuck k e there settled h = cc
