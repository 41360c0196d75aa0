-- ===== src/Lifecycle/Callouts.antt =====
-- The library over its whole life: Kea configures and unloads it in any order and any number of times.
use nxos_dhcp6_exporter.Prelude.{
  ℕ, Bool, ◌≤◌, arith, ◌≡◌, refl, ap, inl, inr, none, some, false, List, [],
}
use nxos_dhcp6_exporter.Prelude.Inevitable.{Inevitable}
use nxos_dhcp6_exporter.Params.{http}
use nxos_dhcp6_exporter.Http.Pool.{Pool}
use nxos_dhcp6_exporter.Http.Pool.Threads.{alive}
use nxos_dhcp6_exporter.Http.Client.{BasicAuth, HttpClient}
use nxos_dhcp6_exporter.Lifecycle.{
  Slot, client_at, Call, runs, Objects, Machine, Advances, go, no_timer,
}
use nxos_dhcp6_exporter.Lifecycle.Programs.{start_service_calls, destroy_service_calls}
use nxos_dhcp6_exporter.Lifecycle.Conditions.{
  Condition, fresh, up, down, starting, stopping, idle_stopping, stuck, Seen, IsIn,
}
use nxos_dhcp6_exporter.Lifecycle.Slots.{Each-at}
use nxos_dhcp6_exporter.Lifecycle.Refine.{Stands, StandsAt, Simulates, simulates, IsConsistent}
use nxos_dhcp6_exporter.Lifecycle.Waits.{next, next_of, seen_there}
use nxos_dhcp6_exporter.Lifecycle.Settle.{Advances-Simulates}
use nxos_dhcp6_exporter.Lifecycle.Outcome.{Comes, ends, goes}
use nxos_dhcp6_exporter.Lifecycle.Ends.{
  out_of_service, IsAtRest, unserved, served, start-Comes, unload-Comes,
}

-- Before `load`.
abbrev pub unloaded : Machine
unloaded = record {
  objects = record {
    control = runs [];
    clients = record { management_client = none; heartbeat_client = none; dying_client = none };
    timer = no_timer;
    has_restored_handler = false;
  };
  exceptions = 0;
}

abbrev pub call_out : List Call → Machine → Machine
call_out calls m = record m { objects = go (runs calls) m.objects }

-- The states that the library comes to: Kea calls dhcp6_srv_configured, with an HTTP host, or `unload`
-- when it is in no other call of the library, and tasks are posted to the clients at any time.
pub data Life : Machine → Type 0 where
  begins : Life unloaded
  advances : {m u : Machine} → Life m → Advances m u → Life u
  configured :
      {m : Machine} (x y : BasicAuth) (interval : ℕ)
      → Life m
      → m.objects.control ≡ runs []
      → Life (call_out (start_service_calls http (some x) (some y) interval) m)
  unloads :
      {m : Machine} → Life m → m.objects.control ≡ runs [] → Life (call_out destroy_service_calls m)
  tasks_come : {m : Machine} (k : ℕ) → Life m → Life (record m { exceptions = k })

-- The conditions come to rest.
abbrev ComesToRest : Objects Seen → Type 0
ComesToRest a = (z : Objects Seen) × Comes a z × IsAtRest [] z

-- A next callout, from rest.
call_out-Simulates :
    (o : Objects HttpClient) (a : Objects Seen) (calls : List Call)
    → Simulates o a
    → o.control ≡ runs []
    → (a.control ≡ runs []) × Simulates (go (runs calls) o) (go (runs calls) a)
call_out-Simulates _ _ calls (simulates cs a each consistent) e =
    let settled : IsConsistent (runs []) a.clients = rw e at consistent in
    (e, simulates cs (go (runs calls) a) each settled)

at_rest : {a z : Objects Seen} → Comes a z → a.control ≡ runs [] → IsAtRest [] z → IsAtRest [] a
at_rest (ends e) idle rest = rest
at_rest {a = a} (goes e later) idle rest =
    let finished : next a ≡ none = ap (λ k. next_of k a) idle in cc

IsAtRest-go :
    (calls : List Call) {a : Objects Seen} → IsAtRest [] a → IsAtRest calls (go (runs calls) a)
IsAtRest-go calls unserved = unserved
IsAtRest-go calls (served x y ms) = served x y ms

Comes-next : {a b z : Objects Seen} → Comes a z → next a ≡ some b → Comes b z
Comes-next (ends e) there = cc
Comes-next {b = b} (goes {b = c} e later) there = let same : c ≡ b = cc in rw (← same) later

Life-Simulates : {m : Machine} → Life m → (a : Objects Seen) × Simulates m.objects a × ComesToRest a
Life-Simulates begins = (
  out_of_service (runs []),
  simulates _ (out_of_service (runs [])) (tt, tt, tt) (tt, tt, tt),
  (out_of_service (runs []), ends refl, unserved),
)
Life-Simulates (advances {m} {u} life step) =
    let (a, sim, (z, comes, rest)) = Life-Simulates life in
    elim (Advances-Simulates m u a step sim) [
      | inl (b, e, after) ↦ (b, after, (z, Comes-next comes e, rest))
      | inr (after, fewer) ↦ (a, after, (z, comes, rest))
    ]
Life-Simulates (configured {m} x y interval life idle) =
    let (a, sim, (z, comes, rest)) = Life-Simulates life in
    let (e, after) = call_out-Simulates m.objects a _ sim idle in
    (_, after, (_, start-Comes x y interval (IsAtRest-go _ (at_rest comes e rest)), served _ _ _))
Life-Simulates (unloads {m} life idle) =
    let (a, sim, (z, comes, rest)) = Life-Simulates life in
    let (e, after) = call_out-Simulates m.objects a _ sim idle in
    (_, after, (_, unload-Comes (IsAtRest-go _ (at_rest comes e rest)), unserved))
Life-Simulates (tasks_come k life) = Life-Simulates life

threads_in :
    (k : Condition) (b : Bool) (s : Pool)
    → IsIn k 4 b s
    → (s.thread_pool ≤ 4) × (alive s ≤ 4) × (s.running_threads ≤ 4)
threads_in fresh b s h = ground (arith, h)
threads_in up b s h = ground (arith, h)
threads_in down b s h = ground (arith, h)
threads_in starting b s h = ground (arith, h)
threads_in stopping b s h = ground (arith, h)
threads_in idle_stopping b s h = ground (arith, h)
threads_in stuck b s h = ground (arith, h)

client-Stands :
    (w : Slot) (c : HttpClient) (o : Objects HttpClient) (a : Objects Seen)
    → Simulates o a
    → client_at w o.clients ≡ some c
    → (s : Seen) × (client_at w a.clients ≡ some s) × Stands c s
client-Stands w c _ _ (simulates cs a each consistent) there =
    seen_there c (client_at w cs) (client_at w a.clients) there
      (Each-at StandsAt w cs a.clients each)

-- At every moment of the life of the library, a client has four threads at most, and so many at most are
-- alive, or counted as running.
pub threads_bounded :
    (m : Machine) (w : Slot) (c : HttpClient)
    → Life m
    → client_at w m.objects.clients ≡ some c
    → (c.pool.thread_pool ≤ 4) × (alive c.pool ≤ 4) × (c.pool.running_threads ≤ 4)
threads_bounded m w c life there =
    let (a, sim, rest) = Life-Simulates life in
    let (s, seen, (size, auth, h, reached)) = client-Stands w c m.objects a sim there in
    threads_in s.condition c.service_stopped c.pool h
