-- ===== src/Lifecycle/Waits.antt =====
-- How the waits of the calling thread end, and the steps of the threads meanwhile: both keep to what the
-- clients as conditions do.
use nxos_dhcp6_exporter.Prelude.{◌≡◌, Bool, Option, none, some, List, [], ◌∷◌, refl, arith}
use nxos_dhcp6_exporter.Http.Pool.{
  Step, next as next_state, Pool, wait_running, wait_exited, end_start, end_stop,
}
use nxos_dhcp6_exporter.Http.Client.{HttpClient}
use nxos_dhcp6_exporter.Lifecycle.{
  Slot, management, heartbeat, dying, Call, Control, runs, waits, left, breaks, Clients, Objects,
  client_at, put, put_client, go, execute, finish, http_clients,
}
use nxos_dhcp6_exporter.Lifecycle.Conditions.{
  Condition, fresh, up, down, starting, stopping, idle_stopping, stuck, Seen, seen_clients, IsIn,
}
use nxos_dhcp6_exporter.Lifecycle.Slots.{AllBut, All-put, Each, Each-at, Each-put}
use nxos_dhcp6_exporter.Lifecycle.Execute.{execute-Simulates}
use nxos_dhcp6_exporter.Lifecycle.Refine.{
  Stands, StandsAt, IsSettled, IsSettledAt, IsConsistent, with_clients, Simulates, simulates,
}

-- What a wait leaves; the wait on a stuck client leaves nothing.
abbrev pub settle : Condition → Option Condition
settle starting = some up
settle stopping = some down
settle idle_stopping = some fresh
settle _ = none

abbrev pub finish_as :
    Slot → List Call → Seen → Option Condition → Objects Seen → Option (Objects Seen)
finish_as w rest s none a = none
finish_as w rest s (some k) a = some (finish w (record s { condition = k }) rest a)

abbrev pub finish_seen : Slot → List Call → Option Seen → Objects Seen → Option (Objects Seen)
finish_seen w rest none a = none
finish_seen w rest (some s) a = finish_as w rest s (settle s.condition) a

abbrev pub next_of : Control → Objects Seen → Option (Objects Seen)
next_of (runs []) a = none
next_of (runs (call ∷ rest)) a = some (execute seen_clients call rest a)
next_of (waits w rest) a = finish_seen w rest (client_at w a.clients) a
next_of (left e) a = none
next_of (breaks f) a = none

-- The next call, or the end of the wait, on clients as conditions.
abbrev pub next : Objects Seen → Option (Objects Seen)
next a = next_of a.control a

pub seen_there :
    (c : HttpClient) (x : Option HttpClient) (y : Option Seen)
    → x ≡ some c
    → StandsAt x y
    → (s : Seen) × (y ≡ some s) × Stands c s
seen_there c none y e h = cc
seen_there c (some d) none e h = absurd h
seen_there c (some d) (some s) e h = let same : d ≡ c = cc in (s, refl, rw (← same) h)

-- The end of a wait.
pub start-settles :
    (k : Condition) (b : Bool) (s : Pool)
    → IsIn k 4 b s
    → s.main ≡ wait_running
    → (l : Condition) × (settle k ≡ some l) × IsSettled l × IsIn l 4 b (end_start s)
unfolding end_start
start-settles starting b s h m = (up, refl, tt, ground (arith, h))
start-settles fresh b s h m = cc (h.0, m)
start-settles up b s h m = cc (h.0, m)
start-settles down b s h m = cc (h.0, m)
start-settles stopping b s h m = cc (h.0, m)
start-settles idle_stopping b s h m = cc (h.0, m)
start-settles stuck b s h m = cc (h.0, m)

pub stop-settles :
    (k : Condition) (b : Bool) (s : Pool)
    → IsIn k 4 b s
    → s.main ≡ wait_exited
    → s.exited_threads ≡ s.thread_pool
    → (l : Condition) × (settle k ≡ some l) × IsSettled l × IsIn l 4 b (end_stop s)
unfolding end_stop
stop-settles stopping b s h m e = (down, refl, tt, ground (arith, h, e))
stop-settles idle_stopping b s h m e = (fresh, refl, tt, ground (arith, h, e))
stop-settles stuck b s h m e = ground (arith, h, e)
stop-settles fresh b s h m e = cc (h.0, m)
stop-settles up b s h m e = cc (h.0, m)
stop-settles down b s h m e = cc (h.0, m)
stop-settles starting b s h m e = cc (h.0, m)

finish-Simulates :
    (w : Slot) (c : HttpClient) (s : Seen) (rest : List Call) (cs : Clients HttpClient)
    (a : Objects Seen)
    → Stands c s
    → IsSettled s.condition
    → Each StandsAt cs a.clients
    → AllBut IsSettledAt w a.clients
    → Simulates (finish w c rest (with_clients cs a)) (finish w s rest a)
unfolding finish
finish-Simulates management c s rest cs a h settled each others =
    simulates (put management (some c) cs) (go (runs rest) (put_client management (some s) a))
      (Each-put StandsAt management (some c) (some s) cs a.clients each h)
      (All-put IsSettledAt management (some s) a.clients others settled)
finish-Simulates heartbeat c s rest cs a h settled each others =
    simulates (put heartbeat (some c) cs) (go (runs rest) (put_client heartbeat (some s) a))
      (Each-put StandsAt heartbeat (some c) (some s) cs a.clients each h)
      (All-put IsSettledAt heartbeat (some s) a.clients others settled)
finish-Simulates dying c s rest cs a h settled each others =
    simulates (put dying none cs) (go (runs rest) (put_client dying none a))
      (Each-put StandsAt dying none none cs a.clients each tt)
      (All-put IsSettledAt dying none a.clients others tt)

-- The end of a wait, where the pool is `t` after it.
pub end-Simulates :
    (o : Objects HttpClient) (a : Objects Seen) (w : Slot) (c : HttpClient) (rest : List Call)
    (t : Pool)
    → Simulates o a
    → o.control ≡ waits w rest
    → client_at w o.clients ≡ some c
    → ((k : Condition)
        → IsIn k 4 c.service_stopped c.pool
        → (l : Condition) × (settle k ≡ some l) × IsSettled l × IsIn l 4 c.service_stopped t)
    → Step 4 c.pool t
    → (b : Objects Seen) × (next a ≡ some b) × Simulates (finish w (record c { pool = t }) rest o) b
end-Simulates _ _ w c rest t (simulates cs a each consistent) e there settles step =
    let (s, seen, (n, x, h, reached)) =
      seen_there c (client_at w cs) (client_at w a.clients) there
        (Each-at StandsAt w cs a.clients each) in
    let (l, settled_as, settled, after) = settles s.condition h in
    let others : AllBut IsSettledAt w a.clients = rw e at consistent in
    (
      finish w (record s { condition = l }) rest a,
      rw (e, seen, settled_as),
      finish-Simulates w (record c { pool = t }) (record s { condition = l }) rest cs a
          (n, x, after, next_state reached step) settled each others,
    )

-- A call.
pub calls-Simulates :
    (o : Objects HttpClient) (a : Objects Seen) (call : Call) (rest : List Call)
    → Simulates o a
    → o.control ≡ runs (call ∷ rest)
    → (b : Objects Seen) × (next a ≡ some b) × Simulates (execute http_clients call rest o) b
calls-Simulates _ _ call rest (simulates cs a each consistent) e =
    let all : IsConsistent (runs (call ∷ rest)) a.clients = rw e at consistent in
    (execute seen_clients call rest a, rw e, execute-Simulates call rest cs a each all)
