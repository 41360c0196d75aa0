-- ===== src/Lifecycle/Outcome.antt =====
-- What the calls of the calling thread come to, for the clients as conditions and so for the clients with
-- their threads.
use nxos_dhcp6_exporter.Prelude.{
  suc, ◌≡◌, ◌⊎◌, inl, inr, Option, none, some, List, [], ◌∷◌, refl, arith,
}
use nxos_dhcp6_exporter.Prelude.Inevitable.{Inevitable, now, Inevitable-within, Inevitable-map}
use nxos_dhcp6_exporter.Http.Client.{HttpClient}
use nxos_dhcp6_exporter.Lifecycle.{
  Slot, Call, Control, runs, waits, left, breaks, Objects, client_at, Machine, Advances, calls,
}
use nxos_dhcp6_exporter.Lifecycle.Conditions.{Condition, Seen, IsIn}
use nxos_dhcp6_exporter.Lifecycle.Slots.{Each-at}
use nxos_dhcp6_exporter.Lifecycle.Refine.{StandsAt, with_clients, Simulates, simulates}
use nxos_dhcp6_exporter.Lifecycle.Waits.{settle, next, next_of, finish_seen, finish_as}
use nxos_dhcp6_exporter.Lifecycle.Settle.{work, wait-moves, Advances-Simulates}

-- The conditions come to their end: nothing is left to do, or the thread has left, or it waits on a
-- client that is stuck.
pub data Comes : Objects Seen → Objects Seen → Type 0 where
  ends : {a : Objects Seen} → next a ≡ none → Comes a a
  goes : {a b z : Objects Seen} → next a ≡ some b → Comes b z → Comes a z

pub data Follows : Machine → Machine → Type 0 where
  here : {m : Machine} → Follows m m
  then_step : {m u v : Machine} → Follows m u → Advances u v → Follows m v

Comes-ends : {a z : Objects Seen} → Comes a z → next z ≡ none
Comes-ends (ends e) = e
Comes-ends (goes e rest) = Comes-ends rest

-- Where the conditions go on, so can the machine.
abbrev CanMove : Machine → Type 0
CanMove m = (u : Machine) × Advances m u

-- A client that is waited for, in a condition that a wait ends.
abbrev IsAwaited : Objects HttpClient → Type 0
IsAwaited o =
    (w : Slot) × (rest : List Call) × (c : HttpClient) × (condition : Condition) × (k : Condition)
    × (o.control ≡ waits w rest)
    × (client_at w o.clients ≡ some c)
    × (settle condition ≡ some k)
    × IsIn condition 4 c.service_stopped c.pool

IsAwaited-at :
    (w : Slot) (rest : List Call) (o : Objects HttpClient) (a b : Objects Seen)
    (x : Option HttpClient) (y : Option Seen)
    → o.control ≡ waits w rest
    → client_at w o.clients ≡ x
    → StandsAt x y
    → finish_seen w rest y a ≡ some b
    → IsAwaited o
IsAwaited-at w rest o a b none none e there h goes_on = cc
IsAwaited-at w rest o a b (some c) none e there h goes_on = absurd h
IsAwaited-at w rest o a b none (some s) e there h goes_on = absurd h
IsAwaited-at w rest o a b (some c) (some s) e there (n, auth, h, reached) goes_on =
    by_settled (settle s.condition) refl goes_on
  where
    by_settled :
        (l : Option Condition)
        → settle s.condition ≡ l
        → finish_as w rest s l a ≡ some b
        → IsAwaited o
    by_settled none settled goes_on = cc
    by_settled (some k) settled goes_on = (w, rest, c, s.condition, k, e, there, settled, h)

next_kind :
    (o : Objects HttpClient) (a b : Objects Seen)
    → Simulates o a
    → next a ≡ some b
    → ((call : Call) × (rest : List Call) × (o.control ≡ runs (call ∷ rest))) ⊎ IsAwaited o
next_kind _ _ b (simulates cs a each consistent) goes_on = by_control a.control refl goes_on
  where
    by_control :
        (k : Control)
        → a.control ≡ k
        → next_of k a ≡ some b
        → ((call : Call) × (rest : List Call) × (a.control ≡ runs (call ∷ rest)))
          ⊎ IsAwaited (with_clients cs a)
    by_control (runs []) e goes_on = cc
    by_control (runs (call ∷ rest)) e goes_on = inl (call, rest, e)
    by_control (waits w rest) e goes_on = inr (
        IsAwaited-at w rest (with_clients cs a) a b (client_at w cs) (client_at w a.clients) e refl
          (Each-at StandsAt w cs a.clients each) goes_on)
    by_control (left x) e goes_on = cc
    by_control (breaks x) e goes_on = cc

can-move : (m : Machine) (a b : Objects Seen) → Simulates m.objects a → next a ≡ some b → CanMove m
can-move m a b h goes_on = elim (next_kind m.objects a b h goes_on) [
  | inl (call, rest, e) ↦ (_, calls m call rest e)
  | inr (w, rest, c, condition, k, e, there, settled, i) ↦
      wait-moves m w rest c condition k e there settled i
]

pub settles :
    {a z : Objects Seen}
    → Comes a z
    → (m : Machine) → Simulates m.objects a
    → Inevitable Advances (λ u. Simulates u.objects z) m
settles (ends e) m h = now h
settles {a = a} {z = z} (goes {b = b} e rest) m h =
    Inevitable-within {I = λ u. Simulates u.objects a} (work a) (λ s i. can-move s a b i e)
      (λ s t step i. elim (Advances-Simulates s t a step i) [
        | inl (b2, e2, sim) ↦ let same : b2 ≡ b = cc in inl (settles rest t (rw (← same) sim))
        | inr kept ↦ inr kept
      ])
      (suc (work a m)) m (omega arith) h

stays :
    {a : Objects Seen} {m u : Machine}
    → next a ≡ none
    → Follows m u
    → Simulates m.objects a
    → Simulates u.objects a
stays e here h = h
stays {a = a} e (then_step {u = u} {v = v} before step) h =
    elim (Advances-Simulates u v a step (stays e before h)) [
      | inl (b, goes_on, sim) ↦ cc
      | inr (kept, fewer) ↦ kept
    ]

-- However the threads of the clients run, the machine comes to what the conditions come to, and stays
-- there.
pub Comes-for_good :
    (m : Machine) (a z : Objects Seen)
    → Simulates m.objects a
    → Comes a z
    → Inevitable Advances (λ u. (v : Machine) → Follows u v → Simulates v.objects z) m
Comes-for_good m a z h comes =
    Inevitable-map (λ u sim v follows. stays (Comes-ends comes) follows sim) (settles comes m h)
