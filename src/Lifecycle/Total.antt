-- ===== src/Lifecycle/Total.antt =====
-- Every program of calls comes to an end, for the clients as conditions and so for those with threads.
use nxos_dhcp6_exporter.Prelude.{
  ◌≡◌, ◌⊎◌, inl, inr, Option, none, some, List, [], ◌∷◌, refl, ap, ◌∙◌,
}
use nxos_dhcp6_exporter.Prelude.Inevitable.{Inevitable}
use nxos_dhcp6_exporter.Lifecycle.{
  Slot, management, heartbeat, dying, Timer, no_timer, idle_timer, armed_timer, Call, makes_client,
  adds_basic_auth, starts_client, stops_client, drops_client, makes_timer, cancels_timer,
  drops_timer, sets_timer, sets_restored_handler, drops_handlers, raises, Control, runs, waits,
  left, breaks, Objects, client_at, execute, finish, release, with_client, cancel, set_timer,
  Machine, Advances,
}
use nxos_dhcp6_exporter.Lifecycle.Conditions.{Condition, Seen, seen_clients}
use nxos_dhcp6_exporter.Lifecycle.Refine.{Simulates}
use nxos_dhcp6_exporter.Lifecycle.Waits.{settle, next, next_of, finish_seen, finish_as}
use nxos_dhcp6_exporter.Lifecycle.Outcome.{Comes, ends, goes, Follows, Comes-for_good}

-- After a call the thread is before the rest of its calls, or waits, or has left.
abbrev IsAfter : List Call → Control → Type 0
IsAfter rest (runs calls) = calls ≡ rest
IsAfter rest (waits w calls) = calls ≡ rest
IsAfter rest _ = Unit

release-IsAfter :
    (y : Option Seen) (rest : List Call) (a : Objects Seen)
    → IsAfter rest (release seen_clients y rest a).control
release-IsAfter none rest a = refl
release-IsAfter (some s) rest a = refl

with-IsAfter :
    (y : Option Seen) (rest : List Call) (f : Seen → Objects Seen) (a : Objects Seen)
    → ((s : Seen) → IsAfter rest (f s).control)
    → IsAfter rest (with_client y f a).control
with-IsAfter none rest f a h = tt
with-IsAfter (some s) rest f a h = h s

cancel-IsAfter :
    (t : Timer) (rest : List Call) (a : Objects Seen) → IsAfter rest (cancel t rest a).control
cancel-IsAfter no_timer rest a = tt
cancel-IsAfter idle_timer rest a = refl
cancel-IsAfter (armed_timer ms) rest a = refl

set-IsAfter :
    (t : Timer) (ms : _) (rest : List Call) (a : Objects Seen)
    → IsAfter rest (set_timer t ms rest a).control
set-IsAfter no_timer ms rest a = tt
set-IsAfter idle_timer ms rest a = refl
set-IsAfter (armed_timer old) ms rest a = refl

execute-IsAfter :
    (call : Call) (rest : List Call) (a : Objects Seen)
    → IsAfter rest (execute seen_clients call rest a).control
unfolding execute
execute-IsAfter (makes_client w) rest a = release-IsAfter (client_at w a.clients) rest _
execute-IsAfter (adds_basic_auth w auth) rest a =
    with-IsAfter (client_at w a.clients) rest _ a (λ s. refl)
execute-IsAfter (starts_client w) rest a = with-IsAfter (client_at w a.clients) rest _ a (λ s. refl)
execute-IsAfter (stops_client w) rest a = with-IsAfter (client_at w a.clients) rest _ a (λ s. refl)
execute-IsAfter (drops_client w) rest a = release-IsAfter (client_at w a.clients) rest _
execute-IsAfter makes_timer rest a = refl
execute-IsAfter cancels_timer rest a = cancel-IsAfter a.timer rest a
execute-IsAfter drops_timer rest a = refl
execute-IsAfter (sets_timer ms) rest a = set-IsAfter a.timer ms rest a
execute-IsAfter sets_restored_handler rest a = refl
execute-IsAfter drops_handlers rest a = refl
execute-IsAfter (raises e) rest a = tt

finish-runs :
    (w : Slot) (s : Seen) (rest : List Call) (a : Objects Seen)
    → (finish w s rest a).control ≡ runs rest
unfolding finish
finish-runs management s rest a = refl
finish-runs heartbeat s rest a = refl
finish-runs dying s rest a = refl

-- A wait ends in the rest of the calls, or the conditions come to their end in it.
wait-goes_on :
    (w : Slot) (rest : List Call) (y : Option Seen) (a : Objects Seen)
    → ((finish_seen w rest y a) ≡ none)
      ⊎ ((b : Objects Seen) × (finish_seen w rest y a ≡ some b) × (b.control ≡ runs rest))
wait-goes_on w rest none a = inl refl
wait-goes_on w rest (some s) a = by_settled (settle s.condition)
  where
    by_settled :
        (l : Option Condition)
        → (finish_as w rest s l a ≡ none)
          ⊎ ((b : Objects Seen) × (finish_as w rest s l a ≡ some b) × (b.control ≡ runs rest))
    by_settled none = inl refl
    by_settled (some k) = inr (_, refl, finish-runs w (record s { condition = k }) rest a)

-- The conditions come to an end.
abbrev HasEnd : Objects Seen → Type 0
HasEnd a = (z : Objects Seen) × Comes a z

goes_on : {a b : Objects Seen} → next a ≡ some b → HasEnd b → HasEnd a
goes_on e (z, comes) = (z, goes e comes)

after-HasEnd :
    (rest : List Call)
    → ((b : Objects Seen) → b.control ≡ runs rest → HasEnd b)
    → (k : Control) (a : Objects Seen) → a.control ≡ k
    → IsAfter rest k
    → HasEnd a
after-HasEnd rest from_rest (runs calls) a e h = from_rest a (rw (e, h))
after-HasEnd rest from_rest (waits w calls) a e h =
    elim (wait-goes_on w calls (client_at w a.clients) a) [
      | inl stuck ↦ (a, ends (ap (λ k. next_of k a) e ∙ stuck))
      | inr (b, goes_there, runs_rest) ↦
          goes_on {b = b} (ap (λ k. next_of k a) e ∙ goes_there) (from_rest b (rw (runs_rest, h)))
    ]
after-HasEnd rest from_rest (left x) a e h = (a, ends (rw e))
after-HasEnd rest from_rest (breaks x) a e h = (a, ends (rw e))

runs-HasEnd : (rest : List Call) (a : Objects Seen) → a.control ≡ runs rest → HasEnd a
runs-HasEnd [] a e = (a, ends (rw e))
runs-HasEnd (call ∷ rest) a e =
    let b = execute seen_clients call rest a in
    goes_on {b = b} (rw e)
      (after-HasEnd rest (runs-HasEnd rest) b.control b refl (execute-IsAfter call rest a))

-- Whatever calls the calling thread makes, and however the threads of the clients run: it comes to where
-- the clients as conditions come to, which have an end, and stays there.
pub settles_for_good :
    (m : Machine) (a : Objects Seen) (calls : List Call)
    → Simulates m.objects a
    → a.control ≡ runs calls
    → (z : Objects Seen) × Comes a z
      × Inevitable Advances (λ u. (v : Machine) → Follows u v → Simulates v.objects z) m
settles_for_good m a calls h e =
    let (z, comes) = runs-HasEnd calls a e in (z, comes, Comes-for_good m a z h comes)
