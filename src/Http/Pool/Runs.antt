-- ===== src/Http/Pool/Runs.antt =====
-- Runs of the thread pool: a start and a stop of all threads, and a second stop (src/nxos_http_client.cpp).
use nxos_dhcp6_exporter.Prelude.{ℕ, suc, zero, ◌+◌, ◌<◌, ◌≡◌, ◌≢◌, inl, refl, arith}
use nxos_dhcp6_exporter.Http.Pool.{
  running, between, wait_running, wait_exited, Pool, initial, begin_start, end_start, begin_stop,
  end_stop, Step, starts, started, stops, all_stopped, reads_running, enters, leaves, reads_stopped,
  exits, Reach, here, next,
}

-- The pool after a stop: no thread is left, and the count of exited threads is that of the threads that
-- there were.
abbrev pub after_stop : ℕ → Pool
after_stop n = record initial { exited_threads = n }

-- The second stop, in its wait.
abbrev pub second_stop : ℕ → Pool
second_stop n = record (after_stop n) { main = wait_exited }

-- During a start of `total` threads, and during a stop.
abbrev entering : (total left entered : ℕ) → Pool
entering total left entered = record initial {
  threads_state = running;
  main = wait_running;
  thread_pool = total;
  running_threads = entered;
  at_test = left;
  in_service = entered;
}

abbrev exiting : (total inside testing exited : ℕ) → Pool
exiting total inside testing exited = record initial {
  main = wait_exited;
  thread_pool = total;
  running_threads = inside;
  at_test = testing;
  in_service = inside;
  exited_threads = exited;
}

all_enter :
    (p total left entered n : ℕ)
    → left + entered ≡ n
    → Reach p (entering total left entered)
    → Reach p (entering total 0 n)
all_enter p total zero entered n h r = let e : entered ≡ n = omega (arith, h) in rw (← e) r
all_enter p total (suc left) entered n h r =
    all_enter p total left (suc entered) n (omega (arith, h)) (
      next (next r (reads_running (entering total (suc left) entered) left refl refl))
        (enters (record (entering total left entered) { to_enter = 1 }) 0 refl))

all_leave :
    (p total inside testing n : ℕ)
    → inside + testing ≡ n
    → Reach p (exiting total inside testing 0)
    → Reach p (exiting total 0 n 0)
all_leave p total zero testing n h r = let e : testing ≡ n = omega (arith, h) in rw (← e) r
all_leave p total (suc inside) testing n h r =
    all_leave p total inside (suc testing) n (omega (arith, h))
      (next r (leaves (exiting total (suc inside) testing 0) inside inside refl refl))

all_exit :
    (p total testing exited n : ℕ)
    → testing + exited ≡ n
    → Reach p (exiting total 0 testing exited)
    → Reach p (exiting total 0 0 n)
all_exit p total zero exited n h r = let e : exited ≡ n = omega (arith, h) in rw (← e) r
all_exit p total (suc testing) exited n h r =
    all_exit p total testing (suc exited) n (omega (arith, h)) (
      next (next r (reads_stopped (exiting total 0 (suc testing) exited) testing refl refl))
        (exits (record (exiting total 0 testing exited) { to_exit = 1 }) 0 refl))

-- A start of all threads.
first_start : (n : ℕ) → Reach n (entering n n 0)
unfolding begin_start
first_start n =
    let e : 0 + n ≡ n = omega arith in rw e at (next here (starts initial n refl (inl e)))

-- After a start, all threads are in the service.
abbrev pub after_start : ℕ → Pool
after_start n = record (entering n 0 n) { main = between }

pub first_up : (n : ℕ) → Reach n (after_start n)
unfolding end_start
first_up n =
    next (all_enter n n n 0 n (omega arith) (first_start n)) (started (entering n 0 n) refl refl)

-- A start and a stop of `n` threads leave `after_stop`.
first_stop : (n : ℕ) → Reach n (after_stop n)
unfolding end_start begin_stop end_stop
first_stop n =
    let entered = all_enter n n n 0 n (omega arith) (first_start n) in
    let up = next entered (started (entering n 0 n) refl refl) in
    let stopping = next up (stops (end_start (entering n 0 n)) refl) in
    let left = all_leave n n n 0 n (omega arith) stopping in
    let gone = all_exit n n n 0 n (omega arith) left in
    next gone (all_stopped (exiting n 0 0 n) refl refl)

-- A wait for more threads than there are, with none that could still move, never ends.
pub stuck :
    (p : ℕ) (s t : Pool)
    → s.main ≡ wait_exited
    → s.exited_threads ≢ s.thread_pool
    → s.at_test ≡ 0
    → s.to_enter ≡ 0
    → s.to_exit ≡ 0
    → s.in_service ≡ 0
    → ¬ Step p s t
stuck p _ _ w ne a e x b (starts s made m c) = cc
stuck p _ _ w ne a e x b (started s m c) = cc
stuck p _ _ w ne a e x b (stops s m) = cc
stuck p _ _ w ne a e x b (all_stopped s m c) = ne c
stuck p _ _ w ne a e x b (reads_running s n m c) = omega (arith, a, c)
stuck p _ _ w ne a e x b (enters s n c) = omega (arith, e, c)
stuck p _ _ w ne a e x b (leaves s n k m c) = omega (arith, b, m)
stuck p _ _ w ne a e x b (reads_stopped s n m c) = omega (arith, a, c)
stuck p _ _ w ne a e x b (exits s n c) = omega (arith, x, c)

-- A pool of one thread or more can be started and stopped, and a second stop then waits for ever: the
-- count of exited threads is not set back, so that it differs from the number of threads, and no step of
-- any thread is left. The destructor stops the pool that stopClient has stopped.
pub second_stop_hangs :
    (n : ℕ)
    → 0 < n
    → Reach n (after_stop n) × Reach n (second_stop n) × ((t : Pool) → ¬ Step n (second_stop n) t)
unfolding begin_stop
second_stop_hangs n positive = (
  first_stop n,
  next (first_stop n) (stops (after_stop n) refl),
  λ t. stuck n (second_stop n) t refl (λ h. omega (arith, h, positive)) refl refl refl refl,
)
