-- ===== src/Http/Pool/Threads.antt =====
-- How many threads the pool of NXOSHttpClientImpl has, at every step (src/nxos_http_client.cpp).
use nxos_dhcp6_exporter.Prelude.{ℕ, suc, ◌+◌, ◌≡◌, ◌⊎◌, inl, refl, arith}
use nxos_dhcp6_exporter.Http.Pool.{
  running, stopped, Main, between, wait_running, wait_exited, Pool, begin_start, end_start,
  begin_stop, end_stop, Step, starts, started, stops, all_stopped, reads_running, reads_stopped,
  enters, leaves, exits, Reach, here, next,
}

-- The threads that have not exited.
abbrev pub alive : Pool → ℕ
alive s = s.at_test + s.to_enter + s.to_exit + s.in_service

-- What holds at each place of the calling thread, for a pool of `p` threads.
abbrev pub Phase : ℕ → Pool → Main → Type 0
Phase p s between =
    ((s.threads_state ≡ stopped) × (s.thread_pool ≡ 0) × (alive s ≡ 0))
    ⊎ ((s.threads_state ≡ running)
        × (s.thread_pool ≡ p)
        × (alive s ≡ p)
        × (s.to_exit ≡ 0)
        × (s.exited_threads ≡ 0))
Phase p s wait_running =
    (s.threads_state ≡ running) × (s.thread_pool ≡ p) × (alive s ≡ p) × (s.to_exit ≡ 0)
Phase p s wait_exited =
    (s.threads_state ≡ stopped)
    × (((s.thread_pool ≡ p) × (alive s + s.exited_threads ≡ p))
        ⊎ ((s.thread_pool ≡ 0) × (alive s ≡ 0)))

abbrev pub IsSound : ℕ → Pool → Type 0
IsSound p s = (s.running_threads ≡ s.in_service) × Phase p s s.main

-- Steps of a thread between the same waits: those that keep the count of threads alive, the reading of
-- STOPPED, and the exit, which moves a thread to the other count.
Phase-moves :
    (p : ℕ) (s t : Pool) (w : Main)
    → t.threads_state ≡ s.threads_state
    → t.thread_pool ≡ s.thread_pool
    → t.exited_threads ≡ s.exited_threads
    → t.to_exit ≡ s.to_exit
    → alive t ≡ alive s
    → Phase p s w
    → Phase p t w
Phase-moves p s t between e1 e2 e3 e4 e5 h = ground (arith, e1, e2, e3, e4, e5, h)
Phase-moves p s t wait_running e1 e2 e3 e4 e5 h = ground (arith, e1, e2, e3, e4, e5, h)
Phase-moves p s t wait_exited e1 e2 e3 e4 e5 h = ground (arith, e1, e2, e3, e4, e5, h)

Phase-reads_stopped :
    (p n : ℕ) (s : Pool) (w : Main)
    → s.threads_state ≡ stopped
    → s.at_test ≡ suc n
    → Phase p s w
    → Phase p (record s { at_test = n; to_exit = suc s.to_exit }) w
Phase-reads_stopped p n s between m c h = ground (arith, m, c, h)
Phase-reads_stopped p n s wait_running m c h = ground (arith, m, c, h)
Phase-reads_stopped p n s wait_exited m c h = ground (arith, m, c, h)

Phase-exits :
    (p n : ℕ) (s : Pool) (w : Main)
    → s.to_exit ≡ suc n
    → Phase p s w
    → Phase p (record s { to_exit = n; exited_threads = suc s.exited_threads }) w
Phase-exits p n s between c h = ground (arith, c, h)
Phase-exits p n s wait_running c h = ground (arith, c, h)
Phase-exits p n s wait_exited c h = ground (arith, c, h)

Step-IsSound : (p : ℕ) (s t : Pool) → IsSound p s → Step p s t → IsSound p t
unfolding begin_start end_start begin_stop end_stop
Step-IsSound p _ _ (r, h) (starts s made m c) =
    let k : Phase p s between = rw m at h in ground (arith, r, k, c)
Step-IsSound p _ _ (r, h) (started s m c) =
    let k : Phase p s wait_running = rw m at h in ground (arith, r, k)
Step-IsSound p _ _ (r, h) (stops s m) =
    let k : Phase p s between = rw m at h in ground (arith, r, k)
Step-IsSound p _ _ (r, h) (all_stopped s m c) =
    let k : Phase p s wait_exited = rw m at h in ground (arith, r, k, c)
Step-IsSound p _ _ (r, h) (reads_running s n m c) =
    let t = record s { at_test = n; to_enter = suc s.to_enter } in
    (r, Phase-moves p s t s.main refl refl refl refl (omega (arith, c)) h)
Step-IsSound p _ _ (r, h) (enters s n c) =
    let t = record s {
      to_enter = n;
      in_service = suc s.in_service;
      running_threads = suc s.running_threads;
    } in
    (omega (arith, r), Phase-moves p s t s.main refl refl refl refl (omega (arith, c)) h)
Step-IsSound p _ _ (r, h) (leaves s n k m c) =
    let t = record s { at_test = suc s.at_test; in_service = n; running_threads = k } in
    (omega (arith, r, m, c), Phase-moves p s t s.main refl refl refl refl (omega (arith, m)) h)
Step-IsSound p _ _ (r, h) (reads_stopped s n m c) = (r, Phase-reads_stopped p n s s.main m c h)
Step-IsSound p _ _ (r, h) (exits s n c) = (r, Phase-exits p n s s.main c h)

-- In every state that the pool reaches, the count of running threads is that of the threads in the
-- service. Between two calls there is either no thread, after a stop, or all of the pool's threads are
-- alive, after a start; during a stop the threads alive and those counted as exited are all of them, or
-- there was no thread to stop.
pub Reach-IsSound : (p : ℕ) (s : Pool) → Reach p s → IsSound p s
Reach-IsSound p _ here = (refl, inl (refl, refl, omega arith))
Reach-IsSound p t (next {s} r step) = Step-IsSound p s t (Reach-IsSound p s r) step
