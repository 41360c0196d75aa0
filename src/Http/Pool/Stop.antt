-- ===== src/Http/Pool/Stop.antt =====
-- A first stop of the thread pool comes to its end (setThreadsState of src/nxos_http_client.cpp).
use nxos_dhcp6_exporter.Prelude.{ℕ, ℕ-cases, suc, ◌+◌, ◌*◌, ◌<◌, ◌≡◌, ◌⊎◌, inl, inr, refl, arith}
use nxos_dhcp6_exporter.Prelude.Inevitable.{Inevitable, now, Inevitable-map, Inevitable-within}
use nxos_dhcp6_exporter.Http.Pool.{
  running, stopped, between, wait_exited, Pool, begin_start, end_start, begin_stop, end_stop, Step,
  starts, started, stops, all_stopped, reads_running, enters, leaves, reads_stopped, exits, Reach,
  stop_client, destructor,
}
use nxos_dhcp6_exporter.Http.Pool.Runs.{stuck}
use nxos_dhcp6_exporter.Http.Pool.Threads.{alive, Phase, Reach-IsSound}

-- The call is over, no thread is left, and so many threads have been counted as exited.
abbrev pub IsDown : ℕ → Pool → Type 0
IsDown n s = (s.main ≡ between) × (s.thread_pool ≡ 0) × (alive s ≡ 0) × (s.exited_threads ≡ n)

-- A stop in its wait, with every thread of a pool of `n` alive or counted as exited.
pub record IsStopping (n : ℕ) (s : Pool) : Type 0 where
  pub has_threads : s.thread_pool ≡ n
  pub waits : s.main ≡ wait_exited
  pub is_stopped : s.threads_state ≡ stopped
  pub counted : alive s + s.exited_threads ≡ s.thread_pool
  pub counts_service : s.running_threads ≡ s.in_service

-- The steps that the threads have left before all have exited, at most.
abbrev pub steps_left : Pool → ℕ
steps_left s = 4 * s.to_enter + 3 * s.in_service + 2 * s.at_test + s.to_exit

-- A step of a stop ends it, or leaves fewer steps.
Step-IsStopping :
    (p n : ℕ) (s t : Pool)
    → Step p s t
    → IsStopping n s
    → IsDown n t ⊎ (IsStopping n t × (steps_left t < steps_left s))
unfolding begin_start end_start begin_stop end_stop
Step-IsStopping p k _ _ (starts s made m c) h = cc (h.waits)
Step-IsStopping p k _ _ (started s m c) h = cc (h.waits)
Step-IsStopping p k _ _ (stops s m) h = cc (h.waits)
Step-IsStopping p k _ _ (all_stopped s m c) h =
    inl (refl, refl, omega (arith, h.counted, c), omega (arith, h.has_threads, c))
Step-IsStopping p k _ _ (reads_running s n m c) h = cc (h.is_stopped)
Step-IsStopping p k _ _ (enters s n c) h = inr (
  record {
    has_threads = h.has_threads;
    waits = h.waits;
    is_stopped = h.is_stopped;
    counted = omega (arith, h.counted, c);
    counts_service = omega (arith, h.counts_service);
  },
  omega (arith, c),
)
Step-IsStopping p k _ _ (leaves s n r m c) h = inr (
  record {
    has_threads = h.has_threads;
    waits = h.waits;
    is_stopped = h.is_stopped;
    counted = omega (arith, h.counted, m);
    counts_service = omega (arith, h.counts_service, m, c);
  },
  omega (arith, m),
)
Step-IsStopping p k _ _ (reads_stopped s n m c) h = inr (
  record {
    has_threads = h.has_threads;
    waits = h.waits;
    is_stopped = h.is_stopped;
    counted = omega (arith, h.counted, c);
    counts_service = h.counts_service;
  },
  omega (arith, c),
)
Step-IsStopping p k _ _ (exits s n c) h = inr (
  record {
    has_threads = h.has_threads;
    waits = h.waits;
    is_stopped = h.is_stopped;
    counted = omega (arith, h.counted, c);
    counts_service = h.counts_service;
  },
  omega (arith, c),
)

-- A stop is never stuck.
IsStopping-moves : (p k : ℕ) (s : Pool) → IsStopping k s → (t : Pool) × Step p s t
IsStopping-moves p k s h = elim (ℕ-cases s.at_test) [
  | inr (n, e) ↦ (_, reads_stopped s n h.is_stopped e)
  | inl no_test ↦ elim (ℕ-cases s.to_enter) [
    | inr (n, e) ↦ (_, enters s n e)
    | inl no_enter ↦ elim (ℕ-cases s.to_exit) [
      | inr (n, e) ↦ (_, exits s n e)
      | inl no_exit ↦ elim (ℕ-cases s.in_service) [
        | inr (n, e) ↦ (_, leaves s n n e (omega (arith, e, h.counts_service)))
        | inl none_in ↦ (
          _,
          all_stopped s h.waits (omega (arith, h.counted, no_test, no_enter, no_exit, none_in)),
        )
      ]
    ]
  ]
]

Step-ends :
    (p n : ℕ) (s t : Pool)
    → Step p s t
    → IsStopping n s
    → Inevitable (Step p) (IsDown n) t ⊎ (IsStopping n t × (steps_left t < steps_left s))
Step-ends p n s t step h = elim (Step-IsStopping p n s t step h) [
  | inl down ↦ inl (now down)
  | inr still ↦ inr still
]

-- Where stopClient is called on a pool that was started, and however the threads run then, the call comes
-- to its end with no thread left and all threads of the pool counted as exited, if the service's run
-- returns in every thread.
pub first_stop_ends :
    (p : ℕ) (s : Pool)
    → Reach p s
    → s.main ≡ between
    → s.threads_state ≡ running
    → Inevitable (Step p) (IsDown p) (stop_client s)
unfolding stop_client begin_stop
first_stop_ends p s reached main_free up =
    let (r, h) = Reach-IsSound p s reached in
    let phase : Phase p s between = rw main_free at h in
    Inevitable-within steps_left (IsStopping-moves p p) (Step-ends p p) (suc (steps_left s))
      (begin_stop s) (omega arith)
      (record {
        has_threads = ground (arith, up, phase);
        waits = refl;
        is_stopped = refl;
        counted = ground (arith, up, phase);
        counts_service = r;
      })

-- A client with one thread or more that has been started: however its threads run, the call of stopClient
-- comes to its end, and the destructor that is then called is stuck for ever, since it waits for a
-- count that is not set back and no thread is left to take a step.
pub destructor_hangs :
    (p : ℕ) (s : Pool)
    → 0 < p
    → Reach p s
    → s.main ≡ between
    → s.threads_state ≡ running
    → Inevitable
        (Step p)
        (λ t. IsDown p t × ((u : Pool) → ¬ Step p (destructor t) u))
        (stop_client s)
unfolding destructor begin_stop
destructor_hangs p s positive reached main_free up =
    Inevitable-map
      (λ t (free, none_made, none_alive, exited). (
        (free, none_made, none_alive, exited),
        λ u.
            stuck p (begin_stop t) u refl (λ h. omega (arith, h, exited, none_made, positive))
              (omega (arith, none_alive)) (omega (arith, none_alive)) (omega (arith, none_alive))
              (omega (arith, none_alive)),
      ))
      (first_stop_ends p s reached main_free up)
