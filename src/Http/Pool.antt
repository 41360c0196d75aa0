-- ===== src/Http/Pool.antt =====
-- The thread pool of NXOSHttpClientImpl (src/nxos_http_client.cpp) as a system of steps: threadLoop and
-- setThreadsState. The threads are alike, so that a state counts them by the place where they are; a
-- step is what one thread does between two releases of the mutex, or its test of the state outside it.
pub mod Threads
pub mod Runs
pub mod Stop
use nxos_dhcp6_exporter.Prelude.{ℕ, suc, zero, ◌+◌, ◌<◌, ◌≡◌, ◌≢◌, ◌⊎◌, inl, inr, refl, arith}

-- NXOSHttpClientImpl::ThreadState
pub data ThreadState : Type 0 where
  running stopped : ThreadState

-- The thread that calls startClient and stopClient: between calls, or in one of the two waits.
pub data Main : Type 0 where
  between wait_running wait_exited : Main

pub record Pool : Type 0 where
  pub threads_state : ThreadState  -- m_threadsState
  pub running_threads : ℕ  -- m_runningThreads
  pub exited_threads : ℕ  -- m_exitedThreads
  pub thread_pool : ℕ  -- m_threadPool.size()
  pub main : Main
  pub at_test : ℕ  -- threads before the test of the state
  pub to_enter : ℕ  -- threads that read RUNNING and have not counted themselves
  pub to_exit : ℕ  -- threads that read STOPPED and have not counted themselves
  pub in_service : ℕ  -- threads in m_ioService->run()

abbrev pub initial : Pool
initial = record {
  threads_state = stopped;
  running_threads = 0;
  exited_threads = 0;
  thread_pool = 0;
  main = between;
  at_test = 0;
  to_enter = 0;
  to_exit = 0;
  in_service = 0;
}

-- setThreadsState(RUNNING) up to its wait, with the number of threads that it makes.
unfoldable pub begin_start : ℕ → Pool → Pool
begin_start made s = record s {
  threads_state = running;
  thread_pool = s.thread_pool + made;
  at_test = s.at_test + made;
  main = wait_running;
}

-- After that wait.
unfoldable pub end_start : Pool → Pool
end_start s = record s { exited_threads = 0; main = between }

-- setThreadsState(STOPPED) up to its wait. Left out: `m_ioService->poll()`, which runs the tasks that are
-- ready on the calling thread, under the mutex, and drops their exceptions. It changes none of these counts;
-- that its tasks return is assumed.
unfoldable pub begin_stop : Pool → Pool
begin_stop s = record s { threads_state = stopped; main = wait_exited }

-- After that wait.
unfoldable pub end_stop : Pool → Pool
end_stop s = record s { thread_pool = 0; main = between }

-- NXOSHttpClientImpl::stopClient and ~NXOSHttpClientImpl, up to their waits
unfoldable pub stop_client : Pool → Pool
unfolding begin_stop
stop_client = begin_stop

unfoldable pub destructor : Pool → Pool
unfolding begin_stop
destructor = begin_stop

-- The steps, where `pool_size` is m_poolSize. A thread leaves the service when it is stopped, or by an
-- exception, which it catches.
pub data Step (pool_size : ℕ) : Pool → Pool → Type 0 where
  starts :
      (s : Pool) (made : ℕ)
      → s.main ≡ between
      → (s.thread_pool + made ≡ pool_size) ⊎ ((pool_size < s.thread_pool) × (made ≡ 0))
      → Step pool_size s (begin_start made s)
  started :
      (s : Pool)
      → s.main ≡ wait_running
      → s.running_threads ≡ s.thread_pool
      → Step pool_size s (end_start s)
  stops : (s : Pool) → s.main ≡ between → Step pool_size s (begin_stop s)
  all_stopped :
      (s : Pool)
      → s.main ≡ wait_exited
      → s.exited_threads ≡ s.thread_pool
      → Step pool_size s (end_stop s)
  reads_running :
      (s : Pool) (n : ℕ)
      → s.threads_state ≡ running
      → s.at_test ≡ suc n
      → Step pool_size s (record s { at_test = n; to_enter = suc s.to_enter })
  enters :
      (s : Pool) (n : ℕ)
      → s.to_enter ≡ suc n
      → Step pool_size s (record s {
        to_enter = n;
        in_service = suc s.in_service;
        running_threads = suc s.running_threads;
      })
  leaves :
      (s : Pool) (n m : ℕ)
      → s.in_service ≡ suc n
      → s.running_threads ≡ suc m
      → Step pool_size s (record s { at_test = suc s.at_test; in_service = n; running_threads = m })
  reads_stopped :
      (s : Pool) (n : ℕ)
      → s.threads_state ≡ stopped
      → s.at_test ≡ suc n
      → Step pool_size s (record s { at_test = n; to_exit = suc s.to_exit })
  exits :
      (s : Pool) (n : ℕ)
      → s.to_exit ≡ suc n
      → Step pool_size s (record s { to_exit = n; exited_threads = suc s.exited_threads })

pub data Reach (pool_size : ℕ) : Pool → Type 0 where
  here : Reach pool_size initial
  next : {s t : Pool} → Reach pool_size s → Step pool_size s t → Reach pool_size t
