-- ===== src/ThreadPool/System.antt =====
-- The threads of practice/thread_pool/pool.c as a step relation. A step is what a thread does while
-- it holds `task_mutex`, or the end of a request. A thread that waits for a task may always wake, so
-- that it takes a task whenever there is one and it is idle; what stands behind the end of the queue may
-- be another number each time.
use pso_workspace.Base.{ℕ, suc, ◌-◌, ◌<◌, ◌≡◌, some, List, [], ◌∷◌, ◌++◌, ltb, if◌then◌else◌}
use pso_workspace.ThreadPool.Queue.{max_tasks, TaskQueue, add_task, take_task}

abbrev pub max_threads : ℕ
max_threads = 4

-- `main` accepts a client, waits on `task_Max_cond`, or has been woken and is to test again.
pub data Main : Type 0 where
  accepting blocked_full woken : Main

pub record Pool : Type 0 where
  pub queue : TaskQueue
  pub main : Main
  pub busy : ℕ
  pub accepted : List ℕ
  pub taken : List ℕ

abbrev pub start_pool : Pool
start_pool = record {
  queue = record { items = λ i. 0; count = 0 };
  main = accepting;
  busy = 0;
  accepted = [];
  taken = [];
}

-- The test `task_count >= MAX_TASKS`
abbrev pub tested : TaskQueue → Main
tested q = if ltb q.count max_tasks then accepting else blocked_full

-- `pthread_cond_signal(&task_Max_cond)`
abbrev pub wake : Main → Main
wake accepting = accepting
wake blocked_full = woken
wake woken = woken

pub data PoolStep (s : Pool) : Pool → Type 0 where
  submit :
      {q : TaskQueue} {t : Pool} (client : ℕ)
      → s.main ≡ accepting
      → add_task s.queue client ≡ some q
      → t ≡ record s { queue = q; main = tested q; accepted = s.accepted ++ client ∷ [] }
      → PoolStep s t
  recheck : {t : Pool} → s.main ≡ woken → t ≡ record s { main = tested s.queue } → PoolStep s t
  take :
      {t : Pool} (behind : ℕ)
      → s.busy < max_threads
      → 0 < s.queue.count
      → t ≡ record s {
        queue = (take_task behind s.queue).1;
        busy = suc s.busy;
        taken = s.taken ++ (take_task behind s.queue).0 ∷ [];
      }
      → PoolStep s t
  finish :
      {t : Pool}
      → 0 < s.busy
      → t ≡ record s { busy = s.busy - 1; main = wake s.main }
      → PoolStep s t
  stray : {t : Pool} → t ≡ record s { main = wake s.main } → PoolStep s t

pub data Leads (s : Pool) : Pool → Type 0 where
  stop : Leads s s
  further : {t u : Pool} → Leads s t → PoolStep t u → Leads s u
