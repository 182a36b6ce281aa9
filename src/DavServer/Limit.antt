-- ===== src/DavServer/Limit.antt =====
-- The limit of jobs of lab14_DAv/server.c, which is tested without the mutex.
use pso_workspace.Base.{ap, ℕ, zero, suc, ◌≡◌, refl, some, [], replicate, arith}
use pso_workspace.Base.Text.{codes}
use pso_workspace.Base.Shelf.{assign}
use pso_workspace.DavServer.State.{Server, new_server, job_starts}
use pso_workspace.DavServer.System.{
  Threads, no_threads, accept, admit, launch, Serves, stop, further,
}

-- The server after so many starts of a job with the first id.
launched : ℕ → Server
launched zero = new_server
launched (suc n) = record (launched n) {
  jobs = assign (launched n).jobs 100 (record { status = codes "RUNNING"; job_id = 100 });
  running_jobs = suc (launched n).running_jobs;
  id_seed = suc (launched n).id_seed;
}

running_jobs-launched : (n : ℕ) → (launched n).running_jobs ≡ n
unfolding launched
running_jobs-launched zero = refl
running_jobs-launched (suc n) = ap suc (running_jobs-launched n)

-- So many threads that ask, that are admitted and that wait for their jobs.
abbrev crowd : ℕ → ℕ → ℕ → Threads
crowd a b c = record {
  server = launched c;
  asking = replicate a 100;
  admitted = replicate b 100;
  waiting = replicate c 100;
}

all_ask : (a : ℕ) → Serves no_threads (crowd a 0 0)
unfolding launched
all_ask zero = stop
all_ask (suc a) = further (all_ask a) (accept refl)

all_admitted : (a b : ℕ) → Serves no_threads (crowd a b 0)
unfolding launched
all_admitted a zero = all_ask a
all_admitted a (suc b) =
    further (all_admitted (suc a) b) (admit 100 [] (replicate a 100) refl (omega arith) refl)

start : (c : ℕ) → job_starts 100 (launched c) ≡ some (launched (suc c))
unfolding job_starts launched
start c = refl

all_wait : (b c : ℕ) → Serves no_threads (crowd 0 b c)
unfolding launched
all_wait b zero = all_admitted 0 b
all_wait b (suc c) =
    further (all_wait (suc b) c) (launch 100 [] (replicate b 100) refl (start c) refl)

-- There is no bound on the jobs that run at once: any number of clients that are accepted before the
-- first job starts are all admitted, and their jobs all get the id 100.
pub jobs_unlimited :
    (n : ℕ)
    → (w : Threads) × Serves no_threads w
      × (w.server.running_jobs ≡ n)
      × (w.waiting ≡ replicate n 100)
jobs_unlimited n = (crowd 0 0 n, all_wait 0 n, running_jobs-launched n, refl)
