-- ===== src/DavServer/System.antt =====
-- The threads of lab14_DAv/server.c that handle a `run`, as a step relation. A step is the read of
-- `id_seed`, the test of `running_jobs` or the fork, which hold no mutex, or what a thread does under
-- `job_index_mutex`. The lists have the ids of the threads at each point. A thread whose fork fails is
-- gone.
use pso_workspace.Base.{ℕ, ◌≤◌, ◌<◌, ◌≡◌, some, List, [], ◌∷◌, ◌++◌}
use pso_workspace.DavServer.State.{Server, new_server, job_limit, job_starts, job_ends}

pub record Threads : Type 0 where
  pub server : Server
  pub asking : List ℕ
  pub admitted : List ℕ
  pub waiting : List ℕ

abbrev pub no_threads : Threads
no_threads = record { server = new_server; asking = []; admitted = []; waiting = [] }

pub data RunStep (w : Threads) : Threads → Type 0 where
  accept : {u : Threads} → u ≡ record w { asking = w.server.id_seed ∷ w.asking } → RunStep w u
  admit :
      {u : Threads} (id : ℕ) (xs ys : List ℕ)
      → w.asking ≡ xs ++ id ∷ ys
      → w.server.running_jobs < job_limit
      → u ≡ record w { asking = xs ++ ys; admitted = id ∷ w.admitted }
      → RunStep w u
  refuse :
      {u : Threads} (id : ℕ) (xs ys : List ℕ)
      → w.asking ≡ xs ++ id ∷ ys
      → job_limit ≤ w.server.running_jobs
      → u ≡ record w { asking = xs ++ ys }
      → RunStep w u
  unforked :
      {u : Threads} (id : ℕ) (xs ys : List ℕ)
      → w.admitted ≡ xs ++ id ∷ ys
      → u ≡ record w { admitted = xs ++ ys }
      → RunStep w u
  launch :
      {u : Threads} {s : Server} (id : ℕ) (xs ys : List ℕ)
      → w.admitted ≡ xs ++ id ∷ ys
      → job_starts id w.server ≡ some s
      → u ≡ record w { server = s; admitted = xs ++ ys; waiting = id ∷ w.waiting }
      → RunStep w u
  end :
      {u : Threads} (id : ℕ) (xs ys : List ℕ)
      → w.waiting ≡ xs ++ id ∷ ys
      → u ≡ record w { server = job_ends id w.server; waiting = xs ++ ys }
      → RunStep w u

pub data Serves (w : Threads) : Threads → Type 0 where
  stop : Serves w w
  further : {u v : Threads} → Serves w u → RunStep u v → Serves w v
