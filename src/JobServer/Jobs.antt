-- ===== src/JobServer/Jobs.antt =====
-- The life of a job in EXAMS/PART2_lab14/server.c: admitted, watched, killed or reaped.
use pso_workspace.Base.{
  if◌then◌else◌, ℕ, suc, ◌+◌, ◌-◌, ◌≤◌, ◌<◌, ◌≡◌, true, false, Option, none, some, List, [], ◌∷◌,
  ◌++◌, arith, length, ◌≢◌, ℕ_discrete, ◌⊎◌, zero, refl,
}
use pso_workspace.Base.Text.{Text, codes, atoi}
use pso_workspace.Base.Integers.{pos, negsuc}
use pso_workspace.Base.Machine.{done, bind}
use pso_workspace.JobServer.State.{
  Server, at_semaphore, reaping, ended, running, seed_init, max_running, no_locks, max_jobs,
  set_job, Sent, result_code, number, message, slot, finished, Stream, job_file,
}
use pso_workspace.JobServer.Launch.{prepare, is_delimiter}
use pso_workspace.JobServer.Commands.{Executes, prepare-join}
use pso_workspace.Base.Splitting.{AreWords, join}
use pso_workspace.JobServer.Handler.{
  started, run_request, kill_job, mark_finished, get_status, wait_round, get_output,
}

-- The table and the counters once the next id is admitted as a job under the command line.
abbrev admitted : Text → Server → Server
admitted line s =
    record (set_job (s.id_seed - seed_init) (λ job. record job { command = line; status = running })
      s) { id_seed = suc s.id_seed; running_jobs_nr = suc s.running_jobs_nr }

abbrev answered : Server → List Sent
answered s = (s.sent ++ result_code (pos 0) ∷ []) ++ number (pos s.id_seed) ∷ []

-- The server once a child with the pid executes the program for the next id.
abbrev launched : Text → Text → List Text → ℕ → Server → Server
launched line program argv pid s =
    record (set_job (s.id_seed - seed_init) (λ job. record job { pid = pid }) (admitted line s)) {
      sem = s.sem + 1;
      children = record { id = s.id_seed; pid = pid; program = program; argv = argv } ∷ s.children;
      sent = answered s;
    }

module _ (line : Text) (program : Text) (argv : List Text) (s : Server) (free : s.locks ≡ no_locks)
    (below : s.running_jobs_nr < max_running) (seeded : seed_init ≤ s.id_seed)
    (room : s.id_seed < seed_init + max_jobs) (short : length line < 128)
    (parsed : prepare line ≡ some (program, argv)) where
  run_request-launched :
      (pid : ℕ)
      → run_request (some line) (some pid) s ≡ done false (launched line program argv pid s)
  unfolding run_request started
  run_request-launched pid = ground arith

  -- "run" with a free place and a fork that fails: a place is counted as taken, nothing is started
  -- and the waiting thread is not told, but the client is sent the code 0 and the id.
  pub run_request_unforked :
      run_request (some line) none s ≡ done false (record (admitted line s) { sent = answered s })
  unfolding run_request started
  run_request_unforked = ground arith

-- "run" of a line of words with one blank between each two, of at most 127 characters, with a free place,
-- the mutexes free, fewer than 1000 ids given out and a fork that succeeds: the next id is given out,
-- its job runs under the child's pid, the child executes the first word with all words as its
-- arguments, or bash with them behind it if that word ends in `.sh`, nine arguments at most, the waiting
-- thread has one more child to wait for, and the client is sent the code 0 and the id.
pub run_request_lem :
    (w : Text) (ws : List Text) (program : Text) (argv : List Text) (s : Server) (pid : ℕ)
    → AreWords is_delimiter (w ∷ ws)
    → Executes w ws program argv
    → length argv ≤ 9
    → length (join 32 (w ∷ ws)) < 128
    → s.locks ≡ no_locks
    → s.running_jobs_nr < max_running
    → seed_init ≤ s.id_seed
    → s.id_seed < seed_init + max_jobs
    → run_request (some (join 32 (w ∷ ws))) (some pid) s
      ≡ done false (launched (join 32 (w ∷ ws)) program argv pid s)
run_request_lem w ws program argv s pid words way few short free below seeded room =
    run_request-launched (join 32 (w ∷ ws)) program argv s free below seeded room short
      (prepare-join w ws program argv words way few) pid

-- "run" with five jobs counted as running: an id is used up, the client is sent the code -1 and 18
-- bytes of the message, and nothing else changes.
pub run_request_full :
    (args : Option Text) (forked : Option ℕ) (s : Server)
    → s.locks ≡ no_locks
    → max_running ≤ s.running_jobs_nr
    → run_request args forked s
      ≡ done true (record s {
        id_seed = suc s.id_seed;
        sent =
            (s.sent ++ result_code (negsuc 0) ∷ [])
            ++ message (codes "Error! Job queue is full") 18 ∷ [];
      })
unfolding run_request
run_request_full args forked s free full = ground arith

-- "kill_job" of a running job, and then "get_status" of it: the child's pid is sent a SIGKILL, the
-- replies are 0 to the first, and 0 and the status 1 to the second, and the mutexes are free.
pub status-kill_job :
    (text : Text) (i : ℕ) (s : Server)
    → s.locks ≡ no_locks
    → slot (atoi text) ≡ some i
    → (s.jobs i).pid ≢ 0
    → (s.jobs i).status ≡ running
    → bind (kill_job (some text) s) (λ _. get_status (some text))
      ≡ done tt (record (set_job i (λ job. record job { status = finished }) s) {
        killed = (s.jobs i).pid ∷ s.killed;
        sent =
            ((s.sent ++ result_code (pos 0) ∷ []) ++ result_code (pos 0) ∷ [])
            ++ number (pos 1) ∷ [];
      })
unfolding kill_job get_status
status-kill_job text i s free known active going = ground arith

-- "kill_job" of an id with no child, or of a finished job, kills nothing and still replies 0.
pub kill_job_idle :
    (text : Text) (i : ℕ) (s : Server)
    → s.locks ≡ no_locks
    → slot (atoi text) ≡ some i
    → ((s.jobs i).pid ≡ 0) ⊎ ((s.jobs i).status ≡ finished)
    → kill_job (some text) s ≡ done tt (record s { sent = s.sent ++ result_code (pos 0) ∷ [] })
unfolding kill_job
kill_job_idle text i s free known idle = ground arith

module _ (pid j : ℕ) (s : Server) (free : s.locks ≡ no_locks) (here : (s.jobs j).pid ≡ pid) where
  -- The search stops at the first job with the pid.
  mark_finished_lem :
      (left i : ℕ)
      → i ≤ j
      → j < i + left
      → j < max_jobs
      → ((k : ℕ) → k < j → (s.jobs k).pid ≢ pid)
      → mark_finished pid left i s ≡ done tt (set_job j (λ job. record job { status = finished }) s)
  unfolding mark_finished
  mark_finished_lem zero i low high bound first = absurd (omega arith)
  mark_finished_lem (suc left) i low high bound first = elim (ℕ_discrete i j) [
    | yes e ↦ ground (arith, e)
    | no ne ↦
        ground
          (arith, first i, mark_finished_lem left (i + 1) (omega arith) (omega arith) bound first)
  ]

-- A round of the waiting thread in which `wait` returns the pid of a job, when the thread has been told
-- of a child, the job is the first with that pid and its id has been given out: that job becomes
-- finished, a place is free again, and the thread is back at the semaphore, or ends if the server is to
-- stop. A request for its output is then answered with the file of the stream, and
-- the mutexes are free.
pub output-wait_round :
    (stream : Stream) (text : Text) (pid j : ℕ) (s : Server)
    → s.locks ≡ no_locks
    → (s.jobs j).pid ≡ pid
    → 0 < s.sem
    → j + seed_init < s.id_seed
    → j < max_jobs
    → ((k : ℕ) → k < j → (s.jobs k).pid ≢ pid)
    → slot (atoi text) ≡ some j
    → pid ≢ 0
    → bind (wait_round (some pid) s) (λ _. get_output stream (some text))
      ≡ done tt (record (set_job j (λ job. record job { status = finished }) s) {
        sem = s.sem - 1;
        waiter = if s.stopping then ended else at_semaphore;
        running_jobs_nr = s.running_jobs_nr - 1;
        sent = (s.sent ++ result_code (pos 0) ∷ []) ++ job_file (atoi text) stream ∷ [];
      })
unfolding wait_round get_output
output-wait_round stream text pid j s free here told given bound first known active = ground (
  arith,
  mark_finished_lem pid j (record s { sem = s.sem - 1; waiter = reaping; locks = no_locks }) refl
      here (s.id_seed - seed_init) 0 (omega arith) (omega arith) bound first,
)
