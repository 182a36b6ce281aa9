-- ===== src/JobServer/Capacity.antt =====
-- The counters of EXAMS/PART2_lab14/server.c: running_jobs_nr, the semaphore and id_seed.
use pso_workspace.Base.{
  ℕ, zero, suc, ◌+◌, ◌-◌, ◌≤◌, ◌<◌, ◌≡◌, false, Option, none, some, List, arith, dec_lt,
}
use pso_workspace.JobServer.Rules.{
  Keeps, run_events-Keeps, thread_handle-Keeps, other_requests-Keeps,
}
use pso_workspace.Base.Text.{Text, cut}
use pso_workspace.Base.Integers.{pos_part}
use pso_workspace.Base.Machine.{Ends, Ends-bind, bind, Ends-then}
use pso_workspace.JobServer.State.{
  Server, Waiter, at_semaphore, in_wait, reaping, ended, Status, Stream, seed_init, max_running,
  max_jobs, id_seed_mutex, jobs_mutex, unlock, hold,
}
use pso_workspace.JobServer.Handler.{
  started, run_request, get_status, kill_job, get_output, list_jobs, list_request, jobs_seen,
  mark_finished, take_unit, reap, signal_handler, free_slot,
}
use pso_workspace.JobServer.Listing.{list_jobs_within, list_jobs_beyond, before_lines}
use pso_workspace.JobServer.System.{
  Event, request, told, waited, sigterm, handle, run_events, accepted,
}

-- The unit that the waiting thread has taken, if any.
abbrev pub unit_of : Waiter → ℕ
unit_of at_semaphore = 0
unit_of in_wait = 1
unit_of reaping = 1
unit_of ended = 0

-- Each semaphore unit, and the one that the waiting thread has taken, stands for one admitted job.
pub record InCapacity (s : Server) : Type 0 where
  pub counted : s.sem + unit_of s.waiter ≤ s.running_jobs_nr
  pub limited : s.running_jobs_nr ≤ max_running
  pub seeded : seed_init ≤ s.id_seed

started-Ends :
    (id i : ℕ) (program : Text) (argv : List Text) (forked : Option ℕ) (s : Server)
    → s.sem + unit_of s.waiter < s.running_jobs_nr
    → s.running_jobs_nr ≤ max_running
    → seed_init ≤ s.id_seed
    → Ends InCapacity (started id i program argv forked s)
unfolding started
started-Ends id i program argv forked s a b c = ground arith

run_request-Ends :
    (args : Option Text) (forked : Option ℕ) (s : Server)
    → InCapacity s
    → Ends InCapacity (run_request args forked s)
unfolding run_request started
run_request-Ends args forked s v = ground arith

get_status-Ends :
    (args : Option Text) (s : Server) → InCapacity s → Ends InCapacity (get_status args s)
unfolding get_status
get_status-Ends args s v = ground arith

kill_job-Ends : (args : Option Text) (s : Server) → InCapacity s → Ends InCapacity (kill_job args s)
unfolding kill_job
kill_job-Ends args s v = ground arith

get_output-Ends :
    (stream : Stream) (args : Option Text) (s : Server)
    → InCapacity s
    → Ends InCapacity (get_output stream args s)
unfolding get_output
get_output-Ends stream args s v = ground arith

list_jobs-Ends :
    (status : Status) (left i : ℕ) (s : Server)
    → i ≤ max_jobs
    → InCapacity s
    → Ends InCapacity (list_jobs status left i s)
list_jobs-Ends status left i s h v = elim (dec_lt max_jobs (i + left)) [
  | yes p ↦ rw (list_jobs_beyond status left i s h p) tt
  | no p ↦ rw (list_jobs_within status left i s (omega arith)) (ground arith)
]

lines-Ends :
    (status : Status) (left : ℕ) (s : Server)
    → InCapacity s
    → Ends InCapacity (bind (list_jobs status left 0 s) (λ _. unlock jobs_mutex))
lines-Ends status left s v =
    Ends-bind InCapacity (list_jobs status left 0 s) (λ _. unlock jobs_mutex)
      (list_jobs-Ends status left 0 s (omega arith) v) λ _ t w. ground arith

list_request-Ends :
    (status : Status) (s : Server) → InCapacity s → Ends InCapacity (list_request status s)
unfolding list_request
list_request-Ends status s v =
    ground
      (arith, lines-Ends status (pos_part (jobs_seen status s.id_seed)) (before_lines status s))

-- A slot of the capacity is there to be given back.
record HasSlot (s : Server) : Type 0 where
  counted : s.sem < s.running_jobs_nr
  taken : s.waiter ≡ reaping
  limited : s.running_jobs_nr ≤ max_running
  seeded : seed_init ≤ s.id_seed

mark_finished-Ends :
    (pid left i : ℕ) (s : Server) → HasSlot s → Ends HasSlot (mark_finished pid left i s)
unfolding mark_finished
mark_finished-Ends pid zero i s v = v
mark_finished-Ends pid (suc left) i s v = ground (arith, mark_finished-Ends pid left (i + 1) s v)

freed-Ends :
    (pid left : ℕ) (s : Server)
    → HasSlot s
    → Ends InCapacity (bind (mark_finished pid left 0 s) (λ _. free_slot))
freed-Ends pid left s v =
    Ends-then HasSlot InCapacity (mark_finished pid left 0 s) (λ _. free_slot)
      (mark_finished-Ends pid left 0 s v) (λ t w. ground arith) (λ _ t w. ground arith)

take_unit-Ends :
    (s : Server) → s.waiter ≡ at_semaphore → InCapacity s → Ends InCapacity (take_unit s)
unfolding take_unit
take_unit-Ends s e v = ground arith

reap-Ends :
    (pid : Option ℕ) (s : Server) → s.waiter ≡ in_wait → InCapacity s → Ends InCapacity (reap pid s)
unfolding reap
reap-Ends none s e v = ground arith
reap-Ends (some pid) s e v = ground (
  arith,
  freed-Ends pid (s.id_seed - seed_init)
      (record s { waiter = reaping; locks = hold id_seed_mutex false s.locks }),
)

handle-Ends : (e : Event) → Keeps InCapacity (handle e)
unfolding handle signal_handler
handle-Ends (request buffer forked) s v =
    let (command, args) = cut 32 buffer in
    thread_handle-Keeps InCapacity buffer forked (run_request-Ends args forked)
      (other_requests-Keeps InCapacity command args (λ _. get_status-Ends args) (kill_job-Ends args)
        (λ stream. get_output-Ends stream args) list_request-Ends (λ t w. ground arith))
      (accepted s) (ground arith)
handle-Ends told s v = ground (arith, take_unit-Ends s)
handle-Ends (waited pid) s v = ground (arith, reap-Ends pid s)
handle-Ends sigterm s v = ground arith

-- Whatever requests, returns of `sem_wait` and `wait` and signals come in, also where handlers block or
-- forks fail: at most five jobs are counted as running, the units of the semaphore and the one that
-- the waiting thread has taken, if any, never exceed that count, and ids never fall below SEED_INIT.
pub run_events-InCapacity :
    (es : List Event) (s t : Server) → InCapacity s → run_events s es ≡ some t → InCapacity t
run_events-InCapacity = run_events-Keeps InCapacity handle-Ends
