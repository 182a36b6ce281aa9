-- ===== src/JobServer/Mutexes.antt =====
-- The mutexes of EXAMS/PART2_lab14/server.c: who frees them, and the request that does not.
use pso_workspace.JobServer.Rules.{Keeps, thread_handle-Keeps, other_requests-Keeps}
use pso_workspace.Base.{ℕ, zero, suc, ◌+◌, ◌-◌, ◌≡◌, true, false, Option, none, some, arith, dec_lt}
use pso_workspace.Base.Text.{Text, cut, atoi, codes, str_eq}
use pso_workspace.Base.Integers.{pos_part}
use pso_workspace.Base.Machine.{blocked, Ends, Ends-bind, bind}
use pso_workspace.JobServer.State.{
  Server, reaping, Status, Stream, seed_init, slot, no_locks, hold, jobs_mutex, id_seed_mutex,
  max_jobs, unlock,
}
use pso_workspace.JobServer.Handler.{
  started, run_request, get_status, kill_job, get_output, list_jobs, list_request, jobs_seen,
  mark_finished, take_unit, reap, signal_handler, free_slot,
}
use pso_workspace.JobServer.Listing.{list_jobs_within, list_jobs_beyond, before_lines}
use pso_workspace.JobServer.System.{Event, request, told, waited, sigterm, handle, accepted}

-- "get_status" of an id in the table that no job has waits for ever on the mutex that it holds: the
-- client gets no answer, and `jobs_mutex` stays taken.
pub get_status_deadlock :
    (text : Text) (i : ℕ) (s : Server)
    → s.locks ≡ no_locks
    → slot (atoi text) ≡ some i
    → (s.jobs i).pid ≡ 0
    → get_status (some text) s ≡ blocked (record s { locks = hold jobs_mutex true no_locks })
unfolding get_status
get_status_deadlock text i s free known empty = ground arith

abbrev AllFree : Server → Type 0
AllFree s = s.locks ≡ no_locks

run_request-AllFree :
    (args : Option Text) (forked : Option ℕ) → Keeps AllFree (run_request args forked)
unfolding run_request started
run_request-AllFree args forked s v = ground arith

kill_job-AllFree : (args : Option Text) → Keeps AllFree (kill_job args)
unfolding kill_job
kill_job-AllFree args s v = ground arith

get_output-AllFree : (stream : Stream) (args : Option Text) → Keeps AllFree (get_output stream args)
unfolding get_output
get_output-AllFree stream args s v = ground arith

lines-AllFree :
    (status : Status) (left : ℕ) (s : Server)
    → s.locks ≡ hold jobs_mutex true no_locks
    → Ends AllFree (bind (list_jobs status left 0 s) (λ _. unlock jobs_mutex))
lines-AllFree status left s v = elim (dec_lt max_jobs (0 + left)) [
  | yes p ↦ rw (list_jobs_beyond status left 0 s (omega arith) p) tt
  | no p ↦ rw (list_jobs_within status left 0 s (omega arith)) (ground arith)
]

list_request-AllFree : (status : Status) → Keeps AllFree (list_request status)
unfolding list_request
list_request-AllFree status s v =
    ground
      (arith, lines-AllFree status (pos_part (jobs_seen status s.id_seed)) (before_lines status s))

mark_finished-AllFree : (pid left i : ℕ) → Keeps AllFree (mark_finished pid left i)
unfolding mark_finished
mark_finished-AllFree pid zero i s v = v
mark_finished-AllFree pid (suc left) i s v =
    ground (arith, mark_finished-AllFree pid left (i + 1) s v)

freed-AllFree :
    (pid left : ℕ) (s : Server)
    → AllFree s
    → Ends AllFree (bind (mark_finished pid left 0 s) (λ _. free_slot))
freed-AllFree pid left s v =
    Ends-bind AllFree (mark_finished pid left 0 s) (λ _. free_slot)
      (mark_finished-AllFree pid left 0 s v) (λ _ t w. ground arith)

take_unit-AllFree : Keeps AllFree take_unit
unfolding take_unit
take_unit-AllFree s v = ground arith

reap-AllFree : (pid : Option ℕ) → Keeps AllFree (reap pid)
unfolding reap
reap-AllFree none s v = ground arith
reap-AllFree (some pid) s v = ground (
  arith,
  freed-AllFree pid (s.id_seed - seed_init)
      (record s { waiter = reaping; locks = hold id_seed_mutex false s.locks }),
)

-- An event other than a "get_status" request.
abbrev pub IsSafe : Event → Type 0
IsSafe (request buffer forked) = str_eq (codes "get_status") (cut 32 buffer).0 ≡ false
IsSafe told = Unit
IsSafe (waited pid) = Unit
IsSafe sigterm = Unit

-- Every event but a "get_status" request that starts with the mutexes free, and does not crash the
-- process, leaves all of them free, whether it returns or waits for the semaphore.
pub handle-AllFree : (e : Event) → IsSafe e → (s : Server) → AllFree s → Ends AllFree (handle e s)
unfolding handle signal_handler
handle-AllFree (request buffer forked) safe s v =
    let (command, args) = cut 32 buffer in
    thread_handle-Keeps AllFree buffer forked (run_request-AllFree args forked)
      (other_requests-Keeps AllFree command args (λ h. cc) (kill_job-AllFree args)
        (λ stream. get_output-AllFree stream args) list_request-AllFree (λ t w. ground arith))
      (accepted s) (ground arith)
handle-AllFree told safe s v = ground (arith, take_unit-AllFree s)
handle-AllFree (waited pid) safe s v = ground (arith, reap-AllFree pid s)
handle-AllFree sigterm safe s v = ground arith
