-- ===== src/JobServer/Handler.antt =====
-- The functions of EXAMS/PART2_lab14/server.c: `run`, the branches of `thread_handle`, a round of
-- `thread_handle_wait` in its two parts, and `signal_handler`. What `fork` and `wait` return is an argument: a pid,
-- or `none` for -1. `atoi(NULL)` and `strcpy` from NULL are faults.
use pso_workspace.Base.{
  ℕ, suc, zero, ◌+◌, ◌-◌, Bool, true, false, ◌&&◌, not, Option, none, some, List, ◌∷◌, ltb, leb,
  ◌==◌, if◌then◌else◌, length,
}
use pso_workspace.Base.Text.{Text, codes, str_eq, cut, atoi}
use pso_workspace.Base.Integers.{ℤ, pos, negsuc, pos_part, sub_ℕ}
use pso_workspace.Base.Machine.{M, ◌>>=◌, ◌>>◌, get_state, modify, deref, pure, when}
use pso_workspace.JobServer.State.{
  seed_init, max_running, Status, running, finished, Job, jobs_mutex, job_index_mutex,
  id_seed_mutex, finish_mutex, Stream, stdout, stderr, result_code, number, message, listing,
  job_file, Child, Waiter, at_semaphore, in_wait, reaping, ended, Server, lock, unlock, sem_post,
  sem_wait, write, slot, set_job,
}
use pso_workspace.JobServer.Launch.{prepare}

-- The index of a job in the table; out of range is a fault.
abbrev pub index : ℤ → M Server ℕ
index id = deref (slot id)

abbrev pub is_active : Job → Bool
is_active job = not (job.pid == 0)

abbrev pub has_status : Status → Job → Bool
has_status running job = elim job.status [ running ↦ true | finished ↦ false ]
has_status finished job = elim job.status [ running ↦ false | finished ↦ true ]

-- `jobs[i].command` has 128 bytes.
abbrev fits_command : Text → Option Text
fits_command line = if ltb (length line) 128 then some line else none

abbrev child_of : ℕ → ℕ → Text → List Text → Child
child_of id pid program argv = record { id = id; pid = pid; program = program; argv = argv }

-- `run` behind the fork, in the parent.
unfoldable pub started : ℕ → ℕ → Text → List Text → Option ℕ → M Server (Unit {0})
started id i program argv none = pure tt
started id i program argv (some pid) = do
  modify (λ s. record s { children = child_of id pid program argv ∷ s.children })
  lock jobs_mutex
  modify (set_job i (λ job. record job { pid = pid }))
  unlock jobs_mutex
  sem_post

-- `run(id, command)`
unfoldable pub run : ℕ → Option Text → Option ℕ → M Server (Unit {0})
run id args forked = do
  line ← deref args
  i ← index (pos id)
  command ← deref (fits_command line)
  modify (set_job i (λ job. record job { command = command; status = running }))
  (program, argv) ← deref (prepare line)
  started id i program argv forked

-- `id_seed++` under its mutex
unfoldable pub next_id : M Server ℕ
next_id = do
  lock id_seed_mutex
  s ← get_state
  modify (λ t. record t { id_seed = suc t.id_seed })
  unlock id_seed_mutex
  pure s.id_seed

refuse : M Server Bool
refuse = do
  unlock job_index_mutex
  write (result_code (negsuc 0))
  write (message (codes "Error! Job queue is full") 18)
  pure true

admit : ℕ → Option Text → Option ℕ → M Server Bool
unfolding run
admit id args forked = do
  modify (λ s. record s { running_jobs_nr = suc s.running_jobs_nr })
  unlock job_index_mutex
  run id args forked
  write (result_code (pos 0))
  write (number (pos id))
  pure false

-- The "run" branch of `thread_handle`; `true` where it returns from the handler.
unfoldable pub run_request : Option Text → Option ℕ → M Server Bool
unfolding refuse admit next_id
run_request args forked = do
  id ← next_id
  lock job_index_mutex
  s ← get_state
  if leb max_running s.running_jobs_nr then refuse else admit id args forked

abbrev pub status_code : Status → ℤ
status_code running = pos 0
status_code finished = pos 1

tell_status : Status → M Server (Unit {0})
tell_status status = do
  unlock jobs_mutex
  write (result_code (pos 0))
  write (number (status_code status))

-- The `else` branch of "get_status" locks where it means to unlock.
tell_unknown : M Server (Unit {0})
tell_unknown = do lock jobs_mutex; write (result_code (negsuc 0))

-- The other branches of `thread_handle`, in the order of the source.
unfoldable pub get_status : Option Text → M Server (Unit {0})
unfolding tell_status tell_unknown
get_status args = do
  text ← deref args
  lock jobs_mutex
  i ← index (atoi text)
  s ← get_state
  if is_active (s.jobs i) then tell_status (s.jobs i).status else tell_unknown

-- `kill(pid, SIGKILL)` and the new status
kill_at : ℕ → M Server (Unit {0})
kill_at i = do
  modify (λ s. record s { killed = (s.jobs i).pid ∷ s.killed })
  modify (set_job i (λ job. record job { status = finished }))

unfoldable pub kill_job : Option Text → M Server (Unit {0})
unfolding kill_at
kill_job args = do
  text ← deref args
  lock jobs_mutex
  i ← index (atoi text)
  s ← get_state
  when (is_active (s.jobs i) && has_status running (s.jobs i)) (kill_at i)
  unlock jobs_mutex
  write (result_code (pos 0))

send_file : ℤ → Stream → M Server (Unit {0})
send_file id stream = do unlock jobs_mutex; write (result_code (pos 0)); write (job_file id stream)

send_refusal : M Server (Unit {0})
send_refusal = do unlock jobs_mutex; write (result_code (negsuc 0))

-- "get_stdout" and "get_stderr"
unfoldable pub get_output : Stream → Option Text → M Server (Unit {0})
unfolding send_file send_refusal
get_output stream args = do
  text ← deref args
  lock jobs_mutex
  i ← index (atoi text)
  s ← get_state
  if is_active (s.jobs i) && has_status finished (s.jobs i)
      then send_file (atoi text) stream
      else send_refusal

-- The loops of "get_jobs" and "istoric", over the jobs from index `i` on.
unfoldable pub list_jobs : Status → ℕ → ℕ → M Server (Unit {0})
list_jobs status zero i = pure tt
list_jobs status (suc left) i = do
  j ← index (pos (i + seed_init))
  s ← get_state
  when (is_active (s.jobs j) && has_status status (s.jobs j))
      (write (listing (i + seed_init) (s.jobs j).command))
  list_jobs status left (i + 1)

-- The `nr` of "get_jobs", which lists running jobs, and of "istoric", which lists finished ones.
abbrev pub jobs_seen : Status → ℕ → ℤ
jobs_seen running seed = sub_ℕ seed (seed_init + 1)
jobs_seen finished seed = sub_ℕ seed seed_init

unfoldable pub list_request : Status → M Server (Unit {0})
unfolding list_jobs
list_request status = do
  lock id_seed_mutex
  s ← get_state
  unlock id_seed_mutex
  write (result_code (pos 0))
  write (number (jobs_seen status s.id_seed))
  lock jobs_mutex
  list_jobs status (pos_part (jobs_seen status s.id_seed)) 0
  unlock jobs_mutex

-- `close(client)`
abbrev pub close_client : M Server (Unit {0})
close_client = modify (λ s. record s { is_closed = true })

-- The branches behind "run", each a test of its own.
unfoldable pub other_requests : Text → Option Text → M Server (Unit {0})
unfolding get_status kill_job get_output list_request
other_requests command args = do
  when (str_eq (codes "get_status") command) (get_status args)
  when (str_eq (codes "kill_job") command) (kill_job args)
  when (str_eq (codes "get_stdout") command) (get_output stdout args)
  when (str_eq (codes "get_stderr") command) (get_output stderr args)
  when (str_eq (codes "get_jobs") command) (list_request running)
  when (str_eq (codes "istoric") command) (list_request finished)
  close_client

-- The word before the first space is "run".
abbrev pub is_run : Text → Bool
is_run buffer = str_eq (codes "run") (cut 32 buffer).0

-- `thread_handle` on the text that `recv` put into `buffer`.
unfoldable pub thread_handle : Text → Option ℕ → M Server (Unit {0})
unfolding other_requests run_request
thread_handle buffer forked = do
  returned ← (if is_run buffer then run_request (cut 32 buffer).1 forked else pure false)
  if returned then pure tt else other_requests (cut 32 buffer).0 (cut 32 buffer).1

-- The loop of `thread_handle_wait` that looks for the pid, `left` jobs from index `i` on.
unfoldable pub mark_finished : ℕ → ℕ → ℕ → M Server (Unit {0})
mark_finished pid zero i = pure tt
mark_finished pid (suc left) i = do
  j ← index (pos (i + seed_init))
  s ← get_state
  if (s.jobs j).pid == pid
      then (do
        lock jobs_mutex
        modify (set_job j (λ job. record job { status = finished }))
        unlock jobs_mutex)
      else mark_finished pid left (i + 1)

mark_child : Option ℕ → ℕ → M Server (Unit {0})
unfolding mark_finished
mark_child none nr = pure tt
mark_child (some pid) nr = mark_finished pid nr 0

abbrev pub wait_at : Waiter → M Server (Unit {0})
wait_at w = modify (λ s. record s { waiter = w })

-- The test of the loop, behind a round.
abbrev pub next_round : M Server (Unit {0})
next_round = modify (λ s. record s { waiter = if s.stopping then ended else at_semaphore })

-- `running_jobs_nr--` under its mutex, and the end of the round.
abbrev pub free_slot : M Server (Unit {0})
free_slot = do
  lock job_index_mutex
  modify (λ s. record s { running_jobs_nr = s.running_jobs_nr - 1 })
  unlock job_index_mutex
  next_round

-- `sem_wait(&sem)` in a round of `thread_handle_wait`, behind which the thread waits for a child.
unfoldable pub take_unit : M Server (Unit {0})
take_unit = do sem_wait; wait_at in_wait

-- The rest of the round, with what `wait` returned.
unfoldable pub reap : Option ℕ → M Server (Unit {0})
unfolding mark_child
reap waited = do
  wait_at reaping
  lock id_seed_mutex
  s ← get_state
  unlock id_seed_mutex
  mark_child waited (s.id_seed - seed_init)
  free_slot

-- One round of `thread_handle_wait`, when nothing comes between its two waits.
unfoldable pub wait_round : Option ℕ → M Server (Unit {0})
unfolding take_unit reap
wait_round waited = do take_unit; reap waited

-- `signal_handler`
unfoldable pub signal_handler : M Server (Unit {0})
signal_handler = do
  lock finish_mutex
  modify (λ s. record s { stopping = true })
  unlock finish_mutex
