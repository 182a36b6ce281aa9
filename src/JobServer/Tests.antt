-- ===== src/JobServer/Tests.antt =====
-- A server of EXAMS/PART2_lab14/server.c that has started one job, with the child 42 still running.
use pso_workspace.Base.{
  ℕ, ◌<◌, ◌≡◌, refl, true, false, none, some, List, [], ◌∷◌, ◌++◌, arith, ◌==◌, if◌then◌else◌, ◌≢◌,
}
use pso_workspace.Base.Text.{codes, str_eq, cut, atoi, tokens}
use pso_workspace.Base.Integers.{pos, negsuc}
use pso_workspace.Base.Machine.{done, bind, Ends, Returns}
use pso_workspace.JobServer.State.{
  Server, at_semaphore, Job, init, running, finished, max_running, no_locks, hold, jobs_mutex,
  set_job, slot, stdout, result_code, number, message, job_file,
}
use pso_workspace.JobServer.Launch.{prepare}
use pso_workspace.JobServer.Commands.{Executes, plain, script}
use pso_workspace.JobServer.Handler.{
  run_request, kill_job, get_status, get_output, wait_round, take_unit, reap, list_request,
  thread_handle, mark_finished, other_requests, run, started,
}
use pso_workspace.JobServer.System.{Event, request, told, waited, handle, run_events, step}
use pso_workspace.JobServer.Listing.{list_request-is_listed, is_listed}
use pso_workspace.JobServer.Capacity.{InCapacity, run_events-InCapacity}
use pso_workspace.JobServer.Mutexes.{handle-AllFree}
use pso_workspace.JobServer.Decay.{poisoned_for_ever}
use pso_workspace.JobServer.Starvation.{starved_for_ever}
use pso_workspace.JobServer.Jobs.{output-wait_round, status-kill_job, run_request_lem}

abbrev busy : Job
busy = record { pid = 42; status = running; command = codes "sleep 9" }

abbrev server : Server
server = record init {
  id_seed = 123457;
  jobs = λ i. if i == 0 then busy else record { pid = 0; status = running; command = [] };
  running_jobs_nr = 1;
  sem = 1;
}

-- A "run" whose fork gives the pid 77, and then a round of the waiting thread for the first child.
abbrev events : List Event
events = request (codes "run ls") (some 77) ∷ told ∷ waited (some 42) ∷ []

-- The second job runs, and the first has ended.
abbrev server_after : Server
server_after =
    record (set_job 0 (λ job. record job { status = finished })
      (set_job 1 (λ job. record job { pid = 77 })
        (set_job 1 (λ job. record job { command = codes "ls"; status = running }) server))) {
          id_seed = 123458;
          children =
              record { id = 123457; pid = 77; program = codes "ls"; argv = codes "ls" ∷ [] } ∷ [];
          sent = result_code (pos 0) ∷ number (pos 123457) ∷ [];
          is_closed = true;
        }

events_run : run_events server events ≡ some server_after
unfolding run_events step handle thread_handle run_request prepare tokens str_eq cut take_unit reap
    mark_finished other_requests run started
events_run = refl

server-InCapacity : InCapacity server
server-InCapacity = record { counted = omega arith; limited = omega arith; seeded = omega arith }

run_events-InCapacity_example : InCapacity server_after
run_events-InCapacity_example =
    run_events-InCapacity events server server_after server-InCapacity events_run

handle-AllFree_example :
    Ends (λ t. t.locks ≡ no_locks) (handle (request (codes "get_stdout 123456") none) server)
unfolding str_eq cut
handle-AllFree_example = handle-AllFree (request (codes "get_stdout 123456") none) refl server refl

no_earlier : (k : ℕ) → k < 0 → (server.jobs k).pid ≢ 42
no_earlier k h = absurd (omega arith)

first_slot : slot (atoi (codes "123456")) ≡ some 0
unfolding atoi
first_slot = refl

second_slot : slot (atoi (codes "123457")) ≡ some 1
unfolding atoi
second_slot = refl

ls_plain : (stem : List ℕ) → codes "ls" ≢ stem ++ codes ".sh"
ls_plain [] e = cc
ls_plain (a ∷ []) e = cc
ls_plain (a ∷ b ∷ []) e = cc
ls_plain (a ∷ b ∷ c ∷ s) e = cc

output-wait_round_example :
    bind (wait_round (some 42) server) (λ _. get_output stdout (some (codes "123456")))
    ≡ done tt (record (set_job 0 (λ job. record job { status = finished }) server) {
      sem = 0;
      running_jobs_nr = 0;
      sent = result_code (pos 0) ∷ job_file (atoi (codes "123456")) stdout ∷ [];
    })
output-wait_round_example =
    output-wait_round stdout (codes "123456") 42 0 server refl refl (omega arith) (omega arith)
      (omega arith) no_earlier first_slot (λ e. omega arith)

list_request-is_listed_example :
    Returns (λ _ t. is_listed 123456 t.sent ≡ false) (list_request running server)
list_request-is_listed_example = list_request-is_listed running server 0 refl refl (omega arith)

status-kill_job_example :
    bind (kill_job (some (codes "123456")) server) (λ _. get_status (some (codes "123456")))
    ≡ done tt (record (set_job 0 (λ job. record job { status = finished }) server) {
      killed = 42 ∷ [];
      sent = result_code (pos 0) ∷ result_code (pos 0) ∷ number (pos 1) ∷ [];
    })
status-kill_job_example =
    status-kill_job (codes "123456") 0 server refl first_slot (λ e. omega arith) refl

run_request_lem_example :
    run_request (some (codes "ls -l")) (some 77) server
    ≡ done false
        (record (set_job 1
          (λ job. record job { pid = 77 })
          (set_job 1 (λ job. record job { command = codes "ls -l"; status = running }) server)) {
            id_seed = 123458;
            running_jobs_nr = 2;
            sem = 2;
            children =
                record {
                  id = 123457;
                  pid = 77;
                  program = codes "ls";
                  argv = codes "ls" ∷ codes "-l" ∷ [];
                }
                ∷ [];
            sent = result_code (pos 0) ∷ number (pos 123457) ∷ [];
          })
run_request_lem_example =
    run_request_lem (codes "ls") (codes "-l" ∷ []) (codes "ls") (codes "ls" ∷ codes "-l" ∷ [])
      server 77 ((refl, (refl, tt)), ((refl, (refl, tt)), tt)) (plain ls_plain) (omega arith)
      (omega arith) refl (omega arith) (omega arith) (omega arith)

a_script :
    Executes
      (codes "a.sh")
      (codes "1" ∷ [])
      (codes "/bin/bash")
      (codes "/bin/bash" ∷ codes "a.sh" ∷ codes "1" ∷ [])
a_script = script (codes "a") refl

abbrev full_server : Server
full_server = record server { running_jobs_nr = 5; sem = 0 }

abbrev full_after : Server
full_after = record full_server {
  id_seed = 123458;
  sent = result_code (negsuc 0) ∷ message (codes "Error! Job queue is full") 18 ∷ [];
}

full_run : run_events full_server (request (codes "run ls") (some 77) ∷ []) ≡ some full_after
unfolding run_events step handle thread_handle run_request str_eq cut
full_run = refl

starved_for_ever_example :
    (full_after.running_jobs_nr ≡ max_running)
    × (full_after.sem ≡ 0)
    × (full_after.waiter ≡ at_semaphore)
    × (full_after.children ≡ full_server.children)
starved_for_ever_example =
    starved_for_ever (request (codes "run ls") (some 77) ∷ []) full_server full_after refl refl refl
      full_run

abbrev poisoned : Server
poisoned = record server { locks = hold jobs_mutex true no_locks }

poisoned_run : run_events poisoned (request (codes "kill_job 123456") none ∷ []) ≡ some poisoned
unfolding run_events step handle thread_handle other_requests kill_job str_eq cut
poisoned_run = refl

poisoned_for_ever_example : (poisoned.locks.jobs_held ≡ true) × (poisoned.killed ≡ poisoned.killed)
poisoned_for_ever_example =
    poisoned_for_ever (request (codes "kill_job 123456") none ∷ []) poisoned poisoned refl
      poisoned_run
