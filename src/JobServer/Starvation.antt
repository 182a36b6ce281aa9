-- ===== src/JobServer/Starvation.antt =====
-- Capacity of EXAMS/PART2_lab14/server.c that a failed `fork` never gives back.
use pso_workspace.JobServer.Rules.{
  Keeps, thread_handle-Keeps, other_requests-Keeps, run_events-Keeps,
}
use pso_workspace.Base.{ℕ, ◌+◌, ◌≡◌, refl, Option, some, List, arith, dec_lt}
use pso_workspace.Base.Text.{Text, cut}
use pso_workspace.Base.Integers.{pos_part}
use pso_workspace.Base.Machine.{Ends, bind}
use pso_workspace.JobServer.State.{
  Server, at_semaphore, Child, Status, Stream, max_running, jobs_mutex, max_jobs, unlock,
}
use pso_workspace.JobServer.Handler.{
  started, run_request, get_status, kill_job, get_output, list_jobs, list_request, jobs_seen,
  take_unit, signal_handler,
}
use pso_workspace.JobServer.Listing.{list_jobs_within, list_jobs_beyond, before_lines}
use pso_workspace.JobServer.System.{
  Event, request, told, waited, sigterm, handle, accepted, run_events,
}

module _ (children : List Child) where
  -- All five places are counted as taken, the waiting thread stands at the semaphore, which is at
  -- zero, and these children have been started.
  record Starved (s : Server) : Type 0 where
    full : s.running_jobs_nr ≡ max_running
    drained : s.sem ≡ 0
    resting : s.waiter ≡ at_semaphore
    known : s.children ≡ children

  run_request-Starved :
      (args : Option Text) (forked : Option ℕ) → Keeps Starved (run_request args forked)
  unfolding run_request started
  run_request-Starved args forked s v = ground arith

  get_status-Starved : (args : Option Text) → Keeps Starved (get_status args)
  unfolding get_status
  get_status-Starved args s v = ground arith

  kill_job-Starved : (args : Option Text) → Keeps Starved (kill_job args)
  unfolding kill_job
  kill_job-Starved args s v = ground arith

  get_output-Starved :
      (stream : Stream) (args : Option Text) → Keeps Starved (get_output stream args)
  unfolding get_output
  get_output-Starved stream args s v = ground arith

  lines-Starved :
      (status : Status) (left : ℕ) (s : Server)
      → Starved s
      → Ends Starved (bind (list_jobs status left 0 s) (λ _. unlock jobs_mutex))
  lines-Starved status left s v = elim (dec_lt max_jobs (0 + left)) [
    | yes p ↦ rw (list_jobs_beyond status left 0 s (omega arith) p) tt
    | no p ↦ rw (list_jobs_within status left 0 s (omega arith)) (ground arith)
  ]

  list_request-Starved : (status : Status) → Keeps Starved (list_request status)
  unfolding list_request
  list_request-Starved status s v =
      ground (
        arith,
        lines-Starved status (pos_part (jobs_seen status s.id_seed)) (before_lines status s),
      )

  take_unit-Starved : Keeps Starved take_unit
  unfolding take_unit
  take_unit-Starved s v = ground arith

  handle-Starved : (e : Event) → Keeps Starved (handle e)
  unfolding handle signal_handler
  handle-Starved (request buffer forked) s v =
      let (command, args) = cut 32 buffer in
      thread_handle-Keeps Starved buffer forked (run_request-Starved args forked)
        (other_requests-Keeps Starved command args (λ h. get_status-Starved args)
          (kill_job-Starved args) (λ stream. get_output-Starved stream args) list_request-Starved
          (λ t w. ground arith))
        (accepted s) (ground arith)
  handle-Starved told s v = ground (arith, take_unit-Starved s)
  handle-Starved (waited pid) s v = ground arith
  handle-Starved sigterm s v = ground arith

  run_events-Starved :
      (es : List Event) (s t : Server) → Starved s → run_events s es ≡ some t → Starved t
  run_events-Starved = run_events-Keeps Starved handle-Starved

-- Once, between two events, five places are counted as taken, the semaphore is at zero and the waiting
-- thread stands at it, no command is ever started again, whatever events follow: the count stays at five and the waiting
-- thread stays where it is.
pub starved_for_ever :
    (es : List Event) (s t : Server)
    → s.running_jobs_nr ≡ max_running
    → s.sem ≡ 0
    → s.waiter ≡ at_semaphore
    → run_events s es ≡ some t
    → (t.running_jobs_nr ≡ max_running)
      × (t.sem ≡ 0)
      × (t.waiter ≡ at_semaphore)
      × (t.children ≡ s.children)
starved_for_ever es s t full drained resting e =
    let end =
      run_events-Starved s.children es s t
        (record { full = full; drained = drained; resting = resting; known = refl }) e in
    (end.full, end.drained, end.resting, end.known)
