-- ===== src/JobServer/Decay.antt =====
-- How EXAMS/PART2_lab14/server.c stops serving when a mutex is never freed.
use pso_workspace.JobServer.Rules.{
  Keeps, thread_handle-Keeps, other_requests-Keeps, run_events-Keeps,
}
use pso_workspace.Base.{
  ℕ, zero, suc, ◌+◌, ◌-◌, ◌≡◌, refl, true, false, Option, none, some, List, arith,
}
use pso_workspace.Base.Text.{Text, cut}
use pso_workspace.Base.Machine.{Ends, Ends-bind, bind}
use pso_workspace.JobServer.State.{Server, reaping, Status, Stream, seed_init, hold, id_seed_mutex}
use pso_workspace.JobServer.Handler.{
  started, run_request, get_status, kill_job, get_output, list_request, mark_finished, take_unit,
  reap, signal_handler, free_slot,
}
use pso_workspace.JobServer.System.{
  Event, request, told, waited, sigterm, handle, accepted, run_events,
}

module _ (killed : List ℕ) where
  -- The jobs' mutex is taken, and these pids have been killed.
  record Poisoned (s : Server) : Type 0 where
    held : s.locks.jobs_held ≡ true
    known : s.killed ≡ killed

  run_request-Poisoned :
      (args : Option Text) (forked : Option ℕ) → Keeps Poisoned (run_request args forked)
  unfolding run_request started
  run_request-Poisoned args forked s v = ground arith

  get_status-Poisoned : (args : Option Text) → Keeps Poisoned (get_status args)
  unfolding get_status
  get_status-Poisoned args s v = ground arith

  kill_job-Poisoned : (args : Option Text) → Keeps Poisoned (kill_job args)
  unfolding kill_job
  kill_job-Poisoned args s v = ground arith

  get_output-Poisoned :
      (stream : Stream) (args : Option Text) → Keeps Poisoned (get_output stream args)
  unfolding get_output
  get_output-Poisoned stream args s v = ground arith

  list_request-Poisoned : (status : Status) → Keeps Poisoned (list_request status)
  unfolding list_request
  list_request-Poisoned status s v = ground arith

  mark_finished-Poisoned : (pid left i : ℕ) → Keeps Poisoned (mark_finished pid left i)
  unfolding mark_finished
  mark_finished-Poisoned pid zero i s v = v
  mark_finished-Poisoned pid (suc left) i s v =
      ground (arith, mark_finished-Poisoned pid left (i + 1) s v)

  freed-Poisoned :
      (pid left : ℕ) (s : Server)
      → Poisoned s
      → Ends Poisoned (bind (mark_finished pid left 0 s) (λ _. free_slot))
  freed-Poisoned pid left s v =
      Ends-bind Poisoned (mark_finished pid left 0 s) (λ _. free_slot)
        (mark_finished-Poisoned pid left 0 s v) (λ _ t w. ground arith)

  take_unit-Poisoned : Keeps Poisoned take_unit
  unfolding take_unit
  take_unit-Poisoned s v = ground arith

  reap-Poisoned : (pid : Option ℕ) → Keeps Poisoned (reap pid)
  unfolding reap
  reap-Poisoned none s v = ground arith
  reap-Poisoned (some pid) s v = ground (
    arith,
    freed-Poisoned pid (s.id_seed - seed_init)
        (record s { waiter = reaping; locks = hold id_seed_mutex false s.locks }),
  )

  handle-Poisoned : (e : Event) → Keeps Poisoned (handle e)
  unfolding handle signal_handler
  handle-Poisoned (request buffer forked) s v =
      let (command, args) = cut 32 buffer in
      thread_handle-Keeps Poisoned buffer forked (run_request-Poisoned args forked)
        (other_requests-Keeps Poisoned command args (λ h. get_status-Poisoned args)
          (kill_job-Poisoned args) (λ stream. get_output-Poisoned stream args) list_request-Poisoned
          (λ t w. ground arith))
        (accepted s) (ground arith)
  handle-Poisoned told s v = ground (arith, take_unit-Poisoned s)
  handle-Poisoned (waited pid) s v = ground (arith, reap-Poisoned pid s)
  handle-Poisoned sigterm s v = ground arith

  run_events-Poisoned :
      (es : List Event) (s t : Server) → Poisoned s → run_events s es ≡ some t → Poisoned t
  run_events-Poisoned = run_events-Keeps Poisoned handle-Poisoned

-- Once `jobs_mutex` is taken between two events, it stays taken and no job is ever killed again,
-- whatever events follow.
pub poisoned_for_ever :
    (es : List Event) (s t : Server)
    → s.locks.jobs_held ≡ true
    → run_events s es ≡ some t
    → (t.locks.jobs_held ≡ true) × (t.killed ≡ s.killed)
poisoned_for_ever es s t held e =
    let end = run_events-Poisoned s.killed es s t (record { held = held; known = refl }) e in
    (end.held, end.known)
