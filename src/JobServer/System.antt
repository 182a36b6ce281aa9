-- ===== src/JobServer/System.antt =====
-- The threads of EXAMS/PART2_lab14/server.c as events: a client that `main` accepts, a return of
-- `sem_wait` or of `wait` in the waiting thread, which come in turn, and SIGTERM. Each runs until it ends or waits; one that waits keeps
-- its mutexes, and the others go on.
use pso_workspace.Base.{
  ℕ, Bool, true, false, ◌&&◌, Option, none, some, List, [], ◌∷◌, if◌then◌else◌,
}
use pso_workspace.Base.Text.{Text}
use pso_workspace.Base.Machine.{M, Outcome, done, blocked, exited, fault}
use pso_workspace.JobServer.State.{Server, Waiter, at_semaphore, in_wait, reaping, ended}
use pso_workspace.JobServer.Handler.{thread_handle, take_unit, reap, signal_handler}

pub data Event : Type 0 where
  request : Text → Option ℕ → Event
  told : Event
  waited : Option ℕ → Event
  sigterm : Event

-- A connection that `main` has just accepted.
abbrev pub accepted : Server → Server
accepted s = record s { sent = []; is_closed = false }

-- The waiting thread stands at `sem_wait`, or in `wait`.
abbrev pub is_at_semaphore : Waiter → Bool
is_at_semaphore at_semaphore = true
is_at_semaphore in_wait = false
is_at_semaphore reaping = false
is_at_semaphore ended = false

abbrev pub is_in_wait : Waiter → Bool
is_in_wait at_semaphore = false
is_in_wait in_wait = true
is_in_wait reaping = false
is_in_wait ended = false

-- A wait that the thread does not stand at does not return.
unfoldable pub handle : Event → M Server (Unit {0})
handle (request buffer forked) s = thread_handle buffer forked (accepted s)
handle told s = if is_at_semaphore s.waiter then take_unit s else done tt s
handle (waited pid) s = if is_in_wait s.waiter then reap pid s else done tt s
handle sigterm s = signal_handler s

-- What the event leaves to the other threads; `none` where the process is gone.
abbrev pub left_by : Outcome Server (Unit {0}) → Option Server
left_by (done a s) = some s
left_by (blocked s) = some s
left_by (exited s) = none
left_by fault = none

-- `main` accepts clients while `finished` is not set. The waiting thread tests it behind each round.
abbrev pub is_request : Event → Bool
is_request (request buffer forked) = true
is_request told = false
is_request (waited pid) = false
is_request sigterm = false

unfoldable pub step : Server → Event → Option Server
step s e = if s.stopping && is_request e then some s else left_by (handle e s)

unfoldable pub run_events : Server → List Event → Option Server
run_events s [] = some s
run_events s (e ∷ es) = elim (step s e) [ none ↦ none | some t ↦ run_events t es ]
