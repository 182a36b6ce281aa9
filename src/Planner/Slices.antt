-- ===== src/Planner/Slices.antt =====
-- How a slice uses up a task's time in Lab7_threads/practice/PLANNER/planner.c.
use pso_workspace.Base.{
  ℕ, ◌^◌, ◌<◌, ◌≤◌, ◌≡◌, ◌≢◌, refl, some, List, [], ◌∷◌, ◌++◌, arith, length, subst,
}
use pso_workspace.Planner.Heap.{Task, store, running, waiting}
use pso_workspace.Planner.Queues.{IsQueue, NotIn, unlinked, enqueue-IsQueue, IsQueue-touch}
use pso_workspace.Planner.Choice.{set_queue_self}
use pso_workspace.Base.{ap}
use pso_workspace.Planner.Scheduler.{
  Scheduler, max_prio, set_queue, sub32, run_slice, make_ready, put_task,
}

-- A slice that uses up exactly the task's time: the task is not queued again, its time is 0, and it
-- is left in the state "WAITING".
pub run_slice_last :
    (s : Scheduler) (p : ℕ) (t : Task)
    → s.heap p ≡ some t
    → t.time_slice ≡ s.time_quantum
    → (s' : Scheduler) × (run_slice p s ≡ some s')
      × (s'.ready_queues ≡ s.ready_queues)
      × (s'.heap p ≡ some (record t { time_slice = 0; state = waiting }))
unfolding run_slice
run_slice_last s p t here exact = (
  put_task (put_task s p (record t { state = running; time_slice = 0 })) p
      (record t { state = waiting; time_slice = 0 }),
  ground arith,
  refl,
  ground arith,
)

module _ (s : Scheduler) (p : ℕ) (t : Task) (xs : List ℕ) (here : s.heap p ≡ some t)
    (low : t.priority < max_prio) (q : IsQueue s.heap (s.ready_queues t.priority) xs)
    (apart : NotIn p xs) (enough : length xs ≤ s.allocated) where
  abbrev at_work : Task
  at_work = record t { state = running; time_slice = sub32 t.time_slice s.time_quantum }

  -- A slice after which the unsigned difference of time and quantum is not 0: the task goes to the
  -- end of its priority's queue, with that difference as its time, in the state "WAITING", and the
  -- heads of the other queues stay.
  pub run_slice_again :
      sub32 t.time_slice s.time_quantum ≢ 0
      → (s' : Scheduler) × (run_slice p s ≡ some s')
        × IsQueue s'.heap (s'.ready_queues t.priority) (xs ++ p ∷ [])
        × (s'.heap p
            ≡ some (
                unlinked
                  (record t { state = waiting; time_slice = sub32 t.time_slice s.time_quantum })))
        × (s'.ready_queues ≡ set_queue s.ready_queues t.priority (s'.ready_queues t.priority))
  unfolding run_slice make_ready
  run_slice_again more =
      let (head', h', queued, q', stored) =
        enqueue-IsQueue (store s.heap p at_work) p at_work s.allocated (s.ready_queues t.priority)
          xs (IsQueue-touch s.heap p t at_work (s.ready_queues t.priority) xs here refl q)
          (ground arith) apart enough in
      (
        put_task (record s { ready_queues = set_queue s.ready_queues t.priority head'; heap = h' })
            p (record (unlinked at_work) { state = waiting }),
        ground (arith, queued, stored),
        subst
            (λ o.
              IsQueue (store h' p (record (unlinked at_work) { state = waiting })) o (xs ++ p ∷ []))
            (ground arith)
            (IsQueue-touch h' p (unlinked at_work) (record (unlinked at_work) { state = waiting })
              head' (xs ++ p ∷ []) stored refl q'),
        ground arith,
        ap (set_queue s.ready_queues t.priority) (set_queue_self s.ready_queues t.priority head'),
      )

  -- A slice of a task with less than a quantum left: its time wraps round, and the task is queued
  -- again with more time than it had before.
  pub run_slice_overrun :
      t.time_slice < s.time_quantum
      → s.time_quantum < 2 ^ 32
      → (s' : Scheduler) × (u : Task) × (run_slice p s ≡ some s')
        × IsQueue s'.heap (s'.ready_queues t.priority) (xs ++ p ∷ [])
        × (s'.heap p ≡ some u)
        × (t.time_slice < u.time_slice)
  run_slice_overrun short fits =
      let (s', ran, queue, stored, _) = run_slice_again (omega arith) in
      (s', _, ran, queue, stored, omega arith)
