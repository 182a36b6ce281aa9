-- ===== src/Planner/Scheduler.antt =====
-- The scheduler of Lab7_threads/practice/PLANNER/planner.c. `unsigned int` wraps at 2 ^ 32. The walks
-- of `enqueue` take as fuel the number of tasks that were ever allocated, which no queue exceeds.
-- What malloc and pthread_create return is an argument: an address, and a thread id or `none`.
use pso_workspace.Base.{
  ℕ, zero, suc, ◌+◌, ◌-◌, ◌%◌, ◌^◌, Option, none, some, ltb, ◌==◌, if◌then◌else◌,
}
use pso_workspace.Planner.Heap.{ready, running, waiting, Task, Heap, store, enqueue, dequeue, ◌>>=◌}

abbrev pub max_prio : ℕ
max_prio = 5

abbrev pub max_num_events : ℕ
max_num_events = 256

abbrev pub invalid_tid : ℕ
invalid_tid = 0

pub record Scheduler : Type 0 where
  pub nr_of_event : ℕ
  pub time_quantum : ℕ
  pub current : ℕ
  pub ready_queues : ℕ → Option ℕ
  pub heap : Heap
  pub allocated : ℕ

-- `so_init`: `none` is its -1, and the scheduler is then as it was.
unfoldable pub so_init : ℕ → ℕ → Scheduler → Option Scheduler
so_init time_quantum io s =
    if ltb max_num_events io
    then none
    else some (record s {
      nr_of_event = io;
      time_quantum = time_quantum;
      current = invalid_tid;
      ready_queues = λ i. none;
    })

abbrev pub set_queue : (ℕ → Option ℕ) → ℕ → Option ℕ → ℕ → Option ℕ
set_queue f i q j = if i == j then q else f j

-- `enqueue(&scheduler.ready_queues[priority], task)`; a priority that is no index is a fault.
unfoldable pub make_ready : Scheduler → ℕ → ℕ → Option Scheduler
make_ready s priority task =
    if ltb priority max_prio
    then (do
      (head, heap) ← enqueue s.allocated s.heap (s.ready_queues priority) task
      some (record s { ready_queues = set_queue s.ready_queues priority head; heap = heap }))
    else none

abbrev new_task : ℕ → ℕ → ℕ → ℕ → Task
new_task func priority time_slice thread = record {
  time_slice = time_slice;
  state = ready;
  thread_id = thread;
  priority = priority;
  handler = func;
  next = none;
}

-- `so_fork`: the thread id that it returns and the scheduler; `none` is a fault.
unfoldable pub so_fork : ℕ → ℕ → ℕ → ℕ → Option ℕ → Scheduler → Option (ℕ × Scheduler)
unfolding make_ready
so_fork func priority time_slice address none s = some (
  invalid_tid,
  record s {
    heap = store s.heap address (new_task func priority time_slice 0);
    allocated = suc s.allocated;
  },
)
so_fork func priority time_slice address (some thread) s = do
  s' ←
      make_ready
        (record s {
          heap = store s.heap address (new_task func priority time_slice thread);
          allocated = suc s.allocated;
        })
        priority address
  some (thread, s')

-- The loop of select_next_task over the `n` lowest priorities, from the highest down.
unfoldable pub select_below : ℕ → Scheduler → Option (Option ℕ × Scheduler)
select_below zero s = some (none, s)
select_below (suc n) s =
    let lower = select_below n s in
    elim (s.ready_queues n) [
      | none ↦ lower
      | some head ↦ dequeue s.heap (some head) >>= λ (task, head', heap).
          some (task, record s { ready_queues = set_queue s.ready_queues n head'; heap = heap })
    ]

unfoldable pub select_next_task : Scheduler → Option (Option ℕ × Scheduler)
unfolding select_below
select_next_task s = select_below max_prio s

-- `unsigned int` subtraction
abbrev pub sub32 : ℕ → ℕ → ℕ
sub32 a b = (a + 2 ^ 32 - b) % 2 ^ 32

abbrev pub put_task : Scheduler → ℕ → Task → Scheduler
put_task s p t = record s { heap = store s.heap p t }

-- One round of execute_the_thread_with_task, once the thread is the current one and the handler has
-- returned. It ends with the task in the state "WAITING".
unfoldable pub run_slice : ℕ → Scheduler → Option Scheduler
unfolding make_ready
run_slice p s = do
  t ← s.heap p
  let left = sub32 t.time_slice s.time_quantum
  let s1 = put_task s p (record t { state = running; time_slice = left })
  s2 ← (if ltb 0 left then make_ready s1 t.priority p else some s1)
  u ← s2.heap p
  some (put_task s2 p (record u { state = waiting }))

-- A round of so_runnnn: no task is left, a thread had its slice, or the thread of the chosen task has
-- ended before, so that so_runnnn waits for ever.
pub data Turn : Type 0 where
  over : Turn
  ran : ℕ → Turn
  stalled : ℕ → Turn

-- The slice of the chosen task's thread, which goes on while its `time_slice` is not 0.
turn : ℕ → Task → Scheduler → Option (Turn × Scheduler)
turn p t s =
    if ltb 0 t.time_slice then (do s' ← run_slice p s; some (ran p, s')) else some (stalled p, s)

-- One round of so_runnnn with the slice of the thread that it wakes.
unfoldable pub round : Scheduler → Option (Turn × Scheduler)
unfolding select_next_task run_slice turn
round s = do
  (chosen, s1) ← select_next_task s
  elim chosen [
    | none ↦ some (over, s1)
    | some p ↦ s1.heap p >>= λ t. turn p t (record s1 { current = t.thread_id })
  ]
