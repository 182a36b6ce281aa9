-- ===== src/Planner/Tests.antt =====
-- Two queued tasks and a new one, in Lab7_threads/practice/PLANNER/planner.c.
use pso_workspace.Base.{ℕ, ◌<◌, ◌≡◌, refl, Option, none, some, [], ◌∷◌, arith, ◌==◌, if◌then◌else◌}
use pso_workspace.Planner.Heap.{Task, Heap, ready, enqueue, dequeue}
use pso_workspace.Planner.Queues.{IsQueue, unlinked, enqueue-IsQueue, dequeue-IsQueue}
use pso_workspace.Planner.Scheduler.{Scheduler, so_init, so_fork, select_next_task}
use pso_workspace.Planner.Choice.{select_next_task_lem}

abbrev task : ℕ → ℕ → Option ℕ → Task
task thread time_slice next = record {
  time_slice = time_slice;
  state = ready;
  thread_id = thread;
  priority = 2;
  handler = 0;
  next = next;
}

-- Tasks 1 and 2 are queued; tasks 3 and 4 are not.
abbrev heap : Heap
heap p =
    if p == 1
    then some (task 11 20 (some 2))
    else if p == 2
    then some (task 12 20 none)
    else if p == 3
    then some (task 13 25 none)
    else if p == 4
    then some (task 14 5 none)
    else none

queued : IsQueue heap (some 1) (1 ∷ 2 ∷ [])
queued = (refl, (task 11 20 (some 2), refl, (refl, (task 12 20 none, refl, refl))))

abbrev planner : Scheduler
planner = record {
  nr_of_event = 5;
  time_quantum = 10;
  current = 0;
  ready_queues = λ i. if i == 2 then some 1 else none;
  heap = heap;
  allocated = 4;
}

enqueue-IsQueue_example :
    (head' : Option ℕ) × (h' : Heap) × (enqueue 2 heap (some 1) 3 ≡ some (head', h'))
    × IsQueue h' head' (1 ∷ 2 ∷ 3 ∷ [])
    × (h' 3 ≡ some (task 13 25 none))
enqueue-IsQueue_example =
    enqueue-IsQueue heap 3 (task 13 25 none) 2 (some 1) (1 ∷ 2 ∷ []) queued refl (omega arith)
      (omega arith)

dequeue-IsQueue_example :
    (head' : Option ℕ) × (h' : Heap) × (t : Task) × (dequeue heap (some 1)
      ≡ some (some 1, head', h'))
    × IsQueue h' head' (2 ∷ [])
    × (h' 1 ≡ some (unlinked t))
    × (heap 1 ≡ some t)
dequeue-IsQueue_example = dequeue-IsQueue heap (some 1) 1 (2 ∷ []) queued (omega arith)

-- Task 3 waits with priority 1.
abbrev two_queues : Scheduler
two_queues = record planner {
  ready_queues = λ i. if i == 2 then some 1 else if i == 1 then some 3 else none;
}

none_above : (j : ℕ) → 2 < j → j < 5 → two_queues.ready_queues j ≡ none
none_above j low high = ground arith

below_queued : IsQueue heap (some 3) (3 ∷ [])
below_queued = (refl, (task 13 25 none, refl, refl))

select_next_task_lem_example :
    (s' : Scheduler) × (t : Task) × (select_next_task two_queues ≡ some (some 1, s'))
    × (heap 1 ≡ some t)
    × (s'.heap 1 ≡ some (unlinked t))
    × IsQueue s'.heap (s'.ready_queues 2) (2 ∷ [])
    × IsQueue s'.heap (s'.ready_queues 1) (3 ∷ [])
select_next_task_lem_example =
    select_next_task_lem two_queues 2 1 (2 ∷ []) 1 (3 ∷ []) (omega arith) queued (omega arith)
      none_above (omega arith) below_queued (omega arith)

init_refuses : so_init 10 257 planner ≡ none
unfolding so_init
init_refuses = refl

-- A priority of 5 is outside the array of queues.
fork_out_of_range : so_fork 0 5 20 9 (some 77) planner ≡ none
unfolding so_fork
fork_out_of_range = refl
