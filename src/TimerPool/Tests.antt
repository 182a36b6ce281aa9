-- ===== src/TimerPool/Tests.antt =====
-- The pool of practice/timer__/server.c at small values.
use pso_workspace.Base.{◌+◌, ◌≤◌, ◌<◌, ◌≡◌, ◌≢◌, refl, true, none, ◌++◌, length, arith}
use pso_workspace.Base.Shelf.{listed}
use pso_workspace.TimerPool.System.{
  Pool, start_pool, max_tasks, nr_tasks, add_task, take_task, Times, stop, further, add, interrupt,
}
use pso_workspace.TimerPool.Order.{added_in_order}
use pso_workspace.TimerPool.Endings.{AllAsleep, sleep_for_ever}

abbrev one_added : Pool
one_added = add_task 0 start_pool

one_added-Times : Times start_pool one_added
one_added-Times = further stop (add refl (omega arith) refl)

added_in_order_example :
    (one_added.added ≡ one_added.taken ++ listed one_added.tasks)
    × (length one_added.added + one_added.refused ≡ one_added.made)
    × (one_added.tasks.count ≤ max_tasks)
    × (0 < one_added.tasks.count → take_task one_added ≢ none)
    × (0 < one_added.threads.ended → one_added.stop_threads ≡ true)
added_in_order_example = added_in_order one_added-Times

-- All tasks are done and all threads wait.
abbrev all_done : Pool
all_done = record start_pool {
  made = nr_tasks;
  threads = record { testing = 0; locking = 0; sleeping = 3; working = 0; ended = 0 };
}

all_done-AllAsleep : AllAsleep 3 0 all_done
all_done-AllAsleep = record {
  all_made = refl;
  none_left = refl;
  none_testing = refl;
  none_locking = refl;
  none_working = refl;
  sleepers = refl;
  over = refl;
}

sleep_for_ever_example : AllAsleep 3 0 (record all_done { stop_threads = true })
sleep_for_ever_example = sleep_for_ever 3 0 all_done-AllAsleep (further stop (interrupt refl))
