-- ===== src/ThreadPool/Queue.antt =====
-- `taskQueue` and `task_count` of practice/thread_pool/pool.c. A task is its client's socket.
use pso_workspace.Base.{ℕ, Option}
use pso_workspace.Base.Shelf.{Shelf, assign, add_item, take_shifted}

abbrev pub max_tasks : ℕ
max_tasks = 2

abbrev pub TaskQueue : Type 0
TaskQueue = Shelf ℕ

-- `taskQueue[task_count] = new_task; task_count++`
unfoldable pub add_task : TaskQueue → ℕ → Option TaskQueue
add_task = add_item max_tasks

-- The task that start_routine takes, and what it leaves. With two tasks in the queue the loop reads
-- `taskQueue[2]`: what stands there is the argument.
unfoldable pub take_task : ℕ → TaskQueue → ℕ × TaskQueue
unfolding take_shifted
take_task behind q = take_shifted (record q { items = assign q.items max_tasks behind })
