-- ===== src/ThreadPool/Tests.antt =====
-- Runs of practice/thread_pool/pool.c with the sockets 8 and 9.
use pso_workspace.Base.{◌≤◌, ◌≡◌, refl, [], ◌∷◌, ◌++◌, arith}
use pso_workspace.Base.Shelf.{add_item, take_shifted, listed, pending}
use pso_workspace.ThreadPool.Queue.{max_tasks, add_task, take_task}
use pso_workspace.ThreadPool.System.{Pool, start_pool, max_threads, take, Leads, further}
use pso_workspace.ThreadPool.Order.{two_waiting, overrun_reachable, clients_in_order}

-- Two clients have come; the first is being served, and 7 stood behind the queue.
abbrev serving : Pool
serving = record (two_waiting 8 9) {
  queue = (take_task 7 (two_waiting 8 9).queue).1;
  busy = 1;
  taken = 8 ∷ [];
}

serving_reached : Leads start_pool serving
unfolding add_task take_task add_item take_shifted
serving_reached = further (overrun_reachable 8 9).0 (take 7 (omega arith) (omega arith) refl)

clients_in_order_example :
    (serving.accepted ≡ serving.taken ++ listed serving.queue)
    × (serving.queue.count ≤ max_tasks)
    × (serving.busy ≤ max_threads)
clients_in_order_example = clients_in_order serving_reached

one_waits : listed serving.queue ≡ 9 ∷ []
unfolding take_task take_shifted pending
one_waits = refl
