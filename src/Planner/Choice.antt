-- ===== src/Planner/Choice.antt =====
-- Which task runs next, and for how long, in Lab7_threads/practice/PLANNER/planner.c.
use pso_workspace.Base.{
  ℕ, zero, suc, ◌<◌, ◌≡◌, ◌≢◌, Option, none, some, List, ◌∷◌, arith, ℕ_discrete, subst, ◌∙◌,
}
use pso_workspace.Planner.Heap.{Task, Heap, dequeue}
use pso_workspace.Planner.Queues.{IsQueue, NotIn, unlinked, dequeue-frame}
use pso_workspace.Planner.Scheduler.{Scheduler, max_prio, select_below, select_next_task, set_queue}

-- select_below passes over the empty queues above `k`.
select_below_skip :
    (n k : ℕ) (s : Scheduler)
    → k < n
    → ((j : ℕ) → k < j → j < n → s.ready_queues j ≡ none)
    → select_below n s ≡ select_below (suc k) s
unfolding select_below
select_below_skip zero k s low above = absurd (omega arith)
select_below_skip (suc n) k s low above = elim (ℕ_discrete n k) [
  | yes e ↦ rw e
  | no ne ↦
      rw (select_below, above n (omega arith) (omega arith))
        (select_below_skip n k s (omega arith) (λ j l h. above j l (omega arith)))
]

abbrev taken : Scheduler → ℕ → Option ℕ → Heap → Scheduler
taken s k head' h' = record s { ready_queues = set_queue s.ready_queues k head'; heap = h' }

select_below_here :
    (s : Scheduler) (k x : ℕ) (head' : Option ℕ) (h' : Heap)
    → s.ready_queues k ≡ some x
    → dequeue s.heap (s.ready_queues k) ≡ some (some x, head', h')
    → select_below (suc k) s ≡ some (some x, taken s k head' h')
unfolding select_below
select_below_here s k x head' h' here took = rw (select_below, here) (rw (rw here at took))

pub set_queue_self : (f : ℕ → Option ℕ) (k : ℕ) (q : Option ℕ) → q ≡ set_queue f k q k
set_queue_self f k q = ground arith

-- The queue of another priority, in the state that the choice leaves.
taken_other :
    (s : Scheduler) (k other : ℕ) (head' : Option ℕ) (h' : Heap) (ys : List ℕ)
    → other ≢ k
    → IsQueue h' (s.ready_queues other) ys
    → IsQueue h' ((taken s k head' h').ready_queues other) ys
taken_other s k other head' h' ys ne q = subst (λ head. IsQueue h' head ys) (ground arith) q

-- select_next_task, when `k` is the highest priority whose queue is not empty, and the first task of
-- that queue is neither in it again nor in the queue of another priority: it returns the task that
-- has waited longest there, with its `next` pointer NULL and otherwise as it was, leaves the others of
-- that queue in their order, and the queue of the other priority with the tasks that it had, in their
-- order.
pub select_next_task_lem :
    (s : Scheduler) (k x : ℕ) (xs : List ℕ) (other : ℕ) (ys : List ℕ)
    → k < max_prio
    → IsQueue s.heap (s.ready_queues k) (x ∷ xs)
    → NotIn x xs
    → ((j : ℕ) → k < j → j < max_prio → s.ready_queues j ≡ none)
    → other ≢ k
    → IsQueue s.heap (s.ready_queues other) ys
    → NotIn x ys
    → (s' : Scheduler) × (t : Task) × (select_next_task s ≡ some (some x, s'))
      × (s.heap x ≡ some t)
      × (s'.heap x ≡ some (unlinked t))
      × IsQueue s'.heap (s'.ready_queues k) xs
      × IsQueue s'.heap (s'.ready_queues other) ys
unfolding select_next_task
select_next_task_lem s k x xs other ys low q apart above ne q' apart' =
    let (head', h', t, took, rest, off, was, same) =
      dequeue-frame s.heap (s.ready_queues k) x xs (s.ready_queues other) ys q apart q' apart' in
    (
      taken s k head' h',
      t,
      select_below_skip max_prio k s low above ∙ select_below_here s k x head' h' q.0 took,
      was,
      off,
      subst (λ head. IsQueue h' head xs) (set_queue_self s.ready_queues k head') rest,
      taken_other s k other head' h' ys ne same,
    )

-- select_next_task with all five queues empty returns NULL and changes nothing.
pub select_next_task_empty :
    (s : Scheduler)
    → ((j : ℕ) → j < max_prio → s.ready_queues j ≡ none)
    → select_next_task s ≡ some (none, s)
unfolding select_next_task select_below
select_next_task_empty s empty = ground (
  arith,
  empty 0 (omega arith),
  empty 1 (omega arith),
  empty 2 (omega arith),
  empty 3 (omega arith),
  empty 4 (omega arith),
)
