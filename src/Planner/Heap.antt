-- ===== src/Planner/Heap.antt =====
-- Tasks of Lab7_threads/practice/PLANNER/planner.c on the heap, and the queues that `enqueue` and
-- `dequeue` thread through their `next` pointers. A pointer is an address or NULL; an access through
-- an address with no task is a fault. A walk takes fuel, one unit for each pointer that it follows.
use pso_workspace.Base.{ℕ, zero, suc, Option, none, some, ◌==◌, if◌then◌else◌}

-- The `state` strings "READY", "RUNNING" and "WAITING"
pub data Phase : Type 0 where
  ready running waiting : Phase

-- struct _thread_task; the handler is the index of a function.
pub record Task : Type 0 where
  pub time_slice : ℕ
  pub state : Phase
  pub thread_id : ℕ
  pub priority : ℕ
  pub handler : ℕ
  pub next : Option ℕ

abbrev pub Heap : Type 0
Heap = ℕ → Option Task

abbrev pub store : Heap → ℕ → Task → Heap
store h p t q = if p == q then some t else h q

abbrev pub bind : {A B : Type 0} → Option A → (A → Option B) → Option B
bind none f = none
bind (some a) f = f a

infixl 5 ◌>>=◌
abbrev pub ◌>>=◌ : {A B : Type 0} → Option A → (A → Option B) → Option B
m >>= f = bind m f

-- `p->next = q`
unfoldable pub set_next : Heap → ℕ → Option ℕ → Option Heap
set_next h p q = do t ← h p; some (store h p (record t { next = q }))

-- The walk of `enqueue` to the last task of a queue; `none` is a fault or a walk longer than the
-- fuel.
unfoldable pub last : ℕ → Heap → ℕ → Option ℕ
last zero h p = none
last (suc fuel) h p = do t ← h p; elim t.next [ none ↦ some p | some q ↦ last fuel h q ]

-- `enqueue(queue, task)`: the new head of the queue and the heap.
unfoldable pub enqueue : ℕ → Heap → Option ℕ → ℕ → Option (Option ℕ × Heap)
unfolding set_next last
enqueue fuel h none task = do h' ← set_next h task none; some (some task, h')
enqueue fuel h (some head) task = do
  end ← last fuel h head
  h' ← set_next h end (some task)
  h'' ← set_next h' task none
  some (some head, h'')

-- `dequeue(queue)`: the task that it returns, the new head and the heap.
unfoldable pub dequeue : Heap → Option ℕ → Option (Option ℕ × Option ℕ × Heap)
unfolding set_next
dequeue h none = some (none, none, h)
dequeue h (some head) = do t ← h head; h' ← set_next h head none; some (some head, t.next, h')
