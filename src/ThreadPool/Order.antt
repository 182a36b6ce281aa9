-- ===== src/ThreadPool/Order.antt =====
-- Clients of practice/thread_pool/pool.c are served in the order in which they came.
use mathlib.Core.List.{append_assoc}
use pso_workspace.Base.{ℕ, ◌-◌, ◌≤◌, ◌<◌, ◌≡◌, ◌≢◌, refl, sym, subst, none, [], ◌∷◌, ◌++◌, arith}
use pso_workspace.Base.Shelf.{
  add_item_room, add_item, take_item, assign, pending, listed, listed-add_item, take_shifted,
  listed-take_shifted,
}
use pso_workspace.ThreadPool.Queue.{TaskQueue, max_tasks, add_task, take_task}
use pso_workspace.ThreadPool.System.{
  Pool, start_pool, PoolStep, submit, recheck, take, finish, stray, Leads, stop, further, Main,
  accepting, blocked_full, woken, tested, wake, max_threads,
}

-- The bounds of the array and of the threads, and the order of the clients.
record IsOrderly (s : Pool) : Type 0 where
  bounded : s.queue.count ≤ max_tasks
  room : s.main ≡ accepting → s.queue.count < max_tasks
  threads : s.busy ≤ max_threads
  served : s.accepted ≡ s.taken ++ listed s.queue

tested-room : (q : TaskQueue) → tested q ≡ accepting → q.count < max_tasks
tested-room q h = ground arith

wake-room : (m : Main) → wake m ≡ accepting → m ≡ accepting
wake-room accepting h = refl
wake-room blocked_full h = cc
wake-room woken h = cc

take_task-count : (behind : ℕ) (q : TaskQueue) → (take_task behind q).1.count ≡ q.count - 1
unfolding take_task take_shifted
take_task-count behind q = refl

-- The client that is taken is the first of those that wait, whatever stands behind the queue.
take_task_first :
    (behind : ℕ) (q : TaskQueue)
    → 0 < q.count
    → q.count ≤ max_tasks
    → listed q ≡ (take_task behind q).0 ∷ listed (take_task behind q).1
unfolding take_task
take_task_first behind q h low = listed-take_shifted max_tasks behind q h low

Step-IsOrderly : {s t : Pool} → PoolStep s t → IsOrderly s → IsOrderly t
unfolding add_task
Step-IsOrderly {s} {t} (submit {q} client free e same) v =
    let (low, more, last) = listed-add_item max_tasks s.queue q client e in
    subst IsOrderly (sym same) (record {
      bounded = low;
      room = λ h. tested-room q h;
      threads = v.threads;
      served = rw (v.served, last) (append_assoc s.taken (listed s.queue) (client ∷ []));
    })
Step-IsOrderly {s} {t} (recheck again same) v = subst IsOrderly (sym same) (record {
  bounded = v.bounded;
  room = λ h. tested-room s.queue h;
  threads = v.threads;
  served = v.served;
})
Step-IsOrderly {s} {t} (take behind idle some_task same) v =
    let first = take_task_first behind s.queue some_task v.bounded in
    subst IsOrderly (sym same) (record {
      bounded = omega (arith, v.bounded, take_task-count behind s.queue);
      room = λ h. omega (arith, v.bounded, take_task-count behind s.queue);
      threads = omega arith;
      served =
          rw (v.served, first)
            (sym (
              append_assoc s.taken ((take_task behind s.queue).0 ∷ [])
                (listed (take_task behind s.queue).1)));
    })
Step-IsOrderly {s} {t} (finish working same) v = subst IsOrderly (sym same) (record {
  bounded = v.bounded;
  room = λ h. v.room (wake-room s.main h);
  threads = omega arith;
  served = v.served;
})
Step-IsOrderly {s} {t} (stray same) v = subst IsOrderly (sym same) (record {
  bounded = v.bounded;
  room = λ h. v.room (wake-room s.main h);
  threads = v.threads;
  served = v.served;
})

Leads-IsOrderly : {t : Pool} → Leads start_pool t → IsOrderly t
unfolding pending
Leads-IsOrderly stop = record {
  bounded = omega arith;
  room = λ h. omega arith;
  threads = omega arith;
  served = refl;
}
Leads-IsOrderly (further way step) = Step-IsOrderly step (Leads-IsOrderly way)

-- Whatever way the threads take turns, also where two clients wait and whatever then stands behind the
-- end of the queue: the clients that were accepted are those that a thread has taken up, in the order
-- in which they came, and then those that wait in the queue; at most two wait, and at most four are
-- being served.
pub clients_in_order :
    {t : Pool}
    → Leads start_pool t
    → (t.accepted ≡ t.taken ++ listed t.queue)
      × (t.queue.count ≤ max_tasks)
      × (t.busy ≤ max_threads)
clients_in_order way = let v = Leads-IsOrderly way in (v.served, v.bounded, v.threads)

-- When `main` has accepted a client it finds a place in the queue, however the threads have taken
-- turns.
pub add_task_safe :
    {t : Pool} (client : ℕ)
    → Leads start_pool t
    → t.main ≡ accepting
    → add_task t.queue client ≢ none
unfolding add_task
add_task_safe {t} client way free =
    add_item_room max_tasks t.queue client ((Leads-IsOrderly way).room free)

-- The pool once two clients have come before a thread took one up.
abbrev pub two_waiting : ℕ → ℕ → Pool
two_waiting a b = record {
  queue = record { items = assign (assign (λ i. 0) 0 a) 1 b; count = 2 };
  main = blocked_full;
  busy = 0;
  accepted = a ∷ b ∷ [];
  taken = [];
}

-- Two clients may come before a thread takes one up, and the loop of the thread that then takes the
-- first reads behind the end of the array.
pub overrun_reachable :
    (a b : ℕ)
    → Leads start_pool (two_waiting a b) × (take_item max_tasks (two_waiting a b).queue ≡ none)
unfolding add_task add_item take_item
overrun_reachable a b =
    (further (further stop (submit a refl refl refl)) (submit b refl refl refl), refl)
