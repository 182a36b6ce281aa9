-- ===== src/TimerPool/System.antt =====
-- `main`, the three threads and the timer of practice/timer__/server.c as a step relation. A step is a
-- test of `stop_threads`, what a thread does under `task_mutex`, or what it does with the timer behind
-- it. The threads run the same code: the state counts how many stand at each point of it. A wait may
-- end without a signal, and SIGUSR2 may come at any time.
use pso_workspace.Base.{
  ℕ, suc, ◌-◌, ◌<◌, ◌≡◌, Bool, true, false, Option, none, some, List, [], ◌∷◌, ◌++◌, ltb, ◌==◌,
  if◌then◌else◌,
}
use pso_workspace.Base.Shelf.{Shelf, add_item, take_front}

abbrev pub max_tasks : ℕ
max_tasks = 5

-- The tasks that `main` makes, and its threads.
abbrev pub nr_tasks : ℕ
nr_tasks = 10

abbrev pub nr_threads : ℕ
nr_threads = 3

-- `main` is about to add a task, or behind the addition of one, where it tests `task_count`.
pub data Main : Type 0 where
  adding checking : Main

-- How many threads are before the test of the loop, behind it, inside `pthread_cond_wait`, at work on a
-- task, and at their end.
pub record Threads : Type 0 where
  pub testing : ℕ
  pub locking : ℕ
  pub sleeping : ℕ
  pub working : ℕ
  pub ended : ℕ

pub record Pool : Type 0 where
  pub tasks : Shelf ℕ
  pub stop_threads : Bool
  pub armed : Bool
  pub main : Main
  pub made : ℕ
  pub refused : ℕ
  pub threads : Threads
  pub added : List ℕ
  pub taken : List ℕ

abbrev pub start_pool : Pool
start_pool = record {
  tasks = record { items = λ i. 0; count = 0 };
  stop_threads = false;
  armed = false;
  main = adding;
  made = 0;
  refused = 0;
  threads = record { testing = nr_threads; locking = 0; sleeping = 0; working = 0; ended = 0 };
  added = [];
  taken = [];
}

-- add_task under the mutex, for the list with the task, if there is a place in it.
abbrev pub added_by : ℕ → Pool → Option (Shelf ℕ) → Pool
added_by id p none = record p { made = suc p.made; refused = suc p.refused }
added_by id p (some l) = record p {
  tasks = l;
  made = suc p.made;
  main = checking;
  added = p.added ++ id ∷ [];
}

unfoldable pub add_task : ℕ → Pool → Pool
add_task id p = added_by id p (add_item max_tasks p.tasks id)

-- add_task behind the mutex: the timer is disarmed if there is a task.
unfoldable pub disarm : Pool → Pool
disarm p = record p { main = adding; armed = if ltb 0 p.tasks.count then false else p.armed }

-- The test of the loop of process_task
unfoldable pub tested : Pool → Threads
tested p =
    let t = p.threads in
    if p.stop_threads
    then record t { testing = t.testing - 1; ended = suc t.ended }
    else record t { testing = t.testing - 1; locking = suc t.locking }

-- A thread with the mutex that has found a task takes it; `none` is an access outside of the list.
abbrev pub taken_by : Pool → Option (ℕ × Shelf ℕ) → Option Pool
taken_by p none = none
taken_by p (some (task, l)) = some (record p {
  tasks = l;
  threads = record p.threads { working = suc p.threads.working };
  taken = p.taken ++ task ∷ [];
})

unfoldable pub take_task : Pool → Option Pool
take_task p = taken_by p (take_front max_tasks p.tasks)

abbrev pub with_threads : Threads → Pool → Pool
with_threads t p = record p { threads = t }

-- process_task from its return out of `pthread_cond_wait` to the next wait, to the unlock, or to its
-- end; the thread itself is counted no more.
unfoldable pub woken : Pool → Option Pool
woken p =
    if p.tasks.count == 0
    then some (with_threads (record p.threads { sleeping = suc p.threads.sleeping }) p)
    else if p.stop_threads
    then some (with_threads (record p.threads { ended = suc p.threads.ended }) p)
    else take_task p

-- process_task from its lock to the first wait, to the unlock, or to its end
unfoldable pub locked : Pool → Option Pool
locked p =
    if p.stop_threads
    then some (with_threads (record p.threads { ended = suc p.threads.ended }) p)
    else woken p

-- The end of a round: the timer is set if there is no task.
unfoldable pub worked : Pool → Pool
worked p = record p {
  armed = if p.tasks.count == 0 then true else p.armed;
  threads = record p.threads { working = p.threads.working - 1; testing = suc p.threads.testing };
}

abbrev pub one_less_locking : Pool → Pool
one_less_locking p = record p { threads = record p.threads { locking = p.threads.locking - 1 } }

abbrev pub one_less_sleeping : Pool → Pool
one_less_sleeping p = record p { threads = record p.threads { sleeping = p.threads.sleeping - 1 } }

pub data TimerStep (p : Pool) : Pool → Type 0 where
  add : {q : Pool} → p.main ≡ adding → p.made < nr_tasks → q ≡ add_task p.made p → TimerStep p q
  check : {q : Pool} → p.main ≡ checking → q ≡ disarm p → TimerStep p q
  test : {q : Pool} → 0 < p.threads.testing → q ≡ record p { threads = tested p } → TimerStep p q
  lock : {q : Pool} → 0 < p.threads.locking → locked (one_less_locking p) ≡ some q → TimerStep p q
  wake : {q : Pool} → 0 < p.threads.sleeping → woken (one_less_sleeping p) ≡ some q → TimerStep p q
  work : {q : Pool} → 0 < p.threads.working → q ≡ worked p → TimerStep p q
  expire :
      {q : Pool}
      → p.armed ≡ true
      → q ≡ record p { armed = false; stop_threads = true }
      → TimerStep p q
  interrupt : {q : Pool} → q ≡ record p { stop_threads = true } → TimerStep p q

pub data Times (p : Pool) : Pool → Type 0 where
  stop : Times p p
  further : {q r : Pool} → Times p q → TimerStep q r → Times p r
