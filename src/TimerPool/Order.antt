-- ===== src/TimerPool/Order.antt =====
-- What holds of the tasks and the threads of practice/timer__/server.c at all times.
use mathlib.Core.List.{append_assoc}
use mathlib.Core.Option.{some-injective}
use pso_workspace.Base.{
  Bool-cases, ◌∙◌, ◌==◌, if◌then◌else◌, ℕ, suc, ◌+◌, ◌≤◌, ◌<◌, ◌≡◌, ◌≢◌, refl, sym, subst, Bool,
  true, false, Option, none, some, [], ◌∷◌, ◌++◌, length, length-append, inl, inr, arith,
}
use pso_workspace.Base.Shelf.{
  Shelf, add_item, take_front, listed, pending, listed-add_item, listed-take_front, take_front_room,
}
use pso_workspace.TimerPool.System.{
  with_threads, added_by, taken_by, Pool, Threads, start_pool, max_tasks, nr_threads, add_task,
  disarm, tested, take_task, woken, locked, worked, one_less_locking, one_less_sleeping, TimerStep,
  add, check, test, lock, wake, work, expire, interrupt, Times, stop, further,
}

abbrev pub all_threads : Threads → ℕ
all_threads t = t.testing + t.locking + t.sleeping + t.working + t.ended

pub record IsOrderly (n : ℕ) (p : Pool) : Type 0 where
  pub bounded : p.tasks.count ≤ max_tasks
  pub served : p.added ≡ p.taken ++ listed p.tasks
  pub counted : length p.added + p.refused ≡ p.made
  pub threads : all_threads p.threads ≡ n
  pub stopped : 0 < p.threads.ended → p.stop_threads ≡ true

added_by-IsOrderly :
    (n id : ℕ) (p : Pool) (l : Option (Shelf ℕ))
    → add_item max_tasks p.tasks id ≡ l
    → IsOrderly n p
    → IsOrderly n (added_by id p l)
added_by-IsOrderly n id p none e v = record {
  bounded = v.bounded;
  served = v.served;
  counted = omega (arith, v.counted);
  threads = v.threads;
  stopped = v.stopped;
}
added_by-IsOrderly n id p (some l) e v =
    let (low, more, last) = listed-add_item max_tasks p.tasks l id e in
    record {
      bounded = low;
      served = rw (v.served, last) (append_assoc p.taken (listed p.tasks) (id ∷ []));
      counted = omega (arith, v.counted, length-append p.added (id ∷ []));
      threads = v.threads;
      stopped = v.stopped;
    }

taken_by-IsOrderly :
    (n : ℕ) (p : Pool) (r : Option (ℕ × Shelf ℕ)) (q : Pool)
    → take_front max_tasks p.tasks ≡ r
    → 0 < p.tasks.count
    → taken_by p r ≡ some q
    → IsOrderly n p
    → IsOrderly (suc n) q
taken_by-IsOrderly n p none q e h same v = cc
taken_by-IsOrderly n p (some (task, l)) q e h same v =
    let (less, first) = listed-take_front max_tasks p.tasks l task h v.bounded e in
    subst (IsOrderly (suc n)) (some-injective _ _ same) (record {
      bounded = omega (arith, v.bounded);
      served = rw (v.served, first) (sym (append_assoc p.taken (task ∷ []) (listed l)));
      counted = v.counted;
      threads = omega (arith, v.threads);
      stopped = v.stopped;
    })

-- A change of the threads alone.
with_threads-IsOrderly :
    (n m : ℕ) (p : Pool) (t : Threads)
    → all_threads t ≡ m
    → (0 < t.ended → p.stop_threads ≡ true)
    → IsOrderly n p
    → IsOrderly m (with_threads t p)
with_threads-IsOrderly n m p t sum h v = record {
  bounded = v.bounded;
  served = v.served;
  counted = v.counted;
  threads = sum;
  stopped = h;
}

-- A test of `stop_threads` under the mutex, with what follows where it fails.
ending-IsOrderly :
    (n : ℕ) (p q : Pool) (b : Bool) (k : Option Pool)
    → p.stop_threads ≡ b
    → (if b then some (with_threads (record p.threads { ended = suc p.threads.ended }) p) else k)
      ≡ some q
    → (k ≡ some q → IsOrderly (suc n) q)
    → IsOrderly n p
    → IsOrderly (suc n) q
ending-IsOrderly n p q true k ends e h v =
    subst (IsOrderly (suc n)) (some-injective _ _ e)
      (with_threads-IsOrderly n (suc n) p _ (omega (arith, v.threads)) (λ l. ends) v)
ending-IsOrderly n p q false k ends e h v = h e

woken-IsOrderly : (n : ℕ) (p q : Pool) → woken p ≡ some q → IsOrderly n p → IsOrderly (suc n) q
unfolding woken take_task
woken-IsOrderly n p q e v = elim (Bool-cases (p.tasks.count == 0)) [
  | inl none_left ↦
      subst (IsOrderly (suc n)) (some-injective _ _ (rw none_left at e))
        (with_threads-IsOrderly n (suc n) p _ (omega (arith, v.threads)) v.stopped v)
  | inr some_left ↦
      ending-IsOrderly n p q p.stop_threads (take_task p) refl (rw some_left at e)
        (λ f. taken_by-IsOrderly n p (take_front max_tasks p.tasks) q refl (ground arith) f v) v
]

locked-IsOrderly : (n : ℕ) (p q : Pool) → locked p ≡ some q → IsOrderly n p → IsOrderly (suc n) q
unfolding locked
locked-IsOrderly n p q e v =
    ending-IsOrderly n p q p.stop_threads (woken p) refl e (λ f. woken-IsOrderly n p q f v) v

tested-threads :
    (p : Pool)
    → 0 < p.threads.testing
    → (0 < p.threads.ended → p.stop_threads ≡ true)
    → (all_threads (tested p) ≡ all_threads p.threads)
      × (0 < (tested p).ended → p.stop_threads ≡ true)
unfolding tested
tested-threads p h v = (ground arith, λ k. ground arith)

TimerStep-IsOrderly : {p q : Pool} → TimerStep p q → IsOrderly nr_threads p → IsOrderly nr_threads q
unfolding add_task disarm worked
TimerStep-IsOrderly {p} {q} (add a b same) v =
    subst (IsOrderly nr_threads) (sym same) (added_by-IsOrderly nr_threads p.made p _ refl v)
TimerStep-IsOrderly {p} {q} (check a same) v = subst (IsOrderly nr_threads) (sym same) (record {
  bounded = v.bounded;
  served = v.served;
  counted = v.counted;
  threads = v.threads;
  stopped = v.stopped;
})
TimerStep-IsOrderly {p} {q} (test a same) v =
    let (sum, ends) = tested-threads p a v.stopped in
    subst (IsOrderly nr_threads) (sym same)
      (with_threads-IsOrderly nr_threads nr_threads p (tested p) (sum ∙ v.threads) ends v)
TimerStep-IsOrderly {p} {q} (lock a e) v =
    locked-IsOrderly 2 (one_less_locking p) q e
      (with_threads-IsOrderly nr_threads 2 p _ (omega (arith, v.threads)) v.stopped v)
TimerStep-IsOrderly {p} {q} (wake a e) v =
    woken-IsOrderly 2 (one_less_sleeping p) q e
      (with_threads-IsOrderly nr_threads 2 p _ (omega (arith, v.threads)) v.stopped v)
TimerStep-IsOrderly {p} {q} (work a same) v = subst (IsOrderly nr_threads) (sym same) (record {
  bounded = v.bounded;
  served = v.served;
  counted = v.counted;
  threads = omega (arith, v.threads);
  stopped = v.stopped;
})
TimerStep-IsOrderly {p} {q} (expire a same) v = subst (IsOrderly nr_threads) (sym same) (record {
  bounded = v.bounded;
  served = v.served;
  counted = v.counted;
  threads = v.threads;
  stopped = λ h. refl;
})
TimerStep-IsOrderly {p} {q} (interrupt same) v = subst (IsOrderly nr_threads) (sym same) (record {
  bounded = v.bounded;
  served = v.served;
  counted = v.counted;
  threads = v.threads;
  stopped = λ h. refl;
})

Times-IsOrderly : {p : Pool} → Times start_pool p → IsOrderly nr_threads p
unfolding pending
Times-IsOrderly stop = record {
  bounded = omega arith;
  served = refl;
  counted = refl;
  threads = refl;
  stopped = λ h. absurd (omega arith);
}
Times-IsOrderly (further way step) = TimerStep-IsOrderly step (Times-IsOrderly way)

taken_by-room :
    (p : Pool) (r : Option (ℕ × Shelf ℕ))
    → take_front max_tasks p.tasks ≡ r
    → 0 < p.tasks.count
    → p.tasks.count ≤ max_tasks
    → taken_by p r ≢ none
taken_by-room p none e h b f = take_front_room max_tasks p.tasks h b e
taken_by-room p (some (task, l)) e h b f = cc

-- However the threads, the timer and SIGUSR2 take turns: the tasks that were added are those that a
-- thread has taken, in the order in which they came, and then those in the list; each task that `main`
-- has made was added or refused; at most five are in the list, and a thread that finds one there takes
-- it without an access outside of the array, also from a full list; and no thread has ended before
-- `stop_threads` was set.
pub added_in_order :
    {p : Pool}
    → Times start_pool p
    → (p.added ≡ p.taken ++ listed p.tasks)
      × (length p.added + p.refused ≡ p.made)
      × (p.tasks.count ≤ max_tasks)
      × (0 < p.tasks.count → take_task p ≢ none)
      × (0 < p.threads.ended → p.stop_threads ≡ true)
unfolding take_task
added_in_order {p} way =
    let v = Times-IsOrderly way in
    (v.served, v.counted, v.bounded, λ h e. taken_by-room p _ refl h v.bounded e, v.stopped)
