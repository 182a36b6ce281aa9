-- ===== src/TimerPool/Endings.antt =====
-- Whether the threads of practice/timer__/server.c end.
use pso_workspace.Base.{ℕ, ◌≡◌, sym, subst, arith}
use pso_workspace.TimerPool.System.{
  Pool, nr_tasks, disarm, woken, TimerStep, add, check, test, lock, wake, work, expire, interrupt,
  Times, stop, further,
}

-- `main` has made all tasks, the list is empty, and so many threads sleep; the others have ended.
pub record AllAsleep (asleep gone : ℕ) (p : Pool) : Type 0 where
  pub all_made : p.made ≡ nr_tasks
  pub none_left : p.tasks.count ≡ 0
  pub none_testing : p.threads.testing ≡ 0
  pub none_locking : p.threads.locking ≡ 0
  pub none_working : p.threads.working ≡ 0
  pub sleepers : p.threads.sleeping ≡ asleep
  pub over : p.threads.ended ≡ gone

TimerStep-AllAsleep :
    {asleep gone : ℕ} {p q : Pool}
    → TimerStep p q
    → AllAsleep asleep gone p
    → AllAsleep asleep gone q
unfolding disarm woken
TimerStep-AllAsleep (add a b same) v = absurd (omega (arith, v.all_made))
TimerStep-AllAsleep {asleep} {gone} (check a same) v =
    subst (AllAsleep asleep gone) (sym same) (omega arith)
TimerStep-AllAsleep (test a same) v = absurd (omega (arith, v.none_testing))
TimerStep-AllAsleep (lock a e) v = absurd (omega (arith, v.none_locking))
TimerStep-AllAsleep {asleep} {gone} (wake a e) v = ground arith
TimerStep-AllAsleep (work a same) v = absurd (omega (arith, v.none_working))
TimerStep-AllAsleep {asleep} {gone} (expire a same) v =
    subst (AllAsleep asleep gone) (sym same) (omega arith)
TimerStep-AllAsleep {asleep} {gone} (interrupt same) v =
    subst (AllAsleep asleep gone) (sym same) (omega arith)

-- Once `main` has made all its tasks, the list is empty and each thread sleeps or has ended, none of
-- them ends any more, whatever follows, the timer and SIGUSR2 included: a thread that the signal wakes
-- tests the list, not `stop_threads`, and sleeps on, so `main` waits for ever.
pub sleep_for_ever :
    (asleep gone : ℕ) {p q : Pool} → AllAsleep asleep gone p → Times p q → AllAsleep asleep gone q
sleep_for_ever asleep gone v stop = v
sleep_for_ever asleep gone v (further way step) =
    TimerStep-AllAsleep step (sleep_for_ever asleep gone v way)
