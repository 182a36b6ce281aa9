-- ===== src/ProdCons/Tests.antt =====
-- A full run of the two threads of Lab7_threads/lin_Exercises/7-prodcons/prodcons.c.
use pso_workspace.Base.{ℕ, ◌≡◌, refl, arith, if◌then◌else◌, ltb, ◌∷◌, []}
use pso_workspace.ProdCons.Buffer.{init_buffer, insert_item, remove_item, put}
use pso_workspace.ProdCons.System.{
  System, start, nr_iterations, producer_step, consumer_step, Step, produce, consume, Reach, here,
  next, awake,
}
use pso_workspace.ProdCons.Invariant.{times, all_consumed_once}
use pso_workspace.ProdCons.Progress.{Moves, never_deadlocks}

-- One item, produced and consumed.
abbrev both : {s t u : System} → Reach start s → Step s t → Step t u → Reach start u
both r a b = next (next r a) b

never_deadlocks_example : Moves start
never_deadlocks_example = never_deadlocks here (omega arith)

-- The state after ten items have passed through the buffer one by one.
abbrev ended : System
ended = record {
  buffer = record {
    buff =
        put
          (put
            (put (put (put (put (put (put (put (put (λ i. 0) 0 0) 0 1) 0 2) 0 3) 0 4) 0 5) 0 6) 0 7)
            0 8)
          0 9;
    count = 0;
  };
  produced = 10;
  producer = awake;
  consumed = 9 ∷ 8 ∷ 7 ∷ 6 ∷ 5 ∷ 4 ∷ 3 ∷ 2 ∷ 1 ∷ 0 ∷ [];
  rounds = 10;
  consumer = awake;
}

ended-Reach : Reach start ended
unfolding init_buffer producer_step consumer_step insert_item remove_item
ended-Reach =
    both
      (both
        (both
          (both
            (both
              (both
                (both
                  (both
                    (both
                      (both (here) (produce (omega arith) refl refl)
                        (consume (omega arith) refl refl))
                      (produce (omega arith) refl refl) (consume (omega arith) refl refl))
                    (produce (omega arith) refl refl) (consume (omega arith) refl refl))
                  (produce (omega arith) refl refl) (consume (omega arith) refl refl))
                (produce (omega arith) refl refl) (consume (omega arith) refl refl))
              (produce (omega arith) refl refl) (consume (omega arith) refl refl))
            (produce (omega arith) refl refl) (consume (omega arith) refl refl))
          (produce (omega arith) refl refl) (consume (omega arith) refl refl))
        (produce (omega arith) refl refl) (consume (omega arith) refl refl))
      (produce (omega arith) refl refl) (consume (omega arith) refl refl)

all_consumed_once_example :
    (ended.buffer.count ≡ 0)
    × ((a : ℕ) → times a ended.consumed ≡ (if ltb a nr_iterations then 1 else 0))
all_consumed_once_example = all_consumed_once ended-Reach refl refl
