-- ===== src/SumPool/Tests.antt =====
-- A run of EXAMS/restanta_30_06_2023/server_semaphore.c with the files `a` and `b`, in which
-- populate_vector is given the second line of `a` as a name.
use pso_workspace.Base.{refl, ◌≡◌, ◌⊎◌, ◌++◌, some, [], ◌∷◌, arith, if◌then◌else◌}
use pso_workspace.Base.Text.{Text, codes, str_eq, atoi}
use pso_workspace.Base.Integers.{pos, negsuc, ◌+ℤ◌}
use pso_workspace.Base.Shelf.{assign, add_item, take_shifted}
use pso_workspace.SumPool.Tasks.{
  Task, task_of, submit_task, take_first, add_to_global, post_task, post_file, take_place,
  take_task_unit,
}
use pso_workspace.SumPool.System.{
  Pool, own, foreign, begins, reserved, named, at_names, at_lines, stale, new_pool, reserve, submit,
  next_stolen, Sums, stop, further,
}
use pso_workspace.SumPool.Sums.{numbers, amount_of}
use pso_workspace.SumPool.Lost.{held_name, files_lost}

abbrev contents : Text → Text
contents name = if str_eq name (codes "a") then codes "10\n-3\n" else codes "5"

abbrev a_task : Task
a_task = task_of (codes "a")

abbrev p0 : Pool
p0 = new_pool (codes "a" ∷ codes "b" ∷ [])

abbrev p1 : Pool
p1 = record p0 { tasks = take_place p0.tasks; main = reserved (own (codes "a")) }

-- The first file is submitted, and populate_vector holds the second.
abbrev p2 : Pool
p2 = record p1 {
  tasks = post_task (record p1.tasks {
    task_vector = record { items = assign p1.tasks.task_vector.items 0 a_task; count = 1 };
  });
  main = begins (own (codes "b"));
  place = at_names [];
  all_submitted = a_task ∷ [];
  names = codes "a" ∷ [];
}

-- A thread has taken the first file and made its post.
abbrev p3 : Pool
p3 = record p2 {
  tasks = post_file (take_first a_task (take_task_unit p2.tasks)).1;
  waiting = 2;
  executing = a_task ∷ [];
  all_taken = a_task ∷ [];
}

-- It has begun with the lines.
abbrev p4 : Pool
p4 = record p3 {
  place = at_lines (pos 0) (some (codes "10")) (codes "-3" ∷ []);
  executing = [];
  opened = (a_task, codes "10" ∷ codes "-3" ∷ []) ∷ [];
}

-- populate_vector has submitted the second file, and strtok has given it a line of the first.
abbrev p5 : Pool
p5 = record p4 {
  tasks = record (take_place p4.tasks) {
    task_vector = record {
      items = assign p4.tasks.task_vector.items 0 (task_of (codes "b"));
      count = 1;
    };
  };
  main = named (some foreign);
  place = at_lines (pos 0) (some (codes "10")) [];
  all_submitted = a_task ∷ task_of (codes "b") ∷ [];
  names = codes "a" ∷ codes "b" ∷ [];
  stolen = codes "-3" ∷ [];
}

-- The thread has added what it was left.
abbrev p6 : Pool
p6 = record p5 { tasks = add_to_global (pos 10) p5.tasks; place = stale; waiting = 3 }

p4_to_p5 : Sums contents p4 p5
unfolding submit_task add_item take_first take_shifted
p4_to_p5 =
    further
      (further (further stop (reserve (own (codes "b")) refl (omega arith) refl))
        (submit (codes "b") refl refl refl))
      (next_stolen (pos 0) (some (codes "10")) (codes "-3" ∷ []) refl refl refl)

-- The file amounts to 7, `global_sum` is 10, and the line that was taken away is -3.
amounts :
    (amount_of p6.opened ≡ pos 7) × (p6.tasks.global_sum ≡ pos 10) × (numbers p6.stolen ≡ negsuc 2)
unfolding amount_of numbers add_to_global ◌+ℤ◌ atoi take_first
amounts = (refl, refl, refl)

files_lost_example :
    (p5.names ≡ p4.names)
    ⊎ ((name : Text) × (held_name p4.main ≡ some name) × (p5.names ≡ p4.names ++ name ∷ []))
files_lost_example = files_lost contents tt p4_to_p5
