-- ===== src/SumPool/System.antt =====
-- populate_vector and the three threads of EXAMS/restanta_30_06_2023/server_semaphore.c as a step
-- relation. A step is a call of a semaphore, one of strtok, or what a thread does under `_task_mutex_`.
-- No signal arrives, and every file can be opened; what the files hold is a parameter.
use pso_workspace.Base.{
  ℕ, suc, ◌-◌, ◌<◌, ◌≡◌, Bool, true, false, Option, none, some, List, [], ◌∷◌, ◌++◌,
}
use pso_workspace.Base.Text.{Text}
use pso_workspace.Base.Integers.{ℤ}
use pso_workspace.SumPool.Tasks.{
  Task, Tasks, new_tasks, max_threads, submit_task, take_first, add_to_global, take_place,
  take_task_unit, post_task, post_file, lines_of, first_token, later_tokens, plus_number, task_of,
}

-- `start` of populate_vector: in its own buffer, where its text stays, or in the buffer of a thread, where
-- another text may stand by the time that it is copied.
pub data Start : Type 0 where
  own : Text → Start
  foreign : Start

-- populate_vector before `sem_wait`, behind it, behind submit_Task, behind strtok, and at its end.
pub data Populate : Type 0 where
  begins reserved : Start → Populate
  submitted : Populate
  named : Option Start → Populate
  over : Populate

-- The one place that strtok keeps for all threads: in the buffer of populate_vector, with the names that
-- follow there; in the buffer of the thread that sums up its lines, with that thread's sum, its `start`
-- and the lines that follow; or in a buffer that a thread has gone through, where anything may stand.
pub data Place : Type 0 where
  at_names : List Text → Place
  at_lines : ℤ → Option Text → List Text → Place
  stale : Place

-- The first section under `__sum_mutex_` is the time of `at_lines`.
abbrev pub is_free : Place → Bool
is_free (at_names rest) = true
is_free (at_lines sum start rest) = false
is_free stale = true

-- How many threads stand at `sem_wait` and behind it; the tasks that threads have taken, before the post
-- and behind it, and the sums that they have not added yet. The rest is history: all tasks submitted and
-- taken, the names of the first buffer that were submitted, the tasks that were begun with their lines,
-- and the lines of such tasks that strtok gave to populate_vector.
pub record Pool : Type 0 where
  pub tasks : Tasks
  pub main : Populate
  pub place : Place
  pub waiting : ℕ
  pub woken : ℕ
  pub posting : List Task
  pub executing : List Task
  pub summed : List ℤ
  pub all_submitted : List Task
  pub all_taken : List Task
  pub names : List Text
  pub opened : List (Task × List Text)
  pub stolen : List Text

-- populate_vector with `start` set.
abbrev pub at_loop : Option Start → Populate
at_loop none = over
at_loop (some start) = begins start

abbrev pub own_start : Option Text → Option Start
own_start none = none
own_start (some name) = some (own name)

abbrev pub foreign_start : Option Text → Option Start
foreign_start none = none
foreign_start (some line) = some foreign

abbrev pub and_stolen : Option Text → List Text → List Text
and_stolen none lines = lines
and_stolen (some line) lines = line ∷ lines

-- populate_vector at its loop, for a text of these lines.
abbrev pub new_pool : List Text → Pool
new_pool names = record {
  tasks = new_tasks;
  main = at_loop (own_start (first_token names));
  place = at_names (later_tokens names);
  waiting = max_threads;
  woken = 0;
  posting = [];
  executing = [];
  summed = [];
  all_submitted = [];
  all_taken = [];
  names = [];
  opened = [];
  stolen = [];
}

-- What submit_Task leaves.
abbrev pub and_task : Tasks → Text → Pool → Pool
and_task s name p = record p {
  tasks = s;
  main = submitted;
  all_submitted = p.all_submitted ++ task_of name ∷ [];
}

-- A thread with a task in its buffer, before the first call of strtok, and behind it.
abbrev pub begun : Task → List Text → Pool → Pool
begun task lines p = record p {
  place = at_lines task.sum (first_token lines) (later_tokens lines);
  opened = (task, lines) ∷ p.opened;
}

module _ (content : Text → Text) where
  pub data SumStep (p : Pool) : Pool → Type 0 where
    reserve :
        {q : Pool} (start : Start)
        → p.main ≡ begins start
        → 0 < p.tasks.file_to_write_available
        → q ≡ record p { tasks = take_place p.tasks; main = reserved start }
        → SumStep p q
    submit :
        {q : Pool} {s : Tasks} (name : Text)
        → p.main ≡ reserved (own name)
        → submit_task (task_of name) p.tasks ≡ some s
        → q ≡ record (and_task s name p) { names = p.names ++ name ∷ [] }
        → SumStep p q
    submit_foreign :
        {q : Pool} {s : Tasks} (name : Text)
        → p.main ≡ reserved foreign
        → submit_task (task_of name) p.tasks ≡ some s
        → q ≡ and_task s name p
        → SumStep p q
    next_name :
        {q : Pool} (rest : List Text)
        → p.main ≡ submitted
        → p.place ≡ at_names rest
        → q ≡ record p {
          main = named (own_start (first_token rest));
          place = at_names (later_tokens rest);
        }
        → SumStep p q
    next_stolen :
        {q : Pool} (sum : ℤ) (start : Option Text) (rest : List Text)
        → p.main ≡ submitted
        → p.place ≡ at_lines sum start rest
        → q ≡ record p {
          main = named (foreign_start (first_token rest));
          place = at_lines sum start (later_tokens rest);
          stolen = and_stolen (first_token rest) p.stolen;
        }
        → SumStep p q
    next_stale :
        {q : Pool} (found : Option Text)
        → p.main ≡ submitted
        → p.place ≡ stale
        → q ≡ record p { main = named (foreign_start found) }
        → SumStep p q
    tell :
        {q : Pool} (start : Option Start)
        → p.main ≡ named start
        → q ≡ record p { tasks = post_task p.tasks; main = at_loop start }
        → SumStep p q
    wake :
        {q : Pool}
        → 0 < p.waiting
        → 0 < p.tasks.task_to_execute_available
        → q ≡ record p {
          tasks = take_task_unit p.tasks;
          waiting = p.waiting - 1;
          woken = suc p.woken;
        }
        → SumStep p q
    take :
        {q : Pool} (behind : Task)
        → 0 < p.woken
        → q ≡ record p {
          tasks = (take_first behind p.tasks).1;
          woken = p.woken - 1;
          posting = (take_first behind p.tasks).0 ∷ p.posting;
          all_taken = p.all_taken ++ (take_first behind p.tasks).0 ∷ [];
        }
        → SumStep p q
    post :
        {q : Pool} (task : Task) (xs ys : List Task)
        → p.posting ≡ xs ++ task ∷ ys
        → q ≡ record p {
          tasks = post_file p.tasks;
          posting = xs ++ ys;
          executing = task ∷ p.executing;
        }
        → SumStep p q
    begin_sum :
        {q : Pool} (task : Task) (left_over : Text) (xs ys : List Task)
        → p.executing ≡ xs ++ task ∷ ys
        → is_free p.place ≡ true
        → q
          ≡ begun task
              (lines_of (content task.filename) left_over)
              (record p { executing = xs ++ ys })
        → SumStep p q
    next_line :
        {q : Pool} (sum : ℤ) (line : Text) (rest : List Text)
        → p.place ≡ at_lines sum (some line) rest
        → q ≡ record p {
          place = at_lines (plus_number sum line) (first_token rest) (later_tokens rest);
        }
        → SumStep p q
    end_sum :
        {q : Pool} (sum : ℤ) (rest : List Text)
        → p.place ≡ at_lines sum none rest
        → q ≡ record p { place = stale; summed = sum ∷ p.summed }
        → SumStep p q
    add_up :
        {q : Pool} (sum : ℤ) (xs ys : List ℤ)
        → p.summed ≡ xs ++ sum ∷ ys
        → is_free p.place ≡ true
        → q ≡ record p {
          tasks = add_to_global sum p.tasks;
          summed = xs ++ ys;
          waiting = suc p.waiting;
        }
        → SumStep p q

  pub data Sums (p : Pool) : Pool → Type 0 where
    stop : Sums p p
    further : {q r : Pool} → Sums p q → SumStep q r → Sums p r
