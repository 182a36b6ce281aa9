-- ===== src/SumPool/Tasks.antt =====
-- The list of tasks of EXAMS/restanta_30_06_2023/server_semaphore.c, with what is done on it under the
-- mutexes, and what a file is read as.
use pso_workspace.Base.{ℕ, suc, ◌-◌, Option, none, some, List, [], ◌∷◌, ◌++◌, take, ◌==◌, Bool}
use pso_workspace.Base.Text.{Text, tokens, atoi}
use pso_workspace.Base.Integers.{ℤ, pos, ◌+ℤ◌}
use pso_workspace.Base.Shelf.{Shelf, assign, add_item, take_shifted}

abbrev pub max_tasks : ℕ
max_tasks = 5

abbrev pub max_threads : ℕ
max_threads = 3

pub record Task : Type 0 where
  pub sum : ℤ
  pub filename : Text

pub record Tasks : Type 0 where
  pub task_vector : Shelf Task
  pub file_to_write_available : ℕ
  pub task_to_execute_available : ℕ
  pub global_sum : ℤ

unfoldable pub submit_task : Task → Tasks → Option Tasks
submit_task new_task s = elim (add_item max_tasks s.task_vector new_task) [
  | none ↦ none
  | some v ↦ some (record s { task_vector = v })
]

-- starting_routine under `_task_mutex_`. From a full list the loop reads `task_vector[5]`: what stands
-- there is the argument.
unfoldable pub take_first : Task → Tasks → Task × Tasks
unfolding take_shifted
take_first behind s =
    let (first, v) =
      take_shifted (record s.task_vector { items = assign s.task_vector.items max_tasks behind }) in
    (first, record s { task_vector = v })

-- The second section under `__sum_mutex_`
unfoldable pub add_to_global : ℤ → Tasks → Tasks
add_to_global sum s = record s { global_sum = s.global_sum +ℤ sum }

-- The waits for the two semaphores, and the posts
abbrev pub take_place : Tasks → Tasks
take_place s = record s { file_to_write_available = s.file_to_write_available - 1 }

abbrev pub take_task_unit : Tasks → Tasks
take_task_unit s = record s { task_to_execute_available = s.task_to_execute_available - 1 }

abbrev pub post_task : Tasks → Tasks
post_task s = record s { task_to_execute_available = suc s.task_to_execute_available }

abbrev pub post_file : Tasks → Tasks
post_file s = record s { file_to_write_available = suc s.file_to_write_available }

abbrev pub new_tasks : Tasks
new_tasks = record {
  task_vector = record { items = λ i. record { sum = pos 0; filename = [] }; count = 0 };
  file_to_write_available = max_tasks;
  task_to_execute_available = 0;
  global_sum = pos 0;
}

abbrev pub task_of : Text → Task
task_of name = record { sum = pos 0; filename = name }

abbrev is_newline : ℕ → Bool
is_newline c = c == 10

-- The lines of `buffer` in execute_the_task: 1024 bytes at most of the file, and what stood behind them,
-- since no zero is written there.
unfoldable pub lines_of : Text → Text → List Text
lines_of content left_over = tokens is_newline (take 1024 content ++ left_over)

-- The first of the lines that strtok has before it, and those behind that.
abbrev pub first_token : List Text → Option Text
first_token [] = none
first_token (t ∷ ts) = some t

abbrev pub later_tokens : List Text → List Text
later_tokens [] = []
later_tokens (t ∷ ts) = ts

-- `task_to_execute.sum += atoi(start)`
abbrev pub plus_number : ℤ → Text → ℤ
plus_number sum start = sum +ℤ atoi start
