-- ===== src/SumPool/Sums.antt =====
-- The books of EXAMS/restanta_30_06_2023/server_semaphore.c of its places, its threads, its tasks
-- and its numbers.
use pso_workspace.Base.{
  Option-cases, inl, inr, ℕ, suc, ◌+◌, ◌-◌, ◌<◌, ◌≤◌, ◌≡◌, refl, ap, Option, none, some, true, List,
  [], ◌∷◌, ◌++◌, length, arith,
}
use pso_workspace.Base.Text.{Text, atoi}
use pso_workspace.Base.Integers.{ℤ, pos, ◌+ℤ◌, eq_of_parts, int_laws}
use pso_workspace.Base.Shelf.{add_item, take_shifted, listed, listed-add_item, listed-take_shifted}
use pso_workspace.SumPool.Tasks.{
  Task, Tasks, max_tasks, max_threads, submit_task, take_first, first_token, later_tokens,
}
use pso_workspace.SumPool.System.{
  Populate, begins, reserved, submitted, named, over, Place, at_names, at_lines, stale, Pool,
  is_free, and_stolen,
}

unfoldable pub total : List ℤ → ℤ
total [] = pos 0
total (x ∷ xs) = x +ℤ total xs

pub total-without :
    (xs : List ℤ) (x : ℤ) (ys : List ℤ) → total (xs ++ x ∷ ys) ≡ x +ℤ total (xs ++ ys)
unfolding total
total-without [] x ys = refl
total-without (y ∷ xs) x ys = rw (total-without xs x ys) (eq_of_parts _ _ (omega int_laws))

pub length-without {ℓ} :
    {A : Type ℓ} (xs : List A) (x : A) (ys : List A)
    → length (xs ++ x ∷ ys) ≡ suc (length (xs ++ ys))
length-without [] x ys = refl
length-without (y ∷ xs) x ys = ap suc (length-without xs x ys)

-- The numbers on these lines together.
unfoldable pub numbers : List Text → ℤ
numbers [] = pos 0
numbers (line ∷ lines) = atoi line +ℤ numbers lines

-- What the files that were begun amount to, with what their tasks started from.
unfoldable pub amount_of : List (Task × List Text) → ℤ
unfolding numbers
amount_of [] = pos 0
amount_of ((task, lines) ∷ opened) = (task.sum +ℤ numbers lines) +ℤ amount_of opened

abbrev pub number_of : Option Text → ℤ
number_of none = pos 0
number_of (some line) = atoi line

-- What a thread has summed up, and what it still has before it.
abbrev pub open_sum : Place → ℤ
open_sum (at_names rest) = pos 0
open_sum (at_lines sum start rest) = sum +ℤ (number_of start +ℤ numbers rest)
open_sum stale = pos 0

abbrev pub open_count : Place → ℕ
open_count (at_names rest) = 0
open_count (at_lines sum start rest) = 1
open_count stale = 0

-- Behind the last line there is no other.
abbrev pub AtEnd : Option Text → List Text → Type 0
AtEnd none rest = rest ≡ []
AtEnd (some line) rest = Unit

abbrev pub Ended : Place → Type 0
Ended (at_names rest) = Unit
Ended (at_lines sum start rest) = AtEnd start rest
Ended stale = Unit

-- The place that populate_vector has reserved, and the task that it has not told of yet.
abbrev pub reserved_of : Populate → ℕ
reserved_of (begins start) = 0
reserved_of (reserved start) = 1
reserved_of submitted = 0
reserved_of (named start) = 0
reserved_of over = 0

abbrev pub untold_of : Populate → ℕ
untold_of (begins start) = 0
untold_of (reserved start) = 0
untold_of submitted = 1
untold_of (named start) = 1
untold_of over = 0

pub record IsSound (p : Pool) : Type 0 where
  pub places :
      p.tasks.file_to_write_available
        + reserved_of p.main
        + p.tasks.task_vector.count
        + length p.posting
      ≡ max_tasks
  pub supplied :
      p.tasks.task_to_execute_available + p.woken + untold_of p.main ≡ p.tasks.task_vector.count
  pub threads :
      p.waiting
        + p.woken
        + length p.posting
        + length p.executing
        + open_count p.place
        + length p.summed
      ≡ max_threads
  pub order : p.all_submitted ≡ p.all_taken ++ listed p.tasks.task_vector
  pub once : length p.all_taken ≡ length p.posting + length p.executing + length p.opened
  pub ended : Ended p.place
  pub balance :
      amount_of p.opened
      ≡ p.tasks.global_sum +ℤ (total p.summed +ℤ (open_sum p.place +ℤ numbers p.stolen))

pub submit_lem :
    (s t : Tasks) (task : Task)
    → submit_task task s ≡ some t
    → (t.file_to_write_available ≡ s.file_to_write_available)
      × (t.task_to_execute_available ≡ s.task_to_execute_available)
      × (t.global_sum ≡ s.global_sum)
      × (t.task_vector.count ≡ suc s.task_vector.count)
      × (listed t.task_vector ≡ listed s.task_vector ++ task ∷ [])
unfolding submit_task
submit_lem s t task e = elim (Option-cases (add_item max_tasks s.task_vector task)) [
  | inl full ↦ cc
  | inr (v, added) ↦ ground (arith, listed-add_item max_tasks s.task_vector v task added)
]

pub take_lem :
    (behind : Task) (s : Tasks)
    → ((take_first behind s).1.file_to_write_available ≡ s.file_to_write_available)
      × ((take_first behind s).1.task_to_execute_available ≡ s.task_to_execute_available)
      × ((take_first behind s).1.global_sum ≡ s.global_sum)
      × ((take_first behind s).1.task_vector.count ≡ s.task_vector.count - 1)
unfolding take_first take_shifted
take_lem behind s = (refl, refl, refl, refl)

pub take_order :
    (behind : Task) (s : Tasks)
    → 0 < s.task_vector.count
    → s.task_vector.count ≤ max_tasks
    → listed s.task_vector ≡ (take_first behind s).0 ∷ listed (take_first behind s).1.task_vector
unfolding take_first
take_order behind s h low = listed-take_shifted max_tasks behind s.task_vector h low

-- strtok takes the first line from those before it.
pub numbers-tokens :
    (lines : List Text)
    → number_of (first_token lines) +ℤ numbers (later_tokens lines) ≡ numbers lines
unfolding numbers ◌+ℤ◌
numbers-tokens [] = refl
numbers-tokens (line ∷ lines) = refl

pub numbers-and_stolen :
    (start : Option Text) (lines : List Text)
    → numbers (and_stolen start lines) ≡ number_of start +ℤ numbers lines
unfolding numbers
numbers-and_stolen none lines = eq_of_parts _ _ (omega int_laws)
numbers-and_stolen (some line) lines = refl

pub AtEnd-tokens : (lines : List Text) → AtEnd (first_token lines) (later_tokens lines)
AtEnd-tokens [] = refl
AtEnd-tokens (line ∷ lines) = tt

pub AtEnd-later :
    (start : Option Text) (rest : List Text) → AtEnd start rest → AtEnd start (later_tokens rest)
AtEnd-later none rest h = ap later_tokens h
AtEnd-later (some line) rest h = tt

pub free_sum :
    (place : Place) → is_free place ≡ true → (open_sum place ≡ pos 0) × (open_count place ≡ 0)
free_sum (at_names rest) h = (refl, refl)
free_sum (at_lines sum start rest) h = cc
free_sum stale h = (refl, refl)
