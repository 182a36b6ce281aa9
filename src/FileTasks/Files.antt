-- ===== src/FileTasks/Files.antt =====
-- The list of files of EXAMS/30.01.2023/server.c, and the functions that work on it. A thread that
-- finds its file in use tries again until it is free, which is to wait. An index out of range is a
-- fault, and an `open` for writing that fails ends the program; which succeed is a parameter.
use pso_workspace.Base.{
  ℕ, zero, suc, ◌+◌, ◌-◌, ◌%◌, Bool, Option, none, some, List, [], ◌∷◌, ◌++◌, ltb, ◌==◌,
  if◌then◌else◌, take, drop, length,
}
use pso_workspace.Base.Text.{Text, codes, str_eq, tokens, is_space}
use pso_workspace.Base.Integers.{ℤ, pos, negsuc, sub_ℕ, ◌+ℤ◌}
use pso_workspace.Base.Shelf.{assign}
use pso_workspace.Base.Machine.{
  M, done, blocked, exited, fault, ◌>>=◌, ◌>>◌, pure, get_state, modify, when, deref,
}

-- MAX_PTHREADS
abbrev pub max_files : ℕ
max_files = 30

-- `files_list`, field by field, with `list_counter`.
pub record Files : Type 0 where
  pub use_flag : ℕ → ℕ
  pub filename : ℕ → Text
  pub list_counter : ℕ

-- What the threads write into the pipe to the child.
pub data Message : Type 0 where
  started stopped : Message

pub record Server : Type 0 where
  pub files : Files
  pub current_tasks : ℕ
  pub disk : Text → Option Text
  pub messages : List Message

abbrev pub no_files : Files
no_files = record { use_flag = λ i. 0; filename = λ i. []; list_counter = 0 }

-- The loop of verify_existency, over `left` files from index `i` on.
unfoldable pub find_file : (ℕ → Text) → Text → ℕ → ℕ → Option ℕ
find_file names name zero i = none
find_file names name (suc left) i =
    let rest = find_file names name left (i + 1) in if str_eq (names i) name then some i else rest

abbrev pub or_zero : Option ℕ → ℕ
or_zero none = 0
or_zero (some i) = i

-- verify_existency: 0 stands for the first file and for none.
unfoldable pub verify_existency : Files → Text → ℕ
verify_existency f name = or_zero (find_file f.filename name f.list_counter 0)

-- What add_in_list does to a file that it has not found.
unfoldable pub insert_file : Files → Text → Option Files
insert_file f name =
    if ltb f.list_counter max_files
    then some (record {
      use_flag = assign f.use_flag f.list_counter 0;
      filename = assign f.filename f.list_counter name;
      list_counter = suc f.list_counter;
    })
    else none

abbrev pub set_flag : ℕ → ℕ → Files → Files
set_flag id flag f = record f { use_flag = assign f.use_flag id flag }

abbrev pub set_files : Files → Server → Server
set_files f s = record s { files = f }

insert : Text → M Server (Unit {0})
insert name s = elim (insert_file s.files name) [ none ↦ fault | some f ↦ done tt (set_files f s) ]

unfoldable pub add_in_list : Text → M Server (Unit {0})
unfolding insert
add_in_list name = do s ← get_state; when (verify_existency s.files name == 0) (insert name)

-- The loop of verify_and_take.
take_file : ℕ → M Server ℕ
take_file id s =
    if s.files.use_flag id == 0 then done id (set_files (set_flag id 1 s.files) s) else blocked s

unfoldable pub verify_and_take : Text → M Server ℕ
unfolding take_file
verify_and_take name = do s ← get_state; take_file (verify_existency s.files name)

abbrev pub release : ℕ → M Server (Unit {0})
release id = modify (λ s. set_files (set_flag id 0 s.files) s)

abbrev pub task_begins : M Server (Unit {0})
task_begins = modify (λ s. record s { current_tasks = suc s.current_tasks })

abbrev pub task_ends : M Server (Unit {0})
task_ends = modify (λ s. record s { current_tasks = s.current_tasks - 1 })

abbrev pub save : (Text → Option Text) → Text → Text → Text → Option Text
save disk name content path = if str_eq name path then some content else disk path

-- A byte as a `char`, which is signed where the server runs.
unfoldable pub char_value : ℕ → ℤ
char_value c = if ltb c 128 then pos c else sub_ℕ c 256

-- `sum % 1000`, which has the sign of `sum`.
unfoldable pub rem_1000 : ℤ → ℤ
rem_1000 (pos n) = pos (n % 1000)
rem_1000 (negsuc n) = sub_ℕ 0 (suc n % 1000)

unfoldable pub sum_bytes : ℤ → Text → ℤ
unfolding char_value
sum_bytes sum [] = sum
sum_bytes sum (c ∷ s) = sum_bytes (sum +ℤ char_value c) s

-- The loops of `checksum` over what `read` returns, `size` bytes at a time. A round takes a unit of fuel.
-- A `long long` holds the sum of any chunk that fits into memory.
unfoldable pub sum_chunks : ℕ → ℕ → ℤ → Text → Option ℤ
unfolding sum_bytes rem_1000
sum_chunks size zero sum content = none
sum_chunks size (suc fuel) sum [] = some sum
sum_chunks size (suc fuel) sum (c ∷ s) =
    sum_chunks size fuel (rem_1000 (sum_bytes sum (take size (c ∷ s)))) (drop size (c ∷ s))

-- The text of a file; from one that is not there nothing is read.
abbrev pub content_of : Option Text → Text
content_of none = []
content_of (some content) = content

module _ (bufsiz : ℕ) (opens : Text → Bool) where
  write_out : Text → Text → M Server (Unit {0})
  write_out content name s =
      if opens name then done tt (record s { disk = save s.disk name content }) else exited s

  unfoldable pub generate : Text → Text → M Server (Unit {0})
  unfolding verify_and_take write_out
  generate to_write name = do
    task_begins
    id ← verify_and_take name
    write_out to_write name
    release id
    task_ends

  unfoldable pub sum_file : Option Text → Option ℤ
  sum_file found = sum_chunks bufsiz (suc (length (content_of found))) (pos 0) (content_of found)

  -- The two sums are the result; the source keeps them in its locals.
  unfoldable pub checksum : Text → Text → M Server (Option ℤ × Option ℤ)
  unfolding verify_and_take
  checksum name1 name2 = do
    task_begins
    id1 ← verify_and_take name1
    id2 ← verify_and_take name2
    s ← get_state
    release id1
    release id2
    task_ends
    pure (sum_file (s.disk name1), sum_file (s.disk name2))

  sum_up : Text → Text → M Server (Unit {0})
  unfolding checksum add_in_list
  sum_up opp1 opp2 = do add_in_list opp2; add_in_list opp1; sums ← checksum opp1 opp2; pure tt

  write_up : Text → Text → M Server (Unit {0})
  unfolding generate add_in_list
  write_up opp1 opp2 = do add_in_list opp2; generate opp1 opp2

  abbrev pub send : Message → M Server (Unit {0})
  send m = modify (λ s. record s { messages = s.messages ++ m ∷ [] })

  -- The words behind the operation; where one is missing, a variable has no value.
  operands : List Text → Option (Text × Text)
  operands (opp1 ∷ opp2 ∷ rest) = some (opp1, opp2)
  operands (opp1 ∷ []) = none
  operands [] = none

  operate : List Text → M Server (Unit {0})
  unfolding write_up sum_up operands
  operate [] = λ s. fault
  operate (operation ∷ words) = do
    send started
    when (str_eq operation (codes "generate"))
        (do (opp1, opp2) ← deref (operands words); write_up opp1 opp2)
    when (str_eq operation (codes "checksum"))
        (do (opp1, opp2) ← deref (operands words); sum_up opp1 opp2)
    send stopped

  unfoldable pub thread_handler_file : Text → M Server (Unit {0})
  unfolding operate
  thread_handler_file buffer = operate (tokens is_space buffer)
