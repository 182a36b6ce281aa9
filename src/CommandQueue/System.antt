-- ===== src/CommandQueue/System.antt =====
-- `main` and the workers of the first program of EXAMS/01_02_2023/server.c as a step relation, with
-- its list and its two semaphores. A step is a wait for a semaphore that succeeds, a post, a test of
-- `finished`, or what a thread does under the mutexes. The workers run the same code: the state counts
-- how many stand at each point of it.
use pso_workspace.Base.{
  ℕ, suc, ◌-◌, ◌<◌, ◌≡◌, Bool, true, false, some, List, [], ◌∷◌, ◌++◌, if◌then◌else◌,
}
use pso_workspace.Base.Shelf.{Shelf, assign, add_item, take_shifted}
use pso_workspace.Base.Text.{Text}

abbrev pub max_commands : ℕ
max_commands = 4

-- The rounds of the loop of `main`.
abbrev pub nr_reads : ℕ
nr_reads = 15

-- `main` before `sem_wait(&take_commands)`, behind it, before the post in its loop, behind the loop with
-- so many posts of `add_commands` left, and at its joins.
pub data Main : Type 0 where
  ready holding telling : Main
  closing : ℕ → Main
  joining : Main

-- How many workers stand before the test of the loop, at `sem_wait(&add_commands)`, behind it, behind
-- the test within the loop, before the post of `take_commands`, and at their end.
pub record Workers : Type 0 where
  pub testing : ℕ
  pub waiting : ℕ
  pub woken : ℕ
  pub cleared : ℕ
  pub posting : ℕ
  pub exited : ℕ

pub record Queue : Type 0 where
  pub commands : Shelf Text
  pub add_commands : ℕ
  pub take_commands : ℕ
  pub finished : Bool
  pub reads : ℕ
  pub main : Main
  pub workers : Workers
  pub received : List Text
  pub taken : List Text

abbrev pub empty_queue : Queue
empty_queue = record {
  commands = record { items = λ i. []; count = 0 };
  add_commands = 0;
  take_commands = max_commands;
  finished = false;
  reads = 0;
  main = ready;
  workers = record { testing = 2; waiting = 0; woken = 0; cleared = 0; posting = 0; exited = 0 };
  received = [];
  taken = [];
}

-- The test `finished`, before the loop's body and within it.
abbrev pub tested : Bool → Workers → Workers
tested b w =
    if b
    then record w { testing = w.testing - 1; exited = suc w.exited }
    else record w { testing = w.testing - 1; waiting = suc w.waiting }

abbrev pub checked : Bool → Workers → Workers
checked b w =
    if b
    then record w { woken = w.woken - 1; exited = suc w.exited }
    else record w { woken = w.woken - 1; cleared = suc w.cleared }

-- The command that a worker takes, and what it leaves. From a full list the loop copies
-- `comands_list[4]`: what stands there is the argument.
unfoldable pub take_command : Text → Shelf Text → Text × Shelf Text
unfolding take_shifted
take_command behind s = take_shifted (record s { items = assign s.items max_commands behind })

pub data QueueStep (s : Queue) : Queue → Type 0 where
  reserve :
      {t : Queue}
      → s.main ≡ ready
      → s.reads < nr_reads
      → 0 < s.take_commands
      → t ≡ record s { take_commands = s.take_commands - 1; main = holding }
      → QueueStep s t
  store :
      {t : Queue} {l : Shelf Text} (command : Text)
      → s.main ≡ holding
      → add_item max_commands s.commands command ≡ some l
      → t ≡ record s { commands = l; main = telling; received = s.received ++ command ∷ [] }
      → QueueStep s t
  tell :
      {t : Queue}
      → s.main ≡ telling
      → t ≡ record s { add_commands = suc s.add_commands; reads = suc s.reads; main = ready }
      → QueueStep s t
  finish :
      {t : Queue}
      → s.main ≡ ready
      → s.reads ≡ nr_reads
      → t ≡ record s { finished = true; main = closing 2 }
      → QueueStep s t
  post :
      {t : Queue} {n : ℕ}
      → s.main ≡ closing (suc n)
      → t ≡ record s { add_commands = suc s.add_commands; main = closing n }
      → QueueStep s t
  join : {t : Queue} → s.main ≡ closing 0 → t ≡ record s { main = joining } → QueueStep s t
  test :
      {t : Queue}
      → 0 < s.workers.testing
      → t ≡ record s { workers = tested s.finished s.workers }
      → QueueStep s t
  wake :
      {t : Queue}
      → 0 < s.workers.waiting
      → 0 < s.add_commands
      → t ≡ record s {
        add_commands = s.add_commands - 1;
        workers = record s.workers { waiting = s.workers.waiting - 1; woken = suc s.workers.woken };
      }
      → QueueStep s t
  check :
      {t : Queue}
      → 0 < s.workers.woken
      → t ≡ record s { workers = checked s.finished s.workers }
      → QueueStep s t
  take :
      {t : Queue} (behind : Text)
      → 0 < s.workers.cleared
      → t ≡ record s {
        commands = (take_command behind s.commands).1;
        workers = record s.workers {
          cleared = s.workers.cleared - 1;
          posting = suc s.workers.posting;
        };
        taken = s.taken ++ (take_command behind s.commands).0 ∷ [];
      }
      → QueueStep s t
  give_back :
      {t : Queue}
      → 0 < s.workers.posting
      → t ≡ record s {
        take_commands = suc s.take_commands;
        workers = record s.workers {
          posting = s.workers.posting - 1;
          testing = suc s.workers.testing;
        };
      }
      → QueueStep s t

pub data Runs (s : Queue) : Queue → Type 0 where
  stop : Runs s s
  further : {t u : Queue} → Runs s t → QueueStep t u → Runs s u
