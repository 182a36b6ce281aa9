-- ===== src/CommandQueue/Tests.antt =====
-- Runs of the first program of EXAMS/01_02_2023/server.c with four commands, none of them taken, and
-- with one that is left over.
use pso_workspace.Base.{
  ℕ, List, ◌+◌, ◌-◌, ◌≡◌, ◌≢◌, ◌<◌, refl, true, false, none, [], ◌∷◌, ◌++◌, map, arith, suc, zero,
}
use pso_workspace.Base.Text.{decimal, Text, codes}
use pso_workspace.Base.Shelf.{assign, pending, listed, add_item}
use pso_workspace.CommandQueue.System.{
  Queue, empty_queue, max_commands, reserve, store, tell, test, wake, check, Runs, stop, further,
  ready, joining, holding,
}
use pso_workspace.CommandQueue.Pipe.{
  Generated, command_of, written, read_commands, read_commands-written, generate_command,
}
use pso_workspace.CommandQueue.Order.{
  IsBalanced, reserved, commands_in_order, accesses_safe, commands_lost,
}

abbrev line : Text
line = codes "12345 1 ABCDEFGHIJ"

abbrev stored : ℕ → ℕ → Text
stored zero = λ i. []
stored (suc n) = assign (stored n) n line

abbrev full_queue : Queue
full_queue = record empty_queue {
  commands = record { items = stored 4; count = 4 };
  add_commands = 4;
  take_commands = 0;
  reads = 4;
  received = line ∷ line ∷ line ∷ line ∷ [];
}

-- The list once `main` has stored so many commands.
abbrev queue_of : ℕ → List Text → Queue
queue_of n lines = record empty_queue {
  commands = record { items = stored n; count = n };
  add_commands = n;
  take_commands = max_commands - n;
  reads = n;
  received = lines;
}

one_stored : Runs empty_queue (queue_of 1 (line ∷ []))
unfolding add_item
one_stored =
    further
      (further (further stop (reserve refl (omega arith) (omega arith) refl))
        (store line refl refl refl))
      (tell refl refl)

-- Four rounds of the loop of `main`.
full_reached : Runs empty_queue full_queue
unfolding add_item
full_reached =
    let r1 : Runs empty_queue (queue_of 1 (line ∷ [])) = one_stored in
    let r2 : Runs empty_queue (queue_of 2 (line ∷ line ∷ [])) =
      further
        (further (further r1 (reserve refl (omega arith) (omega arith) refl))
          (store line refl refl refl))
        (tell refl refl) in
    let r3 : Runs empty_queue (queue_of 3 (line ∷ line ∷ line ∷ [])) =
      further
        (further (further r2 (reserve refl (omega arith) (omega arith) refl))
          (store line refl refl refl))
        (tell refl refl) in
    further
      (further (further r3 (reserve refl (omega arith) (omega arith) refl))
        (store line refl refl refl))
      (tell refl refl)

commands_in_order_example :
    (full_queue.received ≡ [] ++ listed full_queue.commands)
    × (0 + reserved ready + 0 + 4 ≡ max_commands)
    × (full_queue.finished ≡ false → 4 + 0 + 0 + 0 ≡ full_queue.commands.count)
commands_in_order_example = commands_in_order full_reached

-- A worker is about to take the only command, and `main` is about to store another.
abbrev both_queue : Queue
both_queue = record (queue_of 1 (line ∷ [])) {
  add_commands = 0;
  take_commands = 2;
  main = holding;
  workers = record { testing = 1; waiting = 0; woken = 0; cleared = 1; posting = 0; exited = 0 };
}

both_reached : Runs empty_queue both_queue
both_reached =
    further
      (further
        (further (further one_stored (test (omega arith) refl))
          (wake (omega arith) (omega arith) refl))
        (check (omega arith) refl))
      (reserve refl (omega arith) (omega arith) refl)

accesses_safe_example :
    (holding ≡ holding → add_item max_commands both_queue.commands line ≢ none)
    × (0 < both_queue.workers.cleared → 0 < both_queue.commands.count)
accesses_safe_example = accesses_safe line both_reached

-- A command is left, and one of the posts of `main` has woken a worker.
abbrev late_queue : Queue
late_queue = record empty_queue {
  commands = record { items = stored 1; count = 1 };
  add_commands = 3;
  take_commands = 3;
  finished = true;
  reads = 15;
  main = joining;
  workers = record { testing = 0; waiting = 2; woken = 0; cleared = 0; posting = 0; exited = 0 };
  received = line ∷ [];
}

late-IsBalanced : IsBalanced late_queue
unfolding pending
late-IsBalanced = record {
  places = refl;
  supplied = λ h. cc;
  promised = omega arith;
  ended = refl;
  order = refl;
}

abbrev later_queue : Queue
later_queue = record late_queue {
  add_commands = 2;
  workers = record { testing = 0; waiting = 1; woken = 0; cleared = 0; posting = 0; exited = 1 };
}

late_run : Runs late_queue later_queue
late_run = further (further stop (wake (omega arith) (omega arith) refl)) (check (omega arith) refl)

commands_lost_example : later_queue.taken ≡ []
commands_lost_example = commands_lost late-IsBalanced refl refl late_run

-- Two children, with the codes 1 and 3.
abbrev first_child : Generated
first_child = record {
  pid = 12345;
  code = 0;
  letters = 0 ∷ 1 ∷ 2 ∷ 3 ∷ 4 ∷ 5 ∷ 6 ∷ 7 ∷ 8 ∷ 9 ∷ [];
  five_digits = omega arith;
  ten_letters = refl;
}

abbrev second_child : Generated
second_child = record first_child { pid = 54321; code = 2; five_digits = omega arith }

read_commands-written_example :
    read_commands 2 (written (map command_of (first_child ∷ second_child ∷ [])))
    ≡ map command_of (first_child ∷ second_child ∷ [])
read_commands-written_example = read_commands-written (first_child ∷ second_child ∷ [])

first_command : command_of first_child ≡ line
unfolding generate_command decimal
first_command = refl
