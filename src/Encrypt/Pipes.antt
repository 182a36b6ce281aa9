-- ===== src/Encrypt/Pipes.antt =====
-- The pipes of EXAMS/encrypted_2023/server.c. `pipe_fd` of `main` is `int [NR_PROC][2][2]`, an array of
-- four ints for each child; init_pip_for_CHILDERN takes the same memory for `int [2][NR_PROC][2]`. The
-- ends that the calls of pipe give are a parameter.
use pso_workspace.Base.{ℕ, zero, suc, ◌+◌, ◌*◌, Option, none, some, ltb, if◌then◌else◌}
use pso_workspace.Base.Shelf.{assign}

pub record Pip : Type 0 where
  pub read_from : ℕ
  pub read_other : ℕ
  pub write_other : ℕ
  pub write_to : ℕ

-- `pipe_fd[i][pipe][head]` in `main`
abbrev pub main_index : ℕ → ℕ → ℕ → ℕ
main_index i pipe head = i * 4 + pipe * 2 + head

-- `pipe_fd[index][pipe][head]` in init_pip_for_CHILDERN
abbrev pub child_index : ℕ → ℕ → ℕ → ℕ → ℕ
child_index nr_proc index pipe head = index * (nr_proc * 2) + pipe * 2 + head

module _ (pipe_end : ℕ → ℕ → ℕ) where
  -- A call of pipe, the first or the second of a round.
  abbrev pub open_pipe : ℕ → ℕ → (ℕ → ℕ) → ℕ → ℕ
  open_pipe i pipe fd =
      assign (assign fd (main_index i pipe 0) (pipe_end (i * 2 + pipe) 0)) (main_index i pipe 1)
        (pipe_end (i * 2 + pipe) 1)

  -- The loop of `main` that creates the pipes, from child `i` on.
  unfoldable pub open_pipes : ℕ → ℕ → (ℕ → ℕ) → ℕ → ℕ
  open_pipes zero i fd = fd
  open_pipes (suc left) i fd = open_pipes left (i + 1) (open_pipe i 1 (open_pipe i 0 fd))

-- A read of the array; `none` is a read outside of it.
unfoldable pub fd_at : (ℕ → ℕ) → ℕ → ℕ → Option ℕ
fd_at fd nr_proc k = if ltb k (nr_proc * 4) then some (fd k) else none

-- init_pip_for_CHILDERN; the child then closes `read_other` and `write_other`.
unfoldable pub init_pip : (ℕ → ℕ) → ℕ → ℕ → Option Pip
init_pip fd nr_proc index = elim (fd_at fd nr_proc (child_index nr_proc index 0 0)) [
  | none ↦ none
  | some a ↦ elim (fd_at fd nr_proc (child_index nr_proc index 0 1)) [
    | none ↦ none
    | some b ↦ elim (fd_at fd nr_proc (child_index nr_proc index 1 0)) [
      | none ↦ none
      | some c ↦ elim (fd_at fd nr_proc (child_index nr_proc index 1 1)) [
        | none ↦ none
        | some d ↦ some (record { read_from = a; read_other = b; write_other = c; write_to = d })
      ]
    ]
  ]
]

-- The ends that `main` means for a child.
abbrev pub own_pip : (ℕ → ℕ) → ℕ → Pip
own_pip fd i = record {
  read_from = fd (main_index i 0 0);
  read_other = fd (main_index i 0 1);
  write_other = fd (main_index i 1 0);
  write_to = fd (main_index i 1 1);
}
