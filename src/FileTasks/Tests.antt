-- ===== src/FileTasks/Tests.antt =====
-- Lines and runs of EXAMS/30.01.2023/server.c with a file `a`.
use pso_workspace.Base.{ℕ, ◌+◌, ◌<◌, ◌≡◌, ◌≢◌, refl, true, none, some, List, [], ◌∷◌, ◌++◌, arith}
use pso_workspace.Base.Text.{Text, codes, str_eq, tokens}
use pso_workspace.Base.Integers.{ℤ, pos, negsuc, pos_part, neg_part, ◌+ℤ◌}
use pso_workspace.Base.Shelf.{assign}
use pso_workspace.Base.Machine.{done}
use pso_workspace.FileTasks.Files.{
  Files, Server, find_file, verify_existency, insert_file, add_in_list, set_flag, generate,
  sum_chunks, save, thread_handler_file, started, stopped,
}
use pso_workspace.FileTasks.Tasks.{total, Congruent, sum_chunks_lem}
use pso_workspace.FileTasks.System.{
  Work, no_work, Works, seek_missing, insert, look, take, stop, further,
}
use pso_workspace.FileTasks.Sharing.{holders, files_exclusive}

abbrev one_file : Files
one_file = record {
  use_flag = assign (λ i. 0) 0 0;
  filename = assign (λ i. []) 0 (codes "a");
  list_counter = 1;
}

abbrev server : Server
server = record { files = one_file; current_tasks = 0; disk = λ path. none; messages = [] }

-- A file of the bytes 97, 255 and 98.
abbrev some_bytes : Text
some_bytes = 97 ∷ 255 ∷ 98 ∷ []

sum_chunks_lem_example :
    (r : ℤ) × (sum_chunks 2 4 (pos 0) some_bytes ≡ some r)
    × (pos_part r + neg_part r < 1000)
    × Congruent r (total some_bytes)
sum_chunks_lem_example = sum_chunks_lem 2 4 some_bytes (omega arith) (omega arith)

bytes_summed :
    (sum_chunks 2 4 (pos 0) some_bytes ≡ some (pos 194))
    × (sum_chunks 8 2 (pos 0) (255 ∷ []) ≡ some (negsuc 0))
unfolding sum_chunks ◌+ℤ◌
bytes_summed = (refl, refl)

-- The file is added and taken.
abbrev at_work : Work
at_work = record no_work { files = set_flag 0 1 one_file; holding = (codes "a", 0) ∷ [] }

at_work_reached : Works no_work at_work
unfolding insert_file verify_existency find_file str_eq
at_work_reached =
    further
      (further
        (further (further stop (seek_missing (codes "a") refl refl))
          (insert (codes "a") [] [] refl refl refl))
        (look (codes "a") [] [] refl refl))
      (take (codes "a") 0 [] [] refl refl refl)

files_exclusive_example :
    ((name : Text) (i j : ℕ) (xs ys zs : List (Text × ℕ))
      → at_work.holding ≢ xs ++ (name, i) ∷ (ys ++ (name, j) ∷ zs))
    × ((i : ℕ) → at_work.files.use_flag i ≡ holders i at_work.holding)
files_exclusive_example = files_exclusive at_work_reached

handled :
    thread_handler_file 8192 (λ path. true) (codes "generate x b") server
    ≡ done tt (record server {
      files = set_flag 1 0 (
          set_flag 1 1 (record {
            use_flag = assign one_file.use_flag 1 0;
            filename = assign one_file.filename 1 (codes "b");
            list_counter = 2;
          }));
      disk = save (λ path. none) (codes "b") (codes "x");
      messages = started ∷ stopped ∷ [];
    })
unfolding thread_handler_file tokens add_in_list generate verify_existency find_file str_eq
    insert_file
handled = refl
