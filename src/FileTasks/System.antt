-- ===== src/FileTasks/System.antt =====
-- Threads of EXAMS/30.01.2023/server.c at work on files at the same time, as a step relation. A step
-- is what a thread does while it holds `mutex_list`: a search, an addition to the list, a flag that is
-- taken or given back. The lists of the state hold the files of the threads at each point between
-- these, with the index where the search has given it; which thread is whose does not matter.
use pso_workspace.Base.{ℕ, ◌≡◌, ◌≢◌, some, List, [], ◌∷◌, ◌++◌}
use pso_workspace.Base.Text.{Text}
use pso_workspace.FileTasks.Files.{Files, no_files, verify_existency, insert_file, set_flag}

pub record Work : Type 0 where
  pub files : Files
  pub missing : List Text
  pub added : List Text
  pub waiting : List (Text × ℕ)
  pub holding : List (Text × ℕ)

abbrev pub no_work : Work
no_work = record { files = no_files; missing = []; added = []; waiting = []; holding = [] }

pub data WorkStep (w : Work) : Work → Type 0 where
  seek_found :
      {u : Work} (name : Text)
      → verify_existency w.files name ≢ 0
      → u ≡ record w { added = name ∷ w.added }
      → WorkStep w u
  seek_missing :
      {u : Work} (name : Text)
      → verify_existency w.files name ≡ 0
      → u ≡ record w { missing = name ∷ w.missing }
      → WorkStep w u
  insert :
      {u : Work} {f : Files} (name : Text) (xs ys : List Text)
      → w.missing ≡ xs ++ name ∷ ys
      → insert_file w.files name ≡ some f
      → u ≡ record w { files = f; missing = xs ++ ys; added = name ∷ w.added }
      → WorkStep w u
  look :
      {u : Work} (name : Text) (xs ys : List Text)
      → w.added ≡ xs ++ name ∷ ys
      → u
        ≡ record w { added = xs ++ ys; waiting = (name, verify_existency w.files name) ∷ w.waiting }
      → WorkStep w u
  take :
      {u : Work} (name : Text) (id : ℕ) (xs ys : List (Text × ℕ))
      → w.waiting ≡ xs ++ (name, id) ∷ ys
      → w.files.use_flag id ≡ 0
      → u ≡ record w {
        files = set_flag id 1 w.files;
        waiting = xs ++ ys;
        holding = (name, id) ∷ w.holding;
      }
      → WorkStep w u
  release :
      {u : Work} (name : Text) (id : ℕ) (xs ys : List (Text × ℕ))
      → w.holding ≡ xs ++ (name, id) ∷ ys
      → u ≡ record w { files = set_flag id 0 w.files; holding = xs ++ ys }
      → WorkStep w u

pub data Works (w : Work) : Work → Type 0 where
  stop : Works w w
  further : {u v : Work} → Works w u → WorkStep u v → Works w v
