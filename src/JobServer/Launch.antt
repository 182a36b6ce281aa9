-- ===== src/JobServer/Launch.antt =====
-- How `run` of EXAMS/PART2_lab14/server.c cuts a command line into what `execvp` is given.
use pso_workspace.Base.{
  ℕ, ◌-◌, ◌≡◌, refl, Bool, ◌||◌, Option, none, some, List, [], ◌∷◌, ltb, ◌==◌, if◌then◌else◌,
  length, drop,
}
use pso_workspace.Base.Text.{Text, codes, str_eq, tokens, after_strtok}

-- The delimiters " \n" of strtok_r.
abbrev pub is_delimiter : ℕ → Bool
is_delimiter c = c == 32 || c == 10

-- What `command` points to once strtok_r has ended the first token with a zero.
unfoldable pub command_word : Text → Text
unfolding after_strtok
command_word = after_strtok is_delimiter

unfoldable pub is_script : Text → Bool
is_script word = str_eq (drop (length word - 3) word) (codes ".sh")

-- The program and `args`, ten pointers with the closing NULL; `none` where they overflow.
unfoldable pub prepare : Text → Option (Text × List Text)
unfolding command_word is_script
prepare line =
    let word = command_word line in
    let argv =
      if is_script word
      then codes "/bin/bash" ∷ tokens is_delimiter line
      else tokens is_delimiter line in
    let program = if is_script word then codes "/bin/bash" else word in
    if ltb 9 (length argv) then none else some (program, argv)

prepare_tests :
    (prepare (codes "ls -l\n") ≡ some (codes "ls", codes "ls" ∷ codes "-l" ∷ []))
    × (prepare (codes "a.sh 1")
        ≡ some (codes "/bin/bash", codes "/bin/bash" ∷ codes "a.sh" ∷ codes "1" ∷ []))
    × (prepare (codes "1 2 3 4 5 6 7 8 9 0") ≡ none)
unfolding prepare str_eq tokens
prepare_tests = (refl, refl, refl)
