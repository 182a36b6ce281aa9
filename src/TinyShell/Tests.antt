-- ===== src/TinyShell/Tests.antt =====
-- Lines given to the shell of LAB3/lab3_ex/TINY_SHELL/tiny_shell.c, with calls that all succeed.
use pso_workspace.Base.{ℕ, ◌≡◌, refl, true, false, none, [], ◌∷◌, ◌++◌, arith}
use pso_workspace.Base.Text.{Text, codes, str_eq, tokens}
use pso_workspace.Base.Machine.{done}
use pso_workspace.TinyShell.Words.{
  first_of, parse_command, replace_env, set_environment_variable, trim,
}
use pso_workspace.TinyShell.Shell.{Shell, System, Process, run_line, terminal, pipe_end}
use pso_workspace.TinyShell.Commands.{replace_env-set_environment_variable}
use pso_workspace.TinyShell.Pipes.{run_line_pipe}

abbrev willing : System
willing = record {
  pipe_succeeds = λ n. true;
  fork_succeeds = λ n. true;
  open_succeeds = λ n path. true;
}

abbrev fresh : Shell
fresh = record { env = λ name. none; calls = 0; started = [] }

replace_env-set_environment_variable_example :
    (replace_env
        (set_environment_variable fresh.env (codes "A" ++ b'=' ∷ codes "one"))
        ((b'$' ∷ codes "A") ∷ [])
      ≡ codes "one" ∷ [])
    × ((other : Text)
        → str_eq (codes "A") other ≡ false
        → set_environment_variable fresh.env (codes "A" ++ b'=' ∷ codes "one") other ≡ none)
replace_env-set_environment_variable_example =
    replace_env-set_environment_variable fresh.env (codes "A") (codes "one") (ground arith)
      (ground arith)

parsed :
    (parse_command (trim (codes "ls ")) ≡ codes "ls" ∷ [])
    × (parse_command (trim (codes " wc -l")) ≡ codes "wc" ∷ codes "-l" ∷ [])
    × (parse_command (trim (codes " wc -l ")) ≡ codes "wc" ∷ codes "-l" ∷ [])
    × (parse_command (trim (codes " cat")) ≡ codes "cat" ∷ [])
unfolding parse_command trim tokens
parsed = (refl, refl, refl, refl)

run_line_pipe_example :
    run_line willing (codes "ls " ++ b'|' ∷ codes " wc -l") fresh
    ≡ done false (record fresh {
      calls = 3;
      started =
          record {
            command = first_of (parse_command (trim (codes "ls ")));
            args = replace_env fresh.env (parse_command (trim (codes "ls ")));
            input = terminal;
            output = pipe_end 0;
          }
          ∷ record {
            command = first_of (parse_command (trim (codes " wc -l")));
            args = parse_command (trim (codes " wc -l"));
            input = pipe_end 0;
            output = terminal;
          }
          ∷ [];
    })
run_line_pipe_example =
    run_line_pipe willing fresh (λ n. refl) (λ n. refl) (codes "ls ") (codes " wc -l")
      (ground arith) (ground arith)

abbrev piped : ℕ → Text → Process
piped p line = record {
  command = first_of (parse_command (trim line));
  args = parse_command (trim line);
  input = pipe_end p;
  output = terminal;
}

middle_word : trim (codes " wc -l ") ≡ codes "wc" ++ 32 ∷ codes "-l"
unfolding trim
middle_word = refl
