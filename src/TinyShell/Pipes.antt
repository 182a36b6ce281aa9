-- ===== src/TinyShell/Pipes.antt =====
-- Pipes between the commands of a line in LAB3/lab3_ex/TINY_SHELL/tiny_shell.c.
use pso_workspace.Base.{ap, ◌∙◌, ℕ, ◌+◌, ◌≡◌, refl, true, false, List, [], ◌∷◌, ◌++◌, arith}
use pso_workspace.Base.Text.{Text, after_strtok}
use pso_workspace.Base.Machine.{done}
use pso_workspace.TinyShell.Words.{Env, is_blank, parse_command, first_of, replace_env, trim}
use pso_workspace.TinyShell.Shell.{
  Shell, System, Process, run_line, contains, terminal, pipe_end, is_bar, procs_communicate,
}
use pso_workspace.Base.Splitting.{IsWord, tokens-word, tokens-append, after_strtok-append}

contains-append : (c : ℕ) (s t : Text) → contains c (s ++ c ∷ t) ≡ true
contains-append c [] t = ground arith
contains-append c (d ∷ s) t = ground (arith, contains-append c s t)

-- The two children of a pipe, whose number is `p`.
abbrev writer : Env → ℕ → List Text → Process
writer env p args = record {
  command = first_of args;
  args = replace_env env args;
  input = terminal;
  output = pipe_end p;
}

abbrev reader : ℕ → List Text → Process
reader p args = record {
  command = first_of args;
  args = args;
  input = pipe_end p;
  output = terminal;
}

module _ (system : System) (shell : Shell) (pipes : (n : ℕ) → system.pipe_succeeds n ≡ true)
    (forks : (n : ℕ) → system.fork_succeeds n ≡ true) where
  procs_communicate_lem :
      (args args2 : List Text) (s : Shell)
      → procs_communicate system args args2 s
        ≡ done tt (record s {
          calls = s.calls + 3;
          started = (s.started ++ writer s.env s.calls args ∷ []) ++ reader s.calls args2 ∷ [];
        })
  unfolding procs_communicate
  procs_communicate_lem args args2 s =
      ground (arith, pipes s.calls, forks (s.calls + 1), forks (s.calls + 2))

  -- A line of two commands with one `|`, where pipe and fork succeed: two children are started, the
  -- first with its words as arguments and its variables replaced, the second with its words as they
  -- are, and the output of the first goes to the input of the second.
  pub run_line_pipe :
      (left right : Text)
      → IsWord is_bar left
      → IsWord is_bar right
      → run_line system (left ++ b'|' ∷ right) shell
        ≡ done false (record shell {
          calls = shell.calls + 3;
          started =
              (shell.started ++ writer shell.env shell.calls (parse_command (trim left)) ∷ [])
              ++ reader shell.calls (parse_command (trim right)) ∷ [];
        })
  unfolding run_line
  run_line_pipe left right h k = rw (
    contains-append b'|' left right,
    tokens-append is_bar left b'|' right h refl,
    tokens-word is_bar right k,
    procs_communicate_lem (parse_command (trim left)) (parse_command (trim right)) shell,
  )

  parse_again :
      (w rest : Text)
      → IsWord is_blank w
      → parse_command (after_strtok is_blank (w ++ 32 ∷ rest)) ≡ w ∷ []
  unfolding parse_command
  parse_again w rest h =
      rw (after_strtok-append is_blank w 32 rest h refl, tokens-word is_blank w h)

  -- A line of three commands, where the middle one is the word `w` and more behind a blank: it is
  -- started twice, the second time without its arguments, and the two pipes are not connected.
  pub run_line_three :
      (left middle right w rest : Text)
      → IsWord is_bar left
      → IsWord is_bar middle
      → IsWord is_bar right
      → trim middle ≡ w ++ 32 ∷ rest
      → IsWord is_blank w
      → run_line system (left ++ b'|' ∷ (middle ++ b'|' ∷ right)) shell
        ≡ done false (record shell {
          calls = (shell.calls + 3) + 3;
          started =
              (((shell.started ++ writer shell.env shell.calls (parse_command (trim left)) ∷ [])
                  ++ reader shell.calls (parse_command (trim middle)) ∷ [])
                ++ writer shell.env (shell.calls + 3) (w ∷ []) ∷ [])
              ++ reader (shell.calls + 3) (parse_command (trim right)) ∷ [];
        })
  unfolding run_line
  run_line_three left middle right w rest h k l e word = rw (
    contains-append b'|' left (middle ++ b'|' ∷ right),
    tokens-append is_bar left b'|' (middle ++ b'|' ∷ right) h refl,
    tokens-append is_bar middle b'|' right k refl,
    tokens-word is_bar right l,
    ap (λ m. parse_command (after_strtok is_blank m)) e ∙ parse_again w rest word,
    procs_communicate_lem (parse_command (trim left)) (parse_command (trim middle)) shell,
    procs_communicate_lem (w ∷ []) (parse_command (trim right)) (once (trim left) (trim middle)),
  )
    where
      once : Text → Text → Shell
      once a b = record shell {
        calls = shell.calls + 3;
        started =
            (shell.started ++ writer shell.env shell.calls (parse_command a) ∷ [])
            ++ reader shell.calls (parse_command b) ∷ [];
      }
