-- ===== src/TinyShell/Shell.antt =====
-- What LAB3/lab3_ex/TINY_SHELL/tiny_shell.c does with a line. The program that a child executes, its
-- arguments and where its input and output go are the result; whether a call of pipe, fork or open
-- succeeds is a parameter, by the number of such calls before it.
use pso_workspace.Base.{
  ℕ, suc, Bool, true, false, ◌||◌, Option, none, some, List, [], ◌∷◌, ◌++◌, ltb, ◌==◌,
  if◌then◌else◌, map, length,
}
use pso_workspace.Base.Text.{Text, codes, str_eq, tokens, after_strtok}
use pso_workspace.Base.Machine.{M, exited, fault, ◌>>=◌, ◌>>◌, pure, get_state, modify, deref}
use pso_workspace.TinyShell.Words.{
  Env, is_blank, parse_command, first_of, replace_env, set_environment_variable, trim, read_line,
}

pub data Channel : Type 0 where
  terminal : Channel
  pipe_end : ℕ → Channel
  file : Text → Channel

-- What a child passes to `execvp`, with its standard input and output.
pub record Process : Type 0 where
  pub command : Option Text
  pub args : List Text
  pub input : Channel
  pub output : Channel

pub record Shell : Type 0 where
  pub env : Env
  pub calls : ℕ
  pub started : List Process

pub record System : Type 0 where
  pub pipe_succeeds : ℕ → Bool
  pub fork_succeeds : ℕ → Bool
  pub open_succeeds : ℕ → Text → Bool

abbrev pub contains : ℕ → Text → Bool
contains c [] = false
contains c (d ∷ s) = d == c || contains c s

abbrev pub is_bar : ℕ → Bool
is_bar c = c == b'|'

abbrev pub is_greater : ℕ → Bool
is_greater c = c == b'>'

abbrev pub exit_failure : {A : Type 0} → M Shell A
exit_failure s = exited s

abbrev pub crash : {A : Type 0} → M Shell A
crash s = fault

-- The number of the call, which is then counted.
abbrev pub next_call : M Shell ℕ
next_call = do s ← get_state; modify (λ t. record t { calls = suc t.calls }); pure s.calls

abbrev pub start : Process → M Shell (Unit {0})
start p = modify (λ s. record s { started = s.started ++ p ∷ [] })

abbrev pub or_exit : Bool → M Shell (Unit {0})
or_exit true = pure tt
or_exit false = exit_failure

module _ (system : System) where
  unfoldable pub normal_execution : Text → List Text → M Shell (Unit {0})
  normal_execution command args = do
    n ← next_call
    s ← get_state
    if system.fork_succeeds n
        then start (record {
          command = some command;
          args = replace_env s.env args;
          input = terminal;
          output = terminal;
        })
        else pure tt

  -- The second child replaces the variables in the first one's arguments.
  unfoldable pub procs_communicate : List Text → List Text → M Shell (Unit {0})
  procs_communicate args args2 = do
    p ← next_call
    or_exit (system.pipe_succeeds p)
    n ← next_call
    or_exit (system.fork_succeeds n)
    s ← get_state
    start (record {
      command = first_of args;
      args = replace_env s.env args;
      input = terminal;
      output = pipe_end p;
    })
    m ← next_call
    or_exit (system.fork_succeeds m)
    start (record { command = first_of args2; args = args2; input = pipe_end p; output = terminal })

  -- The loop of parse_pipes_commands. Each command but the first and the last is parsed twice, the
  -- second time as strtok has left it.
  unfoldable pub pair_loop : Text → List Text → M Shell (Unit {0})
  unfolding procs_communicate
  pair_loop command [] = pure tt
  pair_loop command (next ∷ rest) = do
    procs_communicate (parse_command command) (parse_command next)
    pair_loop (after_strtok is_blank next) rest

  pair_commands : List Text → M Shell (Unit {0})
  unfolding pair_loop
  pair_commands [] = pure tt
  pair_commands (command ∷ rest) = pair_loop command rest

  -- `commands__` has ten places, of which the last is for NULL.
  unfoldable pub parse_pipes_commands : Text → M Shell (Unit {0})
  unfolding pair_commands
  parse_pipes_commands line =
      let commands = map trim (tokens is_bar line) in
      if ltb (length commands) 10 then pair_commands commands else crash

  -- Both NULLs that strtok may return are faults in `trim`.
  redirect : List Text → M Shell (Unit {0})
  redirect [] = crash
  redirect (command ∷ []) = crash
  redirect (command ∷ path ∷ rest) = do
    o ← next_call
    or_exit (system.open_succeeds o (trim path))
    n ← next_call
    or_exit (system.fork_succeeds n)
    s ← get_state
    start (record {
      command = first_of (parse_command (trim command));
      args = replace_env s.env (parse_command (trim command));
      input = terminal;
      output = file (trim path);
    })

  unfoldable pub redirect_output : Text → M Shell (Unit {0})
  unfolding redirect
  redirect_output line = redirect (tokens is_greater line)

  -- The end of a round of `main`; `true` is its `break`.
  command_line : List Text → M Shell Bool
  unfolding normal_execution
  command_line args = do
    command ← deref (first_of args)
    if str_eq command (codes "exit")
        then pure true
        else (do normal_execution command args; pure false)

  -- A round of `main`, on the line that read_line returned.
  unfoldable pub run_line : Text → M Shell Bool
  unfolding parse_pipes_commands redirect_output command_line
  run_line line =
      if contains b'|' line
      then (do parse_pipes_commands line; pure false)
      else if contains b'=' line
      then (do modify (λ s. record s { env = set_environment_variable s.env line }); pure false)
      else if contains b'>' line
      then (do redirect_output line; pure false)
      else command_line (parse_command line)

  -- The loop of `main`, on what the calls of `read` return; `none` is -1.
  unfoldable pub shell_loop : List (Option Text) → M Shell (Unit {0})
  shell_loop [] = pure tt
  shell_loop (none ∷ reads) = exit_failure
  shell_loop (some buffer ∷ reads) = do
    line ← deref (read_line buffer)
    stop ← run_line line
    let rest = shell_loop reads
    if stop then pure tt else rest
