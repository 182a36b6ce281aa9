-- ===== src/TinyShell/Commands.antt =====
-- Commands and variables of LAB3/lab3_ex/TINY_SHELL/tiny_shell.c.
use pso_workspace.Base.{ℕ, ◌≡◌, refl, false, List, [], ◌∷◌, ◌++◌, take, arith, ◌≢◌}
use pso_workspace.Base.Text.{Text, str_eq, str_eq_refl}
use pso_workspace.Base.Machine.{fault}
use pso_workspace.TinyShell.Words.{
  Env, is_blank, is_equals, max_args, parse_command, replace_env, set_environment_variable,
}
use pso_workspace.TinyShell.Shell.{Shell, System, run_line, contains}
use pso_workspace.Base.Splitting.{
  Fills, IsWord, AreWords, join, tokens-join, tokens-word, tokens-append, tokens-Fills,
}

-- Words that are neither empty nor hold a blank, written with a blank between each two, are parsed
-- to the first nine of them.
pub parse_command-join :
    (ws : List Text) → AreWords is_blank ws → parse_command (join 32 ws) ≡ take max_args ws
unfolding parse_command
parse_command-join ws h = rw (tokens-join is_blank 32 ws refl h)

-- After the line `name=value`, of which neither side is empty or holds an `=`, the argument `$name`
-- is replaced by the value, and each other variable is as it was.
pub replace_env-set_environment_variable :
    (env : Env) (name value : Text)
    → IsWord is_equals name
    → IsWord is_equals value
    → (replace_env (set_environment_variable env (name ++ b'=' ∷ value)) ((b'$' ∷ name) ∷ [])
        ≡ value ∷ [])
      × ((other : Text)
          → str_eq name other ≡ false
          → set_environment_variable env (name ++ b'=' ∷ value) other ≡ env other)
unfolding replace_env set_environment_variable
replace_env-set_environment_variable env name value h k =
    rw (tokens-append is_equals name b'=' value h refl, tokens-word is_equals value k)
      (rw str_eq_refl, λ other ne. rw ne)

Fills-lacks : (c : ℕ) (s : Text) → Fills is_blank s → (c ≢ 32) → contains c s ≡ false
Fills-lacks c [] h ne = refl
Fills-lacks c (d ∷ s) h ne = ground (arith, Fills-lacks c s)

-- A line of blanks, and an empty one, which is also what the end of the input looks like: the
-- program reads through a NULL.
pub run_line_blank :
    (system : System) (s : Text) (shell : Shell)
    → Fills is_blank s
    → run_line system s shell ≡ fault
unfolding run_line parse_command
run_line_blank system s shell h = rw (
  Fills-lacks b'|' s h (λ e. omega arith),
  Fills-lacks b'=' s h (λ e. omega arith),
  Fills-lacks b'>' s h (λ e. omega arith),
  tokens-Fills is_blank s h,
)
