-- ===== src/TinyShell/Words.antt =====
-- The functions of LAB3/lab3_ex/TINY_SHELL/tiny_shell.c that take texts apart. strtok writes into the
-- text that it cuts: where the program reads that text again, what it then holds is a result.
use mathlib.Core.List.{reverse}
use pso_workspace.Base.{
  ℕ, Bool, ◌||◌, Option, none, some, List, [], ◌∷◌, ltb, ◌==◌, if◌then◌else◌, map, length, take,
  ◌≡◌, refl,
}
use pso_workspace.Base.Text.{Text, str_eq, tokens, is_space, codes, after_strtok}

abbrev pub buffer_size : ℕ
buffer_size = 100

-- `buffer[i] != '\n' && buffer[i] != ' '`
abbrev is_end : ℕ → Bool
is_end c = c == 10 || c == 32

word_at : Text → Text
word_at [] = []
word_at (c ∷ s) = let rest = word_at s in if is_end c then [] else c ∷ rest

-- extract_first_cmd; its copy has 100 bytes with the closing zero, and `none` is a write behind them.
unfoldable pub extract_first_cmd : Text → Option Text
unfolding word_at
extract_first_cmd buffer = if ltb (length (word_at buffer)) 100 then some (word_at buffer) else none

in_front : ℕ → Option Text → Option Text
in_front c none = none
in_front c (some s) = some (c ∷ s)

-- A read that fills the buffer with no newline at the end is closed behind its end.
closed : ℕ → Text → Option Text
unfolding in_front
closed size [] = some []
closed size (c ∷ []) =
    if c == 10 then some [] else if ltb size buffer_size then some (c ∷ []) else none
closed size (c ∷ d ∷ s) = in_front c (closed size (d ∷ s))

-- read_line, on what `read` put into the buffer, which holds no zero.
unfoldable pub read_line : Text → Option Text
unfolding closed
read_line buffer = closed (length buffer) buffer

abbrev pub is_blank : ℕ → Bool
is_blank c = c == 32

-- `args` has ten places, of which the last is for NULL.
abbrev pub max_args : ℕ
max_args = 9

-- What parse_command puts into `args`; its result is the first of them, or NULL.
unfoldable pub parse_command : Text → List Text
parse_command line = take max_args (tokens is_blank line)

abbrev pub first_of : List Text → Option Text
first_of [] = none
first_of (w ∷ ws) = some w

abbrev pub Env : Type 0
Env = Text → Option Text

-- `getenv(name)`, or the argument itself
abbrev or_itself : Text → Option Text → Text
or_itself arg none = arg
or_itself arg (some value) = value

replace_arg : Env → Text → Text
replace_arg env [] = []
replace_arg env (c ∷ name) = if c == b'$' then or_itself (c ∷ name) (env name) else c ∷ name

-- replace_env_variables_in_args
unfoldable pub replace_env : Env → List Text → List Text
unfolding replace_arg
replace_env env args = map (replace_arg env) args

-- `setenv(variable, value, 1)`
abbrev pub set_env : Env → Text → Text → Env
set_env env variable value name = if str_eq variable name then some value else env name

abbrev pub is_equals : ℕ → Bool
is_equals c = c == b'='

set_first_two : Env → List Text → Env
set_first_two env [] = env
set_first_two env (variable ∷ []) = env
set_first_two env (variable ∷ value ∷ rest) = set_env env variable value

-- set_environment_variable
unfoldable pub set_environment_variable : Env → Text → Env
unfolding set_first_two
set_environment_variable env line = set_first_two env (tokens is_equals line)

unfoldable pub skip_spaces : Text → Text
skip_spaces [] = []
skip_spaces (c ∷ s) = let rest = skip_spaces s in if is_space c then rest else c ∷ s

-- The second loop of `trim`, which stops at the first character at the latest.
trim_end : Text → Text
trim_end [] = []
trim_end (c ∷ s) = c ∷ reverse (skip_spaces (reverse s))

unfoldable pub trim : Text → Text
unfolding trim_end skip_spaces
trim str = trim_end (skip_spaces str)

words_tests :
    (read_line (codes "ls\n") ≡ some (codes "ls"))
    × (trim (codes "  a b ") ≡ codes "a b")
    × (extract_first_cmd (codes "ls -l") ≡ some (codes "ls"))
    × (after_strtok is_blank (codes " ls -l x") ≡ codes " ls")
    × (parse_command (codes " ls  -l") ≡ codes "ls" ∷ codes "-l" ∷ [])
unfolding read_line trim extract_first_cmd after_strtok parse_command tokens
words_tests = (refl, refl, refl, refl, refl)
