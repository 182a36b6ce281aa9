-- ===== src/CommandQueue/Pipe.antt =====
-- The commands that the children of the first program of EXAMS/01_02_2023/server.c write into the
-- pipe, and the reads of 18 bytes by which `main` takes them out. What `rand` returns is an argument.
use pso_workspace.Base.{
  ℕ, zero, suc, ◌+◌, ◌/◌, ◌%◌, ◌≤◌, ◌<◌, ◌≡◌, refl, ap, List, [], ◌∷◌, ◌++◌, map, length, take,
  drop, length-append, length-map, arith,
}
use pso_workspace.Base.Text.{Text, decimal}

abbrev letter : ℕ → ℕ
letter r = r % 57 + 65

-- generate_command, for a pid, a random number for the code and ten for the parameter
unfoldable pub generate_command : ℕ → ℕ → List ℕ → Text
generate_command pid r letters =
    decimal 10 pid ++ (32 ∷ (decimal 10 (r % 3 + 1) ++ (32 ∷ map letter letters)))

abbrev pub command_size : ℕ
command_size = 18

-- The rounds of `main`, `n` of them, on what is in the pipe.
unfoldable pub read_commands : ℕ → Text → List Text
read_commands zero pipe = []
read_commands (suc n) pipe = take command_size pipe ∷ read_commands n (drop command_size pipe)

-- What the writes leave in the pipe.
abbrev pub written : List Text → Text
written [] = []
written (command ∷ commands) = command ++ written commands

take-append : (n : ℕ) (s t : Text) → length s ≡ n → take n (s ++ t) ≡ s
take-append zero [] t h = refl
take-append zero (c ∷ s) t h = absurd (omega arith)
take-append (suc n) [] t h = absurd (omega arith)
take-append (suc n) (c ∷ s) t h = ap (◌∷◌ c) (take-append n s t (omega arith))

drop-append : (n : ℕ) (s t : Text) → length s ≡ n → drop n (s ++ t) ≡ t
drop-append zero [] t h = refl
drop-append zero (c ∷ s) t h = absurd (omega arith)
drop-append (suc n) [] t h = absurd (omega arith)
drop-append (suc n) (c ∷ s) t h = drop-append n s t (omega arith)

-- A child's command: its pid has five digits, and the parameter ten letters.
pub record Generated : Type 0 where
  pub pid : ℕ
  pub code : ℕ
  pub letters : List ℕ
  pub five_digits : (10000 ≤ pid) × (pid < 100000)
  pub ten_letters : length letters ≡ 10

abbrev pub command_of : Generated → Text
command_of g = generate_command g.pid g.code g.letters

length-decimal_more :
    (fuel n : ℕ) → 10 ≤ n → length (decimal (suc fuel) n) ≡ suc (length (decimal fuel (n / 10)))
unfolding decimal
length-decimal_more fuel n h =
    ground (arith, length-append (decimal fuel (n / 10)) ((n % 10 + 48) ∷ []))

length-decimal_one : (fuel n : ℕ) → n < 10 → length (decimal (suc fuel) n) ≡ 1
unfolding decimal
length-decimal_one fuel n h = ground arith

length-decimal_five : (n : ℕ) → 10000 ≤ n → n < 100000 → length (decimal 10 n) ≡ 5
length-decimal_five n h k = omega (
  arith,
  length-decimal_more 9 n,
  length-decimal_more 8 (n / 10),
  length-decimal_more 7 (n / 10 / 10),
  length-decimal_more 6 (n / 10 / 10 / 10),
  length-decimal_one 5 (n / 10 / 10 / 10 / 10),
)

length-command_of : (g : Generated) → length (command_of g) ≡ command_size
unfolding generate_command
length-command_of g = omega (
  arith,
  length-decimal_five g.pid g.five_digits.0 g.five_digits.1,
  length-decimal_one 9 (g.code % 3 + 1),
  length-map g.letters letter,
  length-append (decimal 10 g.pid)
      (32 ∷ (decimal 10 (g.code % 3 + 1) ++ (32 ∷ map letter g.letters))),
  length-append (decimal 10 (g.code % 3 + 1)) (32 ∷ map letter g.letters),
  g.ten_letters,
)

-- Commands of children whose pids have five digits, written one after the other in any order, are
-- read as they were written.
pub read_commands-written :
    (gs : List Generated)
    → read_commands (length gs) (written (map command_of gs)) ≡ map command_of gs
unfolding read_commands
read_commands-written [] = refl
read_commands-written (g ∷ gs) = rw (
  take-append command_size (command_of g) (written (map command_of gs)) (length-command_of g),
  drop-append command_size (command_of g) (written (map command_of gs)) (length-command_of g),
  read_commands-written gs,
)
