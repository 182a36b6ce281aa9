-- ===== src/Base/Text.antt =====
-- C strings without their closing zero, as lists of character codes, and what the servers use of
-- string.h and stdlib.h on them: strcmp, strchr, strtok and atoi.
use Prim.Native.Char.{code}
use Prim.Native.String.{String}
use Prim.Native.Nat.{ℕ, zero, suc, ◌+◌, ◌-◌, ◌*◌, ◌/◌, ◌%◌}
use mathlib.Core.Path.{◌≡◌, refl}
use mathlib.Core.Logic.{◌↔◌}
use mathlib.Core.Bool.{Bool, true, false, ◌&&◌, ◌||◌}
use mathlib.Core.Option.{Option, none, some}
use mathlib.Core.List.{List, [], ◌∷◌, ◌++◌}
use native.Mathlib.Omega.{arith}
use pso_workspace.Base.Tests.{◌==◌, leb, ltb, if◌then◌else◌}
use pso_workspace.Base.Integers.{ℤ, pos, neg_ℤ}

abbrev pub Text : Type 0
Text = List ℕ

abbrev pub codes : String → Text
codes String.[] = []
codes (String.◌∷◌ c s) = code c ∷ codes s

-- `strcmp(s, t) == 0`
unfoldable pub str_eq : Text → Text → Bool
str_eq [] [] = true
str_eq [] (d ∷ t) = false
str_eq (c ∷ s) [] = false
str_eq (c ∷ s) (d ∷ t) = c == d && str_eq s t

pub str_eq_iff : (s t : Text) → (str_eq s t ≡ true) ↔ (s ≡ t)
unfolding str_eq
str_eq_iff [] [] = ground arith
str_eq_iff [] (d ∷ t) = ground arith
str_eq_iff (c ∷ s) [] = ground arith
str_eq_iff (c ∷ s) (d ∷ t) = ground (arith, str_eq_iff s t)

pub str_eq_refl : (s : Text) → str_eq s s ≡ true
str_eq_refl s = (str_eq_iff s s).1 refl

-- What stands before the first `c`, and what stands behind it: `strchr` and the write of a zero.
unfoldable pub cut : ℕ → Text → Text × Option Text
cut c [] = ([], none)
cut c (d ∷ s) =
    let (before, after) = cut c s in if d == c then ([], some s) else (d ∷ before, after)

abbrev keep : Text → List Text → List Text
keep [] ts = ts
keep (c ∷ t) ts = (c ∷ t) ∷ ts

-- The token that is open at the start of the text, and the tokens behind it.
unfoldable pub split : (ℕ → Bool) → Text → Text × List Text
split p [] = ([], [])
split p (c ∷ s) = let (t, ts) = split p s in if p c then ([], keep t ts) else (c ∷ t, ts)

-- All that repeated `strtok` calls return: the non-empty runs of characters that are no delimiters.
unfoldable pub tokens : (ℕ → Bool) → Text → List Text
unfolding split
tokens p s = let (t, ts) = split p s in keep t ts

unfoldable pub token_run : (ℕ → Bool) → Text → Text
token_run p [] = []
token_run p (c ∷ s) = let rest = token_run p s in if p c then [] else c ∷ rest

-- What a text reads as once strtok has put a zero behind its first token.
unfoldable pub after_strtok : (ℕ → Bool) → Text → Text
unfolding token_run
after_strtok p [] = []
after_strtok p (c ∷ s) = let rest = after_strtok p s in if p c then c ∷ rest else c ∷ token_run p s

abbrev pub is_digit : ℕ → Bool
is_digit c = leb b'0' c && leb c b'9'

-- `isspace` in the C locale
abbrev pub is_space : ℕ → Bool
is_space c = c == 32 || (leb 9 c && leb c 13)

unfoldable pub digits_value : ℕ → Text → ℕ
digits_value n [] = n
digits_value n (c ∷ s) = if is_digit c then digits_value (n * 10 + (c - b'0')) s else n

-- `atoi` of a value that an `int` holds
unfoldable pub atoi : Text → ℤ
unfolding digits_value
atoi [] = pos 0
atoi (c ∷ s) =
    if is_space c
    then atoi s
    else if c == b'-'
    then neg_ℤ (pos (digits_value 0 s))
    else if c == b'+'
    then pos (digits_value 0 s)
    else pos (digits_value 0 (c ∷ s))

-- `%d` of a number that is not negative; ten digits are enough for an int.
unfoldable pub decimal : ℕ → ℕ → Text
decimal zero n = []
decimal (suc fuel) n =
    let rest = decimal fuel (n / 10) in (if ltb n 10 then [] else rest) ++ (n % 10 + 48) ∷ []

atoi_tests :
    (atoi (codes " 42x") ≡ pos 42)
    × (atoi (codes "-7") ≡ ℤ.negsuc 6)
    × (tokens is_space (codes " ls  -l ") ≡ codes "ls" ∷ codes "-l" ∷ [])
    × (cut 32 (codes "run ls -l") ≡ (codes "run", some (codes "ls -l")))
unfolding atoi tokens cut
atoi_tests = (refl, refl, refl, refl)
