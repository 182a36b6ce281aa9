-- ===== src/TinyShell/Trimming.antt =====
-- What `trim` of LAB3/lab3_ex/TINY_SHELL/tiny_shell.c leaves.
use mathlib.Core.List.{reverse, reverse-append, reverse-cons, reverse-reverse}
use pso_workspace.Base.{◌≡◌, refl, false, [], ◌∷◌, ◌++◌, ℕ}
use pso_workspace.Base.Text.{Text, is_space}
use pso_workspace.TinyShell.Words.{skip_spaces, trim}
use pso_workspace.Base.Splitting.{Fills}

-- The text does not begin with a space.
abbrev pub StartsTight : Text → Type 0
StartsTight [] = Unit
StartsTight (c ∷ s) = is_space c ≡ false

-- Nor does it end with one.
abbrev pub IsTight : Text → Type 0
IsTight w = StartsTight w × StartsTight (reverse w)

skip_spaces-Fills : (a s : Text) → Fills is_space a → skip_spaces (a ++ s) ≡ skip_spaces s
unfolding skip_spaces
skip_spaces-Fills [] s h = refl
skip_spaces-Fills (c ∷ a) s h = rw h.0 (skip_spaces-Fills a s h.1)

skip_spaces-tight : (s : Text) → StartsTight s → skip_spaces s ≡ s
unfolding skip_spaces
skip_spaces-tight [] h = refl
skip_spaces-tight (c ∷ s) h = rw h

Fills-append : (a b : Text) → Fills is_space a → Fills is_space b → Fills is_space (a ++ b)
Fills-append [] b h k = k
Fills-append (c ∷ a) b h k = (h.0, Fills-append a b h.1 k)

reverse-Fills : (a : Text) → Fills is_space a → Fills is_space (reverse a)
reverse-Fills [] h = tt
reverse-Fills (c ∷ a) h =
    rw reverse-cons (Fills-append (reverse a) (c ∷ []) (reverse-Fills a h.1) (h.0, tt))

StartsTight-front : (l : Text) (c : ℕ) → StartsTight (l ++ c ∷ []) → StartsTight l
StartsTight-front [] c h = tt
StartsTight-front (d ∷ l) c h = h

-- A text of spaces is skipped as a whole.
skip_spaces-all : (a : Text) → Fills is_space a → skip_spaces a ≡ []
unfolding skip_spaces
skip_spaces-all [] h = refl
skip_spaces-all (c ∷ a) h = rw h.0 (skip_spaces-all a h.1)

-- `trim` of a text with spaces around it, where the text neither begins nor ends with one, leaves
-- the text.
pub trim_lem :
    (a w b : Text) → Fills is_space a → Fills is_space b → IsTight w → trim (a ++ (w ++ b)) ≡ w
unfolding trim
trim_lem a [] b h k t = rw (skip_spaces-Fills a b h, skip_spaces-all b k)
trim_lem a (c ∷ w) b h k t =
    let tight : StartsTight (reverse w) =
      StartsTight-front (reverse w) c (rw (← reverse-cons c w) t.1) in
    rw (
      skip_spaces-Fills a (c ∷ (w ++ b)) h,
      skip_spaces-tight (c ∷ (w ++ b)) t.0,
      reverse-append w b,
      skip_spaces-Fills (reverse b) (reverse w) (reverse-Fills b k),
      skip_spaces-tight (reverse w) tight,
      reverse-reverse w,
    )
