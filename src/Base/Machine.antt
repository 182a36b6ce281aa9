-- ===== src/Base/Machine.antt =====
-- How a C function ends, as a monad over the program's state: it returns, it waits for ever on a
-- mutex or a semaphore, it makes a memory access that C leaves undefined, or it calls `exit`.
use mathlib.Core.Bool.{Bool, true, false}
use mathlib.Core.Option.{Option, none, some}
use pso_workspace.Base.Tests.{if◌then◌else◌}

pub data Outcome (S A : Type 0) : Type 0 where
  done : A → S → Outcome S A
  blocked : S → Outcome S A
  exited : S → Outcome S A
  fault : Outcome S A

abbrev pub M : Type 0 → Type 0 → Type 0
M S A = S → Outcome S A

abbrev pub bind : {S A B : Type 0} → Outcome S A → (A → M S B) → Outcome S B
bind (done a s) f = f a s
bind (blocked s) f = blocked s
bind (exited s) f = exited s
bind fault f = fault

infixl 5 ◌>>=◌ ◌>>◌
abbrev pub ◌>>=◌ : {S A B : Type 0} → M S A → (A → M S B) → M S B
◌>>=◌ m f s = bind (m s) f

abbrev pub ◌>>◌ : {S B : Type 0} → M S (Unit {0}) → M S B → M S B
m >> k = m >>= λ _. k

abbrev pub pure : {S A : Type 0} → A → M S A
pure a s = done a s

abbrev pub get_state : {S : Type 0} → M S S
get_state s = done s s

abbrev pub modify : {S : Type 0} → (S → S) → M S (Unit {0})
modify f s = done tt (f s)

abbrev pub when : {S : Type 0} → Bool → M S (Unit {0}) → M S (Unit {0})
when b m s = if b then m s else done tt s

-- A pointer that may be null, or an index that may be out of range.
abbrev pub deref : {S A : Type 0} → Option A → M S A
deref none s = fault
deref (some a) s = done a s

-- The states in which the program goes on: after a return, and as another thread sees it while
-- this one waits.
abbrev pub Ends : {S A : Type 0} → (S → Type 0) → Outcome S A → Type 0
Ends P (done a s) = P s
Ends P (blocked s) = P s
Ends P (exited s) = P s
Ends P fault = Unit

abbrev pub Returns : {S A : Type 0} → (A → S → Type 0) → Outcome S A → Type 0
Returns P (done a s) = P a s
Returns P (blocked s) = ⊥
Returns P (exited s) = ⊥
Returns P fault = ⊥

-- A rule for `do` blocks: what the first part establishes carries through the rest.
pub Ends-bind :
    {S A B : Type 0} (P : S → Type 0) (m : Outcome S A) (f : A → M S B)
    → Ends P m
    → ((a : A) (s : S) → P s → Ends P (f a s))
    → Ends P (bind m f)
Ends-bind P (done a s) f h k = k a s h
Ends-bind P (blocked s) f h k = h
Ends-bind P (exited s) f h k = h
Ends-bind P fault f h k = tt

-- The same where the first part promises more than the whole.
pub Ends-then :
    {S A B : Type 0} (P Q : S → Type 0) (m : Outcome S A) (f : A → M S B)
    → Ends P m
    → ((s : S) → P s → Q s)
    → ((a : A) (s : S) → P s → Ends Q (f a s))
    → Ends Q (bind m f)
Ends-then P Q (done a s) f h w k = k a s h
Ends-then P Q (blocked s) f h w k = w s h
Ends-then P Q (exited s) f h w k = w s h
Ends-then P Q fault f h w k = tt

pub Ends-when :
    {S : Type 0} (P : S → Type 0) (b : Bool) (m : M S (Unit {0})) (s : S)
    → P s
    → Ends P (m s)
    → Ends P (when b m s)
Ends-when P true m s h k = k
Ends-when P false m s h k = h
