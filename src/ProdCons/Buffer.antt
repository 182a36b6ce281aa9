-- ===== src/ProdCons/Buffer.antt =====
-- `buffer_t` of Lab7_threads/lin_Exercises/7-prodcons/prodcons.c: a stack in an array of three. An
-- index out of range is a fault.
use pso_workspace.Base.{ℕ, zero, suc, Bool, Option, none, some, ltb, ◌==◌, if◌then◌else◌}

abbrev pub buffer_size : ℕ
buffer_size = 3

pub record Buffer : Type 0 where
  pub buff : ℕ → ℕ
  pub count : ℕ

abbrev pub put : (ℕ → ℕ) → ℕ → ℕ → ℕ → ℕ
put f i x j = if i == j then x else f j

unfoldable pub init_buffer : Buffer
init_buffer = record { buff = λ i. 0; count = 0 }

unfoldable pub insert_item : Buffer → ℕ → Option Buffer
insert_item b item =
    if ltb b.count buffer_size
    then some (record { buff = put b.buff b.count item; count = suc b.count })
    else none

abbrev taken_from : (ℕ → ℕ) → ℕ → Option (ℕ × Buffer)
taken_from f zero = none
taken_from f (suc n) =
    if ltb n buffer_size then some (f n, record { buff = f; count = n }) else none

unfoldable pub remove_item : Buffer → Option (ℕ × Buffer)
remove_item b = taken_from b.buff b.count

abbrev pub is_buffer_full : Buffer → Bool
is_buffer_full b = b.count == buffer_size

abbrev pub is_buffer_empty : Buffer → Bool
is_buffer_empty b = b.count == 0
