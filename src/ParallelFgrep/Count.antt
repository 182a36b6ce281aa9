-- ===== src/ParallelFgrep/Count.antt =====
-- `count` of Lab7_threads/lin_Exercises/4-pfgrep/parallel_fgrep.c and serial_fgrep.c. The mapped file
-- is its list of bytes, a pointer into it an index. `size_t` has 64 bits, `unsigned int` 32. A `memcmp`
-- that reaches behind the end of the file is `outside`, also where its first bytes differ.
use pso_workspace.Base.{
  ℕ, zero, suc, ◌+◌, ◌-◌, ◌%◌, Bool, true, false, ◌&&◌, [], ◌∷◌, drop, length, ltb, ◌==◌,
  if◌then◌else◌,
}
use pso_workspace.Base.Text.{Text}

abbrev pub size_mod : ℕ
size_mod = 18446744073709551616

abbrev pub unsigned_mod : ℕ
unsigned_mod = 4294967296

-- a - b on `size_t`
abbrev pub sub64 : ℕ → ℕ → ℕ
sub64 a b = (a + (size_mod - b)) % size_mod

-- How a search ends: with a number, with a read outside of the file, or not within its fuel.
pub data Search : Type 0 where
  counted : ℕ → Search
  outside : Search
  unfinished : Search

unfoldable pub is_prefix : Text → Text → Bool
is_prefix [] s = true
is_prefix (c ∷ w) [] = false
is_prefix (c ∷ w) (d ∷ s) = c == d && is_prefix w s

module _ (what file : Text) where
  -- `memcmp(where + i, what, what_size) == 0`
  abbrev pub matches : ℕ → Bool
  matches at = is_prefix what (drop at file)

  -- The loop of `count` from `where + i` on, where `where` is at index `start`. A round takes a unit
  -- of fuel.
  unfoldable pub count_loop : ℕ → ℕ → ℕ → ℕ → ℕ → Search
  count_loop start bound zero i total = unfinished
  count_loop start bound (suc fuel) i total = elim (ltb i bound) [
    | false ↦ counted total
    | true ↦ elim (ltb (length file) (start + i + length what)) [
      | true ↦ outside
      | false ↦
          count_loop start bound fuel
            ((if matches (start + i) then i + length what else i + 1) % unsigned_mod)
            ((if matches (start + i) then total + 1 else total) % unsigned_mod)
    ]
  ]

  unfoldable pub count : ℕ → ℕ → ℕ → Search
  unfolding count_loop
  count fuel where_start where_size =
      count_loop where_start (sub64 (where_size + 1) (length what)) fuel 0 0

  -- The program with one thread.
  unfoldable pub serial_fgrep : ℕ → Search
  unfolding count
  serial_fgrep fuel = count fuel 0 (length file)
