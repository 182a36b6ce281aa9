-- ===== src/ParallelFgrep/Ends.antt =====
-- How the searches of Lab7_threads/lin_Exercises/4-pfgrep/parallel_fgrep.c end where nothing is known
-- of the pattern.
use pso_workspace.Base.{
  Bool-cases, refl, dec_lt, ◌%◌, inl, inr, ℕ, zero, suc, ◌+◌, ◌*◌, ◌-◌, ◌≤◌, ◌<◌, ◌≡◌, ◌≢◌, length,
  arith,
}
use pso_workspace.Base.Text.{Text}
use pso_workspace.ParallelFgrep.Count.{
  matches, Search, counted, outside, unfinished, count_loop, count, sub64, unsigned_mod,
}
use pso_workspace.ParallelFgrep.Chunks.{
  third_part, Params, plus, parallel_fgrep, thread_code, split_file_mapping, chunk_of, total_of,
}
use pso_workspace.ParallelFgrep.Equivalence.{
  thread_part, count_loop-stop, count_loop-next, last_part_lem, chunk_of-covers, rest_of,
  count_loop-outside,
}

module _ (what file : Text) (some_pattern : 0 < length what) where
  count_loop-ends :
      (start bound fuel i total : ℕ)
      → length file + length what < unsigned_mod
      → length file - i < fuel
      → count_loop what file start bound fuel i total ≢ unfinished
  count_loop-ends start bound zero i total small f = absurd (omega arith)
  count_loop-ends start bound (suc fuel) i total small f = elim (dec_lt i bound) [
    | no l ↦ rw (count_loop-stop what file start bound fuel i total (omega arith)) (λ h. cc)
    | yes l ↦ elim (dec_lt (length file) (start + i + length what)) [
      | yes k ↦ rw (count_loop-outside what file start bound fuel i total l k) (λ h. cc)
      | no k ↦
          rw (count_loop-next what file start bound fuel i total l (omega arith))
            (elim (Bool-cases (matches what file (start + i))) [
              | inl h ↦
                  let e : (i + length what) % unsigned_mod ≡ i + length what = omega arith in
                  rw (h, e) (count_loop-ends start bound fuel _ _ small (omega arith))
              | inr h ↦
                  let e : (i + 1) % unsigned_mod ≡ i + 1 = omega arith in
                  rw (h, e) (count_loop-ends start bound fuel _ _ small (omega arith))
            ])
    ]
  ]

  -- For a pattern that is not empty, in a file that has together with it less than 2 ^ 32 bytes, and any
  -- stretch, also one that is too short for the pattern or lies outside of the file: with fuel for the
  -- bytes of the file, the loop of `count` ends.
  pub count-ends :
      (fuel start size : ℕ)
      → length file + length what < unsigned_mod
      → length file < fuel
      → count what file fuel start size ≢ unfinished
  unfolding count
  count-ends fuel start size small f =
      count_loop-ends start (sub64 (size + 1) (length what)) fuel 0 0 small (omega arith)

plus-outside : (r : Search) → r ≢ unfinished → plus r outside ≡ outside
plus-outside (counted n) h = refl
plus-outside outside h = refl
plus-outside unfinished h = absurd (h refl)

-- A thread whose stretch is too short for the pattern, at the end of the file.
short_part :
    (what file : Text) (fuel start size : ℕ)
    → length what < unsigned_mod
    → suc size < length what
    → start + size ≡ length file
    → 0 < fuel
    → count what file fuel start size ≡ outside
unfolding count
short_part what file zero start size small short e f = absurd (omega arith)
short_part what file (suc fuel) start size small short e f =
    count_loop-outside what file start (sub64 (size + 1) (length what)) fuel 0 0 (omega arith)
      (omega arith)

-- When the last chunk is shorter than the pattern without one byte, in a file that reaches to that chunk
-- and has together with the pattern less than 2 ^ 32 bytes: the thread that has it reads behind the end
-- of the file, since the number of its places wraps around, and the program with four threads gives no
-- result, with fuel for the bytes of the file.
pub parallel_short_last :
    (what file : Text) (fuel : ℕ)
    → length file + length what < unsigned_mod
    → 3 * chunk_of (length file) ≤ length file
    → suc (rest_of file) < length what
    → length file < fuel
    → parallel_fgrep what file fuel ≡ outside
unfolding parallel_fgrep thread_code split_file_mapping total_of
parallel_short_last what file fuel small reach short f =
    let c : ℕ = chunk_of (length file) in
    let size : ℕ = sub64 (c + length what) 1 in
    let third : Params = third_part c (length what) (thread_part c (rest_of file) 3) in
    let before = λ (start size : ℕ).
      plus-outside (count what file fuel start size)
        (count-ends what file (omega arith) fuel start size small f) in
    rw
      (
        last_part_lem (length file) (chunk_of (length file)) (omega arith) reach
            (chunk_of-covers (length file) (omega arith)),
        short_part what file fuel (3 * chunk_of (length file)) (rest_of file) (omega arith) short
            (omega arith) (omega arith),
        before third.chunk_mem third.chunk_size,
        before (1 * c) size,
      )
      (before (0 * c) size)
