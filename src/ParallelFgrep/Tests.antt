-- ===== src/ParallelFgrep/Tests.antt =====
-- Searches of short texts by Lab7_threads/lin_Exercises/4-pfgrep/parallel_fgrep.c.
use pso_workspace.ParallelFgrep.Equivalence.{parallel-serial}
use pso_workspace.ParallelFgrep.Ends.{count-ends, parallel_short_last}
use pso_workspace.ParallelFgrep.Occurrences.{IsUnbordered, occurrences}
use pso_workspace.Base.Text.{codes}
use pso_workspace.Base.{zero, suc, arith, ◌≢◌, refl, ◌≡◌}
use pso_workspace.ParallelFgrep.Count.{
  unfinished, serial_fgrep, count, count_loop, is_prefix, counted, outside,
}
use pso_workspace.ParallelFgrep.Chunks.{
  split_file_mapping, thread_code, total_of, last_part, third_part, chunk_of, parallel_fgrep,
}

count_tests :
    (serial_fgrep (codes "aa") (codes "aaaxaa") 9 ≡ counted 2)
    × (serial_fgrep (codes "abcd") (codes "ab") 9 ≡ outside)
unfolding serial_fgrep is_prefix
count_tests = (refl, refl)

-- A pattern that overlaps itself is found once more than with one thread.
chunks_tests :
    (parallel_fgrep (codes "ab") (codes "xabxxabb") 9 ≡ counted 2)
    × (parallel_fgrep (codes "aa") (codes "xaaaxxxx") 9 ≡ counted 2)
    × (serial_fgrep (codes "aa") (codes "xaaaxxxx") 9 ≡ counted 1)
    × (parallel_fgrep (codes "abcd") (codes "xabcdxxx") 9 ≡ outside)
unfolding parallel_fgrep split_file_mapping thread_code total_of chunk_of last_part third_part
    serial_fgrep count count_loop is_prefix
chunks_tests = (refl, refl, refl, refl)

ab_IsUnbordered : IsUnbordered (codes "ab")
unfolding is_prefix
ab_IsUnbordered zero h l = absurd (omega arith)
ab_IsUnbordered (suc zero) h l = refl
ab_IsUnbordered (suc (suc k)) h l = absurd (omega arith)

parallel-serial_example :
    (parallel_fgrep (codes "ab") (codes "xabxxabb") 9
      ≡ serial_fgrep (codes "ab") (codes "xabxxabb") 9)
    × (serial_fgrep (codes "ab") (codes "xabxxabb") 9
        ≡ counted (occurrences (codes "ab") (codes "xabxxabb") 0 7))
unfolding chunk_of
parallel-serial_example =
    parallel-serial (codes "ab") (codes "xabxxabb") 9 ab_IsUnbordered (omega arith) (omega arith)
      (omega arith) (omega arith) (omega arith)

count-ends_example : count (codes "aa") (codes "xaaa") 5 2 1 ≢ unfinished
count-ends_example =
    count-ends (codes "aa") (codes "xaaa") (omega arith) 5 2 1 (omega arith) (omega arith)

parallel_short_last_example : parallel_fgrep (codes "abcd") (codes "xabcdxxx") 9 ≡ outside
unfolding chunk_of
parallel_short_last_example =
    parallel_short_last (codes "abcd") (codes "xabcdxxx") 9 (omega arith) (omega arith)
      (omega arith) (omega arith)
