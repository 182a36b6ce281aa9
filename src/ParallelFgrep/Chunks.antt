-- ===== src/ParallelFgrep/Chunks.antt =====
-- The chunks of Lab7_threads/lin_Exercises/4-pfgrep/parallel_fgrep.c and the sum over the threads. The
-- threads share nothing that is written, so their order makes no difference.
use pso_workspace.Base.{ℕ, ◌+◌, ◌*◌, ◌/◌, ◌%◌, List, [], ◌∷◌, map, length, ltb, if◌then◌else◌}
use pso_workspace.Base.Text.{Text}
use pso_workspace.ParallelFgrep.Count.{Search, counted, outside, unfinished, count, sub64, size_mod}

pub record Params : Type 0 where
  pub chunk_mem : ℕ
  pub chunk_size : ℕ

abbrev pub num_threads : ℕ
num_threads = 4

unfoldable pub chunk_of : ℕ → ℕ
chunk_of size = sub64 (size + num_threads) 1 / num_threads

-- MIN
abbrev min_of : ℕ → ℕ → ℕ
min_of a b = if ltb a b then a else b

abbrev pub part : ℕ → ℕ → ℕ → Params
part chunk string_size i = record {
  chunk_mem = i * chunk;
  chunk_size = sub64 (chunk + string_size) 1;
}

unfoldable pub last_part : ℕ → ℕ → Params
last_part size chunk = record {
  chunk_mem = 3 * chunk;
  chunk_size = min_of chunk (sub64 size (3 * chunk));
}

-- The third chunk, cut at the end of the last one where that is short.
unfoldable pub third_part : ℕ → ℕ → Params → Params
third_part chunk string_size last =
    if ltb last.chunk_size (sub64 string_size 1)
    then record { chunk_mem = 2 * chunk; chunk_size = chunk + last.chunk_size }
    else part chunk string_size 2

unfoldable pub split_file_mapping : ℕ → ℕ → List Params
split_file_mapping string_size size =
    let chunk = chunk_of size in
    let last = last_part size chunk in
    part chunk string_size 0
    ∷ part chunk string_size 1
    ∷ third_part chunk string_size last
    ∷ last
    ∷ []

-- `total +=` a thread's result
abbrev pub plus : Search → Search → Search
plus (counted m) (counted n) = counted ((m + n) % size_mod)
plus (counted m) outside = outside
plus (counted m) unfinished = unfinished
plus outside r = outside
plus unfinished r = unfinished

unfoldable pub total_of : List Search → Search
total_of [] = counted 0
total_of (r ∷ rs) = plus r (total_of rs)

module _ (what file : Text) where
  unfoldable pub thread_code : ℕ → Params → Search
  thread_code fuel p = count what file fuel p.chunk_mem p.chunk_size

  unfoldable pub parallel_fgrep : ℕ → Search
  parallel_fgrep fuel =
      total_of (map (thread_code fuel) (split_file_mapping (length what) (length file)))
