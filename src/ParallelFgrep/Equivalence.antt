-- ===== src/ParallelFgrep/Equivalence.antt =====
-- The threads of Lab7_threads/lin_Exercises/4-pfgrep/parallel_fgrep.c together against one thread.
use pso_workspace.Base.{
  ℕ, zero, suc, ◌+◌, ◌*◌, ◌-◌, ◌%◌, ◌≤◌, ◌<◌, ◌≡◌, refl, true, false, length, if◌then◌else◌, arith,
  Bool-cases, inl, inr, dec_lt, ◌∙◌, ap, ◌∷◌, [],
}
use native.Mathlib.Nat.{add-zero, zero-add, sub-zero}
use pso_workspace.Base.Text.{Text}
use pso_workspace.ParallelFgrep.Count.{
  counted, outside, count_loop, count, serial_fgrep, sub64, unsigned_mod, matches, size_mod,
}
use pso_workspace.ParallelFgrep.Chunks.{
  total_of, Params, parallel_fgrep, thread_code, split_file_mapping, last_part, chunk_of,
  third_part,
}
use pso_workspace.ParallelFgrep.Occurrences.{
  occurrences-le, occurrences, occurrences-add, occurrences-matched, IsUnbordered,
}

module _ (what file : Text) (start bound : ℕ) where
  pub count_loop-stop :
      (fuel i total : ℕ)
      → bound ≤ i
      → count_loop what file start bound (suc fuel) i total ≡ counted total
  unfolding count_loop
  count_loop-stop fuel i total h = ground arith

  pub count_loop-next :
      (fuel i total : ℕ)
      → i < bound
      → start + i + length what ≤ length file
      → count_loop what file start bound (suc fuel) i total
        ≡ count_loop what file start bound fuel
            ((if matches what file (start + i) then i + length what else i + 1) % unsigned_mod)
            ((if matches what file (start + i) then total + 1 else total) % unsigned_mod)
  unfolding count_loop
  count_loop-next fuel i total h k = ground arith

  pub count_loop-outside :
      (fuel i total : ℕ)
      → i < bound
      → length file < start + i + length what
      → count_loop what file start bound (suc fuel) i total ≡ outside
  unfolding count_loop
  count_loop-outside fuel i total h k = ground arith

module _ (what file : Text) (unbordered : IsUnbordered what) (some_pattern : 0 < length what)
    (small : suc (length file) < unsigned_mod) where
  module _ (start bound : ℕ) (fits : start + bound + length what ≤ suc (length file)) where
    matched :
        (i : ℕ)
        → matches what file (start + i) ≡ true
        → i < bound
        → occurrences what file (start + i) (bound - i)
          ≡ suc (occurrences what file (start + (i + length what)) (bound - (i + length what)))
    matched i h l =
        let n : ℕ = bound - i - 1 in
        let e : bound - i ≡ suc n = omega arith in
        let p : start + (i + length what) ≡ start + i + length what = omega arith in
        let q : bound - (i + length what) ≡ suc n - length what = omega arith in
        rw (e, p, q) (occurrences-matched what file unbordered (start + i) n h some_pattern)

    unmatched :
        (i : ℕ)
        → matches what file (start + i) ≡ false
        → i < bound
        → occurrences what file (start + i) (bound - i)
          ≡ occurrences what file (start + (i + 1)) (bound - (i + 1))
    unfolding occurrences
    unmatched i h l =
        let n : ℕ = bound - i - 1 in
        let e : bound - i ≡ suc n = omega arith in
        let p : start + (i + 1) ≡ start + i + 1 = omega arith in
        let q : bound - (i + 1) ≡ n = omega arith in rw (e, p, q, h) (omega arith)

    count_loop_lem :
        (fuel i total : ℕ)
        → bound - i < fuel
        → total + (bound - i) < unsigned_mod
        → count_loop what file start bound fuel i total
          ≡ counted (total + occurrences what file (start + i) (bound - i))
    unfolding occurrences
    count_loop_lem zero i total f t = absurd (omega arith)
    count_loop_lem (suc fuel) i total f t = elim (dec_lt i bound) [
      | no l ↦
          let e : bound - i ≡ 0 = omega arith in
          rw (e, add-zero) (count_loop-stop what file start bound fuel i total (omega arith))
      | yes l ↦
          count_loop-next what file start bound fuel i total l (omega arith)
          ∙ (elim (Bool-cases (matches what file (start + i))) [
            | inl h ↦
                let e : (i + length what) % unsigned_mod ≡ i + length what = omega arith in
                let c : (total + 1) % unsigned_mod ≡ total + 1 = omega arith in
                rw (h, e, c)
                  (count_loop_lem fuel (i + length what) (total + 1) (omega arith) (omega arith)
                    ∙ ap counted (omega (arith, matched i h l)))
            | inr h ↦
                let e : (i + 1) % unsigned_mod ≡ i + 1 = omega arith in
                let c : total % unsigned_mod ≡ total = omega arith in
                rw (h, e, c)
                  (count_loop_lem fuel (i + 1) total (omega arith) (omega arith)
                    ∙ ap counted (omega (arith, unmatched i h l)))
          ])
    ]

  count_lem :
      (fuel start size : ℕ)
      → start + size ≤ length file
      → length what ≤ suc size
      → length file < fuel
      → count what file fuel start size
        ≡ counted (occurrences what file start (suc size - length what))
  unfolding count
  count_lem fuel start size a b f =
      let e : sub64 (size + 1) (length what) ≡ suc size - length what = omega arith in
      rw e (
        count_loop_lem start (suc size - length what) (omega arith) fuel 0 0 (omega arith)
          (omega arith)
        ∙ ap counted (simp (zero-add, add-zero, sub-zero)))

-- The bytes that are left for the last thread.
abbrev pub rest_of : Text → ℕ
rest_of file = length file - 3 * chunk_of (length file)

abbrev pub thread_part : ℕ → ℕ → ℕ → Params
thread_part chunk size i = record { chunk_mem = i * chunk; chunk_size = size }

pub chunk_of-covers : (size : ℕ) → size < unsigned_mod → size ≤ 4 * chunk_of size
unfolding chunk_of
chunk_of-covers size h = omega arith

pub last_part_lem :
    (size chunk : ℕ)
    → size < unsigned_mod
    → 3 * chunk ≤ size
    → size ≤ 4 * chunk
    → last_part size chunk ≡ thread_part chunk (size - 3 * chunk) 3
unfolding last_part
last_part_lem size chunk h a b = ground arith

third_part_lem :
    (chunk m : ℕ) (last : Params)
    → chunk + m < size_mod
    → 0 < m
    → m ≤ suc last.chunk_size
    → third_part chunk m last ≡ thread_part chunk (chunk + m - 1) 2
unfolding third_part
third_part_lem chunk m last h a b = ground arith

split_file_mapping_lem :
    (m size chunk : ℕ)
    → chunk_of size ≡ chunk
    → size < unsigned_mod
    → 0 < m
    → 3 * chunk ≤ size
    → m ≤ suc (size - 3 * chunk)
    → split_file_mapping m size
      ≡ thread_part chunk (chunk + m - 1) 0
        ∷ thread_part chunk (chunk + m - 1) 1
        ∷ thread_part chunk (chunk + m - 1) 2
        ∷ thread_part chunk (size - 3 * chunk) 3
        ∷ []
unfolding split_file_mapping
split_file_mapping_lem m size chunk c small a b d =
    let e : sub64 (chunk + m) 1 ≡ chunk + m - 1 = omega arith in
    rw
      (
        c,
        last_part_lem size chunk small b (omega (arith, chunk_of-covers size)),
        e,
        third_part_lem chunk m (thread_part chunk (size - 3 * chunk) 3) (omega arith) a d,
      )
      refl

total_of_lem :
    (a b c d : ℕ)
    → a + b + c + d < size_mod
    → total_of (counted a ∷ counted b ∷ counted c ∷ counted d ∷ []) ≡ counted (a + b + c + d)
unfolding total_of
total_of_lem a b c d h = ap counted (omega arith)

-- Four stretches one behind the other, the last of another length.
occurrences-four :
    (what file : Text) (c r : ℕ)
    → occurrences what file 0 (3 * c + r)
      ≡ occurrences what file (0 * c) c
        + occurrences what file (1 * c) c
        + occurrences what file (2 * c) c
        + occurrences what file (3 * c) r
occurrences-four what file c r =
    let e : 3 * c + r ≡ c + (c + (c + r)) = omega arith in
    let e0 : 0 * c ≡ 0 = omega arith in
    let e1 : 1 * c ≡ 0 + c = omega arith in
    let e2 : 2 * c ≡ 0 + c + c = omega arith in
    let e3 : 3 * c ≡ 0 + c + c + c = omega arith in
    rw (e, e0, e1, e2, e3)
      (omega (
        arith,
        occurrences-add what file 0 c (c + (c + r)),
        occurrences-add what file (0 + c) c (c + r),
        occurrences-add what file (0 + c + c) c r,
      ))

-- A pattern that does not overlap itself, in a file of less than 2 ^ 32 - 1 bytes that reaches to the
-- last chunk, and of which the last chunk is not shorter than the pattern without one byte: the four
-- threads together count what one thread counts, which is at how many places the pattern occurs.
pub parallel-serial :
    (what file : Text) (fuel : ℕ)
    → IsUnbordered what
    → 0 < length what
    → suc (length file) < unsigned_mod
    → 3 * chunk_of (length file) ≤ length file
    → length what ≤ suc (rest_of file)
    → length file < fuel
    → (parallel_fgrep what file fuel ≡ serial_fgrep what file fuel)
      × (serial_fgrep what file fuel
          ≡ counted (occurrences what file 0 (suc (length file) - length what)))
unfolding parallel_fgrep thread_code
parallel-serial what file fuel unbordered some_pattern small reach last enough =
    let c : ℕ = chunk_of (length file) in
    let m : ℕ = length what in
    let n : ℕ = length file in
    let counted_at = λ (start size : ℕ) (a : start + size ≤ n) (b : m ≤ suc size).
      count_lem what file unbordered some_pattern small fuel start size a b enough in
    let one : serial_fgrep what file fuel ≡ counted (occurrences what file 0 (suc n - m)) =
      unfold serial_fgrep in counted_at 0 n (omega arith) (omega arith) in
    let r : ℕ = suc (rest_of file) - m in
    let whole : suc n - m ≡ 3 * c + r = omega arith in
    let chunk : suc (c + m - 1) - m ≡ c = omega arith in
    let parts = occurrences-four what file c r in
    let total : counted (occurrences what file 0 (suc n - m))
        ≡ counted (
            occurrences what file (0 * c) c
            + occurrences what file (1 * c) c
            + occurrences what file (2 * c) c
            + occurrences what file (3 * c) r) =
      ap counted (ap (occurrences what file 0) whole ∙ parts) in
    (
      rw
          (
            split_file_mapping_lem m n c refl (omega arith) some_pattern reach last,
            counted_at (0 * c) (c + m - 1) (omega arith) (omega arith),
            counted_at (1 * c) (c + m - 1) (omega arith) (omega arith),
            counted_at (2 * c) (c + m - 1) (omega arith) (omega arith),
            counted_at (3 * c) (rest_of file) (omega arith) last,
            chunk,
            one,
            total,
          )
          (total_of_lem _ _ _ _ (omega (arith, occurrences-le what file 0 (3 * c + r), parts))),
      one,
    )
