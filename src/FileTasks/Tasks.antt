-- ===== src/FileTasks/Tasks.antt =====
-- Single tasks of EXAMS/30.01.2023/server.c: writing a file, and summing up two.
use pso_workspace.Base.{
  ℕ, zero, suc, ◌+◌, ◌*◌, ◌/◌, ◌<◌, ◌≡◌, refl, true, some, [], ◌∷◌, take, drop, length, arith,
  length-drop, Bool, ◌∙◌, subst,
}
use pso_workspace.Base.Text.{Text}
use pso_workspace.Base.Integers.{ℤ, pos, negsuc, pos_part, neg_part, ◌+ℤ◌, eq_of_parts, int_laws}
use pso_workspace.Base.Shelf.{assign}
use pso_workspace.Base.Machine.{done, blocked}
use pso_workspace.FileTasks.Files.{
  Server, max_files, find_file, verify_existency, insert_file, add_in_list, set_flag, set_files,
  generate, checksum, char_value, rem_1000, sum_bytes, sum_chunks, save,
}

-- The sum of all bytes, as signed characters.
unfoldable pub total : Text → ℤ
total [] = pos 0
total (c ∷ s) = char_value c +ℤ total s

-- The difference of the two is a multiple of 1000.
abbrev pub Congruent : ℤ → ℤ → Type 0
Congruent a b =
    (i : ℕ) × ((j : ℕ) × (pos_part a + neg_part b + 1000 * i ≡ pos_part b + neg_part a + 1000 * j))

Congruent-trans : (a b c : ℤ) → Congruent a b → Congruent b c → Congruent a c
Congruent-trans a b c (i, (j, e)) (k, (l, f)) = (i + k, (j + l, omega arith))

Congruent-add : (a b c : ℤ) → Congruent a b → Congruent (a +ℤ c) (b +ℤ c)
Congruent-add a b c (i, (j, e)) = (i, (j, omega int_laws))

rem_1000-small : (a : ℤ) → pos_part (rem_1000 a) + neg_part (rem_1000 a) < 1000
unfolding rem_1000
rem_1000-small (pos n) = omega arith
rem_1000-small (negsuc n) = ground arith

rem_1000-Congruent : (a : ℤ) → Congruent (rem_1000 a) a
unfolding rem_1000
rem_1000-Congruent (pos n) = (n / 1000, (0, omega arith))
rem_1000-Congruent (negsuc n) = (0, (suc n / 1000, ground arith))

sum_bytes_lem : (sum : ℤ) (s : Text) → sum_bytes sum s ≡ sum +ℤ total s
unfolding sum_bytes total
sum_bytes_lem sum [] = eq_of_parts _ _ (omega int_laws)
sum_bytes_lem sum (c ∷ s) = sum_bytes_lem (sum +ℤ char_value c) s ∙ eq_of_parts _ _ (omega int_laws)

total-split : (n : ℕ) (s : Text) → total s ≡ total (take n s) +ℤ total (drop n s)
unfolding total
total-split zero s = eq_of_parts _ _ (omega int_laws)
total-split (suc n) [] = eq_of_parts _ _ (omega int_laws)
total-split (suc n) (c ∷ s) = rw (total-split n s) (eq_of_parts _ _ (omega int_laws))

-- What the loops make of the rest of a file.
abbrev Summed : ℕ → ℕ → ℤ → Text → Type 0
Summed size fuel sum s =
    (r : ℤ) × (sum_chunks size fuel sum s ≡ some r)
    × (pos_part r + neg_part r < 1000)
    × Congruent r (sum +ℤ total s)

sum_chunks-from :
    (size fuel : ℕ) (sum : ℤ) (s : Text)
    → 0 < size
    → length s < fuel
    → pos_part sum + neg_part sum < 1000
    → Summed size fuel sum s
unfolding sum_chunks total
sum_chunks-from size zero sum s a b c = absurd (omega arith)
sum_chunks-from size (suc fuel) sum [] a b c = (sum, refl, c, (0, (0, omega int_laws)))
sum_chunks-from size (suc fuel) sum (x ∷ s) a b c =
    let chunk : Text = take size (x ∷ s) in
    let rest : Text = drop size (x ∷ s) in
    let next : ℤ = rem_1000 (sum_bytes sum chunk) in
    let (r, ends, small, near) =
      sum_chunks-from size fuel next rest a (omega (arith, length-drop size (x ∷ s)))
        (rem_1000-small (sum_bytes sum chunk)) in
    let whole : sum_bytes sum chunk +ℤ total rest ≡ sum +ℤ total (x ∷ s) =
      rw (sum_bytes_lem sum chunk, total-split size (x ∷ s)) (eq_of_parts _ _ (omega int_laws)) in
    (
      r,
      ends,
      small,
      subst (Congruent r) whole (
          Congruent-trans r (next +ℤ total rest) (sum_bytes sum chunk +ℤ total rest) near (
            Congruent-add next (sum_bytes sum chunk) (total rest)
              (rem_1000-Congruent (sum_bytes sum chunk)))),
    )

-- Whatever the size of the buffer, with fuel for the bytes of the file: the loops of `checksum` end with
-- a number between -999 and 999 that differs from the sum of all bytes of the file, each read as a
-- signed `char`, by a multiple of 1000.
pub sum_chunks_lem :
    (size fuel : ℕ) (s : Text)
    → 0 < size
    → length s < fuel
    → (r : ℤ) × (sum_chunks size fuel (pos 0) s ≡ some r)
      × (pos_part r + neg_part r < 1000)
      × Congruent r (total s)
sum_chunks_lem size fuel s a b =
    let (r, ends, small, near) = sum_chunks-from size fuel (pos 0) s a b (omega arith) in
    let e : pos 0 +ℤ total s ≡ total s = eq_of_parts _ _ (omega int_laws) in
    (r, ends, small, subst (Congruent r) e near)

module _ (bufsiz : ℕ) (opens : Text → Bool) (s : Server) where
  -- "generate" for a file that is in the list and free, and that can be opened: the content is on the
  -- disk, the file is free again, and no task is left.
  pub generate_lem :
      (to_write name : Text) (id : ℕ)
      → verify_existency s.files name ≡ id
      → s.files.use_flag id ≡ 0
      → opens name ≡ true
      → generate bufsiz opens to_write name s
        ≡ done tt (record s {
          files = set_flag id 0 (set_flag id 1 s.files);
          disk = save s.disk name to_write;
        })
  unfolding generate
  generate_lem to_write name id found free open_it = ground arith

  -- "checksum" of one file with itself: the task waits for ever for the file that it has taken.
  pub checksum_self :
      (name : Text) (id : ℕ)
      → verify_existency s.files name ≡ id
      → s.files.use_flag id ≡ 0
      → checksum bufsiz opens name name s
        ≡ blocked (record s { files = set_flag id 1 s.files; current_tasks = suc s.current_tasks })
  unfolding checksum verify_existency
  checksum_self name id found free = ground arith

-- The first file of the list is not recognised: it is added again, each time that it is named.
pub add_in_list_first :
    (name : Text) (s : Server)
    → find_file s.files.filename name s.files.list_counter 0 ≡ some 0
    → s.files.list_counter < max_files
    → add_in_list name s
      ≡ done tt (
          set_files
            (record s.files {
              use_flag = assign s.files.use_flag s.files.list_counter 0;
              filename = assign s.files.filename s.files.list_counter name;
              list_counter = suc s.files.list_counter;
            })
            s)
unfolding add_in_list verify_existency insert_file
add_in_list_first name s known room = ground arith
